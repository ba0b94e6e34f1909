-- ===== src/Primitives/Ssz/Binding.antt =====
-- Roots commit to what they are computed from: two values with one root are equal, or a collision of
-- SHA-256 has been found.
use shell_chain_specs.Common.{
  ℕ, zero, suc, ◌-◌, ◌^◌, ◌≤◌, ◌<◌, ◌≡◌, refl, sym, ap, ap₂, ◌∙◌, ◌⊎◌, inl, inr, List, [], ◌∷◌,
  ◌++◌, Bytes, length, take, drop, get_or, replicate, All, ltb, Bool-cases, arith, length-take,
  length-drop, length-append, length-replicate, append-inj, take-append-drop, All-take, All-drop,
  drop_all, bytes_eq, bytes_eq→eq, eq→bytes_eq, ltb→lt, ltb_false→le,
}
use native.Mathlib.Nat.{two-pow-succ}
use shell_chain_specs.Primitives.Types.{Root, zero_root}
use shell_chain_specs.Primitives.Hash.{Sha256, Collision}
use shell_chain_specs.Primitives.Ssz.{sha256_pair, merkleize_loop, merkleize, fill_chunk}
use shell_chain_specs.Primitives.Ssz.Merkle.{
  merkleize_loop-leaf, merkleize_loop-node, upper_half, upper_half-lt,
}

abbrev pub IsChunk : Bytes → Type 0
IsChunk c = length c ≡ 32

pub fill_chunk-inj : (a b : Bytes) → length a ≡ length b → fill_chunk a ≡ fill_chunk b → a ≡ b
fill_chunk-inj a b len e = (append-inj a _ b _ len e).0

pub fill_chunk-IsChunk : (a : Bytes) → length a ≤ 32 → IsChunk (fill_chunk a)
fill_chunk-IsChunk a fits = omega (
  arith,
  length-append a (replicate (32 - length a) 0),
  length-replicate {A = ℕ} (32 - length a) 0,
)

module _ (h : Sha256) where
  -- `P`, or a collision.
  abbrev pub Bound {ℓ} : Type ℓ → Type ℓ
  Bound P = P ⊎ Collision h

  pub both {ℓ κ ι} : {P : Type ℓ} {Q : Type κ} {R : Type ι} → P ⊎ R → (P → Q ⊎ R) → Q ⊎ R
  both (inl p) f = f p
  both (inr c) f = inr c

  pub digest-binds : (x y : Bytes) → h.digest x ≡ h.digest y → Bound (x ≡ y)
  digest-binds x y e = elim (Bool-cases (bytes_eq x y)) [
    | inl same ↦ inl (bytes_eq→eq x y same)
    | inr other ↦ inr (record {
      left = x;
      right = y;
      distinct = λ (p : x ≡ y). cc (eq→bytes_eq x y p, other);
      same_digest = e;
    })
  ]

  pub pair-binds :
      (a b c d : Root)
      → IsChunk a
      → IsChunk c
      → sha256_pair h a b ≡ sha256_pair h c d
      → Bound ((a ≡ c) × (b ≡ d))
  unfolding sha256_pair
  pair-binds a b c d ha hc e =
      both (digest-binds (a ++ b) (c ++ d) e) λ p. inl (append-inj a b c d (ha ∙ sym hc) p)

  get_or-IsChunk : (chunks : List Root) → All IsChunk chunks → IsChunk (get_or chunks 0 zero_root)
  get_or-IsChunk [] v = refl
  get_or-IsChunk (c ∷ chunks) v = v.0

  merkleize_loop-IsChunk :
      (fuel d : ℕ) (chunks : List Root)
      → d < fuel
      → All IsChunk chunks
      → IsChunk (merkleize_loop h fuel chunks (2 ^ d))
  unfolding sha256_pair
  merkleize_loop-IsChunk zero d chunks b v = absurd (omega arith)
  merkleize_loop-IsChunk (suc fuel) zero chunks b v =
      ap length (merkleize_loop-leaf h fuel chunks) ∙ get_or-IsChunk chunks v
  merkleize_loop-IsChunk (suc fuel) (suc d) chunks b v =
      ap length (merkleize_loop-node h fuel d chunks) ∙ h.length-digest _

  pub merkleize-IsChunk :
      (d : ℕ) (chunks : List Root)
      → d < 64
      → All IsChunk chunks
      → IsChunk (merkleize h chunks (2 ^ d))
  unfolding merkleize
  merkleize-IsChunk d chunks b v = merkleize_loop-IsChunk 64 d chunks b v

  one_chunk :
      (xs ys : List Root)
      → length xs ≡ length ys
      → length xs ≤ 1
      → get_or xs 0 zero_root ≡ get_or ys 0 zero_root
      → xs ≡ ys
  one_chunk [] [] len fits e = refl
  one_chunk [] (y ∷ ys) len fits e = absurd (omega arith)
  one_chunk (x ∷ xs) [] len fits e = absurd (omega arith)
  one_chunk (x ∷ []) (y ∷ []) len fits e = ap (λ (c : Root). c ∷ []) e
  one_chunk (x ∷ []) (y ∷ z ∷ ys) len fits e = absurd (omega arith)
  one_chunk (x ∷ w ∷ xs) (y ∷ ys) len fits e = absurd (omega arith)

  halves : (n : ℕ) (xs ys : List Root) → take n xs ≡ take n ys → drop n xs ≡ drop n ys → xs ≡ ys
  halves n xs ys p q = sym (take-append-drop n xs) ∙ ap₂ ◌++◌ p q ∙ take-append-drop n ys

  merkleize_loop-binds :
      (fuel d : ℕ) (xs ys : List Root)
      → d < fuel
      → length xs ≡ length ys
      → length xs ≤ 2 ^ d
      → All IsChunk xs
      → All IsChunk ys
      → merkleize_loop h fuel xs (2 ^ d) ≡ merkleize_loop h fuel ys (2 ^ d)
      → Bound (xs ≡ ys)
  merkleize_loop-binds zero d xs ys b len fits vx vy e = absurd (omega arith)
  merkleize_loop-binds (suc fuel) zero xs ys b len fits vx vy e = inl (
      one_chunk xs ys len fits
        (sym (merkleize_loop-leaf h fuel xs) ∙ e ∙ merkleize_loop-leaf h fuel ys))
  merkleize_loop-binds (suc fuel) (suc d) xs ys b len fits vx vy e =
      let half = 2 ^ d in
      let lx = length-take half xs in
      let ly = length-take half ys in
      let kx = length-drop half xs in
      let ky = length-drop half ys in
      both
        (pair-binds _ (upper_half h fuel d xs) _ (upper_half h fuel d ys)
          (merkleize_loop-IsChunk fuel d (take half xs) (omega arith) (All-take IsChunk half xs vx))
          (merkleize_loop-IsChunk fuel d (take half ys) (omega arith) (All-take IsChunk half ys vy))
          (sym (merkleize_loop-node h fuel d xs) ∙ e ∙ merkleize_loop-node h fuel d ys))
        λ p.
          both
            (merkleize_loop-binds fuel d (take half xs) (take half ys) (omega arith) (omega arith)
              (omega arith) (All-take IsChunk half xs vx) (All-take IsChunk half ys vy) p.0)
            λ low.
              both
                (elim (Bool-cases (ltb half (length xs))) [
                  | inl more ↦
                      let long = ltb→lt _ _ more in
                      merkleize_loop-binds fuel d (drop half xs) (drop half ys) (omega arith)
                        (omega arith) (omega (arith, two-pow-succ d)) (All-drop IsChunk half xs vx)
                        (All-drop IsChunk half ys vy)
                        (sym (upper_half-lt h fuel d xs long)
                          ∙ p.1
                          ∙ upper_half-lt h fuel d ys (omega arith))
                  | inr short ↦
                      let past = ltb_false→le _ _ short in
                      inl (drop_all half xs past ∙ sym (drop_all half ys (omega arith)))
                ])
                λ high. inl (halves half xs ys low high)

  -- Two lists of as many chunks, within the limit, with one root are equal, or SHA-256 collides.
  pub merkleize-binds :
      (d : ℕ) (xs ys : List Root)
      → d < 64
      → length xs ≡ length ys
      → length xs ≤ 2 ^ d
      → All IsChunk xs
      → All IsChunk ys
      → merkleize h xs (2 ^ d) ≡ merkleize h ys (2 ^ d)
      → Bound (xs ≡ ys)
  unfolding merkleize
  merkleize-binds d xs ys b len fits vx vy e = merkleize_loop-binds 64 d xs ys b len fits vx vy e

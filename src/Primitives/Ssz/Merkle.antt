-- ===== src/Primitives/Ssz/Merkle.antt =====
-- `merkleize` against the tree that it stands for: all `2 ^ d` chunks, the missing ones zero.
use Prim.Native.Nat.{min}
use shell_chain_specs.Common.{
  ℕ, zero, suc, ◌+◌, ◌/◌, ◌%◌, ◌^◌, ◌≤◌, ◌<◌, ◌≡◌, refl, sym, ap, ap₂, ◌∙◌, inl, inr, false, List,
  [], ◌∷◌, length, take, drop, get_or, ltb, lt→ltb, ltb_false→le, ◌==◌, if◌then◌else◌, Bool-cases,
  arith, length-take, length-drop, take_cut,
}
use native.Mathlib.Nat.{two-pow-succ, one-le-pow}
use shell_chain_specs.Primitives.Types.{Root, zero_root}
use shell_chain_specs.Primitives.Hash.{Sha256}
use shell_chain_specs.Primitives.Ssz.{
  sha256_pair, zero_hash, trailing_zeros_loop, trailing_zeros, merkleize_loop, merkleize,
}

pub pow_pos : (d : ℕ) → 0 < 2 ^ d
pow_pos d = one-le-pow d 2 (omega arith)

pub pow_half : (d : ℕ) → 2 ^ suc d / 2 ≡ 2 ^ d
pow_half d = omega (arith, two-pow-succ d)

trailing_zeros_loop-pow : (bits d : ℕ) → d < bits → trailing_zeros_loop bits (2 ^ d) ≡ d
unfolding trailing_zeros_loop
trailing_zeros_loop-pow zero d h = absurd (omega arith)
trailing_zeros_loop-pow (suc bits) zero h = refl
trailing_zeros_loop-pow (suc bits) (suc d) h =
    let even : 2 ^ suc d % 2 ≡ 0 = omega (arith, two-pow-succ d) in
    rw (even, pow_half d) (ap suc (trailing_zeros_loop-pow bits d (omega arith)))

-- A power of two below 2 ^ 64 has as many trailing zeros as its exponent.
trailing_zeros-pow : (d : ℕ) → d < 64 → trailing_zeros (2 ^ d) ≡ d
unfolding trailing_zeros
trailing_zeros-pow d h = trailing_zeros_loop-pow 64 d h

-- The root of a complete tree over the chunks `leaf 0`, `leaf 1`, up to `leaf (2 ^ d - 1)`.
abbrev pub full_root : Sha256 → ℕ → (ℕ → Root) → Root
full_root h zero leaf = leaf 0
full_root h (suc d) leaf =
    sha256_pair h (full_root h d leaf) (full_root h d (λ i. leaf (2 ^ d + i)))

module _ (h : Sha256) where
  full_root-ext :
      (d : ℕ) (f g : ℕ → Root)
      → ((i : ℕ) → i < 2 ^ d → f i ≡ g i)
      → full_root h d f ≡ full_root h d g
  full_root-ext zero f g e = e 0 (omega arith)
  full_root-ext (suc d) f g e =
      ap₂ (sha256_pair h) (full_root-ext d f g (λ i b. e i (omega (arith, two-pow-succ d)))) (
        full_root-ext d (λ i. f (2 ^ d + i)) (λ i. g (2 ^ d + i))
          (λ i b. e (2 ^ d + i) (omega (arith, two-pow-succ d))))

  full_root-zero : (d : ℕ) → full_root h d (λ i. zero_root) ≡ zero_hash h d
  unfolding zero_hash
  full_root-zero zero = refl
  full_root-zero (suc d) = ap₂ (sha256_pair h) (full_root-zero d) (full_root-zero d)

module _ {ℓ} {A : Type ℓ} where
  get_or-take : (n i : ℕ) (xs : List A) (z : A) → i < n → get_or (take n xs) i z ≡ get_or xs i z
  get_or-take zero i xs z b = absurd (omega arith)
  get_or-take (suc n) i [] z b = refl
  get_or-take (suc n) zero (x ∷ xs) z b = refl
  get_or-take (suc n) (suc i) (x ∷ xs) z b = get_or-take n i xs z (omega arith)

  get_or-drop :
      (n i k : ℕ) (xs : List A) (z : A) → n + i ≡ k → get_or (drop n xs) i z ≡ get_or xs k z
  get_or-drop zero i k xs z e = ap (λ (j : ℕ). get_or xs j z) (omega arith)
  get_or-drop (suc n) i k [] z e = refl
  get_or-drop (suc n) i zero (x ∷ xs) z e = absurd (omega arith)
  get_or-drop (suc n) i (suc k) (x ∷ xs) z e = get_or-drop n i k xs z (omega arith)

  get_or-past : (xs : List A) (i : ℕ) (z : A) → length xs ≤ i → get_or xs i z ≡ z
  get_or-past [] i z b = refl
  get_or-past (x ∷ xs) zero z b = absurd (omega arith)
  get_or-past (x ∷ xs) (suc i) z b = get_or-past xs i z (omega arith)

module _ (h : Sha256) where
  -- One level of `merkleize_loop` at a limit that is a power of two.
  pub merkleize_loop-leaf :
      (fuel : ℕ) (chunks : List Root)
      → merkleize_loop h (suc fuel) chunks 1 ≡ get_or chunks 0 zero_root
  unfolding merkleize_loop
  merkleize_loop-leaf fuel chunks = refl

  pub upper_half : ℕ → ℕ → List Root → Root
  upper_half fuel d chunks =
      if ltb (2 ^ d) (length chunks)
      then merkleize_loop h fuel (drop (2 ^ d) chunks) (2 ^ d)
      else zero_hash h (trailing_zeros (2 ^ d))

  pub upper_half-lt :
      (fuel d : ℕ) (chunks : List Root)
      → 2 ^ d < length chunks
      → upper_half fuel d chunks ≡ merkleize_loop h fuel (drop (2 ^ d) chunks) (2 ^ d)
  unfolding upper_half
  upper_half-lt fuel d chunks more = rw (lt→ltb _ _ more)

  pub merkleize_loop-node :
      (fuel d : ℕ) (chunks : List Root)
      → merkleize_loop h (suc fuel) chunks (2 ^ suc d)
        ≡ sha256_pair h
            (merkleize_loop h fuel (take (2 ^ d) chunks) (2 ^ d))
            (upper_half fuel d chunks)
  unfolding merkleize_loop upper_half
  merkleize_loop-node fuel d chunks =
      let big : 2 ≤ 2 ^ suc d = omega (arith, two-pow-succ d, pow_pos d) in
      let not_zero : (2 ^ suc d == 0) ≡ false = ground arith in
      let not_one : (2 ^ suc d == 1) ≡ false = ground arith in
      rw (not_zero, not_one, pow_half d, take_cut (min (length chunks) (2 ^ d)) (2 ^ d) chunks refl)

  merkleize_loop-full_root :
      (fuel d : ℕ) (chunks : List Root)
      → d < fuel
      → d < 64
      → length chunks ≤ 2 ^ d
      → merkleize_loop h fuel chunks (2 ^ d) ≡ full_root h d (λ i. get_or chunks i zero_root)
  unfolding upper_half
  merkleize_loop-full_root zero d chunks b s fits = absurd (omega arith)
  merkleize_loop-full_root (suc fuel) zero chunks b s fits = merkleize_loop-leaf fuel chunks
  merkleize_loop-full_root (suc fuel) (suc d) chunks b s fits =
      merkleize_loop-node fuel d chunks
      ∙ ap₂ (sha256_pair h)
          (merkleize_loop-full_root fuel d (take (2 ^ d) chunks) (omega arith) (omega arith)
              (omega (arith, length-take (2 ^ d) chunks))
            ∙ full_root-ext h d _ _ (λ i below. get_or-take (2 ^ d) i chunks zero_root below))
          (elim (Bool-cases (ltb (2 ^ d) (length chunks))) [
            | inl more ↦
                rw (more, upper_half)
                  (merkleize_loop-full_root fuel d (drop (2 ^ d) chunks) (omega arith) (omega arith)
                      (omega (arith, length-drop (2 ^ d) chunks, two-pow-succ d))
                    ∙ full_root-ext h d _ _
                        (λ i below. get_or-drop (2 ^ d) i (2 ^ d + i) chunks zero_root refl))
            | inr short ↦
                let past : length chunks ≤ 2 ^ d = ltb_false→le _ _ short in
                rw (short, trailing_zeros-pow d (omega arith), upper_half)
                  (sym (full_root-zero h d)
                    ∙ full_root-ext h d _ _
                        (λ i below. sym (get_or-past chunks (2 ^ d + i) zero_root (omega arith))))
          ])

  -- For a limit 2 ^ d below 2 ^ 64 and at most as many chunks, `merkleize` computes the root of the
  -- full binary tree of depth d over the chunks, with zero chunks after them.
  pub merkleize-full_root :
      (d : ℕ) (chunks : List Root)
      → d < 64
      → length chunks ≤ 2 ^ d
      → merkleize h chunks (2 ^ d) ≡ full_root h d (λ i. get_or chunks i zero_root)
  unfolding merkleize
  merkleize-full_root d chunks s fits = merkleize_loop-full_root 64 d chunks s s fits

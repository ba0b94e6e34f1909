-- ===== src/Primitives/Ssz/ByteList.antt =====
-- The roots of integers and byte lists commit to their contents.
use Prim.Native.Nat.{min}
use shell_chain_specs.Common.{
  ℕ, zero, suc, ◌+◌, ◌-◌, ◌*◌, ◌/◌, ◌^◌, ◌≤◌, ◌<◌, ◌≡◌, refl, sym, ap, ap₂, ◌∙◌, inl, List, ◌∷◌,
  ◌++◌, Bytes, length, take, drop, All, arith, length-take, length-drop, take-append-drop,
  drop-drop, drop_all, to_le_bytes, from_le_bytes, length-to_le_bytes, from_le_bytes-to_le_bytes,
}
use native.Mathlib.Decide.{dec_le}
use shell_chain_specs.Primitives.Types.{Root}
use shell_chain_specs.Primitives.Hash.{Sha256}
use shell_chain_specs.Primitives.Ssz.{
  sha256_pair, fill_chunk, mix_in_length, pack_loop, pack_bytes, htr_u64, htr_byte_list,
  mock_progressive_byte_list_limit,
}
use shell_chain_specs.Primitives.Ssz.Binding.{
  IsChunk, fill_chunk-inj, fill_chunk-IsChunk, Bound, both, pair-binds, merkleize-IsChunk,
  merkleize-binds,
}

pack_loop-IsChunk : (left i : ℕ) (bytes : Bytes) → All IsChunk (pack_loop left i bytes)
unfolding pack_loop
pack_loop-IsChunk zero i bytes = tt
pack_loop-IsChunk (suc left) i bytes =
    let start = i * 32 in
    let end = min (start + 32) (length bytes) in
    (
      fill_chunk-IsChunk (take (end - start) (drop start bytes))
          (omega (arith, length-take (end - start) (drop start bytes))),
      pack_loop-IsChunk left (i + 1) bytes,
    )

length-pack_loop : (left i : ℕ) (bytes : Bytes) → length (pack_loop left i bytes) ≡ left
unfolding pack_loop
length-pack_loop zero i bytes = refl
length-pack_loop (suc left) i bytes = ap suc (length-pack_loop left (i + 1) bytes)

pub head-eq : {x y : Root} {xs ys : List Root} → x ∷ xs ≡ y ∷ ys → (x ≡ y) × (xs ≡ ys)
head-eq e = (cc, cc)

pack_loop-inj :
    (left i : ℕ) (x y : Bytes)
    → length x ≡ length y
    → length x ≤ (i + left) * 32
    → pack_loop left i x ≡ pack_loop left i y
    → drop (i * 32) x ≡ drop (i * 32) y
unfolding pack_loop
pack_loop-inj zero i x y len fits e =
    drop_all (i * 32) x (omega arith) ∙ sym (drop_all (i * 32) y (omega arith))
pack_loop-inj (suc left) i x y len fits e =
    let start = i * 32 in
    let kx = min (start + 32) (length x) - start in
    let ky = min (start + 32) (length y) - start in
    let k : kx ≡ ky = omega arith in
    let (first, rest) = head-eq e in
    let front : take kx (drop start x) ≡ take ky (drop start y) =
      fill_chunk-inj (take kx (drop start x)) (take ky (drop start y))
        (omega (
          arith,
          length-take kx (drop start x),
          length-take ky (drop start y),
          length-drop start x,
          length-drop start y,
        ))
        first in
    let ih = pack_loop-inj left (i + 1) x y len (omega arith) rest in
    let back : drop (start + kx) x ≡ drop (start + ky) y = elim (dec_le (start + 32) (length x)) [
      | yes whole ↦
          ap (λ (n : ℕ). drop n x) (omega arith) ∙ ih ∙ ap (λ (n : ℕ). drop n y) (omega arith)
      | no part ↦
          drop_all (start + kx) x (omega arith) ∙ sym (drop_all (start + ky) y (omega arith))
    ] in
    sym (take-append-drop kx (drop start x))
    ∙ ap₂ ◌++◌ front (drop-drop start kx _ x refl ∙ back ∙ sym (drop-drop start ky _ y refl))
    ∙ take-append-drop ky (drop start y)

pack_bytes-inj : (x y : Bytes) → length x ≡ length y → pack_bytes x ≡ pack_bytes y → x ≡ y
unfolding pack_bytes
pack_bytes-inj x y len e =
    let rounds : (length x + 31) / 32 ≡ (length y + 31) / 32 = omega arith in
    pack_loop-inj ((length x + 31) / 32) 0 x y len (omega arith)
      (e ∙ ap (λ (n : ℕ). pack_loop n 0 y) (sym rounds))

pub to_le_bytes-inj :
    (w a b : ℕ) → a < 256 ^ w → b < 256 ^ w → to_le_bytes w a ≡ to_le_bytes w b → a ≡ b
to_le_bytes-inj w a b ha hb e =
    sym (from_le_bytes-to_le_bytes w a ha) ∙ ap from_le_bytes e ∙ from_le_bytes-to_le_bytes w b hb

pub htr_u64-inj : (a b : ℕ) → a < 2 ^ 64 → b < 2 ^ 64 → htr_u64 a ≡ htr_u64 b → a ≡ b
unfolding htr_u64
htr_u64-inj a b ha hb e =
    to_le_bytes-inj 8 a b ha hb
      (fill_chunk-inj _ _ (length-to_le_bytes 8 a ∙ sym (length-to_le_bytes 8 b)) e)

pub htr_u64-IsChunk : (a : ℕ) → IsChunk (htr_u64 a)
unfolding htr_u64
htr_u64-IsChunk a = fill_chunk-IsChunk (to_le_bytes 8 a) (omega (arith, length-to_le_bytes 8 a))

abbrev pub WithinLimit : Bytes → Type 0
WithinLimit bytes = length bytes ≤ mock_progressive_byte_list_limit

module _ (h : Sha256) where
  -- Two byte lists of at most 2 ^ 20 bytes with one root are equal, or two messages with one SHA-256
  -- digest can be given.
  pub htr_byte_list-binds :
      (x y : Bytes)
      → WithinLimit x
      → WithinLimit y
      → htr_byte_list h x ≡ htr_byte_list h y
      → Bound h (x ≡ y)
  unfolding htr_byte_list mix_in_length pack_bytes
  htr_byte_list-binds x y fx fy e =
      let nx = (length x + 31) / 32 in
      let ny = (length y + 31) / 32 in
      let vx = pack_loop-IsChunk nx 0 x in
      let vy = pack_loop-IsChunk ny 0 y in
      both h
        (pair-binds h _ (fill_chunk (to_le_bytes 8 (length x))) _
          (fill_chunk (to_le_bytes 8 (length y)))
          (merkleize-IsChunk h 15 (pack_bytes x) (omega arith) vx)
          (merkleize-IsChunk h 15 (pack_bytes y) (omega arith) vy) e)
        λ p.
          let len : length x ≡ length y =
            to_le_bytes-inj 8 (length x) (length y) (omega arith) (omega arith) (
              fill_chunk-inj _ _
                (length-to_le_bytes 8 (length x) ∙ sym (length-to_le_bytes 8 (length y))) p.1) in
          let lx = length-pack_loop nx 0 x in
          let ly = length-pack_loop ny 0 y in
          both h
            (merkleize-binds h 15 (pack_bytes x) (pack_bytes y) (omega arith) (omega arith)
              (omega arith) vx vy p.0)
            λ q. inl (pack_bytes-inj x y len q)

  pub htr_byte_list-IsChunk : (x : Bytes) → IsChunk (htr_byte_list h x)
  unfolding htr_byte_list mix_in_length sha256_pair
  htr_byte_list-IsChunk x = h.length-digest _

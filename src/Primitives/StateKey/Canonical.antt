-- ===== src/Primitives/StateKey/Canonical.antt =====
-- The order of the canonical bytes is an order of the keys themselves.
use Prim.Native.Nat.{compare, Ordering}
use mathlib.Core.List.{reverse-cons}
use native.Mathlib.Nat.{pow-suc}
use shell_chain_specs.Common.{
  ℕ, zero, suc, ◌/◌, ◌%◌, ◌^◌, ◌<◌, ◌≡◌, refl, sym, ap, ap₂, ◌∙◌, [], ◌∷◌, ◌++◌, Bytes, length,
  arith, inl, inr, Ordering-cases, compare_bytes, to_le_bytes, to_be_bytes, length-to_be_bytes,
}
use shell_chain_specs.Primitives.StateKey.{
  StateKey, account_header, storage_slot, code_chunk, raw_tree_key, stem, StateKeyIsValid,
  canonicalize_execution_address, encode_state_key, compare_state_keys,
}

-- `Ordering::then`.
abbrev pub then_with : Ordering → Ordering → Ordering
then_with Ordering.lt second = Ordering.lt
then_with Ordering.eq second = second
then_with Ordering.gt second = Ordering.gt

-- The place of a key's kind.
abbrev pub rank : StateKey → ℕ
rank (account_header a) = 0
rank (storage_slot a s) = 1
rank (code_chunk a i) = 2
rank (raw_tree_key a) = 3
rank (stem a) = 4

-- By the kinds; of one kind by the addresses or the bytes, then by the slots, or by the chunk indices
-- as numbers.
abbrev pub compare_fields : StateKey → StateKey → Ordering
compare_fields (account_header a) (account_header b) = compare_bytes a b
compare_fields (storage_slot a s) (storage_slot b t) =
    then_with (compare_bytes a b) (compare_bytes s t)
compare_fields (code_chunk a i) (code_chunk b j) = then_with (compare_bytes a b) (compare i j)
compare_fields (raw_tree_key a) (raw_tree_key b) = compare_bytes a b
compare_fields (stem a) (stem b) = compare_bytes a b
compare_fields k l = compare (rank k) (rank l)

compare_bytes-append :
    (a b s t : Bytes)
    → length a ≡ length b
    → compare_bytes (a ++ s) (b ++ t) ≡ then_with (compare_bytes a b) (compare_bytes s t)
unfolding compare_bytes
compare_bytes-append [] [] s t e = refl
compare_bytes-append [] (y ∷ b) s t e = absurd (omega arith)
compare_bytes-append (x ∷ a) [] s t e = absurd (omega arith)
compare_bytes-append (x ∷ a) (y ∷ b) s t e =
    let rest = compare_bytes-append a b s t (omega arith) in
    elim (Ordering-cases (compare x y)) [
      | inl o ↦ rw (o, compare_bytes) refl
      | inr (inl o) ↦ rw (o, compare_bytes) rest
      | inr (inr o) ↦ rw (o, compare_bytes) refl
    ]

-- The quotients decide, then the remainders.
compare-digits :
    (i j : ℕ) → compare i j ≡ then_with (compare (i / 256) (j / 256)) (compare (i % 256) (j % 256))
compare-digits i j = ground arith

compare_bytes-digit : (x y : ℕ) → compare_bytes (x ∷ []) (y ∷ []) ≡ compare x y
unfolding compare_bytes
compare_bytes-digit x y = elim (Ordering-cases (compare x y)) [
  | inl o ↦ rw (o, compare_bytes) refl
  | inr (inl o) ↦ rw (o, compare_bytes) refl
  | inr (inr o) ↦ rw (o, compare_bytes) refl
]

to_be_bytes-suc : (w v : ℕ) → to_be_bytes (suc w) v ≡ to_be_bytes w (v / 256) ++ ((v % 256) ∷ [])
unfolding to_be_bytes to_le_bytes
to_be_bytes-suc w v = reverse-cons (v % 256) (to_le_bytes w (v / 256))

compare_bytes-to_be_bytes :
    (w i j : ℕ)
    → i < 256 ^ w
    → j < 256 ^ w
    → compare_bytes (to_be_bytes w i) (to_be_bytes w j) ≡ compare i j
unfolding compare_bytes to_be_bytes to_le_bytes
compare_bytes-to_be_bytes zero i j hi hj = ground arith
compare_bytes-to_be_bytes (suc w) i j hi hj =
    let power = pow-suc 256 w in
    let high =
      compare_bytes-to_be_bytes w (i / 256) (j / 256) (omega (arith, power))
        (omega (arith, power)) in
    ap₂ compare_bytes (to_be_bytes-suc w i) (to_be_bytes-suc w j)
    ∙ compare_bytes-append (to_be_bytes w (i / 256)) (to_be_bytes w (j / 256)) _ _
        (length-to_be_bytes w (i / 256) ∙ sym (length-to_be_bytes w (j / 256)))
    ∙ ap₂ then_with high (compare_bytes-digit (i % 256) (j % 256))
    ∙ sym (compare-digits i j)

-- On state keys in the range of Rust's types, `compare_state_keys`, which compares canonical bytes, is
-- the order of the keys' fields: the kinds come as account headers, storage slots, code chunks, raw
-- tree keys and stems; of one kind, the addresses or the bytes decide, and then the slots, or the chunk
-- indices by their numeric value.
pub compare_state_keys-compare_fields :
    (k l : StateKey)
    → StateKeyIsValid k
    → StateKeyIsValid l
    → compare_state_keys k l ≡ compare_fields k l
unfolding compare_state_keys encode_state_key canonicalize_execution_address compare_bytes
compare_state_keys-compare_fields (account_header a) (account_header b) vk vl = refl
compare_state_keys-compare_fields (storage_slot a s) (storage_slot b t) vk vl =
    compare_bytes-append a b s t (vk.0.0 ∙ sym vl.0.0)
compare_state_keys-compare_fields (code_chunk a i) (code_chunk b j) vk vl =
    compare_bytes-append a b (to_be_bytes 4 i) (to_be_bytes 4 j) (vk.0.0 ∙ sym vl.0.0)
    ∙ ap (then_with (compare_bytes a b)) (compare_bytes-to_be_bytes 4 i j vk.1 vl.1)
compare_state_keys-compare_fields (raw_tree_key a) (raw_tree_key b) vk vl = refl
compare_state_keys-compare_fields (stem a) (stem b) vk vl = refl
compare_state_keys-compare_fields (account_header a) (storage_slot b t) vk vl = refl
compare_state_keys-compare_fields (account_header a) (code_chunk b j) vk vl = refl
compare_state_keys-compare_fields (account_header a) (raw_tree_key b) vk vl = refl
compare_state_keys-compare_fields (account_header a) (stem b) vk vl = refl
compare_state_keys-compare_fields (storage_slot a s) (account_header b) vk vl = refl
compare_state_keys-compare_fields (storage_slot a s) (code_chunk b j) vk vl = refl
compare_state_keys-compare_fields (storage_slot a s) (raw_tree_key b) vk vl = refl
compare_state_keys-compare_fields (storage_slot a s) (stem b) vk vl = refl
compare_state_keys-compare_fields (code_chunk a i) (account_header b) vk vl = refl
compare_state_keys-compare_fields (code_chunk a i) (storage_slot b t) vk vl = refl
compare_state_keys-compare_fields (code_chunk a i) (raw_tree_key b) vk vl = refl
compare_state_keys-compare_fields (code_chunk a i) (stem b) vk vl = refl
compare_state_keys-compare_fields (raw_tree_key a) (account_header b) vk vl = refl
compare_state_keys-compare_fields (raw_tree_key a) (storage_slot b t) vk vl = refl
compare_state_keys-compare_fields (raw_tree_key a) (code_chunk b j) vk vl = refl
compare_state_keys-compare_fields (raw_tree_key a) (stem b) vk vl = refl
compare_state_keys-compare_fields (stem a) (account_header b) vk vl = refl
compare_state_keys-compare_fields (stem a) (storage_slot b t) vk vl = refl
compare_state_keys-compare_fields (stem a) (code_chunk b j) vk vl = refl
compare_state_keys-compare_fields (stem a) (raw_tree_key b) vk vl = refl

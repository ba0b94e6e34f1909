-- ===== src/Primitives/StateKey/Order.antt =====
-- The canonical bytes of a state key determine it.
use shell_chain_specs.Common.{
  ◌≡◌, sym, ap, ap₂, ◌∙◌, true, ◌++◌, Bytes, IsArray, length, drop, arith, bytes_eq_refl,
  append-inj, length-append, length-to_be_bytes, to_be_bytes-inj, to_be_bytes, ◌≤◌,
}
use shell_chain_specs.Primitives.StateKey.{
  StateKey, account_header, storage_slot, code_chunk, raw_tree_key, stem, StateKeyIsValid,
  canonicalize_execution_address, encode_state_key, state_key_eq,
}

canonicalize-inj :
    (a b : Bytes) → canonicalize_execution_address a ≡ canonicalize_execution_address b → a ≡ b
unfolding canonicalize_execution_address
canonicalize-inj a b e = ap (drop 12) e

canonicalize-split :
    (a b s t : Bytes)
    → IsArray 20 a
    → IsArray 20 b
    → canonicalize_execution_address a ++ s ≡ canonicalize_execution_address b ++ t
    → (a ≡ b) × (s ≡ t)
unfolding canonicalize_execution_address
canonicalize-split a b s t va vb e = append-inj a s b t (va.0 ∙ sym vb.0) (ap (drop 12) e)

-- Two state keys in the range of Rust's types with the same canonical bytes are the same key.
pub encode_state_key-injective :
    (k l : StateKey)
    → StateKeyIsValid k
    → StateKeyIsValid l
    → encode_state_key k ≡ encode_state_key l
    → k ≡ l
unfolding encode_state_key
encode_state_key-injective (account_header a) (account_header b) vk vl e =
    ap account_header (canonicalize-inj a b (ap (drop 1) e))
encode_state_key-injective (storage_slot a s) (storage_slot b t) vk vl e =
    let (x, y) = canonicalize-split a b s t vk.0 vl.0 (ap (drop 1) e) in ap₂ storage_slot x y
encode_state_key-injective (code_chunk a i) (code_chunk b j) vk vl e =
    let (x, y) =
      canonicalize-split a b (to_be_bytes 4 i) (to_be_bytes 4 j) vk.0 vl.0 (ap (drop 1) e) in
    ap₂ code_chunk x (to_be_bytes-inj 4 i j vk.1 vl.1 y)
encode_state_key-injective (raw_tree_key a) (raw_tree_key b) vk vl e =
    ap raw_tree_key (ap (drop 1) e)
encode_state_key-injective (stem a) (stem b) vk vl e = ap stem (ap (drop 1) e)
encode_state_key-injective (account_header a) (storage_slot b t) vk vl e = cc
encode_state_key-injective (account_header a) (code_chunk b j) vk vl e = cc
encode_state_key-injective (account_header a) (raw_tree_key b) vk vl e = cc
encode_state_key-injective (account_header a) (stem b) vk vl e = cc
encode_state_key-injective (storage_slot a s) (account_header b) vk vl e = cc
encode_state_key-injective (storage_slot a s) (code_chunk b j) vk vl e = cc
encode_state_key-injective (storage_slot a s) (raw_tree_key b) vk vl e = cc
encode_state_key-injective (storage_slot a s) (stem b) vk vl e = cc
encode_state_key-injective (code_chunk a i) (account_header b) vk vl e = cc
encode_state_key-injective (code_chunk a i) (storage_slot b t) vk vl e = cc
encode_state_key-injective (code_chunk a i) (raw_tree_key b) vk vl e = cc
encode_state_key-injective (code_chunk a i) (stem b) vk vl e = cc
encode_state_key-injective (raw_tree_key a) (account_header b) vk vl e = cc
encode_state_key-injective (raw_tree_key a) (storage_slot b t) vk vl e = cc
encode_state_key-injective (raw_tree_key a) (code_chunk b j) vk vl e = cc
encode_state_key-injective (raw_tree_key a) (stem b) vk vl e = cc
encode_state_key-injective (stem a) (account_header b) vk vl e = cc
encode_state_key-injective (stem a) (storage_slot b t) vk vl e = cc
encode_state_key-injective (stem a) (code_chunk b j) vk vl e = cc
encode_state_key-injective (stem a) (raw_tree_key b) vk vl e = cc

pub state_key_eq_refl : (k : StateKey) → state_key_eq k k ≡ true
unfolding state_key_eq
state_key_eq_refl (account_header a) = bytes_eq_refl a
state_key_eq_refl (storage_slot a s) = ground (arith, bytes_eq_refl a, bytes_eq_refl s)
state_key_eq_refl (code_chunk a i) = ground (arith, bytes_eq_refl a)
state_key_eq_refl (raw_tree_key a) = bytes_eq_refl a
state_key_eq_refl (stem a) = bytes_eq_refl a

pub length-encode_state_key : (k : StateKey) → StateKeyIsValid k → length (encode_state_key k) ≤ 65
unfolding encode_state_key canonicalize_execution_address
length-encode_state_key (account_header a) v = omega arith
length-encode_state_key (storage_slot a s) v = omega (arith, length-append a s)
length-encode_state_key (code_chunk a i) v =
    omega (arith, length-append a (to_be_bytes 4 i), length-to_be_bytes 4 i)
length-encode_state_key (raw_tree_key a) v = omega arith
length-encode_state_key (stem a) v = omega arith

-- ===== src/State/Accumulator.antt =====
-- crates/shell-state/src/accumulator.rs: the reference accumulator, an ordered map of leaves under
-- their canonical keys and the root of all of them.
pub mod Invariant
pub mod Proofs
pub mod RootBinding
pub mod Produced
pub mod Abstract
use shell_chain_specs.Common.{
  Bool, ℕ, ◌%◌, ◌^◌, String, not, Option, none, some, List, [], ◌∷◌, ◌++◌, Bytes, length, bytes_eq,
  if◌then◌else◌, to_be_bytes, is_lt, Result, ok, err, ◌>>=◌, ◌>>◌, ok_or, ByteMap, map_insert,
  map_get, last_below, first_above,
}
use shell_chain_specs.Primitives.Types.{Root, zero_root}
use shell_chain_specs.Primitives.StateKey.{
  StateKey, StateWitness, encode_state_key, compare_state_keys, state_key_eq,
}
use shell_chain_specs.Primitives.Hash.{Sha256}
use shell_chain_specs.State.Witness.{
  StateError, backend, witness_verification_failed, StatePatch, validate_shape,
  ensure_canonical_access_order, ensure_reference_backend_proof_shape, verify_witnesses,
}

pub record StoredLeaf : Type 0 where
  pub key : StateKey
  pub leaf_value : Bytes

pub record ReferenceProofLeaf : Type 0 where
  pub key : StateKey
  pub canonical_key : Bytes
  pub leaf_value : Bytes

pub record ReferenceProofPath : Type 0 where
  pub expected_root : Root
  pub leaf : ReferenceProofLeaf
  pub left_neighbor : Option ReferenceProofLeaf
  pub right_neighbor : Option ReferenceProofLeaf

pub record InMemoryAccumulator : Type 0 where
  pub leaves : ByteMap StoredLeaf
  pub root : Root

abbrev pub new : InMemoryAccumulator
new = record { leaves = []; root = zero_root }

-- `condition`, or the verification failure with this message.
unfoldable pub ensure : Bool → String → Result (Unit {0}) StateError
ensure condition context = if condition then ok tt else err (witness_verification_failed context)

unfoldable pub ensure_left : Option ReferenceProofLeaf → StateKey → Result (Unit {0}) StateError
unfolding ensure
ensure_left none key = ok tt
ensure_left (some left) key =
    ensure (is_lt (compare_state_keys left.key key))
      "reference proof left boundary is not ordered before the witness key"

unfoldable pub ensure_right : Option ReferenceProofLeaf → StateKey → Result (Unit {0}) StateError
unfolding ensure
ensure_right none key = ok tt
ensure_right (some right) key =
    ensure (is_lt (compare_state_keys key right.key))
      "reference proof right boundary is not ordered after the witness key"

-- `ReferenceProofPath::verify_witness`.
unfoldable pub verify_path : ReferenceProofPath → StateWitness → Root → Result (Unit {0}) StateError
unfolding ensure ensure_left ensure_right
verify_path path witness expected_state_root = do
  _ ←
      ensure (bytes_eq path.expected_root expected_state_root)
        "reference proof path was built against a different state root"
  _ ←
      ensure (state_key_eq path.leaf.key witness.key)
        "reference proof leaf does not match witness key"
  _ ←
      ensure (bytes_eq path.leaf.leaf_value witness.leaf_value)
        "reference proof leaf does not match witness value"
  _ ← ensure_left path.left_neighbor witness.key
  ensure_right path.right_neighbor witness.key

abbrev pub from_stored_leaf : Bytes → StoredLeaf → ReferenceProofLeaf
from_stored_leaf canonical_key stored_leaf = record {
  key = stored_leaf.key;
  canonical_key = canonical_key;
  leaf_value = stored_leaf.leaf_value;
}

abbrev pub from_entry : Option (Bytes × StoredLeaf) → Option ReferenceProofLeaf
from_entry none = none
from_entry (some entry) = some (from_stored_leaf entry.0 entry.1)

unfoldable pub proof_path_for_access :
    InMemoryAccumulator → StateKey → Result ReferenceProofPath StateError
proof_path_for_access acc access = do
  stored_leaf ←
      ok_or (map_get (encode_state_key access) acc.leaves)
        (backend "reference backend only supports proof paths for materialized keys")
  ok (record {
    expected_root = acc.root;
    leaf = from_stored_leaf (encode_state_key access) stored_leaf;
    left_neighbor = from_entry (last_below (encode_state_key access) acc.leaves);
    right_neighbor = from_entry (first_above (encode_state_key access) acc.leaves);
  })

unfoldable pub derive_proof_path :
    InMemoryAccumulator → StateWitness → Result ReferenceProofPath StateError
unfolding proof_path_for_access verify_path
derive_proof_path acc witness = do
  _ ← ensure_reference_backend_proof_shape witness
  path ← proof_path_for_access acc witness.key
  _ ← verify_path path witness acc.root
  ok path

-- The `WitnessVerifier` of the accumulator.
unfoldable pub verify_witness :
    InMemoryAccumulator → StateWitness → Root → Result (Unit {0}) StateError
unfolding derive_proof_path verify_path
verify_witness acc witness expected_state_root = do
  path ← derive_proof_path acc witness
  verify_path path witness expected_state_root

unfoldable pub collect_witnesses :
    InMemoryAccumulator → List StateKey → Result (List StateWitness) StateError
unfolding proof_path_for_access
collect_witnesses acc [] = ok []
collect_witnesses acc (access ∷ accesses) = do
  path ← proof_path_for_access acc access
  rest ← collect_witnesses acc accesses
  ok (record { key = access; leaf_value = path.leaf.leaf_value; proof = [] } ∷ rest)

unfoldable pub get_witness_for_accesses :
    InMemoryAccumulator → List StateKey → Result (List StateWitness) StateError
unfolding collect_witnesses
get_witness_for_accesses acc accesses =
    ensure_canonical_access_order accesses >>= λ _. collect_witnesses acc accesses

unfoldable pub apply_leaf : StateKey → Bytes → ByteMap StoredLeaf → ByteMap StoredLeaf
apply_leaf key value leaves =
    map_insert (encode_state_key key) (record { key = key; leaf_value = value }) leaves

-- The loop over `accesses.iter().zip(new_values.iter())`.
unfoldable pub apply_leaves : List StateKey → List Bytes → ByteMap StoredLeaf → ByteMap StoredLeaf
unfolding apply_leaf
apply_leaves [] values leaves = leaves
apply_leaves (key ∷ keys) [] leaves = leaves
apply_leaves (key ∷ keys) (value ∷ values) leaves =
    apply_leaves keys values (apply_leaf key value leaves)

-- The bytes of "shell-state/reference-root/v1" and of "shell-state/reference-leaf/v1".
abbrev pub root_tag : Bytes
root_tag =
    115 ∷ 104 ∷ 101 ∷ 108 ∷ 108 ∷ 45 ∷ 115 ∷ 116 ∷ 97 ∷ 116 ∷ 101 ∷ 47 ∷ 114 ∷ 101 ∷ 102 ∷ 101 ∷ 114
    ∷ 101 ∷ 110 ∷ 99 ∷ 101 ∷ 45 ∷ 114 ∷ 111 ∷ 111 ∷ 116 ∷ 47 ∷ 118 ∷ 49 ∷ []

abbrev pub leaf_tag : Bytes
leaf_tag =
    115 ∷ 104 ∷ 101 ∷ 108 ∷ 108 ∷ 45 ∷ 115 ∷ 116 ∷ 97 ∷ 116 ∷ 101 ∷ 47 ∷ 114 ∷ 101 ∷ 102 ∷ 101 ∷ 114
    ∷ 101 ∷ 110 ∷ 99 ∷ 101 ∷ 45 ∷ 108 ∷ 101 ∷ 97 ∷ 102 ∷ 47 ∷ 118 ∷ 49 ∷ []

module _ (h : Sha256) where
  -- `len() as u32` keeps the length's lower 32 bits.
  unfoldable pub reference_leaf_digest : Bytes → StoredLeaf → Root
  reference_leaf_digest canonical_key leaf = h.digest (
      leaf_tag
      ++ (to_be_bytes 4 (length canonical_key % 2 ^ 32)
          ++ (canonical_key
              ++ (to_be_bytes 4 (length leaf.leaf_value % 2 ^ 32) ++ leaf.leaf_value))))

  unfoldable pub leaf_digests : ByteMap StoredLeaf → Bytes
  unfolding reference_leaf_digest
  leaf_digests [] = []
  leaf_digests (entry ∷ entries) = reference_leaf_digest entry.0 entry.1 ++ leaf_digests entries

  unfoldable pub compute_reference_root : ByteMap StoredLeaf → Root
  unfolding leaf_digests
  compute_reference_root leaves = h.digest (root_tag ++ leaf_digests leaves)

  unfoldable pub recompute_root : ByteMap StoredLeaf → InMemoryAccumulator
  unfolding compute_reference_root
  recompute_root leaves = record { leaves = leaves; root = compute_reference_root leaves }

  -- What the method returns, and the accumulator that it leaves.
  unfoldable pub apply_transition :
      InMemoryAccumulator → StatePatch → Result Root StateError × InMemoryAccumulator
  unfolding apply_leaves recompute_root
  apply_transition acc patch =
      let next = recompute_root (apply_leaves patch.accesses patch.new_values acc.leaves) in
      elim (validate_shape patch >> ensure_canonical_access_order patch.accesses) [
        | ok _ ↦ (ok next.root, next)
        | err e ↦ (err e, acc)
      ]

-- ===== src/State/Witness.antt =====
-- crates/shell-state/src/errors.rs, transition.rs and witness.rs: the errors, the patch of a
-- transition, and the rules for witnesses that hold for every verifier.
pub mod Order
use shell_chain_specs.Common.{
  ℕ, ◌+◌, ◌==◌, String, List, [], ◌∷◌, map, Bytes, length, if◌then◌else◌, Result, ok, err, ◌>>◌,
  is_lt,
}
use shell_chain_specs.Primitives.Types.{Root}
use shell_chain_specs.Primitives.StateKey.{
  StateKey, StateWitness, compare_state_keys, proof_shape, reference_empty,
  placeholder_committed_nodes,
}

pub data StateError : Type 0 where
  invalid_state_key_encoding : (context : String) → StateError
  non_canonical_witness_ordering : (index : ℕ) (context : String) → StateError
  root_continuity_mismatch : (expected actual : Root) → StateError
  witness_verification_failed : (context : String) → StateError
  unsupported_proof_shape : (context : String) → StateError
  transition_shape_mismatch : (accesses new_values : ℕ) → StateError
  backend : (context : String) → StateError

pub record StatePatch : Type 0 where
  pub accesses : List StateKey
  pub new_values : List Bytes

unfoldable pub validate_shape : StatePatch → Result (Unit {0}) StateError
validate_shape patch =
    if length patch.accesses == length patch.new_values
    then ok tt
    else err (transition_shape_mismatch (length patch.accesses) (length patch.new_values))

-- The loop over `windows(2).enumerate()`, from the window with the index given.
unfoldable pub increasing_loop : String → ℕ → List StateKey → Result (Unit {0}) StateError
increasing_loop context index [] = ok tt
increasing_loop context index (left ∷ []) = ok tt
increasing_loop context index (left ∷ right ∷ keys) =
    let rest = increasing_loop context (index + 1) (right ∷ keys) in
    if is_lt (compare_state_keys left right)
    then rest
    else err (non_canonical_witness_ordering (index + 1) context)

abbrev pub keys_of : List StateWitness → List StateKey
keys_of [] = []
keys_of (witness ∷ witnesses) = witness.key ∷ keys_of witnesses

unfoldable pub ensure_canonical_witness_order : List StateWitness → Result (Unit {0}) StateError
unfolding increasing_loop
ensure_canonical_witness_order witnesses =
    increasing_loop "witness keys must be strictly increasing in canonical StateKey order" 0
      (keys_of witnesses)

unfoldable pub ensure_canonical_access_order : List StateKey → Result (Unit {0}) StateError
unfolding increasing_loop
ensure_canonical_access_order accesses =
    increasing_loop "access keys must be strictly increasing in canonical StateKey order" 0 accesses

abbrev pub reference_backend_proof_shape_context : String
reference_backend_proof_shape_context =
    "reference backend derives proof paths locally and does not interpret committed proof bytes"

unfoldable pub ensure_reference_backend_proof_shape : StateWitness → Result (Unit {0}) StateError
ensure_reference_backend_proof_shape witness = elim (proof_shape witness) [
  | reference_empty ↦ ok tt
  | placeholder_committed_nodes ↦
      err (unsupported_proof_shape reference_backend_proof_shape_context)
]

-- The trait's provided method, over the verifier's `verify_witness`.
module _ (verify_witness : StateWitness → Root → Result (Unit {0}) StateError) where
  unfoldable pub verify_loop : List StateWitness → Root → Result (Unit {0}) StateError
  verify_loop [] root = ok tt
  verify_loop (witness ∷ witnesses) root = verify_witness witness root >> verify_loop witnesses root

  unfoldable pub verify_witnesses : List StateWitness → Root → Result (Unit {0}) StateError
  unfolding ensure_canonical_witness_order verify_loop
  verify_witnesses witnesses root =
      ensure_canonical_witness_order witnesses >> verify_loop witnesses root

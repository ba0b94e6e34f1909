-- ===== src/Primitives/StateKey.antt =====
-- crates/shell-primitives/src/types/state.rs: state keys, their canonical bytes and their order.
pub mod Order
pub mod Canonical
use Prim.Native.Nat.{Ordering}
use shell_chain_specs.Common.{
  ℕ, ◌^◌, ◌<◌, ◌==◌, ◌&&◌, Bool, true, false, List, [], ◌∷◌, ◌++◌, Bytes, IsArray, All, IsByte,
  replicate, is_empty, bytes_eq, to_be_bytes, compare_bytes, if◌then◌else◌,
}
use shell_chain_specs.Primitives.Types.{Root, ExecutionAddress}

pub data StateKey : Type 0 where
  account_header : ExecutionAddress → StateKey
  storage_slot : (address : ExecutionAddress) (slot : Bytes) → StateKey
  code_chunk : (address : ExecutionAddress) (chunk_index : ℕ) → StateKey
  raw_tree_key : Bytes → StateKey
  stem : Bytes → StateKey

pub record StateWitness : Type 0 where
  pub key : StateKey
  pub leaf_value : Bytes
  pub proof : List Bytes

pub data WitnessProofShape : Type 0 where
  reference_empty placeholder_committed_nodes : WitnessProofShape

unfoldable pub proof_shape : StateWitness → WitnessProofShape
proof_shape witness =
    if is_empty witness.proof then reference_empty else placeholder_committed_nodes

unfoldable pub canonicalize_execution_address : ExecutionAddress → Bytes
canonicalize_execution_address addr = replicate 12 0 ++ addr

unfoldable pub encode_state_key : StateKey → Bytes
encode_state_key (account_header address) = 0 ∷ canonicalize_execution_address address
encode_state_key (storage_slot address slot) = 1 ∷ canonicalize_execution_address address ++ slot
encode_state_key (code_chunk address chunk_index) =
    2 ∷ canonicalize_execution_address address ++ to_be_bytes 4 chunk_index
encode_state_key (raw_tree_key raw) = 3 ∷ raw
encode_state_key (stem bytes) = 4 ∷ bytes

unfoldable pub compare_state_keys : StateKey → StateKey → Ordering
compare_state_keys left right = compare_bytes (encode_state_key left) (encode_state_key right)

-- The derived `PartialEq`.
unfoldable pub state_key_eq : StateKey → StateKey → Bool
state_key_eq (account_header a) (account_header b) = bytes_eq a b
state_key_eq (storage_slot a s) (storage_slot b t) = bytes_eq a b && bytes_eq s t
state_key_eq (code_chunk a i) (code_chunk b j) = bytes_eq a b && i == j
state_key_eq (raw_tree_key a) (raw_tree_key b) = bytes_eq a b
state_key_eq (stem a) (stem b) = bytes_eq a b
state_key_eq a b = false

abbrev pub StateKeyIsValid : StateKey → Type 0
StateKeyIsValid (account_header address) = IsArray 20 address
StateKeyIsValid (storage_slot address slot) = IsArray 20 address × IsArray 32 slot
StateKeyIsValid (code_chunk address chunk_index) = IsArray 20 address × (chunk_index < 2 ^ 32)
StateKeyIsValid (raw_tree_key raw) = IsArray 32 raw
StateKeyIsValid (stem bytes) = IsArray 31 bytes

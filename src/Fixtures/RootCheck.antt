-- ===== src/Fixtures/RootCheck.antt =====
-- crates/shell-fixtures/src/lib.rs: the vector of a root check, and the parts of its resolution that take
-- no hash.
use Prim.Native.Nat.{Ordering}
use shell_chain_specs.Common.{
  ℕ, ◌&&◌, not, Bool, true, false, List, [], ◌∷◌, Bytes, is_empty, bytes_eq, if◌then◌else◌, Result,
  ok, err, ◌>>=◌, ◌>>◌, map_err,
}
use shell_chain_specs.Primitives.Types.{Root, TransactionEnvelope}
use shell_chain_specs.Primitives.StateKey.{StateKey, StateWitness, compare_state_keys, state_key_eq}
use shell_chain_specs.Fixtures.Hex.{Panic, panicked, Text, check, parse_root}
use shell_chain_specs.Fixtures.Vectors.{WitnessVector}

pub record RootCheckHeaderInput : Type 0 where
  pub block_root : Text
  pub block_number : ℕ
  pub timestamp : ℕ
  pub proposer_index : ℕ
  pub parent_root : Text
  pub transactions_root : Text
  pub execution_witnesses_root : Text
  pub state_root : Text
  pub receipts_root : Text
  pub witness_bytes : ℕ
  pub proposer_signature_hex : Text

pub record RootCheckSidecarInput : Type 0 where
  pub block_root : Text
  pub witness_vector_ids : List Text

pub record RootCheckExecutionStep : Type 0 where
  pub transaction_vector_id : Text
  pub witness_vector_id : Text
  pub new_leaf_value_hex : Text
  pub receipt_status_code : ℕ
  pub receipt_output_hex : Text

-- The bodies of one field, `body` and `execution`, are their fields.
pub record RootCheckInput : Type 0 where
  pub header : RootCheckHeaderInput
  pub transaction_vector_ids : List Text
  pub sidecar : RootCheckSidecarInput
  pub steps : List RootCheckExecutionStep

pub record RootCheckVector : Type 0 where
  pub id : Text
  pub input : RootCheckInput
  pub transactions_root : Text
  pub execution_witnesses_root : Text
  pub state_root : Text
  pub receipts_root : Text

pub record LoadedVectors : Type 0 where
  pub transactions : List TransactionEnvelope
  pub transactions_root : Root
  pub vectors : List WitnessVector
  pub witnesses : List StateWitness
  pub execution_witnesses_root : Root

-- `unwrap_or_else` with a panic.
abbrev pub unwrap {ℓ κ} : {A : Type ℓ} {E : Type κ} → Result A E → Result A Panic
unwrap r = map_err (λ error. panicked) r

-- The bytes of "accept".
abbrev pub accept_text : Text
accept_text = 97 ∷ 99 ∷ 99 ∷ 101 ∷ 112 ∷ 116 ∷ []

-- `sort_by` is stable: an entry stands before those that compare equal and come later.
unfoldable pub insert_entry : StateKey × Bytes → List (StateKey × Bytes) → List (StateKey × Bytes)
insert_entry entry [] = entry ∷ []
insert_entry entry (other ∷ others) =
    let later = insert_entry entry others in
    elim (compare_state_keys entry.0 other.0) [
      | Ordering.gt ↦ other ∷ later
      | _ ↦ entry ∷ other ∷ others
    ]

unfoldable pub sort_entries : List (StateKey × Bytes) → List (StateKey × Bytes)
unfolding insert_entry
sort_entries [] = []
sort_entries (entry ∷ entries) = insert_entry entry (sort_entries entries)

unfoldable pub canonical_root_check_materialized_state :
    List (StateKey × Bytes) → Result (List (StateKey × Bytes)) Panic
unfolding sort_entries
canonical_root_check_materialized_state entries =
    check (not (is_empty (sort_entries entries))) >> ok (sort_entries entries)

-- The derived `PartialEq` of the entries.
unfoldable pub entries_eq : List (StateKey × Bytes) → List (StateKey × Bytes) → Bool
entries_eq [] [] = true
entries_eq [] (y ∷ ys) = false
entries_eq (x ∷ xs) [] = false
entries_eq (x ∷ xs) (y ∷ ys) = state_key_eq x.0 y.0 && bytes_eq x.1 y.1 && entries_eq xs ys

unfoldable pub find_vector : Text → List WitnessVector → Result WitnessVector Panic
find_vector id [] = err panicked
find_vector id (vector ∷ vectors) =
    let rest = find_vector id vectors in if bytes_eq vector.id id then ok vector else rest

unfoldable pub first_vector : List WitnessVector → Result WitnessVector Panic
first_vector [] = err panicked
first_vector (vector ∷ vectors) = ok vector

-- The root that the fixture and its header both give.
abbrev pub agreed_root : Text → Text → Result Root Panic
agreed_root fixture_root header_root = do
  expected ← parse_root fixture_root
  stated ← parse_root header_root
  _ ← check (bytes_eq stated expected)
  ok expected

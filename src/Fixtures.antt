-- ===== src/Fixtures.antt =====
-- crates/shell-fixtures/src/lib.rs: the scenarios that the reference runs take, and the roots that they
-- commit to.
pub mod RootCheck
pub mod Hex
pub mod Vectors
pub mod Load
pub mod Resolved
pub mod Binding
pub mod Tests
use shell_chain_specs.Common.{
  ℕ, List, [], ◌∷◌, ◌++◌, map, concat, Bytes, length, to_be_bytes, Result, ok, err, ◌>>=◌,
}
use shell_chain_specs.Primitives.Types.{Root, TransactionEnvelope}
use shell_chain_specs.Primitives.Errors.{PrimitiveError}
use shell_chain_specs.Primitives.StateKey.{StateKey, StateWitness, encode_state_key}
use shell_chain_specs.Primitives.Hash.{Sha256}
use shell_chain_specs.Primitives.Ssz.{envelope_root}

pub record RootCheckScenarioHeader : Type 0 where
  pub block_root : Root
  pub block_number : ℕ
  pub timestamp : ℕ
  pub proposer_index : ℕ
  pub parent_root : Root
  pub transactions_root : Root
  pub execution_witnesses_root : Root
  pub state_root : Root
  pub receipts_root : Root
  pub witness_bytes : ℕ
  pub proposer_signature : Bytes

pub record RootCheckScenarioSidecar : Type 0 where
  pub block_root : Root

pub record RootCheckScenarioStep : Type 0 where
  pub transaction_root : Root
  pub key : StateKey
  pub new_leaf_value : Bytes
  pub receipt_status_code : ℕ
  pub receipt_output : Bytes

pub record RootCheckScenario : Type 0 where
  pub header : RootCheckScenarioHeader
  pub sidecar : RootCheckScenarioSidecar
  pub transactions : List TransactionEnvelope
  pub witnesses : List StateWitness
  pub materialized_state : List (StateKey × Bytes)
  pub pre_state_root : Root
  pub steps : List RootCheckScenarioStep

-- The bytes of "shell-fixtures/transactions-root/v1" and of
-- "shell-fixtures/execution-witnesses-root/v1".
abbrev pub transactions_root_tag : Bytes
transactions_root_tag =
    115 ∷ 104 ∷ 101 ∷ 108 ∷ 108 ∷ 45 ∷ 102 ∷ 105 ∷ 120 ∷ 116 ∷ 117 ∷ 114 ∷ 101 ∷ 115 ∷ 47 ∷ 116
    ∷ 114 ∷ 97 ∷ 110 ∷ 115 ∷ 97 ∷ 99 ∷ 116 ∷ 105 ∷ 111 ∷ 110 ∷ 115 ∷ 45 ∷ 114 ∷ 111 ∷ 111 ∷ 116 ∷ 47
    ∷ 118 ∷ 49 ∷ []

abbrev pub execution_witnesses_root_tag : Bytes
execution_witnesses_root_tag =
    115 ∷ 104 ∷ 101 ∷ 108 ∷ 108 ∷ 45 ∷ 102 ∷ 105 ∷ 120 ∷ 116 ∷ 117 ∷ 114 ∷ 101 ∷ 115 ∷ 47 ∷ 101
    ∷ 120 ∷ 101 ∷ 99 ∷ 117 ∷ 116 ∷ 105 ∷ 111 ∷ 110 ∷ 45 ∷ 119 ∷ 105 ∷ 116 ∷ 110 ∷ 101 ∷ 115 ∷ 115
    ∷ 101 ∷ 115 ∷ 45 ∷ 114 ∷ 111 ∷ 111 ∷ 116 ∷ 47 ∷ 118 ∷ 49 ∷ []

-- What the hasher is given for a witness.
unfoldable pub witness_message : StateWitness → Bytes
witness_message witness =
    to_be_bytes 8 (length (encode_state_key witness.key))
    ++ (encode_state_key witness.key
        ++ (to_be_bytes 8 (length witness.leaf_value)
            ++ (witness.leaf_value
                ++ (to_be_bytes 8 (length witness.proof) ++ concat witness.proof))))

unfoldable pub witness_messages : List StateWitness → Bytes
unfolding witness_message
witness_messages [] = []
witness_messages (witness ∷ witnesses) = witness_message witness ++ witness_messages witnesses

module _ (h : Sha256) where
  unfoldable pub transaction_roots : List TransactionEnvelope → Result Bytes PrimitiveError
  transaction_roots [] = ok []
  transaction_roots (transaction ∷ transactions) = do
    root ← envelope_root h transaction
    roots ← transaction_roots transactions
    ok (root ++ roots)

  unfoldable pub compute_transactions_root : List TransactionEnvelope → Result Root PrimitiveError
  unfolding transaction_roots
  compute_transactions_root transactions = do
    roots ← transaction_roots transactions
    ok (h.digest (transactions_root_tag ++ (to_be_bytes 8 (length transactions) ++ roots)))

  unfoldable pub compute_execution_witnesses_root : List StateWitness → Root
  unfolding witness_messages
  compute_execution_witnesses_root witnesses = h.digest (
      execution_witnesses_root_tag
      ++ (to_be_bytes 8 (length witnesses) ++ witness_messages witnesses))

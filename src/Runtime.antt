-- ===== src/Runtime.antt =====
-- crates/shell-cli/src: the scenario of a local reference run, the services that it fills the block
-- import with, and the run.
pub mod Run
pub mod Scenario
pub mod Adapters
pub mod Services
pub mod Accepted
pub mod Loaded
pub mod Tests
use shell_chain_specs.Common.{
  ℕ, String, Option, none, some, List, [], ◌∷◌, map, Bytes, length, ◌==◌, bytes_eq, if◌then◌else◌,
  Result, ok, err, ◌>>=◌, ◌>>◌, map_err, ok_or, ByteMap, map_insert, map_get,
}
use shell_chain_specs.Primitives.Types.{Root, TransactionEnvelope}
use shell_chain_specs.Primitives.Errors.{PrimitiveError, ProposerCredentialResolutionError}
use shell_chain_specs.Primitives.StateKey.{StateKey, StateWitness}
use shell_chain_specs.Primitives.Hash.{Sha256}
use shell_chain_specs.Primitives.Ssz.{payload_root}
use shell_chain_specs.Crypto.{SignatureVerificationRequest, CryptoError}
use shell_chain_specs.State.Witness.{
  StateError, root_continuity_mismatch, witness_verification_failed, verify_witnesses,
}
use shell_chain_specs.State.Accumulator.{InMemoryAccumulator, apply_transition, verify_witness}
use shell_chain_specs.State.Accumulator
use shell_chain_specs.State.Applier
use shell_chain_specs.Mempool.{
  AdmissionPolicy, AdmissionStateView, AuthorizationValidated, ValidationError,
  authorization_material_count, admit_and_verify,
}
use shell_chain_specs.Mempool
use shell_chain_specs.Execution.{
  ExecutionError, state_transition, BlockExecutionOutcome, PlannedTransaction, execute_transaction,
  execute_block, ensure_exhausted,
}
use shell_chain_specs.Execution
use shell_chain_specs.Consensus.{
  BlockImportOutcome, ConsensusError, ConsensusHeader, ConsensusBody, ConsensusSidecar,
  ProposerCredential, BlockImportServices, import_block,
}
use shell_chain_specs.Consensus.Objects.{
  CanonicalBlock, consensus_header, consensus_body, consensus_sidecar,
}
use shell_chain_specs.Fixtures.{compute_execution_witnesses_root}

pub record ScenarioShapeError : Type 0 where
  pub expected : ℕ
  pub actual : ℕ
  pub context : String

pub data LocalReferenceError : Type 0 where
  scenario_shape : ScenarioShapeError → LocalReferenceError
  duplicate_admission_payload_root : Root → LocalReferenceError
  primitive : PrimitiveError → LocalReferenceError
  admission : ValidationError → LocalReferenceError
  consensus : ConsensusError → LocalReferenceError

pub record LocalReferenceFlowOutcome : Type 0 where
  pub admissions : List AuthorizationValidated
  pub import_outcome : BlockImportOutcome

-- fixtures.rs.
pub record OwnedAuthorizationMaterial : Type 0 where
  pub public_key_material : Bytes

pub record LocalReferenceScenario : Type 0 where
  pub block : CanonicalBlock
  pub admission_transactions : List TransactionEnvelope
  pub pre_state_root : Root
  pub materialized_state : List (StateKey × Bytes)
  pub planned_transactions : List PlannedTransaction
  pub transaction_authorization_materials : List (List OwnedAuthorizationMaterial)

-- The dispatcher is its two methods for verification; of the import's configuration the limit of the
-- witness bytes is used.
pub record LocalReferenceRuntime : Type 0 where
  pub verify_transaction_authorization :
      ℕ → SignatureVerificationRequest → Result (Unit {0}) CryptoError
  pub verify_validator_message : ℕ → SignatureVerificationRequest → Result (Unit {0}) CryptoError
  pub resolver : Root → Option ℕ → Result ProposerCredential ProposerCredentialResolutionError
  pub admission_policy : AdmissionPolicy
  pub max_witness_bytes : Option ℕ
  pub admission_state_view : Option AdmissionStateView

abbrev pub AdmissionEntry : Type 0
AdmissionEntry = TransactionEnvelope × List OwnedAuthorizationMaterial

-- `left` is compared with the number of the body's transactions.
abbrev pub check_aligned : ℕ → ℕ → String → Result (Unit {0}) LocalReferenceError
check_aligned expected actual context =
    if actual == expected
    then ok tt
    else err (scenario_shape (record { expected = expected; actual = actual; context = context }))

unfoldable pub validate_scenario_shape :
    LocalReferenceScenario → Result (Unit {0}) LocalReferenceError
validate_scenario_shape scenario =
    let transaction_count = length scenario.block.body.transactions in
    check_aligned transaction_count (length scenario.admission_transactions)
      "admission transactions must align one-to-one with block body transactions"
    >> (check_aligned transaction_count (length scenario.planned_transactions)
          "planned transactions must align one-to-one with block body transactions"
        >> check_aligned transaction_count (length scenario.transaction_authorization_materials)
            "authorization material entries must align one-to-one with block body transactions")

abbrev pub borrow_authorization_materials : List OwnedAuthorizationMaterial → List Bytes
borrow_authorization_materials [] = []
borrow_authorization_materials (material ∷ materials) =
    material.public_key_material ∷ borrow_authorization_materials materials

unfoldable pub materialize_accumulator :
    Sha256 → List (StateKey × Bytes) → Result InMemoryAccumulator StateError
materialize_accumulator h [] = ok Accumulator.new
materialize_accumulator h (entry ∷ entries) =
    let applied = apply_transition h Accumulator.new (record {
      accesses = map (λ (e : StateKey × Bytes). e.0) (entry ∷ entries);
      new_values = map (λ (e : StateKey × Bytes). e.1) (entry ∷ entries);
    }) in
    applied.0 >>= λ root. ok applied.1

-- The root that is expected, or a break in the continuity.
abbrev pub check_state_root : Root → InMemoryAccumulator → Result (Unit {0}) StateError
check_state_root pre_state_root accumulator =
    if bytes_eq accumulator.root pre_state_root
    then ok tt
    else err (root_continuity_mismatch pre_state_root accumulator.root)

module _ (h : Sha256) where
  -- The loop over the zipped lists.
  unfoldable pub build_loop :
      List TransactionEnvelope
      → List (List OwnedAuthorizationMaterial)
      → ByteMap AdmissionEntry
      → Result (ByteMap AdmissionEntry) LocalReferenceError
  build_loop [] materials by_root = ok by_root
  build_loop (transaction ∷ transactions) [] by_root = ok by_root
  build_loop (transaction ∷ transactions) (material ∷ materials) by_root = do
    root ← map_err primitive (payload_root h transaction.payload)
    elim (map_get root by_root) [
      | none ↦ build_loop transactions materials (map_insert root (transaction, material) by_root)
      | some previous ↦ err (duplicate_admission_payload_root root)
    ]

  unfoldable pub build_admission_transactions_by_payload_root :
      List TransactionEnvelope
      → List (List OwnedAuthorizationMaterial)
      → Result (ByteMap AdmissionEntry) LocalReferenceError
  unfolding build_loop
  build_admission_transactions_by_payload_root transactions materials =
      build_loop transactions materials []

  -- `ReferenceWitnessScenarioPreparer::prepare_witness`.
  unfoldable pub prepare_witness :
      Root
      → List (StateKey × Bytes)
      → List StateWitness
      → ConsensusHeader
      → ConsensusSidecar
      → Result (Unit {0}) StateError
  unfolding materialize_accumulator verify_witnesses
  prepare_witness pre_state_root materialized_state witnesses header sidecar =
      (if bytes_eq (compute_execution_witnesses_root h witnesses) header.execution_witnesses_root
        then ok tt
        else err (
            witness_verification_failed
              "reference witness set does not match the committed execution_witnesses_root"))
      >> (materialize_accumulator h materialized_state >>= λ accumulator.
          check_state_root pre_state_root accumulator
          >> verify_witnesses (verify_witness accumulator) witnesses pre_state_root)

  -- `ReferenceExecutionEngine::execute_block`.
  unfoldable pub execute_reference_block :
      Root
      → List (StateKey × Bytes)
      → List PlannedTransaction
      → ConsensusHeader
      → ConsensusBody
      → ConsensusSidecar
      → Result BlockExecutionOutcome ExecutionError
  unfolding materialize_accumulator
  execute_reference_block pre_state_root materialized_state planned_transactions header body
        sidecar =
      do
        accumulator ← map_err state_transition (materialize_accumulator h materialized_state)
        _ ← map_err state_transition (check_state_root pre_state_root accumulator)
        let executed =
            execute_block h (execute_transaction h) (Applier.apply_transition h) pre_state_root
              body.transactions (Execution.new planned_transactions, Applier.new accumulator)
        outcome ← executed.0
        _ ← ensure_exhausted executed.1.0
        ok outcome

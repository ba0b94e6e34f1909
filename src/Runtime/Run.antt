-- ===== src/Runtime/Run.antt =====
-- crates/shell-cli/src/runtime.rs: the local reference run.
use shell_chain_specs.Common.{List, [], ◌∷◌, Result, ok, ◌>>=◌, map_err, ok_or, ByteMap, map_get}
use shell_chain_specs.Primitives.Types.{TransactionEnvelope}
use shell_chain_specs.Primitives.Hash.{Sha256}
use shell_chain_specs.Primitives.Ssz.{payload_root}
use shell_chain_specs.Mempool.{
  AdmissionPolicy, AdmissionStateView, AuthorizationValidated, ValidationError,
  authorization_material_count, admit_and_verify,
}
use shell_chain_specs.Mempool
use shell_chain_specs.Consensus.{
  BlockImportOutcome, ConsensusError, ConsensusHeader, ConsensusBody, ConsensusSidecar,
  BlockImportServices, import_block,
}
use shell_chain_specs.Consensus.Objects.{consensus_header, consensus_body, consensus_sidecar}
use shell_chain_specs.Runtime.{
  LocalReferenceError, admission, consensus, LocalReferenceFlowOutcome, OwnedAuthorizationMaterial,
  LocalReferenceScenario, LocalReferenceRuntime, AdmissionEntry, validate_scenario_shape,
  borrow_authorization_materials, build_admission_transactions_by_payload_root, prepare_witness,
  execute_reference_block,
}

module _ (h : Sha256) (runtime : LocalReferenceRuntime) where
  unfoldable pub validate_transaction :
      TransactionEnvelope
      → List OwnedAuthorizationMaterial
      → Result AuthorizationValidated ValidationError
  validate_transaction envelope authorization_materials =
      admit_and_verify h runtime.verify_transaction_authorization runtime.admission_policy envelope
        runtime.admission_state_view (borrow_authorization_materials authorization_materials)

  unfoldable pub admit_loop :
      List TransactionEnvelope
      → List (List OwnedAuthorizationMaterial)
      → Result (List AuthorizationValidated) LocalReferenceError
  unfolding validate_transaction
  admit_loop [] materials = ok []
  admit_loop (transaction ∷ transactions) [] = ok []
  admit_loop (transaction ∷ transactions) (material ∷ materials) = do
    validated ← map_err admission (validate_transaction transaction material)
    rest ← admit_loop transactions materials
    ok (validated ∷ rest)

  unfoldable pub admit_transactions :
      LocalReferenceScenario → Result (List AuthorizationValidated) LocalReferenceError
  unfolding admit_loop
  admit_transactions scenario =
      admit_loop scenario.admission_transactions scenario.transaction_authorization_materials

  -- `ReferenceTransactionRevalidator::revalidate`.
  unfoldable pub revalidate :
      ByteMap AdmissionEntry → TransactionEnvelope → Result (Unit {0}) ValidationError
  unfolding validate_transaction
  revalidate admission_transactions transaction = do
    root ← map_err Mempool.primitive (payload_root h transaction.payload)
    entry ← ok_or (map_get root admission_transactions) (authorization_material_count 1 0)
    _ ← validate_transaction entry.0 entry.1
    ok tt

  -- The services of `validate_block_against_reference`.
  abbrev pub reference_services :
      LocalReferenceScenario → ByteMap AdmissionEntry → BlockImportServices
  reference_services scenario admission_transactions = record {
    resolver = runtime.resolver;
    dispatcher = runtime.verify_validator_message;
    revalidator = revalidate admission_transactions;
    preparer =
        prepare_witness h scenario.pre_state_root scenario.materialized_state
          scenario.block.sidecar.witnesses;
    execution_engine =
        execute_reference_block h scenario.pre_state_root scenario.materialized_state
          scenario.planned_transactions;
  }

  unfoldable pub validate_block_against_reference :
      LocalReferenceScenario
      → ConsensusHeader
      → ConsensusBody
      → ConsensusSidecar
      → ByteMap AdmissionEntry
      → Result BlockImportOutcome ConsensusError
  validate_block_against_reference scenario header body sidecar admission_transactions =
      import_block h runtime.max_witness_bytes header body sidecar
        (reference_services scenario admission_transactions)

  unfoldable pub run : LocalReferenceScenario → Result LocalReferenceFlowOutcome LocalReferenceError
  unfolding validate_scenario_shape admit_transactions build_admission_transactions_by_payload_root
      validate_block_against_reference
  run scenario = do
    _ ← validate_scenario_shape scenario
    admissions ← admit_transactions scenario
    admission_transactions ←
        build_admission_transactions_by_payload_root h scenario.admission_transactions
          scenario.transaction_authorization_materials
    import_outcome ← map_err consensus (
        validate_block_against_reference scenario (consensus_header scenario.block.header)
          (consensus_body scenario.block.body) (consensus_sidecar scenario.block.sidecar)
          admission_transactions)
    ok (record { admissions = admissions; import_outcome = import_outcome })

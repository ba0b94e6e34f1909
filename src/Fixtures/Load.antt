-- ===== src/Fixtures/Load.antt =====
-- crates/shell-fixtures/src/lib.rs: `resolve_root_check_scenario`. The vectors that it names are read
-- from files, by functions that are arguments here; a panic is an error.
use shell_chain_specs.Common.{
  ◌==◌, List, [], ◌∷◌, map, Bytes, length, drop, bytes_eq, Result, ok, ◌>>=◌,
}
use shell_chain_specs.Primitives.Types.{Root, TransactionEnvelope}
use shell_chain_specs.Primitives.StateKey.{StateKey, StateWitness}
use shell_chain_specs.Primitives.Hash.{Sha256}
use shell_chain_specs.Primitives.Ssz.{envelope_root}
use shell_chain_specs.State.Witness.{verify_witnesses}
use shell_chain_specs.State.Accumulator.{InMemoryAccumulator, apply_transition, verify_witness}
use shell_chain_specs.State.Accumulator
use shell_chain_specs.Fixtures.{
  RootCheckScenario, RootCheckScenarioHeader, RootCheckScenarioStep, compute_transactions_root,
  compute_execution_witnesses_root,
}
use shell_chain_specs.Fixtures.Hex.{
  Panic, Text, check, traverse, parse_hex, parse_array, parse_root,
}
use shell_chain_specs.Fixtures.Vectors.{
  TransactionVector, WitnessVector, vector_envelope, single_witness, materialized_state,
  declared_state_root,
}
use shell_chain_specs.Fixtures.RootCheck.{
  RootCheckExecutionStep, RootCheckVector, LoadedVectors, unwrap, accept_text,
  canonical_root_check_materialized_state, entries_eq, find_vector, first_vector, agreed_root,
}

module _ (h : Sha256) where
  unfoldable pub materialize_root_check_accumulator :
      List (StateKey × Bytes) → Result InMemoryAccumulator Panic
  materialize_root_check_accumulator entries =
      let applied = apply_transition h Accumulator.new (record {
        accesses = map (λ (e : StateKey × Bytes). e.0) entries;
        new_values = map (λ (e : StateKey × Bytes). e.1) entries;
      }) in
      unwrap applied.0 >>= λ root. ok applied.1

  unfoldable pub resolve_witnesses_root : RootCheckVector → List StateWitness → Result Root Panic
  unfolding parse_array
  resolve_witnesses_root fixture witnesses = do
    expected ←
        agreed_root fixture.execution_witnesses_root fixture.input.header.execution_witnesses_root
    _ ← check (bytes_eq (compute_execution_witnesses_root h witnesses) expected)
    ok expected

  unfoldable pub resolve_transactions_root :
      RootCheckVector → List TransactionEnvelope → Result Root Panic
  unfolding parse_array
  resolve_transactions_root fixture transactions = do
    computed ← unwrap (compute_transactions_root h transactions)
    expected ← agreed_root fixture.transactions_root fixture.input.header.transactions_root
    _ ← check (bytes_eq computed expected)
    ok expected

  -- The state before the block holds the witnesses.
  unfoldable pub check_pre_state :
      List (StateKey × Bytes) → Root → List StateWitness → Result (Unit {0}) Panic
  unfolding materialize_root_check_accumulator
  check_pre_state base pre_state_root witnesses = do
    accumulator ← materialize_root_check_accumulator base
    _ ← check (bytes_eq accumulator.root pre_state_root)
    unwrap (verify_witnesses (verify_witness accumulator) witnesses pre_state_root)

  unfoldable pub check_agreement :
      List (StateKey × Bytes) → Root → WitnessVector → Result (Unit {0}) Panic
  unfolding materialized_state canonical_root_check_materialized_state
  check_agreement base pre_state_root vector = do
    declared ← declared_state_root vector
    _ ← check (bytes_eq declared pre_state_root)
    entries ← materialized_state vector
    canonical ← canonical_root_check_materialized_state entries
    check (entries_eq canonical base)

  unfoldable pub resolve_step :
      List WitnessVector
      → RootCheckExecutionStep
      → Text
      → TransactionEnvelope
      → Result RootCheckScenarioStep Panic
  unfolding find_vector single_witness parse_hex
  resolve_step vectors step transaction_id transaction = do
    _ ← check (bytes_eq step.transaction_vector_id transaction_id)
    vector ← find_vector step.witness_vector_id vectors
    witness ← single_witness vector
    root ← unwrap (envelope_root h transaction)
    value ← parse_hex step.new_leaf_value_hex
    output ← parse_hex step.receipt_output_hex
    ok (record {
      transaction_root = root;
      key = witness.key;
      new_leaf_value = value;
      receipt_status_code = step.receipt_status_code;
      receipt_output = output;
    })

  -- The steps zipped with the identifiers and the transactions.
  unfoldable pub resolve_steps :
      List WitnessVector
      → List RootCheckExecutionStep
      → List Text
      → List TransactionEnvelope
      → Result (List RootCheckScenarioStep) Panic
  unfolding resolve_step
  resolve_steps vectors [] ids transactions = ok []
  resolve_steps vectors (step ∷ steps) [] transactions = ok []
  resolve_steps vectors (step ∷ steps) (id ∷ ids) [] = ok []
  resolve_steps vectors (step ∷ steps) (id ∷ ids) (transaction ∷ transactions) = do
    resolved ← resolve_step vectors step id transaction
    rest ← resolve_steps vectors steps ids transactions
    ok (resolved ∷ rest)

  -- The first vector's state and root, which hold the witnesses, and on which the others agree.
  unfoldable pub resolve_pre_state :
      List WitnessVector → List StateWitness → Result (List (StateKey × Bytes) × Root) Panic
  unfolding first_vector materialized_state canonical_root_check_materialized_state
      declared_state_root check_pre_state check_agreement
  resolve_pre_state vectors witnesses = do
    first ← first_vector vectors
    entries ← materialized_state first
    base ← canonical_root_check_materialized_state entries
    pre_state_root ← declared_state_root first
    _ ← check_pre_state base pre_state_root witnesses
    _ ← traverse (check_agreement base pre_state_root) (drop 1 vectors)
    ok (base, pre_state_root)

  unfoldable pub resolve_header :
      RootCheckVector → Root → Root → Result RootCheckScenarioHeader Panic
  unfolding parse_array parse_hex
  resolve_header fixture transactions_root witnesses_root = do
    let header = fixture.input.header
    state_root ← agreed_root fixture.state_root header.state_root
    receipts_root ← agreed_root fixture.receipts_root header.receipts_root
    block_root ← agreed_root header.block_root fixture.input.sidecar.block_root
    parent_root ← parse_root header.parent_root
    signature ← parse_hex header.proposer_signature_hex
    ok (record {
      block_root = block_root;
      block_number = header.block_number;
      timestamp = header.timestamp;
      proposer_index = header.proposer_index;
      parent_root = parent_root;
      transactions_root = transactions_root;
      execution_witnesses_root = witnesses_root;
      state_root = state_root;
      receipts_root = receipts_root;
      witness_bytes = header.witness_bytes;
      proposer_signature = signature;
    })

  -- What the vectors give, before the state and the steps are resolved.
  unfoldable pub resolve_loaded : RootCheckVector → LoadedVectors → Result RootCheckScenario Panic
  unfolding resolve_pre_state resolve_steps resolve_header
  resolve_loaded fixture loaded = do
    pre_state ← resolve_pre_state loaded.vectors loaded.witnesses
    steps ←
        resolve_steps loaded.vectors fixture.input.steps fixture.input.transaction_vector_ids
          loaded.transactions
    _ ← check (length steps == length loaded.transactions)
    header ← resolve_header fixture loaded.transactions_root loaded.execution_witnesses_root
    ok (record {
      header = header;
      sidecar = record { block_root = header.block_root };
      transactions = loaded.transactions;
      witnesses = loaded.witnesses;
      materialized_state = pre_state.0;
      pre_state_root = pre_state.1;
      steps = steps;
    })

  module _ (load_transaction_fixture_by_id : Text → Result TransactionVector Panic)
      (load_witness_fixture_by_id : Text → Result WitnessVector Panic) where
    unfoldable pub load_envelope : Text → Result TransactionEnvelope Panic
    unfolding vector_envelope
    load_envelope id = do
      vector ← load_transaction_fixture_by_id id
      _ ← check (bytes_eq vector.expected_outcome accept_text)
      vector_envelope vector

    unfoldable pub load_witness_vector : Text → Result WitnessVector Panic
    load_witness_vector id = do
      vector ← load_witness_fixture_by_id id
      _ ← check (bytes_eq vector.expected_outcome accept_text)
      ok vector

    unfoldable pub load_vectors : RootCheckVector → Result LoadedVectors Panic
    unfolding load_envelope resolve_transactions_root load_witness_vector single_witness
        resolve_witnesses_root
    load_vectors fixture = do
      transactions ← traverse load_envelope fixture.input.transaction_vector_ids
      transactions_root ← resolve_transactions_root fixture transactions
      vectors ← traverse load_witness_vector fixture.input.sidecar.witness_vector_ids
      witnesses ← traverse single_witness vectors
      witnesses_root ← resolve_witnesses_root fixture witnesses
      ok (record {
        transactions = transactions;
        transactions_root = transactions_root;
        vectors = vectors;
        witnesses = witnesses;
        execution_witnesses_root = witnesses_root;
      })

    unfoldable pub resolve_root_check_scenario : RootCheckVector → Result RootCheckScenario Panic
    unfolding load_vectors resolve_loaded
    resolve_root_check_scenario fixture =
        load_vectors fixture >>= λ loaded. resolve_loaded fixture loaded

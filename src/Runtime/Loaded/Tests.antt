-- ===== src/Runtime/Loaded/Tests.antt =====
-- A scenario of one transaction and one witness. The hash's digests are all zero, and so are all texts of
-- a fixed size.
use shell_chain_specs.Common.{
  ℕ, ◌*◌, ◌≡◌, refl, none, some, [], ◌∷◌, replicate, bytes_eq, compare_bytes, map_insert, Result,
  ok, map_get, last_below, first_above,
}
use shell_chain_specs.Primitives.Types.{zero_root, basic}
use shell_chain_specs.Primitives.StateKey.{
  account_header, encode_state_key, compare_state_keys, canonicalize_execution_address, proof_shape,
  state_key_eq,
}
use shell_chain_specs.Primitives.Ssz.{
  envelope_root, payload_root, merkleize, merkleize_loop, sha256_pair, mix_in_selector,
}
use shell_chain_specs.State.Witness.{
  validate_shape, increasing_loop, ensure_canonical_access_order, ensure_canonical_witness_order,
  verify_witnesses, verify_loop, ensure_reference_backend_proof_shape,
}
use shell_chain_specs.State.Accumulator.{
  apply_transition, apply_leaf, apply_leaves, recompute_root, compute_reference_root, ensure,
  ensure_left, ensure_right, verify_path, proof_path_for_access, derive_proof_path, verify_witness,
}
use shell_chain_specs.Mempool.Tests.{zero_digest}
use shell_chain_specs.Execution.{BlockExecutionOutcome}
use shell_chain_specs.Consensus.{verify_body_binding, verify_sidecar_binding}
use shell_chain_specs.Consensus.Objects.{consensus_header, consensus_body, consensus_sidecar}
use shell_chain_specs.Fixtures.{
  RootCheckScenario, transaction_roots, compute_transactions_root, compute_execution_witnesses_root,
}
use shell_chain_specs.Fixtures.Hex.{
  Panic, Text, hex_digit, hex_byte, hex_pairs, parse_hex, parse_array,
}
use shell_chain_specs.Fixtures.Vectors.{
  TransactionVector, TransactionPayloadInput, basic_input, StateKeyInput, account_header_input,
  WitnessVector, parse_fees, build_payload, vector_envelope, read_state_key, canonical_key_hex,
  check_canonical_key, to_state_key, to_entry, to_state_witness, single_witness, materialized_state,
  declared_state_root,
}
use shell_chain_specs.Fixtures.Load.{
  materialize_root_check_accumulator, resolve_witnesses_root, resolve_transactions_root,
  check_pre_state, resolve_step, resolve_steps, resolve_header, resolve_pre_state, resolve_loaded,
  load_envelope, load_witness_vector, load_vectors, resolve_root_check_scenario,
}
use shell_chain_specs.Fixtures.RootCheck.{
  RootCheckVector, accept_text, insert_entry, sort_entries, canonical_root_check_materialized_state,
  find_vector, first_vector,
}
use shell_chain_specs.Runtime.{validate_scenario_shape, prepare_witness, execute_reference_block}
use shell_chain_specs.Runtime.Scenario.{from_root_check_scenario}
use shell_chain_specs.Runtime.Loaded.{resolve_root_check_scenario-runs}

-- "0x", and two zeros for each byte.
abbrev zeros_text : ℕ → Text
zeros_text size = 48 ∷ 120 ∷ replicate (size * 2) 48

abbrev zero32 : Text
zero32 = zeros_text 32

-- "0x01"
abbrev one_text : Text
one_text = 48 ∷ 120 ∷ 48 ∷ 49 ∷ []

abbrev payload : TransactionPayloadInput
payload =
    basic_input zero32 5 21_000
      (record {
        regular = zero32;
        max_priority_fee_per_gas = zero32;
        max_witness_priority_fee = zero32;
      })
      (zeros_text 20) zero32 one_text zero32

abbrev load_transaction : Text → Result TransactionVector Panic
load_transaction id =
    ok (record { id = id; payload = some payload; expected_outcome = accept_text })

abbrev key_input : StateKeyInput
key_input = account_header_input (zeros_text 20) none

abbrev load_witness : Text → Result WitnessVector Panic
load_witness id = ok (record {
  id = id;
  input = record {
    expected_state_root = some zero32;
    witness = some (record { key = key_input; leaf_value_hex = one_text; proof_hex = [] });
    materialized_state = some (record { key = key_input; leaf_value_hex = one_text } ∷ []);
  };
  expected_outcome = accept_text;
})

abbrev fixture : RootCheckVector
fixture = record {
  id = 114 ∷ [];
  input = record {
    header = record {
      block_root = zero32;
      block_number = 7;
      timestamp = 1000;
      proposer_index = 0;
      parent_root = zero32;
      transactions_root = zero32;
      execution_witnesses_root = zero32;
      state_root = zero32;
      receipts_root = zero32;
      witness_bytes = 100;
      proposer_signature_hex = one_text;
    };
    transaction_vector_ids = (116 ∷ []) ∷ [];
    sidecar = record { block_root = zero32; witness_vector_ids = (119 ∷ []) ∷ [] };
    steps =
        record {
          transaction_vector_id = 116 ∷ [];
          witness_vector_id = 119 ∷ [];
          new_leaf_value_hex = one_text;
          receipt_status_code = 1;
          receipt_output_hex = one_text;
        }
        ∷ [];
  };
  transactions_root = zero32;
  execution_witnesses_root = zero32;
  state_root = zero32;
  receipts_root = zero32;
}

abbrev scenario : RootCheckScenario
scenario = record {
  header = record {
    block_root = zero_root;
    block_number = 7;
    timestamp = 1000;
    proposer_index = 0;
    parent_root = zero_root;
    transactions_root = zero_root;
    execution_witnesses_root = zero_root;
    state_root = zero_root;
    receipts_root = zero_root;
    witness_bytes = 100;
    proposer_signature = 1 ∷ [];
  };
  sidecar = record { block_root = zero_root };
  transactions =
      record {
        payload = basic (record {
          chain_id = zero_root;
          nonce = 5;
          gas_limit = 21_000;
          fees = record {
            regular = zero_root;
            max_priority_fee_per_gas = zero_root;
            max_witness_priority_fee = zero_root;
          };
          to = replicate 20 0;
          value = zero_root;
          input = 1 ∷ [];
          access_commitment = zero_root;
        });
        authorizations = [];
      }
      ∷ [];
  witnesses =
      record { key = account_header (replicate 20 0); leaf_value = 1 ∷ []; proof = [] } ∷ [];
  materialized_state = (account_header (replicate 20 0), 1 ∷ []) ∷ [];
  pre_state_root = zero_root;
  steps =
      record {
        transaction_root = zero_root;
        key = account_header (replicate 20 0);
        new_leaf_value = 1 ∷ [];
        receipt_status_code = 1;
        receipt_output = 1 ∷ [];
      }
      ∷ [];
}

fixture-resolved :
    resolve_root_check_scenario zero_digest load_transaction load_witness fixture ≡ ok scenario
unfolding resolve_root_check_scenario load_vectors load_envelope load_witness_vector vector_envelope
    build_payload parse_fees parse_array parse_hex hex_pairs hex_byte hex_digit bytes_eq
    resolve_transactions_root compute_transactions_root transaction_roots envelope_root payload_root
    merkleize merkleize_loop sha256_pair mix_in_selector single_witness to_state_witness
    to_state_key read_state_key canonical_key_hex check_canonical_key resolve_witnesses_root
    compute_execution_witnesses_root resolve_loaded resolve_pre_state first_vector
    materialized_state to_entry canonical_root_check_materialized_state sort_entries insert_entry
    declared_state_root check_pre_state materialize_root_check_accumulator apply_transition
    validate_shape ensure_canonical_access_order increasing_loop compare_state_keys compare_bytes
    encode_state_key canonicalize_execution_address apply_leaves apply_leaf map_insert map_get
    recompute_root compute_reference_root verify_witnesses ensure_canonical_witness_order
    verify_loop verify_witness derive_proof_path ensure_reference_backend_proof_shape proof_shape
    proof_path_for_access verify_path ensure ensure_left ensure_right state_key_eq last_below
    first_above resolve_steps resolve_step find_vector resolve_header
fixture-resolved = refl

resolve_root_check_scenario-runs_example :
    let local = from_root_check_scenario zero_digest scenario in
    let header = consensus_header local.block.header in
    let body = consensus_body local.block.body in
    let sidecar = consensus_sidecar local.block.sidecar in
    (validate_scenario_shape local ≡ ok tt)
    × (verify_body_binding header body ≡ ok tt)
    × (verify_sidecar_binding header scenario.header.block_root sidecar (
          prepare_witness zero_digest local.pre_state_root local.materialized_state
            local.block.sidecar.witnesses)
        ≡ ok tt)
    × ((outcome : BlockExecutionOutcome) × (execute_reference_block zero_digest local.pre_state_root
            local.materialized_state local.planned_transactions header body sidecar
          ≡ ok outcome))
resolve_root_check_scenario-runs_example =
    resolve_root_check_scenario-runs zero_digest load_transaction load_witness fixture scenario
      fixture-resolved

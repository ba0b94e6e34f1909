-- ===== src/Runtime/Tests.antt =====
-- A block of one transaction against a scenario of two leaves. The hash's digests are all zero, so that
-- every root can be written out.
use shell_chain_specs.Common.{
  last_below, first_above, ◌≡◌, refl, none, some, List, [], ◌∷◌, ok, ByteMap, compare_bytes,
  bytes_eq, map_insert, map_get,
}
use shell_chain_specs.Primitives.Types.{zero_root, ensure_supported_tag, protocol_tag}
use shell_chain_specs.Primitives.Errors.{accept}
use shell_chain_specs.Primitives.Domains.{build_signing_data, domain_type}
use shell_chain_specs.Primitives.StateKey.{
  encode_state_key, compare_state_keys, canonicalize_execution_address, state_key_eq, proof_shape,
}
use shell_chain_specs.Primitives.Validation.{
  check_authorization_count, check_authorization_payload_roots, check_roots_loop,
  check_user_signature_size,
}
use shell_chain_specs.Primitives.Ssz.{
  payload_root, envelope_root, signing_root, mix_in_selector, sha256_pair, merkleize,
  merkleize_loop,
}
use shell_chain_specs.Primitives.Tests.{account_key, slot_key}
use shell_chain_specs.State.Witness.{
  validate_shape, increasing_loop, ensure_canonical_access_order, ensure_canonical_witness_order,
  verify_witnesses, verify_loop, ensure_reference_backend_proof_shape,
}
use shell_chain_specs.State.Accumulator.{
  apply_transition, apply_leaf, apply_leaves, recompute_root, compute_reference_root, ensure,
  ensure_left, ensure_right, verify_path, proof_path_for_access, derive_proof_path, verify_witness,
}
use shell_chain_specs.State.Applier
use shell_chain_specs.State.Tests.{two_keys-IsValid, account_witness, slot_witness}
use shell_chain_specs.Mempool.{
  admit_and_verify, screen_transaction, verify_authorizations, transaction_fees, payload_lane_fee,
  witness_lane_fee, compare_loop, compare_u256, gas_price_covers, check_fee_policy,
  check_nonce_policy, check_nonce, observe, transaction_nonce, check_signature_sizes,
  check_material_count, domain_signing_root,
}
use shell_chain_specs.Mempool
use shell_chain_specs.Mempool.Tests.{zero_digest, envelope, policy, view}
use shell_chain_specs.Execution.{
  PlannedTransaction, compute_receipts_root, next_plan, execute_transaction, execute_one,
  execute_loop, execute_block, is_exhausted, ensure_exhausted, ensure_matches,
}
use shell_chain_specs.Consensus.{
  BlockImportOutcome, import_block, prefilter_header, check_witness_bytes, verify_header_signature,
  verify_body_binding, revalidate_body_transactions, verify_sidecar_binding, execute_and_compare,
}
use shell_chain_specs.Consensus.Objects.{
  CanonicalBlock, consensus_header, consensus_body, consensus_sidecar,
}
use shell_chain_specs.Fixtures.{compute_execution_witnesses_root}
use shell_chain_specs.Network.{test_harness}
use shell_chain_specs.Runtime.{
  AdmissionEntry, LocalReferenceScenario, LocalReferenceRuntime, materialize_accumulator,
  prepare_witness, execute_reference_block,
}
use shell_chain_specs.Runtime.Run.{
  validate_transaction, revalidate, validate_block_against_reference,
}
use shell_chain_specs.Runtime.Adapters.{
  LocalReferenceNetworkConsensusAdapter, validate_gossip_block,
}
use shell_chain_specs.Runtime.Accepted.{ScenarioIsValid, Accepted, validate_gossip_block-Accepted}

abbrev block : CanonicalBlock
block = record {
  header = record {
    block_root = 1 ∷ [];
    block_number = 7;
    timestamp = 1000;
    parent_root = zero_root;
    witness_bytes = 100;
    transactions_root = 2 ∷ [];
    execution_witnesses_root = zero_root;
    state_root = zero_root;
    receipts_root = zero_root;
    proposer_signature = 6 ∷ [];
    proposer_index_hint = none;
  };
  body = record { transactions = envelope ∷ []; transactions_root = 2 ∷ [] };
  sidecar = record {
    block_root = 1 ∷ [];
    execution_witnesses_root = zero_root;
    witnesses = account_witness ∷ slot_witness ∷ [];
  };
}

abbrev plans : List PlannedTransaction
plans =
    record {
      transaction_root = zero_root;
      plan = record {
        state_patch = record { accesses = slot_key ∷ []; new_values = (4 ∷ []) ∷ [] };
        receipt = record { status_code = 1; output = [] };
      };
    }
    ∷ []

abbrev scenario : LocalReferenceScenario
scenario = record {
  block = block;
  admission_transactions = envelope ∷ [];
  pre_state_root = zero_root;
  materialized_state = (account_key, 1 ∷ []) ∷ (slot_key, 2 ∷ 3 ∷ []) ∷ [];
  planned_transactions = plans;
  transaction_authorization_materials = (record { public_key_material = 9 ∷ 8 ∷ [] } ∷ []) ∷ [];
}

abbrev runtime : LocalReferenceRuntime
runtime = record {
  verify_transaction_authorization = λ scheme_id request. ok tt;
  verify_validator_message = λ scheme_id request. ok tt;
  resolver = λ root hint. ok (record { scheme_id = 1; public_key_material = 9 ∷ [] });
  admission_policy = policy;
  max_witness_bytes = some 100;
  admission_state_view = view;
}

abbrev entries : ByteMap AdmissionEntry
entries = (zero_root, (envelope, record { public_key_material = 9 ∷ 8 ∷ [] } ∷ [])) ∷ []

abbrev adapter : LocalReferenceNetworkConsensusAdapter
adapter = record { scenario = scenario; admission_transactions = entries }

scenario-IsValid : ScenarioIsValid scenario
scenario-IsValid = record {
  materialized = two_keys-IsValid;
  witnesses = two_keys-IsValid;
  plans = ((two_keys-IsValid.1.0, tt), tt);
}

block-accepted :
    validate_gossip_block zero_digest runtime adapter test_harness
      (consensus_header block.header)
      (consensus_body block.body)
      (consensus_sidecar block.sidecar)
    ≡ ok accept
unfolding validate_gossip_block validate_block_against_reference import_block prefilter_header
    check_witness_bytes verify_body_binding verify_header_signature build_signing_data domain_type
    signing_root revalidate_body_transactions revalidate validate_transaction admit_and_verify
    screen_transaction verify_authorizations payload_root mix_in_selector sha256_pair protocol_tag
    ensure_supported_tag check_authorization_count check_authorization_payload_roots
    check_roots_loop bytes_eq check_signature_sizes check_user_signature_size check_fee_policy
    payload_lane_fee witness_lane_fee transaction_fees gas_price_covers compare_u256 compare_loop
    check_nonce_policy check_nonce observe transaction_nonce check_material_count
    domain_signing_root merkleize merkleize_loop Mempool.verify_loop verify_sidecar_binding
    prepare_witness compute_execution_witnesses_root materialize_accumulator apply_transition
    validate_shape ensure_canonical_access_order increasing_loop compare_state_keys compare_bytes
    encode_state_key canonicalize_execution_address apply_leaves apply_leaf map_insert map_get
    recompute_root compute_reference_root verify_witnesses ensure_canonical_witness_order
    verify_loop verify_witness derive_proof_path ensure_reference_backend_proof_shape proof_shape
    proof_path_for_access verify_path ensure ensure_left ensure_right state_key_eq
    execute_and_compare execute_reference_block execute_block execute_loop execute_one envelope_root
    execute_transaction next_plan Applier.apply_transition compute_receipts_root is_exhausted
    ensure_exhausted ensure_matches last_below first_above
block-accepted = refl

validate_gossip_block-Accepted_example :
    (result : BlockImportOutcome) × Accepted zero_digest runtime scenario entries
      (consensus_header block.header)
      (consensus_body block.body)
      (consensus_sidecar block.sidecar)
      result
validate_gossip_block-Accepted_example =
    validate_gossip_block-Accepted zero_digest runtime adapter test_harness
      (consensus_header block.header) (consensus_body block.body) (consensus_sidecar block.sidecar)
      scenario-IsValid block-accepted

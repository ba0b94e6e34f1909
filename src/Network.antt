-- ===== src/Network.antt =====
-- crates/shell-network/src/lib.rs and reputation: where an object came from, and what is done to the
-- peer that sent it when it is refused.
pub mod Fetch
pub mod Severity
pub mod Tests
use shell_chain_specs.Common.{ℕ, Bool, true, false, Bytes, if◌then◌else◌}
use shell_chain_specs.Primitives.Errors.{
  ValidationOutcome, accept, reject, policy_reject, ValidationStage, t0, t1, t2, t3, t4, b0, b1, b2,
  b3, b4, b5, PrimitiveError, malformed_ssz, unsupported_payload_variant, payload_root_mismatch,
  signing_root_construction, authorization_count, unimplemented, ProposerCredentialResolutionError,
  not_found, resolver_unavailable, invalid_credential_encoding,
}
use shell_chain_specs.Primitives.Errors
use shell_chain_specs.Crypto.{
  CryptoError, unsupported_scheme, verification_failed, VerificationPath, SignatureLimitKind,
  transaction_authorization, validator_message, repository_rule, local_transport_guard, scheme,
}
use shell_chain_specs.Crypto
use shell_chain_specs.Mempool.{
  ValidationError, primitive, signature_size_exceeded, signature_verification, fee_floor,
  nonce_policy, signing_root_unavailable, authorization_material_count,
}
use shell_chain_specs.Mempool
use shell_chain_specs.Consensus.{
  ConsensusError, domain, crypto, transaction_validation, execution, state,
  proposer_credential_resolution, witness_byte_limit_exceeded, header_body_root_mismatch,
  sidecar_block_root_mismatch, sidecar_commitment_mismatch,
}
use shell_chain_specs.Consensus

-- A peer is named by its bytes.
pub data NetworkOrigin : Type 0 where
  gossip fetch sync : (peer_id : Bytes) → NetworkOrigin
  local_rpc local_builder test_harness : NetworkOrigin

unfoldable pub penalizes_peer : NetworkOrigin → Bool
penalizes_peer (gossip peer_id) = true
penalizes_peer (fetch peer_id) = true
penalizes_peer (sync peer_id) = true
penalizes_peer local_rpc = false
penalizes_peer local_builder = false
penalizes_peer test_harness = false

pub data PeerActionHint : Type 0 where
  rejected_object malformed_announcement invalid_transaction invalid_block : PeerActionHint
  invalid_signature oversized_object policy_rejected internal_error : PeerActionHint

-- `i32`, as far as it is used: `negsuc n` is - (n + 1).
pub data ℤ : Type 0 where
  pos negsuc : ℕ → ℤ

pub data PeerAction : Type 0 where
  accept_object : PeerAction
  ignore : (hint : PeerActionHint) → PeerAction
  adjust_reputation : (value : ℤ) (hint : PeerActionHint) → PeerAction
  disconnect : (hint : PeerActionHint) → PeerAction

abbrev pub policy_reputation_delta : ℤ
policy_reputation_delta = negsuc 9

abbrev pub oversized_reputation_delta : ℤ
oversized_reputation_delta = negsuc 4

unfoldable pub disconnect_action : NetworkOrigin → PeerActionHint → PeerAction
disconnect_action origin hint = if penalizes_peer origin then disconnect hint else ignore hint

unfoldable pub policy_action : NetworkOrigin → ℤ → PeerActionHint → PeerAction
policy_action origin value hint =
    if penalizes_peer origin then adjust_reputation value hint else ignore hint

unfoldable pub peer_action_for_validation_outcome : NetworkOrigin → ValidationOutcome → PeerAction
peer_action_for_validation_outcome origin accept = accept_object
peer_action_for_validation_outcome origin reject = disconnect_action origin rejected_object
peer_action_for_validation_outcome origin policy_reject =
    policy_action origin policy_reputation_delta policy_rejected

abbrev pub is_t0 : ValidationStage → Bool
is_t0 t0 = true
is_t0 t1 = false
is_t0 t2 = false
is_t0 t3 = false
is_t0 t4 = false
is_t0 b0 = false
is_t0 b1 = false
is_t0 b2 = false
is_t0 b3 = false
is_t0 b4 = false
is_t0 b5 = false

unfoldable pub peer_action_for_primitive_error :
    NetworkOrigin → ValidationStage → PrimitiveError → PeerAction
peer_action_for_primitive_error origin stage (malformed_ssz context) =
    disconnect_action origin (if is_t0 stage then malformed_announcement else invalid_transaction)
peer_action_for_primitive_error origin stage (unsupported_payload_variant tag) =
    disconnect_action origin invalid_transaction
peer_action_for_primitive_error origin stage (payload_root_mismatch expected actual) =
    disconnect_action origin invalid_transaction
peer_action_for_primitive_error origin stage (authorization_count expected_at_least actual) =
    disconnect_action origin invalid_transaction
peer_action_for_primitive_error origin stage
      (Errors.signature_size_exceeded max_bytes actual_bytes) =
    disconnect_action origin invalid_transaction
peer_action_for_primitive_error origin stage (signing_root_construction context) =
    ignore internal_error
peer_action_for_primitive_error origin stage (unimplemented context) = ignore internal_error

unfoldable pub peer_action_for_mempool_error :
    NetworkOrigin → ValidationStage → ValidationError → PeerAction
peer_action_for_mempool_error origin stage (primitive error) =
    peer_action_for_primitive_error origin stage error
peer_action_for_mempool_error origin stage (Mempool.unsupported_scheme scheme_id) =
    disconnect_action origin invalid_signature
peer_action_for_mempool_error origin stage (signature_size_exceeded error) =
    disconnect_action origin invalid_signature
peer_action_for_mempool_error origin stage (signature_verification failure) =
    disconnect_action origin invalid_signature
peer_action_for_mempool_error origin stage (fee_floor lane required actual) =
    policy_action origin policy_reputation_delta policy_rejected
peer_action_for_mempool_error origin stage (nonce_policy context) =
    policy_action origin policy_reputation_delta policy_rejected
peer_action_for_mempool_error origin stage (signing_root_unavailable context) =
    ignore internal_error
peer_action_for_mempool_error origin stage (authorization_material_count expected actual) =
    ignore internal_error

unfoldable pub peer_action_for_proposer_credential_error :
    NetworkOrigin → ProposerCredentialResolutionError → PeerAction
peer_action_for_proposer_credential_error origin resolver_unavailable = ignore internal_error
peer_action_for_proposer_credential_error origin not_found = disconnect_action origin invalid_block
peer_action_for_proposer_credential_error origin (invalid_credential_encoding scheme_id context) =
    disconnect_action origin invalid_block

unfoldable pub peer_action_for_size :
    NetworkOrigin → VerificationPath → SignatureLimitKind → PeerAction
peer_action_for_size origin validator_message local_transport_guard =
    policy_action origin oversized_reputation_delta oversized_object
peer_action_for_size origin validator_message repository_rule =
    disconnect_action origin invalid_signature
peer_action_for_size origin validator_message scheme = disconnect_action origin invalid_signature
peer_action_for_size origin transaction_authorization kind =
    disconnect_action origin invalid_signature

unfoldable pub peer_action_for_consensus_crypto_error : NetworkOrigin → CryptoError → PeerAction
peer_action_for_consensus_crypto_error origin (Crypto.signature_size_exceeded error) =
    peer_action_for_size origin error.path error.kind
peer_action_for_consensus_crypto_error origin (unsupported_scheme scheme_id) =
    disconnect_action origin invalid_signature
peer_action_for_consensus_crypto_error origin (verification_failed failure) =
    disconnect_action origin invalid_signature

unfoldable pub peer_action_for_consensus_error : NetworkOrigin → ConsensusError → PeerAction
peer_action_for_consensus_error origin (Consensus.primitive error) =
    disconnect_action origin malformed_announcement
peer_action_for_consensus_error origin (domain error) = ignore internal_error
peer_action_for_consensus_error origin (proposer_credential_resolution error) =
    peer_action_for_proposer_credential_error origin error
peer_action_for_consensus_error origin (crypto error) =
    peer_action_for_consensus_crypto_error origin error
peer_action_for_consensus_error origin (transaction_validation error) =
    peer_action_for_mempool_error origin b3 error
peer_action_for_consensus_error origin (execution error) = disconnect_action origin invalid_block
peer_action_for_consensus_error origin (state error) = disconnect_action origin invalid_block
peer_action_for_consensus_error origin (witness_byte_limit_exceeded max_bytes actual_bytes) =
    policy_action origin oversized_reputation_delta oversized_object
peer_action_for_consensus_error origin (header_body_root_mismatch expected actual) =
    disconnect_action origin invalid_block
peer_action_for_consensus_error origin (sidecar_block_root_mismatch expected actual) =
    disconnect_action origin invalid_block
peer_action_for_consensus_error origin (sidecar_commitment_mismatch expected actual) =
    disconnect_action origin invalid_block

-- ===== src/Network/Severity.antt =====
-- How hard an action is on the peer, and that it is what the outcome of the error calls for.
use shell_chain_specs.Common.{ℕ, suc, Bool, true, false, if◌then◌else◌}
use shell_chain_specs.Primitives.Errors.{
  ValidationOutcome, accept, reject, policy_reject, ValidationStage, t0, t1, t2, t3, t4, b0, b1, b2,
  b3, b4, b5, PrimitiveError, malformed_ssz, unsupported_payload_variant, payload_root_mismatch,
  signing_root_construction, authorization_count, unimplemented, ProposerCredentialResolutionError,
  not_found, resolver_unavailable, invalid_credential_encoding,
}
use shell_chain_specs.Primitives.Errors
use shell_chain_specs.Crypto.{
  CryptoError, unsupported_scheme, verification_failed, VerificationPath, SignatureLimitKind,
  transaction_authorization, validator_message, repository_rule, local_transport_guard, scheme,
}
use shell_chain_specs.Crypto
use shell_chain_specs.Mempool.{
  ValidationError, primitive, signature_size_exceeded, signature_verification, fee_floor,
  nonce_policy, signing_root_unavailable, authorization_material_count,
}
use shell_chain_specs.Mempool
use shell_chain_specs.Consensus.{
  ConsensusError, domain, crypto, transaction_validation, execution, state,
  proposer_credential_resolution, witness_byte_limit_exceeded, header_body_root_mismatch,
  sidecar_block_root_mismatch, sidecar_commitment_mismatch,
}
use shell_chain_specs.Consensus
use shell_chain_specs.Common.{◌≡◌, refl, Option, none, some}
use shell_chain_specs.Primitives.Errors.{is_consensus_invalid, network_validation_outcome}
use shell_chain_specs.Crypto.{crypto_network_outcome, size_outcome}
use shell_chain_specs.Mempool.{mempool_network_outcome}
use shell_chain_specs.Consensus.{consensus_network_outcome}
use shell_chain_specs.Network.{
  NetworkOrigin, penalizes_peer, PeerAction, accept_object, ignore, adjust_reputation, disconnect,
  disconnect_action, policy_action, PeerActionHint, pos, negsuc, peer_action_for_primitive_error,
  peer_action_for_mempool_error, peer_action_for_proposer_credential_error, peer_action_for_size,
  peer_action_for_consensus_crypto_error, peer_action_for_consensus_error,
}

pub data Severity : Type 0 where
  accepted ignored disconnected : Severity
  rewarded penalized : (points : ℕ) → Severity

abbrev pub severity : PeerAction → Severity
severity accept_object = accepted
severity (ignore hint) = ignored
severity (adjust_reputation (pos points) hint) = rewarded points
severity (adjust_reputation (negsuc points) hint) = penalized (suc points)
severity (disconnect hint) = disconnected

-- What an outcome calls for, where a breach of policy costs these points: nothing is done to a sender
-- that is not a peer, or for an error that says nothing of the object.
abbrev pub called_for : ℕ → Bool → Option ValidationOutcome → Severity
called_for points remote none = ignored
called_for points remote (some accept) = accepted
called_for points true (some reject) = disconnected
called_for points false (some reject) = ignored
called_for points true (some policy_reject) = penalized points
called_for points false (some policy_reject) = ignored

disconnect-severity :
    (points : ℕ) (origin : NetworkOrigin) (hint : PeerActionHint)
    → severity (disconnect_action origin hint)
      ≡ called_for points (penalizes_peer origin) (some reject)
unfolding disconnect_action
disconnect-severity points origin hint = by-cases (penalizes_peer origin)
  where
    by-cases :
        (remote : Bool)
        → severity (if remote then disconnect hint else ignore hint)
          ≡ called_for points remote (some reject)
    by-cases true = refl
    by-cases false = refl

-- The delta -(n + 1) is a penalty of n + 1 points.
policy-severity :
    (n : ℕ) (origin : NetworkOrigin) (hint : PeerActionHint)
    → severity (policy_action origin (negsuc n) hint)
      ≡ called_for (suc n) (penalizes_peer origin) (some policy_reject)
unfolding policy_action
policy-severity n origin hint = by-cases (penalizes_peer origin)
  where
    by-cases :
        (remote : Bool)
        → severity (if remote then adjust_reputation (negsuc n) hint else ignore hint)
          ≡ called_for (suc n) remote (some policy_reject)
    by-cases true = refl
    by-cases false = refl

primitive-severity :
    (points : ℕ) (origin : NetworkOrigin) (stage : ValidationStage) (error : PrimitiveError)
    → severity (peer_action_for_primitive_error origin stage error)
      ≡ called_for points (penalizes_peer origin) (network_validation_outcome error)
unfolding peer_action_for_primitive_error network_validation_outcome
primitive-severity points origin stage (malformed_ssz c) = disconnect-severity points origin _
primitive-severity points origin stage (unsupported_payload_variant t) =
    disconnect-severity points origin _
primitive-severity points origin stage (payload_root_mismatch a b) =
    disconnect-severity points origin _
primitive-severity points origin stage (authorization_count a b) =
    disconnect-severity points origin _
primitive-severity points origin stage (Errors.signature_size_exceeded a b) =
    disconnect-severity points origin _
primitive-severity points origin stage (signing_root_construction c) = refl
primitive-severity points origin stage (unimplemented c) = refl

-- Of an error of the mempool, at any stage, the action on the sender is as severe as the error's
-- network outcome calls for: a remote peer is disconnected for a rejected object and loses 10 points of
-- reputation for one that policy rejects, and nothing is done to a local sender, or for an error
-- without an outcome.
pub peer_action_for_mempool_error-severity :
    (origin : NetworkOrigin) (stage : ValidationStage) (error : ValidationError)
    → severity (peer_action_for_mempool_error origin stage error)
      ≡ called_for 10 (penalizes_peer origin) (mempool_network_outcome error)
unfolding peer_action_for_mempool_error mempool_network_outcome
peer_action_for_mempool_error-severity origin stage (primitive error) =
    primitive-severity 10 origin stage error
peer_action_for_mempool_error-severity origin stage (Mempool.unsupported_scheme s) =
    disconnect-severity 10 origin _
peer_action_for_mempool_error-severity origin stage (signature_size_exceeded e) =
    disconnect-severity 10 origin _
peer_action_for_mempool_error-severity origin stage (signature_verification f) =
    disconnect-severity 10 origin _
peer_action_for_mempool_error-severity origin stage (fee_floor l a b) = policy-severity 9 origin _
peer_action_for_mempool_error-severity origin stage (nonce_policy c) = policy-severity 9 origin _
peer_action_for_mempool_error-severity origin stage (signing_root_unavailable c) = refl
peer_action_for_mempool_error-severity origin stage (authorization_material_count a b) = refl

size-severity :
    (origin : NetworkOrigin) (path : VerificationPath) (kind : SignatureLimitKind)
    → severity (peer_action_for_size origin path kind)
      ≡ called_for 5 (penalizes_peer origin) (size_outcome path kind)
unfolding peer_action_for_size size_outcome
size-severity origin validator_message local_transport_guard = policy-severity 4 origin _
size-severity origin validator_message repository_rule = disconnect-severity 5 origin _
size-severity origin validator_message scheme = disconnect-severity 5 origin _
size-severity origin transaction_authorization kind = disconnect-severity 5 origin _

crypto-severity :
    (origin : NetworkOrigin) (error : CryptoError)
    → severity (peer_action_for_consensus_crypto_error origin error)
      ≡ called_for 5 (penalizes_peer origin) (crypto_network_outcome error)
unfolding peer_action_for_consensus_crypto_error crypto_network_outcome
crypto-severity origin (Crypto.signature_size_exceeded error) =
    size-severity origin error.path error.kind
crypto-severity origin (unsupported_scheme scheme_id) = disconnect-severity 5 origin _
crypto-severity origin (verification_failed failure) = disconnect-severity 5 origin _

credential-severity :
    (origin : NetworkOrigin) (error : ProposerCredentialResolutionError)
    → severity (peer_action_for_proposer_credential_error origin error)
      ≡ called_for 5
          (penalizes_peer origin)
          (if is_consensus_invalid error then some reject else none)
unfolding peer_action_for_proposer_credential_error is_consensus_invalid
credential-severity origin resolver_unavailable = refl
credential-severity origin not_found = disconnect-severity 5 origin _
credential-severity origin (invalid_credential_encoding s c) = disconnect-severity 5 origin _

-- The outcome that the action on a consensus error follows: that of the error, save that every
-- primitive error counts as a rejection.
abbrev pub acted_outcome : ConsensusError → Option ValidationOutcome
acted_outcome (Consensus.primitive error) = some reject
acted_outcome (domain e) = consensus_network_outcome (domain e)
acted_outcome (proposer_credential_resolution e) =
    consensus_network_outcome (proposer_credential_resolution e)
acted_outcome (crypto e) = consensus_network_outcome (crypto e)
acted_outcome (transaction_validation e) = consensus_network_outcome (transaction_validation e)
acted_outcome (execution e) = consensus_network_outcome (execution e)
acted_outcome (state e) = consensus_network_outcome (state e)
acted_outcome (header_body_root_mismatch a b) =
    consensus_network_outcome (header_body_root_mismatch a b)
acted_outcome (sidecar_block_root_mismatch a b) =
    consensus_network_outcome (sidecar_block_root_mismatch a b)
acted_outcome (sidecar_commitment_mismatch a b) =
    consensus_network_outcome (sidecar_commitment_mismatch a b)
acted_outcome (witness_byte_limit_exceeded a b) =
    consensus_network_outcome (witness_byte_limit_exceeded a b)

-- A breach of the mempool's policy costs more than an object that is too large.
abbrev pub points : ConsensusError → ℕ
points (transaction_validation e) = 10
points error = 5

-- Of an error of the block import the action on the sender is as severe as the error's network outcome
-- calls for, but that every primitive error, also one without an outcome (a signing root that could
-- not be built, or code that is missing), has a remote peer disconnected as for a rejected object. For
-- an object that policy rejects, a remote peer loses 10 points of reputation when the policy is the
-- mempool's, and 5 when the object is too large.
pub peer_action_for_consensus_error-severity :
    (origin : NetworkOrigin) (error : ConsensusError)
    → severity (peer_action_for_consensus_error origin error)
      ≡ called_for (points error) (penalizes_peer origin) (acted_outcome error)
unfolding peer_action_for_consensus_error consensus_network_outcome
peer_action_for_consensus_error-severity origin (Consensus.primitive error) =
    disconnect-severity 5 origin _
peer_action_for_consensus_error-severity origin (domain e) = refl
peer_action_for_consensus_error-severity origin (proposer_credential_resolution e) =
    credential-severity origin e
peer_action_for_consensus_error-severity origin (crypto e) = crypto-severity origin e
peer_action_for_consensus_error-severity origin (transaction_validation e) =
    peer_action_for_mempool_error-severity origin b3 e
peer_action_for_consensus_error-severity origin (execution e) = disconnect-severity 5 origin _
peer_action_for_consensus_error-severity origin (state e) = disconnect-severity 5 origin _
peer_action_for_consensus_error-severity origin (header_body_root_mismatch a b) =
    disconnect-severity 5 origin _
peer_action_for_consensus_error-severity origin (sidecar_block_root_mismatch a b) =
    disconnect-severity 5 origin _
peer_action_for_consensus_error-severity origin (sidecar_commitment_mismatch a b) =
    disconnect-severity 5 origin _
peer_action_for_consensus_error-severity origin (witness_byte_limit_exceeded a b) =
    policy-severity 4 origin _

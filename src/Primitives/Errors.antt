-- ===== src/Primitives/Errors.antt =====
-- crates/shell-primitives/src/errors.rs and the outcomes and stages of traits.rs. A variant that
-- wraps an error record takes the record's fields.
use shell_chain_specs.Common.{ℕ, String, Bool, true, false, Option, none, some}
use shell_chain_specs.Primitives.Types.{Root}

pub data ValidationOutcome : Type 0 where
  accept reject policy_reject : ValidationOutcome

pub data ValidationStage : Type 0 where
  t0 t1 t2 t3 t4 b0 b1 b2 b3 b4 b5 : ValidationStage

pub data PrimitiveError : Type 0 where
  malformed_ssz : (context : String) → PrimitiveError
  unsupported_payload_variant : (tag : ℕ) → PrimitiveError
  payload_root_mismatch : (expected actual : Root) → PrimitiveError
  signing_root_construction : (context : String) → PrimitiveError
  authorization_count : (expected_at_least actual : ℕ) → PrimitiveError
  signature_size_exceeded : (max_bytes actual_bytes : ℕ) → PrimitiveError
  unimplemented : (context : String) → PrimitiveError

pub record DomainError : Type 0 where
  pub domain_name : String

pub data ProposerCredentialResolutionError : Type 0 where
  not_found resolver_unavailable : ProposerCredentialResolutionError
  invalid_credential_encoding :
      (scheme_id : ℕ) (context : String) → ProposerCredentialResolutionError

unfoldable pub is_consensus_invalid : ProposerCredentialResolutionError → Bool
is_consensus_invalid not_found = true
is_consensus_invalid resolver_unavailable = false
is_consensus_invalid (invalid_credential_encoding scheme_id context) = true

unfoldable pub network_validation_outcome : PrimitiveError → Option ValidationOutcome
network_validation_outcome (malformed_ssz context) = some reject
network_validation_outcome (unsupported_payload_variant tag) = some reject
network_validation_outcome (payload_root_mismatch expected actual) = some reject
network_validation_outcome (authorization_count expected_at_least actual) = some reject
network_validation_outcome (signature_size_exceeded max_bytes actual_bytes) = some reject
network_validation_outcome (signing_root_construction context) = none
network_validation_outcome (unimplemented context) = none

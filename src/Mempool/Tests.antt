-- ===== src/Mempool/Tests.antt =====
-- Concrete inputs for the theorems on admission.
use shell_chain_specs.Common.{
  ◌≤◌, ◌≡◌, ◌↔◌, refl, true, Option, some, List, [], ◌∷◌, Bytes, length, replicate, from_le_bytes,
  bytes_eq, ok, arith,
}
use shell_chain_specs.Primitives.Types.{
  zero_root, TransactionEnvelope, EnvelopeIsValid, basic, protocol_tag, ensure_supported_tag,
}
use shell_chain_specs.Primitives.Domains.{domain_tx_shell, domain_type, build_signing_data}
use shell_chain_specs.Primitives.Hash.{Sha256}
use shell_chain_specs.Primitives.Ssz.{
  payload_root, signing_root, mix_in_selector, sha256_pair, merkleize, merkleize_loop,
}
use shell_chain_specs.Primitives.Validation.{
  check_authorization_count, check_user_signature_size, check_roots_loop,
  check_authorization_payload_roots,
}
use shell_chain_specs.Primitives.Tests.{
  some_basic, some_basic-IsValid, zeros, array-of, All-bytes→All,
}
use shell_chain_specs.Crypto.{
  verify_transaction_authorization, verify_for_path, verifier, find_verifier, max_signature_size,
  path_limit, tighten, check_size,
}
use shell_chain_specs.Crypto.Tests.{echo_registry}
use shell_chain_specs.Mempool.{
  AdmissionPolicy, AdmissionStateView, TentativeAccepted, AuthorizationValidated, canonical,
  gas_price_covers, screen_transaction, verify_authorizations, admit_and_verify, compare_u256,
  compare_loop, transaction_fees, payload_lane_fee, witness_lane_fee, check_fee_policy,
  check_nonce_policy, check_nonce, observe, transaction_nonce, check_signature_sizes,
  check_material_count, domain_signing_root, verify_loop,
}
use shell_chain_specs.Mempool.Fees.{gas_price_covers_iff}
use shell_chain_specs.Mempool.Screening.{Admissible, screen_transaction_iff}
use shell_chain_specs.Mempool.Verification.{AllVerified, verify_authorizations_iff}
use shell_chain_specs.Mempool.EndToEnd.{AllAccepted, admit_and_verify_sound}

-- A hash whose digests are all zero, so that a payload's root can be written out.
abbrev pub zero_digest : Sha256
zero_digest = record { digest = λ m. zero_root; length-digest = λ m. refl }

abbrev pub envelope : TransactionEnvelope
envelope = record {
  payload = basic some_basic;
  authorizations = record { scheme_id = 1; payload_root = zero_root; signature = 9 ∷ 8 ∷ [] } ∷ [];
}

envelope-IsValid : EnvelopeIsValid envelope
envelope-IsValid = record {
  payload = some_basic-IsValid;
  authorizations = (
    record {
      scheme_id = omega arith;
      payload_root = zeros;
      signature = All-bytes→All (9 ∷ 8 ∷ []) refl;
    },
    tt,
  );
}

abbrev pub policy : AdmissionPolicy
policy = record {
  fee_schedule = record { payload_lane_base_fee = zero_root; witness_lane_base_fee = zero_root };
  max_future_nonce_gap = 10;
  authorization_domain = canonical;
}

abbrev pub view : Option AdmissionStateView
view = some (λ e. some 5)

abbrev materials : List Bytes
materials = (9 ∷ 8 ∷ []) ∷ []

abbrev accepted : TentativeAccepted
accepted = record { payload_root = zero_root; authorization_count = 1 }

abbrev validated : AuthorizationValidated
validated = record {
  payload_root = zero_root;
  signing_root = zero_root;
  verified_authorization_count = 1;
}

envelope-admitted :
    admit_and_verify zero_digest
      (verify_transaction_authorization echo_registry)
      policy
      envelope
      view
      materials
    ≡ ok validated
unfolding admit_and_verify screen_transaction verify_authorizations payload_root mix_in_selector
    sha256_pair protocol_tag ensure_supported_tag check_authorization_count
    check_authorization_payload_roots check_roots_loop bytes_eq check_signature_sizes
    check_user_signature_size check_fee_policy payload_lane_fee witness_lane_fee transaction_fees
    gas_price_covers compare_u256 compare_loop check_nonce_policy check_nonce observe
    transaction_nonce check_material_count domain_signing_root build_signing_data domain_type
    signing_root merkleize merkleize_loop verify_loop verify_transaction_authorization
    verify_for_path verifier find_verifier max_signature_size path_limit tighten check_size
envelope-admitted = refl

admit_and_verify_sound_example :
    Admissible zero_digest policy envelope view zero_root
    × ((signing_root zero_digest (record { object_root = zero_root; domain_type = domain_tx_shell })
          ≡ ok zero_root)
        × (AllAccepted echo_registry zero_root envelope.authorizations materials
            × (validated.verified_authorization_count ≡ length envelope.authorizations)))
admit_and_verify_sound_example =
    admit_and_verify_sound zero_digest echo_registry policy envelope view materials validated zeros
      zeros envelope-IsValid envelope-admitted

screen_transaction_iff_example :
    (screen_transaction zero_digest policy envelope view ≡ ok accepted) ↔ (
      Admissible zero_digest policy envelope view zero_root
      × (accepted.authorization_count ≡ length envelope.authorizations))
screen_transaction_iff_example =
    screen_transaction_iff zero_digest policy envelope view accepted zeros zeros envelope-IsValid

verify_authorizations_iff_example :
    (verify_authorizations zero_digest
        (verify_transaction_authorization echo_registry)
        policy
        envelope
        accepted
        materials
      ≡ ok validated)
    ↔ ((signing_root zero_digest (record { object_root = zero_root; domain_type = domain_tx_shell })
          ≡ ok zero_root)
        × (AllVerified zero_digest
              (verify_transaction_authorization echo_registry)
              zero_root
              envelope.authorizations
              materials
            × ((validated.payload_root ≡ accepted.payload_root)
                × (validated.verified_authorization_count ≡ length envelope.authorizations))))
verify_authorizations_iff_example =
    verify_authorizations_iff zero_digest (verify_transaction_authorization echo_registry) policy
      envelope accepted materials validated

abbrev two_hundred_fifty_six : Bytes
two_hundred_fifty_six = 0 ∷ 1 ∷ replicate 30 0

gas_price_covers_iff_example :
    (gas_price_covers two_hundred_fifty_six zero_root ≡ true)
    ↔ (from_le_bytes zero_root ≤ from_le_bytes two_hundred_fifty_six)
gas_price_covers_iff_example =
    gas_price_covers_iff two_hundred_fifty_six zero_root
      (array-of 32 two_hundred_fifty_six refl refl) zeros

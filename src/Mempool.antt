-- ===== src/Mempool.antt =====
-- crates/shell-mempool/src: the admission pipeline (admission.rs), fees (fees.rs), errors and
-- outcomes. The dispatcher is a trait object: here its method that the pipeline calls.
pub mod Tests
pub mod Fees
pub mod Screening
pub mod Verification
pub mod EndToEnd
use Prim.Native.Nat.{compare, min, Ordering}
use mathlib.Core.List.{reverse}
use shell_chain_specs.Common.{
  ℕ, ◌+◌, ◌-◌, ◌^◌, ◌==◌, ltb, String, Bool, true, false, Option, none, some, List, [], ◌∷◌, Bytes,
  length, is_lt, not, if◌then◌else◌, Result, ok, err, ◌>>=◌, ◌>>◌, map_err,
}
use shell_chain_specs.Primitives.Types.{
  Root, U256, GasPrice, BasicFeesPerGas, Authorization, SigningData, TransactionPayload,
  TransactionEnvelope, basic, create, protocol_tag, ensure_supported_tag,
}
use shell_chain_specs.Primitives.Errors.{
  ValidationOutcome, reject, policy_reject, PrimitiveError, unsupported_payload_variant,
  network_validation_outcome,
}
use shell_chain_specs.Primitives.Domains.{build_signing_data, transaction_authorization}
use shell_chain_specs.Primitives.Hash.{Sha256}
use shell_chain_specs.Primitives.Ssz.{payload_root, signing_root}
use shell_chain_specs.Primitives.Validation.{
  check_authorization_count, check_user_signature_size, check_authorization_payload_roots,
}
use shell_chain_specs.Crypto.{
  SignatureVerificationRequest, CryptoError, SignatureSizeExceededError, VerificationFailure,
}
use shell_chain_specs.Crypto

-- fees.rs.
pub data FeeLane : Type 0 where
  payload witness : FeeLane

pub record FeeSchedule : Type 0 where
  pub payload_lane_base_fee : GasPrice
  pub witness_lane_base_fee : GasPrice

unfoldable pub transaction_fees : TransactionEnvelope → BasicFeesPerGas
transaction_fees envelope = elim envelope.payload [ basic p ↦ p.fees | create p ↦ p.fees ]

unfoldable pub payload_lane_fee : TransactionEnvelope → GasPrice
unfolding transaction_fees
payload_lane_fee envelope = (transaction_fees envelope).regular

unfoldable pub witness_lane_fee : TransactionEnvelope → GasPrice
unfolding transaction_fees
witness_lane_fee envelope = (transaction_fees envelope).max_witness_priority_fee

-- The loop over the zipped bytes, the most significant first.
unfoldable pub compare_loop : Bytes → Bytes → Ordering
compare_loop [] ys = Ordering.eq
compare_loop (x ∷ xs) [] = Ordering.eq
compare_loop (x ∷ xs) (y ∷ ys) = elim (compare x y) [
  | Ordering.lt ↦ Ordering.lt
  | Ordering.eq ↦ compare_loop xs ys
  | Ordering.gt ↦ Ordering.gt
]

unfoldable pub compare_u256 : U256 → U256 → Ordering
unfolding compare_loop
compare_u256 left right = compare_loop (reverse left) (reverse right)

unfoldable pub gas_price_covers : GasPrice → GasPrice → Bool
unfolding compare_u256
gas_price_covers actual required = not (is_lt (compare_u256 actual required))

-- errors.rs and outcomes.rs.
pub data ValidationError : Type 0 where
  primitive : PrimitiveError → ValidationError
  unsupported_scheme : (scheme_id : ℕ) → ValidationError
  signature_size_exceeded : SignatureSizeExceededError → ValidationError
  signature_verification : VerificationFailure → ValidationError
  fee_floor : (lane : FeeLane) (required actual : GasPrice) → ValidationError
  nonce_policy : (context : String) → ValidationError
  signing_root_unavailable : (context : String) → ValidationError
  authorization_material_count : (expected actual : ℕ) → ValidationError

unfoldable pub mempool_network_outcome : ValidationError → Option ValidationOutcome
mempool_network_outcome (primitive error) = network_validation_outcome error
mempool_network_outcome (unsupported_scheme scheme_id) = some reject
mempool_network_outcome (signature_size_exceeded error) = some reject
mempool_network_outcome (signature_verification failure) = some reject
mempool_network_outcome (fee_floor lane required actual) = some policy_reject
mempool_network_outcome (nonce_policy context) = some policy_reject
mempool_network_outcome (signing_root_unavailable context) = none
mempool_network_outcome (authorization_material_count expected actual) = none

pub record TentativeAccepted : Type 0 where
  pub payload_root : Root
  pub authorization_count : ℕ

pub record AuthorizationValidated : Type 0 where
  pub payload_root : Root
  pub signing_root : Root
  pub verified_authorization_count : ℕ

-- admission.rs.
pub data TransactionAuthorizationDomain : Type 0 where
  canonical : TransactionAuthorizationDomain
  explicit : (domain_type : Bytes) → TransactionAuthorizationDomain

-- `MultiAuthorizationPolicy` has the one variant `RequireAll`, which is what `verify_loop` does.
pub record AdmissionPolicy : Type 0 where
  pub fee_schedule : FeeSchedule
  pub max_future_nonce_gap : ℕ
  pub authorization_domain : TransactionAuthorizationDomain

-- A view gives the nonce observed for an envelope, where there is one.
abbrev pub AdmissionStateView : Type 0
AdmissionStateView = TransactionEnvelope → Option ℕ

unfoldable pub map_crypto_error : CryptoError → ValidationError
map_crypto_error (Crypto.unsupported_scheme scheme_id) = unsupported_scheme scheme_id
map_crypto_error (Crypto.signature_size_exceeded error) = signature_size_exceeded error
map_crypto_error (Crypto.verification_failed failure) = signature_verification failure

unfoldable pub transaction_nonce : TransactionEnvelope → ℕ
transaction_nonce envelope = elim envelope.payload [ basic p ↦ p.nonce | create p ↦ p.nonce ]

unfoldable pub check_fee_policy :
    AdmissionPolicy → TransactionEnvelope → Result (Unit {0}) ValidationError
unfolding payload_lane_fee witness_lane_fee gas_price_covers
check_fee_policy policy envelope =
    let required = policy.fee_schedule in
    let payload_fee = payload_lane_fee envelope in
    let witness_fee = witness_lane_fee envelope in
    (if gas_price_covers payload_fee required.payload_lane_base_fee
      then ok tt
      else err (fee_floor payload required.payload_lane_base_fee payload_fee))
    >> (if gas_price_covers witness_fee required.witness_lane_base_fee
        then ok tt
        else err (fee_floor witness required.witness_lane_base_fee witness_fee))

-- `u64::saturating_add`.
abbrev pub saturating_add : ℕ → ℕ → ℕ
saturating_add a b = min (a + b) (2 ^ 64 - 1)

-- The checks once a nonce has been observed.
unfoldable pub check_nonce : ℕ → ℕ → ℕ → Result (Unit {0}) ValidationError
check_nonce gap observed_nonce tx_nonce =
    (if ltb tx_nonce observed_nonce
      then err (nonce_policy "transaction nonce is lower than the observed replay lane nonce")
      else ok tt)
    >> (if ltb (saturating_add observed_nonce gap) tx_nonce
        then err (nonce_policy "transaction nonce exceeds the configured future replay lane gap")
        else ok tt)

unfoldable pub observe : Option AdmissionStateView → TransactionEnvelope → Option ℕ
observe none envelope = none
observe (some view) envelope = view envelope

unfoldable pub check_nonce_policy :
    AdmissionPolicy
    → TransactionEnvelope
    → Option AdmissionStateView
    → Result (Unit {0}) ValidationError
unfolding check_nonce observe transaction_nonce
check_nonce_policy policy envelope state_view = elim (observe state_view envelope) [
  | none ↦ ok tt
  | some observed_nonce ↦
      check_nonce policy.max_future_nonce_gap observed_nonce (transaction_nonce envelope)
]

unfoldable pub check_signature_sizes : List Authorization → Result (Unit {0}) PrimitiveError
check_signature_sizes [] = ok tt
check_signature_sizes (authorization ∷ authorizations) =
    check_user_signature_size authorization.signature >> check_signature_sizes authorizations

unfoldable pub check_material_count : ℕ → ℕ → Result (Unit {0}) ValidationError
check_material_count expected actual =
    if actual == expected then ok tt else err (authorization_material_count expected actual)

module _ (h : Sha256) where
  unfoldable pub domain_signing_root :
      TransactionAuthorizationDomain → Root → Result Root ValidationError
  domain_signing_root canonical root = do
    signing_data ←
        map_err
          (λ _.
            signing_root_unavailable
              "failed to construct signing_root from the canonical transaction authorization domain")
          (build_signing_data root transaction_authorization)
    map_err
        (λ _.
          signing_root_unavailable
            "failed to construct signing_root from transaction authorization domain bytes")
        (signing_root h signing_data)
  domain_signing_root (explicit domain_type) root =
      map_err
        (λ _.
          signing_root_unavailable
            "failed to construct signing_root from transaction authorization domain bytes")
        (signing_root h (record { object_root = root; domain_type = domain_type }))

  unfoldable pub screen_transaction :
      AdmissionPolicy
      → TransactionEnvelope
      → Option AdmissionStateView
      → Result TentativeAccepted ValidationError
  unfolding check_signature_sizes check_fee_policy check_nonce_policy
  screen_transaction policy envelope state_view = do
    root ← map_err primitive (payload_root h envelope.payload)
    _ ←
        map_err (λ tag. primitive (unsupported_payload_variant tag))
          (ensure_supported_tag (protocol_tag envelope.payload))
    _ ← map_err primitive (check_authorization_count envelope.authorizations)
    _ ←
        map_err primitive
          (check_authorization_payload_roots h envelope.payload envelope.authorizations)
    _ ← map_err primitive (check_signature_sizes envelope.authorizations)
    _ ← check_fee_policy policy envelope
    _ ← check_nonce_policy policy envelope state_view
    ok (record { payload_root = root; authorization_count = length envelope.authorizations })

  module _
      (verify_transaction_authorization : ℕ
        → SignatureVerificationRequest
        → Result (Unit {0}) CryptoError) where
    -- The loop over the authorizations zipped with their public key materials.
    unfoldable pub verify_loop :
        Root → List Authorization → List Bytes → Result (Unit {0}) ValidationError
    verify_loop root [] materials = ok tt
    verify_loop root (authorization ∷ authorizations) [] = ok tt
    verify_loop root (authorization ∷ authorizations) (material ∷ materials) =
        map_err map_crypto_error (
          verify_transaction_authorization authorization.scheme_id (record {
            public_key_material = material;
            signing_root = root;
            signature = authorization.signature;
          }))
        >> verify_loop root authorizations materials

    unfoldable pub verify_authorizations :
        AdmissionPolicy
        → TransactionEnvelope
        → TentativeAccepted
        → List Bytes
        → Result AuthorizationValidated ValidationError
    unfolding check_material_count domain_signing_root verify_loop
    verify_authorizations policy envelope accepted materials = do
      _ ← check_material_count (length envelope.authorizations) (length materials)
      root ← domain_signing_root policy.authorization_domain accepted.payload_root
      _ ← verify_loop root envelope.authorizations materials
      ok (record {
        payload_root = accepted.payload_root;
        signing_root = root;
        verified_authorization_count = length envelope.authorizations;
      })

    unfoldable pub admit_and_verify :
        AdmissionPolicy
        → TransactionEnvelope
        → Option AdmissionStateView
        → List Bytes
        → Result AuthorizationValidated ValidationError
    unfolding screen_transaction verify_authorizations
    admit_and_verify policy envelope state_view materials = do
      accepted ← screen_transaction policy envelope state_view
      verify_authorizations policy envelope accepted materials

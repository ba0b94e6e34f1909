-- ===== src/Mempool/EndToEnd.antt =====
-- Admission with the verifier registry for a dispatcher: what an admitted transaction satisfies.
use shell_chain_specs.Common.{
  ◌≤◌, ◌≡◌, sym, subst, List, [], ◌∷◌, Option, some, Bytes, IsArray, length, ok, >>=-eq-ok,
}
use shell_chain_specs.Primitives.Types.{Root, Authorization, TransactionEnvelope, EnvelopeIsValid}
use shell_chain_specs.Primitives.Hash.{Sha256}
use shell_chain_specs.Primitives.Ssz.{signing_root}
use shell_chain_specs.Crypto.{
  SignatureVerifier, VerifierRegistry, verifier, verify_transaction_authorization,
  transaction_authorization,
}
use shell_chain_specs.Crypto.Dispatch.{verify_for_path_iff, Within}
use shell_chain_specs.Mempool.{
  AdmissionPolicy, AdmissionStateView, AuthorizationValidated, screen_transaction, admit_and_verify,
}
use shell_chain_specs.Mempool.Screening.{Admissible, screen_transaction_iff}
use shell_chain_specs.Mempool.Verification.{
  AllVerified, request_of, domain_bytes, verify_authorizations_iff,
}

-- The scheme has a registered verifier that accepts the authorization over the root, and the signature
-- is within the registry's limit for users and within the verifier's own.
pub record AcceptedBy (r : VerifierRegistry) (root : Root) (a : Authorization) (material : Bytes)
    : Type 0 where
  pub by : SignatureVerifier
  pub registered : verifier r a.scheme_id ≡ some by
  pub sized : length a.signature ≤ r.config.user_path_max_signature_size
  pub own_limit : Within (by.max_signature_size transaction_authorization) (length a.signature)
  pub verified : by.verify (request_of root a material) ≡ ok tt

abbrev pub AllAccepted : VerifierRegistry → Root → List Authorization → List Bytes → Type 0
AllAccepted r root [] [] = Unit
AllAccepted r root [] (m ∷ ms) = ⊥
AllAccepted r root (a ∷ as') [] = ⊥
AllAccepted r root (a ∷ as') (m ∷ ms) = AcceptedBy r root a m × AllAccepted r root as' ms

accepted-all :
    (h : Sha256) (r : VerifierRegistry) (root : Root) (as' : List Authorization) (ms : List Bytes)
    → AllVerified h (verify_transaction_authorization r) root as' ms
    → AllAccepted r root as' ms
unfolding verify_transaction_authorization
accepted-all h r root [] [] v = tt
accepted-all h r root [] (m ∷ ms) v = v
accepted-all h r root (a ∷ as') [] v = v
accepted-all h r root (a ∷ as') (m ∷ ms) (first, rest) =
    let (by, (registered, (sized, (own, verified)))) =
      (verify_for_path_iff r a.scheme_id (request_of root a m) transaction_authorization).0 first in
    (
      record {
        by = by;
        registered = registered;
        sized = sized;
        own_limit = own;
        verified = verified;
      },
      accepted-all h r root as' ms rest,
    )

-- When the pipeline with a verifier registry admits an envelope in the range of Rust's types, under
-- base fees that are 32 bytes, the envelope satisfies every screening rule with the payload root that
-- the result names, the signing root of the result is that of this payload root in the policy's
-- domain, every authorization is accepted over this signing root, with the key material at its
-- position, by the verifier registered for its scheme and within the size limits, and the result
-- counts all the authorizations.
pub admit_and_verify_sound :
    (h : Sha256) (r : VerifierRegistry) (policy : AdmissionPolicy) (e : TransactionEnvelope)
    (view : Option AdmissionStateView) (materials : List Bytes) (result : AuthorizationValidated)
    → IsArray 32 policy.fee_schedule.payload_lane_base_fee
    → IsArray 32 policy.fee_schedule.witness_lane_base_fee
    → EnvelopeIsValid e
    → admit_and_verify h (verify_transaction_authorization r) policy e view materials ≡ ok result
    → Admissible h policy e view result.payload_root
      × ((signing_root h (record {
        object_root = result.payload_root;
        domain_type = domain_bytes policy.authorization_domain;
      })
            ≡ ok result.signing_root)
          × (AllAccepted r result.signing_root e.authorizations materials
              × (result.verified_authorization_count ≡ length e.authorizations)))
unfolding admit_and_verify
admit_and_verify_sound h r policy e view materials result vp vw v admitted =
    let (accepted, screened, verified) =
      >>=-eq-ok (screen_transaction h policy e view) _ admitted in
    let (admissible, _) = (screen_transaction_iff h policy e view accepted vp vw v).0 screened in
    let (signed, (all, (rooted, counted))) =
      (verify_authorizations_iff h (verify_transaction_authorization r) policy e accepted materials
          result).0
        verified in
    (
      subst (λ (x : Root). Admissible h policy e view x) (sym rooted) admissible,
      (
        subst
            (λ (x : Root).
              signing_root h
                (record { object_root = x; domain_type = domain_bytes policy.authorization_domain })
              ≡ ok result.signing_root)
            (sym rooted) signed,
        (accepted-all h r result.signing_root e.authorizations materials all, counted),
      ),
    )

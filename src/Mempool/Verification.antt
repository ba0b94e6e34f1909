-- ===== src/Mempool/Verification.antt =====
-- What the verification of a transaction's authorizations accepts.
use shell_chain_specs.Common.{
  ℕ, suc, ◌≡◌, ◌↔◌, refl, sym, ap, subst, ◌∙◌, List, [], ◌∷◌, Bytes, length, arith, Result, ok,
  ok-injective, >>=-eq-ok, map_err, map_err-eq-ok,
}
use shell_chain_specs.Primitives.Types.{Root, Authorization, TransactionEnvelope}
use shell_chain_specs.Primitives.Hash.{Sha256}
use shell_chain_specs.Crypto.{SignatureVerificationRequest, CryptoError}
use shell_chain_specs.Primitives.Ssz.{signing_root}
use shell_chain_specs.Primitives.Domains.{build_signing_data, domain_tx_shell}
use shell_chain_specs.Mempool.{
  AdmissionPolicy, TentativeAccepted, AuthorizationValidated, map_crypto_error,
  TransactionAuthorizationDomain, canonical, explicit, domain_signing_root, check_material_count,
  verify_loop, verify_authorizations,
}

abbrev pub request_of : Root → Authorization → Bytes → SignatureVerificationRequest
request_of root authorization material = record {
  public_key_material = material;
  signing_root = root;
  signature = authorization.signature;
}

-- The bytes of the domain that the policy signs in.
abbrev pub domain_bytes : TransactionAuthorizationDomain → Bytes
domain_bytes canonical = domain_tx_shell
domain_bytes (explicit domain_type) = domain_type

domain_signing_root-eq :
    (h : Sha256) (domain : TransactionAuthorizationDomain) (root : Root) (result : Root)
    → (domain_signing_root h domain root ≡ ok result) ↔ (
        signing_root h (record { object_root = root; domain_type = domain_bytes domain })
        ≡ ok result)
unfolding domain_signing_root build_signing_data signing_root
domain_signing_root-eq h canonical root result = ((λ e. cc), (λ e. cc))
domain_signing_root-eq h (explicit d) root result = ((λ e. cc), (λ e. cc))

module _ (h : Sha256)
    (verify : ℕ → SignatureVerificationRequest → Result (Unit {0}) CryptoError) where
  -- The dispatcher accepts each authorization with the material at its position.
  abbrev pub AllVerified : Root → List Authorization → List Bytes → Type 0
  AllVerified root [] [] = Unit
  AllVerified root [] (m ∷ ms) = ⊥
  AllVerified root (a ∷ as') [] = ⊥
  AllVerified root (a ∷ as') (m ∷ ms) =
      (verify a.scheme_id (request_of root a m) ≡ ok tt) × AllVerified root as' ms

  loop_iff :
      (root : Root) (as' : List Authorization) (ms : List Bytes)
      → length ms ≡ length as'
      → (verify_loop h verify root as' ms ≡ ok tt) ↔ AllVerified root as' ms
  unfolding verify_loop
  loop_iff root [] [] e = ((λ _. tt), (λ _. refl))
  loop_iff root [] (m ∷ ms) e = absurd (omega arith)
  loop_iff root (a ∷ as') [] e = absurd (omega arith)
  loop_iff root (a ∷ as') (m ∷ ms) e =
      let ih = loop_iff root as' ms (omega arith) in
      let call = verify a.scheme_id (request_of root a m) in
      (
        (λ r.
            let (_, first, rest) = >>=-eq-ok (map_err map_crypto_error call) _ r in
            (map_err-eq-ok map_crypto_error call first, ih.0 rest)),
        (λ (first, rest). rw first (ih.1 rest)),
      )

  AllVerified-length :
      (root : Root) (as' : List Authorization) (ms : List Bytes)
      → AllVerified root as' ms
      → length ms ≡ length as'
  AllVerified-length root [] [] v = refl
  AllVerified-length root [] (m ∷ ms) v = absurd v
  AllVerified-length root (a ∷ as') [] v = absurd v
  AllVerified-length root (a ∷ as') (m ∷ ms) v = ap suc (AllVerified-length root as' ms v.1)

  material_iff :
      (expected actual : ℕ) → (check_material_count expected actual ≡ ok tt) ↔ (actual ≡ expected)
  unfolding check_material_count
  material_iff expected actual = ground arith

  -- The verification of an accepted transaction gives a result exactly when there is one public key
  -- material for each authorization and the dispatcher accepts every authorization, with the material
  -- at its position, over one signing root: the root of the accepted payload root in the policy's
  -- domain. The result has both roots and counts all the authorizations.
  pub verify_authorizations_iff :
      (policy : AdmissionPolicy) (e : TransactionEnvelope) (accepted : TentativeAccepted)
      (materials : List Bytes) (result : AuthorizationValidated)
      → (verify_authorizations h verify policy e accepted materials ≡ ok result) ↔ (
          (signing_root h (record {
            object_root = accepted.payload_root;
            domain_type = domain_bytes policy.authorization_domain;
          })
            ≡ ok result.signing_root)
          × (AllVerified result.signing_root e.authorizations materials
              × ((result.payload_root ≡ accepted.payload_root)
                  × (result.verified_authorization_count ≡ length e.authorizations))))
  unfolding verify_authorizations
  verify_authorizations_iff policy e accepted materials result =
      let domain = domain_signing_root-eq h policy.authorization_domain accepted.payload_root in
      (
        (λ r.
            let (_, r0, e1) =
              >>=-eq-ok (check_material_count (length e.authorizations) (length materials)) _ r in
            let (root, r1, e2) =
              >>=-eq-ok (domain_signing_root h policy.authorization_domain accepted.payload_root) _
                e1 in
            let (_, r2, e3) =
              >>=-eq-ok (verify_loop h verify root e.authorizations materials) _ e2 in
            let made = ok-injective e3 in
            let named : root ≡ result.signing_root =
              ap (λ (a : AuthorizationValidated). a.signing_root) made in
            let counted = (material_iff (length e.authorizations) (length materials)).0 r0 in
            (
              (domain result.signing_root).0 (r1 ∙ ap ok named),
              (
                subst (λ (x : Root). AllVerified x e.authorizations materials) named
                    ((loop_iff root e.authorizations materials counted).0 r2),
                (
                  sym (ap (λ (a : AuthorizationValidated). a.payload_root) made),
                  sym (ap (λ (a : AuthorizationValidated). a.verified_authorization_count) made),
                ),
              ),
            )),
        (λ (signed, (all, (rooted, counted))).
            let lengths = AllVerified-length result.signing_root e.authorizations materials all in
            rw
              (
                (material_iff (length e.authorizations) (length materials)).1 lengths,
                (domain result.signing_root).1 signed,
                (loop_iff result.signing_root e.authorizations materials lengths).1 all,
              )
              (λ i. ok (record {
                payload_root = sym rooted i;
                signing_root = result.signing_root;
                verified_authorization_count = sym counted i;
              }))),
      )

-- ===== src/Crypto/Dispatch.antt =====
-- What the registry's lookup, registration and verification do.
use shell_chain_specs.Common.{
  ℕ, ◌≤◌, ◌≡◌, ◌≢◌, ◌↔◌, refl, sym, inl, inr, Option, none, some, List, [], ◌∷◌, length, ◌==◌,
  Bool-cases, ==_iff, arith, if◌then◌else◌, ok, >>=-eq-ok, ok_or, ok_or-eq-ok, map_err-eq-ok,
  Option-cases, subst,
}
use shell_chain_specs.Crypto.{
  SignatureVerifier, VerifierRegistry, VerificationPath, SignatureVerificationRequest,
  transaction_authorization, validator_message, find_verifier, verifier, replace_or_push,
  register_verifier, ResolvedSignatureLimit, verification_failed, unsupported_scheme, path_limit,
  tighten, max_signature_size, check_size, verify_for_path,
}

find-replace_same :
    (vs : List SignatureVerifier) (new : SignatureVerifier)
    → find_verifier (replace_or_push vs new).0 new.scheme_id ≡ some new
unfolding find_verifier replace_or_push
find-replace_same [] new = ground arith
find-replace_same (v ∷ vs) new = ground (arith, find-replace_same vs new)

find-replace_other :
    (vs : List SignatureVerifier) (new : SignatureVerifier) (id : ℕ)
    → id ≢ new.scheme_id
    → find_verifier (replace_or_push vs new).0 id ≡ find_verifier vs id
unfolding find_verifier replace_or_push
find-replace_other [] new id ne = ground arith
find-replace_other (v ∷ vs) new id ne = ground (arith, find-replace_other vs new id ne)

replaced-found :
    (vs : List SignatureVerifier) (new : SignatureVerifier)
    → (replace_or_push vs new).1 ≡ find_verifier vs new.scheme_id
unfolding find_verifier replace_or_push
replaced-found [] new = refl
replaced-found (v ∷ vs) new = ground (arith, replaced-found vs new)

-- Registering a verifier returns the one that its scheme's id found before; afterwards that id finds
-- the new verifier, every other id finds what it found, and the configuration is the same.
pub register_verifier_lem :
    (r : VerifierRegistry) (new : SignatureVerifier) (id : ℕ)
    → ((register_verifier r new).1 ≡ verifier r new.scheme_id)
      × ((verifier (register_verifier r new).0 id
            ≡ (if id == new.scheme_id then some new else verifier r id))
          × ((register_verifier r new).0.config ≡ r.config))
unfolding verifier register_verifier
register_verifier_lem r new id =
    let found = (replace_or_push r.verifiers new).0 in
    (
      replaced-found r.verifiers new,
      (
        elim (Bool-cases (id == new.scheme_id)) [
          | inl same ↦
              let e = (==_iff id new.scheme_id).0 same in
              rw same (
                subst (λ (n : ℕ). find_verifier found n ≡ some new) (sym e)
                  (find-replace_same r.verifiers new))
          | inr other ↦
              rw other (
                find-replace_other r.verifiers new id
                  λ e. cc ((==_iff id new.scheme_id).1 e, other))
        ],
        refl,
      ),
    )

-- `size` is within the repository's or the transport's limit for the path, and the verifier's own.
abbrev pub Within : Option ℕ → ℕ → Type 0
Within none size = Unit {0}
Within (some limit) size = size ≤ limit

abbrev pub configured_limit : VerifierRegistry → VerificationPath → Option ℕ
configured_limit r transaction_authorization = some r.config.user_path_max_signature_size
configured_limit r validator_message = r.config.validator_path_max_signature_size

abbrev limit_size : Option ResolvedSignatureLimit → Option ℕ
limit_size none = none
limit_size (some limit) = some limit.max_size

check_size_iff :
    (chosen : Option ResolvedSignatureLimit) (own : Option ℕ) (size : ℕ) (path : VerificationPath)
    → (check_size (tighten chosen own) size path ≡ ok tt)
      ↔ (Within (limit_size chosen) size × Within own size)
unfolding check_size tighten
check_size_iff none none size path = ((λ _. (tt, tt)), (λ _. refl))
check_size_iff none (some m) size path = ground arith
check_size_iff (some c) none size path = ground arith
check_size_iff (some c) (some m) size path = ground arith

limit-configured :
    (r : VerifierRegistry) (path : VerificationPath)
    → limit_size (path_limit r.config path) ≡ configured_limit r path
unfolding path_limit
limit-configured r transaction_authorization = refl
limit-configured r validator_message =
    elim (Option-cases r.config.validator_path_max_signature_size) [
      | inl e ↦ rw e refl
      | inr (m, e) ↦ rw e refl
    ]

-- A signature is accepted on a path exactly when the scheme has a registered verifier, the signature
-- is within the configured limit of the path and within the verifier's own limit, where there is one,
-- and the verifier accepts the request.
pub verify_for_path_iff :
    (r : VerifierRegistry) (scheme_id : ℕ) (request : SignatureVerificationRequest)
    (path : VerificationPath)
    → (verify_for_path r scheme_id request path ≡ ok tt) ↔ (
        (v : SignatureVerifier) × ((verifier r scheme_id ≡ some v)
          × (Within (configured_limit r path) (length request.signature)
              × (Within (v.max_signature_size path) (length request.signature)
                  × (v.verify request ≡ ok tt)))))
unfolding verify_for_path max_signature_size
verify_for_path_iff r scheme_id request path =
    let size = length request.signature in
    let limits = λ (v : SignatureVerifier).
      check_size_iff (path_limit r.config path) (v.max_signature_size path) size path in
    let configured = limit-configured r path in
    (
      (λ e.
          let (v, found, e1) =
            >>=-eq-ok (ok_or (verifier r scheme_id) (unsupported_scheme scheme_id)) _ e in
          let (_, sized, e2) =
            >>=-eq-ok (check_size (max_signature_size r v path) size path) _ e1 in
          let within = (limits v).0 sized in
          (
            v,
            (
              ok_or-eq-ok (verifier r scheme_id) (unsupported_scheme scheme_id) found,
              (
                subst (λ (o : Option ℕ). Within o size) configured within.0,
                (within.1, map_err-eq-ok verification_failed (v.verify request) e2),
              ),
            ),
          )),
      (λ (v, (found, (outer, (own, accepted)))).
          let sized =
            (limits v).1 (subst (λ (o : Option ℕ). Within o size) (sym configured) outer, own) in
          rw (found, sized, accepted) refl),
    )

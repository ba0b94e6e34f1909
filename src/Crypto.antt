-- ===== src/Crypto.antt =====
-- crates/shell-crypto/src: the verifier registry (dispatch.rs), its errors and its traits. A verifier
-- is a trait object of other code: a record of its three operations.
pub mod Tests
pub mod Ed25519
pub mod Dispatch
use shell_chain_specs.Common.{
  ℕ, String, Option, none, some, List, [], ◌∷◌, Bytes, length, ltb, ◌==◌, if◌then◌else◌, Result, ok,
  err, ◌>>=◌, map_err, ok_or,
}
use shell_chain_specs.Primitives.Types.{Root}
use shell_chain_specs.Primitives.Errors.{ValidationOutcome, reject, policy_reject}

-- traits.rs and errors.rs.
pub data VerificationPath : Type 0 where
  transaction_authorization validator_message : VerificationPath

pub record SignatureVerificationRequest : Type 0 where
  pub public_key_material : Bytes
  pub signing_root : Root
  pub signature : Bytes

pub data SignatureLimitKind : Type 0 where
  repository_rule local_transport_guard scheme : SignatureLimitKind

pub record SignatureSizeExceededError : Type 0 where
  pub max_size : ℕ
  pub actual_size : ℕ
  pub path : VerificationPath
  pub kind : SignatureLimitKind

pub record VerificationFailure : Type 0 where
  pub scheme_id : ℕ
  pub context : String

pub data CryptoError : Type 0 where
  unsupported_scheme : (scheme_id : ℕ) → CryptoError
  signature_size_exceeded : SignatureSizeExceededError → CryptoError
  verification_failed : VerificationFailure → CryptoError

pub record SignatureVerifier : Type 0 where
  pub scheme_id : ℕ
  pub max_signature_size : VerificationPath → Option ℕ
  pub verify : SignatureVerificationRequest → Result (Unit {0}) VerificationFailure

unfoldable pub size_outcome : VerificationPath → SignatureLimitKind → Option ValidationOutcome
size_outcome validator_message local_transport_guard = some policy_reject
size_outcome transaction_authorization kind = some reject
size_outcome validator_message repository_rule = some reject
size_outcome validator_message scheme = some reject

unfoldable pub crypto_network_outcome : CryptoError → Option ValidationOutcome
unfolding size_outcome
crypto_network_outcome (unsupported_scheme scheme_id) = some reject
crypto_network_outcome (verification_failed failure) = some reject
crypto_network_outcome (signature_size_exceeded error) = size_outcome error.path error.kind

-- dispatch.rs.
pub record DispatcherConfig : Type 0 where
  pub user_path_max_signature_size : ℕ
  pub validator_path_max_signature_size : Option ℕ

pub record VerifierRegistry : Type 0 where
  pub config : DispatcherConfig
  pub verifiers : List SignatureVerifier

pub record ResolvedSignatureLimit : Type 0 where
  pub max_size : ℕ
  pub kind : SignatureLimitKind

abbrev pub default_user_path_max_signature_size : ℕ
default_user_path_max_signature_size = 8_192

abbrev pub default_config : DispatcherConfig
default_config = record {
  user_path_max_signature_size = default_user_path_max_signature_size;
  validator_path_max_signature_size = none;
}

abbrev pub with_config : DispatcherConfig → VerifierRegistry
with_config config = record { config = config; verifiers = [] }

abbrev pub new : VerifierRegistry
new = with_config default_config

-- The first verifier with the scheme's id, in the order of the vector.
unfoldable pub find_verifier : List SignatureVerifier → ℕ → Option SignatureVerifier
find_verifier [] scheme_id = none
find_verifier (v ∷ vs) scheme_id =
    let rest = find_verifier vs scheme_id in if v.scheme_id == scheme_id then some v else rest

unfoldable pub verifier : VerifierRegistry → ℕ → Option SignatureVerifier
unfolding find_verifier
verifier registry scheme_id = find_verifier registry.verifiers scheme_id

-- `iter_mut().find` and `mem::replace`, or `push`: the vector, and the verifier replaced.
unfoldable pub replace_or_push :
    List SignatureVerifier → SignatureVerifier → List SignatureVerifier × Option SignatureVerifier
replace_or_push [] new = (new ∷ [], none)
replace_or_push (v ∷ vs) new =
    let rest = replace_or_push vs new in
    if v.scheme_id == new.scheme_id then (new ∷ vs, some v) else (v ∷ rest.0, rest.1)

unfoldable pub register_verifier :
    VerifierRegistry → SignatureVerifier → VerifierRegistry × Option SignatureVerifier
unfolding replace_or_push
register_verifier registry new =
    let done = replace_or_push registry.verifiers new in
    (record { config = registry.config; verifiers = done.0 }, done.1)

unfoldable pub path_limit : DispatcherConfig → VerificationPath → Option ResolvedSignatureLimit
path_limit config transaction_authorization =
    some (record { max_size = config.user_path_max_signature_size; kind = repository_rule })
path_limit config validator_message = elim config.validator_path_max_signature_size [
  | none ↦ none
  | some max_size ↦ some (record { max_size = max_size; kind = local_transport_guard })
]

-- The verifier's limit is taken when there is no other, or when it is smaller.
unfoldable pub tighten : Option ResolvedSignatureLimit → Option ℕ → Option ResolvedSignatureLimit
tighten chosen none = chosen
tighten none (some max_size) = some (record { max_size = max_size; kind = scheme })
tighten (some current) (some max_size) =
    if ltb max_size current.max_size
    then some (record { max_size = max_size; kind = scheme })
    else some current

unfoldable pub max_signature_size :
    VerifierRegistry → SignatureVerifier → VerificationPath → Option ResolvedSignatureLimit
unfolding path_limit tighten
max_signature_size registry v path =
    tighten (path_limit registry.config path) (v.max_signature_size path)

unfoldable pub check_size :
    Option ResolvedSignatureLimit → ℕ → VerificationPath → Result (Unit {0}) CryptoError
check_size none size path = ok tt
check_size (some limit) size path =
    if ltb limit.max_size size
    then err (
        signature_size_exceeded (record {
          max_size = limit.max_size;
          actual_size = size;
          path = path;
          kind = limit.kind;
        }))
    else ok tt

unfoldable pub verify_for_path :
    VerifierRegistry
    → ℕ
    → SignatureVerificationRequest
    → VerificationPath
    → Result (Unit {0}) CryptoError
unfolding verifier max_signature_size check_size
verify_for_path registry scheme_id request path = do
  v ← ok_or (verifier registry scheme_id) (unsupported_scheme scheme_id)
  _ ← check_size (max_signature_size registry v path) (length request.signature) path
  map_err verification_failed (v.verify request)

unfoldable pub verify_transaction_authorization :
    VerifierRegistry → ℕ → SignatureVerificationRequest → Result (Unit {0}) CryptoError
unfolding verify_for_path
verify_transaction_authorization registry scheme_id request =
    verify_for_path registry scheme_id request transaction_authorization

unfoldable pub verify_validator_message :
    VerifierRegistry → ℕ → SignatureVerificationRequest → Result (Unit {0}) CryptoError
unfolding verify_for_path
verify_validator_message registry scheme_id request =
    verify_for_path registry scheme_id request validator_message

-- ===== src/Crypto/Tests.antt =====
-- Concrete inputs for the theorems on the registry.
use shell_chain_specs.Common.{◌≡◌, ◌↔◌, some, [], ◌∷◌, bytes_eq, if◌then◌else◌, ◌==◌, ok, err}
use shell_chain_specs.Primitives.Types.{zero_root}
use shell_chain_specs.Crypto.{
  SignatureVerifier, SignatureVerificationRequest, VerifierRegistry, validator_message,
  default_config, verifier, register_verifier, verify_for_path,
}
use shell_chain_specs.Crypto.Dispatch.{
  register_verifier_lem, verify_for_path_iff, configured_limit, Within,
}

-- Accepts a signature that repeats the key material.
abbrev pub echo_verifier : SignatureVerifier
echo_verifier = record {
  scheme_id = 1;
  max_signature_size = λ path. some 100;
  verify = λ request.
      if bytes_eq request.signature request.public_key_material
      then ok tt
      else err (record { scheme_id = 1; context = "not an echo" });
}

abbrev pub echo_registry : VerifierRegistry
echo_registry = record { config = default_config; verifiers = echo_verifier ∷ [] }

abbrev echo_request : SignatureVerificationRequest
echo_request = record {
  public_key_material = 9 ∷ 8 ∷ [];
  signing_root = zero_root;
  signature = 9 ∷ 8 ∷ [];
}

register_verifier_lem_example :
    ((register_verifier echo_registry echo_verifier).1 ≡ verifier echo_registry 1)
    × ((verifier (register_verifier echo_registry echo_verifier).0 2
          ≡ (if 2 == 1 then some echo_verifier else verifier echo_registry 2))
        × ((register_verifier echo_registry echo_verifier).0.config ≡ default_config))
register_verifier_lem_example = register_verifier_lem echo_registry echo_verifier 2

verify_for_path_iff_example :
    (verify_for_path echo_registry 1 echo_request validator_message ≡ ok tt) ↔ (
      (v : SignatureVerifier) × ((verifier echo_registry 1 ≡ some v)
        × (Within (configured_limit echo_registry validator_message) 2
            × (Within (v.max_signature_size validator_message) 2
                × (v.verify echo_request ≡ ok tt)))))
verify_for_path_iff_example = verify_for_path_iff echo_registry 1 echo_request validator_message

-- ===== src/Primitives/Validation.antt =====
-- crates/shell-primitives/src/validation.rs: the closed local rules.
use shell_chain_specs.Common.{
  ℕ, List, [], ◌∷◌, Bytes, length, ltb, bytes_eq, if◌then◌else◌, Result, ok, err, ◌>>=◌,
}
use shell_chain_specs.Primitives.Types.{Root, Authorization, TransactionPayload}
use shell_chain_specs.Primitives.Errors.{
  PrimitiveError, authorization_count, signature_size_exceeded, payload_root_mismatch,
}
use shell_chain_specs.Primitives.Hash.{Sha256}
use shell_chain_specs.Primitives.Ssz.{payload_root}

abbrev pub max_user_signature_bytes : ℕ
max_user_signature_bytes = 8_192

unfoldable pub check_authorization_count : List Authorization → Result (Unit {0}) PrimitiveError
check_authorization_count [] = err (authorization_count 1 0)
check_authorization_count (a ∷ authorizations) = ok tt

unfoldable pub check_user_signature_size : Bytes → Result (Unit {0}) PrimitiveError
check_user_signature_size signature_bytes =
    if ltb max_user_signature_bytes (length signature_bytes)
    then err (signature_size_exceeded max_user_signature_bytes (length signature_bytes))
    else ok tt

-- The loop, with the payload's root computed.
unfoldable pub check_roots_loop : Root → List Authorization → Result (Unit {0}) PrimitiveError
check_roots_loop expected_root [] = ok tt
check_roots_loop expected_root (auth ∷ authorizations) =
    let rest = check_roots_loop expected_root authorizations in
    if bytes_eq auth.payload_root expected_root
    then rest
    else err (payload_root_mismatch expected_root auth.payload_root)

module _ (h : Sha256) where
  unfoldable pub check_authorization_payload_roots :
      TransactionPayload → List Authorization → Result (Unit {0}) PrimitiveError
  unfolding check_roots_loop
  check_authorization_payload_roots payload authorizations = do
    expected_root ← payload_root h payload
    check_roots_loop expected_root authorizations

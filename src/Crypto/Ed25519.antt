-- ===== src/Crypto/Ed25519.antt =====
-- crates/shell-crypto/src/schemes/ed25519.rs. The keys, the signatures and their verification are those
-- of the crate `ed25519_dalek`, and are arguments here.
use shell_chain_specs.Common.{
  ℕ, String, Bool, true, ◌==◌, ==_iff, ◌≡◌, ◌↔◌, refl, Option, some, Bytes, length, if◌then◌else◌,
  if_ok, Result, ok, err, ◌>>=◌, >>=-eq-ok, ok_or, ok_or-eq-ok,
}
use shell_chain_specs.Crypto.{
  SignatureVerifier, SignatureVerificationRequest, VerificationFailure, VerificationPath,
}

abbrev pub scheme_id_ed25519 : ℕ
scheme_id_ed25519 = 0

-- `Signature::BYTE_SIZE`
abbrev pub signature_byte_size : ℕ
signature_byte_size = 64

abbrev pub failure : String → VerificationFailure
failure context = record { scheme_id = scheme_id_ed25519; context = context }

-- The condition, or the failure with this message.
abbrev pub require : Bool → String → Result (Unit {0}) VerificationFailure
require condition context = if condition then ok tt else err (failure context)

module _ {κ σ} {VerifyingKey : Type κ} {Signature : Type σ}
    (from_bytes : Bytes → Option VerifyingKey) (from_slice : Bytes → Option Signature)
    (verify_signature : VerifyingKey → Bytes → Signature → Bool) where
  unfoldable pub verify : SignatureVerificationRequest → Result (Unit {0}) VerificationFailure
  verify request = do
    _ ← require (length request.public_key_material == 32) "Invalid public key length"
    public_key ← ok_or (from_bytes request.public_key_material) (failure "Malformed public key")
    signature ←
        ok_or (from_slice request.signature) (failure "Invalid signature length or encoding")
    require (verify_signature public_key request.signing_root signature)
        "Signature verification failed"

  abbrev pub ed25519_verifier : SignatureVerifier
  unfolding verify
  ed25519_verifier = record {
    scheme_id = scheme_id_ed25519;
    max_signature_size = λ (path : VerificationPath). some signature_byte_size;
    verify = verify;
  }

  -- The verifier accepts a request exactly when its key has 32 bytes that are a key, its signature is
  -- one, and the key verifies the signature over the signing root.
  pub verify_iff :
      (request : SignatureVerificationRequest)
      → (verify request ≡ ok tt) ↔ (
          (length request.public_key_material ≡ 32)
          × ((key : VerifyingKey) × (signature : Signature) × (from_bytes
                  request.public_key_material
                ≡ some key)
              × (from_slice request.signature ≡ some signature)
              × (verify_signature key request.signing_root signature ≡ true)))
  unfolding verify
  verify_iff request = (
    λ e.
        let (_, sized, e1) =
          >>=-eq-ok (require (length request.public_key_material == 32) "Invalid public key length")
            _ e in
        let (key, known, e2) = >>=-eq-ok (ok_or (from_bytes request.public_key_material) _) _ e1 in
        let (signature, read, e3) = >>=-eq-ok (ok_or (from_slice request.signature) _) _ e2 in
        (
          (==_iff (length request.public_key_material) 32).0 (if_ok _ _ _ sized).0,
          (key, signature, ok_or-eq-ok _ _ known, ok_or-eq-ok _ _ read, (if_ok _ _ _ e3).0),
        ),
    λ (sized, (key, signature, known, read, verified)).
        rw ((==_iff (length request.public_key_material) 32).1 sized, known, read, verified) refl,
  )

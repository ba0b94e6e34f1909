-- ===== src/Primitives/Hash.antt =====
-- SHA-256, which the code takes from the crate `sha2`. A hasher that is updated piece by piece
-- returns the digest of the pieces joined; all that the code relies on is the digest's width.
use shell_chain_specs.Common.{◌≡◌, ◌≢◌, Bytes, length}

pub record Sha256 : Type 0 where
  pub digest : Bytes → Bytes
  pub length-digest : (message : Bytes) → length (digest message) ≡ 32

-- Two messages with one digest.
pub record Collision (h : Sha256) : Type 0 where
  pub left : Bytes
  pub right : Bytes
  pub distinct : left ≢ right
  pub same_digest : h.digest left ≡ h.digest right

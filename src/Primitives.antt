-- ===== src/Primitives.antt =====
-- crates/shell-primitives: the protocol's objects, their wire encoding, roots and local rules.
pub mod Types
pub mod Errors
pub mod Codec
pub mod EnvelopeCodec
pub mod Hash
pub mod Domains
pub mod Ssz
pub mod Validation
pub mod StateKey
pub mod Tests

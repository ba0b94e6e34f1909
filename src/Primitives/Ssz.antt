-- ===== src/Primitives/Ssz.antt =====
-- crates/shell-primitives/src/ssz.rs: Merkle trees over 32-byte chunks and the roots of the
-- protocol's objects, as a release build runs them: `debug_assert!` checks nothing there.
pub mod Merkle
pub mod Recursion
pub mod Binding
pub mod ByteList
pub mod Payload
pub mod Commitment
use Prim.Native.Nat.{min}
use shell_chain_specs.Common.{
  ℕ, zero, suc, ◌+◌, ◌-◌, ◌*◌, ◌/◌, ◌%◌, List, [], ◌∷◌, ◌++◌, map, Bytes, length, take, drop,
  replicate, get_or, ltb, ◌==◌, if◌then◌else◌, Result, ok, err, ◌>>=◌, to_le_bytes,
}
use shell_chain_specs.Primitives.Types.{
  Root, zero_root, BasicFeesPerGas, BasicTransactionPayload, CreateTransactionPayload,
  Authorization, SigningData, TransactionPayload, TransactionEnvelope, basic, create, tag_basic,
  tag_create,
}
use shell_chain_specs.Primitives.Errors.{PrimitiveError}
use shell_chain_specs.Primitives.Hash.{Sha256}

abbrev pub mock_progressive_byte_list_limit : ℕ
mock_progressive_byte_list_limit = 1_048_576

abbrev pub mock_progressive_list_limit : ℕ
mock_progressive_list_limit = 8_192

-- A zeroed chunk with `bytes` copied to its front.
abbrev pub fill_chunk : Bytes → Root
fill_chunk bytes = bytes ++ replicate (32 - length bytes) 0

-- `usize::trailing_zeros`, on the bits left.
unfoldable pub trailing_zeros_loop : ℕ → ℕ → ℕ
trailing_zeros_loop zero n = 0
trailing_zeros_loop (suc bits) n =
    let more = suc (trailing_zeros_loop bits (n / 2)) in if n % 2 == 0 then more else 0

unfoldable pub trailing_zeros : ℕ → ℕ
unfolding trailing_zeros_loop
trailing_zeros n = trailing_zeros_loop 64 n

unfoldable pub pack_loop : ℕ → ℕ → Bytes → List Root
pack_loop zero i bytes = []
pack_loop (suc left) i bytes =
    let start = i * 32 in
    let end = min (start + 32) (length bytes) in
    fill_chunk (take (end - start) (drop start bytes)) ∷ pack_loop left (i + 1) bytes

-- `div_ceil(32)` chunks, none for no bytes.
unfoldable pub pack_bytes : Bytes → List Root
unfolding pack_loop
pack_bytes bytes = pack_loop ((length bytes + 31) / 32) 0 bytes

unfoldable pub htr_u64 : ℕ → Root
htr_u64 v = fill_chunk (to_le_bytes 8 v)

unfoldable pub htr_address : Bytes → Root
htr_address addr = fill_chunk addr

module _ (h : Sha256) where
  unfoldable pub sha256_pair : Root → Root → Root
  sha256_pair left right = h.digest (left ++ right)

  unfoldable pub zero_hash : ℕ → Root
  zero_hash zero = zero_root
  zero_hash (suc depth) = let h = zero_hash depth in sha256_pair h h

  -- Each call halves the limit, which is below 2 ^ 64, so 64 calls deep is enough.
  unfoldable pub merkleize_loop : ℕ → List Root → ℕ → Root
  merkleize_loop zero chunks limit = zero_root
  merkleize_loop (suc fuel) chunks limit =
      let half = limit / 2 in
      let left = merkleize_loop fuel (take (min (length chunks) half) chunks) half in
      let upper = merkleize_loop fuel (drop half chunks) half in
      let right = if ltb half (length chunks) then upper else zero_hash (trailing_zeros half) in
      let node = sha256_pair left right in
      if limit == 0 then zero_root else if limit == 1 then get_or chunks 0 zero_root else node

  unfoldable pub merkleize : List Root → ℕ → Root
  unfolding merkleize_loop
  merkleize chunks limit = merkleize_loop 64 chunks limit

  unfoldable pub mix_in_length : Root → ℕ → Root
  mix_in_length root len = sha256_pair root (fill_chunk (to_le_bytes 8 len))

  unfoldable pub mix_in_selector : Root → ℕ → Root
  mix_in_selector root selector = sha256_pair root (fill_chunk (selector ∷ []))

  unfoldable pub htr_fees : BasicFeesPerGas → Root
  htr_fees fees =
      merkleize
        (fees.regular ∷ fees.max_priority_fee_per_gas ∷ fees.max_witness_priority_fee ∷ zero_root
          ∷ [])
        4

  unfoldable pub htr_byte_list : Bytes → Root
  htr_byte_list bytes =
      mix_in_length (merkleize (pack_bytes bytes) (mock_progressive_byte_list_limit / 32))
        (length bytes)

  unfoldable pub htr_basic_payload : BasicTransactionPayload → Root
  htr_basic_payload p =
      merkleize
        (p.chain_id
          ∷ htr_u64 p.nonce
          ∷ htr_u64 p.gas_limit
          ∷ htr_fees p.fees
          ∷ htr_address p.to
          ∷ p.value
          ∷ htr_byte_list p.input
          ∷ p.access_commitment
          ∷ [])
        8

  unfoldable pub htr_create_payload : CreateTransactionPayload → Root
  htr_create_payload p =
      merkleize
        (p.chain_id
          ∷ htr_u64 p.nonce
          ∷ htr_u64 p.gas_limit
          ∷ htr_fees p.fees
          ∷ p.value
          ∷ htr_byte_list p.initcode
          ∷ p.access_commitment
          ∷ zero_root
          ∷ [])
        8

  unfoldable pub htr_authorization : Authorization → Root
  htr_authorization a =
      merkleize
        (fill_chunk (a.scheme_id ∷ [])
          ∷ a.payload_root
          ∷ htr_byte_list a.signature
          ∷ zero_root
          ∷ [])
        4

  unfoldable pub htr_authorization_list : List Authorization → Root
  htr_authorization_list authorizations =
      mix_in_length (merkleize (map htr_authorization authorizations) mock_progressive_list_limit)
        (length authorizations)

  -- `TransactionPayloadSsz::hash_tree_root`, and `TransactionEnvelope::payload_root`.
  unfoldable pub payload_root : TransactionPayload → Result Root PrimitiveError
  payload_root (basic p) = ok (mix_in_selector (htr_basic_payload p) tag_basic)
  payload_root (create p) = ok (mix_in_selector (htr_create_payload p) tag_create)

  -- `canonical_root` of an envelope.
  unfoldable pub envelope_root : TransactionEnvelope → Result Root PrimitiveError
  envelope_root e = do
    root ← payload_root e.payload
    ok (merkleize (root ∷ htr_authorization_list e.authorizations ∷ []) 2)

  -- `canonical_root` of `SigningData`.
  unfoldable pub signing_root : SigningData → Result Root PrimitiveError
  signing_root data' = ok (merkleize (data'.object_root ∷ fill_chunk data'.domain_type ∷ []) 2)

-- ===== src/Primitives/Codec.antt =====
-- crates/shell-primitives/src/codec.rs: the wire format of payloads, authorizations and envelopes.
-- `usize` has 64 bits. A slice whose bounds the code has checked before is `take` and `drop`.
pub mod Read
pub mod Layout
pub mod Inverse
pub mod RoundTrip
use shell_chain_specs.Common.{
  ℕ, zero, suc, ◌+◌, ◌-◌, ◌*◌, ◌/◌, ◌%◌, ◌^◌, ◌≡◌, Bool, true, false, not, ◌&&◌, ◌||◌, Option, none,
  some, List, [], ◌∷◌, ◌++◌, String, Bytes, length, take, drop, concat, is_empty, ltb, leb, ◌==◌,
  if◌then◌else◌, Result, ok, err, ◌>>=◌, ◌>>◌, map_err, map_ok, ok_or, to_le_bytes, from_le_bytes,
}
use shell_chain_specs.Primitives.Types.{
  Root, ExecutionAddress, BasicFeesPerGas, BasicTransactionPayload, CreateTransactionPayload,
  Authorization, TransactionPayload, TransactionEnvelope, basic, create, tag_basic, tag_create,
  protocol_tag, ensure_supported_tag,
}
use shell_chain_specs.Primitives.Errors.{PrimitiveError, malformed_ssz, unsupported_payload_variant}

abbrev pub Parsed : Type 0 → Type 0
Parsed A = Result A PrimitiveError

abbrev pub basic_fixed_size : ℕ
basic_fixed_size = 32 + 8 + 8 + 96 + 20 + 32 + 4 + 32

abbrev pub create_fixed_size : ℕ
create_fixed_size = 32 + 8 + 8 + 96 + 32 + 4 + 32

abbrev pub authorization_fixed_size : ℕ
authorization_fixed_size = 1 + 32 + 4

abbrev pub envelope_fixed_size : ℕ
envelope_fixed_size = 4 + 4

-- Each `push` appends to the buffer that it is given.
abbrev pub push_u64 : ℕ → Bytes → Bytes
push_u64 v out = out ++ to_le_bytes 8 v

abbrev pub push_u32 : ℕ → Bytes → Bytes
push_u32 v out = out ++ to_le_bytes 4 v

abbrev pub push_bytes : Bytes → Bytes → Bytes
push_bytes bytes out = out ++ bytes

unfoldable pub push_fees : BasicFeesPerGas → Bytes → Bytes
push_fees fees out =
    push_bytes fees.max_witness_priority_fee
      (push_bytes fees.max_priority_fee_per_gas (push_bytes fees.regular out))

unfoldable pub encode_basic : BasicTransactionPayload → Bytes → Bytes
unfolding push_fees
encode_basic p out =
    let out = push_bytes p.chain_id out in
    let out = push_u64 p.nonce out in
    let out = push_u64 p.gas_limit out in
    let out = push_fees p.fees out in
    let out = push_bytes p.to out in
    let out = push_bytes p.value out in
    let out = push_u32 basic_fixed_size out in
    let out = push_bytes p.access_commitment out in push_bytes p.input out

unfoldable pub encode_create : CreateTransactionPayload → Bytes → Bytes
unfolding push_fees
encode_create p out =
    let out = push_bytes p.chain_id out in
    let out = push_u64 p.nonce out in
    let out = push_u64 p.gas_limit out in
    let out = push_fees p.fees out in
    let out = push_bytes p.value out in
    let out = push_u32 create_fixed_size out in
    let out = push_bytes p.access_commitment out in push_bytes p.initcode out

encode_inner : TransactionPayload → Bytes → Bytes
unfolding encode_basic encode_create
encode_inner (basic p) out = encode_basic p out
encode_inner (create p) out = encode_create p out

unfoldable pub encode_payload : TransactionPayload → Parsed Bytes
unfolding encode_inner protocol_tag
encode_payload payload = ok (encode_inner payload (protocol_tag payload ∷ []))

-- `bytes.get(start..end)`
unfoldable pub slice : Bytes → ℕ → ℕ → Option Bytes
slice bytes start end =
    if leb start end && leb end (length bytes)
    then some (take (end - start) (drop start bytes))
    else none

unfoldable pub read_u64 : Bytes → ℕ → Parsed ℕ
read_u64 bytes offset =
    map_ok from_le_bytes
      (ok_or (slice bytes offset (offset + 8)) (malformed_ssz "truncated u64 field"))

unfoldable pub read_u32 : Bytes → ℕ → Parsed ℕ
read_u32 bytes offset =
    map_ok from_le_bytes
      (ok_or (slice bytes offset (offset + 4)) (malformed_ssz "truncated u32 offset field"))

unfoldable pub read_bytes32 : Bytes → ℕ → Parsed Bytes
read_bytes32 bytes offset =
    ok_or (slice bytes offset (offset + 32)) (malformed_ssz "truncated 32-byte field")

unfoldable pub read_address : Bytes → ℕ → Parsed ExecutionAddress
read_address bytes offset =
    ok_or (slice bytes offset (offset + 20)) (malformed_ssz "truncated ExecutionAddress field")

unfoldable pub read_fees : Bytes → ℕ → Parsed BasicFeesPerGas
read_fees bytes offset = do
  regular ← read_bytes32 bytes offset
  priority ← read_bytes32 bytes (offset + 32)
  witness ← read_bytes32 bytes (offset + 64)
  ok (record {
    regular = regular;
    max_priority_fee_per_gas = priority;
    max_witness_priority_fee = witness;
  })

abbrev pub require : Bool → String → Parsed (Unit {0})
require true context = ok tt
require false context = err (malformed_ssz context)

unfoldable pub decode_basic : Bytes → Parsed BasicTransactionPayload
decode_basic bytes = do
  require (not (ltb (length bytes) basic_fixed_size))
      "BasicTransactionPayload too short for fixed fields"
  chain_id ← read_bytes32 bytes 0
  nonce ← read_u64 bytes 32
  gas_limit ← read_u64 bytes 40
  fees ← read_fees bytes 48
  to ← read_address bytes 144
  value ← read_bytes32 bytes 164
  input_offset ← read_u32 bytes 196
  access_commitment ← read_bytes32 bytes 200
  require (input_offset == basic_fixed_size)
      "BasicTransactionPayload: input offset must equal the fixed-part size"
  ok (record {
    chain_id = chain_id;
    nonce = nonce;
    gas_limit = gas_limit;
    fees = fees;
    to = to;
    value = value;
    input = drop basic_fixed_size bytes;
    access_commitment = access_commitment;
  })

unfoldable pub decode_create : Bytes → Parsed CreateTransactionPayload
decode_create bytes = do
  require (not (ltb (length bytes) create_fixed_size))
      "CreateTransactionPayload too short for fixed fields"
  chain_id ← read_bytes32 bytes 0
  nonce ← read_u64 bytes 32
  gas_limit ← read_u64 bytes 40
  fees ← read_fees bytes 48
  value ← read_bytes32 bytes 144
  initcode_offset ← read_u32 bytes 176
  access_commitment ← read_bytes32 bytes 180
  require (initcode_offset == create_fixed_size)
      "CreateTransactionPayload: initcode offset must equal the fixed-part size"
  ok (record {
    chain_id = chain_id;
    nonce = nonce;
    gas_limit = gas_limit;
    fees = fees;
    value = value;
    initcode = drop create_fixed_size bytes;
    access_commitment = access_commitment;
  })

-- The last branch of the `match` is the code's `unreachable!`: the tag has been checked.
unfoldable pub decode_payload : Bytes → Parsed TransactionPayload
decode_payload [] = err (malformed_ssz "TransactionPayload wire bytes must not be empty")
decode_payload (tag ∷ inner) = do
  map_err unsupported_payload_variant (ensure_supported_tag tag)
  if tag == tag_basic
      then map_ok basic (decode_basic inner)
      else map_ok create (decode_create inner)

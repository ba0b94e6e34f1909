-- ===== src/Primitives/EnvelopeCodec.antt =====
-- crates/shell-primitives/src/codec.rs: authorizations, the authorization list with its table of
-- offsets, and envelopes. The checked operations on `usize` fail at 2 ^ 64.
pub mod Offsets
pub mod Lists
pub mod RoundTrip
pub mod Envelopes
use shell_chain_specs.Common.{
  ℕ, zero, suc, ◌+◌, ◌-◌, ◌*◌, ◌/◌, ◌%◌, ◌^◌, Bool, true, false, not, ◌&&◌, ◌||◌, Option, none,
  some, List, [], ◌∷◌, ◌++◌, Bytes, length, take, drop, concat, is_empty, ltb, leb, ◌==◌,
  if◌then◌else◌, Result, ok, err, ◌>>=◌, ◌>>◌, ok_or, to_le_bytes, from_le_bytes,
}
use shell_chain_specs.Primitives.Types.{Authorization, TransactionEnvelope}
use shell_chain_specs.Primitives.Errors.{malformed_ssz}
use shell_chain_specs.Primitives.Codec.{
  Parsed, push_u32, push_bytes, require, authorization_fixed_size, envelope_fixed_size, read_u32,
  read_bytes32, encode_payload, decode_payload,
}

abbrev pub usize_mod : ℕ
usize_mod = 2 ^ 64

unfoldable pub checked_add : ℕ → ℕ → Option ℕ
checked_add a b = if ltb (a + b) usize_mod then some (a + b) else none

unfoldable pub checked_mul : ℕ → ℕ → Option ℕ
checked_mul a b = if ltb (a * b) usize_mod then some (a * b) else none

-- `u32::try_from`
unfoldable pub u32_try_from : ℕ → Option ℕ
u32_try_from v = if ltb v (2 ^ 32) then some v else none

unfoldable pub encode_authorization : Authorization → Parsed Bytes
encode_authorization a =
    let out = a.scheme_id ∷ [] in
    let out = push_bytes a.payload_root out in
    let out = push_u32 authorization_fixed_size out in ok (push_bytes a.signature out)

-- `bytes[0]` is the head of `bytes`, which the first check makes long enough.
unfoldable pub first_byte : Bytes → ℕ
first_byte [] = 0
first_byte (b ∷ bytes) = b

unfoldable pub decode_authorization : Bytes → Parsed Authorization
unfolding first_byte
decode_authorization bytes = do
  require (not (ltb (length bytes) authorization_fixed_size))
      "Authorization too short for fixed fields"
  let scheme_id = first_byte bytes
  payload_root ← read_bytes32 bytes 1
  signature_offset ← read_u32 bytes 33
  require (signature_offset == authorization_fixed_size)
      "Authorization: signature offset must equal the fixed-part size"
  ok (record {
    scheme_id = scheme_id;
    payload_root = payload_root;
    signature = drop authorization_fixed_size bytes;
  })

-- The loop over the authorizations, with `next_offset`, `out` and `variable_parts`; then the loop
-- that appends the variable parts.
unfoldable pub encode_list_loop : List Authorization → ℕ → Bytes → List Bytes → Parsed Bytes
encode_list_loop [] next_offset out variable_parts = ok (out ++ concat variable_parts)
encode_list_loop (a ∷ rest) next_offset out variable_parts = do
  encoded ← encode_authorization a
  offset ←
      ok_or (u32_try_from next_offset) (malformed_ssz "Authorization list offset exceeds u32::MAX")
  next ←
      ok_or (checked_add next_offset (length encoded))
        (malformed_ssz "Authorization list byte length overflowed usize")
  encode_list_loop rest next (push_u32 offset out) (variable_parts ++ encoded ∷ [])

unfoldable pub encode_authorization_list : List Authorization → Parsed Bytes
encode_authorization_list authorizations = do
  fixed_size ←
      ok_or (checked_mul (length authorizations) 4)
        (malformed_ssz "Authorization list offset table overflowed usize")
  encode_list_loop authorizations fixed_size [] []

-- The first loop of the decoder, from `index` on; `count - index` is the first argument.
unfoldable pub read_offsets : ℕ → Bytes → ℕ → ℕ → Parsed (List ℕ)
read_offsets zero bytes first_offset index = ok []
read_offsets (suc left) bytes first_offset index = do
  offset ← read_u32 bytes (index * 4)
  require (not (ltb offset first_offset || ltb (length bytes) offset))
      "Authorization list element offset points outside the variable section"
  offsets ← read_offsets left bytes first_offset (index + 1)
  ok (offset ∷ offsets)

-- `offsets.get(index + 1).copied().unwrap_or(bytes.len())`
unfoldable pub next_offset_or : List ℕ → ℕ → ℕ
next_offset_or [] end = end
next_offset_or (offset ∷ offsets) end = offset

unfoldable pub decode_elements : List ℕ → Bytes → Parsed (List Authorization)
unfolding next_offset_or
decode_elements [] bytes = ok []
decode_elements (start ∷ offsets) bytes = do
  let end = next_offset_or offsets (length bytes)
  require (not (ltb end start)) "Authorization list element offsets must be monotonic"
  authorization ← decode_authorization (take (end - start) (drop start bytes))
  authorizations ← decode_elements offsets bytes
  ok (authorization ∷ authorizations)

unfoldable pub decode_nonempty_list : Bytes → Parsed (List Authorization)
decode_nonempty_list bytes = do
  first_offset ← read_u32 bytes 0
  require (not (first_offset == 0 || not (first_offset % 4 == 0)))
      "Authorization list first offset must equal the offset-table size"
  require (not (ltb (length bytes) first_offset))
      "Authorization list offset table extends past the available bytes"
  offsets ← read_offsets (first_offset / 4) bytes first_offset 0
  decode_elements offsets bytes

unfoldable pub decode_authorization_list : Bytes → Parsed (List Authorization)
decode_authorization_list bytes = if is_empty bytes then ok [] else decode_nonempty_list bytes

unfoldable pub encode_envelope : TransactionEnvelope → Parsed Bytes
encode_envelope envelope = do
  payload_bytes ← encode_payload envelope.payload
  authorizations_bytes ← encode_authorization_list envelope.authorizations
  authorizations_offset ←
      ok_or (checked_add envelope_fixed_size (length payload_bytes))
        (malformed_ssz "TransactionEnvelope variable section overflowed usize")
  let out = push_u32 envelope_fixed_size []
  offset ←
      ok_or (u32_try_from authorizations_offset)
        (malformed_ssz "TransactionEnvelope authorizations offset exceeds u32::MAX")
  let out = push_u32 offset out
  let out = push_bytes payload_bytes out
  ok (push_bytes authorizations_bytes out)

unfoldable pub decode_envelope : Bytes → Parsed TransactionEnvelope
decode_envelope bytes = do
  require (not (ltb (length bytes) envelope_fixed_size))
      "TransactionEnvelope too short for fixed fields"
  payload_offset ← read_u32 bytes 0
  authorizations_offset ← read_u32 bytes 4
  require (payload_offset == envelope_fixed_size)
      "TransactionEnvelope: payload offset must equal the fixed-part size"
  require
      (not (ltb authorizations_offset payload_offset || ltb (length bytes) authorizations_offset))
      "TransactionEnvelope: authorizations offset must point into the variable section"
  payload ←
      decode_payload (take (authorizations_offset - payload_offset) (drop payload_offset bytes))
  authorizations ← decode_authorization_list (drop authorizations_offset bytes)
  ok (record { payload = payload; authorizations = authorizations })

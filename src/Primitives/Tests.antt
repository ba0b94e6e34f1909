-- ===== src/Primitives/Tests.antt =====
-- Concrete inputs for the theorems on the primitives.
use shell_chain_specs.Common.{
  ℕ, ◌^◌, ◌<◌, ◌≡◌, ◌↔◌, ◌⊎◌, refl, Bool, true, ◌&&◌, [], ◌∷◌, ◌++◌, Bytes, IsByte, IsArray, length,
  take, replicate, All, arith, ltb, ltb→lt, length-take, length-append, length-replicate, get_or,
  to_le_bytes, ok, ◌>>=◌,
}
use shell_chain_specs.Primitives.Types.{
  Root, zero_root, BasicFeesPerGas, BasicTransactionPayload, BasicIsValid, AuthorizationIsValid,
  TransactionEnvelope, EnvelopeIsValid, PayloadIsValid, basic, tag_basic,
}
use shell_chain_specs.Primitives.Codec.{encode_payload, decode_payload}
use shell_chain_specs.Primitives.Codec.RoundTrip.{
  payload_layout, decode_payload-layout, decode_payload-encode_payload,
  encode_payload-decode_payload,
}
use shell_chain_specs.Primitives.EnvelopeCodec.{
  usize_mod, encode_envelope, decode_envelope, encode_authorization_list, decode_authorization_list,
}
use shell_chain_specs.Primitives.EnvelopeCodec.RoundTrip.{
  list_layout, encode_list-layout, decode_list-layout, decode_list-encode_list,
  encode_list-decode_list,
}
use shell_chain_specs.Primitives.EnvelopeCodec.Envelopes.{
  EnvelopeFits, envelope_layout, encode_envelope-layout, decode_envelope-layout,
  decode_envelope-encode_envelope, encode_envelope-decode_envelope, encode_envelope_iff,
}
use shell_chain_specs.Primitives.Hash.{Sha256, Collision}
use shell_chain_specs.Primitives.Ssz.{merkleize, mix_in_selector, htr_basic_payload, payload_root}
use shell_chain_specs.Primitives.Ssz.Merkle.{full_root, merkleize-full_root}
use shell_chain_specs.Primitives.Ssz.ByteList.{htr_byte_list-binds}
use shell_chain_specs.Primitives.Ssz.Commitment.{payload_root-binds}
use shell_chain_specs.Primitives.StateKey.{
  StateKey, account_header, storage_slot, code_chunk, compare_state_keys,
}
use shell_chain_specs.Primitives.StateKey.Order.{encode_state_key-injective}
use shell_chain_specs.Primitives.StateKey.Canonical.{
  compare_fields, compare_state_keys-compare_fields,
}

-- A hash for examples: the first 32 bytes of the message, padded.
abbrev pub prefix_hash : Sha256
prefix_hash = record {
  digest = λ m. take 32 (m ++ replicate 32 0);
  length-digest = λ m. omega (
    arith,
    length-take 32 (m ++ replicate 32 0),
    length-append m (replicate 32 0),
    length-replicate {A = ℕ} 32 0,
  );
}

abbrev pub all_bytes : Bytes → Bool
all_bytes [] = true
all_bytes (b ∷ bs) = ltb b 256 && all_bytes bs

pub All-bytes→All : (bs : Bytes) → all_bytes bs ≡ true → All IsByte bs
All-bytes→All [] e = tt
All-bytes→All (b ∷ bs) e = let (first, rest) = both b bs e in (first, All-bytes→All bs rest)
  where
    both :
        (b : ℕ) (bs : Bytes) → ltb b 256 && all_bytes bs ≡ true → (b < 256) × (all_bytes bs ≡ true)
    both b bs e = ground arith

pub array-of : (n : ℕ) (bs : Bytes) → length bs ≡ n → all_bytes bs ≡ true → IsArray n bs
array-of n bs l e = (l, All-bytes→All bs e)

pub zeros : IsArray 32 zero_root
zeros = array-of 32 zero_root refl refl

abbrev pub some_fees : BasicFeesPerGas
some_fees = record {
  regular = zero_root;
  max_priority_fee_per_gas = zero_root;
  max_witness_priority_fee = zero_root;
}

abbrev pub some_basic : BasicTransactionPayload
some_basic = record {
  chain_id = 1 ∷ replicate 31 0;
  nonce = 7;
  gas_limit = 21_000;
  fees = some_fees;
  to = replicate 20 170;
  value = 5 ∷ replicate 31 0;
  input = 1 ∷ 2 ∷ 3 ∷ [];
  access_commitment = zero_root;
}

abbrev pub some_envelope : TransactionEnvelope
some_envelope = record {
  payload = basic some_basic;
  authorizations =
      record { scheme_id = 1; payload_root = zero_root; signature = 9 ∷ 8 ∷ [] }
      ∷ record { scheme_id = 2; payload_root = zero_root; signature = [] }
      ∷ [];
}

pub some_basic-IsValid : BasicIsValid some_basic
some_basic-IsValid = record {
  chain_id = array-of 32 (1 ∷ replicate 31 0) refl refl;
  nonce = omega arith;
  gas_limit = omega arith;
  fees = record { regular = zeros; priority = zeros; witness = zeros };
  to = array-of 20 (replicate 20 170) refl refl;
  value = array-of 32 (5 ∷ replicate 31 0) refl refl;
  input = All-bytes→All (1 ∷ 2 ∷ 3 ∷ []) refl;
  access_commitment = zeros;
}

some_authorizations-IsValid : All AuthorizationIsValid some_envelope.authorizations
some_authorizations-IsValid = (
  record {
    scheme_id = omega arith;
    payload_root = zeros;
    signature = All-bytes→All (9 ∷ 8 ∷ []) refl;
  },
  (record { scheme_id = omega arith; payload_root = zeros; signature = tt }, tt),
)

pub some_envelope-IsValid : EnvelopeIsValid some_envelope
some_envelope-IsValid = record {
  payload = some_basic-IsValid;
  authorizations = some_authorizations-IsValid;
}

some_envelope-Fits : EnvelopeFits some_envelope
unfolding to_le_bytes
some_envelope-Fits = (ltb→lt _ _ refl, ((ltb→lt _ _ refl, (ltb→lt _ _ refl, tt)), ltb→lt _ _ refl))

decode_envelope-encode_envelope_example :
    decode_envelope (envelope_layout some_envelope) ≡ ok some_envelope
decode_envelope-encode_envelope_example =
    decode_envelope-encode_envelope some_envelope (envelope_layout some_envelope)
      some_envelope-IsValid (encode_envelope-layout some_envelope some_envelope-Fits)

encode_envelope-decode_envelope_example :
    (encode_envelope some_envelope ≡ ok (envelope_layout some_envelope))
    × EnvelopeIsValid some_envelope
unfolding to_le_bytes
encode_envelope-decode_envelope_example =
    encode_envelope-decode_envelope (envelope_layout some_envelope) some_envelope
      (All-bytes→All (envelope_layout some_envelope) refl)
      (ltb→lt (length (envelope_layout some_envelope)) usize_mod refl)
      (decode_envelope-layout some_envelope some_envelope-Fits some_envelope-IsValid)

decode_list-encode_list_example :
    decode_authorization_list (list_layout some_envelope.authorizations)
    ≡ ok some_envelope.authorizations
decode_list-encode_list_example =
    decode_list-encode_list some_envelope.authorizations (list_layout some_envelope.authorizations)
      some_authorizations-IsValid
      (encode_list-layout some_envelope.authorizations some_envelope-Fits.1)

encode_list-decode_list_example :
    (encode_authorization_list some_envelope.authorizations
      ≡ ok (list_layout some_envelope.authorizations))
    × All AuthorizationIsValid some_envelope.authorizations
unfolding to_le_bytes
encode_list-decode_list_example =
    encode_list-decode_list (list_layout some_envelope.authorizations) some_envelope.authorizations
      (All-bytes→All (list_layout some_envelope.authorizations) refl)
      (ltb→lt (length (list_layout some_envelope.authorizations)) usize_mod refl)
      (decode_list-layout some_envelope.authorizations some_envelope-Fits.1
        some_authorizations-IsValid)

decode_payload-encode_payload_example :
    (encode_payload (basic some_basic) >>= decode_payload) ≡ ok (basic some_basic)
decode_payload-encode_payload_example =
    decode_payload-encode_payload (basic some_basic) some_basic-IsValid

encode_payload-decode_payload_example :
    (encode_payload (basic some_basic) ≡ ok (payload_layout (basic some_basic)))
    × PayloadIsValid (basic some_basic)
unfolding to_le_bytes
encode_payload-decode_payload_example =
    encode_payload-decode_payload (payload_layout (basic some_basic)) (basic some_basic)
      (All-bytes→All (payload_layout (basic some_basic)) refl)
      (decode_payload-layout (basic some_basic) some_basic-IsValid)

abbrev pub some_root : Root
some_root = mix_in_selector prefix_hash (htr_basic_payload prefix_hash some_basic) tag_basic

some_root-eq : payload_root prefix_hash (basic some_basic) ≡ ok some_root
unfolding payload_root
some_root-eq = refl

payload_root-binds_example : (basic some_basic ≡ basic some_basic) ⊎ Collision prefix_hash
payload_root-binds_example =
    payload_root-binds prefix_hash (basic some_basic) (basic some_basic) some_root
      some_basic-IsValid some_basic-IsValid (omega arith) (omega arith) some_root-eq some_root-eq

merkleize-full_root_example :
    merkleize prefix_hash (zero_root ∷ (1 ∷ replicate 31 0) ∷ zero_root ∷ []) (2 ^ 2)
    ≡ full_root prefix_hash 2
        (λ i. get_or (zero_root ∷ (1 ∷ replicate 31 0) ∷ zero_root ∷ []) i zero_root)
merkleize-full_root_example =
    merkleize-full_root prefix_hash 2 (zero_root ∷ (1 ∷ replicate 31 0) ∷ zero_root ∷ [])
      (omega arith) (omega arith)

abbrev two_bytes : Bytes
two_bytes = 1 ∷ 2 ∷ []

htr_byte_list-binds_example : (two_bytes ≡ two_bytes) ⊎ Collision prefix_hash
htr_byte_list-binds_example =
    htr_byte_list-binds prefix_hash two_bytes two_bytes (omega arith) (omega arith) refl

abbrev pub some_address : Bytes
some_address = replicate 20 66

abbrev pub account_key : StateKey
account_key = account_header some_address

abbrev pub slot_key : StateKey
slot_key = storage_slot some_address (replicate 32 7)

-- The lower bytes of the first index are the greater ones.
abbrev early_chunk : StateKey
early_chunk = code_chunk some_address 255

abbrev late_chunk : StateKey
late_chunk = code_chunk some_address 256

pub address-IsArray : IsArray 20 some_address
address-IsArray = array-of 20 some_address refl refl

pub slot-IsArray : IsArray 32 (replicate 32 7)
slot-IsArray = array-of 32 (replicate 32 7) refl refl

encode_state_key-injective_example : slot_key ≡ slot_key
encode_state_key-injective_example =
    encode_state_key-injective slot_key slot_key (address-IsArray, slot-IsArray)
      (address-IsArray, slot-IsArray) refl

compare_state_keys-compare_fields_example :
    compare_state_keys early_chunk late_chunk ≡ compare_fields early_chunk late_chunk
compare_state_keys-compare_fields_example =
    compare_state_keys-compare_fields early_chunk late_chunk (address-IsArray, omega arith)
      (address-IsArray, omega arith)

encode_envelope_iff_example :
    (encode_envelope some_envelope ≡ ok (envelope_layout some_envelope))
    ↔ (EnvelopeFits some_envelope × (envelope_layout some_envelope ≡ envelope_layout some_envelope))
encode_envelope_iff_example = encode_envelope_iff some_envelope (envelope_layout some_envelope)

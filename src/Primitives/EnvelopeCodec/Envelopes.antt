-- ===== src/Primitives/EnvelopeCodec/Envelopes.antt =====
-- Whole envelopes there and back.
use shell_chain_specs.Common.{
  ℕ, ◌+◌, ◌-◌, ◌^◌, ◌≤◌, ◌<◌, ◌≡◌, refl, sym, ap, ap₂, ◌∙◌, ◌↔◌, true, not, ◌||◌, List, ◌++◌, Bytes,
  IsByte, All, length, take, drop, ltb, lt→ltb, le→ltb_false, ◌==◌, ==_iff, ok, >>=-eq-ok,
  ok-injective, ok_or, ok_or-eq-ok, to_le_bytes, arith, length-append, length-to_le_bytes,
  append_assoc, length-take, length-drop, take-append, drop-append, take-append-drop, drop-drop,
  All-take, All-drop,
}
use shell_chain_specs.Primitives.Types.{
  Authorization, TransactionPayload, TransactionEnvelope, EnvelopeIsValid,
}
use shell_chain_specs.Primitives.Codec.{
  require, read_u32, encode_payload, decode_payload, envelope_fixed_size,
}
use shell_chain_specs.Primitives.Codec.Read.{read_u32-At, At-read_u32}
use shell_chain_specs.Primitives.Codec.Inverse.{require-eq-ok}
use shell_chain_specs.Primitives.Codec.RoundTrip.{
  payload_layout, encode_payload-layout, decode_payload-layout, decode_payload-inv,
}
use shell_chain_specs.Primitives.EnvelopeCodec.{
  usize_mod, checked_add, u32_try_from, encode_authorization_list, decode_authorization_list,
  encode_envelope, decode_envelope,
}
use shell_chain_specs.Primitives.EnvelopeCodec.Offsets.{u32_try_from-eq-some, checked_add-eq-some}
use shell_chain_specs.Primitives.EnvelopeCodec.RoundTrip.{
  list_layout, Fits, encode_list-layout, encode_list-inv, decode_list-layout, decode_list-inv,
}

-- The offset of the authorization list.
abbrev pub list_offset : TransactionEnvelope → ℕ
list_offset e = envelope_fixed_size + length (payload_layout e.payload)

abbrev pub envelope_layout : TransactionEnvelope → Bytes
envelope_layout e =
    to_le_bytes 4 envelope_fixed_size
    ++ (to_le_bytes 4 (list_offset e) ++ (payload_layout e.payload ++ list_layout e.authorizations))

abbrev pub EnvelopeFits : TransactionEnvelope → Type 0
EnvelopeFits e = (list_offset e < 2 ^ 32) × Fits e.authorizations

pub encode_envelope-layout :
    (e : TransactionEnvelope) → EnvelopeFits e → encode_envelope e ≡ ok (envelope_layout e)
unfolding encode_envelope checked_add u32_try_from
encode_envelope-layout e f =
    rw
      (
        encode_payload-layout e.payload,
        encode_list-layout e.authorizations f.1,
        lt→ltb (list_offset e) usize_mod (omega arith),
        lt→ltb (list_offset e) (2 ^ 32) f.0,
      )
      (simp append_assoc)

pub encode_envelope-inv :
    (e : TransactionEnvelope) {bytes : Bytes}
    → encode_envelope e ≡ ok bytes
    → EnvelopeFits e × (bytes ≡ envelope_layout e)
unfolding encode_envelope
encode_envelope-inv e {bytes} h =
    let (payload_bytes, e1, h1) = >>=-eq-ok (encode_payload e.payload) _ h in
    let (list_bytes, e2, h2) = >>=-eq-ok (encode_authorization_list e.authorizations) _ h1 in
    let (at, e3, h3) =
      >>=-eq-ok (ok_or (checked_add envelope_fixed_size (length payload_bytes)) _) _ h2 in
    let (offset, e4, h4) = >>=-eq-ok (ok_or (u32_try_from at) _) _ h3 in
    let same : payload_bytes ≡ payload_layout e.payload =
      ok-injective (sym e1 ∙ encode_payload-layout e.payload) in
    let (_, sum) =
      checked_add-eq-some envelope_fixed_size (length payload_bytes) (ok_or-eq-ok _ _ e3) in
    let (small, _) = u32_try_from-eq-some at (ok_or-eq-ok _ _ e4) in
    let (f, _) = encode_list-inv e.authorizations e2 in
    let fits : EnvelopeFits e = (omega (arith, ap length same), f) in
    (fits, ok-injective (sym h ∙ encode_envelope-layout e fits))

-- An envelope has an encoding exactly when its parts fit: the offset of the list, 8 and the length of the
-- encoded payload, is below 2 ^ 32, and so is every offset within the list, whose size is below 2 ^ 64;
-- and the encoding is the two offsets, the payload and the list.
pub encode_envelope_iff :
    (e : TransactionEnvelope) (bytes : Bytes)
    → (encode_envelope e ≡ ok bytes) ↔ (EnvelopeFits e × (bytes ≡ envelope_layout e))
encode_envelope_iff e bytes =
    (encode_envelope-inv e, λ (fits, layout). encode_envelope-layout e fits ∙ ap ok (sym layout))

length-payload_head : (e : TransactionEnvelope) → envelope_fixed_size ≤ length (envelope_layout e)
length-payload_head e = simp (length-append, length-to_le_bytes) (omega arith)

pub decode_envelope-layout :
    (e : TransactionEnvelope)
    → EnvelopeFits e
    → EnvelopeIsValid e
    → decode_envelope (envelope_layout e) ≡ ok e
unfolding decode_envelope
decode_envelope-layout e f v =
    let bytes = envelope_layout e in
    let payload = payload_layout e.payload in
    let (r1, d1) = read_u32-At bytes 0 _ {v = envelope_fixed_size} refl (omega arith) in
    let (r2, d2) = read_u32-At bytes 4 _ {v = list_offset e} d1 f.0 in
    let size : list_offset e - envelope_fixed_size ≡ length payload = omega arith in
    let tail : drop (list_offset e) bytes ≡ list_layout e.authorizations =
      sym (drop-drop 8 (length payload) _ bytes refl)
      ∙ ap (drop (length payload)) d2
      ∙ drop-append payload _ _ refl in
    let within : list_offset e ≤ length bytes = omega (
      arith,
      length-drop 8 bytes,
      ap length d2,
      length-append payload (list_layout e.authorizations),
      length-payload_head e,
    ) in
    rw (
      le→ltb_false (length bytes) envelope_fixed_size (length-payload_head e),
      r1,
      r2,
      le→ltb_false (list_offset e) envelope_fixed_size (omega arith),
      le→ltb_false (length bytes) (list_offset e) within,
      size,
      d2,
      take-append payload (list_layout e.authorizations) _ refl,
      decode_payload-layout e.payload v.payload,
      tail,
      decode_list-layout e.authorizations f.1 v.authorizations,
    )

-- An envelope in the range of Rust's types that is encoded at all is read back unchanged, its
-- payload and its whole list of authorizations in order.
pub decode_envelope-encode_envelope :
    (e : TransactionEnvelope) (bytes : Bytes)
    → EnvelopeIsValid e
    → encode_envelope e ≡ ok bytes
    → decode_envelope bytes ≡ ok e
decode_envelope-encode_envelope e bytes v h =
    let (f, layout) = encode_envelope-inv e h in rw layout (decode_envelope-layout e f v)

range_inv :
    (o len : ℕ)
    → not (ltb o envelope_fixed_size || ltb len o) ≡ true
    → (envelope_fixed_size ≤ o) × (o ≤ len)
range_inv o len h = ground arith

decode_envelope_parts :
    (bytes : Bytes) (payload : TransactionPayload) (auths : List Authorization) (o : ℕ)
    → All IsByte bytes
    → length bytes < usize_mod
    → read_u32 bytes 0 ≡ ok envelope_fixed_size
    → read_u32 bytes 4 ≡ ok o
    → (envelope_fixed_size ≤ o) × (o ≤ length bytes)
    → decode_payload (take (o - envelope_fixed_size) (drop envelope_fixed_size bytes)) ≡ ok payload
    → decode_authorization_list (drop o bytes) ≡ ok auths
    → let e : TransactionEnvelope = record { payload = payload; authorizations = auths } in
      (bytes ≡ envelope_layout e) × EnvelopeFits e × EnvelopeIsValid e
decode_envelope_parts bytes payload auths o bs small e1 e2 (low, high) e5 e6 =
    let part = take (o - envelope_fixed_size) (drop envelope_fixed_size bytes) in
    let (at1, _) = At-read_u32 bytes bs 0 e1 in
    let (at2, small2) = At-read_u32 bytes bs 4 e2 in
    let (shape, valid) =
      decode_payload-inv part payload
        (All-take IsByte (o - envelope_fixed_size) _ (All-drop IsByte envelope_fixed_size bytes bs))
        e5 in
    let (list_shape, f, list_valid) =
      decode_list-inv (drop o bytes) auths (All-drop IsByte o bytes bs)
        (omega (arith, length-drop o bytes)) e6 in
    let size : length (payload_layout payload) ≡ o - envelope_fixed_size =
      sym (ap length shape)
      ∙ omega (
        arith,
        length-take (o - envelope_fixed_size) (drop envelope_fixed_size bytes),
        length-drop envelope_fixed_size bytes,
      ) in
    let here : o ≡ envelope_fixed_size + length (payload_layout payload) = omega arith in
    let rest : drop envelope_fixed_size bytes ≡ payload_layout payload ++ list_layout auths =
      sym (take-append-drop (o - envelope_fixed_size) (drop envelope_fixed_size bytes))
      ∙ ap₂ ◌++◌ shape (
          drop-drop envelope_fixed_size (o - envelope_fixed_size) o bytes (omega arith)
          ∙ list_shape) in
    (
      at1
          ∙ ap (◌++◌ (to_le_bytes 4 envelope_fixed_size))
              (at2 ∙ ap₂ ◌++◌ (ap (to_le_bytes 4) here) rest),
      (omega arith, f),
      record { payload = valid; authorizations = list_valid },
    )

decode_envelope_at :
    (bytes : Bytes) (payload : TransactionPayload) (auths : List Authorization) (p o : ℕ)
    → All IsByte bytes
    → length bytes < usize_mod
    → p ≡ envelope_fixed_size
    → read_u32 bytes 0 ≡ ok p
    → read_u32 bytes 4 ≡ ok o
    → not (ltb o p || ltb (length bytes) o) ≡ true
    → decode_payload (take (o - p) (drop p bytes)) ≡ ok payload
    → decode_authorization_list (drop o bytes) ≡ ok auths
    → let e : TransactionEnvelope = record { payload = payload; authorizations = auths } in
      (bytes ≡ envelope_layout e) × EnvelopeFits e × EnvelopeIsValid e
decode_envelope_at bytes payload auths p o bs small fixed e1 e2 range e5 e6 =
    decode_envelope_parts bytes payload auths o bs small (rw fixed at e1) e2
      (range_inv o (length bytes) (rw fixed at range)) (rw fixed at e5) e6

decode_envelope-inv :
    (bytes : Bytes) (e : TransactionEnvelope)
    → All IsByte bytes
    → length bytes < usize_mod
    → decode_envelope bytes ≡ ok e
    → (bytes ≡ envelope_layout e) × EnvelopeFits e × EnvelopeIsValid e
unfolding decode_envelope
decode_envelope-inv bytes e bs small h =
    let (_, e0, h0) =
      >>=-eq-ok
        (require (not (ltb (length bytes) envelope_fixed_size))
          "TransactionEnvelope too short for fixed fields")
        _ h in
    let (p, e1, h1) = >>=-eq-ok (read_u32 bytes 0) _ h0 in
    let (o, e2, h2) = >>=-eq-ok (read_u32 bytes 4) _ h1 in
    let (_, e3, h3) =
      >>=-eq-ok
        (require (p == envelope_fixed_size)
          "TransactionEnvelope: payload offset must equal the fixed-part size")
        _ h2 in
    let (_, e4, h4) =
      >>=-eq-ok
        (require (not (ltb o p || ltb (length bytes) o))
          "TransactionEnvelope: authorizations offset must point into the variable section")
        _ h3 in
    let (payload, e5, h5) = >>=-eq-ok (decode_payload (take (o - p) (drop p bytes))) _ h4 in
    let (auths, e6, h6) = >>=-eq-ok (decode_authorization_list (drop o bytes)) _ h5 in
    let fixed : p ≡ envelope_fixed_size = (==_iff _ _).0 (require-eq-ok _ _ e3) in
    let same : record { payload = payload; authorizations = auths } ≡ e = ok-injective h6 in
    rw (← same) (
      decode_envelope_at bytes payload auths p o bs small fixed e1 e2
        (require-eq-ok (not (ltb o p || ltb (length bytes) o)) _ e4) e5 e6)

-- Whatever bytes the envelope decoder accepts, fewer than `usize` can count, are the one encoding of
-- the envelope that it returns, and that envelope is in the range of Rust's types.
pub encode_envelope-decode_envelope :
    (bytes : Bytes) (e : TransactionEnvelope)
    → All IsByte bytes
    → length bytes < usize_mod
    → decode_envelope bytes ≡ ok e
    → (encode_envelope e ≡ ok bytes) × EnvelopeIsValid e
encode_envelope-decode_envelope bytes e bs small h =
    let (layout, f, valid) = decode_envelope-inv bytes e bs small h in
    (encode_envelope-layout e f ∙ ap ok (sym layout), valid)

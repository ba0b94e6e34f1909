-- ===== src/Primitives/Codec/RoundTrip.antt =====
-- Payloads there and back: `encode_payload` and `decode_payload` are inverse to one another.
use shell_chain_specs.Common.{
  ℕ, ◌≡◌, ◌⊎◌, refl, sym, ap, ◌∙◌, inl, inr, [], ◌∷◌, Bytes, IsByte, All, Result, ok, err, ◌>>=◌,
  ok-injective, map_ok, arith,
}
use shell_chain_specs.Primitives.Types.{
  TransactionPayload, basic, create, tag_basic, tag_create, ensure_supported_tag, PayloadIsValid,
}
use shell_chain_specs.Primitives.Codec.{encode_payload, decode_payload, decode_basic, decode_create}
use shell_chain_specs.Primitives.Codec.Layout.{
  basic_layout, create_layout, encode_basic-layout, encode_create-layout, decode_basic-layout,
  decode_create-layout,
}
use shell_chain_specs.Primitives.Codec.Inverse.{decode_basic-inv, decode_create-inv}

-- The tag byte, then the fields.
abbrev pub payload_layout : TransactionPayload → Bytes
payload_layout (basic p) = tag_basic ∷ basic_layout p
payload_layout (create p) = tag_create ∷ create_layout p

pub encode_payload-layout : (p : TransactionPayload) → encode_payload p ≡ ok (payload_layout p)
unfolding encode_payload
encode_payload-layout (basic p) = ap ok (encode_basic-layout p (tag_basic ∷ []))
encode_payload-layout (create p) = ap ok (encode_create-layout p (tag_create ∷ []))

pub decode_payload-layout :
    (p : TransactionPayload) → PayloadIsValid p → decode_payload (payload_layout p) ≡ ok p
unfolding decode_payload ensure_supported_tag
decode_payload-layout (basic p) v = rw (decode_basic-layout p v)
decode_payload-layout (create p) v = rw (decode_create-layout p v)

-- Every payload that Rust's types allow is encoded, and the decoder reads the same payload back.
pub decode_payload-encode_payload :
    (p : TransactionPayload) → PayloadIsValid p → (encode_payload p >>= decode_payload) ≡ ok p
decode_payload-encode_payload p v = rw (encode_payload-layout p) (decode_payload-layout p v)

decode_tag :
    (tag : ℕ) (inner : Bytes) (p : TransactionPayload)
    → decode_payload (tag ∷ inner) ≡ ok p
    → ((tag ≡ tag_basic) × (map_ok basic (decode_basic inner) ≡ ok p))
      ⊎ ((tag ≡ tag_create) × (map_ok create (decode_create inner) ≡ ok p))
unfolding decode_payload ensure_supported_tag
decode_tag tag inner p h = ground arith

map_ok-eq-ok {ℓ κ ι} :
    {A : Type ℓ} {B : Type κ} {E : Type ι} (f : A → B) (m : Result A E) {b : B}
    → map_ok f m ≡ ok b
    → (a : A) × (m ≡ ok a) × (f a ≡ b)
map_ok-eq-ok f (ok a) h = (a, refl, ok-injective h)
map_ok-eq-ok f (err e) h = cc

pub decode_payload-inv :
    (bytes : Bytes) (p : TransactionPayload)
    → All IsByte bytes
    → decode_payload bytes ≡ ok p
    → (bytes ≡ payload_layout p) × PayloadIsValid p
decode_payload-inv [] p bs h = unfold decode_payload in cc
decode_payload-inv (tag ∷ inner) p bs h = elim (decode_tag tag inner p h) [
  | inl (t, e) ↦
      let (q, found, same) = map_ok-eq-ok basic (decode_basic inner) e in
      let (layout, valid) = decode_basic-inv inner q bs.1 found in
      rw (← same, t, ← layout) (refl, valid)
  | inr (t, e) ↦
      let (q, found, same) = map_ok-eq-ok create (decode_create inner) e in
      let (layout, valid) = decode_create-inv inner q bs.1 found in
      rw (← same, t, ← layout) (refl, valid)
]

-- Whatever bytes the decoder accepts are the one encoding of the payload that it returns, and that
-- payload is in the range of Rust's types: the wire format has no second spelling of a payload.
pub encode_payload-decode_payload :
    (bytes : Bytes) (p : TransactionPayload)
    → All IsByte bytes
    → decode_payload bytes ≡ ok p
    → (encode_payload p ≡ ok bytes) × PayloadIsValid p
encode_payload-decode_payload bytes p bs h =
    let (layout, valid) = decode_payload-inv bytes p bs h in
    (encode_payload-layout p ∙ ap ok (sym layout), valid)

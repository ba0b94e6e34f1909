-- ===== src/Primitives/Codec/Layout.antt =====
-- Where each field of a payload stands on the wire, and the payload decoders on that layout.
use shell_chain_specs.Common.{
  ℕ, ◌+◌, ◌≤◌, ◌≡◌, refl, ap, ◌∙◌, false, ◌++◌, Bytes, IsByte, All, length, drop, ltb, le→ltb_false,
  ok, >>=-eq-ok, to_le_bytes, arith, length-append, length-to_le_bytes, append_assoc,
}
use shell_chain_specs.Primitives.Types.{
  BasicFeesPerGas, FeesIsValid, BasicTransactionPayload, BasicIsValid, CreateTransactionPayload,
  CreateIsValid,
}
use shell_chain_specs.Primitives.Codec.{
  encode_basic, encode_create, read_bytes32, read_fees, decode_basic, decode_create,
  basic_fixed_size, create_fixed_size,
}
use shell_chain_specs.Primitives.Codec.Read.{
  read_bytes32-At, read_address-At, read_u64-At, read_u32-At, At-read_bytes32,
}

abbrev pub fees_then : BasicFeesPerGas → Bytes → Bytes
fees_then f rest = f.regular ++ (f.max_priority_fee_per_gas ++ (f.max_witness_priority_fee ++ rest))

-- The fixed part in the order of the field table, then the variable part.
abbrev pub basic_layout : BasicTransactionPayload → Bytes
basic_layout p =
    p.chain_id
    ++ (to_le_bytes 8 p.nonce
        ++ (to_le_bytes 8 p.gas_limit
            ++ fees_then p.fees (
                p.to
                ++ (p.value
                    ++ (to_le_bytes 4 basic_fixed_size ++ (p.access_commitment ++ p.input))))))

abbrev pub create_layout : CreateTransactionPayload → Bytes
create_layout p =
    p.chain_id
    ++ (to_le_bytes 8 p.nonce
        ++ (to_le_bytes 8 p.gas_limit
            ++ fees_then p.fees (
                p.value
                ++ (to_le_bytes 4 create_fixed_size ++ (p.access_commitment ++ p.initcode)))))

pub encode_basic-layout :
    (p : BasicTransactionPayload) (out : Bytes) → encode_basic p out ≡ out ++ basic_layout p
unfolding encode_basic
encode_basic-layout p out = simp append_assoc

pub encode_create-layout :
    (p : CreateTransactionPayload) (out : Bytes) → encode_create p out ≡ out ++ create_layout p
unfolding encode_create
encode_create-layout p out = simp append_assoc

module _ (bytes : Bytes) (a : ℕ) where
  pub read_fees-At :
      (f : BasicFeesPerGas) (rest : Bytes)
      → drop a bytes ≡ fees_then f rest
      → FeesIsValid f
      → (read_fees bytes a ≡ ok f) × (drop (a + 96) bytes ≡ rest)
  unfolding read_fees
  read_fees-At f rest at v =
      let (r1, d1) = read_bytes32-At bytes a _ at v.regular in
      let (r2, d2) = read_bytes32-At bytes (a + 32) _ d1 v.priority in
      let second : a + 32 + 32 ≡ a + 64 = omega arith in
      let (r3, d3) = read_bytes32-At bytes (a + 64) _ (rw second at d2) v.witness in
      let third : a + 64 + 32 ≡ a + 96 = omega arith in (rw (r1, r2, r3), rw third at d3)

  pub At-read_fees :
      All IsByte bytes
      → (f : BasicFeesPerGas) → read_fees bytes a ≡ ok f
      → (drop a bytes ≡ fees_then f (drop (a + 96) bytes)) × FeesIsValid f
  unfolding read_fees
  At-read_fees bs f h =
      let (x1, e1, h1) = >>=-eq-ok (read_bytes32 bytes a) _ h in
      let (x2, e2, h2) = >>=-eq-ok (read_bytes32 bytes (a + 32)) _ h1 in
      let (x3, e3, h3) = >>=-eq-ok (read_bytes32 bytes (a + 64)) _ h2 in
      let (at1, v1) = At-read_bytes32 bytes bs a e1 in
      let (at2, v2) = At-read_bytes32 bytes bs (a + 32) e2 in
      let (at3, v3) = At-read_bytes32 bytes bs (a + 64) e3 in
      let second : a + 32 + 32 ≡ a + 64 = omega arith in
      let third : a + 64 + 32 ≡ a + 96 = omega arith in
      let f1 : x1 ≡ f.regular = ground arith in
      let f2 : x2 ≡ f.max_priority_fee_per_gas = ground arith in
      let f3 : x3 ≡ f.max_witness_priority_fee = ground arith in
      (
        rw (← f1, ← f2, ← f3)
            (at1
              ∙ ap (◌++◌ x1) (
                  at2
                  ∙ ap (◌++◌ x2) (
                      ap (λ (k : ℕ). drop k bytes) second
                      ∙ at3
                      ∙ ap (λ (k : ℕ). x3 ++ drop k bytes) third))),
        record { regular = rw f1 at v1; priority = rw f2 at v2; witness = rw f3 at v3 },
      )

length-basic_layout :
    (p : BasicTransactionPayload) → BasicIsValid p → basic_fixed_size ≤ length (basic_layout p)
length-basic_layout p v = simp (length-append, length-to_le_bytes) (omega arith)

length-create_layout :
    (p : CreateTransactionPayload) → CreateIsValid p → create_fixed_size ≤ length (create_layout p)
length-create_layout p v = simp (length-append, length-to_le_bytes) (omega arith)

pub decode_basic-layout :
    (p : BasicTransactionPayload) → BasicIsValid p → decode_basic (basic_layout p) ≡ ok p
unfolding decode_basic
decode_basic-layout p v =
    let bytes = basic_layout p in
    let (r1, d1) = read_bytes32-At bytes 0 _ refl v.chain_id in
    let (r2, d2) = read_u64-At bytes 32 _ d1 v.nonce in
    let (r3, d3) = read_u64-At bytes 40 _ d2 v.gas_limit in
    let (r4, d4) = read_fees-At bytes 48 p.fees _ d3 v.fees in
    let (r5, d5) = read_address-At bytes 144 _ d4 v.to in
    let (r6, d6) = read_bytes32-At bytes 164 _ d5 v.value in
    let (r7, d7) = read_u32-At bytes 196 _ d6 (omega arith) in
    let (r8, d8) = read_bytes32-At bytes 200 _ d7 v.access_commitment in
    let long : ltb (length bytes) basic_fixed_size ≡ false =
      le→ltb_false _ _ (length-basic_layout p v) in
    rw (long, r1, r2, r3, r4, r5, r6, r7, r8, d8)

pub decode_create-layout :
    (p : CreateTransactionPayload) → CreateIsValid p → decode_create (create_layout p) ≡ ok p
unfolding decode_create
decode_create-layout p v =
    let bytes = create_layout p in
    let (r1, d1) = read_bytes32-At bytes 0 _ refl v.chain_id in
    let (r2, d2) = read_u64-At bytes 32 _ d1 v.nonce in
    let (r3, d3) = read_u64-At bytes 40 _ d2 v.gas_limit in
    let (r4, d4) = read_fees-At bytes 48 p.fees _ d3 v.fees in
    let (r5, d5) = read_bytes32-At bytes 144 _ d4 v.value in
    let (r6, d6) = read_u32-At bytes 176 _ d5 (omega arith) in
    let (r7, d7) = read_bytes32-At bytes 180 _ d6 v.access_commitment in
    let long : ltb (length bytes) create_fixed_size ≡ false =
      le→ltb_false _ _ (length-create_layout p v) in
    rw (long, r1, r2, r3, r4, r5, r6, r7, d7)

-- ===== src/Primitives/Codec/Inverse.antt =====
-- The payload decoders accept no bytes but a payload's own layout.
use shell_chain_specs.Common.{
  ◌≡◌, refl, true, false, not, Bytes, IsByte, All, length, drop, ltb, ◌==◌, ==_iff, ok, >>=-eq-ok,
  ok-injective, All-drop, Bool, String,
}
use shell_chain_specs.Primitives.Types.{
  BasicTransactionPayload, BasicIsValid, CreateTransactionPayload, CreateIsValid,
}
use shell_chain_specs.Primitives.Codec.{
  read_u64, read_u32, read_bytes32, read_address, read_fees, decode_basic, decode_create,
  basic_fixed_size, create_fixed_size, require,
}
use shell_chain_specs.Primitives.Codec.Read.{
  At-read_bytes32, At-read_address, At-read_u64, At-read_u32,
}
use shell_chain_specs.Primitives.Codec.Layout.{basic_layout, create_layout, At-read_fees}

pub require-eq-ok :
    (b : Bool) (context : String) {a : Unit {0}} → require b context ≡ ok a → b ≡ true
require-eq-ok true context h = refl
require-eq-ok false context h = cc

pub decode_basic-inv :
    (bytes : Bytes) (p : BasicTransactionPayload)
    → All IsByte bytes
    → decode_basic bytes ≡ ok p
    → (bytes ≡ basic_layout p) × BasicIsValid p
unfolding decode_basic
decode_basic-inv bytes p bs h =
    let (_, e0, h0) =
      >>=-eq-ok
        (require (not (ltb (length bytes) basic_fixed_size))
          "BasicTransactionPayload too short for fixed fields")
        _ h in
    let (chain_id, e1, h1) = >>=-eq-ok (read_bytes32 bytes 0) _ h0 in
    let (nonce, e2, h2) = >>=-eq-ok (read_u64 bytes 32) _ h1 in
    let (gas_limit, e3, h3) = >>=-eq-ok (read_u64 bytes 40) _ h2 in
    let (fees, e4, h4) = >>=-eq-ok (read_fees bytes 48) _ h3 in
    let (to, e5, h5) = >>=-eq-ok (read_address bytes 144) _ h4 in
    let (value, e6, h6) = >>=-eq-ok (read_bytes32 bytes 164) _ h5 in
    let (offset, e7, h7) = >>=-eq-ok (read_u32 bytes 196) _ h6 in
    let (access, e8, h8) = >>=-eq-ok (read_bytes32 bytes 200) _ h7 in
    let (_, e9, h9) =
      >>=-eq-ok
        (require (offset == basic_fixed_size)
          "BasicTransactionPayload: input offset must equal the fixed-part size")
        _ h8 in
    let fixed : offset ≡ basic_fixed_size = (==_iff _ _).0 (require-eq-ok _ _ e9) in
    let (at1, v1) = At-read_bytes32 bytes bs 0 e1 in
    let (at2, v2) = At-read_u64 bytes bs 32 e2 in
    let (at3, v3) = At-read_u64 bytes bs 40 e3 in
    let (at4, v4) = At-read_fees bytes 48 bs fees e4 in
    let (at5, v5) = At-read_address bytes bs 144 e5 in
    let (at6, v6) = At-read_bytes32 bytes bs 164 e6 in
    let (at7, v7) = At-read_u32 bytes bs 196 (rw fixed at e7) in
    let (at8, v8) = At-read_bytes32 bytes bs 200 e8 in
    let q : BasicTransactionPayload = record {
      chain_id = chain_id;
      nonce = nonce;
      gas_limit = gas_limit;
      fees = fees;
      to = to;
      value = value;
      input = drop basic_fixed_size bytes;
      access_commitment = access;
    } in
    let same : q ≡ p = ok-injective h9 in
    let layout : bytes ≡ basic_layout q =
      rw (← at8, ← at7, ← at6, ← at5, ← at4, ← at3, ← at2) at1 in
    let valid : BasicIsValid q = record {
      chain_id = v1;
      nonce = v2;
      gas_limit = v3;
      fees = v4;
      to = v5;
      value = v6;
      input = All-drop IsByte basic_fixed_size bytes bs;
      access_commitment = v8;
    } in
    rw (← same) (layout, valid)

pub decode_create-inv :
    (bytes : Bytes) (p : CreateTransactionPayload)
    → All IsByte bytes
    → decode_create bytes ≡ ok p
    → (bytes ≡ create_layout p) × CreateIsValid p
unfolding decode_create
decode_create-inv bytes p bs h =
    let (_, e0, h0) =
      >>=-eq-ok
        (require (not (ltb (length bytes) create_fixed_size))
          "CreateTransactionPayload too short for fixed fields")
        _ h in
    let (chain_id, e1, h1) = >>=-eq-ok (read_bytes32 bytes 0) _ h0 in
    let (nonce, e2, h2) = >>=-eq-ok (read_u64 bytes 32) _ h1 in
    let (gas_limit, e3, h3) = >>=-eq-ok (read_u64 bytes 40) _ h2 in
    let (fees, e4, h4) = >>=-eq-ok (read_fees bytes 48) _ h3 in
    let (value, e5, h5) = >>=-eq-ok (read_bytes32 bytes 144) _ h4 in
    let (offset, e6, h6) = >>=-eq-ok (read_u32 bytes 176) _ h5 in
    let (access, e7, h7) = >>=-eq-ok (read_bytes32 bytes 180) _ h6 in
    let (_, e8, h8) =
      >>=-eq-ok
        (require (offset == create_fixed_size)
          "CreateTransactionPayload: initcode offset must equal the fixed-part size")
        _ h7 in
    let fixed : offset ≡ create_fixed_size = (==_iff _ _).0 (require-eq-ok _ _ e8) in
    let (at1, v1) = At-read_bytes32 bytes bs 0 e1 in
    let (at2, v2) = At-read_u64 bytes bs 32 e2 in
    let (at3, v3) = At-read_u64 bytes bs 40 e3 in
    let (at4, v4) = At-read_fees bytes 48 bs fees e4 in
    let (at5, v5) = At-read_bytes32 bytes bs 144 e5 in
    let (at6, v6) = At-read_u32 bytes bs 176 (rw fixed at e6) in
    let (at7, v7) = At-read_bytes32 bytes bs 180 e7 in
    let q : CreateTransactionPayload = record {
      chain_id = chain_id;
      nonce = nonce;
      gas_limit = gas_limit;
      fees = fees;
      value = value;
      initcode = drop create_fixed_size bytes;
      access_commitment = access;
    } in
    let same : q ≡ p = ok-injective h8 in
    let layout : bytes ≡ create_layout q = rw (← at7, ← at6, ← at5, ← at4, ← at3, ← at2) at1 in
    let valid : CreateIsValid q = record {
      chain_id = v1;
      nonce = v2;
      gas_limit = v3;
      fees = v4;
      value = v5;
      initcode = All-drop IsByte create_fixed_size bytes bs;
      access_commitment = v7;
    } in
    rw (← same) (layout, valid)

-- ===== src/Primitives/EnvelopeCodec/Offsets.antt =====
-- The layout of one authorization and of a list of them: a table of offsets, then the bodies.
use shell_chain_specs.Common.{
  ℕ, suc, ◌+◌, ◌*◌, ◌^◌, ◌≤◌, ◌<◌, ◌≡◌, refl, sym, ap, ◌∙◌, false, not, List, [], ◌∷◌, ◌++◌, Bytes,
  IsByte, All, length, drop, concat, ltb, le→ltb_false, lt→ltb, ◌==◌, ==_iff, ok, >>=-eq-ok,
  ok-injective, ok_or, ok_or-eq-ok, some, to_le_bytes, arith, length-append, length-to_le_bytes,
  append_assoc, append-nil, All-drop,
}
use shell_chain_specs.Primitives.Types.{Authorization, AuthorizationIsValid}
use shell_chain_specs.Primitives.Codec.{require, authorization_fixed_size, read_u32, read_bytes32}
use shell_chain_specs.Primitives.Codec.Read.{
  read_bytes32-At, read_u32-At, At-read_bytes32, At-read_u32,
}
use shell_chain_specs.Primitives.Codec.Inverse.{require-eq-ok}
use shell_chain_specs.Primitives.EnvelopeCodec.{
  usize_mod, checked_add, u32_try_from, encode_authorization, first_byte, decode_authorization,
  encode_list_loop,
}

abbrev pub authorization_layout : Authorization → Bytes
authorization_layout a =
    a.scheme_id ∷ (a.payload_root ++ (to_le_bytes 4 authorization_fixed_size ++ a.signature))

pub encode_authorization-layout :
    (a : Authorization) → encode_authorization a ≡ ok (authorization_layout a)
unfolding encode_authorization
encode_authorization-layout a = simp append_assoc

pub length-authorization_layout :
    (a : Authorization)
    → AuthorizationIsValid a
    → authorization_fixed_size ≤ length (authorization_layout a)
length-authorization_layout a v = simp (length-append, length-to_le_bytes) (omega arith)

pub decode_authorization-layout :
    (a : Authorization)
    → AuthorizationIsValid a
    → decode_authorization (authorization_layout a) ≡ ok a
unfolding decode_authorization
decode_authorization-layout a v =
    let bytes = authorization_layout a in
    let (r1, d1) = read_bytes32-At bytes 1 _ refl v.payload_root in
    let (r2, d2) = read_u32-At bytes 33 _ d1 (omega arith) in
    let long : ltb (length bytes) authorization_fixed_size ≡ false =
      le→ltb_false _ _ (length-authorization_layout a v) in
    rw (long, r1, r2, d2)

first_byte-drop : (bytes : Bytes) → 0 < length bytes → bytes ≡ first_byte bytes ∷ drop 1 bytes
unfolding first_byte
first_byte-drop [] h = absurd (omega arith)
first_byte-drop (b ∷ bytes) h = refl

first_byte-IsByte : (bytes : Bytes) → All IsByte bytes → IsByte (first_byte bytes)
unfolding first_byte
first_byte-IsByte [] h = omega arith
first_byte-IsByte (b ∷ bytes) h = h.0

pub decode_authorization-inv :
    (bytes : Bytes) (a : Authorization)
    → All IsByte bytes
    → decode_authorization bytes ≡ ok a
    → (bytes ≡ authorization_layout a) × AuthorizationIsValid a
unfolding decode_authorization
decode_authorization-inv bytes a bs h =
    let (_, e0, h0) =
      >>=-eq-ok
        (require (not (ltb (length bytes) authorization_fixed_size))
          "Authorization too short for fixed fields")
        _ h in
    let (payload_root, e1, h1) = >>=-eq-ok (read_bytes32 bytes 1) _ h0 in
    let (offset, e2, h2) = >>=-eq-ok (read_u32 bytes 33) _ h1 in
    let (_, e3, h3) =
      >>=-eq-ok
        (require (offset == authorization_fixed_size)
          "Authorization: signature offset must equal the fixed-part size")
        _ h2 in
    let fixed : offset ≡ authorization_fixed_size = (==_iff _ _).0 (require-eq-ok _ _ e3) in
    let long = require-eq-ok (not (ltb (length bytes) authorization_fixed_size)) _ e0 in
    let some_byte : 0 < length bytes = ground arith in
    let (at1, v1) = At-read_bytes32 bytes bs 1 e1 in
    let (at2, v2) = At-read_u32 bytes bs 33 (rw fixed at e2) in
    let q : Authorization = record {
      scheme_id = first_byte bytes;
      payload_root = payload_root;
      signature = drop authorization_fixed_size bytes;
    } in
    let same : q ≡ a = ok-injective h3 in
    let layout : bytes ≡ authorization_layout q =
      first_byte-drop bytes some_byte
      ∙ ap (◌∷◌ (first_byte bytes)) (at1 ∙ ap (◌++◌ payload_root) at2) in
    let valid : AuthorizationIsValid q = record {
      scheme_id = first_byte-IsByte bytes bs;
      payload_root = v1;
      signature = All-drop IsByte authorization_fixed_size bytes bs;
    } in
    rw (← same) (layout, valid)

-- The offsets of the bodies, the first of which stands at `next`.
abbrev pub offsets : ℕ → List Authorization → List ℕ
offsets next [] = []
offsets next (a ∷ auths) = next ∷ offsets (next + length (authorization_layout a)) auths

abbrev pub table : List ℕ → Bytes
table [] = []
table (o ∷ os) = to_le_bytes 4 o ++ table os

abbrev pub body : List Authorization → Bytes
body [] = []
body (a ∷ auths) = authorization_layout a ++ body auths

pub length-offsets :
    (next : ℕ) (auths : List Authorization) → length (offsets next auths) ≡ length auths
length-offsets next [] = refl
length-offsets next (a ∷ auths) =
    ap suc (length-offsets (next + length (authorization_layout a)) auths)

pub length-table : (os : List ℕ) → length (table os) ≡ 4 * length os
length-table [] = omega arith
length-table (o ∷ os) =
    omega
      (arith, length-append (to_le_bytes 4 o) (table os), length-to_le_bytes 4 o, length-table os)

-- Each body begins at or after the first offset and within the whole.
pub offsets_bounds :
    (lo hi next : ℕ) (auths : List Authorization)
    → lo ≤ next
    → next + length (body auths) ≤ hi
    → All (λ o. (lo ≤ o) × (o ≤ hi)) (offsets next auths)
offsets_bounds lo hi next [] p q = tt
offsets_bounds lo hi next (a ∷ auths) p q =
    let len = length-append (authorization_layout a) (body auths) in
    (
      omega arith,
      offsets_bounds lo hi (next + length (authorization_layout a)) auths (omega arith)
          (omega arith),
    )

abbrev pub Small : ℕ → Type 0
Small o = o < 2 ^ 32

concat-append : (xs : List Bytes) (x : Bytes) → concat (xs ++ x ∷ []) ≡ concat xs ++ x
concat-append [] x = append-nil x
concat-append (y ∷ xs) x = rw (concat-append xs x) (sym (append_assoc y (concat xs) x))

pub encode_list_loop-layout :
    (auths : List Authorization) (next : ℕ) (out : Bytes) (parts : List Bytes)
    → All Small (offsets next auths)
    → next + length (body auths) < usize_mod
    → encode_list_loop auths next out parts
      ≡ ok (out ++ (table (offsets next auths) ++ (concat parts ++ body auths)))
unfolding encode_list_loop u32_try_from checked_add
encode_list_loop-layout [] next out parts small fits = rw append-nil
encode_list_loop-layout (a ∷ auths) next out parts small fits =
    let len = length-append (authorization_layout a) (body auths) in
    rw
      (
        encode_authorization-layout a,
        lt→ltb next (2 ^ 32) small.0,
        lt→ltb (next + length (authorization_layout a)) usize_mod (omega arith),
        encode_list_loop-layout auths (next + length (authorization_layout a)) _ _ small.1
            (omega arith),
        concat-append parts (authorization_layout a),
      )
      (simp append_assoc)

pub u32_try_from-eq-some : (v : ℕ) {r : ℕ} → u32_try_from v ≡ some r → (v < 2 ^ 32) × (r ≡ v)
unfolding u32_try_from
u32_try_from-eq-some v h = ground arith

pub checked_add-eq-some :
    (a b : ℕ) {r : ℕ} → checked_add a b ≡ some r → (a + b < usize_mod) × (r ≡ a + b)
unfolding checked_add
checked_add-eq-some a b h = ground arith

pub encode_list_loop-inv :
    (auths : List Authorization) (next : ℕ) (out r : Bytes) (parts : List Bytes)
    → encode_list_loop auths next out parts ≡ ok r
    → next < usize_mod
    → All Small (offsets next auths) × (next + length (body auths) < usize_mod)
unfolding encode_list_loop
encode_list_loop-inv [] next out r parts h fits = (tt, omega arith)
encode_list_loop-inv (a ∷ auths) next out r parts h fits =
    let (encoded, e1, h1) = >>=-eq-ok (encode_authorization a) _ h in
    let (offset, e2, h2) = >>=-eq-ok (ok_or (u32_try_from next) _) _ h1 in
    let (after, e3, h3) = >>=-eq-ok (ok_or (checked_add next (length encoded)) _) _ h2 in
    let len = length-append (authorization_layout a) (body auths) in
    let same : encoded ≡ authorization_layout a =
      ok-injective (sym e1 ∙ encode_authorization-layout a) in
    let sum : length encoded ≡ length (authorization_layout a) = ap length same in
    let small = u32_try_from-eq-some next (ok_or-eq-ok _ _ e2) in
    let (fits', total) = checked_add-eq-some next (length encoded) (ok_or-eq-ok _ _ e3) in
    let step : after ≡ next + length (authorization_layout a) = omega arith in
    let (smalls, whole) =
      encode_list_loop-inv auths (next + length (authorization_layout a)) _ r _ (rw step at h3)
        (omega arith) in
    ((small.0, smalls), omega arith)

-- ===== src/Primitives/EnvelopeCodec/RoundTrip.antt =====
-- Authorization lists and envelopes there and back.
use shell_chain_specs.Common.{
  ℕ, suc, ◌+◌, ◌*◌, ◌/◌, ◌%◌, ◌≤◌, ◌<◌, ◌≡◌, refl, sym, ap, ap₂, subst, ◌∙◌, true, false, not, ◌||◌,
  List, [], ◌∷◌, ◌++◌, Bytes, IsByte, is_empty, All, length, drop, ltb, lt→ltb, le→ltb_false, ◌==◌,
  ok, >>=-eq-ok, ok-injective, ok_or, ok_or-eq-ok, some, to_le_bytes, arith, length-append,
  append_assoc, length-drop, drop-append, All-map,
}
use shell_chain_specs.Primitives.Types.{Authorization, AuthorizationIsValid}
use shell_chain_specs.Primitives.Codec.{require, read_u32}
use shell_chain_specs.Primitives.Codec.Read.{read_u32-At}
use shell_chain_specs.Primitives.Codec.Inverse.{require-eq-ok}
use shell_chain_specs.Primitives.EnvelopeCodec.{
  usize_mod, checked_mul, encode_authorization_list, read_offsets, next_offset_or, decode_elements,
  decode_nonempty_list, decode_authorization_list,
}
use shell_chain_specs.Primitives.EnvelopeCodec.Offsets.{
  offsets, table, body, Small, length-offsets, length-table, offsets_bounds,
  encode_list_loop-layout, encode_list_loop-inv,
}
use shell_chain_specs.Primitives.EnvelopeCodec.Lists.{
  InRange, read_offsets-table, read_offsets-inv, decode_elements-body, decode_elements-inv,
}

abbrev pub list_layout : List Authorization → Bytes
list_layout auths = table (offsets (length auths * 4) auths) ++ body auths

-- The offsets fit 32 bits, and the whole fits `usize`.
abbrev pub Fits : List Authorization → Type 0
Fits auths =
    All Small (offsets (length auths * 4) auths)
    × (length auths * 4 + length (body auths) < usize_mod)

checked_mul-eq-some :
    (a b : ℕ) {r : ℕ} → checked_mul a b ≡ some r → (a * b < usize_mod) × (r ≡ a * b)
unfolding checked_mul
checked_mul-eq-some a b h = ground arith

pub encode_list-layout :
    (auths : List Authorization)
    → Fits auths
    → encode_authorization_list auths ≡ ok (list_layout auths)
unfolding encode_authorization_list checked_mul
encode_list-layout auths f =
    rw (lt→ltb (length auths * 4) usize_mod (omega arith))
      (encode_list_loop-layout auths (length auths * 4) [] [] f.0 f.1)

pub encode_list-inv :
    (auths : List Authorization) {bytes : Bytes}
    → encode_authorization_list auths ≡ ok bytes
    → Fits auths × (bytes ≡ list_layout auths)
unfolding encode_authorization_list
encode_list-inv auths {bytes} h =
    let (fixed, e1, h1) = >>=-eq-ok (ok_or (checked_mul (length auths) 4) _) _ h in
    let (small, size) = checked_mul-eq-some (length auths) 4 (ok_or-eq-ok _ _ e1) in
    let f : Fits auths =
      encode_list_loop-inv auths (length auths * 4) [] bytes [] (rw size at h1) small in
    (f, ok-injective (sym h ∙ unfold encode_authorization_list in encode_list-layout auths f))

not_empty : (bytes : Bytes) → 0 < length bytes → is_empty bytes ≡ false
not_empty [] h = absurd (omega arith)
not_empty (b ∷ bytes) h = refl

All-zip :
    (bytes : Bytes) (first : ℕ) (os : List ℕ)
    → All Small os
    → All (λ o. (first ≤ o) × (o ≤ length bytes)) os
    → All (InRange bytes first) os
All-zip bytes first [] p q = tt
All-zip bytes first (o ∷ os) p q = ((p.0, q.0.0, q.0.1), All-zip bytes first os p.1 q.1)

length-list_layout :
    (auths : List Authorization)
    → length (list_layout auths) ≡ length auths * 4 + length (body auths)
length-list_layout auths = omega (
  arith,
  length-append (table (offsets (length auths * 4) auths)) (body auths),
  length-table (offsets (length auths * 4) auths),
  length-offsets (length auths * 4) auths,
)

aligned : (n : ℕ) → not (suc n * 4 == 0 || not (suc n * 4 % 4 == 0)) ≡ true
aligned n = ground arith

decode_nonempty_list-layout :
    (a : Authorization) (rest : List Authorization)
    → let auths = a ∷ rest in
      Fits auths
      → All AuthorizationIsValid auths
      → decode_nonempty_list (list_layout auths) ≡ ok auths
unfolding decode_nonempty_list
decode_nonempty_list-layout a rest f v =
    let auths = a ∷ rest in
    let first = length auths * 4 in
    let os = offsets first auths in
    let bytes = list_layout auths in
    let len = length-list_layout auths in
    let (r, _) = read_u32-At bytes 0 _ (append_assoc (to_le_bytes 4 first) _ _) f.0.0 in
    let count : first / 4 ≡ length os = omega (arith, length-offsets first auths) in
    let each : All (InRange bytes first) os =
      All-zip bytes first os f.0
        (offsets_bounds first (length bytes) first auths (omega arith) (omega arith)) in
    let found : read_offsets (length os) bytes first 0 ≡ ok os =
      read_offsets-table os bytes (body auths) first 0 refl each in
    let skip : drop first bytes ≡ body auths =
      drop-append (table os) (body auths) first
        (omega (arith, length-table os, length-offsets first auths)) in
    let done = decode_elements-body auths first bytes skip len v in
    rw (r, aligned (length rest), le→ltb_false (length bytes) first (omega arith), count, found)
      done

pub decode_list-layout :
    (auths : List Authorization)
    → Fits auths
    → All AuthorizationIsValid auths
    → decode_authorization_list (list_layout auths) ≡ ok auths
unfolding decode_authorization_list
decode_list-layout [] f v = refl
decode_list-layout (a ∷ rest) f v =
    rw (not_empty (list_layout (a ∷ rest)) (omega (arith, length-list_layout (a ∷ rest))))
      (decode_nonempty_list-layout a rest f v)

-- If a list of authorizations in the range of Rust's types is encoded at all, the decoder reads the
-- same list back.
pub decode_list-encode_list :
    (auths : List Authorization) (bytes : Bytes)
    → All AuthorizationIsValid auths
    → encode_authorization_list auths ≡ ok bytes
    → decode_authorization_list bytes ≡ ok auths
decode_list-encode_list auths bytes v h =
    let (f, layout) = encode_list-inv auths h in rw layout (decode_list-layout auths f v)

first_inv : (n : ℕ) → not (n == 0 || not (n % 4 == 0)) ≡ true → (0 < n) × (n % 4 ≡ 0)
first_inv n h = ground arith

decode_parts-inv :
    (bytes : Bytes) (auths : List Authorization) (first : ℕ) (os : List ℕ)
    → All IsByte bytes
    → length bytes < usize_mod
    → 0 < first
    → first % 4 ≡ 0
    → read_u32 bytes 0 ≡ ok first
    → read_offsets (first / 4) bytes first 0 ≡ ok os
    → decode_elements os bytes ≡ ok auths
    → (bytes ≡ list_layout auths) × Fits auths × All AuthorizationIsValid auths
unfolding next_offset_or
decode_parts-inv bytes auths first [] bs small pos quad e1 e2 e3 =
    let (len, _, _) = read_offsets-inv (first / 4) bytes first 0 [] bs e2 in absurd (omega arith)
decode_parts-inv bytes auths first (o ∷ os) bs small pos quad e1 e2 e3 =
    let (len, tail, each) = read_offsets-inv (first / 4) bytes first 0 (o ∷ os) bs e2 in
    let at0 = tail ∙ append_assoc (to_le_bytes 4 o) (table os) _ in
    let (r, _) = read_u32-At bytes 0 _ at0 each.0.0 in
    let start : o ≡ first = ok-injective (sym r ∙ e1) in
    let bound = All-map (InRange bytes first) (λ k. k ≤ length bytes) (o ∷ os) (λ k h. h.2) each in
    let (shape, rest, valid, fits) = decode_elements-inv (o ∷ os) bytes auths bs bound e3 in
    let count : length auths * 4 ≡ first = omega (arith, ap length shape, length-offsets o auths) in
    let at_first : o ≡ length auths * 4 = start ∙ sym count in
    let os_shape : o ∷ os ≡ offsets (length auths * 4) auths =
      shape ∙ ap (λ (k : ℕ). offsets k auths) at_first in
    let skip : (0 + first / 4) * 4 ≡ o = omega arith in
    let total : length bytes ≡ o + length (body auths) =
      omega (arith, ap length rest, length-drop o bytes) in
    (
      tail ∙ ap₂ ◌++◌ (ap table os_shape) (ap (λ (k : ℕ). drop k bytes) skip ∙ rest),
      (
        subst (All Small) os_shape (All-map (InRange bytes first) Small (o ∷ os) (λ k h. h.0) each),
        omega arith,
      ),
      valid,
    )

decode_nonempty_list-inv :
    (bytes : Bytes) (auths : List Authorization)
    → All IsByte bytes
    → length bytes < usize_mod
    → decode_nonempty_list bytes ≡ ok auths
    → (bytes ≡ list_layout auths) × Fits auths × All AuthorizationIsValid auths
unfolding decode_nonempty_list
decode_nonempty_list-inv bytes auths bs small h =
    let (first, e1, h1) = >>=-eq-ok (read_u32 bytes 0) _ h in
    let (_, e2, h2) =
      >>=-eq-ok
        (require (not (first == 0 || not (first % 4 == 0)))
          "Authorization list first offset must equal the offset-table size")
        _ h1 in
    let (_, e3, h3) =
      >>=-eq-ok
        (require (not (ltb (length bytes) first))
          "Authorization list offset table extends past the available bytes")
        _ h2 in
    let (os, e4, h4) = >>=-eq-ok (read_offsets (first / 4) bytes first 0) _ h3 in
    let (pos, quad) =
      first_inv first (require-eq-ok (not (first == 0 || not (first % 4 == 0))) _ e2) in
    decode_parts-inv bytes auths first os bs small pos quad e1 e4 h4

pub decode_list-inv :
    (bytes : Bytes) (auths : List Authorization)
    → All IsByte bytes
    → length bytes < usize_mod
    → decode_authorization_list bytes ≡ ok auths
    → (bytes ≡ list_layout auths) × Fits auths × All AuthorizationIsValid auths
unfolding decode_authorization_list
decode_list-inv [] auths bs small h =
    let same : [] ≡ auths = ok-injective h in rw (← same) (refl, (tt, omega arith), tt)
decode_list-inv (b ∷ bytes) auths bs small h = decode_nonempty_list-inv (b ∷ bytes) auths bs small h

-- Whatever bytes the list decoder accepts, fewer than `usize` can count, are the one encoding of the
-- list that it returns, and that list is in the range of Rust's types.
pub encode_list-decode_list :
    (bytes : Bytes) (auths : List Authorization)
    → All IsByte bytes
    → length bytes < usize_mod
    → decode_authorization_list bytes ≡ ok auths
    → (encode_authorization_list auths ≡ ok bytes) × All AuthorizationIsValid auths
encode_list-decode_list bytes auths bs small h =
    let (layout, f, valid) = decode_list-inv bytes auths bs small h in
    (encode_list-layout auths f ∙ ap ok (sym layout), valid)

-- ===== src/Primitives/EnvelopeCodec/Lists.antt =====
-- The loops of `decode_authorization_list` on the layout of a list, and back.
use shell_chain_specs.Common.{
  ℕ, zero, suc, ◌+◌, ◌-◌, ◌*◌, ◌≤◌, ◌≡◌, refl, sym, ap, ap₂, ◌∙◌, true, not, ◌||◌, List, [], ◌∷◌,
  ◌++◌, Bytes, IsByte, All, length, take, drop, ltb, le→ltb_false, ok, >>=-eq-ok, ok-injective,
  to_le_bytes, arith, length-append, append_assoc, Bool, not-ltb, drop-length, length-take,
  length-drop, take-append, drop-append, take-append-drop, drop-drop, All-take, All-drop,
}
use shell_chain_specs.Primitives.Types.{Authorization, AuthorizationIsValid}
use shell_chain_specs.Primitives.Codec.{require, read_u32}
use shell_chain_specs.Primitives.Codec.Read.{read_u32-At, At-read_u32}
use shell_chain_specs.Primitives.Codec.Inverse.{require-eq-ok}
use shell_chain_specs.Primitives.EnvelopeCodec.{
  decode_authorization, read_offsets, next_offset_or, decode_elements,
}
use shell_chain_specs.Primitives.EnvelopeCodec.Offsets.{
  authorization_layout, decode_authorization-layout, decode_authorization-inv, offsets, table, body,
  Small,
}

-- An offset that the first loop lets through.
abbrev pub InRange : Bytes → ℕ → ℕ → Type 0
InRange bytes first o = Small o × (first ≤ o) × (o ≤ length bytes)

abbrev pub test_of : Bytes → ℕ → ℕ → Bool
test_of bytes first o = not (ltb o first || ltb (length bytes) o)

InRange-test : (bytes : Bytes) (first o : ℕ) → InRange bytes first o → test_of bytes first o ≡ true
InRange-test bytes first o h = ground arith

test-InRange :
    (bytes : Bytes) (first o : ℕ) → test_of bytes first o ≡ true → (first ≤ o) × (o ≤ length bytes)
test-InRange bytes first o h = ground arith

pub read_offsets-table :
    (os : List ℕ) (bytes rest : Bytes) (first index : ℕ)
    → drop (index * 4) bytes ≡ table os ++ rest
    → All (InRange bytes first) os
    → read_offsets (length os) bytes first index ≡ ok os
unfolding read_offsets
read_offsets-table [] bytes rest first index at h = refl
read_offsets-table (o ∷ os) bytes rest first index at h =
    let at' = at ∙ append_assoc (to_le_bytes 4 o) (table os) rest in
    let (r, d) = read_u32-At bytes (index * 4) _ at' h.0.0 in
    let next : index * 4 + 4 ≡ (index + 1) * 4 = omega arith in
    rw (
      r,
      InRange-test bytes first o h.0,
      read_offsets-table os bytes rest first (index + 1) (rw next at d) h.1,
    )

pub read_offsets-inv :
    (left : ℕ) (bytes : Bytes) (first index : ℕ) (os : List ℕ)
    → All IsByte bytes
    → read_offsets left bytes first index ≡ ok os
    → (length os ≡ left)
      × (drop (index * 4) bytes ≡ table os ++ drop ((index + left) * 4) bytes)
      × All (InRange bytes first) os
unfolding read_offsets
read_offsets-inv zero bytes first index os bs h =
    let same : [] ≡ os = ok-injective h in
    rw (← same) (refl, ap (λ (k : ℕ). drop k bytes) (omega arith), tt)
read_offsets-inv (suc left) bytes first index os bs h =
    let (o, e1, h1) = >>=-eq-ok (read_u32 bytes (index * 4)) _ h in
    let (_, e2, h2) =
      >>=-eq-ok
        (require (test_of bytes first o)
          "Authorization list element offset points outside the variable section")
        _ h1 in
    let (rest, e3, h3) = >>=-eq-ok (read_offsets left bytes first (index + 1)) _ h2 in
    let (at, small) = At-read_u32 bytes bs (index * 4) e1 in
    let (len, tail, each) = read_offsets-inv left bytes first (index + 1) rest bs e3 in
    let (low, high) = test-InRange bytes first o (require-eq-ok (test_of bytes first o) _ e2) in
    let next : index * 4 + 4 ≡ (index + 1) * 4 = omega arith in
    let last : (index + 1 + left) * 4 ≡ (index + suc left) * 4 = omega arith in
    let same : o ∷ rest ≡ os = ok-injective h3 in
    rw (← same) (
      ap suc len,
      at
          ∙ ap (◌++◌ (to_le_bytes 4 o)) (rw (next, tail, last))
          ∙ sym (append_assoc (to_le_bytes 4 o) (table rest) _),
      ((small, low, high), each),
    )

next_offset_or-offsets :
    (next : ℕ) (auths : List Authorization)
    → next_offset_or (offsets next auths) (next + length (body auths)) ≡ next
unfolding next_offset_or
next_offset_or-offsets next [] = omega arith
next_offset_or-offsets next (a ∷ auths) = refl

pub decode_elements-body :
    (auths : List Authorization) (next : ℕ) (bytes : Bytes)
    → drop next bytes ≡ body auths
    → length bytes ≡ next + length (body auths)
    → All AuthorizationIsValid auths
    → decode_elements (offsets next auths) bytes ≡ ok auths
unfolding decode_elements
decode_elements-body [] next bytes at len v = refl
decode_elements-body (a ∷ auths) next bytes at len v =
    let first = authorization_layout a in
    let sum = length-append first (body auths) in
    let whole : length bytes ≡ next + length first + length (body auths) = omega arith in
    let ends : next_offset_or (offsets (next + length first) auths) (length bytes)
        ≡ next + length first =
      rw whole (next_offset_or-offsets (next + length first) auths) in
    let size : next + length first - next ≡ length first = omega arith in
    let after : drop (next + length first) bytes ≡ body auths =
      sym (drop-drop next (length first) _ bytes refl)
      ∙ ap (drop (length first)) at
      ∙ drop-append first (body auths) _ refl in
    rw (
      ends,
      le→ltb_false (next + length first) next (omega arith),
      size,
      at,
      take-append first (body auths) _ refl,
      decode_authorization-layout a v.0,
      decode_elements-body auths (next + length first) bytes after whole v.1,
    )

pub decode_elements-inv :
    (os : List ℕ) (bytes : Bytes) (auths : List Authorization)
    → All IsByte bytes
    → All (λ o. o ≤ length bytes) os
    → decode_elements os bytes ≡ ok auths
    → let start = next_offset_or os (length bytes) in
      (os ≡ offsets start auths)
      × (drop start bytes ≡ body auths)
      × All AuthorizationIsValid auths
      × (start ≤ length bytes)
unfolding decode_elements
decode_elements-inv [] bytes auths bs bound h =
    let same : [] ≡ auths = ok-injective h in rw (← same) (refl, drop-length bytes, tt, omega arith)
decode_elements-inv (o ∷ os) bytes auths bs bound h =
    let end = next_offset_or os (length bytes) in
    let part = take (end - o) (drop o bytes) in
    let (_, e1, h1) =
      >>=-eq-ok (require (not (ltb end o)) "Authorization list element offsets must be monotonic") _
        h in
    let (a, e2, h2) = >>=-eq-ok (decode_authorization part) _ h1 in
    let (rest, e3, h3) = >>=-eq-ok (decode_elements os bytes) _ h2 in
    let (shape, tail, valid, fits) = decode_elements-inv os bytes rest bs bound.1 e3 in
    let (layout, v) =
      decode_authorization-inv part a (All-take IsByte (end - o) _ (All-drop IsByte o bytes bs))
        e2 in
    let order : o ≤ end = not-ltb end o (require-eq-ok (not (ltb end o)) _ e1) in
    let size : length (authorization_layout a) ≡ end - o =
      sym (ap length layout)
      ∙ omega (arith, length-take (end - o) (drop o bytes), length-drop o bytes) in
    let ends : end ≡ o + length (authorization_layout a) = omega arith in
    let same : a ∷ rest ≡ auths = ok-injective h3 in
    let cut : drop o bytes ≡ authorization_layout a ++ body rest =
      sym (take-append-drop (end - o) (drop o bytes))
      ∙ ap₂ ◌++◌ layout (drop-drop o (end - o) end bytes (omega arith) ∙ tail) in
    rw (← same) (ap (◌∷◌ o) (shape ∙ ap (λ (k : ℕ). offsets k rest) ends), cut, (v, valid), bound.0)

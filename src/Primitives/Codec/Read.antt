-- ===== src/Primitives/Codec/Read.antt =====
-- The readers of codec.rs, field by field. `drop a bytes ≡ x ++ rest` says that `x` stands at
-- offset `a`; a reader that meets it there succeeds, and a reader that succeeds has met it.
use shell_chain_specs.Common.{
  ℕ, ◌+◌, ◌-◌, ◌^◌, ◌≤◌, ◌<◌, ◌≡◌, refl, sym, ap, ◌∙◌, inl, inr, some, ◌++◌, Bytes, IsByte, IsArray,
  All, length, take, drop, le→leb, ok, to_le_bytes, from_le_bytes, arith, length-append,
  length-drop, length-take, take-append, drop-append, drop-drop, take-append-drop,
  length-to_le_bytes, Option-cases, from_le_bytes-lt, from_le_bytes-to_le_bytes,
  to_le_bytes-from_le_bytes, All-take, All-drop,
}
use shell_chain_specs.Primitives.Codec.{slice, read_u64, read_u32, read_bytes32, read_address}

abbrev At : Bytes → ℕ → Bytes → Bytes → Type 0
At bytes a x rest = drop a bytes ≡ x ++ rest

module _ (bytes : Bytes) (a : ℕ) (x rest : Bytes) where
  pub At-next : (n k : ℕ) → At bytes a x rest → length x ≡ n → a + n ≡ k → drop k bytes ≡ rest
  At-next n k at len e = sym (drop-drop a n k bytes e) ∙ ap (drop n) at ∙ drop-append x rest n len

  pub slice-At :
      (n k : ℕ) → At bytes a x rest → length x ≡ n → 0 < n → a + n ≡ k → slice bytes a k ≡ some x
  unfolding slice
  slice-At n k at len pos e =
      let room : k ≤ length bytes =
        omega (arith, length-drop a bytes, ap length at, length-append x rest) in
      let size : k - a ≡ n = omega arith in
      rw (le→leb a k (omega arith), le→leb k (length bytes) room, size, at)
        (ap some (take-append x rest n len))

slice_fits :
    (bytes x : Bytes) (a k : ℕ)
    → slice bytes a k ≡ some x
    → (k ≤ length bytes) × (x ≡ take (k - a) (drop a bytes))
unfolding slice
slice_fits bytes x a k h = ground arith

pub At-slice :
    (bytes x : Bytes) (a n k : ℕ)
    → slice bytes a k ≡ some x
    → a + n ≡ k
    → At bytes a x (drop k bytes) × (length x ≡ n) × (x ≡ take n (drop a bytes))
At-slice bytes x a n k h e =
    let (fits, cut) = slice_fits bytes x a k h in
    let size : k - a ≡ n = omega arith in
    let cut' : x ≡ take n (drop a bytes) = rw size at cut in
    (
      rw cut' (
          sym (take-append-drop n (drop a bytes))
          ∙ ap (◌++◌ (take n (drop a bytes))) (drop-drop a n k bytes e)),
      rw cut' (omega (arith, length-take n (drop a bytes), length-drop a bytes)),
      cut',
    )

-- A reader that meets its field returns it, and leaves what follows.
module _ (bytes : Bytes) (a : ℕ) (rest : Bytes) where
  pub read_bytes32-At :
      {x : Bytes}
      → At bytes a x rest
      → IsArray 32 x
      → (read_bytes32 bytes a ≡ ok x) × (drop (a + 32) bytes ≡ rest)
  unfolding read_bytes32
  read_bytes32-At {x} at v =
      let found : slice bytes a (a + 32) ≡ some x =
        slice-At bytes a x rest 32 (a + 32) at v.0 (omega arith) refl in
      (rw found, At-next bytes a x rest 32 (a + 32) at v.0 refl)

  pub read_address-At :
      {x : Bytes}
      → At bytes a x rest
      → IsArray 20 x
      → (read_address bytes a ≡ ok x) × (drop (a + 20) bytes ≡ rest)
  unfolding read_address
  read_address-At {x} at v =
      let found : slice bytes a (a + 20) ≡ some x =
        slice-At bytes a x rest 20 (a + 20) at v.0 (omega arith) refl in
      (rw found, At-next bytes a x rest 20 (a + 20) at v.0 refl)

  pub read_u64-At :
      {v : ℕ}
      → At bytes a (to_le_bytes 8 v) rest
      → v < 2 ^ 64
      → (read_u64 bytes a ≡ ok v) × (drop (a + 8) bytes ≡ rest)
  unfolding read_u64
  read_u64-At {v} at small =
      let len : length (to_le_bytes 8 v) ≡ 8 = length-to_le_bytes 8 v in
      let found : slice bytes a (a + 8) ≡ some (to_le_bytes 8 v) =
        slice-At bytes a (to_le_bytes 8 v) rest 8 (a + 8) at len (omega arith) refl in
      (
        rw found (ap ok (from_le_bytes-to_le_bytes 8 v small)),
        At-next bytes a (to_le_bytes 8 v) rest 8 (a + 8) at len refl,
      )

  pub read_u32-At :
      {v : ℕ}
      → At bytes a (to_le_bytes 4 v) rest
      → v < 2 ^ 32
      → (read_u32 bytes a ≡ ok v) × (drop (a + 4) bytes ≡ rest)
  unfolding read_u32
  read_u32-At {v} at small =
      let len : length (to_le_bytes 4 v) ≡ 4 = length-to_le_bytes 4 v in
      let found : slice bytes a (a + 4) ≡ some (to_le_bytes 4 v) =
        slice-At bytes a (to_le_bytes 4 v) rest 4 (a + 4) at len (omega arith) refl in
      (
        rw found (ap ok (from_le_bytes-to_le_bytes 4 v small)),
        At-next bytes a (to_le_bytes 4 v) rest 4 (a + 4) at len refl,
      )

-- A reader that succeeds on bytes has met its field.
module _ (bytes : Bytes) (bs : All IsByte bytes) (a : ℕ) where
  slice-IsArray :
      (n : ℕ) {x : Bytes}
      → slice bytes a (a + n) ≡ some x
      → At bytes a x (drop (a + n) bytes) × IsArray n x
  slice-IsArray n {x} h =
      let (at, len, cut) = At-slice bytes x a n (a + n) h refl in
      (at, (len, rw cut (All-take IsByte n _ (All-drop IsByte a bytes bs))))

  pub At-read_bytes32 :
      {x : Bytes} → read_bytes32 bytes a ≡ ok x → At bytes a x (drop (a + 32) bytes) × IsArray 32 x
  unfolding read_bytes32
  At-read_bytes32 {x} h = slice-IsArray 32 (ground arith)

  pub At-read_address :
      {x : Bytes} → read_address bytes a ≡ ok x → At bytes a x (drop (a + 20) bytes) × IsArray 20 x
  unfolding read_address
  At-read_address {x} h = slice-IsArray 20 (ground arith)

  read_int :
      (w : ℕ) {v : ℕ} (s : Bytes)
      → slice bytes a (a + w) ≡ some s
      → from_le_bytes s ≡ v
      → At bytes a (to_le_bytes w v) (drop (a + w) bytes) × (v < 256 ^ w)
  read_int w {v} s found e =
      let (at, (len, each)) = slice-IsArray w found in
      rw (← e, to_le_bytes-from_le_bytes w s len each) (at, from_le_bytes-lt w s len each)

  pub At-read_u64 :
      {v : ℕ}
      → read_u64 bytes a ≡ ok v
      → At bytes a (to_le_bytes 8 v) (drop (a + 8) bytes) × (v < 2 ^ 64)
  unfolding read_u64
  At-read_u64 {v} h = elim (Option-cases (slice bytes a (a + 8))) [
    | inl e ↦ absurd (cc (rw (e, read_u64) at h))
    | inr (s, e) ↦ read_int 8 s e (ground arith)
  ]

  pub At-read_u32 :
      {v : ℕ}
      → read_u32 bytes a ≡ ok v
      → At bytes a (to_le_bytes 4 v) (drop (a + 4) bytes) × (v < 2 ^ 32)
  unfolding read_u32
  At-read_u32 {v} h = elim (Option-cases (slice bytes a (a + 4))) [
    | inl e ↦ absurd (cc (rw (e, read_u32) at h))
    | inr (s, e) ↦ read_int 4 s e (ground arith)
  ]

-- ===== src/Common/ByteStrings.antt =====
-- Byte strings as lists of numbers: equality, order, and the integer encodings of the language.
use Prim.Native.Nat.{ℕ, zero, suc, ◌+◌, ◌*◌, ◌/◌, ◌%◌, ◌^◌, ◌<◌}
use mathlib.Core.Path.{◌≡◌, refl, sym, ap, ◌∙◌}
use mathlib.Core.Bool.{Bool, true, false, ◌&&◌}
use mathlib.Core.List.{List, [], ◌∷◌, reverse, reverse-reverse}
use native.Mathlib.Nat.{pow-suc}
use native.Mathlib.Omega.{arith}
use shell_chain_specs.Common.Tests.{◌==◌}
use shell_chain_specs.Common.Lists.{length, All, length-reverse}

abbrev pub Bytes : Type 0
Bytes = List ℕ

abbrev pub IsByte : ℕ → Type 0
IsByte b = b < 256

-- An array `[u8; n]`.
abbrev pub IsArray : ℕ → Bytes → Type 0
IsArray n bs = (length bs ≡ n) × All IsByte bs

unfoldable pub bytes_eq : Bytes → Bytes → Bool
bytes_eq [] [] = true
bytes_eq [] (y ∷ ys) = false
bytes_eq (x ∷ xs) [] = false
bytes_eq (x ∷ xs) (y ∷ ys) = (x == y) && bytes_eq xs ys

pub bytes_eq→eq : (xs ys : Bytes) → bytes_eq xs ys ≡ true → xs ≡ ys
unfolding bytes_eq
bytes_eq→eq [] [] h = refl
bytes_eq→eq [] (y ∷ ys) h = cc
bytes_eq→eq (x ∷ xs) [] h = cc
bytes_eq→eq (x ∷ xs) (y ∷ ys) h = ground (arith, bytes_eq→eq xs ys)

pub bytes_eq_refl : (xs : Bytes) → bytes_eq xs xs ≡ true
unfolding bytes_eq
bytes_eq_refl [] = refl
bytes_eq_refl (x ∷ xs) = ground (arith, bytes_eq_refl xs)

pub eq→bytes_eq : (xs ys : Bytes) → xs ≡ ys → bytes_eq xs ys ≡ true
eq→bytes_eq xs ys e = rw e (bytes_eq_refl ys)

-- `v.to_le_bytes()` for an integer of `w` bytes, and its inverse.
unfoldable pub to_le_bytes : ℕ → ℕ → Bytes
to_le_bytes zero v = []
to_le_bytes (suc w) v = (v % 256) ∷ to_le_bytes w (v / 256)

unfoldable pub from_le_bytes : Bytes → ℕ
from_le_bytes [] = 0
from_le_bytes (b ∷ bs) = b + 256 * from_le_bytes bs

-- `v.to_be_bytes()`.
unfoldable pub to_be_bytes : ℕ → ℕ → Bytes
unfolding to_le_bytes
to_be_bytes w v = reverse (to_le_bytes w v)

pub length-to_le_bytes : (w v : ℕ) → length (to_le_bytes w v) ≡ w
unfolding to_le_bytes
length-to_le_bytes zero v = refl
length-to_le_bytes (suc w) v = ap suc (length-to_le_bytes w (v / 256))

pub to_le_bytes-IsByte : (w v : ℕ) → All IsByte (to_le_bytes w v)
unfolding to_le_bytes
to_le_bytes-IsByte zero v = tt
to_le_bytes-IsByte (suc w) v = (omega arith, to_le_bytes-IsByte w (v / 256))

pub to_le_bytes-from_le_bytes :
    (w : ℕ) (bs : Bytes) → length bs ≡ w → All IsByte bs → to_le_bytes w (from_le_bytes bs) ≡ bs
unfolding to_le_bytes from_le_bytes
to_le_bytes-from_le_bytes zero [] e h = refl
to_le_bytes-from_le_bytes zero (b ∷ bs) e h = absurd (omega arith)
to_le_bytes-from_le_bytes (suc w) [] e h = absurd (omega arith)
to_le_bytes-from_le_bytes (suc w) (b ∷ bs) e (hb, hs) =
    let low : (b + 256 * from_le_bytes bs) % 256 ≡ b = omega arith in
    let high : (b + 256 * from_le_bytes bs) / 256 ≡ from_le_bytes bs = omega arith in
    rw (low, high) (ap (◌∷◌ b) (to_le_bytes-from_le_bytes w bs (omega arith) hs))

pub from_le_bytes-to_le_bytes : (w v : ℕ) → v < 256 ^ w → from_le_bytes (to_le_bytes w v) ≡ v
unfolding to_le_bytes from_le_bytes
from_le_bytes-to_le_bytes zero v h = omega arith
from_le_bytes-to_le_bytes (suc w) v h =
    let below : v / 256 < 256 ^ w = omega (arith, pow-suc 256 w) in
    rw (from_le_bytes-to_le_bytes w (v / 256) below) (omega arith)

pub from_le_bytes-lt :
    (w : ℕ) (bs : Bytes) → length bs ≡ w → All IsByte bs → from_le_bytes bs < 256 ^ w
unfolding from_le_bytes
from_le_bytes-lt zero [] e h = omega arith
from_le_bytes-lt zero (b ∷ bs) e h = absurd (omega arith)
from_le_bytes-lt (suc w) [] e h = absurd (omega arith)
from_le_bytes-lt (suc w) (b ∷ bs) e (hb, hs) =
    omega (arith, pow-suc 256 w, from_le_bytes-lt w bs (omega arith) hs)

pub length-to_be_bytes : (w v : ℕ) → length (to_be_bytes w v) ≡ w
unfolding to_be_bytes
length-to_be_bytes w v = length-reverse (to_le_bytes w v) ∙ length-to_le_bytes w v

pub to_be_bytes-inj :
    (w a b : ℕ) → a < 256 ^ w → b < 256 ^ w → to_be_bytes w a ≡ to_be_bytes w b → a ≡ b
unfolding to_be_bytes
to_be_bytes-inj w a b ha hb e =
    let le : to_le_bytes w a ≡ to_le_bytes w b =
      sym (reverse-reverse (to_le_bytes w a)) ∙ ap reverse e ∙ reverse-reverse (to_le_bytes w b) in
    sym (from_le_bytes-to_le_bytes w a ha) ∙ ap from_le_bytes le ∙ from_le_bytes-to_le_bytes w b hb

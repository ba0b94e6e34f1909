-- ===== src/Common/ByteOrder.antt =====
-- The lexicographic order of byte strings, as `Ord for [u8]` compares them.
use Prim.Native.Nat.{compare, Ordering}
use shell_chain_specs.Common.ByteStrings.{Bytes}
use mathlib.Core.Path.{◌≡◌, refl, ap, ◌∙◌}
use mathlib.Core.Logic.{◌⊎◌, inl, inr}
use mathlib.Core.Bool.{Bool, true, false}
use mathlib.Core.List.{[], ◌∷◌}
use native.Mathlib.Omega.{arith}

unfoldable pub compare_bytes : Bytes → Bytes → Ordering
compare_bytes [] [] = Ordering.eq
compare_bytes [] (y ∷ ys) = Ordering.lt
compare_bytes (x ∷ xs) [] = Ordering.gt
compare_bytes (x ∷ xs) (y ∷ ys) = elim (compare x y) [
  | Ordering.lt ↦ Ordering.lt
  | Ordering.eq ↦ compare_bytes xs ys
  | Ordering.gt ↦ Ordering.gt
]

-- `Ordering::is_lt`.
abbrev pub is_lt : Ordering → Bool
is_lt Ordering.lt = true
is_lt Ordering.eq = false
is_lt Ordering.gt = false

abbrev pub reverse_ordering : Ordering → Ordering
reverse_ordering Ordering.lt = Ordering.gt
reverse_ordering Ordering.eq = Ordering.eq
reverse_ordering Ordering.gt = Ordering.lt

abbrev pub Below : Bytes → Bytes → Type 0
Below xs ys = compare_bytes xs ys ≡ Ordering.lt

pub compare_bytes_refl : (xs : Bytes) → compare_bytes xs xs ≡ Ordering.eq
unfolding compare_bytes
compare_bytes_refl [] = refl
compare_bytes_refl (x ∷ xs) = ground (arith, compare_bytes_refl xs)

pub compare_bytes-eq : (xs ys : Bytes) → compare_bytes xs ys ≡ Ordering.eq → xs ≡ ys
unfolding compare_bytes
compare_bytes-eq [] [] h = refl
compare_bytes-eq [] (y ∷ ys) h = cc
compare_bytes-eq (x ∷ xs) [] h = cc
compare_bytes-eq (x ∷ xs) (y ∷ ys) h = ground (arith, compare_bytes-eq xs ys)

pub compare_bytes-reverse :
    (xs ys : Bytes) → compare_bytes xs ys ≡ reverse_ordering (compare_bytes ys xs)
unfolding compare_bytes
compare_bytes-reverse [] [] = refl
compare_bytes-reverse [] (y ∷ ys) = refl
compare_bytes-reverse (x ∷ xs) [] = refl
compare_bytes-reverse (x ∷ xs) (y ∷ ys) = ground (arith, compare_bytes-reverse xs ys)

pub Below-trans : (xs ys zs : Bytes) → Below xs ys → Below ys zs → Below xs zs
unfolding compare_bytes
Below-trans [] [] zs h k = cc
Below-trans [] (y ∷ ys) [] h k = cc
Below-trans [] (y ∷ ys) (z ∷ zs) h k = refl
Below-trans (x ∷ xs) [] zs h k = cc
Below-trans (x ∷ xs) (y ∷ ys) [] h k = cc
Below-trans (x ∷ xs) (y ∷ ys) (z ∷ zs) h k = ground (arith, Below-trans xs ys zs)

pub Below-asymm : (xs ys : Bytes) → compare_bytes xs ys ≡ Ordering.gt → Below ys xs
Below-asymm xs ys h = compare_bytes-reverse ys xs ∙ ap reverse_ordering h

pub Ordering-cases : (o : Ordering) → (o ≡ Ordering.lt) ⊎ ((o ≡ Ordering.eq) ⊎ (o ≡ Ordering.gt))
Ordering-cases Ordering.lt = inl refl
Ordering-cases Ordering.eq = inr (inl refl)
Ordering-cases Ordering.gt = inr (inr refl)

pub is_lt→lt : (o : Ordering) → is_lt o ≡ true → o ≡ Ordering.lt
is_lt→lt Ordering.lt h = refl
is_lt→lt Ordering.eq h = cc
is_lt→lt Ordering.gt h = cc

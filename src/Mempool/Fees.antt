-- ===== src/Mempool/Fees.antt =====
-- The comparison of fees is that of the 256-bit integers.
use Prim.Native.Nat.{compare, Ordering}
use mathlib.Core.List.{reverse, reverse-cons, reverse-reverse}
use native.Mathlib.Nat.{mul-le-mul_left, pow-suc}
use shell_chain_specs.Common.{
  ℕ, ◌+◌, ◌*◌, ◌^◌, ◌≤◌, ◌<◌, ◌≡◌, ◌↔◌, refl, sym, ap, ap₂, ◌∙◌, inl, inr, true, not, [], ◌∷◌, ◌++◌,
  Bytes, IsByte, IsArray, length, All, arith, from_le_bytes, from_le_bytes-lt, length-reverse,
  Ordering-cases, is_lt, All-append,
}
use shell_chain_specs.Mempool.{compare_loop, compare_u256, gas_price_covers}

from_le-last :
    (xs : Bytes) (b : ℕ) → from_le_bytes (xs ++ (b ∷ [])) ≡ from_le_bytes xs + 256 ^ length xs * b
unfolding from_le_bytes
from_le-last [] b = omega arith
from_le-last (x ∷ xs) b =
    let ih = from_le-last xs b in
    let power = pow-suc 256 (length xs) in rw (ih, power) (omega arith)

-- The value of bytes of which the most significant is the first.
abbrev value : Bytes → ℕ
value p = from_le_bytes (reverse p)

value-cons : (x : ℕ) (p : Bytes) → value (x ∷ p) ≡ value p + 256 ^ length p * x
value-cons x p =
    ap from_le_bytes (reverse-cons x p)
    ∙ from_le-last (reverse p) x
    ∙ ap (λ (n : ℕ). value p + 256 ^ n * x) (length-reverse p)

All-reverse : (p : Bytes) → All IsByte p → All IsByte (reverse p)
All-reverse [] a = tt
All-reverse (x ∷ p) (b, a) =
    rw (reverse-cons x p) (All-append IsByte (reverse p) (x ∷ []) (All-reverse p a) (b, tt))

value-lt : (p : Bytes) → All IsByte p → value p < 256 ^ length p
value-lt p a = from_le_bytes-lt (length p) (reverse p) (length-reverse p) (All-reverse p a)

compare-of_lt : (a b : ℕ) → a < b → compare a b ≡ Ordering.lt
compare-of_lt a b h = ground arith

compare-of_gt : (a b : ℕ) → b < a → compare a b ≡ Ordering.gt
compare-of_gt a b h = ground arith

lt-of_compare : (a b : ℕ) → compare a b ≡ Ordering.lt → a < b
lt-of_compare a b h = ground arith

gt-of_compare : (a b : ℕ) → compare a b ≡ Ordering.gt → b < a
gt-of_compare a b h = ground arith

eq-of_compare : (a b : ℕ) → compare a b ≡ Ordering.eq → a ≡ b
eq-of_compare a b h = ground arith

compare-shift : (a b c : ℕ) → compare (a + c) (b + c) ≡ compare a b
compare-shift a b c = ground arith

-- A greater leading digit wins, whatever the others.
lead : (k v w x y : ℕ) → v < k → x < y → v + k * x < w + k * y
lead k v w x y small h =
    let step : k * (x + 1) ≤ k * y = mul-le-mul_left k (omega arith) in omega arith

compare_loop-value :
    (p q : Bytes)
    → length p ≡ length q
    → All IsByte p
    → All IsByte q
    → compare_loop p q ≡ compare (value p) (value q)
unfolding compare_loop from_le_bytes
compare_loop-value [] [] e a b = refl
compare_loop-value [] (y ∷ q) e a b = absurd (omega arith)
compare_loop-value (x ∷ p) [] e a b = absurd (omega arith)
compare_loop-value (x ∷ p) (y ∷ q) e (ax, ap') (by', bq) =
    let len : length p ≡ length q = omega arith in
    let k = 256 ^ length p in
    let vp = value-cons x p in
    let vq : value (y ∷ q) ≡ value q + k * y =
      value-cons y q ∙ ap (λ (n : ℕ). value q + 256 ^ n * y) (sym len) in
    let lp = value-lt p ap' in
    let lq : value q < k = rw len (value-lt q bq) in
    rw (vp, vq)
      (elim (Ordering-cases (compare x y)) [
        | inl o ↦
            rw (o, compare_loop)
              (sym (compare-of_lt _ _ (lead k (value p) (value q) x y lp (lt-of_compare x y o))))
        | inr (inl o) ↦
            rw (o, compare_loop, eq-of_compare x y o)
              (compare_loop-value p q len ap' bq ∙ sym (compare-shift (value p) (value q) (k * y)))
        | inr (inr o) ↦
            rw (o, compare_loop)
              (sym (compare-of_gt _ _ (lead k (value q) (value p) y x lq (gt-of_compare x y o))))
      ])

covers : (a r : ℕ) → (not (is_lt (compare a r)) ≡ true) ↔ (r ≤ a)
covers a r = ground arith

-- On arrays of 32 bytes, a fee covers the one required exactly when the integer that its bytes encode,
-- the least significant byte first, is at least the one required.
pub gas_price_covers_iff :
    (actual required : Bytes)
    → IsArray 32 actual
    → IsArray 32 required
    → (gas_price_covers actual required ≡ true) ↔ (from_le_bytes required ≤ from_le_bytes actual)
unfolding gas_price_covers compare_u256
gas_price_covers_iff actual required (la, va) (lr, vr) =
    let same =
      compare_loop-value (reverse actual) (reverse required)
        (length-reverse actual ∙ (la ∙ (sym lr ∙ sym (length-reverse required))))
        (All-reverse actual va) (All-reverse required vr)
      ∙ ap₂ (λ (p q : Bytes). compare (from_le_bytes p) (from_le_bytes q)) (reverse-reverse actual)
          (reverse-reverse required) in
    rw same (covers (from_le_bytes actual) (from_le_bytes required))

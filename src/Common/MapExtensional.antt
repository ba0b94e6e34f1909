-- ===== src/Common/MapExtensional.antt =====
-- A sorted map is what it holds under each key.
use mathlib.Core.Path.{◌≡◌, refl, sym, ap, ap₂, ◌∙◌}
use mathlib.Core.Logic.{inl, inr}
use mathlib.Core.Option.{some, some-injective}
use mathlib.Core.List.{[], ◌∷◌}
use shell_chain_specs.Common.Lists.{All}
use shell_chain_specs.Common.ByteStrings.{Bytes}
use shell_chain_specs.Common.ByteOrder.{
  compare_bytes, Below, compare_bytes_refl, compare_bytes-eq, Below-asymm, Ordering-cases,
}
use shell_chain_specs.Common.SortedMap.{ByteMap, map_get, Sorted}
use shell_chain_specs.Common.MapLaws.{get_lt, get_eq, get_gt, map_get-Below, above_trans}

module _ {ℓ} {V : Type ℓ} where
  get-head : (x : Bytes × V) (xs : ByteMap V) → map_get x.0 (x ∷ xs) ≡ some x.1
  get-head x xs = get_eq x.0 x xs (compare_bytes_refl x.0)

  -- Of two maps that hold the same, the later first key is held by one only.
  heads-apart :
      (x y : Bytes × V) (xs ys : ByteMap V)
      → Below x.0 y.0
      → map_get x.0 (x ∷ xs) ≡ map_get x.0 (y ∷ ys)
      → ⊥
  heads-apart x y xs ys below same =
      absurd (cc (sym (get-head x xs) ∙ same ∙ get_lt x.0 y ys below))

  -- Under the first key, and below it, the rest holds nothing; above it, the map is its rest.
  same-rest :
      (x y : Bytes × V) (xs ys : ByteMap V) (key : Bytes)
      → All (λ (e : Bytes × V). Below x.0 e.0) xs
      → All (λ (e : Bytes × V). Below y.0 e.0) ys
      → x.0 ≡ y.0
      → map_get key (x ∷ xs) ≡ map_get key (y ∷ ys)
      → map_get key xs ≡ map_get key ys
  same-rest x y xs ys key ax ay head same = elim (Ordering-cases (compare_bytes key x.0)) [
    | inl low ↦
        map_get-Below key xs (above_trans key x.0 xs low ax)
        ∙ sym (
            map_get-Below key ys
              (above_trans key y.0 ys (ap (compare_bytes key) (sym head) ∙ low) ay))
    | inr (inl at) ↦
        let here = compare_bytes-eq key x.0 at in
        ap (λ (k : Bytes). map_get k xs) here
        ∙ map_get-Below x.0 xs ax
        ∙ sym (map_get-Below y.0 ys ay)
        ∙ ap (λ (k : Bytes). map_get k ys) (sym head ∙ sym here)
    | inr (inr high) ↦
        sym (get_gt key x xs high)
        ∙ same
        ∙ get_gt key y ys (ap (compare_bytes key) (sym head) ∙ high)
  ]

  pub ByteMap_ext :
      (m n : ByteMap V)
      → Sorted m
      → Sorted n
      → ((key : Bytes) → map_get key m ≡ map_get key n)
      → m ≡ n
  unfolding map_get
  ByteMap_ext [] [] s t same = refl
  ByteMap_ext [] (y ∷ ys) s t same = absurd (cc (same y.0 ∙ get-head y ys))
  ByteMap_ext (x ∷ xs) [] s t same = absurd (cc (sym (get-head x xs) ∙ same x.0))
  ByteMap_ext (x ∷ xs) (y ∷ ys) (ax, s) (ay, t) same =
      elim (Ordering-cases (compare_bytes x.0 y.0)) [
        | inl lt ↦ absurd (heads-apart x y xs ys lt (same x.0))
        | inr (inl eq) ↦
            let head = compare_bytes-eq x.0 y.0 eq in
            let value =
              some-injective x.1 y.1 (sym (get-head x xs) ∙ same x.0 ∙ get_eq x.0 y ys eq) in
            ap₂ ◌∷◌ (λ i. (head i, value i))
              (ByteMap_ext xs ys s t (λ key. same-rest x y xs ys key ax ay head (same key)))
        | inr (inr gt) ↦ absurd (heads-apart y x ys xs (Below-asymm x.0 y.0 gt) (sym (same y.0)))
      ]

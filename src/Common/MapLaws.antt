-- ===== src/Common/MapLaws.antt =====
-- Laws of the ordered maps: lookup after insertion, and the order kept.
use Prim.Native.Nat.{Ordering}
use mathlib.Core.Path.{◌≡◌, refl, sym, subst, ◌∙◌}
use mathlib.Core.Logic.{◌≢◌, inl, inr}
use mathlib.Core.Option.{none, some, none-ne-some, some-injective}
use mathlib.Core.List.{[], ◌∷◌}
use shell_chain_specs.Common.Lists.{All}
use shell_chain_specs.Common.ByteStrings.{Bytes}
use shell_chain_specs.Common.ByteOrder.{
  compare_bytes, Below, compare_bytes_refl, compare_bytes-eq, Below-trans, Below-asymm,
  Ordering-cases,
}
use shell_chain_specs.Common.SortedMap.{ByteMap, map_insert, map_get, Sorted}

module _ {ℓ} {V : Type ℓ} where
  insert_lt :
      (key : Bytes) (value : V) (entry : Bytes × V) (entries : ByteMap V)
      → compare_bytes key entry.0 ≡ Ordering.lt
      → map_insert key value (entry ∷ entries) ≡ (key, value) ∷ entry ∷ entries
  unfolding map_insert
  insert_lt key value entry entries e = rw (e, map_insert) refl

  pub get_lt :
      (key : Bytes) (entry : Bytes × V) (entries : ByteMap V)
      → compare_bytes key entry.0 ≡ Ordering.lt
      → map_get key (entry ∷ entries) ≡ none
  unfolding map_get
  get_lt key entry entries e = rw (e, map_get) refl

  insert_eq :
      (key : Bytes) (value : V) (entry : Bytes × V) (entries : ByteMap V)
      → compare_bytes key entry.0 ≡ Ordering.eq
      → map_insert key value (entry ∷ entries) ≡ (entry.0, value) ∷ entries
  unfolding map_insert
  insert_eq key value entry entries e = rw (e, map_insert) refl

  pub get_eq :
      (key : Bytes) (entry : Bytes × V) (entries : ByteMap V)
      → compare_bytes key entry.0 ≡ Ordering.eq
      → map_get key (entry ∷ entries) ≡ some entry.1
  unfolding map_get
  get_eq key entry entries e = rw (e, map_get) refl

  insert_gt :
      (key : Bytes) (value : V) (entry : Bytes × V) (entries : ByteMap V)
      → compare_bytes key entry.0 ≡ Ordering.gt
      → map_insert key value (entry ∷ entries) ≡ entry ∷ map_insert key value entries
  unfolding map_insert
  insert_gt key value entry entries e = rw (e, map_insert) refl

  pub get_gt :
      (key : Bytes) (entry : Bytes × V) (entries : ByteMap V)
      → compare_bytes key entry.0 ≡ Ordering.gt
      → map_get key (entry ∷ entries) ≡ map_get key entries
  unfolding map_get
  get_gt key entry entries e = rw (e, map_get) refl

  above-insert :
      (low key : Bytes) (value : V) (m : ByteMap V)
      → Below low key
      → All (λ (e : Bytes × V). Below low e.0) m
      → All (λ (e : Bytes × V). Below low e.0) (map_insert key value m)
  unfolding map_insert
  above-insert low key value [] h a = (h, tt)
  above-insert low key value (entry ∷ entries) h (b, bs) =
      elim (Ordering-cases (compare_bytes key entry.0)) [
        | inl e ↦ rw (insert_lt key value entry entries e) (h, (b, bs))
        | inr (inl e) ↦ rw (insert_eq key value entry entries e) (b, bs)
        | inr (inr e) ↦
            rw (insert_gt key value entry entries e) (b, above-insert low key value entries h bs)
      ]

  pub above_trans :
      (low high : Bytes) (m : ByteMap V)
      → Below low high
      → All (λ (e : Bytes × V). Below high e.0) m
      → All (λ (e : Bytes × V). Below low e.0) m
  above_trans low high [] h a = tt
  above_trans low high (entry ∷ entries) h (b, bs) =
      (Below-trans low high entry.0 h b, above_trans low high entries h bs)

  pub map_insert-Sorted :
      (key : Bytes) (value : V) (m : ByteMap V) → Sorted m → Sorted (map_insert key value m)
  unfolding map_insert
  map_insert-Sorted key value [] s = (tt, tt)
  map_insert-Sorted key value (entry ∷ entries) (a, s) =
      elim (Ordering-cases (compare_bytes key entry.0)) [
        | inl e ↦
            rw (insert_lt key value entry entries e)
              ((e, above_trans key entry.0 entries e a), (a, s))
        | inr (inl e) ↦ rw (insert_eq key value entry entries e) (a, s)
        | inr (inr e) ↦ rw (insert_gt key value entry entries e) (
          above-insert entry.0 key value entries (Below-asymm key entry.0 e) a,
          map_insert-Sorted key value entries s,
        )
      ]

  pub map_get-insert_same :
      (key : Bytes) (value : V) (m : ByteMap V) → map_get key (map_insert key value m) ≡ some value
  unfolding map_insert
  map_get-insert_same key value [] = get_eq key (key, value) [] (compare_bytes_refl key)
  map_get-insert_same key value (entry ∷ entries) =
      elim (Ordering-cases (compare_bytes key entry.0)) [
        | inl e ↦
            rw (insert_lt key value entry entries e)
              (get_eq key (key, value) (entry ∷ entries) (compare_bytes_refl key))
        | inr (inl e) ↦
            rw (insert_eq key value entry entries e) (get_eq key (entry.0, value) entries e)
        | inr (inr e) ↦ rw (insert_gt key value entry entries e) (
            get_gt key entry (map_insert key value entries) e
            ∙ map_get-insert_same key value entries)
      ]

  pub map_get-Below :
      (key : Bytes) (m : ByteMap V)
      → All (λ (e : Bytes × V). Below key e.0) m
      → map_get key m ≡ none
  unfolding map_get
  map_get-Below key [] a = refl
  map_get-Below key (entry ∷ entries) (b, bs) = get_lt key entry entries b

  -- An entry in front whose key is above the others, and not the one asked for, hides nothing.
  get-skip :
      (other key : Bytes) (value : V) (m : ByteMap V)
      → All (λ (e : Bytes × V). Below key e.0) m
      → other ≢ key
      → map_get other ((key, value) ∷ m) ≡ map_get other m
  get-skip other key value m a ne = elim (Ordering-cases (compare_bytes other key)) [
    | inl e ↦
        get_lt other (key, value) m e ∙ sym (map_get-Below other m (above_trans other key m e a))
    | inr (inl e) ↦ absurd (ne (compare_bytes-eq other key e))
    | inr (inr e) ↦ get_gt other (key, value) m e
  ]

  -- Two maps that differ behind their first entry alone.
  get-under :
      (other : Bytes) (entry : Bytes × V) (m n : ByteMap V)
      → map_get other m ≡ map_get other n
      → map_get other (entry ∷ m) ≡ map_get other (entry ∷ n)
  get-under other entry m n h = elim (Ordering-cases (compare_bytes other entry.0)) [
    | inl e ↦ get_lt other entry m e ∙ sym (get_lt other entry n e)
    | inr (inl e) ↦ get_eq other entry m e ∙ sym (get_eq other entry n e)
    | inr (inr e) ↦ get_gt other entry m e ∙ (h ∙ sym (get_gt other entry n e))
  ]

  pub map_get-insert_other :
      (other key : Bytes) (value : V) (m : ByteMap V)
      → Sorted m
      → other ≢ key
      → map_get other (map_insert key value m) ≡ map_get other m
  unfolding map_insert
  map_get-insert_other other key value [] s ne = get-skip other key value [] tt ne
  map_get-insert_other other key value (entry ∷ entries) (a, s) ne =
      elim (Ordering-cases (compare_bytes key entry.0)) [
        | inl e ↦
            rw (insert_lt key value entry entries e) (
              get-skip other key value (entry ∷ entries) (e, above_trans key entry.0 entries e a)
                ne)
        | inr (inl e) ↦
            let same = compare_bytes-eq key entry.0 e in
            let ne' : other ≢ entry.0 = λ h. ne (h ∙ sym same) in
            rw (insert_eq key value entry entries e) (
              get-skip other entry.0 value entries a ne'
              ∙ sym (get-skip other entry.0 entry.1 entries a ne'))
        | inr (inr e) ↦ rw (insert_gt key value entry entries e) (
            get-under other entry (map_insert key value entries) entries
              (map_get-insert_other other key value entries s ne))
      ]

  -- What holds of every entry, and of the one inserted under any equal key.
  pub All-map_insert {κ} :
      (P : Bytes × V → Type κ) (key : Bytes) (value : V) (m : ByteMap V)
      → P (key, value)
      → All P m
      → All P (map_insert key value m)
  unfolding map_insert
  All-map_insert P key value [] p a = (p, tt)
  All-map_insert P key value (entry ∷ entries) p (b, bs) =
      elim (Ordering-cases (compare_bytes key entry.0)) [
        | inl e ↦ rw (insert_lt key value entry entries e) (p, (b, bs))
        | inr (inl e) ↦
            rw (insert_eq key value entry entries e)
              (subst (λ (k : Bytes). P (k, value)) (compare_bytes-eq key entry.0 e) p, bs)
        | inr (inr e) ↦
            rw (insert_gt key value entry entries e) (b, All-map_insert P key value entries p bs)
      ]

  pub All-map_get {κ} :
      (P : Bytes × V → Type κ) (key : Bytes) (m : ByteMap V) {value : V}
      → All P m
      → map_get key m ≡ some value
      → P (key, value)
  unfolding map_get
  All-map_get P key [] a e = cc
  All-map_get P key (entry ∷ entries) {value = value} (b, bs) e =
      elim (Ordering-cases (compare_bytes key entry.0)) [
        | inl o ↦ absurd (none-ne-some value (sym (get_lt key entry entries o) ∙ e))
        | inr (inl o) ↦
            let found : entry.1 ≡ value =
              some-injective entry.1 value (sym (get_eq key entry entries o) ∙ e) in
            let same = compare_bytes-eq key entry.0 o in subst P (λ i. (sym same i, found i)) b
        | inr (inr o) ↦ All-map_get P key entries bs (sym (get_gt key entry entries o) ∙ e)
      ]

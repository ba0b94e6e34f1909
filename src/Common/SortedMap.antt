-- ===== src/Common/SortedMap.antt =====
-- `BTreeMap` with byte strings for keys, as the list of its entries in increasing order of the keys.
use Prim.Native.Nat.{Ordering}
use mathlib.Core.Option.{Option, none, some}
use mathlib.Core.List.{List, [], ◌∷◌}
use shell_chain_specs.Common.Tests.{if◌then◌else◌}
use shell_chain_specs.Common.Lists.{All}
use shell_chain_specs.Common.ByteStrings.{Bytes}
use shell_chain_specs.Common.ByteOrder.{compare_bytes, is_lt, Below}

abbrev pub ByteMap {ℓ} : Type ℓ → Type ℓ
ByteMap V = List (Bytes × V)

module _ {ℓ} {V : Type ℓ} where
  -- An equal key keeps its place and takes the new value.
  unfoldable pub map_insert : Bytes → V → ByteMap V → ByteMap V
  map_insert key value [] = (key, value) ∷ []
  map_insert key value (entry ∷ entries) = elim (compare_bytes key entry.0) [
    | Ordering.lt ↦ (key, value) ∷ entry ∷ entries
    | Ordering.eq ↦ (entry.0, value) ∷ entries
    | Ordering.gt ↦ entry ∷ map_insert key value entries
  ]

  unfoldable pub map_get : Bytes → ByteMap V → Option V
  map_get key [] = none
  map_get key (entry ∷ entries) = elim (compare_bytes key entry.0) [
    | Ordering.lt ↦ none
    | Ordering.eq ↦ some entry.1
    | Ordering.gt ↦ map_get key entries
  ]

  -- `range(..key).next_back()`: the last entry below the key.
  unfoldable pub last_below : Bytes → ByteMap V → Option (Bytes × V)
  last_below key [] = none
  last_below key (entry ∷ entries) =
      let later = last_below key entries in
      if is_lt (compare_bytes entry.0 key)
      then elim later [ none ↦ some entry | some e ↦ some e ]
      else none

  -- `range((Excluded(key), Unbounded)).next()`: the first entry above the key.
  unfoldable pub first_above : Bytes → ByteMap V → Option (Bytes × V)
  first_above key [] = none
  first_above key (entry ∷ entries) =
      let later = first_above key entries in
      if is_lt (compare_bytes key entry.0) then some entry else later

  -- Every key is below those after it.
  abbrev pub Sorted : ByteMap V → Type ℓ
  Sorted [] = Unit
  Sorted (entry ∷ entries) = All (λ (e : Bytes × V). Below entry.0 e.0) entries × Sorted entries

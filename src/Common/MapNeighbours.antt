-- ===== src/Common/MapNeighbours.antt =====
-- Laws of the ordered maps: the entries next to a key.
use mathlib.Core.Path.{◌≡◌, subst}
use mathlib.Core.Logic.{◌⊎◌, inl, inr}
use mathlib.Core.Option.{some}
use mathlib.Core.List.{[], ◌∷◌}
use native.Mathlib.Omega.{arith}
use shell_chain_specs.Common.Lists.{All}
use shell_chain_specs.Common.ByteStrings.{Bytes}
use shell_chain_specs.Common.ByteOrder.{compare_bytes, Below, is_lt→lt}
use shell_chain_specs.Common.SortedMap.{ByteMap, last_below, first_above}

module _ {ℓ} {V : Type ℓ} where
  pub last_below-Below :
      (key : Bytes) (m : ByteMap V) {entry : Bytes × V}
      → last_below key m ≡ some entry
      → Below entry.0 key
  unfolding last_below
  last_below-Below key [] e = cc
  last_below-Below key (entry ∷ entries) {entry = found} e =
      ground
        (arith, is_lt→lt (compare_bytes entry.0 key), last_below-Below key entries {entry = found})

  pub first_above-Below :
      (key : Bytes) (m : ByteMap V) {entry : Bytes × V}
      → first_above key m ≡ some entry
      → Below key entry.0
  unfolding first_above
  first_above-Below key [] e = cc
  first_above-Below key (entry ∷ entries) {entry = found} e =
      ground
        (arith, is_lt→lt (compare_bytes key entry.0), first_above-Below key entries {entry = found})

  last_below-either :
      (key : Bytes) (entry : Bytes × V) (entries : ByteMap V) (found : Bytes × V)
      → last_below key (entry ∷ entries) ≡ some found
      → (entry ≡ found) ⊎ (last_below key entries ≡ some found)
  unfolding last_below
  last_below-either key entry entries found e = ground arith

  pub All-last_below {κ} :
      (P : Bytes × V → Type κ) (key : Bytes) (m : ByteMap V) {entry : Bytes × V}
      → All P m
      → last_below key m ≡ some entry
      → P entry
  unfolding last_below
  All-last_below P key [] a e = cc
  All-last_below P key (entry ∷ entries) {entry = found} (b, bs) e =
      elim (last_below-either key entry entries found e) [
        | inl same ↦ subst P same b
        | inr later ↦ All-last_below P key entries bs later
      ]

  first_above-either :
      (key : Bytes) (entry : Bytes × V) (entries : ByteMap V) (found : Bytes × V)
      → first_above key (entry ∷ entries) ≡ some found
      → (entry ≡ found) ⊎ (first_above key entries ≡ some found)
  unfolding first_above
  first_above-either key entry entries found e = ground arith

  pub All-first_above {κ} :
      (P : Bytes × V → Type κ) (key : Bytes) (m : ByteMap V) {entry : Bytes × V}
      → All P m
      → first_above key m ≡ some entry
      → P entry
  unfolding first_above
  All-first_above P key [] a e = cc
  All-first_above P key (entry ∷ entries) {entry = found} (b, bs) e =
      elim (first_above-either key entry entries found e) [
        | inl same ↦ subst P same b
        | inr later ↦ All-first_above P key entries bs later
      ]

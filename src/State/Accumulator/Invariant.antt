-- ===== src/State/Accumulator/Invariant.antt =====
-- The accumulator's invariant: the map is in the order of its keys, each leaf stands under the
-- canonical bytes of its own key, which is in the range of Rust's type, and the root is that of the
-- leaves or the initial one.
use Prim.Native.Nat.{Ordering}
use shell_chain_specs.Common.{
  ◌≡◌, ◌≢◌, refl, sym, ap, ◌∙◌, ◌⊎◌, inl, inr, Option, some, List, [], ◌∷◌, Bytes, length, All, ok,
  err, ok-injective, Result-cases, if_ok, ==_iff, >>=-eq-ok, ◌>>◌, ByteMap, map_get, Sorted,
  map_insert-Sorted, map_get-insert_same, map_get-insert_other, All-map_insert, Below, subst,
  compare_bytes, compare_bytes_refl, compare_bytes-eq, Below-asymm, Ordering-cases, arith, All-map,
}
use shell_chain_specs.Primitives.StateKey.{StateKey, StateKeyIsValid, encode_state_key}
use shell_chain_specs.Primitives.Hash.{Sha256}
use shell_chain_specs.State.Witness.{
  StateError, StatePatch, validate_shape, ensure_canonical_access_order,
}
use shell_chain_specs.State.Witness.Order.{Increasing, increasing_loop-Increasing}
use shell_chain_specs.State.Accumulator.{
  StoredLeaf, InMemoryAccumulator, new, apply_leaf, apply_leaves, compute_reference_root,
  recompute_root, apply_transition,
}
use shell_chain_specs.Primitives.Types.{Root}

abbrev pub IsCanonical : Bytes × StoredLeaf → Type 0
IsCanonical entry = (encode_state_key entry.1.key ≡ entry.0) × StateKeyIsValid entry.1.key

pub record WellFormed (h : Sha256) (acc : InMemoryAccumulator) : Type 0 where
  pub sorted : Sorted acc.leaves
  pub canonical : All IsCanonical acc.leaves
  pub rooted : (acc.root ≡ compute_reference_root h acc.leaves) ⊎ (acc ≡ new)

pub new-WellFormed : (h : Sha256) → WellFormed h new
new-WellFormed h = record { sorted = tt; canonical = tt; rooted = inr refl }

apply_leaves-Sorted :
    (keys : List StateKey) (values : List Bytes) (leaves : ByteMap StoredLeaf)
    → Sorted leaves
    → Sorted (apply_leaves keys values leaves)
unfolding apply_leaves apply_leaf
apply_leaves-Sorted [] values leaves s = s
apply_leaves-Sorted (key ∷ keys) [] leaves s = s
apply_leaves-Sorted (key ∷ keys) (value ∷ values) leaves s =
    apply_leaves-Sorted keys values (apply_leaf key value leaves)
      (map_insert-Sorted (encode_state_key key) _ leaves s)

apply_leaves-IsCanonical :
    (keys : List StateKey) (values : List Bytes) (leaves : ByteMap StoredLeaf)
    → All StateKeyIsValid keys
    → All IsCanonical leaves
    → All IsCanonical (apply_leaves keys values leaves)
unfolding apply_leaves apply_leaf
apply_leaves-IsCanonical [] values leaves v a = a
apply_leaves-IsCanonical (key ∷ keys) [] leaves v a = a
apply_leaves-IsCanonical (key ∷ keys) (value ∷ values) leaves (v, vs) a =
    apply_leaves-IsCanonical keys values (apply_leaf key value leaves) vs
      (All-map_insert IsCanonical (encode_state_key key) _ leaves (refl, v) a)

-- A transition whose keys are in the range of Rust's type, refused or not, keeps the accumulator well
-- formed: its leaves in the order of their canonical keys, each under the canonical bytes of its own
-- key, and its root the root of its leaves unless it is the initial accumulator.
pub apply_transition-WellFormed :
    (h : Sha256) (acc : InMemoryAccumulator) (patch : StatePatch)
    → WellFormed h acc
    → All StateKeyIsValid patch.accesses
    → WellFormed h (apply_transition h acc patch).1
unfolding apply_transition recompute_root
apply_transition-WellFormed h acc patch w valid =
    elim (Result-cases (validate_shape patch >> ensure_canonical_access_order patch.accesses)) [
      | inl (_, e) ↦
          rw (e, apply_transition)
            (record {
              sorted = apply_leaves-Sorted patch.accesses patch.new_values acc.leaves w.sorted;
              canonical =
                  apply_leaves-IsCanonical patch.accesses patch.new_values acc.leaves valid
                    w.canonical;
              rooted = inl refl;
            })
      | inr (_, e) ↦ rw (e, apply_transition) w
    ]

apply_leaves-other :
    (target : Bytes) (keys : List StateKey) (values : List Bytes) (leaves : ByteMap StoredLeaf)
    → Sorted leaves
    → All (λ (k : StateKey). target ≢ encode_state_key k) keys
    → map_get target (apply_leaves keys values leaves) ≡ map_get target leaves
unfolding apply_leaves apply_leaf
apply_leaves-other target [] values leaves s a = refl
apply_leaves-other target (key ∷ keys) [] leaves s a = refl
apply_leaves-other target (key ∷ keys) (value ∷ values) leaves s (ne, a) =
    apply_leaves-other target keys values (apply_leaf key value leaves)
      (map_insert-Sorted (encode_state_key key) _ leaves s) a
    ∙ map_get-insert_other target (encode_state_key key) _ leaves s ne

pub Below-ne : (a b : Bytes) → Below a b → a ≢ b
Below-ne a b lt e =
    let same = compare_bytes_refl a in
    let lt' = subst (λ (x : Bytes). compare_bytes a x ≡ Ordering.lt) (sym e) lt in cc

-- What the accumulator holds under a key.
abbrev pub lookup : InMemoryAccumulator → StateKey → Option StoredLeaf
lookup acc key = map_get (encode_state_key key) acc.leaves

abbrev pub next_of : Sha256 → InMemoryAccumulator → StatePatch → InMemoryAccumulator
next_of h acc patch = recompute_root h (apply_leaves patch.accesses patch.new_values acc.leaves)

-- Each key holds the value at its position; there are as many values as keys.
abbrev pub Stored : InMemoryAccumulator → List StateKey → List Bytes → Type 0
Stored acc [] [] = Unit
Stored acc [] (value ∷ values) = ⊥
Stored acc (key ∷ keys) [] = ⊥
Stored acc (key ∷ keys) (value ∷ values) =
    (lookup acc key ≡ some (record { key = key; leaf_value = value })) × Stored acc keys values

-- The bytes of the key are those of one in the list.
abbrev pub Named : StateKey → List StateKey → Type 0
Named other [] = ⊥
Named other (key ∷ keys) = (encode_state_key other ≡ encode_state_key key) ⊎ Named other keys

Named-later :
    (other key : StateKey) (keys : List StateKey)
    → encode_state_key other ≢ encode_state_key key
    → (Named other keys ⊎ All (λ (k : StateKey). encode_state_key other ≢ encode_state_key k) keys)
    → Named other (key ∷ keys)
      ⊎ All (λ (k : StateKey). encode_state_key other ≢ encode_state_key k) (key ∷ keys)
Named-later other key keys ne (inl named) = inl (inr named)
Named-later other key keys ne (inr apart) = inr (ne, apart)

Named-cases :
    (other : StateKey) (keys : List StateKey)
    → Named other keys ⊎ All (λ (k : StateKey). encode_state_key other ≢ encode_state_key k) keys
Named-cases other [] = inr tt
Named-cases other (key ∷ keys) =
    elim (Ordering-cases (compare_bytes (encode_state_key other) (encode_state_key key))) [
      | inl low ↦ Named-later other key keys (Below-ne _ _ low) (Named-cases other keys)
      | inr (inl same) ↦ inl (inl (compare_bytes-eq _ _ same))
      | inr (inr high) ↦
          Named-later other key keys (λ e. Below-ne _ _ (Below-asymm _ _ high) (sym e))
            (Named-cases other keys)
    ]

apply_leaves-Stored :
    (h : Sha256) (keys : List StateKey) (values : List Bytes) (leaves : ByteMap StoredLeaf)
    → Sorted leaves
    → Increasing keys
    → length keys ≡ length values
    → Stored (recompute_root h (apply_leaves keys values leaves)) keys values
unfolding apply_leaves apply_leaf recompute_root
apply_leaves-Stored h [] [] leaves s inc e = tt
apply_leaves-Stored h [] (value ∷ values) leaves s inc e = absurd (omega arith)
apply_leaves-Stored h (key ∷ keys) [] leaves s inc e = absurd (omega arith)
apply_leaves-Stored h (key ∷ keys) (value ∷ values) leaves s (above, inc) e =
    let at : Bytes = encode_state_key key in
    let stored = map_insert-Sorted at _ leaves s in
    (
      apply_leaves-other at keys values (apply_leaf key value leaves) stored
            (All-map _ _ keys (λ l. Below-ne at (encode_state_key l)) above)
          ∙ map_get-insert_same at _ leaves,
      apply_leaves-Stored h keys values (apply_leaf key value leaves) stored inc (omega arith),
    )

-- `apply_transition` returns a root only when both checks pass, and then has applied the patch.
pub transition_ok :
    (h : Sha256) (acc : InMemoryAccumulator) (patch : StatePatch) {root : Root}
    → (apply_transition h acc patch).0 ≡ ok root
    → (validate_shape patch ≡ ok tt)
      × ((ensure_canonical_access_order patch.accesses ≡ ok tt)
          × ((apply_transition h acc patch).1 ≡ next_of h acc patch))
unfolding apply_transition
transition_ok h acc patch {root = root} e =
    let order = ensure_canonical_access_order patch.accesses in
    elim (Result-cases (validate_shape patch >> order)) [
      | inl (_, c) ↦
          let (_, shape, ordered) = >>=-eq-ok (validate_shape patch) (λ _. order) c in
          (shape, (ordered, rw (c, apply_transition) refl))
      | inr (reason, c) ↦
          let fails : (apply_transition h acc patch).0 ≡ err reason =
            rw (c, apply_transition) refl in
          absurd cc
    ]

-- A refused transition leaves the accumulator as it was.
pub transition_err :
    (h : Sha256) (acc : InMemoryAccumulator) (patch : StatePatch) {e : StateError}
    → (apply_transition h acc patch).0 ≡ err e
    → (apply_transition h acc patch).1 ≡ acc
unfolding apply_transition
transition_err h acc patch {e = e} r =
    elim (Result-cases (validate_shape patch >> ensure_canonical_access_order patch.accesses)) [
      | inl (_, c) ↦
          let succeeds : (apply_transition h acc patch).0 ≡ ok (next_of h acc patch).root =
            rw (c, apply_transition) refl in
          absurd cc
      | inr (_, c) ↦ rw (c, apply_transition) refl
    ]

-- The root returned is that of the accumulator left.
pub transition_ok-root :
    (h : Sha256) (acc : InMemoryAccumulator) (patch : StatePatch) {root : Root}
    → (apply_transition h acc patch).0 ≡ ok root
    → (apply_transition h acc patch).1.root ≡ root
unfolding apply_transition
transition_ok-root h acc patch {root = root} e =
    let (_, (_, left)) = transition_ok h acc patch e in
    let checks = validate_shape patch >> ensure_canonical_access_order patch.accesses in
    elim (Result-cases checks) [
      | inl (_, c) ↦
          let returned : (apply_transition h acc patch).0 ≡ ok (next_of h acc patch).root =
            rw (c, apply_transition) refl in
          ap (λ (a : InMemoryAccumulator). a.root) left ∙ ok-injective (sym returned ∙ e)
      | inr (reason, c) ↦
          let fails : (apply_transition h acc patch).0 ≡ err reason =
            rw (c, apply_transition) refl in
          absurd cc
    ]

pub validate_shape-length :
    (patch : StatePatch)
    → validate_shape patch ≡ ok tt
    → length patch.accesses ≡ length patch.new_values
unfolding validate_shape
validate_shape-length patch e =
    let (same, _) = if_ok _ _ _ e in
    (==_iff (length patch.accesses) (length patch.new_values)).0 same

-- An accepted transition on a well formed accumulator has as many values as keys, and the keys in
-- strictly increasing order of their canonical bytes; afterwards every key of the patch holds the value
-- at its position, and any other key holds what it held, unless its bytes are those of a key of the
-- patch.
pub apply_transition-leaves :
    (h : Sha256) (acc : InMemoryAccumulator) (patch : StatePatch) (root : Root) (other : StateKey)
    → WellFormed h acc
    → (apply_transition h acc patch).0 ≡ ok root
    → Increasing patch.accesses
      × (Stored (apply_transition h acc patch).1 patch.accesses patch.new_values
          × (Named other patch.accesses
              ⊎ (lookup (apply_transition h acc patch).1 other ≡ lookup acc other)))
unfolding recompute_root ensure_canonical_access_order
apply_transition-leaves h acc patch root other w e =
    let (shape, (ordered, next)) = transition_ok h acc patch e in
    let inc = increasing_loop-Increasing _ 0 patch.accesses ordered in
    (
      inc,
      (
        subst (λ (a : InMemoryAccumulator). Stored a patch.accesses patch.new_values) (sym next)
            (apply_leaves-Stored h patch.accesses patch.new_values acc.leaves w.sorted inc
              (validate_shape-length patch shape)),
        elim (Named-cases other patch.accesses) [
          | inl named ↦ inl named
          | inr apart ↦ inr (
              ap (λ (a : InMemoryAccumulator). lookup a other) next
              ∙ apply_leaves-other (encode_state_key other) patch.accesses patch.new_values
                  acc.leaves w.sorted apart)
        ],
      ),
    )

-- ===== src/State/Accumulator/Abstract.antt =====
-- The accumulator as the finite map that it stands for.
use shell_chain_specs.Common.{
  ◌≡◌, refl, sym, ap, ◌∙◌, Option, some, List, [], ◌∷◌, Bytes, Bool-cases, inl, inr, bytes_eq,
  bytes_eq→eq, if◌then◌else◌, ok, err, Result-cases, ◌>>◌, ByteMap, Sorted, map_get, map_insert,
  map_insert-Sorted, map_get-insert_same, map_get-insert_other, ByteMap_ext, eq→bytes_eq,
}
use shell_chain_specs.Primitives.Types.{Root}
use shell_chain_specs.Primitives.StateKey.{StateKey, encode_state_key}
use shell_chain_specs.Primitives.Hash.{Sha256}
use shell_chain_specs.State.Witness.{StatePatch, validate_shape, ensure_canonical_access_order}
use shell_chain_specs.State.Accumulator.{
  StoredLeaf, InMemoryAccumulator, apply_leaf, apply_leaves, recompute_root, apply_transition,
}
use shell_chain_specs.State.Accumulator.Invariant.{WellFormed, next_of}

-- What stands under each string of bytes.
abbrev pub Contents : Type 0
Contents = Bytes → Option StoredLeaf

abbrev pub contents : InMemoryAccumulator → Contents
contents acc key = map_get key acc.leaves

-- A write, and the writes of a patch in their order.
abbrev pub write : StateKey → Bytes → Contents → Contents
write key value before at =
    if bytes_eq at (encode_state_key key)
    then some (record { key = key; leaf_value = value })
    else before at

abbrev pub write_all : List StateKey → List Bytes → Contents → Contents
write_all [] values before = before
write_all (key ∷ keys) [] before = before
write_all (key ∷ keys) (value ∷ values) before = write_all keys values (write key value before)

apply_leaf-write :
    (key : StateKey) (value : Bytes) (leaves : ByteMap StoredLeaf) (at : Bytes)
    → Sorted leaves
    → map_get at (apply_leaf key value leaves) ≡ write key value (λ k. map_get k leaves) at
unfolding apply_leaf
apply_leaf-write key value leaves at s = elim (Bool-cases (bytes_eq at (encode_state_key key))) [
  | inl same ↦
      let leaf : StoredLeaf = record { key = key; leaf_value = value } in
      rw same (
        ap (λ (k : Bytes). map_get k (map_insert (encode_state_key key) leaf leaves))
          (bytes_eq→eq at (encode_state_key key) same)
        ∙ map_get-insert_same (encode_state_key key) leaf leaves)
  | inr other ↦ rw other (
      map_get-insert_other at (encode_state_key key) _ leaves s
        λ e. absurd (cc (sym (eq→bytes_eq at (encode_state_key key) e) ∙ other)))
]

apply_leaves-write_all :
    (keys : List StateKey) (values : List Bytes) (leaves : ByteMap StoredLeaf)
    → Sorted leaves
    → (λ (at : Bytes). map_get at (apply_leaves keys values leaves))
      ≡ write_all keys values (λ at. map_get at leaves)
unfolding apply_leaves apply_leaf
apply_leaves-write_all [] values leaves s = refl
apply_leaves-write_all (key ∷ keys) [] leaves s = refl
apply_leaves-write_all (key ∷ keys) (value ∷ values) leaves s =
    apply_leaves-write_all keys values (apply_leaf key value leaves)
      (map_insert-Sorted (encode_state_key key) _ leaves s)
    ∙ ap (write_all keys values) (λ i at. apply_leaf-write key value leaves at s i)

contents-leaves :
    (h : Sha256) (a b : InMemoryAccumulator)
    → WellFormed h a
    → WellFormed h b
    → contents a ≡ contents b
    → a.leaves ≡ b.leaves
contents-leaves h a b wa wb same =
    ByteMap_ext a.leaves b.leaves wa.sorted wb.sorted (λ key i. same i key)

-- A transition is one of the finite map: of two well formed accumulators that hold the same, one
-- accepts a patch with a root when the other accepts it with this root, and both then hold what they
-- held, overwritten with the patch's values under the canonical bytes of its keys.
pub apply_transition-write_all :
    (h : Sha256) (a b : InMemoryAccumulator) (patch : StatePatch) (root : Root)
    → WellFormed h a
    → WellFormed h b
    → contents a ≡ contents b
    → (apply_transition h a patch).0 ≡ ok root
    → ((apply_transition h b patch).0 ≡ ok root)
      × ((contents (apply_transition h a patch).1
            ≡ write_all patch.accesses patch.new_values (contents a))
          × (contents (apply_transition h b patch).1
              ≡ write_all patch.accesses patch.new_values (contents a)))
unfolding recompute_root apply_transition
apply_transition-write_all h a b patch root wa wb same e =
    let leaves = contents-leaves h a b wa wb same in
    let checks = validate_shape patch >> ensure_canonical_access_order patch.accesses in
    let moved : next_of h a patch ≡ next_of h b patch =
      ap
        (λ (m : ByteMap StoredLeaf).
          recompute_root h (apply_leaves patch.accesses patch.new_values m))
        leaves in
    let written = apply_leaves-write_all patch.accesses patch.new_values a.leaves wa.sorted in
    elim (Result-cases checks) [
      | inl (_, c) ↦
          let on_a : apply_transition h a patch ≡ (ok (next_of h a patch).root, next_of h a patch) =
            rw (c, apply_transition) refl in
          let on_b : apply_transition h b patch ≡ (ok (next_of h b patch).root, next_of h b patch) =
            rw (c, apply_transition) refl in
          (
            ap (λ x. x.0) on_b ∙ (λ i. ok (sym moved i).root) ∙ sym (ap (λ x. x.0) on_a) ∙ e,
            (
              (λ i. contents (on_a i).1) ∙ written,
              (λ i. contents (on_b i).1) ∙ ap contents (sym moved) ∙ written,
            ),
          )
      | inr (reason, c) ↦
          let fails : (apply_transition h a patch).0 ≡ err reason = rw (c, apply_transition) refl in
          absurd (cc (sym fails ∙ e))
    ]

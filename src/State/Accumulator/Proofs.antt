-- ===== src/State/Accumulator/Proofs.antt =====
-- The witnesses that the accumulator hands out, and those that it accepts.
use shell_chain_specs.Common.{
  ◌≡◌, ◌↔◌, refl, sym, ap, subst, ◌∙◌, inl, inr, Bool, true, some, Option-cases, Bool-cases, List,
  [], ◌∷◌, Bytes, All, is_empty, bytes_eq, bytes_eq→eq, bytes_eq_refl, if_ok, ok, err, ok-injective,
  >>=-eq-ok, ok_or, ok_or-eq-ok, ByteMap, last_below, first_above, is_lt, last_below-Below,
  first_above-Below, All-last_below, All-first_above, All-map_get, compare_bytes,
}
use shell_chain_specs.Primitives.Types.{Root}
use shell_chain_specs.Primitives.StateKey.{
  StateKey, StateWitness, StateKeyIsValid, encode_state_key, compare_state_keys, state_key_eq,
  proof_shape,
}
use shell_chain_specs.Primitives.StateKey.Order.{encode_state_key-injective, state_key_eq_refl}
use shell_chain_specs.Primitives.Hash.{Sha256}
use shell_chain_specs.State.Witness.{
  backend, unsupported_proof_shape, reference_backend_proof_shape_context,
  ensure_reference_backend_proof_shape,
}
use shell_chain_specs.State.Accumulator.{
  StoredLeaf, ReferenceProofPath, InMemoryAccumulator, from_entry, from_stored_leaf, ensure,
  ensure_left, ensure_right, verify_path, proof_path_for_access, derive_proof_path, verify_witness,
}
use shell_chain_specs.State.Accumulator.Invariant.{WellFormed, IsCanonical, lookup}

ensure-ok : (b : Bool) (context : _) → b ≡ true → ensure b context ≡ ok tt
unfolding ensure
ensure-ok b context e = rw e refl

left-ok :
    (leaves : ByteMap StoredLeaf) (key : StateKey)
    → All IsCanonical leaves
    → ensure_left (from_entry (last_below (encode_state_key key) leaves)) key ≡ ok tt
unfolding ensure_left compare_state_keys
left-ok leaves key a = elim (Option-cases (last_below (encode_state_key key) leaves)) [
  | inl e ↦ rw e refl
  | inr (entry, e) ↦
      let below = last_below-Below (encode_state_key key) leaves e in
      let (canonical, _) = All-last_below IsCanonical (encode_state_key key) leaves a e in
      let lt = ap (λ (k : Bytes). is_lt (compare_bytes k (encode_state_key key))) canonical in
      rw e (ensure-ok _ _ (lt ∙ ap is_lt below))
]

right-ok :
    (leaves : ByteMap StoredLeaf) (key : StateKey)
    → All IsCanonical leaves
    → ensure_right (from_entry (first_above (encode_state_key key) leaves)) key ≡ ok tt
unfolding ensure_right compare_state_keys
right-ok leaves key a = elim (Option-cases (first_above (encode_state_key key) leaves)) [
  | inl e ↦ rw e refl
  | inr (entry, e) ↦
      let below = first_above-Below (encode_state_key key) leaves e in
      let (canonical, _) = All-first_above IsCanonical (encode_state_key key) leaves a e in
      let lt = ap (λ (k : Bytes). is_lt (compare_bytes (encode_state_key key) k)) canonical in
      rw e (ensure-ok _ _ (lt ∙ ap is_lt below))
]

pub stored_key :
    (h : Sha256) (acc : InMemoryAccumulator) (key : StateKey) {leaf : StoredLeaf}
    → WellFormed h acc
    → StateKeyIsValid key
    → lookup acc key ≡ some leaf
    → leaf.key ≡ key
stored_key h acc key {leaf = leaf} w v e =
    let (canonical, valid) =
      All-map_get IsCanonical (encode_state_key key) acc.leaves {value = leaf} w.canonical e in
    encode_state_key-injective leaf.key key valid v canonical

unfoldable pub path_of : InMemoryAccumulator → StateKey → StoredLeaf → ReferenceProofPath
path_of acc key leaf = record {
  expected_root = acc.root;
  leaf = from_stored_leaf (encode_state_key key) leaf;
  left_neighbor = from_entry (last_below (encode_state_key key) acc.leaves);
  right_neighbor = from_entry (first_above (encode_state_key key) acc.leaves);
}

pub path_of_found :
    (acc : InMemoryAccumulator) (key : StateKey) {leaf : StoredLeaf}
    → lookup acc key ≡ some leaf
    → proof_path_for_access acc key ≡ ok (path_of acc key leaf)
unfolding proof_path_for_access path_of
path_of_found acc key e = rw e refl

verify_path-ok :
    (h : Sha256) (acc : InMemoryAccumulator) (witness : StateWitness)
    → WellFormed h acc
    → verify_path
        (path_of acc witness.key (record { key = witness.key; leaf_value = witness.leaf_value }))
        witness
        acc.root
      ≡ ok tt
unfolding verify_path path_of ensure
verify_path-ok h acc witness w =
    rw
      (
        bytes_eq_refl acc.root,
        state_key_eq_refl witness.key,
        bytes_eq_refl witness.leaf_value,
        left-ok acc.leaves witness.key w.canonical,
      )
      (right-ok acc.leaves witness.key w.canonical)

verify_path-root :
    (path : ReferenceProofPath) (witness : StateWitness) (root : Root)
    → verify_path path witness root ≡ ok tt
    → (path.expected_root ≡ root) × (path.leaf.leaf_value ≡ witness.leaf_value)
unfolding verify_path ensure
verify_path-root path witness root e =
    let (_, r, e1) =
      >>=-eq-ok
        (ensure (bytes_eq path.expected_root root)
          "reference proof path was built against a different state root")
        _ e in
    let (_, k, e2) =
      >>=-eq-ok
        (ensure (state_key_eq path.leaf.key witness.key)
          "reference proof leaf does not match witness key")
        _ e1 in
    let (_, v, e3) =
      >>=-eq-ok
        (ensure (bytes_eq path.leaf.leaf_value witness.leaf_value)
          "reference proof leaf does not match witness value")
        _ e2 in
    let (root_eq, _) = if_ok (bytes_eq path.expected_root root) _ _ r in
    let (value_eq, _) = if_ok (bytes_eq path.leaf.leaf_value witness.leaf_value) _ _ v in
    (
      bytes_eq→eq path.expected_root root root_eq,
      bytes_eq→eq path.leaf.leaf_value witness.leaf_value value_eq,
    )

is_empty→nil : (xs : List Bytes) → is_empty xs ≡ true → xs ≡ []
is_empty→nil [] e = refl
is_empty→nil (x ∷ xs) e = cc

shape-empty :
    (witness : StateWitness)
    → ensure_reference_backend_proof_shape witness ≡ ok tt
    → witness.proof ≡ []
unfolding ensure_reference_backend_proof_shape proof_shape
shape-empty witness e = elim (Bool-cases (is_empty witness.proof)) [
  | inl t ↦ is_empty→nil witness.proof t
  | inr f ↦
      let refused : ensure_reference_backend_proof_shape witness
          ≡ err (unsupported_proof_shape reference_backend_proof_shape_context) =
        rw (f, ensure_reference_backend_proof_shape, proof_shape) refl in
      absurd cc
]

empty-shape :
    (witness : StateWitness)
    → witness.proof ≡ []
    → ensure_reference_backend_proof_shape witness ≡ ok tt
unfolding ensure_reference_backend_proof_shape proof_shape
empty-shape witness e = rw e refl

derive_proof_path-inv :
    (acc : InMemoryAccumulator) (witness : StateWitness) (path : ReferenceProofPath)
    → derive_proof_path acc witness ≡ ok path
    → (witness.proof ≡ [])
      × ((leaf : StoredLeaf) × ((lookup acc witness.key ≡ some leaf)
            × (path ≡ path_of acc witness.key leaf)))
unfolding derive_proof_path proof_path_for_access
derive_proof_path-inv acc witness path e =
    let (_, shape, e1) = >>=-eq-ok (ensure_reference_backend_proof_shape witness) _ e in
    let (p, found, e2) = >>=-eq-ok (proof_path_for_access acc witness.key) _ e1 in
    let (_, _, e3) = >>=-eq-ok (verify_path p witness acc.root) _ e2 in
    let (leaf, got, _) =
      >>=-eq-ok
        (ok_or (lookup acc witness.key)
          (backend "reference backend only supports proof paths for materialized keys"))
        _ found in
    let present = ok_or-eq-ok (lookup acc witness.key) _ got in
    (
      shape-empty witness shape,
      (
        leaf,
        (
          present,
          sym (ok-injective e3) ∙ ok-injective (sym found ∙ path_of_found acc witness.key present),
        ),
      ),
    )

derive_proof_path-own :
    (h : Sha256) (acc : InMemoryAccumulator) (witness : StateWitness)
    → WellFormed h acc
    → witness.proof ≡ []
    → lookup acc witness.key ≡ some (record { key = witness.key; leaf_value = witness.leaf_value })
    → derive_proof_path acc witness
      ≡ ok (path_of acc witness.key (record { key = witness.key; leaf_value = witness.leaf_value }))
unfolding derive_proof_path
derive_proof_path-own h acc witness w empty present =
    rw
      (
        empty-shape witness empty,
        path_of_found acc witness.key present,
        verify_path-ok h acc witness w,
      )
      refl

-- On a well formed accumulator and a key in the range of Rust's type, a witness is accepted against a
-- state root exactly when the root is the accumulator's, the proof is empty, and the accumulator holds
-- the witness's value under its key.
pub verify_witness_iff :
    (h : Sha256) (acc : InMemoryAccumulator) (witness : StateWitness) (root : Root)
    → WellFormed h acc
    → StateKeyIsValid witness.key
    → (verify_witness acc witness root ≡ ok tt) ↔ (
        (acc.root ≡ root)
        × ((witness.proof ≡ [])
            × (lookup acc witness.key
                ≡ some (record { key = witness.key; leaf_value = witness.leaf_value }))))
unfolding verify_witness path_of
verify_witness_iff h acc witness root w valid = (
  (λ e.
      let (path, derived, checked) = >>=-eq-ok (derive_proof_path acc witness) _ e in
      let (empty, (leaf, (present, made))) = derive_proof_path-inv acc witness path derived in
      let (same_root, same_value) =
        verify_path-root (path_of acc witness.key leaf) witness root
          (subst (λ (p : ReferenceProofPath). verify_path p witness root ≡ ok tt) made checked) in
      let key = stored_key h acc witness.key w valid present in
      (
        same_root,
        (empty, present ∙ ap some (λ i. record { key = key i; leaf_value = same_value i })),
      )),
  (λ (same_root, (empty, present)).
      let derived = derive_proof_path-own h acc witness w empty present in
      rw (derived, sym same_root) (verify_path-ok h acc witness w)),
)

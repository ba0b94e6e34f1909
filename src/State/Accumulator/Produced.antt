-- ===== src/State/Accumulator/Produced.antt =====
-- The witnesses produced for a list of accesses.
use shell_chain_specs.Common.{
  ◌≡◌, ◌↔◌, refl, sym, ap, subst, ◌∙◌, some, List, [], ◌∷◌, All, Bytes, ok, ok-injective, >>=-eq-ok,
  ok_or, ok_or-eq-ok,
}
use shell_chain_specs.Primitives.StateKey.{StateKey, StateWitness, StateKeyIsValid}
use shell_chain_specs.Primitives.Hash.{Sha256}
use shell_chain_specs.State.Witness.{
  backend, keys_of, ensure_canonical_access_order, ensure_canonical_witness_order, verify_loop,
  verify_witnesses,
}
use shell_chain_specs.State.Witness.Order.{
  Increasing, increasing_loop-Increasing, Increasing-increasing_loop,
}
use shell_chain_specs.State.Accumulator.{
  StoredLeaf, ReferenceProofPath, InMemoryAccumulator, proof_path_for_access, verify_witness,
  collect_witnesses, get_witness_for_accesses,
}
use shell_chain_specs.State.Accumulator.Invariant.{WellFormed, lookup}
use shell_chain_specs.State.Accumulator.Proofs.{
  path_of, path_of_found, stored_key, verify_witness_iff,
}

-- The key is materialized: the accumulator holds a leaf under it.
abbrev pub Present : InMemoryAccumulator → StateKey → Type 0
Present acc key = (leaf : StoredLeaf) × (lookup acc key ≡ some leaf)

witness_of : StateKey → StoredLeaf → StateWitness
witness_of key leaf = record { key = key; leaf_value = leaf.leaf_value; proof = [] }

-- One step of the collection.
collect-inv :
    (acc : InMemoryAccumulator) (key : StateKey) (keys : List StateKey) (ws : List StateWitness)
    → collect_witnesses acc (key ∷ keys) ≡ ok ws
    → (leaf : StoredLeaf) × ((lookup acc key ≡ some leaf)
        × ((rest : List StateWitness) × ((collect_witnesses acc keys ≡ ok rest)
              × (ws ≡ witness_of key leaf ∷ rest))))
unfolding collect_witnesses proof_path_for_access witness_of
collect-inv acc key keys ws e =
    let (path, found, e1) = >>=-eq-ok (proof_path_for_access acc key) _ e in
    let (rest, collected, e2) = >>=-eq-ok (collect_witnesses acc keys) _ e1 in
    let (leaf, got, made) =
      >>=-eq-ok
        (ok_or (lookup acc key)
          (backend "reference backend only supports proof paths for materialized keys"))
        _ found in
    let value = ap (λ (p : ReferenceProofPath). p.leaf.leaf_value) (ok-injective made) in
    (
      leaf,
      (
        ok_or-eq-ok (lookup acc key) _ got,
        (
          rest,
          (
            collected,
            sym (ok-injective e2)
                ∙ ap (λ (v : Bytes). record { key = key; leaf_value = v; proof = [] } ∷ rest)
                    (sym value),
          ),
        ),
      ),
    )

collect_lem :
    (h : Sha256) (acc : InMemoryAccumulator) (keys : List StateKey) (ws : List StateWitness)
    → WellFormed h acc
    → All StateKeyIsValid keys
    → collect_witnesses acc keys ≡ ok ws
    → (keys_of ws ≡ keys)
      × ((verify_loop (verify_witness acc) ws acc.root ≡ ok tt) × All (Present acc) keys)
unfolding verify_loop witness_of collect_witnesses
collect_lem h acc [] ws w v e =
    let none_left : [] ≡ ws = ok-injective e in
    (
      ap keys_of (sym none_left),
      (
        subst (λ (x : List StateWitness). verify_loop (verify_witness acc) x acc.root ≡ ok tt)
            none_left refl,
        tt,
      ),
    )
collect_lem h acc (key ∷ keys) ws w (v, vs) e =
    let (leaf, (present, (rest, (collected, made)))) = collect-inv acc key keys ws e in
    let (names, (verified, all)) = collect_lem h acc keys rest w vs collected in
    let same = stored_key h acc key w v present in
    let held = present ∙ ap some (λ i. record { key = same i; leaf_value = leaf.leaf_value }) in
    let first =
      (verify_witness_iff h acc (witness_of key leaf) acc.root w v).1 (refl, (refl, held)) in
    (ap keys_of made ∙ ap (◌∷◌ key) names, (rw (made, first) verified, ((leaf, present), all)))

-- The witnesses that a well formed accumulator hands out for keys in the range of Rust's type are for
-- these keys, in this order, and its own verifier accepts them all against its root.
pub get_witness_for_accesses-verify_witnesses :
    (h : Sha256) (acc : InMemoryAccumulator) (accesses : List StateKey) (ws : List StateWitness)
    → WellFormed h acc
    → All StateKeyIsValid accesses
    → get_witness_for_accesses acc accesses ≡ ok ws
    → (keys_of ws ≡ accesses) × (verify_witnesses (verify_witness acc) ws acc.root ≡ ok tt)
unfolding get_witness_for_accesses verify_witnesses ensure_canonical_access_order
    ensure_canonical_witness_order
get_witness_for_accesses-verify_witnesses h acc accesses ws w v e =
    let (_, ordered, collected) = >>=-eq-ok (ensure_canonical_access_order accesses) _ e in
    let (names, (verified, _)) = collect_lem h acc accesses ws w v collected in
    let inc = increasing_loop-Increasing _ 0 accesses ordered in
    let order =
      Increasing-increasing_loop
        "witness keys must be strictly increasing in canonical StateKey order" 0 (keys_of ws)
        (subst Increasing (sym names) inc) in
    (names, rw order verified)

Present-collect :
    (acc : InMemoryAccumulator) (keys : List StateKey)
    → All (Present acc) keys
    → (ws : List StateWitness) × (collect_witnesses acc keys ≡ ok ws)
unfolding collect_witnesses path_of witness_of
Present-collect acc [] a = ([], refl)
Present-collect acc (key ∷ keys) ((leaf, present), a) =
    let (ws, collected) = Present-collect acc keys a in
    (witness_of key leaf ∷ ws, rw (path_of_found acc key present, collected) refl)

Present-of :
    (acc : InMemoryAccumulator) (keys : List StateKey) (ws : List StateWitness)
    → collect_witnesses acc keys ≡ ok ws
    → All (Present acc) keys
Present-of acc [] ws e = tt
Present-of acc (key ∷ keys) ws e =
    let (leaf, (present, (rest, (collected, _)))) = collect-inv acc key keys ws e in
    ((leaf, present), Present-of acc keys rest collected)

-- Witnesses are handed out exactly when the keys asked for are in strictly increasing order of their
-- canonical bytes and the accumulator holds a leaf under each of them.
pub get_witness_for_accesses_iff :
    (acc : InMemoryAccumulator) (accesses : List StateKey)
    → ((ws : List StateWitness) × (get_witness_for_accesses acc accesses ≡ ok ws))
      ↔ (Increasing accesses × All (Present acc) accesses)
unfolding get_witness_for_accesses ensure_canonical_access_order
get_witness_for_accesses_iff acc accesses = (
  (λ (ws, e).
      let (_, ordered, collected) = >>=-eq-ok (ensure_canonical_access_order accesses) _ e in
      (increasing_loop-Increasing _ 0 accesses ordered, Present-of acc accesses ws collected)),
  (λ (inc, all).
      let (ws, collected) = Present-collect acc accesses all in
      let order =
        Increasing-increasing_loop
          "access keys must be strictly increasing in canonical StateKey order" 0 accesses inc in
      (ws, rw order collected)),
)

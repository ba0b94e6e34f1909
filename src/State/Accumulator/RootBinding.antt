-- ===== src/State/Accumulator/RootBinding.antt =====
-- What the reference root says of the leaves.
use Prim.Native.Nat.{◌%◌}
use shell_chain_specs.Common.{
  ◌^◌, ◌<◌, ◌≡◌, refl, sym, ap, ap₂, ◌∙◌, ◌⊎◌, inl, [], ◌∷◌, ◌++◌, Bytes, length, All, arith,
  append-inj, length-append, to_be_bytes, length-to_be_bytes, to_be_bytes-inj, ByteMap,
}
use shell_chain_specs.Primitives.StateKey.Order.{
  encode_state_key-injective, length-encode_state_key,
}
use shell_chain_specs.Primitives.Hash.{Sha256, Collision}
use shell_chain_specs.Primitives.Ssz.Binding.{Bound, both, digest-binds}
use shell_chain_specs.State.Accumulator.{
  StoredLeaf, InMemoryAccumulator, root_tag, leaf_tag, reference_leaf_digest, leaf_digests,
  compute_reference_root,
}
use shell_chain_specs.State.Accumulator.Invariant.{IsCanonical, WellFormed}

frame-inj :
    (a b x y : Bytes)
    → length a < 2 ^ 32
    → length b < 2 ^ 32
    → to_be_bytes 4 (length a % 2 ^ 32) ++ (a ++ x) ≡ to_be_bytes 4 (length b % 2 ^ 32) ++ (b ++ y)
    → (a ≡ b) × (x ≡ y)
frame-inj a b x y ha hb e =
    let la = length a % 2 ^ 32 in
    let lb = length b % 2 ^ 32 in
    let (lens, rest) =
      append-inj (to_be_bytes 4 la) (a ++ x) (to_be_bytes 4 lb) (b ++ y)
        (length-to_be_bytes 4 la ∙ sym (length-to_be_bytes 4 lb)) e in
    let same = to_be_bytes-inj 4 la lb (omega arith) (omega arith) lens in
    append-inj a x b y (omega arith) rest

frame_last-inj :
    (a b : Bytes)
    → to_be_bytes 4 (length a % 2 ^ 32) ++ a ≡ to_be_bytes 4 (length b % 2 ^ 32) ++ b
    → a ≡ b
frame_last-inj a b e =
    let la = length a % 2 ^ 32 in
    let lb = length b % 2 ^ 32 in
    (append-inj (to_be_bytes 4 la) a (to_be_bytes 4 lb) b
      (length-to_be_bytes 4 la ∙ sym (length-to_be_bytes 4 lb)) e).1

entry-eq :
    (e f : Bytes × StoredLeaf)
    → IsCanonical e
    → IsCanonical f
    → e.0 ≡ f.0
    → e.1.leaf_value ≡ f.1.leaf_value
    → e ≡ f
entry-eq e f (ce, ve) (cf, vf) k v =
    let key = encode_state_key-injective e.1.key f.1.key ve vf (ce ∙ k ∙ sym cf) in
    λ i. (k i, record { key = key i; leaf_value = v i })

module _ (h : Sha256) where
  leaf-binds :
      (e f : Bytes × StoredLeaf)
      → IsCanonical e
      → IsCanonical f
      → reference_leaf_digest h e.0 e.1 ≡ reference_leaf_digest h f.0 f.1
      → Bound h (e ≡ f)
  unfolding reference_leaf_digest
  leaf-binds e f ce cf d =
      let short =
        λ (x : Bytes × StoredLeaf) (c : IsCanonical x). length-encode_state_key x.1.key c.1 in
      both h (digest-binds h _ _ d) λ m.
        let body = (append-inj leaf_tag _ leaf_tag _ refl m).1 in
        let (key, tail) =
          frame-inj e.0 f.0 _ _ (omega (arith, short e ce, ap length ce.0))
            (omega (arith, short f cf, ap length cf.0)) body in
        let value = frame_last-inj e.1.leaf_value f.1.leaf_value tail in
        inl (entry-eq e f ce cf key value)

  digests-bind :
      (xs ys : ByteMap StoredLeaf)
      → All IsCanonical xs
      → All IsCanonical ys
      → leaf_digests h xs ≡ leaf_digests h ys
      → Bound h (xs ≡ ys)
  unfolding leaf_digests reference_leaf_digest
  digests-bind [] [] a b e = inl refl
  digests-bind [] (y ∷ ys) a b e = absurd (
      omega (
        arith,
        ap length e,
        length-append (reference_leaf_digest h y.0 y.1) (leaf_digests h ys),
        h.length-digest _,
      ))
  digests-bind (x ∷ xs) [] a b e = absurd (
      omega (
        arith,
        ap length e,
        length-append (reference_leaf_digest h x.0 x.1) (leaf_digests h xs),
        h.length-digest _,
      ))
  digests-bind (x ∷ xs) (y ∷ ys) (a, as') (b, bs) e =
      let dx = reference_leaf_digest h x.0 x.1 in
      let dy = reference_leaf_digest h y.0 y.1 in
      let (first, rest) =
        append-inj dx (leaf_digests h xs) dy (leaf_digests h ys)
          (h.length-digest _ ∙ sym (h.length-digest _)) e in
      both h (leaf-binds x y a b first)
        λ p. both h (digests-bind xs ys as' bs rest) λ q. inl (ap₂ ◌∷◌ p q)

-- Two well formed accumulators whose leaves have the same reference root have the same leaves, or two
-- messages with one SHA-256 digest can be given.
pub compute_reference_root-binds :
    (h : Sha256) (a b : InMemoryAccumulator)
    → WellFormed h a
    → WellFormed h b
    → compute_reference_root h a.leaves ≡ compute_reference_root h b.leaves
    → (a.leaves ≡ b.leaves) ⊎ Collision h
unfolding compute_reference_root
compute_reference_root-binds h a b wa wb e = both h (digest-binds h _ _ e) λ m.
    digests-bind h a.leaves b.leaves wa.canonical wb.canonical
      (append-inj root_tag _ root_tag _ refl m).1

-- ===== src/Execution/Receipts.antt =====
-- What the receipts root says of the receipts.
use shell_chain_specs.Common.{
  ◌≡◌, refl, sym, ap, ap₂, ◌∙◌, ◌⊎◌, inl, List, [], ◌∷◌, length, arith, append-inj, length-append,
  to_be_bytes, length-to_be_bytes,
}
use shell_chain_specs.Primitives.Hash.{Sha256, Collision}
use shell_chain_specs.Primitives.Ssz.Binding.{Bound, both, digest-binds}
use shell_chain_specs.Execution.{
  ExecutionReceipt, receipt_tag, receipts_root_tag, receipt_root, receipt_roots,
  compute_receipts_root,
}

module _ (h : Sha256) where
  receipt-binds : (a b : ExecutionReceipt) → receipt_root h a ≡ receipt_root h b → Bound h (a ≡ b)
  unfolding receipt_root
  receipt-binds a b e = both h (digest-binds h _ _ e) λ m.
      let body = (append-inj receipt_tag _ receipt_tag _ refl m).1 in
      let (status, framed) = append-inj (a.status_code ∷ []) _ (b.status_code ∷ []) _ refl body in
      let output =
        (append-inj (to_be_bytes 8 (length a.output)) a.output (to_be_bytes 8 (length b.output))
          b.output
          (length-to_be_bytes 8 (length a.output) ∙ sym (length-to_be_bytes 8 (length b.output)))
          framed).1 in
      let code : a.status_code ≡ b.status_code = cc in
      inl λ i. record { status_code = code i; output = output i }

  roots-bind :
      (xs ys : List ExecutionReceipt) → receipt_roots h xs ≡ receipt_roots h ys → Bound h (xs ≡ ys)
  unfolding receipt_roots receipt_root
  roots-bind [] [] e = inl refl
  roots-bind [] (y ∷ ys) e = absurd (
      omega (
        arith,
        ap length e,
        length-append (receipt_root h y) (receipt_roots h ys),
        h.length-digest _,
      ))
  roots-bind (x ∷ xs) [] e = absurd (
      omega (
        arith,
        ap length e,
        length-append (receipt_root h x) (receipt_roots h xs),
        h.length-digest _,
      ))
  roots-bind (x ∷ xs) (y ∷ ys) e =
      let (first, rest) =
        append-inj (receipt_root h x) (receipt_roots h xs) (receipt_root h y) (receipt_roots h ys)
          (h.length-digest _ ∙ sym (h.length-digest _)) e in
      both h (receipt-binds x y first) λ p. both h (roots-bind xs ys rest) λ q. inl (ap₂ ◌∷◌ p q)

-- Two lists of receipts with one receipts root are equal, or two messages with one SHA-256 digest can
-- be given.
pub compute_receipts_root-binds :
    (h : Sha256) (xs ys : List ExecutionReceipt)
    → compute_receipts_root h xs ≡ compute_receipts_root h ys
    → (xs ≡ ys) ⊎ Collision h
unfolding compute_receipts_root
compute_receipts_root-binds h xs ys e = both h (digest-binds h _ _ e) λ m.
    let counted = (append-inj receipts_root_tag _ receipts_root_tag _ refl m).1 in
    roots-bind h xs ys
      (append-inj (to_be_bytes 8 (length xs)) (receipt_roots h xs) (to_be_bytes 8 (length ys))
        (receipt_roots h ys)
        (length-to_be_bytes 8 (length xs) ∙ sym (length-to_be_bytes 8 (length ys))) counted).1

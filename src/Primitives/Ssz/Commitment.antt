-- ===== src/Primitives/Ssz/Commitment.antt =====
-- What a payload root says of the payload.
use shell_chain_specs.Common.{
  ℕ, ◌≡◌, sym, ap, ◌∙◌, ◌⊎◌, inl, [], ◌∷◌, Bytes, arith, ok, ok-injective,
}
use shell_chain_specs.Primitives.Types.{
  Root, TransactionPayload, basic, create, PayloadIsValid, tag_basic, tag_create,
}
use shell_chain_specs.Primitives.Hash.{Sha256, Collision}
use shell_chain_specs.Primitives.Ssz.{fill_chunk, mix_in_selector, payload_root}
use shell_chain_specs.Primitives.Ssz.Binding.{both, pair-binds}
use shell_chain_specs.Primitives.Ssz.ByteList.{WithinLimit}
use shell_chain_specs.Primitives.Ssz.Payload.{
  htr_basic_payload-binds, htr_create_payload-binds, htr_basic_payload-IsChunk,
  htr_create_payload-IsChunk,
}

abbrev pub variable_part : TransactionPayload → Bytes
variable_part (basic p) = p.input
variable_part (create p) = p.initcode

selector-inj : (a b : ℕ) → fill_chunk (a ∷ []) ≡ fill_chunk (b ∷ []) → a ≡ b
selector-inj a b e = cc

-- Two payloads in the range of Rust's types, with an input or init code of at most 2 ^ 20 bytes, that
-- have one root are the same payload, kind and all fields, or two messages with one SHA-256 digest
-- can be given.
pub payload_root-binds :
    (h : Sha256) (p q : TransactionPayload) (root : Root)
    → PayloadIsValid p
    → PayloadIsValid q
    → WithinLimit (variable_part p)
    → WithinLimit (variable_part q)
    → payload_root h p ≡ ok root
    → payload_root h q ≡ ok root
    → (p ≡ q) ⊎ Collision h
unfolding payload_root mix_in_selector
payload_root-binds h (basic p) (basic q) root vp vq fp fq ep eq =
    both h
      (pair-binds h _ (fill_chunk (tag_basic ∷ [])) _ (fill_chunk (tag_basic ∷ []))
        (htr_basic_payload-IsChunk h p vp) (htr_basic_payload-IsChunk h q vq)
        (ok-injective (ep ∙ sym eq)))
      λ s. both h (htr_basic_payload-binds h p q vp vq fp fq s.0) λ e. inl (ap basic e)
payload_root-binds h (create p) (create q) root vp vq fp fq ep eq =
    both h
      (pair-binds h _ (fill_chunk (tag_create ∷ [])) _ (fill_chunk (tag_create ∷ []))
        (htr_create_payload-IsChunk h p vp) (htr_create_payload-IsChunk h q vq)
        (ok-injective (ep ∙ sym eq)))
      λ s. both h (htr_create_payload-binds h p q vp vq fp fq s.0) λ e. inl (ap create e)
payload_root-binds h (basic p) (create q) root vp vq fp fq ep eq =
    both h
      (pair-binds h _ (fill_chunk (tag_basic ∷ [])) _ (fill_chunk (tag_create ∷ []))
        (htr_basic_payload-IsChunk h p vp) (htr_create_payload-IsChunk h q vq)
        (ok-injective (ep ∙ sym eq)))
      λ s. absurd (omega (arith, selector-inj tag_basic tag_create s.1))
payload_root-binds h (create p) (basic q) root vp vq fp fq ep eq =
    both h
      (pair-binds h _ (fill_chunk (tag_create ∷ [])) _ (fill_chunk (tag_basic ∷ []))
        (htr_create_payload-IsChunk h p vp) (htr_basic_payload-IsChunk h q vq)
        (ok-injective (ep ∙ sym eq)))
      λ s. absurd (omega (arith, selector-inj tag_create tag_basic s.1))

-- ===== src/Primitives/Ssz/Payload.antt =====
-- The roots of fees and payloads commit to their contents.
use shell_chain_specs.Common.{◌≡◌, refl, sym, ◌∙◌, inl, List, [], ◌∷◌, Bytes, IsArray, All, arith}
use shell_chain_specs.Primitives.Types.{
  Root, zero_root, BasicFeesPerGas, FeesIsValid, BasicTransactionPayload, BasicIsValid,
  CreateTransactionPayload, CreateIsValid,
}
use shell_chain_specs.Primitives.Hash.{Sha256}
use shell_chain_specs.Primitives.Ssz.{
  htr_u64, htr_address, htr_fees, htr_byte_list, htr_basic_payload, htr_create_payload,
}
use shell_chain_specs.Primitives.Ssz.Binding.{
  IsChunk, fill_chunk-inj, fill_chunk-IsChunk, Bound, both, merkleize-IsChunk, merkleize-binds,
}
use shell_chain_specs.Primitives.Ssz.ByteList.{
  head-eq, htr_u64-inj, htr_u64-IsChunk, WithinLimit, htr_byte_list-binds, htr_byte_list-IsChunk,
}

module _ (h : Sha256) where
  fees_chunks : BasicFeesPerGas → List Root
  fees_chunks f =
      f.regular ∷ f.max_priority_fee_per_gas ∷ f.max_witness_priority_fee ∷ zero_root ∷ []

  fees_chunks-IsChunk : (f : BasicFeesPerGas) → FeesIsValid f → All IsChunk (fees_chunks f)
  unfolding fees_chunks
  fees_chunks-IsChunk f v = (v.regular.0, (v.priority.0, (v.witness.0, (refl, tt))))

  htr_fees-binds :
      (f g : BasicFeesPerGas)
      → FeesIsValid f
      → FeesIsValid g
      → htr_fees h f ≡ htr_fees h g
      → Bound h (f ≡ g)
  unfolding htr_fees fees_chunks
  htr_fees-binds f g vf vg e =
      both h
        (merkleize-binds h 2 (fees_chunks f) (fees_chunks g) (omega arith) refl (omega arith)
          (fees_chunks-IsChunk f vf) (fees_chunks-IsChunk g vg) e)
        λ (p : fees_chunks f ≡ fees_chunks g). inl (ground arith)

  basic_chunks : BasicTransactionPayload → List Root
  basic_chunks p =
      p.chain_id
      ∷ htr_u64 p.nonce
      ∷ htr_u64 p.gas_limit
      ∷ htr_fees h p.fees
      ∷ htr_address p.to
      ∷ p.value
      ∷ htr_byte_list h p.input
      ∷ p.access_commitment
      ∷ []

  create_chunks : CreateTransactionPayload → List Root
  create_chunks p =
      p.chain_id
      ∷ htr_u64 p.nonce
      ∷ htr_u64 p.gas_limit
      ∷ htr_fees h p.fees
      ∷ p.value
      ∷ htr_byte_list h p.initcode
      ∷ p.access_commitment
      ∷ zero_root
      ∷ []

  htr_fees-IsChunk : (f : BasicFeesPerGas) → FeesIsValid f → IsChunk (htr_fees h f)
  unfolding htr_fees fees_chunks
  htr_fees-IsChunk f v =
      merkleize-IsChunk h 2 (fees_chunks f) (omega arith) (fees_chunks-IsChunk f v)

  htr_address-IsChunk : (a : Bytes) → IsArray 20 a → IsChunk (htr_address a)
  unfolding htr_address
  htr_address-IsChunk a v = fill_chunk-IsChunk a (omega arith)

  basic_chunks-IsChunk :
      (p : BasicTransactionPayload) → BasicIsValid p → All IsChunk (basic_chunks p)
  unfolding basic_chunks
  basic_chunks-IsChunk p v = (
    v.chain_id.0,
    (
      htr_u64-IsChunk p.nonce,
      (
        htr_u64-IsChunk p.gas_limit,
        (
          htr_fees-IsChunk p.fees v.fees,
          (
            htr_address-IsChunk p.to v.to,
            (v.value.0, (htr_byte_list-IsChunk h p.input, (v.access_commitment.0, tt))),
          ),
        ),
      ),
    ),
  )

  create_chunks-IsChunk :
      (p : CreateTransactionPayload) → CreateIsValid p → All IsChunk (create_chunks p)
  unfolding create_chunks
  create_chunks-IsChunk p v = (
    v.chain_id.0,
    (
      htr_u64-IsChunk p.nonce,
      (
        htr_u64-IsChunk p.gas_limit,
        (
          htr_fees-IsChunk p.fees v.fees,
          (v.value.0, (htr_byte_list-IsChunk h p.initcode, (v.access_commitment.0, (refl, tt)))),
        ),
      ),
    ),
  )

  pub htr_basic_payload-binds :
      (p q : BasicTransactionPayload)
      → BasicIsValid p
      → BasicIsValid q
      → WithinLimit p.input
      → WithinLimit q.input
      → htr_basic_payload h p ≡ htr_basic_payload h q
      → Bound h (p ≡ q)
  unfolding htr_basic_payload basic_chunks htr_address
  htr_basic_payload-binds p q vp vq fp fq e =
      both h
        (merkleize-binds h 3 (basic_chunks p) (basic_chunks q) (omega arith) refl (omega arith)
          (basic_chunks-IsChunk p vp) (basic_chunks-IsChunk q vq) e)
        λ (c : basic_chunks p ≡ basic_chunks q).
          let (chain_id, c1) = head-eq c in
          let (nonce, c2) = head-eq c1 in
          let (gas, c3) = head-eq c2 in
          let (fees, c4) = head-eq c3 in
          let (to, c5) = head-eq c4 in
          let (value, c6) = head-eq c5 in
          let (input, c7) = head-eq c6 in
          let (access, _) = head-eq c7 in
          let nonce' = htr_u64-inj p.nonce q.nonce vp.nonce vq.nonce nonce in
          let gas' = htr_u64-inj p.gas_limit q.gas_limit vp.gas_limit vq.gas_limit gas in
          let to' = fill_chunk-inj p.to q.to (vp.to.0 ∙ sym vq.to.0) to in
          both h (htr_fees-binds p.fees q.fees vp.fees vq.fees fees) λ fees'.
            both h (htr_byte_list-binds h p.input q.input fp fq input) λ input'. inl λ i. record {
              chain_id = chain_id i;
              nonce = nonce' i;
              gas_limit = gas' i;
              fees = fees' i;
              to = to' i;
              value = value i;
              input = input' i;
              access_commitment = access i;
            }

  pub htr_create_payload-binds :
      (p q : CreateTransactionPayload)
      → CreateIsValid p
      → CreateIsValid q
      → WithinLimit p.initcode
      → WithinLimit q.initcode
      → htr_create_payload h p ≡ htr_create_payload h q
      → Bound h (p ≡ q)
  unfolding htr_create_payload create_chunks
  htr_create_payload-binds p q vp vq fp fq e =
      both h
        (merkleize-binds h 3 (create_chunks p) (create_chunks q) (omega arith) refl (omega arith)
          (create_chunks-IsChunk p vp) (create_chunks-IsChunk q vq) e)
        λ (c : create_chunks p ≡ create_chunks q).
          let (chain_id, c1) = head-eq c in
          let (nonce, c2) = head-eq c1 in
          let (gas, c3) = head-eq c2 in
          let (fees, c4) = head-eq c3 in
          let (value, c5) = head-eq c4 in
          let (initcode, c6) = head-eq c5 in
          let (access, _) = head-eq c6 in
          let nonce' = htr_u64-inj p.nonce q.nonce vp.nonce vq.nonce nonce in
          let gas' = htr_u64-inj p.gas_limit q.gas_limit vp.gas_limit vq.gas_limit gas in
          both h (htr_fees-binds p.fees q.fees vp.fees vq.fees fees) λ fees'.
            both h (htr_byte_list-binds h p.initcode q.initcode fp fq initcode) λ initcode'.
              inl λ i. record {
                chain_id = chain_id i;
                nonce = nonce' i;
                gas_limit = gas' i;
                fees = fees' i;
                value = value i;
                initcode = initcode' i;
                access_commitment = access i;
              }

  pub htr_basic_payload-IsChunk :
      (p : BasicTransactionPayload) → BasicIsValid p → IsChunk (htr_basic_payload h p)
  unfolding htr_basic_payload basic_chunks
  htr_basic_payload-IsChunk p v =
      merkleize-IsChunk h 3 (basic_chunks p) (omega arith) (basic_chunks-IsChunk p v)

  pub htr_create_payload-IsChunk :
      (p : CreateTransactionPayload) → CreateIsValid p → IsChunk (htr_create_payload h p)
  unfolding htr_create_payload create_chunks
  htr_create_payload-IsChunk p v =
      merkleize-IsChunk h 3 (create_chunks p) (omega arith) (create_chunks-IsChunk p v)

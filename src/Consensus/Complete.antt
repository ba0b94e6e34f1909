-- ===== src/Consensus/Complete.antt =====
-- A block that passes every check is imported.
use shell_chain_specs.Common.{
  ℕ, ◌≡◌, refl, ◌∙◌, Option, none, some, List, [], ◌∷◌, All, eq→bytes_eq, bytes_eq_refl,
  le→ltb_false, ok,
}
use shell_chain_specs.Primitives.Types.{Root, TransactionEnvelope}
use shell_chain_specs.Primitives.Domains.{build_signing_data}
use shell_chain_specs.Primitives.Hash.{Sha256}
use shell_chain_specs.Crypto.Dispatch.{Within}
use shell_chain_specs.Execution.{BlockExecutionOutcome, CommittedExecutionRoots, ensure_matches}
use shell_chain_specs.Consensus.{
  BlockImportOutcome, ConsensusHeader, ConsensusBody, ConsensusSidecar, BlockImportServices,
  check_witness_bytes, prefilter_header, verify_header_signature, verify_body_binding,
  revalidate_body_transactions, verify_sidecar_binding, execute_and_compare, import_block,
}
use shell_chain_specs.Consensus.Import.{Signed, Imported}

Within-check : (l : Option ℕ) (n : ℕ) → Within l n → check_witness_bytes l n ≡ ok tt
unfolding check_witness_bytes
Within-check none n w = refl
Within-check (some m) n w = rw (le→ltb_false m n w) refl

revalidated-All :
    (services : BlockImportServices) (transactions : List TransactionEnvelope)
    → All (λ (t : TransactionEnvelope). services.revalidator t ≡ ok tt) transactions
    → revalidate_body_transactions transactions services.revalidator ≡ ok tt
unfolding revalidate_body_transactions
revalidated-All services [] a = refl
revalidated-All services (t ∷ ts) (first, rest) = rw first (revalidated-All services ts rest)

Signed-verify_header_signature :
    (h : Sha256) (header : ConsensusHeader) (root : Root) (services : BlockImportServices)
    → Signed h header root services
    → verify_header_signature h header root services.resolver services.dispatcher ≡ ok tt
unfolding verify_header_signature build_signing_data
Signed-verify_header_signature h header root services s =
    rw (s.resolved, s.signing, s.accepted) refl

matched :
    (outcome : BlockExecutionOutcome) (committed : CommittedExecutionRoots)
    → outcome.post_state_root ≡ committed.state_root
    → outcome.receipts_root ≡ committed.receipts_root
    → ensure_matches outcome committed ≡ ok tt
unfolding ensure_matches
matched outcome committed s r = rw (eq→bytes_eq _ _ s, eq→bytes_eq _ _ r) refl

module _ (h : Sha256) (limit : Option ℕ) (header : ConsensusHeader) (body : ConsensusBody)
    (sidecar : ConsensusSidecar) (services : BlockImportServices) (result : BlockImportOutcome)
    (i : Imported h limit header body sidecar services result) where
  prefiltered : prefilter_header header limit ≡ ok result.block_root
  unfolding prefilter_header
  prefiltered = rw (i.block_root, Within-check limit header.witness_bytes i.witness_bytes) refl

  bound : verify_body_binding header body ≡ ok tt
  unfolding verify_body_binding
  bound = rw (i.transactions_root, bytes_eq_refl header.transactions_root) refl

  sidecar_bound : verify_sidecar_binding header result.block_root sidecar services.preparer ≡ ok tt
  unfolding verify_sidecar_binding
  sidecar_bound =
      rw
        (
          eq→bytes_eq sidecar.block_root result.block_root i.sidecar_block,
          eq→bytes_eq sidecar.committed_root header.execution_witnesses_root i.sidecar_commitment,
          i.prepared,
        )
        refl

  compared : execute_and_compare header body sidecar services ≡ ok i.outcome
  unfolding execute_and_compare
  compared =
      rw
        (
          i.executed,
          matched i.outcome
              (record { state_root = header.state_root; receipts_root = header.receipts_root })
              (i.outcome_state ∙ i.state_root) (i.outcome_receipts ∙ i.receipts_root),
        )
        refl

-- A block that satisfies what `Imported` says, with a result, is imported with this result: no check of
-- the import refuses more than that.
pub Imported-import_block :
    (h : Sha256) (limit : Option ℕ) (header : ConsensusHeader) (body : ConsensusBody)
    (sidecar : ConsensusSidecar) (services : BlockImportServices) (result : BlockImportOutcome)
    → Imported h limit header body sidecar services result
    → import_block h limit header body sidecar services ≡ ok result
unfolding import_block
Imported-import_block h limit header body sidecar services result i =
    rw
      (
        prefiltered h limit header body sidecar services result i,
        bound h limit header body sidecar services result i,
        Signed-verify_header_signature h header result.block_root services i.signed,
        revalidated-All services body.transactions i.revalidated,
        sidecar_bound h limit header body sidecar services result i,
        compared h limit header body sidecar services result i,
      )
      (λ j. ok (record {
        block_root = result.block_root;
        post_state_root = i.outcome_state j;
        receipts_root = i.outcome_receipts j;
      }))

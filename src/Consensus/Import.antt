-- ===== src/Consensus/Import.antt =====
-- What an imported block satisfies.
use shell_chain_specs.Common.{
  ℕ, ◌≡◌, refl, ap, subst, ◌∙◌, Option, none, some, List, [], ◌∷◌, All, bytes_eq, bytes_eq→eq, ltb,
  ltb_false→le, if◌then◌else◌, if_ok, if_err, ok, err, ok-injective, >>=-eq-ok, map_err,
  map_err-eq-ok,
}
use shell_chain_specs.Primitives.Types.{Root, TransactionEnvelope}
use shell_chain_specs.Primitives.Domains.{build_signing_data, domain_validator_message}
use shell_chain_specs.Primitives.Hash.{Sha256}
use shell_chain_specs.Primitives.Ssz.{signing_root}
use shell_chain_specs.Crypto.Dispatch.{Within}
use shell_chain_specs.Execution.{
  BlockExecutionOutcome, CommittedExecutionRoots, ensure_matches, post_state_root_mismatch,
}
use shell_chain_specs.Consensus.{
  primitive, crypto, transaction_validation, execution, state, sidecar_block_root_mismatch,
  sidecar_commitment_mismatch, proposer_credential_resolution, BlockImportOutcome, ConsensusHeader,
  ConsensusBody, ConsensusSidecar, ProposerCredential, BlockImportServices, check_witness_bytes,
  prefilter_header, verify_header_signature, verify_body_binding, revalidate_body_transactions,
  verify_sidecar_binding, execute_and_compare, import_block,
}

-- The proposer's credential resolves, and the dispatcher accepts the header's signature under it over
-- the block root's signing root in the domain of validators.
pub record Signed (h : Sha256) (header : ConsensusHeader) (block_root : Root)
    (services : BlockImportServices) : Type 0 where
  pub credential : ProposerCredential
  pub resolved : services.resolver block_root header.proposer_index_hint ≡ ok credential
  pub root : Root
  pub signing :
      signing_root h (record { object_root = block_root; domain_type = domain_validator_message })
      ≡ ok root
  pub accepted :
      services.dispatcher credential.scheme_id (record {
        public_key_material = credential.public_key_material;
        signing_root = root;
        signature = header.proposer_signature;
      })
      ≡ ok tt

-- The header's commitments are those of the body, the sidecar and the execution's outcome.
pub record Imported (h : Sha256) (limit : Option ℕ) (header : ConsensusHeader)
    (body : ConsensusBody) (sidecar : ConsensusSidecar) (services : BlockImportServices)
    (result : BlockImportOutcome) : Type 0 where
  pub block_root : header.canonical_root ≡ ok result.block_root
  pub witness_bytes : Within limit header.witness_bytes
  pub transactions_root : body.transactions_root ≡ ok header.transactions_root
  pub signed : Signed h header result.block_root services
  pub revalidated :
      All (λ (t : TransactionEnvelope). services.revalidator t ≡ ok tt) body.transactions
  pub sidecar_block : sidecar.block_root ≡ result.block_root
  pub sidecar_commitment : sidecar.committed_root ≡ header.execution_witnesses_root
  pub prepared : services.preparer header sidecar ≡ ok tt
  pub outcome : BlockExecutionOutcome
  pub executed : services.execution_engine header body sidecar ≡ ok outcome
  pub outcome_state : outcome.post_state_root ≡ result.post_state_root
  pub outcome_receipts : outcome.receipts_root ≡ result.receipts_root
  pub state_root : result.post_state_root ≡ header.state_root
  pub receipts_root : result.receipts_root ≡ header.receipts_root

Within-inv : (l : Option ℕ) (n : ℕ) → check_witness_bytes l n ≡ ok tt → Within l n
unfolding check_witness_bytes
Within-inv none n e = tt
Within-inv (some m) n e = ltb_false→le m n (if_err (ltb m n) _ _ e).0

prefilter-inv :
    (header : ConsensusHeader) (limit : Option ℕ) (root : Root)
    → prefilter_header header limit ≡ ok root
    → (header.canonical_root ≡ ok root) × Within limit header.witness_bytes
unfolding prefilter_header
prefilter-inv header limit root e =
    let (r, found, e1) = >>=-eq-ok (map_err primitive header.canonical_root) _ e in
    let (_, small, e2) = >>=-eq-ok (check_witness_bytes limit header.witness_bytes) _ e1 in
    (
      map_err-eq-ok primitive header.canonical_root found ∙ ap ok (ok-injective e2),
      Within-inv limit header.witness_bytes small,
    )

signature-inv :
    (h : Sha256) (header : ConsensusHeader) (root : Root) (services : BlockImportServices)
    → verify_header_signature h header root services.resolver services.dispatcher ≡ ok tt
    → Signed h header root services
unfolding verify_header_signature build_signing_data
signature-inv h header root services e =
    let (c, found, e1) =
      >>=-eq-ok
        (map_err proposer_credential_resolution (services.resolver root header.proposer_index_hint))
        _ e in
    let (r, signed, e2) =
      >>=-eq-ok
        (map_err primitive
          (signing_root h (record { object_root = root; domain_type = domain_validator_message })))
        _ e1 in
    record {
      credential = c;
      resolved =
          map_err-eq-ok proposer_credential_resolution
            (services.resolver root header.proposer_index_hint) found;
      root = r;
      signing = map_err-eq-ok primitive (signing_root h _) signed;
      accepted = map_err-eq-ok crypto (services.dispatcher c.scheme_id _) e2;
    }

body-inv :
    (header : ConsensusHeader) (body : ConsensusBody)
    → verify_body_binding header body ≡ ok tt
    → body.transactions_root ≡ ok header.transactions_root
unfolding verify_body_binding
body-inv header body e =
    let (r, found, e1) = >>=-eq-ok (map_err primitive body.transactions_root) _ e in
    let same = bytes_eq→eq r header.transactions_root (if_ok _ _ _ e1).0 in
    map_err-eq-ok primitive body.transactions_root found ∙ ap ok same

revalidate-inv :
    (services : BlockImportServices) (transactions : List TransactionEnvelope)
    → revalidate_body_transactions transactions services.revalidator ≡ ok tt
    → All (λ (t : TransactionEnvelope). services.revalidator t ≡ ok tt) transactions
unfolding revalidate_body_transactions
revalidate-inv services [] e = tt
revalidate-inv services (t ∷ ts) e =
    let (_, first, rest) =
      >>=-eq-ok (map_err transaction_validation (services.revalidator t)) _ e in
    (
      map_err-eq-ok transaction_validation (services.revalidator t) first,
      revalidate-inv services ts rest,
    )

sidecar-inv :
    (header : ConsensusHeader) (root : Root) (sidecar : ConsensusSidecar)
    (services : BlockImportServices)
    → verify_sidecar_binding header root sidecar services.preparer ≡ ok tt
    → (sidecar.block_root ≡ root)
      × ((sidecar.committed_root ≡ header.execution_witnesses_root)
          × (services.preparer header sidecar ≡ ok tt))
unfolding verify_sidecar_binding
sidecar-inv header root sidecar services e =
    let (_, bound, e1) =
      >>=-eq-ok
        (if bytes_eq sidecar.block_root root
          then ok tt
          else err (sidecar_block_root_mismatch root sidecar.block_root))
        _ e in
    let (_, committed, e2) =
      >>=-eq-ok
        (if bytes_eq sidecar.committed_root header.execution_witnesses_root
          then ok tt
          else err
              (sidecar_commitment_mismatch header.execution_witnesses_root sidecar.committed_root))
        _ e1 in
    (
      bytes_eq→eq sidecar.block_root root (if_ok _ _ _ bound).0,
      (
        bytes_eq→eq sidecar.committed_root header.execution_witnesses_root
            (if_ok _ _ _ committed).0,
        map_err-eq-ok state (services.preparer header sidecar) e2,
      ),
    )

matches-inv :
    (outcome : BlockExecutionOutcome) (committed : CommittedExecutionRoots)
    → ensure_matches outcome committed ≡ ok tt
    → (outcome.post_state_root ≡ committed.state_root)
      × (outcome.receipts_root ≡ committed.receipts_root)
unfolding ensure_matches
matches-inv outcome committed e =
    let (_, first, second) =
      >>=-eq-ok
        (if bytes_eq outcome.post_state_root committed.state_root
          then ok tt
          else err (post_state_root_mismatch committed.state_root outcome.post_state_root))
        _ e in
    (
      bytes_eq→eq outcome.post_state_root committed.state_root (if_ok _ _ _ first).0,
      bytes_eq→eq outcome.receipts_root committed.receipts_root (if_ok _ _ _ second).0,
    )

execute-inv :
    (header : ConsensusHeader) (body : ConsensusBody) (sidecar : ConsensusSidecar)
    (services : BlockImportServices) (outcome : BlockExecutionOutcome)
    → execute_and_compare header body sidecar services ≡ ok outcome
    → (services.execution_engine header body sidecar ≡ ok outcome)
      × ((outcome.post_state_root ≡ header.state_root)
          × (outcome.receipts_root ≡ header.receipts_root))
unfolding execute_and_compare
execute-inv header body sidecar services outcome e =
    let engine = services.execution_engine header body sidecar in
    let committed : CommittedExecutionRoots = record {
      state_root = header.state_root;
      receipts_root = header.receipts_root;
    } in
    let (o, ran, e1) = >>=-eq-ok (map_err execution engine) _ e in
    let (_, matched, e2) = >>=-eq-ok (map_err execution (ensure_matches o committed)) _ e1 in
    let same : o ≡ outcome = ok-injective e2 in
    let m = matches-inv o committed (map_err-eq-ok execution _ matched) in
    (
      map_err-eq-ok execution engine ran ∙ ap ok same,
      subst
          (λ (x : BlockExecutionOutcome).
            (x.post_state_root ≡ header.state_root) × (x.receipts_root ≡ header.receipts_root))
          same m,
    )

-- An imported block's root is its header's; its witness bytes are within the limit, if there is one;
-- the header commits to the body's transactions root and to the sidecar's root, and the sidecar names
-- this block; the proposer's credential resolves and its signature is accepted over the block root in
-- the domain of validators; every transaction is revalidated, the witness prepared and the block
-- executed without error; and the roots of the state and of the receipts that the execution gives are
-- both the header's and the result's.
pub import_block-Imported :
    (h : Sha256) (limit : Option ℕ) (header : ConsensusHeader) (body : ConsensusBody)
    (sidecar : ConsensusSidecar) (services : BlockImportServices) (result : BlockImportOutcome)
    → import_block h limit header body sidecar services ≡ ok result
    → Imported h limit header body sidecar services result
unfolding import_block
import_block-Imported h limit header body sidecar services result e =
    let (root, r1, e1) = >>=-eq-ok (prefilter_header header limit) _ e in
    let (_, r2, e2) = >>=-eq-ok (verify_body_binding header body) _ e1 in
    let (_, r3, e3) =
      >>=-eq-ok (verify_header_signature h header root services.resolver services.dispatcher) _
        e2 in
    let (_, r4, e4) =
      >>=-eq-ok (revalidate_body_transactions body.transactions services.revalidator) _ e3 in
    let (_, r5, e5) =
      >>=-eq-ok (verify_sidecar_binding header root sidecar services.preparer) _ e4 in
    let (outcome, r6, e6) = >>=-eq-ok (execute_and_compare header body sidecar services) _ e5 in
    let made = ok-injective e6 in
    let (named, small) = prefilter-inv header limit root r1 in
    let (bound, (committed, prepared)) = sidecar-inv header root sidecar services r5 in
    let (executed, (state_root, receipts_root)) =
      execute-inv header body sidecar services outcome r6 in
    subst (λ (x : BlockImportOutcome). Imported h limit header body sidecar services x) made
      (record {
        block_root = named;
        witness_bytes = small;
        transactions_root = body-inv header body r2;
        signed = signature-inv h header root services r3;
        revalidated = revalidate-inv services body.transactions r4;
        sidecar_block = bound;
        sidecar_commitment = committed;
        prepared = prepared;
        outcome = outcome;
        executed = executed;
        outcome_state = refl;
        outcome_receipts = refl;
        state_root = state_root;
        receipts_root = receipts_root;
      })

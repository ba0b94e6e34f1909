-- ===== src/Runtime/Services.antt =====
-- What the services of a reference run say when they accept.
use shell_chain_specs.Common.{
  ◌≡◌, ap, subst, ◌∙◌, List, [], ◌∷◌, map, All, bytes_eq, bytes_eq→eq, if◌then◌else◌, if_ok, ok,
  err, ok-injective, >>=-eq-ok, map_err, map_err-eq-ok, ok_or, ok_or-eq-ok, ByteMap, map_get, Bytes,
  some,
}
use shell_chain_specs.Primitives.Types.{Root, TransactionEnvelope}
use shell_chain_specs.Primitives.StateKey.{StateKey, StateWitness, StateKeyIsValid}
use shell_chain_specs.Primitives.Hash.{Sha256}
use shell_chain_specs.Primitives.Ssz.{payload_root}
use shell_chain_specs.State.Witness.{
  witness_verification_failed, ensure_canonical_witness_order, verify_loop, verify_witnesses,
}
use shell_chain_specs.State.Accumulator.{InMemoryAccumulator, apply_transition, verify_witness}
use shell_chain_specs.State.Accumulator
use shell_chain_specs.State.Accumulator.Invariant.{
  WellFormed, new-WellFormed, lookup, apply_transition-WellFormed,
}
use shell_chain_specs.State.Accumulator.Proofs.{verify_witness_iff}
use shell_chain_specs.State.Applier
use shell_chain_specs.Mempool.{AuthorizationValidated, authorization_material_count}
use shell_chain_specs.Mempool
use shell_chain_specs.Execution.{
  BlockExecutionOutcome, PlannedTransaction, PlannedTransactionExecutor, state_transition,
  ensure_exhausted, execute_transaction, execute_block,
}
use shell_chain_specs.Execution
use shell_chain_specs.Consensus.{ConsensusHeader, ConsensusBody, ConsensusSidecar}
use shell_chain_specs.Fixtures.{compute_execution_witnesses_root}
use shell_chain_specs.Runtime.{
  LocalReferenceRuntime, AdmissionEntry, check_state_root, materialize_accumulator, prepare_witness,
  execute_reference_block,
}
use shell_chain_specs.Runtime.Run.{validate_transaction, revalidate}

-- The admission transaction with the transaction's payload root is admitted.
pub record Revalidated (h : Sha256) (runtime : LocalReferenceRuntime)
    (entries : ByteMap AdmissionEntry) (transaction : TransactionEnvelope) : Type 0 where
  pub root : Root
  pub rooted : payload_root h transaction.payload ≡ ok root
  pub entry : AdmissionEntry
  pub found : map_get root entries ≡ some entry
  pub validated : AuthorizationValidated
  pub admitted : validate_transaction h runtime entry.0 entry.1 ≡ ok validated

pub revalidate-Revalidated :
    (h : Sha256) (runtime : LocalReferenceRuntime) (entries : ByteMap AdmissionEntry)
    (transaction : TransactionEnvelope)
    → revalidate h runtime entries transaction ≡ ok tt
    → Revalidated h runtime entries transaction
unfolding revalidate
revalidate-Revalidated h runtime entries transaction e =
    let (root, r1, e1) =
      >>=-eq-ok (map_err Mempool.primitive (payload_root h transaction.payload)) _ e in
    let (entry, r2, e2) =
      >>=-eq-ok (ok_or (map_get root entries) (authorization_material_count 1 0)) _ e1 in
    let (validated, r3, _) = >>=-eq-ok (validate_transaction h runtime entry.0 entry.1) _ e2 in
    record {
      root = root;
      rooted = map_err-eq-ok Mempool.primitive _ r1;
      entry = entry;
      found = ok_or-eq-ok _ _ r2;
      validated = validated;
      admitted = r3;
    }

check_state_root-eq :
    (pre : Root) (acc : InMemoryAccumulator) → check_state_root pre acc ≡ ok tt → acc.root ≡ pre
check_state_root-eq pre acc e = bytes_eq→eq acc.root pre (if_ok _ _ _ e).0

-- A materialized accumulator is well formed.
pub materialize_accumulator-WellFormed :
    (h : Sha256) (entries : List (StateKey × Bytes)) (acc : InMemoryAccumulator)
    → All StateKeyIsValid (map (λ (e : StateKey × Bytes). e.0) entries)
    → materialize_accumulator h entries ≡ ok acc
    → WellFormed h acc
unfolding materialize_accumulator
materialize_accumulator-WellFormed h [] acc valid e =
    subst (λ (a : InMemoryAccumulator). WellFormed h a) (ok-injective e) (new-WellFormed h)
materialize_accumulator-WellFormed h (entry ∷ entries) acc valid e =
    let (_, _, made) = >>=-eq-ok (apply_transition h Accumulator.new _).0 _ e in
    subst (λ (a : InMemoryAccumulator). WellFormed h a) (ok-injective made)
      (apply_transition-WellFormed h Accumulator.new _ (new-WellFormed h) valid)

-- The witness states what the accumulator holds, with no proof nodes.
abbrev pub Holds : InMemoryAccumulator → StateWitness → Type 0
Holds acc witness =
    (witness.proof ≡ [])
    × (lookup acc witness.key
        ≡ some (record { key = witness.key; leaf_value = witness.leaf_value }))

verify_loop-Holds :
    (h : Sha256) (acc : InMemoryAccumulator) (witnesses : List StateWitness) (root : Root)
    → WellFormed h acc
    → All (λ (w : StateWitness). StateKeyIsValid w.key) witnesses
    → verify_loop (verify_witness acc) witnesses root ≡ ok tt
    → All (Holds acc) witnesses
unfolding verify_loop
verify_loop-Holds h acc [] root wf valid e = tt
verify_loop-Holds h acc (w ∷ ws) root wf (v, valid) e =
    let (_, first, rest) = >>=-eq-ok (verify_witness acc w root) _ e in
    (
      ((verify_witness_iff h acc w root wf v).0 first).1,
      verify_loop-Holds h acc ws root wf valid rest,
    )

-- The witnesses have the header's root, and the materialized state, which has the expected root, holds
-- them.
pub record Prepared (h : Sha256) (pre : Root) (entries : List (StateKey × Bytes))
    (witnesses : List StateWitness) (header : ConsensusHeader) : Type 0 where
  pub committed : compute_execution_witnesses_root h witnesses ≡ header.execution_witnesses_root
  pub accumulator : InMemoryAccumulator
  pub materialized : materialize_accumulator h entries ≡ ok accumulator
  pub root : accumulator.root ≡ pre
  pub well_formed : WellFormed h accumulator
  pub held : All (Holds accumulator) witnesses

pub prepare_witness-Prepared :
    (h : Sha256) (pre : Root) (entries : List (StateKey × Bytes)) (witnesses : List StateWitness)
    (header : ConsensusHeader) (sidecar : ConsensusSidecar)
    → All StateKeyIsValid (map (λ (e : StateKey × Bytes). e.0) entries)
    → All (λ (w : StateWitness). StateKeyIsValid w.key) witnesses
    → prepare_witness h pre entries witnesses header sidecar ≡ ok tt
    → Prepared h pre entries witnesses header
unfolding prepare_witness verify_witnesses
prepare_witness-Prepared h pre entries witnesses header sidecar keys valid e =
    let root = compute_execution_witnesses_root h witnesses in
    let (_, r1, e1) =
      >>=-eq-ok
        (if bytes_eq root header.execution_witnesses_root
          then ok tt
          else err (
              witness_verification_failed
                "reference witness set does not match the committed execution_witnesses_root"))
        _ e in
    let (acc, made, e2) = >>=-eq-ok (materialize_accumulator h entries) _ e1 in
    let (_, r3, e3) = >>=-eq-ok (check_state_root pre acc) _ e2 in
    let (_, _, looped) = >>=-eq-ok (ensure_canonical_witness_order witnesses) _ e3 in
    let wf = materialize_accumulator-WellFormed h entries acc keys made in
    record {
      committed = bytes_eq→eq root header.execution_witnesses_root (if_ok _ _ _ r1).0;
      accumulator = acc;
      materialized = made;
      root = check_state_root-eq pre acc r3;
      well_formed = wf;
      held = verify_loop-Holds h acc witnesses pre wf valid looped;
    }

-- The planned execution of the body from the materialized state, to the end of the plans.
pub record Executed (h : Sha256) (pre : Root) (entries : List (StateKey × Bytes))
    (plans : List PlannedTransaction) (body : ConsensusBody) (outcome : BlockExecutionOutcome)
    : Type 0 where
  pub accumulator : InMemoryAccumulator
  pub materialized : materialize_accumulator h entries ≡ ok accumulator
  pub root : accumulator.root ≡ pre
  pub after : PlannedTransactionExecutor × Applier.ReferenceStateApplier
  pub executed :
      execute_block h
        (execute_transaction h)
        (Applier.apply_transition h)
        pre
        body.transactions
        (Execution.new plans, Applier.new accumulator)
      ≡ (ok outcome, after)
  pub exhausted : ensure_exhausted after.0 ≡ ok tt

pub execute_reference_block-Executed :
    (h : Sha256) (pre : Root) (entries : List (StateKey × Bytes)) (plans : List PlannedTransaction)
    (header : ConsensusHeader) (body : ConsensusBody) (sidecar : ConsensusSidecar)
    (outcome : BlockExecutionOutcome)
    → execute_reference_block h pre entries plans header body sidecar ≡ ok outcome
    → Executed h pre entries plans body outcome
unfolding execute_reference_block
execute_reference_block-Executed h pre entries plans header body sidecar outcome e =
    let (acc, r1, e1) =
      >>=-eq-ok (map_err state_transition (materialize_accumulator h entries)) _ e in
    let (_, r2, e2) = >>=-eq-ok (map_err state_transition (check_state_root pre acc)) _ e1 in
    let run =
      execute_block h (execute_transaction h) (Applier.apply_transition h) pre body.transactions
        (Execution.new plans, Applier.new acc) in
    let (made, r3, e3) = >>=-eq-ok run.0 _ e2 in
    let (_, r4, e4) = >>=-eq-ok (ensure_exhausted run.1.0) _ e3 in
    record {
      accumulator = acc;
      materialized = map_err-eq-ok state_transition _ r1;
      root = check_state_root-eq pre acc (map_err-eq-ok state_transition _ r2);
      after = run.1;
      executed = λ i. ((r3 ∙ ap ok (ok-injective e4)) i, run.1);
      exhausted = r4;
    }

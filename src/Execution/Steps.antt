-- ===== src/Execution/Steps.antt =====
-- The block executor against the relation that says, transaction by transaction, what a run is.
use shell_chain_specs.Common.{
  ◌≡◌, refl, sym, ap, subst, ◌↔◌, List, [], ◌∷◌, Result, ok, chain-eq-ok, map_err-eq-ok,
  ok-injective,
}
use shell_chain_specs.Primitives.Types.{Root, TransactionEnvelope}
use shell_chain_specs.Primitives.Hash.{Sha256}
use shell_chain_specs.Primitives.Ssz.{envelope_root}
use shell_chain_specs.State.Witness.{StateError, StatePatch}
use shell_chain_specs.State.Applier.{StateTransitionOutcome}
use shell_chain_specs.Execution.{
  ExecutionError, state_transition, TransactionExecutionOutcome, BlockExecutionOutcome,
  TransactionExecutionPlan, receipts_of, compute_receipts_root, execute_one, execute_loop,
  execute_block,
}
use shell_chain_specs.Execution

module _ {ε σ} {E : Type ε} {S : Type σ} (h : Sha256)
    (execute : E → Root → TransactionEnvelope → Result TransactionExecutionPlan ExecutionError × E)
    (apply : S → Root → StatePatch → Result StateTransitionOutcome StateError × S) where
  -- One transaction: the executor plans it for the root so far, and the applier takes the plan's patch
  -- from that root to the outcome's.
  pub record Step (root : Root) (transaction : TransactionEnvelope) (before : E × S)
      (outcome : TransactionExecutionOutcome) (after : E × S) : Type (ε ⊔ σ) where
    pub named : envelope_root h transaction ≡ ok outcome.transaction_root
    pub plan : TransactionExecutionPlan
    pub planned : execute before.0 root transaction ≡ (ok plan, after.0)
    pub applied :
        apply before.1 root plan.state_patch
        ≡ (ok (record { post_state_root = outcome.post_state_root }), after.1)
    pub receipt : outcome.receipt ≡ plan.receipt

  -- The transactions in their order, each from the root and the states that the one before it left.
  pub data Run
      : Root
        → List TransactionEnvelope
        → E × S
        → List TransactionExecutionOutcome
        → Root
        → E × S
        → Type (ε ⊔ σ) where
    stop : (root : Root) (state : E × S) → Run root [] state [] root state
    step :
        (root : Root) (transaction : TransactionEnvelope) (transactions : List TransactionEnvelope)
        (outcome : TransactionExecutionOutcome) (outcomes : List TransactionExecutionOutcome)
        (before between after : E × S) (final : Root)
        → Step root transaction before outcome between
        → Run outcome.post_state_root transactions between outcomes final after
        → Run root (transaction ∷ transactions) before (outcome ∷ outcomes) final after

  one-Step :
      (root : Root) (transaction : TransactionEnvelope) (before : E × S)
      (outcome : TransactionExecutionOutcome) (after : E × S)
      → execute_one h execute apply root transaction before ≡ (ok outcome, after)
      → Step root transaction before outcome after
  unfolding execute_one
  one-Step root transaction before outcome after e =
      let (named, s1, r1, e1) = chain-eq-ok (_, before) _ e in
      let (plan, s2, r2, e2) = chain-eq-ok (_, _) _ e1 in
      let (moved, s3, r3, e3) = chain-eq-ok (_, _) _ e2 in
      let same : before ≡ s1 = ap (λ x. x.1) r1 in
      let p0 : (execute s1.0 root transaction).0 ≡ ok plan = ap (λ x. x.0) r2 in
      let p1 : (execute s1.0 root transaction).1 ≡ s2.0 = ap (λ x. x.1.0) r2 in
      let p2 : s1.1 ≡ s2.1 = ap (λ x. x.1.1) r2 in
      let q0 : (apply s2.1 root plan.state_patch).0 ≡ ok moved =
        map_err-eq-ok state_transition _ (ap (λ x. x.0) r3) in
      let q1 : s2.0 ≡ s3.0 = ap (λ x. x.1.0) r3 in
      let q2 : (apply s2.1 root plan.state_patch).1 ≡ s3.1 = ap (λ x. x.1.1) r3 in
      let made = ok-injective (ap (λ x. x.0) e3) in
      let last : s3 ≡ after = ap (λ x. x.1) e3 in
      subst (λ (o : TransactionExecutionOutcome). Step root transaction before o after) made
        (record {
          named = map_err-eq-ok Execution.transaction_root _ (ap (λ x. x.0) r1);
          plan = plan;
          planned = (cc);
          applied = (cc);
          receipt = refl;
        })

  Step-one :
      (root : Root) (transaction : TransactionEnvelope) (before : E × S)
      (outcome : TransactionExecutionOutcome) (after : E × S)
      → Step root transaction before outcome after
      → execute_one h execute apply root transaction before ≡ (ok outcome, after)
  unfolding execute_one
  Step-one root transaction before outcome after s =
      rw (s.named, s.planned, s.applied)
        λ i. (
          ok (record {
            transaction_root = outcome.transaction_root;
            post_state_root = outcome.post_state_root;
            receipt = sym s.receipt i;
          }),
          after,
        )

  loop-Run :
      (root : Root) (transactions : List TransactionEnvelope) (before : E × S) (final : Root)
      (outcomes : List TransactionExecutionOutcome) (after : E × S)
      → execute_loop h execute apply root transactions before ≡ (ok (final, outcomes), after)
      → Run root transactions before outcomes final after
  unfolding execute_loop
  loop-Run root [] before final outcomes after e =
      let made = ok-injective (ap (λ x. x.0) e) in
      subst
        (λ (x : (Root × List TransactionExecutionOutcome) × (E × S)).
          Run root [] before x.0.1 x.0.0 x.1)
        (λ i. (made i, (e i).1)) (stop root before)
  loop-Run root (transaction ∷ transactions) before final outcomes after e =
      let (outcome, between, first, e1) =
        chain-eq-ok (execute_one h execute apply root transaction before) _ e in
      let (rest, s, later, e2) =
        chain-eq-ok (execute_loop h execute apply outcome.post_state_root transactions between) _
          e1 in
      let made = ok-injective (ap (λ x. x.0) e2) in
      let last : s ≡ after = ap (λ x. x.1) e2 in
      subst
        (λ (x : (Root × List TransactionExecutionOutcome) × (E × S)).
          Run root (transaction ∷ transactions) before x.0.1 x.0.0 x.1)
        (λ i. (made i, last i))
        (step root transaction transactions outcome rest.1 before between s rest.0
          (one-Step root transaction before outcome between first)
          (loop-Run outcome.post_state_root transactions between rest.0 rest.1 s later))

  Run-loop :
      (root : Root) (transactions : List TransactionEnvelope) (before : E × S) (final : Root)
      (outcomes : List TransactionExecutionOutcome) (after : E × S)
      → Run root transactions before outcomes final after
      → execute_loop h execute apply root transactions before ≡ (ok (final, outcomes), after)
  unfolding execute_loop
  Run-loop _ _ _ _ _ _ (stop root state) = refl
  Run-loop _ _ _ _ _ _ (step root t ts outcome outcomes before between after final first rest) =
      rw
        (
          Step-one root t before outcome between first,
          Run-loop outcome.post_state_root ts between final outcomes after rest,
        )
        refl

-- A block's execution gives an outcome and leaves the states of the executor and the applier exactly
-- when there is a run of the block's transactions, in their order and each from the root and the states
-- that the one before left, that ends in those states and in the outcome's root, whose steps are the
-- outcome's transaction outcomes; and when the outcome's receipts root is that of their receipts.
pub execute_block_iff {ε σ} :
    {E : Type ε} {S : Type σ} (h : Sha256)
    (execute : E → Root → TransactionEnvelope → Result TransactionExecutionPlan ExecutionError × E)
    (apply : S → Root → StatePatch → Result StateTransitionOutcome StateError × S) (root : Root)
    (transactions : List TransactionEnvelope) (before : E × S) (outcome : BlockExecutionOutcome)
    (after : E × S)
    → (execute_block h execute apply root transactions before ≡ (ok outcome, after)) ↔ (
        Run h execute apply root transactions before outcome.transaction_outcomes
          outcome.post_state_root after
        × (outcome.receipts_root
            ≡ compute_receipts_root h (receipts_of outcome.transaction_outcomes)))
unfolding execute_block
execute_block_iff h execute apply root transactions before outcome after = (
  λ e.
      let (run, s, ran, e1) =
        chain-eq-ok (execute_loop h execute apply root transactions before) _ e in
      let made = ok-injective (ap (λ x. x.0) e1) in
      let last = ap (λ x. x.1) e1 in
      subst
        (λ (x : BlockExecutionOutcome × (_ × _)).
          Run h execute apply root transactions before x.0.transaction_outcomes x.0.post_state_root
            x.1
          × (x.0.receipts_root ≡ compute_receipts_root h (receipts_of x.0.transaction_outcomes)))
        (λ i. (made i, last i))
        (loop-Run h execute apply root transactions before run.0 run.1 s ran, refl),
  λ r.
      rw
        (Run-loop h execute apply root transactions before outcome.post_state_root
          outcome.transaction_outcomes after r.0)
        (λ i. (
          ok (record {
            post_state_root = outcome.post_state_root;
            receipts_root = sym r.1 i;
            transaction_outcomes = outcome.transaction_outcomes;
          }),
          after,
        )),
)

-- ===== src/Execution/Planned.antt =====
-- The planned executor over the reference applier: which blocks it executes to the end of its plans.
use shell_chain_specs.Common.{
  suc, ◌+◌, ==_iff, arith, ◌≡◌, refl, sym, ap, ap₂, subst, ◌∙◌, ◌↔◌, List, [], ◌∷◌, length,
  drop_all, if_ok, ok,
}
use shell_chain_specs.Primitives.Types.{Root, TransactionEnvelope}
use shell_chain_specs.Primitives.Hash.{Sha256}
use shell_chain_specs.State.Applier.{ReferenceStateApplier, apply_transition}
use shell_chain_specs.State.Applier
use shell_chain_specs.State.Accumulator.Invariant.{next_of}
use shell_chain_specs.State.Applier.Accepts.{
  Ready, Applicable, apply_transition-Applied, Ready-apply_transition,
}
use shell_chain_specs.Execution.{
  TransactionExecutionOutcome, BlockExecutionOutcome, PlannedTransaction, TransactionExecutionPlan,
  PlannedTransactionExecutor, new, is_exhausted, ensure_exhausted, execute_transaction,
  execute_block, receipts_of, compute_receipts_root,
}
use shell_chain_specs.Execution.Steps.{Run, stop, step, execute_block_iff}
use shell_chain_specs.Execution.Plans.{
  Plans, planned_receipts, advance, left_of, execute-inv, next-execute,
}

module _ (h : Sha256) where
  -- A run that uses up the plans has one for each of its transactions.
  Run-Plans :
      (root : Root) (transactions : List TransactionEnvelope)
      (before : PlannedTransactionExecutor × ReferenceStateApplier)
      (outcomes : List TransactionExecutionOutcome) (final : Root)
      (after : PlannedTransactionExecutor × ReferenceStateApplier)
      → Run h
          (execute_transaction h)
          (apply_transition h)
          root
          transactions
          before
          outcomes
          final
          after
      → left_of after.0 ≡ []
      → Plans h transactions (left_of before.0)
        × (receipts_of outcomes ≡ planned_receipts (left_of before.0))
  Run-Plans _ _ _ _ _ _ (stop root state) none_left =
      subst (λ (plans : List PlannedTransaction). Plans h [] plans × ([] ≡ planned_receipts plans))
        (sym none_left) (tt, refl)
  Run-Plans _ _ _ _ _ _ (step root t ts outcome outs before between after final s rest) none_left =
      let (next, left, named, same, _) = execute-inv h before.0 between.0 root t s.plan s.planned in
      let applied =
        apply_transition-Applied h before.1 root s.plan.state_patch
          (record { post_state_root = outcome.post_state_root }) between.1 s.applied in
      let (plans, receipts) =
        Run-Plans outcome.post_state_root ts between outs final after rest none_left in
      subst
        (λ (p : List PlannedTransaction).
          Plans h (t ∷ ts) p × (receipts_of (outcome ∷ outs) ≡ planned_receipts p))
        (sym left)
        (
          (
            named,
            (
              subst (λ (p : TransactionExecutionPlan). Applicable p.state_patch) (sym same)
                  applied.applicable,
              plans,
            ),
          ),
          ap₂ ◌∷◌ (s.receipt ∙ ap (λ (p : TransactionExecutionPlan). p.receipt) (sym same))
              receipts,
        )

  -- With one plan for each transaction there is a run that uses all of them.
  record Complete (root : Root) (transactions : List TransactionEnvelope)
      (before : PlannedTransactionExecutor × ReferenceStateApplier) : Type 0 where
    outcomes : List TransactionExecutionOutcome
    final : Root
    after : PlannedTransactionExecutor × ReferenceStateApplier
    run :
        Run h
          (execute_transaction h)
          (apply_transition h)
          root
          transactions
          before
          outcomes
          final
          after
    same_plans : after.0.planned_transactions ≡ before.0.planned_transactions
    moved : after.0.next_index ≡ before.0.next_index + length transactions

  Plans-Complete :
      (root : Root) (transactions : List TransactionEnvelope) (planned : PlannedTransactionExecutor)
      (applier : ReferenceStateApplier) (plans : List PlannedTransaction)
      → Ready applier root
      → left_of planned ≡ plans
      → Plans h transactions plans
      → Complete root transactions (planned, applier)
  Plans-Complete root [] planned applier [] ready left fits = record {
    outcomes = [];
    final = root;
    after = (planned, applier);
    run = stop root (planned, applier);
    same_plans = refl;
    moved = omega arith;
  }
  Plans-Complete root [] planned applier (p ∷ ps) ready left fits = absurd fits
  Plans-Complete root (t ∷ ts) planned applier [] ready left fits = absurd fits
  Plans-Complete root (t ∷ ts) planned applier (p ∷ ps) ready left (named, (fits, later)) =
      let (handed, rest) = next-execute h planned root t p ps left named in
      let made = Ready-apply_transition h applier root p.plan.state_patch ready fits in
      let next = next_of h applier.accumulator p.plan.state_patch in
      let c =
        Plans-Complete next.root ts (advance planned) (Applier.new next) ps (refl, refl) rest
          later in
      record {
        outcomes =
            record {
              transaction_root = p.transaction_root;
              post_state_root = next.root;
              receipt = p.plan.receipt;
            }
            ∷ c.outcomes;
        final = c.final;
        after = c.after;
        run =
            step root t ts _ c.outcomes (planned, applier) (advance planned, Applier.new next)
              c.after c.final
              (record {
                named = named;
                plan = p.plan;
                planned = handed;
                applied = made;
                receipt = refl;
              })
              c.run;
        same_plans = c.same_plans;
        moved = omega (arith, c.moved);
      }

ensure_exhausted_iff :
    (planned : PlannedTransactionExecutor)
    → (ensure_exhausted planned ≡ ok tt)
      ↔ (planned.next_index ≡ length planned.planned_transactions)
unfolding ensure_exhausted is_exhausted
ensure_exhausted_iff planned =
    let equal = ==_iff planned.next_index (length planned.planned_transactions) in
    (λ e. equal.0 (if_ok _ _ _ e).0, λ e. rw (equal.1 e) refl)

Plans-length :
    (h : Sha256) (transactions : List TransactionEnvelope) (plans : List PlannedTransaction)
    → Plans h transactions plans
    → length plans ≡ length transactions
Plans-length h [] [] fits = refl
Plans-length h [] (p ∷ ps) fits = absurd fits
Plans-length h (t ∷ ts) [] fits = absurd fits
Plans-length h (t ∷ ts) (p ∷ ps) (_, (_, fits)) = ap suc (Plans-length h ts ps fits)

-- The state before: no plan is handed out, and the applier holds this accumulator.
abbrev pub fresh :
    List PlannedTransaction
    → ReferenceStateApplier
    → PlannedTransactionExecutor × ReferenceStateApplier
fresh plans applier = (new plans, applier)

-- A planned execution that uses up its plans has, for each transaction and in their order, a plan with
-- the transaction's root and an applicable patch, and no plan more; and the receipts root of its outcome
-- is that of the plans' receipts.
pub execute_transaction-Plans :
    (h : Sha256) (plans : List PlannedTransaction) (applier : ReferenceStateApplier) (root : Root)
    (transactions : List TransactionEnvelope) (outcome : BlockExecutionOutcome)
    (after : PlannedTransactionExecutor × ReferenceStateApplier)
    → execute_block h
        (execute_transaction h)
        (apply_transition h)
        root
        transactions
        (fresh plans applier)
      ≡ (ok outcome, after)
    → ensure_exhausted after.0 ≡ ok tt
    → Plans h transactions plans
      × (outcome.receipts_root ≡ compute_receipts_root h (planned_receipts plans))
execute_transaction-Plans h plans applier root transactions outcome after e exhausted =
    let (ran, receipts) =
      (execute_block_iff h (execute_transaction h) (apply_transition h) root transactions
          (fresh plans applier) outcome after).0
        e in
    let all_used = (ensure_exhausted_iff after.0).0 exhausted in
    let (fits, same) =
      Run-Plans h root transactions (fresh plans applier) outcome.transaction_outcomes
        outcome.post_state_root after ran
        (drop_all after.0.next_index after.0.planned_transactions (omega arith)) in
    (fits, receipts ∙ ap (compute_receipts_root h) same)

-- From an applier that holds the block's first root and is not borrowed, a planned execution with one
-- plan for each transaction, in their order, with its root and an applicable patch, succeeds, and uses
-- up the plans.
pub execute_transaction-completes :
    (h : Sha256) (plans : List PlannedTransaction) (applier : ReferenceStateApplier) (root : Root)
    (transactions : List TransactionEnvelope)
    → Ready applier root
    → Plans h transactions plans
    → (outcome : BlockExecutionOutcome) × (after : PlannedTransactionExecutor
        × ReferenceStateApplier)
      × (execute_block h
            (execute_transaction h)
            (apply_transition h)
            root
            transactions
            (fresh plans applier)
          ≡ (ok outcome, after))
      × (ensure_exhausted after.0 ≡ ok tt)
execute_transaction-completes h plans applier root transactions ready fits =
    let c = Plans-Complete h root transactions (new plans) applier plans ready refl fits in
    let outcome : BlockExecutionOutcome = record {
      post_state_root = c.final;
      receipts_root = compute_receipts_root h (receipts_of c.outcomes);
      transaction_outcomes = c.outcomes;
    } in
    (
      outcome,
      c.after,
      (execute_block_iff h (execute_transaction h) (apply_transition h) root transactions
            (fresh plans applier) outcome c.after).1
          (c.run, refl),
      (ensure_exhausted_iff c.after.0).1
          (omega (arith, c.moved, ap length c.same_plans, Plans-length h transactions plans fits)),
    )

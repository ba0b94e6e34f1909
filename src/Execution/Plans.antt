-- ===== src/Execution/Plans.antt =====
-- The planned executor, one transaction at a time.
use shell_chain_specs.Common.{
  ℕ, suc, ◌+◌, arith, ◌≡◌, refl, sym, ap, subst, ◌∙◌, List, [], ◌∷◌, get_elem?, drop, All, All-drop,
  get_elem?-drop, drop-get_elem?, bytes_eq_refl, bytes_eq, bytes_eq→eq, if_ok, Result-cases, inl,
  inr, ok, err, >>=-eq-ok, ok_or, ok_or-eq-ok, map_err, map_err-eq-ok, ok-injective,
}
use shell_chain_specs.Primitives.Types.{Root, TransactionEnvelope}
use shell_chain_specs.Primitives.Hash.{Sha256}
use shell_chain_specs.Primitives.Ssz.{envelope_root}
use shell_chain_specs.State.Applier.Accepts.{Applicable}
use shell_chain_specs.Execution.{
  ExecutionError, ExecutionReceipt, TransactionExecutionOutcome, BlockExecutionOutcome,
  PlannedTransaction, TransactionExecutionPlan, PlannedTransactionExecutor, new, is_exhausted,
  ensure_exhausted, next_plan, execute_transaction, execute_block, receipts_of,
  compute_receipts_root,
}
use shell_chain_specs.Execution
use shell_chain_specs.Primitives.StateKey.{StateKeyIsValid}
use shell_chain_specs.Execution.Reference.{HandsOutValid}

-- One plan for each transaction, in the same order: with the transaction's root, and with a patch that
-- the applier can apply.
abbrev pub Plans : Sha256 → List TransactionEnvelope → List PlannedTransaction → Type 0
Plans h [] [] = Unit
Plans h [] (plan ∷ plans) = ⊥
Plans h (transaction ∷ transactions) [] = ⊥
Plans h (transaction ∷ transactions) (plan ∷ plans) =
    (envelope_root h transaction ≡ ok plan.transaction_root)
    × (Applicable plan.plan.state_patch × Plans h transactions plans)

abbrev pub planned_receipts : List PlannedTransaction → List ExecutionReceipt
planned_receipts [] = []
planned_receipts (plan ∷ plans) = plan.plan.receipt ∷ planned_receipts plans

abbrev pub advance : PlannedTransactionExecutor → PlannedTransactionExecutor
advance planned = record {
  planned_transactions = planned.planned_transactions;
  next_index = planned.next_index + 1;
}

-- The plans that are left.
abbrev pub left_of : PlannedTransactionExecutor → List PlannedTransaction
left_of planned = drop planned.next_index planned.planned_transactions

-- The keys of all plans are well typed.
abbrev pub PlansValid : PlannedTransactionExecutor → Type 0
PlansValid planned =
    All (λ (p : PlannedTransaction). All StateKeyIsValid p.plan.state_patch.accesses)
      planned.planned_transactions

next_index-suc :
    (planned : PlannedTransactionExecutor) → suc planned.next_index ≡ planned.next_index + 1
next_index-suc planned = omega arith

module _ (h : Sha256) where
  pub execute-inv :
      (planned after : PlannedTransactionExecutor) (root : Root) (transaction : TransactionEnvelope)
      (plan : TransactionExecutionPlan)
      → execute_transaction h planned root transaction ≡ (ok plan, after)
      → (next : PlannedTransaction) × (left_of planned ≡ next ∷ left_of after)
        × (envelope_root h transaction ≡ ok next.transaction_root)
        × (next.plan ≡ plan)
        × (after ≡ advance planned)
  unfolding execute_transaction next_plan
  execute-inv planned after root transaction plan e =
      elim (Result-cases (next_plan h planned transaction)) [
        | inl (p, c) ↦
            let moved : execute_transaction h planned root transaction ≡ (ok p, advance planned) =
              rw (c, execute_transaction) refl in
            let same : p ≡ plan = ok-injective (ap (λ x. x.0) (sym moved ∙ e)) in
            let kept : advance planned ≡ after = ap (λ x. x.1) (sym moved ∙ e) in
            let (next, found, e1) =
              >>=-eq-ok
                (ok_or (get_elem? planned.planned_transactions planned.next_index)
                  (Execution.executor "missing planned transaction step"))
                _ c in
            let (name, named, e2) =
              >>=-eq-ok (map_err Execution.transaction_root (envelope_root h transaction)) _ e1 in
            let (equal, made) = if_ok (bytes_eq name next.transaction_root) _ _ e2 in
            (
              next,
              get_elem?-drop planned.planned_transactions planned.next_index next
                    (ok_or-eq-ok _ _ found)
                  ∙ ap (λ (i : ℕ). next ∷ drop i planned.planned_transactions)
                      (next_index-suc planned)
                  ∙ ap (λ (s : PlannedTransactionExecutor). next ∷ left_of s) kept,
              map_err-eq-ok Execution.transaction_root _ named
                  ∙ ap ok (bytes_eq→eq name next.transaction_root equal),
              ok-injective made ∙ same,
              sym kept,
            )
        | inr (reason, c) ↦
            let fails : execute_transaction h planned root transaction ≡ (err reason, planned) =
              rw (c, execute_transaction) refl in
            absurd (cc (ap (λ x. x.0) (sym fails ∙ e)))
      ]

  pub next-execute :
      (planned : PlannedTransactionExecutor) (root : Root) (transaction : TransactionEnvelope)
      (next : PlannedTransaction) (rest : List PlannedTransaction)
      → left_of planned ≡ next ∷ rest
      → envelope_root h transaction ≡ ok next.transaction_root
      → (execute_transaction h planned root transaction ≡ (ok next.plan, advance planned))
        × (left_of (advance planned) ≡ rest)
  unfolding execute_transaction next_plan
  next-execute planned root transaction next rest left named =
      let (found, later) =
        drop-get_elem? planned.planned_transactions planned.next_index next rest left in
      (
        rw (found, named, bytes_eq_refl next.transaction_root, execute_transaction) refl,
        ap (λ (i : ℕ). drop i planned.planned_transactions) (sym (next_index-suc planned)) ∙ later,
      )

  pub execute_transaction-HandsOutValid : HandsOutValid PlansValid (execute_transaction h)
  execute_transaction-HandsOutValid planned after root transaction plan valid e =
      let (next, left, _, same, moved) = execute-inv planned after root transaction plan e in
      let left_valid =
        All-drop (λ (p : PlannedTransaction). All StateKeyIsValid p.plan.state_patch.accesses)
          planned.next_index planned.planned_transactions valid in
      (
        subst (λ (p : TransactionExecutionPlan). All StateKeyIsValid p.state_patch.accesses) same
            (subst
              (All (λ (p : PlannedTransaction). All StateKeyIsValid p.plan.state_patch.accesses))
              left left_valid).0,
        subst PlansValid (sym moved) valid,
      )

-- ===== src/Execution/Reference.antt =====
-- The block executor over the reference applier.
use shell_chain_specs.Common.{◌≡◌, All, List, Result, ok}
use shell_chain_specs.Primitives.Types.{Root, TransactionEnvelope}
use shell_chain_specs.Primitives.StateKey.{StateKeyIsValid}
use shell_chain_specs.Primitives.Hash.{Sha256}
use shell_chain_specs.State.Accumulator.Invariant.{WellFormed}
use shell_chain_specs.State.Applier.{ReferenceStateApplier, apply_transition}
use shell_chain_specs.State.Applier.Accepts.{Ready, apply_transition-Applied, Applied-WellFormed}
use shell_chain_specs.Execution.{
  ExecutionError, TransactionExecutionOutcome, BlockExecutionOutcome, TransactionExecutionPlan,
  execute_block,
}
use shell_chain_specs.Execution.Steps.{Run, stop, step, execute_block_iff}

-- From a state with the property, the executor hands out plans with well typed keys, and keeps the
-- property.
abbrev pub HandsOutValid {ε κ} :
    {E : Type ε}
    → (E → Type κ)
    → (E → Root → TransactionEnvelope → Result TransactionExecutionPlan ExecutionError × E)
    → Type (ε ⊔ κ)
HandsOutValid {E = E} IsSound execute =
    (state after : E) (root : Root) (transaction : TransactionEnvelope)
    (plan : TransactionExecutionPlan)
    → IsSound state
    → execute state root transaction ≡ (ok plan, after)
    → All StateKeyIsValid plan.state_patch.accesses × IsSound after

module _ {ε κ} {E : Type ε} (h : Sha256) (IsSound : E → Type κ)
    (execute : E
      → Root
      → TransactionEnvelope
      → Result TransactionExecutionPlan ExecutionError × E) where
  abbrev Before : E × ReferenceStateApplier → Root → Type κ
  Before state root = IsSound state.0 × (Ready state.1 root × WellFormed h state.1.accumulator)

  Run-Before :
      (root : Root) (transactions : List TransactionEnvelope) (before : E × ReferenceStateApplier)
      (outcomes : List TransactionExecutionOutcome) (final : Root)
      (after : E × ReferenceStateApplier)
      → HandsOutValid IsSound execute
      → Run h execute (apply_transition h) root transactions before outcomes final after
      → Before before root
      → Before after final
  Run-Before _ _ _ _ _ _ valid (stop root state) b = b
  Run-Before _ _ _ _ _ _ valid (step root t ts outcome outs before between after final s rest) b =
      let applied =
        apply_transition-Applied h before.1 root s.plan.state_patch
          (record { post_state_root = outcome.post_state_root }) between.1 s.applied in
      let (keys, sound) = valid before.0 between.0 root t s.plan b.0 s.planned in
      Run-Before outcome.post_state_root ts between outs final after valid rest (
        sound,
        (
          applied.ready_after,
          Applied-WellFormed h before.1 root s.plan.state_patch outcome.post_state_root between.1
              b.1.1 keys applied,
        ),
      )

-- Over the reference applier, with an executor that hands out plans with well typed keys, a block that
-- is executed from a well formed accumulator, not borrowed and with the block's first root, leaves one
-- that is well formed, not borrowed and whose root is the outcome's post state root.
pub execute_block-WellFormed {ε κ} :
    {E : Type ε} (h : Sha256) (IsSound : E → Type κ)
    (execute : E → Root → TransactionEnvelope → Result TransactionExecutionPlan ExecutionError × E)
    (root : Root) (transactions : List TransactionEnvelope) (before : E × ReferenceStateApplier)
    (outcome : BlockExecutionOutcome) (after : E × ReferenceStateApplier)
    → HandsOutValid IsSound execute
    → IsSound before.0
    → Ready before.1 root
    → WellFormed h before.1.accumulator
    → execute_block h execute (apply_transition h) root transactions before ≡ (ok outcome, after)
    → Ready after.1 outcome.post_state_root × WellFormed h after.1.accumulator
execute_block-WellFormed h IsSound execute root transactions before outcome after valid sound ready
      w e =
    let ran =
      (execute_block_iff h execute (apply_transition h) root transactions before outcome after).0
        e in
    (Run-Before h IsSound execute root transactions before outcome.transaction_outcomes
      outcome.post_state_root after valid ran.0 (sound, (ready, w))).1

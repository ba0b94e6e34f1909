-- ===== src/Execution/Tests.antt =====
-- A block of one transaction, planned with a patch of two leaves, on the empty accumulator.
use shell_chain_specs.Common.{◌≡◌, refl, ◌↔◌, ◌⊎◌, List, [], ◌∷◌, ok, compare_bytes}
use shell_chain_specs.Primitives.Types.{Root, TransactionEnvelope, zero_root}
use shell_chain_specs.Primitives.StateKey.{
  compare_state_keys, encode_state_key, canonicalize_execution_address,
}
use shell_chain_specs.Primitives.Hash.{Collision}
use shell_chain_specs.Primitives.Ssz.{
  merkleize, htr_authorization_list, envelope_root, payload_root,
}
use shell_chain_specs.Primitives.Tests.{prefix_hash, some_envelope, some_root}
use shell_chain_specs.State.Witness.{increasing_loop, ensure_canonical_access_order}
use shell_chain_specs.State.Witness.Order.{increasing_loop-Increasing}
use shell_chain_specs.State.Accumulator
use shell_chain_specs.State.Accumulator.Invariant.{WellFormed, new-WellFormed}
use shell_chain_specs.State.Applier.{ReferenceStateApplier, apply_transition}
use shell_chain_specs.State.Applier
use shell_chain_specs.State.Applier.Accepts.{Ready, Applicable}
use shell_chain_specs.State.Tests.{two_leaves, two_keys, two_keys-IsValid}
use shell_chain_specs.Execution.{
  ExecutionReceipt, BlockExecutionOutcome, PlannedTransaction, PlannedTransactionExecutor,
  ensure_exhausted, execute_transaction, execute_block, compute_receipts_root, receipts_of,
}
use shell_chain_specs.Execution.Receipts.{compute_receipts_root-binds}
use shell_chain_specs.Execution.Steps.{Run, execute_block_iff}
use shell_chain_specs.Execution.Reference.{execute_block-WellFormed}
use shell_chain_specs.Execution.Planned.{
  fresh, execute_transaction-Plans, execute_transaction-completes,
}
use shell_chain_specs.Execution.Plans.{
  Plans, planned_receipts, PlansValid, execute_transaction-HandsOutValid,
}

abbrev transfer : TransactionEnvelope
transfer = some_envelope

abbrev transfer_root : Root
transfer_root =
    merkleize prefix_hash
      (some_root ∷ htr_authorization_list prefix_hash some_envelope.authorizations ∷ []) 2

transfer_root-eq : envelope_root prefix_hash transfer ≡ ok transfer_root
unfolding envelope_root payload_root
transfer_root-eq = refl

abbrev success : ExecutionReceipt
success = record { status_code = 1; output = 7 ∷ [] }

abbrev plans : List PlannedTransaction
plans =
    record {
      transaction_root = transfer_root;
      plan = record { state_patch = two_leaves; receipt = success };
    }
    ∷ []

two_leaves-Applicable : Applicable two_leaves
unfolding ensure_canonical_access_order increasing_loop compare_state_keys compare_bytes
    encode_state_key canonicalize_execution_address
two_leaves-Applicable = (refl, increasing_loop-Increasing "" 0 two_keys refl)

abbrev applier : ReferenceStateApplier
applier = Applier.new Accumulator.new

abbrev completed :
    (outcome : BlockExecutionOutcome) × (after : PlannedTransactionExecutor × ReferenceStateApplier)
    × (execute_block prefix_hash
          (execute_transaction prefix_hash)
          (apply_transition prefix_hash)
          zero_root
          (transfer ∷ [])
          (fresh plans applier)
        ≡ (ok outcome, after))
    × (ensure_exhausted after.0 ≡ ok tt)
completed =
    execute_transaction-completes prefix_hash plans applier zero_root (transfer ∷ []) (refl, refl)
      (transfer_root-eq, (two_leaves-Applicable, tt))

execute_transaction-completes_example :
    (outcome : BlockExecutionOutcome) × (after : PlannedTransactionExecutor × ReferenceStateApplier)
    × (execute_block prefix_hash
          (execute_transaction prefix_hash)
          (apply_transition prefix_hash)
          zero_root
          (transfer ∷ [])
          (fresh plans applier)
        ≡ (ok outcome, after))
    × (ensure_exhausted after.0 ≡ ok tt)
execute_transaction-completes_example =
    execute_transaction-completes prefix_hash plans applier zero_root (transfer ∷ []) (refl, refl)
      (transfer_root-eq, (two_leaves-Applicable, tt))

execute_transaction-Plans_example :
    Plans prefix_hash (transfer ∷ []) plans
    × (completed.0.receipts_root ≡ compute_receipts_root prefix_hash (planned_receipts plans))
execute_transaction-Plans_example =
    execute_transaction-Plans prefix_hash plans applier zero_root (transfer ∷ []) completed.0
      completed.1 completed.2 completed.3

execute_block-WellFormed_example :
    Ready completed.1.1 completed.0.post_state_root
    × WellFormed prefix_hash completed.1.1.accumulator
execute_block-WellFormed_example =
    execute_block-WellFormed prefix_hash PlansValid (execute_transaction prefix_hash) zero_root
      (transfer ∷ []) (fresh plans applier) completed.0 completed.1
      (execute_transaction-HandsOutValid prefix_hash) (two_keys-IsValid, tt) (refl, refl)
      (new-WellFormed prefix_hash) completed.2

execute_block_iff_example :
    (execute_block prefix_hash
        (execute_transaction prefix_hash)
        (apply_transition prefix_hash)
        zero_root
        (transfer ∷ [])
        (fresh plans applier)
      ≡ (ok completed.0, completed.1))
    ↔ (Run prefix_hash
          (execute_transaction prefix_hash)
          (apply_transition prefix_hash)
          zero_root
          (transfer ∷ [])
          (fresh plans applier)
          completed.0.transaction_outcomes
          completed.0.post_state_root
          completed.1
        × (completed.0.receipts_root
            ≡ compute_receipts_root prefix_hash (receipts_of completed.0.transaction_outcomes)))
execute_block_iff_example =
    execute_block_iff prefix_hash (execute_transaction prefix_hash) (apply_transition prefix_hash)
      zero_root (transfer ∷ []) (fresh plans applier) completed.0 completed.1

compute_receipts_root-binds_example : (success ∷ [] ≡ success ∷ []) ⊎ Collision prefix_hash
compute_receipts_root-binds_example =
    compute_receipts_root-binds prefix_hash (success ∷ []) (success ∷ []) refl

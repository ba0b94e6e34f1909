-- ===== src/Execution.antt =====
-- crates/shell-execution/src: errors, outputs, the block executor and the planned executor. An executor
-- and an applier are trait objects with interior state: here a function that takes its state and gives
-- it back, also with an error, as the code leaves it.
pub mod Plans
pub mod Steps
pub mod Receipts
pub mod Planned
pub mod Reference
pub mod Tests
use shell_chain_specs.Common.{
  ℕ, ◌+◌, ◌==◌, Bool, String, List, [], ◌∷◌, ◌++◌, Bytes, length, get_elem?, bytes_eq,
  if◌then◌else◌, to_be_bytes, Result, ok, err, ◌>>◌, ◌>>=◌, map_err, ok_or, chain,
}
use shell_chain_specs.Primitives.Types.{Root, TransactionEnvelope}
use shell_chain_specs.Primitives.Errors.{PrimitiveError}
use shell_chain_specs.Primitives.Hash.{Sha256}
use shell_chain_specs.Primitives.Ssz.{envelope_root}
use shell_chain_specs.State.Witness.{StateError, StatePatch}
use shell_chain_specs.State.Applier.{StateTransitionOutcome}

pub data ExecutionError : Type 0 where
  transaction_root : PrimitiveError → ExecutionError
  state_transition : StateError → ExecutionError
  executor : (context : String) → ExecutionError
  post_state_root_mismatch : (expected actual : Root) → ExecutionError
  receipts_root_mismatch : (expected actual : Root) → ExecutionError

pub record ExecutionReceipt : Type 0 where
  pub status_code : ℕ
  pub output : Bytes

pub record TransactionExecutionOutcome : Type 0 where
  pub transaction_root : Root
  pub post_state_root : Root
  pub receipt : ExecutionReceipt

pub record BlockExecutionOutcome : Type 0 where
  pub post_state_root : Root
  pub receipts_root : Root
  pub transaction_outcomes : List TransactionExecutionOutcome

pub record CommittedExecutionRoots : Type 0 where
  pub state_root : Root
  pub receipts_root : Root

unfoldable pub ensure_matches :
    BlockExecutionOutcome → CommittedExecutionRoots → Result (Unit {0}) ExecutionError
ensure_matches outcome committed =
    (if bytes_eq outcome.post_state_root committed.state_root
      then ok tt
      else err (post_state_root_mismatch committed.state_root outcome.post_state_root))
    >> (if bytes_eq outcome.receipts_root committed.receipts_root
        then ok tt
        else err (receipts_root_mismatch committed.receipts_root outcome.receipts_root))

pub record TransactionExecutionPlan : Type 0 where
  pub state_patch : StatePatch
  pub receipt : ExecutionReceipt

pub record PlannedTransaction : Type 0 where
  pub transaction_root : Root
  pub plan : TransactionExecutionPlan

pub record PlannedTransactionExecutor : Type 0 where
  pub planned_transactions : List PlannedTransaction
  pub next_index : ℕ

abbrev pub new : List PlannedTransaction → PlannedTransactionExecutor
new planned_transactions = record { planned_transactions = planned_transactions; next_index = 0 }

unfoldable pub is_exhausted : PlannedTransactionExecutor → Bool
is_exhausted planned = planned.next_index == length planned.planned_transactions

unfoldable pub ensure_exhausted : PlannedTransactionExecutor → Result (Unit {0}) ExecutionError
unfolding is_exhausted
ensure_exhausted planned =
    if is_exhausted planned then ok tt else err (executor "unconsumed planned transaction steps")

abbrev pub receipts_of : List TransactionExecutionOutcome → List ExecutionReceipt
receipts_of [] = []
receipts_of (outcome ∷ outcomes) = outcome.receipt ∷ receipts_of outcomes

-- The bytes of "shell-execution/receipt-v1" and of "shell-execution/receipts-root-v1".
abbrev pub receipt_tag : Bytes
receipt_tag =
    115 ∷ 104 ∷ 101 ∷ 108 ∷ 108 ∷ 45 ∷ 101 ∷ 120 ∷ 101 ∷ 99 ∷ 117 ∷ 116 ∷ 105 ∷ 111 ∷ 110 ∷ 47 ∷ 114
    ∷ 101 ∷ 99 ∷ 101 ∷ 105 ∷ 112 ∷ 116 ∷ 45 ∷ 118 ∷ 49 ∷ []

abbrev pub receipts_root_tag : Bytes
receipts_root_tag =
    115 ∷ 104 ∷ 101 ∷ 108 ∷ 108 ∷ 45 ∷ 101 ∷ 120 ∷ 101 ∷ 99 ∷ 117 ∷ 116 ∷ 105 ∷ 111 ∷ 110 ∷ 47 ∷ 114
    ∷ 101 ∷ 99 ∷ 101 ∷ 105 ∷ 112 ∷ 116 ∷ 115 ∷ 45 ∷ 114 ∷ 111 ∷ 111 ∷ 116 ∷ 45 ∷ 118 ∷ 49 ∷ []

module _ (h : Sha256) where
  -- `canonical_root` of a receipt.
  unfoldable pub receipt_root : ExecutionReceipt → Root
  receipt_root receipt = h.digest (
      receipt_tag
      ++ ((receipt.status_code ∷ []) ++ (to_be_bytes 8 (length receipt.output) ++ receipt.output)))

  unfoldable pub receipt_roots : List ExecutionReceipt → Bytes
  unfolding receipt_root
  receipt_roots [] = []
  receipt_roots (receipt ∷ receipts) = receipt_root receipt ++ receipt_roots receipts

  unfoldable pub compute_receipts_root : List ExecutionReceipt → Root
  unfolding receipt_roots
  compute_receipts_root receipts =
      h.digest (receipts_root_tag ++ (to_be_bytes 8 (length receipts) ++ receipt_roots receipts))

  unfoldable pub from_transaction :
      TransactionEnvelope → TransactionExecutionPlan → Result PlannedTransaction ExecutionError
  from_transaction transaction plan = do
    root ← map_err transaction_root (envelope_root h transaction)
    ok (record { transaction_root = root; plan = plan })

  -- What is returned, and the executor that the call leaves: the index moves on only when the step is
  -- handed out.
  unfoldable pub next_plan :
      PlannedTransactionExecutor
      → TransactionEnvelope
      → Result TransactionExecutionPlan ExecutionError
  next_plan planned transaction = do
    step ←
        ok_or (get_elem? planned.planned_transactions planned.next_index)
          (executor "missing planned transaction step")
    root ← map_err transaction_root (envelope_root h transaction)
    if bytes_eq root step.transaction_root
        then ok step.plan
        else err (executor "planned transaction root mismatch")

  unfoldable pub execute_transaction :
      PlannedTransactionExecutor
      → Root
      → TransactionEnvelope
      → Result TransactionExecutionPlan ExecutionError × PlannedTransactionExecutor
  unfolding next_plan
  execute_transaction planned pre_state_root transaction = elim (next_plan planned transaction) [
    | ok plan ↦ (
      ok plan,
      record {
        planned_transactions = planned.planned_transactions;
        next_index = planned.next_index + 1;
      },
    )
    | err reason ↦ (err reason, planned)
  ]

  -- The states of the executor and of the applier stand in a pair.
  module _ {ε σ} {E : Type ε} {S : Type σ}
      (execute : E
        → Root
        → TransactionEnvelope
        → Result TransactionExecutionPlan ExecutionError × E)
      (apply : S → Root → StatePatch → Result StateTransitionOutcome StateError × S) where
    -- The loop's body.
    unfoldable pub execute_one :
        Root
        → TransactionEnvelope
        → E × S
        → Result TransactionExecutionOutcome ExecutionError × (E × S)
    execute_one root transaction state =
        chain (map_err transaction_root (envelope_root h transaction), state)
          λ (named : Root) (state : E × S).
            let planned = execute state.0 root transaction in
            chain (planned.0, (planned.1, state.1))
              λ (plan : TransactionExecutionPlan) (state : E × S).
                let applied = apply state.1 root plan.state_patch in
                chain (map_err state_transition applied.0, (state.0, applied.1))
                  λ (outcome : StateTransitionOutcome) (state : E × S). (
                    ok (record {
                      transaction_root = named;
                      post_state_root = outcome.post_state_root;
                      receipt = plan.receipt;
                    }),
                    state,
                  )

    -- The root after the transactions, and their outcomes.
    unfoldable pub execute_loop :
        Root
        → List TransactionEnvelope
        → E × S
        → Result (Root × List TransactionExecutionOutcome) ExecutionError × (E × S)
    unfolding execute_one
    execute_loop root [] state = (ok (root, []), state)
    execute_loop root (transaction ∷ transactions) state =
        chain (execute_one root transaction state)
          λ (outcome : TransactionExecutionOutcome) (state : E × S).
            chain (execute_loop outcome.post_state_root transactions state)
              λ (rest : Root × List TransactionExecutionOutcome) (state : E × S).
                (ok (rest.0, outcome ∷ rest.1), state)

    unfoldable pub execute_block :
        Root
        → List TransactionEnvelope
        → E × S
        → Result BlockExecutionOutcome ExecutionError × (E × S)
    unfolding execute_loop compute_receipts_root
    execute_block pre_state_root transactions state =
        chain (execute_loop pre_state_root transactions state)
          λ (run : Root × List TransactionExecutionOutcome) (state : E × S). (
            ok (record {
              post_state_root = run.0;
              receipts_root = compute_receipts_root (receipts_of run.1);
              transaction_outcomes = run.1;
            }),
            state,
          )

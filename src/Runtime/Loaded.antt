-- ===== src/Runtime/Loaded.antt =====
-- The local run of a scenario that the fixtures' loader resolved.
pub mod Tests
use shell_chain_specs.Common.{
  ℕ, ◌==◌, ==_iff, arith, suc, ◌≡◌, refl, sym, ap, ap₂, subst, ◌∙◌, false, List, [], ◌∷◌, map,
  length-map, Bytes, length, is_empty, bytes_eq, eq→bytes_eq, bytes_eq_refl, Result, ok, err,
  ok-injective, >>=-eq-ok, map_err-eq-ok, if◌then◌else◌, ◌>>=◌,
}
use shell_chain_specs.Primitives.Types.{Root, TransactionEnvelope}
use shell_chain_specs.Primitives.StateKey.{StateKey}
use shell_chain_specs.Primitives.Hash.{Sha256}
use shell_chain_specs.State.Accumulator.{InMemoryAccumulator, apply_transition}
use shell_chain_specs.State.Accumulator
use shell_chain_specs.State.Applier
use shell_chain_specs.Execution.{
  BlockExecutionOutcome, PlannedTransaction, execute_block, execute_transaction,
}
use shell_chain_specs.Execution
use shell_chain_specs.Execution.Planned.{execute_transaction-completes}
use shell_chain_specs.Execution.Plans.{Plans}
use shell_chain_specs.Consensus.{verify_body_binding, verify_sidecar_binding}
use shell_chain_specs.Consensus.Objects.{consensus_header, consensus_body, consensus_sidecar}
use shell_chain_specs.Fixtures.{RootCheckScenario, RootCheckScenarioStep}
use shell_chain_specs.Fixtures.Hex.{Panic, Text}
use shell_chain_specs.Fixtures.Vectors.{TransactionVector, WitnessVector}
use shell_chain_specs.Fixtures.Load.{
  materialize_root_check_accumulator, resolve_root_check_scenario,
}
use shell_chain_specs.Fixtures.RootCheck.{RootCheckVector, unwrap}
use shell_chain_specs.Fixtures.Resolved.{Names, Resolved, resolve-Resolved}
use shell_chain_specs.Runtime.{
  LocalReferenceScenario, materialize_accumulator, validate_scenario_shape, prepare_witness,
  execute_reference_block,
}
use shell_chain_specs.Runtime.Scenario.{
  planned_step, scenario_block, reference_materials, synthesize_reference_admission_transaction,
  from_root_check_scenario,
}

-- The loader's accumulator is the run's, when the state is not empty.
same_accumulator :
    (h : Sha256) (entries : List (StateKey × Bytes)) (acc : InMemoryAccumulator)
    → is_empty entries ≡ false
    → materialize_root_check_accumulator h entries ≡ ok acc
    → materialize_accumulator h entries ≡ ok acc
unfolding materialize_root_check_accumulator materialize_accumulator
same_accumulator h [] acc full e = cc
same_accumulator h (entry ∷ entries) acc full e =
    let (root, applied, e1) =
      >>=-eq-ok
        (unwrap
          (apply_transition h Accumulator.new (record {
            accesses = map (λ (e : StateKey × Bytes). e.0) (entry ∷ entries);
            new_values = map (λ (e : StateKey × Bytes). e.1) (entry ∷ entries);
          })).0)
        _ e in
    rw (map_err-eq-ok _ _ applied) (ap ok (ok-injective e1))

-- A step writes one key, which is always applicable.
Names-Plans :
    (h : Sha256) (transactions : List TransactionEnvelope) (steps : List RootCheckScenarioStep)
    → Names h transactions steps
    → Plans h transactions (map planned_step steps)
unfolding planned_step
Names-Plans h [] [] n = tt
Names-Plans h [] (step ∷ steps) n = absurd n
Names-Plans h (t ∷ ts) [] n = absurd n
Names-Plans h (t ∷ ts) (step ∷ steps) (named, n) =
    (named, ((refl, (tt, tt)), Names-Plans h ts steps n))

Names-length :
    (h : Sha256) (transactions : List TransactionEnvelope) (steps : List RootCheckScenarioStep)
    → Names h transactions steps
    → length steps ≡ length transactions
Names-length h [] [] n = refl
Names-length h [] (step ∷ steps) n = absurd n
Names-length h (t ∷ ts) [] n = absurd n
Names-length h (t ∷ ts) (step ∷ steps) (named, n) = ap suc (Names-length h ts steps n)

module _ (h : Sha256) (scenario : RootCheckScenario) (r : Resolved h scenario) where
  run_of : LocalReferenceScenario
  run_of = from_root_check_scenario h scenario

  shape_ok : validate_scenario_shape run_of ≡ ok tt
  unfolding validate_scenario_shape run_of from_root_check_scenario scenario_block
  shape_ok =
      let ts = scenario.transactions in
      let equal = λ (n : ℕ) (e : n ≡ length ts). (==_iff n (length ts)).1 e in
      rw
        (
          equal (length (map (synthesize_reference_admission_transaction h) ts))
              (length-map (synthesize_reference_admission_transaction h) ts),
          equal (length (map planned_step scenario.steps)) (
              length-map planned_step scenario.steps
              ∙ Names-length h scenario.transactions scenario.steps r.names),
          equal (length (map reference_materials ts)) (length-map reference_materials ts),
        )
        refl

  body_ok :
      verify_body_binding (consensus_header run_of.block.header) (consensus_body run_of.block.body)
      ≡ ok tt
  unfolding verify_body_binding run_of from_root_check_scenario scenario_block
  body_ok = rw (bytes_eq_refl scenario.header.transactions_root) refl

  materialized_ok : materialize_accumulator h scenario.materialized_state ≡ ok r.accumulator
  materialized_ok =
      same_accumulator h scenario.materialized_state r.accumulator r.inhabited r.materialized

  prepared_ok :
      prepare_witness h run_of.pre_state_root run_of.materialized_state
        run_of.block.sidecar.witnesses
        (consensus_header run_of.block.header)
        (consensus_sidecar run_of.block.sidecar)
      ≡ ok tt
  unfolding prepare_witness run_of from_root_check_scenario scenario_block
  prepared_ok = rw (eq→bytes_eq _ _ r.committed, materialized_ok, eq→bytes_eq _ _ r.root) r.verified

  sidecar_ok :
      verify_sidecar_binding
        (consensus_header run_of.block.header)
        scenario.header.block_root
        (consensus_sidecar run_of.block.sidecar)
        (prepare_witness h run_of.pre_state_root run_of.materialized_state
          run_of.block.sidecar.witnesses)
      ≡ ok tt
  unfolding verify_sidecar_binding run_of from_root_check_scenario scenario_block
  sidecar_ok =
      rw
        (
          eq→bytes_eq scenario.sidecar.block_root scenario.header.block_root r.same_block,
          bytes_eq_refl scenario.header.execution_witnesses_root,
          prepared_ok,
        )
        refl

  executed_ok :
      (outcome : BlockExecutionOutcome) × (execute_reference_block h run_of.pre_state_root
          run_of.materialized_state run_of.planned_transactions
          (consensus_header run_of.block.header)
          (consensus_body run_of.block.body)
          (consensus_sidecar run_of.block.sidecar)
        ≡ ok outcome)
  unfolding execute_reference_block run_of from_root_check_scenario scenario_block
  executed_ok =
      let plans = map planned_step scenario.steps in
      let (outcome, after, done, exhausted) =
        execute_transaction-completes h plans (Applier.new r.accumulator) scenario.pre_state_root
          scenario.transactions (r.root, refl)
          (Names-Plans h scenario.transactions scenario.steps r.names) in
      (outcome, rw (materialized_ok, eq→bytes_eq _ _ r.root, done, exhausted) refl)

-- For a scenario that the loader resolves, whatever vectors the files hold, these steps of the local run
-- succeed: the check of its shape; that the body's root is the header's; that the sidecar names the
-- block and has the header's commitment, with the preparation of its witnesses; and the planned
-- execution of the body, which runs to the end of the plans and gives an outcome.
pub resolve_root_check_scenario-runs :
    (h : Sha256) (load_transaction : Text → Result TransactionVector Panic)
    (load_witness : Text → Result WitnessVector Panic) (fixture : RootCheckVector)
    (scenario : RootCheckScenario)
    → resolve_root_check_scenario h load_transaction load_witness fixture ≡ ok scenario
    → let local = from_root_check_scenario h scenario in
      let header = consensus_header local.block.header in
      let body = consensus_body local.block.body in
      let sidecar = consensus_sidecar local.block.sidecar in
      (validate_scenario_shape local ≡ ok tt)
      × (verify_body_binding header body ≡ ok tt)
      × (verify_sidecar_binding header scenario.header.block_root sidecar (
            prepare_witness h local.pre_state_root local.materialized_state
              local.block.sidecar.witnesses)
          ≡ ok tt)
      × ((outcome : BlockExecutionOutcome) × (execute_reference_block h local.pre_state_root
              local.materialized_state local.planned_transactions header body sidecar
            ≡ ok outcome))
unfolding run_of
resolve_root_check_scenario-runs h load_transaction load_witness fixture scenario e =
    let r = resolve-Resolved h load_transaction load_witness fixture scenario e in
    (shape_ok h scenario r, body_ok h scenario r, sidecar_ok h scenario r, executed_ok h scenario r)

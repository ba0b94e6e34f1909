-- ===== src/Fixtures/Resolved.antt =====
-- What a scenario satisfies that is resolved from its vectors.
use shell_chain_specs.Common.{
  ◌==◌, ==_iff, arith, ◌≡◌, refl, sym, ap, subst, ◌∙◌, Bool, true, false, Bool-cases, not, inl, inr,
  List, [], ◌∷◌, Bytes, length, is_empty, bytes_eq, bytes_eq→eq, drop, Result, ok, ok-injective,
  >>=-eq-ok, map_err-eq-ok,
}
use shell_chain_specs.Primitives.Types.{Root, TransactionEnvelope}
use shell_chain_specs.Primitives.StateKey.{StateKey, StateWitness}
use shell_chain_specs.Primitives.Hash.{Sha256}
use shell_chain_specs.Primitives.Ssz.{envelope_root}
use shell_chain_specs.State.Witness.{verify_witnesses}
use shell_chain_specs.State.Accumulator.{InMemoryAccumulator, verify_witness}
use shell_chain_specs.Fixtures.{
  RootCheckScenario, RootCheckScenarioHeader, RootCheckScenarioStep,
  compute_execution_witnesses_root,
}
use shell_chain_specs.Fixtures.Hex.{Panic, Text, check, traverse, parse_hex, parse_root}
use shell_chain_specs.Fixtures.Vectors.{
  TransactionVector, WitnessVector, single_witness, materialized_state, declared_state_root,
}
use shell_chain_specs.Fixtures.Load.{
  resolve_pre_state, resolve_loaded, load_vectors, materialize_root_check_accumulator,
  resolve_witnesses_root, resolve_transactions_root, check_pre_state, check_agreement, resolve_step,
  resolve_steps, resolve_header, load_envelope, load_witness_vector, resolve_root_check_scenario,
}
use shell_chain_specs.Fixtures.RootCheck.{
  LoadedVectors, RootCheckVector, RootCheckExecutionStep, unwrap, agreed_root, find_vector,
  first_vector, sort_entries, canonical_root_check_materialized_state,
}

check-true : (condition : Bool) → check condition ≡ ok tt → condition ≡ true
check-true true e = refl
check-true false e = cc

-- Each step names its transaction.
abbrev pub Names : Sha256 → List TransactionEnvelope → List RootCheckScenarioStep → Type 0
Names h [] [] = Unit
Names h [] (step ∷ steps) = ⊥
Names h (transaction ∷ transactions) [] = ⊥
Names h (transaction ∷ transactions) (step ∷ steps) =
    (envelope_root h transaction ≡ ok step.transaction_root) × Names h transactions steps

-- The materialized state, which is not empty, is accepted, has the first root and holds the witnesses.
pub record Resolved (h : Sha256) (scenario : RootCheckScenario) : Type 0 where
  pub committed :
      compute_execution_witnesses_root h scenario.witnesses
      ≡ scenario.header.execution_witnesses_root
  pub inhabited : is_empty scenario.materialized_state ≡ false
  pub accumulator : InMemoryAccumulator
  pub materialized :
      materialize_root_check_accumulator h scenario.materialized_state ≡ ok accumulator
  pub root : accumulator.root ≡ scenario.pre_state_root
  pub verified :
      verify_witnesses (verify_witness accumulator) scenario.witnesses scenario.pre_state_root
      ≡ ok tt
  pub names : Names h scenario.transactions scenario.steps
  pub same_block : scenario.sidecar.block_root ≡ scenario.header.block_root

steps-Names :
    (h : Sha256) (vectors : List WitnessVector) (steps : List RootCheckExecutionStep)
    (ids : List Text) (transactions : List TransactionEnvelope)
    (resolved : List RootCheckScenarioStep)
    → resolve_steps h vectors steps ids transactions ≡ ok resolved
    → length resolved ≡ length transactions
    → Names h transactions resolved
unfolding resolve_steps resolve_step
steps-Names h vectors [] ids [] resolved e len = subst (Names h []) (ok-injective e) tt
steps-Names h vectors [] ids (t ∷ ts) resolved e len =
    absurd (omega (arith, ap length (ok-injective e)))
steps-Names h vectors (step ∷ steps) [] [] resolved e len = subst (Names h []) (ok-injective e) tt
steps-Names h vectors (step ∷ steps) [] (t ∷ ts) resolved e len =
    absurd (omega (arith, ap length (ok-injective e)))
steps-Names h vectors (step ∷ steps) (id ∷ ids) [] resolved e len =
    subst (Names h []) (ok-injective e) tt
steps-Names h vectors (step ∷ steps) (id ∷ ids) (t ∷ ts) resolved e len =
    let (first, r1, e1) = >>=-eq-ok (resolve_step h vectors step id t) _ e in
    let (rest, r2, e2) = >>=-eq-ok (resolve_steps h vectors steps ids ts) _ e1 in
    let made : first ∷ rest ≡ resolved = ok-injective e2 in
    let (_, _, q1) = >>=-eq-ok (check (bytes_eq step.transaction_vector_id id)) _ r1 in
    let (vector, _, q2) = >>=-eq-ok (find_vector step.witness_vector_id vectors) _ q1 in
    let (witness, _, q3) = >>=-eq-ok (single_witness vector) _ q2 in
    let (root, named, q4) = >>=-eq-ok (unwrap (envelope_root h t)) _ q3 in
    let (value, _, q5) = >>=-eq-ok (parse_hex step.new_leaf_value_hex) _ q4 in
    let (output, _, q6) = >>=-eq-ok (parse_hex step.receipt_output_hex) _ q5 in
    subst (Names h (t ∷ ts)) made (
      map_err-eq-ok _ (envelope_root h t) named
          ∙ ap (λ (s : RootCheckScenarioStep). ok s.transaction_root) (ok-injective q6),
      steps-Names h vectors steps ids ts rest r2 (omega (arith, ap length made)),
    )

witnesses_root-eq :
    (h : Sha256) (fixture : RootCheckVector) (witnesses : List StateWitness) (root : Root)
    → resolve_witnesses_root h fixture witnesses ≡ ok root
    → compute_execution_witnesses_root h witnesses ≡ root
unfolding resolve_witnesses_root
witnesses_root-eq h fixture witnesses root e =
    let (expected, _, e1) =
      >>=-eq-ok
        (agreed_root fixture.execution_witnesses_root fixture.input.header.execution_witnesses_root)
        _ e in
    let computed = compute_execution_witnesses_root h witnesses in
    let (_, equal, e2) = >>=-eq-ok (check (bytes_eq computed expected)) _ e1 in
    bytes_eq→eq computed expected (check-true _ equal) ∙ ok-injective e2

canonical-inhabited :
    (entries base : List (StateKey × Bytes))
    → canonical_root_check_materialized_state entries ≡ ok base
    → is_empty base ≡ false
unfolding canonical_root_check_materialized_state
canonical-inhabited entries base e =
    let sorted = sort_entries entries in
    let (_, some_left, e1) = >>=-eq-ok (check (not (is_empty sorted))) _ e in
    let made : sorted ≡ base = ok-injective e1 in
    elim (Bool-cases (is_empty sorted)) [
      | inl empty ↦ absurd (cc (sym (ap not empty) ∙ check-true _ some_left))
      | inr full ↦ sym (ap is_empty made) ∙ full
    ]

-- What `check_pre_state` checks.
pre_state-eq :
    (h : Sha256) (base : List (StateKey × Bytes)) (pre : Root) (witnesses : List StateWitness)
    → check_pre_state h base pre witnesses ≡ ok tt
    → (acc : InMemoryAccumulator) × (materialize_root_check_accumulator h base ≡ ok acc)
      × (acc.root ≡ pre)
      × (verify_witnesses (verify_witness acc) witnesses pre ≡ ok tt)
unfolding check_pre_state
pre_state-eq h base pre witnesses e =
    let (acc, made, e1) = >>=-eq-ok (materialize_root_check_accumulator h base) _ e in
    let (_, equal, e2) = >>=-eq-ok (check (bytes_eq acc.root pre)) _ e1 in
    (acc, made, bytes_eq→eq acc.root pre (check-true _ equal), map_err-eq-ok _ _ e2)

header-root :
    (h : Sha256) (fixture : RootCheckVector) (transactions_root witnesses_root : Root)
    (header : RootCheckScenarioHeader)
    → resolve_header h fixture transactions_root witnesses_root ≡ ok header
    → header.execution_witnesses_root ≡ witnesses_root
unfolding resolve_header
header-root h fixture transactions_root witnesses_root header e =
    let input = fixture.input.header in
    let (_, _, e1) = >>=-eq-ok (agreed_root fixture.state_root input.state_root) _ e in
    let (_, _, e2) = >>=-eq-ok (agreed_root fixture.receipts_root input.receipts_root) _ e1 in
    let (_, _, e3) =
      >>=-eq-ok (agreed_root input.block_root fixture.input.sidecar.block_root) _ e2 in
    let (_, _, e4) = >>=-eq-ok (parse_root input.parent_root) _ e3 in
    let (_, _, e5) = >>=-eq-ok (parse_hex input.proposer_signature_hex) _ e4 in
    ap (λ (x : RootCheckScenarioHeader). x.execution_witnesses_root) (sym (ok-injective e5))

-- The state before the block, as `Resolved` says of it.
pub record PreState (h : Sha256) (witnesses : List StateWitness) (base : List (StateKey × Bytes))
    (pre : Root) : Type 0 where
  pub inhabited : is_empty base ≡ false
  pub accumulator : InMemoryAccumulator
  pub materialized : materialize_root_check_accumulator h base ≡ ok accumulator
  pub root : accumulator.root ≡ pre
  pub verified : verify_witnesses (verify_witness accumulator) witnesses pre ≡ ok tt

resolve_pre_state-PreState :
    (h : Sha256) (vectors : List WitnessVector) (witnesses : List StateWitness)
    (base : List (StateKey × Bytes)) (pre : Root)
    → resolve_pre_state h vectors witnesses ≡ ok (base, pre)
    → PreState h witnesses base pre
unfolding resolve_pre_state
resolve_pre_state-PreState h vectors witnesses base pre e =
    let (first, _, e1) = >>=-eq-ok (first_vector vectors) _ e in
    let (entries, _, e2) = >>=-eq-ok (materialized_state first) _ e1 in
    let (sorted, canonical, e3) =
      >>=-eq-ok (canonical_root_check_materialized_state entries) _ e2 in
    let (declared, _, e4) = >>=-eq-ok (declared_state_root first) _ e3 in
    let (_, held, e5) = >>=-eq-ok (check_pre_state h sorted declared witnesses) _ e4 in
    let (_, _, e6) =
      >>=-eq-ok (traverse (check_agreement h sorted declared) (drop 1 vectors)) _ e5 in
    let (acc, made, root, verified) = pre_state-eq h sorted declared witnesses held in
    subst (λ (x : List (StateKey × Bytes) × Root). PreState h witnesses x.0 x.1) (ok-injective e6)
      (record {
        inhabited = canonical-inhabited entries sorted canonical;
        accumulator = acc;
        materialized = made;
        root = root;
        verified = verified;
      })

resolve_loaded-Resolved :
    (h : Sha256) (fixture : RootCheckVector) (loaded : LoadedVectors) (scenario : RootCheckScenario)
    → compute_execution_witnesses_root h loaded.witnesses ≡ loaded.execution_witnesses_root
    → resolve_loaded h fixture loaded ≡ ok scenario
    → Resolved h scenario
unfolding resolve_loaded
resolve_loaded-Resolved h fixture loaded scenario committed e =
    let ids = fixture.input.transaction_vector_ids in
    let ts = loaded.transactions in
    let (state, held, e1) = >>=-eq-ok (resolve_pre_state h loaded.vectors loaded.witnesses) _ e in
    let (steps, stepped, e2) =
      >>=-eq-ok (resolve_steps h loaded.vectors fixture.input.steps ids ts) _ e1 in
    let (_, counted, e3) = >>=-eq-ok (check (length steps == length ts)) _ e2 in
    let (header, headed, e4) =
      >>=-eq-ok (resolve_header h fixture loaded.transactions_root loaded.execution_witnesses_root)
        _ e3 in
    let pre = resolve_pre_state-PreState h loaded.vectors loaded.witnesses state.0 state.1 held in
    let aligned = (==_iff (length steps) (length ts)).0 (check-true _ counted) in
    subst (Resolved h) (ok-injective e4) (record {
      committed =
          committed
          ∙ sym (
              header-root h fixture loaded.transactions_root loaded.execution_witnesses_root header
                headed);
      inhabited = pre.inhabited;
      accumulator = pre.accumulator;
      materialized = pre.materialized;
      root = pre.root;
      verified = pre.verified;
      names = steps-Names h loaded.vectors fixture.input.steps ids ts steps stepped aligned;
      same_block = refl;
    })

module _ (h : Sha256) (load_transaction : Text → Result TransactionVector Panic)
    (load_witness : Text → Result WitnessVector Panic) where
  loaded-committed :
      (fixture : RootCheckVector) (loaded : LoadedVectors)
      → load_vectors h load_transaction load_witness fixture ≡ ok loaded
      → compute_execution_witnesses_root h loaded.witnesses ≡ loaded.execution_witnesses_root
  unfolding load_vectors
  loaded-committed fixture loaded e =
      let ids = fixture.input.transaction_vector_ids in
      let names = fixture.input.sidecar.witness_vector_ids in
      let (ts, _, e1) =
        >>=-eq-ok (traverse (load_envelope h load_transaction load_witness) ids) _ e in
      let (_, _, e2) = >>=-eq-ok (resolve_transactions_root h fixture ts) _ e1 in
      let (vectors, _, e3) =
        >>=-eq-ok (traverse (load_witness_vector h load_transaction load_witness) names) _ e2 in
      let (ws, _, e4) = >>=-eq-ok (traverse single_witness vectors) _ e3 in
      let (root, rooted, e5) = >>=-eq-ok (resolve_witnesses_root h fixture ws) _ e4 in
      subst
        (λ (l : LoadedVectors).
          compute_execution_witnesses_root h l.witnesses ≡ l.execution_witnesses_root)
        (ok-injective e5) (witnesses_root-eq h fixture ws root rooted)

  pub resolve-Resolved :
      (fixture : RootCheckVector) (scenario : RootCheckScenario)
      → resolve_root_check_scenario h load_transaction load_witness fixture ≡ ok scenario
      → Resolved h scenario
  unfolding resolve_root_check_scenario
  resolve-Resolved fixture scenario e =
      let (loaded, found, e1) =
        >>=-eq-ok (load_vectors h load_transaction load_witness fixture) _ e in
      resolve_loaded-Resolved h fixture loaded scenario (loaded-committed fixture loaded found) e1

-- ===== src/Runtime/Accepted.antt =====
-- What a block satisfies that the consensus adapter accepts.
use shell_chain_specs.Common.{
  ◌≡◌, ◌≢◌, refl, ok-injective, ByteMap, sym, ap, ◌∙◌, Option, none, some, All, All-map, map, Bytes,
  Bool, Bool-cases, inl, inr, if◌then◌else◌, Option-cases, Result, ok, err,
}
use shell_chain_specs.Primitives.Errors.{
  ValidationOutcome, accept, reject, policy_reject, PrimitiveError, malformed_ssz,
  unsupported_payload_variant, payload_root_mismatch, signing_root_construction,
  authorization_count, unimplemented, ProposerCredentialResolutionError, is_consensus_invalid,
  network_validation_outcome,
}
use shell_chain_specs.Primitives.Errors
use shell_chain_specs.Primitives.StateKey.{StateKey, StateWitness, StateKeyIsValid}
use shell_chain_specs.Primitives.Hash.{Sha256}
use shell_chain_specs.Crypto.{
  CryptoError, unsupported_scheme, verification_failed, VerificationPath, SignatureLimitKind,
  transaction_authorization, validator_message, repository_rule, local_transport_guard, scheme,
  crypto_network_outcome, size_outcome,
}
use shell_chain_specs.Crypto
use shell_chain_specs.State.Accumulator.Invariant.{WellFormed}
use shell_chain_specs.State.Applier
use shell_chain_specs.State.Applier.Accepts.{Ready}
use shell_chain_specs.Mempool.{
  ValidationError, fee_floor, nonce_policy, signing_root_unavailable, authorization_material_count,
  mempool_network_outcome,
}
use shell_chain_specs.Mempool
use shell_chain_specs.Execution.{new, compute_receipts_root}
use shell_chain_specs.Execution.Reference.{execute_block-WellFormed}
use shell_chain_specs.Execution.Planned.{execute_transaction-Plans}
use shell_chain_specs.Execution.Plans.{
  Plans, planned_receipts, PlansValid, execute_transaction-HandsOutValid,
}
use shell_chain_specs.Execution
use shell_chain_specs.Consensus.{
  BlockImportOutcome, ConsensusError, ConsensusHeader, ConsensusBody, ConsensusSidecar, domain,
  crypto, transaction_validation, execution, state, proposer_credential_resolution,
  witness_byte_limit_exceeded, header_body_root_mismatch, sidecar_block_root_mismatch,
  sidecar_commitment_mismatch, consensus_network_outcome,
}
use shell_chain_specs.Consensus
use shell_chain_specs.Consensus.Import.{Imported, import_block-Imported}
use shell_chain_specs.Network.{NetworkOrigin}
use shell_chain_specs.Runtime.{LocalReferenceRuntime, LocalReferenceScenario, AdmissionEntry}
use shell_chain_specs.Runtime.Run.{reference_services, validate_block_against_reference}
use shell_chain_specs.Runtime.Adapters.{
  LocalReferenceNetworkConsensusAdapter, report, validate_gossip_block,
}
use shell_chain_specs.Runtime.Services.{
  Revalidated, revalidate-Revalidated, Prepared, prepare_witness-Prepared, Executed,
  execute_reference_block-Executed, materialize_accumulator-WellFormed,
}

-- No error is reported as an acceptance.
primitive-ne-accept : (error : PrimitiveError) → network_validation_outcome error ≢ some accept
unfolding network_validation_outcome
primitive-ne-accept (malformed_ssz c) e = cc
primitive-ne-accept (unsupported_payload_variant t) e = cc
primitive-ne-accept (payload_root_mismatch a b) e = cc
primitive-ne-accept (authorization_count a b) e = cc
primitive-ne-accept (Errors.signature_size_exceeded a b) e = cc
primitive-ne-accept (signing_root_construction c) e = cc
primitive-ne-accept (unimplemented c) e = cc

pub mempool-ne-accept : (error : ValidationError) → mempool_network_outcome error ≢ some accept
unfolding mempool_network_outcome
mempool-ne-accept (Mempool.primitive error) e = primitive-ne-accept error e
mempool-ne-accept (Mempool.unsupported_scheme s) e = cc
mempool-ne-accept (Mempool.signature_size_exceeded x) e = cc
mempool-ne-accept (Mempool.signature_verification f) e = cc
mempool-ne-accept (fee_floor l a b) e = cc
mempool-ne-accept (nonce_policy c) e = cc
mempool-ne-accept (signing_root_unavailable c) e = cc
mempool-ne-accept (authorization_material_count a b) e = cc

size-ne-accept :
    (path : VerificationPath) (kind : SignatureLimitKind) → size_outcome path kind ≢ some accept
unfolding size_outcome
size-ne-accept validator_message local_transport_guard e = cc
size-ne-accept validator_message repository_rule e = cc
size-ne-accept validator_message scheme e = cc
size-ne-accept transaction_authorization kind e = cc

crypto-ne-accept : (error : CryptoError) → crypto_network_outcome error ≢ some accept
unfolding crypto_network_outcome
crypto-ne-accept (Crypto.signature_size_exceeded error) e = size-ne-accept error.path error.kind e
crypto-ne-accept (unsupported_scheme scheme_id) e = cc
crypto-ne-accept (verification_failed failure) e = cc

consensus-ne-accept : (error : ConsensusError) → consensus_network_outcome error ≢ some accept
unfolding consensus_network_outcome
consensus-ne-accept (Consensus.primitive error) e = primitive-ne-accept error e
consensus-ne-accept (domain x) e = cc
consensus-ne-accept (proposer_credential_resolution x) e =
    elim (Bool-cases (is_consensus_invalid x)) [
      | inl t ↦ cc (sym (ap (λ (b : Bool). if b then some reject else none) t) ∙ e)
      | inr f ↦ cc (sym (ap (λ (b : Bool). if b then some reject else none) f) ∙ e)
    ]
consensus-ne-accept (crypto error) e = crypto-ne-accept error e
consensus-ne-accept (transaction_validation error) e = mempool-ne-accept error e
consensus-ne-accept (execution x) e = cc
consensus-ne-accept (state x) e = cc
consensus-ne-accept (header_body_root_mismatch a b) e = cc
consensus-ne-accept (sidecar_block_root_mismatch a b) e = cc
consensus-ne-accept (sidecar_commitment_mismatch a b) e = cc
consensus-ne-accept (witness_byte_limit_exceeded a b) e = cc

report-accept {ℓ κ} :
    {A : Type ℓ} {E : Type κ} (outcome : E → Option ValidationOutcome) (r : Result A E)
    → ((error : E) → outcome error ≢ some accept)
    → report outcome r ≡ ok accept
    → (value : A) × (r ≡ ok value)
report-accept {A = A} outcome (ok value) never e = (value, refl)
report-accept {A = A} outcome (err error) never e = elim (Option-cases (outcome error)) [
  | inl unknown ↦
      let fails : report {A = A} outcome (err error) ≡ err error = rw (unknown, report) refl in
      absurd (cc (sym fails ∙ e))
  | inr (o, known) ↦
      let gives : report {A = A} outcome (err error) ≡ ok o = rw (known, report) refl in
      let same : o ≡ accept = ok-injective (sym gives ∙ e) in
      absurd (never error (known ∙ ap some same))
]

-- The keys of a scenario are in the range of Rust's types.
pub record ScenarioIsValid (scenario : LocalReferenceScenario) : Type 0 where
  pub materialized :
      All StateKeyIsValid (map (λ (e : StateKey × Bytes). e.0) scenario.materialized_state)
  pub witnesses : All (λ (w : StateWitness). StateKeyIsValid w.key) scenario.block.sidecar.witnesses
  pub plans : PlansValid (new scenario.planned_transactions)

-- The block passes the import; the admission entry with the payload root of each of its transactions is
-- admitted; the scenario's witnesses have the header's root, and the materialized state, whose root is
-- the first one, holds them; the plans are those of the transactions; and the state after them has the
-- header's state root, and their receipts have the header's receipts root.
pub record Accepted (h : Sha256) (runtime : LocalReferenceRuntime)
    (scenario : LocalReferenceScenario) (entries : ByteMap AdmissionEntry)
    (header : ConsensusHeader) (body : ConsensusBody) (sidecar : ConsensusSidecar)
    (result : BlockImportOutcome) : Type 0 where
  pub imported :
      Imported h runtime.max_witness_bytes header body sidecar
        (reference_services h runtime scenario entries)
        result
  pub revalidated : All (Revalidated h runtime entries) body.transactions
  pub prepared :
      Prepared h scenario.pre_state_root scenario.materialized_state
        scenario.block.sidecar.witnesses header
  pub plans : Plans h body.transactions scenario.planned_transactions
  pub executed :
      Executed h scenario.pre_state_root scenario.materialized_state scenario.planned_transactions
        body imported.outcome
  pub final_state : Ready executed.after.1 header.state_root
  pub final_well_formed : WellFormed h executed.after.1.accumulator
  pub receipts :
      header.receipts_root
      ≡ compute_receipts_root h (planned_receipts scenario.planned_transactions)

validate_block-Accepted :
    (h : Sha256) (runtime : LocalReferenceRuntime) (scenario : LocalReferenceScenario)
    (entries : ByteMap AdmissionEntry) (header : ConsensusHeader) (body : ConsensusBody)
    (sidecar : ConsensusSidecar) (result : BlockImportOutcome)
    → ScenarioIsValid scenario
    → validate_block_against_reference h runtime scenario header body sidecar entries ≡ ok result
    → Accepted h runtime scenario entries header body sidecar result
unfolding validate_block_against_reference
validate_block-Accepted h runtime scenario entries header body sidecar result valid e =
    let services = reference_services h runtime scenario entries in
    let imported =
      import_block-Imported h runtime.max_witness_bytes header body sidecar services result e in
    let executed =
      execute_reference_block-Executed h scenario.pre_state_root scenario.materialized_state
        scenario.planned_transactions header body sidecar imported.outcome imported.executed in
    let (plans, receipts) =
      execute_transaction-Plans h scenario.planned_transactions (Applier.new executed.accumulator)
        scenario.pre_state_root body.transactions imported.outcome executed.after executed.executed
        executed.exhausted in
    let wf =
      materialize_accumulator-WellFormed h scenario.materialized_state executed.accumulator
        valid.materialized executed.materialized in
    let (ready, last) =
      execute_block-WellFormed h PlansValid (Execution.execute_transaction h)
        scenario.pre_state_root body.transactions
        (new scenario.planned_transactions, Applier.new executed.accumulator) imported.outcome
        executed.after (execute_transaction-HandsOutValid h) valid.plans (executed.root, refl) wf
        executed.executed in
    record {
      imported = imported;
      revalidated =
          All-map _ (Revalidated h runtime entries) body.transactions
            (revalidate-Revalidated h runtime entries) imported.revalidated;
      prepared =
          prepare_witness-Prepared h scenario.pre_state_root scenario.materialized_state
            scenario.block.sidecar.witnesses header sidecar valid.materialized valid.witnesses
            imported.prepared;
      plans = plans;
      executed = executed;
      final_state = (ready.0 ∙ imported.outcome_state ∙ imported.state_root, ready.1);
      final_well_formed = last;
      receipts = sym imported.receipts_root ∙ sym imported.outcome_receipts ∙ receipts;
    }

-- A block that the consensus adapter accepts, for a scenario with keys in the range of Rust's types,
-- passes the import; the admission entry with the payload root of each of its transactions is admitted;
-- the scenario's witnesses have the header's root, and the materialized state, whose root is the
-- scenario's first one, holds what they state; there is one plan for each transaction, in their order,
-- with its root and an applicable patch; and the state that the plans leave is well formed and has the
-- header's state root, and the plans' receipts have its receipts root.
pub validate_gossip_block-Accepted :
    (h : Sha256) (runtime : LocalReferenceRuntime) (adapter : LocalReferenceNetworkConsensusAdapter)
    (origin : NetworkOrigin) (header : ConsensusHeader) (body : ConsensusBody)
    (sidecar : ConsensusSidecar)
    → ScenarioIsValid adapter.scenario
    → validate_gossip_block h runtime adapter origin header body sidecar ≡ ok accept
    → (result : BlockImportOutcome) × Accepted h runtime adapter.scenario
        adapter.admission_transactions header body sidecar result
unfolding validate_gossip_block
validate_gossip_block-Accepted h runtime adapter origin header body sidecar valid e =
    let (result, done) =
      report-accept consensus_network_outcome
        (validate_block_against_reference h runtime adapter.scenario header body sidecar
          adapter.admission_transactions)
        consensus-ne-accept e in
    (
      result,
      validate_block-Accepted h runtime adapter.scenario adapter.admission_transactions header body
          sidecar result valid done,
    )

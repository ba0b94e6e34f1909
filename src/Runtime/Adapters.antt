-- ===== src/Runtime/Adapters.antt =====
-- crates/shell-cli/src/adapters.rs: the network's adapters over the runtime. An adapter's lifetime to
-- its runtime is no part of it here: the runtime is an argument.
use shell_chain_specs.Common.{
  Option, none, some, List, [], ◌∷◌, length, Result, ok, err, ◌>>=◌, map_err, ok_or, ByteMap,
  map_insert, map_get,
}
use shell_chain_specs.Primitives.Types.{TransactionEnvelope}
use shell_chain_specs.Primitives.Errors.{ValidationOutcome, accept}
use shell_chain_specs.Primitives.Hash.{Sha256}
use shell_chain_specs.Primitives.Ssz.{payload_root}
use shell_chain_specs.Mempool.{
  ValidationError, authorization_material_count, mempool_network_outcome,
}
use shell_chain_specs.Mempool
use shell_chain_specs.Consensus.{
  ConsensusError, ConsensusHeader, ConsensusBody, ConsensusSidecar, consensus_network_outcome,
}
use shell_chain_specs.Network.{NetworkOrigin}
use shell_chain_specs.Runtime.{
  LocalReferenceError, primitive, duplicate_admission_payload_root, OwnedAuthorizationMaterial,
  LocalReferenceScenario, LocalReferenceRuntime, AdmissionEntry, validate_scenario_shape,
  build_admission_transactions_by_payload_root,
}
use shell_chain_specs.Runtime.Run.{validate_transaction, validate_block_against_reference}

pub record LocalReferenceNetworkMempoolAdapter : Type 0 where
  pub authorization_materials : ByteMap (List OwnedAuthorizationMaterial)

pub record LocalReferenceNetworkConsensusAdapter : Type 0 where
  pub scenario : LocalReferenceScenario
  pub admission_transactions : ByteMap AdmissionEntry

-- The end of both adapters' methods: an error that has an outcome for the network is that outcome.
abbrev pub report {ℓ κ} :
    {A : Type ℓ} {E : Type κ}
    → (E → Option ValidationOutcome)
    → Result A E
    → Result ValidationOutcome E
report network_outcome (ok value) = ok accept
report network_outcome (err error) = elim (network_outcome error) [
  | some outcome ↦ ok outcome
  | none ↦ err error
]

module _ (h : Sha256) where
  unfoldable pub materials_loop :
      List TransactionEnvelope
      → List (List OwnedAuthorizationMaterial)
      → ByteMap (List OwnedAuthorizationMaterial)
      → Result (ByteMap (List OwnedAuthorizationMaterial)) LocalReferenceError
  materials_loop [] materials by_root = ok by_root
  materials_loop (transaction ∷ transactions) [] by_root = ok by_root
  materials_loop (transaction ∷ transactions) (material ∷ materials) by_root = do
    root ← map_err primitive (payload_root h transaction.payload)
    elim (map_get root by_root) [
      | none ↦ materials_loop transactions materials (map_insert root material by_root)
      | some previous ↦ err (duplicate_admission_payload_root root)
    ]

  unfoldable pub mempool_adapter :
      LocalReferenceScenario → Result LocalReferenceNetworkMempoolAdapter LocalReferenceError
  unfolding validate_scenario_shape materials_loop
  mempool_adapter scenario = do
    _ ← validate_scenario_shape scenario
    materials ←
        materials_loop scenario.admission_transactions scenario.transaction_authorization_materials
          []
    ok (record { authorization_materials = materials })

  unfoldable pub consensus_adapter :
      LocalReferenceScenario → Result LocalReferenceNetworkConsensusAdapter LocalReferenceError
  unfolding validate_scenario_shape build_admission_transactions_by_payload_root
  consensus_adapter scenario = do
    _ ← validate_scenario_shape scenario
    admission_transactions ←
        build_admission_transactions_by_payload_root h scenario.admission_transactions
          scenario.transaction_authorization_materials
    ok (record { scenario = scenario; admission_transactions = admission_transactions })

  unfoldable pub validate_gossip_transaction :
      LocalReferenceRuntime
      → LocalReferenceNetworkMempoolAdapter
      → NetworkOrigin
      → TransactionEnvelope
      → Result ValidationOutcome ValidationError
  unfolding validate_transaction mempool_network_outcome
  validate_gossip_transaction runtime adapter origin envelope = do
    root ← map_err Mempool.primitive (payload_root h envelope.payload)
    materials ←
        ok_or (map_get root adapter.authorization_materials)
          (authorization_material_count (length envelope.authorizations) 0)
    report mempool_network_outcome (validate_transaction h runtime envelope materials)

  unfoldable pub validate_gossip_block :
      LocalReferenceRuntime
      → LocalReferenceNetworkConsensusAdapter
      → NetworkOrigin
      → ConsensusHeader
      → ConsensusBody
      → ConsensusSidecar
      → Result ValidationOutcome ConsensusError
  unfolding validate_block_against_reference consensus_network_outcome
  validate_gossip_block runtime adapter origin header body sidecar =
      report consensus_network_outcome (
        validate_block_against_reference h runtime adapter.scenario header body sidecar
          adapter.admission_transactions)

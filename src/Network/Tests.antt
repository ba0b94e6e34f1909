-- ===== src/Network/Tests.antt =====
-- Concrete inputs for the theorems on peer actions.
use shell_chain_specs.Common.{◌≡◌, [], ◌∷◌}
use shell_chain_specs.Primitives.Errors.{b3}
use shell_chain_specs.Primitives.Types.{zero_root}
use shell_chain_specs.Mempool.{fee_floor, payload, mempool_network_outcome}
use shell_chain_specs.Consensus.{witness_byte_limit_exceeded}
use shell_chain_specs.Network.{
  NetworkOrigin, gossip, penalizes_peer, peer_action_for_mempool_error,
  peer_action_for_consensus_error,
}
use shell_chain_specs.Network.Severity.{
  severity, called_for, acted_outcome, peer_action_for_mempool_error-severity,
  peer_action_for_consensus_error-severity,
}

abbrev some_peer : NetworkOrigin
some_peer = gossip (3 ∷ [])

peer_action_for_mempool_error-severity_example :
    severity (peer_action_for_mempool_error some_peer b3 (fee_floor payload zero_root zero_root))
    ≡ called_for 10
        (penalizes_peer some_peer)
        (mempool_network_outcome (fee_floor payload zero_root zero_root))
peer_action_for_mempool_error-severity_example =
    peer_action_for_mempool_error-severity some_peer b3 (fee_floor payload zero_root zero_root)

peer_action_for_consensus_error-severity_example :
    severity (peer_action_for_consensus_error some_peer (witness_byte_limit_exceeded 512 4096))
    ≡ called_for 5 (penalizes_peer some_peer) (acted_outcome (witness_byte_limit_exceeded 512 4096))
peer_action_for_consensus_error-severity_example =
    peer_action_for_consensus_error-severity some_peer (witness_byte_limit_exceeded 512 4096)

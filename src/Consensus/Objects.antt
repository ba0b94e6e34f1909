-- ===== src/Consensus/Objects.antt =====
-- crates/shell-consensus/src/objects.rs: the canonical objects, and what their trait methods return.
use shell_chain_specs.Common.{ℕ, Option, List, Bytes, ok}
use shell_chain_specs.Primitives.Types.{Root, TransactionEnvelope}
use shell_chain_specs.Primitives.StateKey.{StateWitness}
use shell_chain_specs.Consensus.{ConsensusHeader, ConsensusBody, ConsensusSidecar}

pub record CanonicalBlockHeader : Type 0 where
  pub block_root : Root
  pub block_number : ℕ
  pub timestamp : ℕ
  pub parent_root : Root
  pub witness_bytes : ℕ
  pub transactions_root : Root
  pub execution_witnesses_root : Root
  pub state_root : Root
  pub receipts_root : Root
  pub proposer_signature : Bytes
  pub proposer_index_hint : Option ℕ

pub record CanonicalBlockBody : Type 0 where
  pub transactions : List TransactionEnvelope
  pub transactions_root : Root

pub record CanonicalBlockSidecar : Type 0 where
  pub block_root : Root
  pub execution_witnesses_root : Root
  pub witnesses : List StateWitness

pub record CanonicalBlock : Type 0 where
  pub header : CanonicalBlockHeader
  pub body : CanonicalBlockBody
  pub sidecar : CanonicalBlockSidecar

-- The three `impl`s: the stored roots, as they are.
abbrev pub consensus_header : CanonicalBlockHeader → ConsensusHeader
consensus_header header = record {
  canonical_root = ok header.block_root;
  witness_bytes = header.witness_bytes;
  transactions_root = header.transactions_root;
  execution_witnesses_root = header.execution_witnesses_root;
  state_root = header.state_root;
  receipts_root = header.receipts_root;
  proposer_signature = header.proposer_signature;
  proposer_index_hint = header.proposer_index_hint;
}

abbrev pub consensus_body : CanonicalBlockBody → ConsensusBody
consensus_body body = record {
  transactions_root = ok body.transactions_root;
  transactions = body.transactions;
}

abbrev pub consensus_sidecar : CanonicalBlockSidecar → ConsensusSidecar
consensus_sidecar sidecar = record {
  block_root = sidecar.block_root;
  committed_root = sidecar.execution_witnesses_root;
}

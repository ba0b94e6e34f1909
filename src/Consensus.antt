-- ===== src/Consensus.antt =====
-- crates/shell-consensus/src: header checks, sidecar binding and block import. A header, a body or a sidecar, a trait object in
-- the code, is a record of what its methods return; a service is a function, what its call returns.
pub mod Objects
pub mod Import
pub mod Complete
pub mod Tests
use shell_chain_specs.Common.{
  ℕ, String, Option, none, some, List, [], ◌∷◌, Bytes, bytes_eq, ltb, if◌then◌else◌, Result, ok,
  err, ◌>>=◌, ◌>>◌, map_err,
}
use shell_chain_specs.Primitives.Types.{Root, TransactionEnvelope}
use shell_chain_specs.Primitives.Errors.{
  PrimitiveError, DomainError, ProposerCredentialResolutionError, ValidationOutcome, reject,
  policy_reject, is_consensus_invalid, network_validation_outcome,
}
use shell_chain_specs.Primitives.Domains.{build_signing_data, validator_message}
use shell_chain_specs.Primitives.Hash.{Sha256}
use shell_chain_specs.Primitives.Ssz.{signing_root}
use shell_chain_specs.Crypto.{SignatureVerificationRequest, CryptoError, crypto_network_outcome}
use shell_chain_specs.State.Witness.{StateError}
use shell_chain_specs.Mempool.{ValidationError, mempool_network_outcome}
use shell_chain_specs.Execution.{ExecutionError, BlockExecutionOutcome, ensure_matches}

-- outcomes.rs.
pub data ConsensusError : Type 0 where
  primitive : PrimitiveError → ConsensusError
  domain : DomainError → ConsensusError
  crypto : CryptoError → ConsensusError
  transaction_validation : ValidationError → ConsensusError
  execution : ExecutionError → ConsensusError
  state : StateError → ConsensusError
  proposer_credential_resolution : ProposerCredentialResolutionError → ConsensusError
  witness_byte_limit_exceeded : (max_bytes actual_bytes : ℕ) → ConsensusError
  header_body_root_mismatch : (expected actual : Root) → ConsensusError
  sidecar_block_root_mismatch : (expected actual : Root) → ConsensusError
  sidecar_commitment_mismatch : (expected actual : Root) → ConsensusError

unfoldable pub consensus_network_outcome : ConsensusError → Option ValidationOutcome
consensus_network_outcome (primitive error) = network_validation_outcome error
consensus_network_outcome (domain error) = none
consensus_network_outcome (crypto error) = crypto_network_outcome error
consensus_network_outcome (transaction_validation error) = mempool_network_outcome error
consensus_network_outcome (execution error) = some reject
consensus_network_outcome (state error) = some reject
consensus_network_outcome (header_body_root_mismatch expected actual) = some reject
consensus_network_outcome (sidecar_block_root_mismatch expected actual) = some reject
consensus_network_outcome (sidecar_commitment_mismatch expected actual) = some reject
consensus_network_outcome (proposer_credential_resolution error) =
    if is_consensus_invalid error then some reject else none
consensus_network_outcome (witness_byte_limit_exceeded max_bytes actual_bytes) = some policy_reject

pub record BlockImportOutcome : Type 0 where
  pub block_root : Root
  pub post_state_root : Root
  pub receipts_root : Root

pub record ConsensusHeader : Type 0 where
  pub canonical_root : Result Root PrimitiveError
  pub witness_bytes : ℕ
  pub transactions_root : Root
  pub execution_witnesses_root : Root
  pub state_root : Root
  pub receipts_root : Root
  pub proposer_signature : Bytes
  pub proposer_index_hint : Option ℕ

pub record ConsensusBody : Type 0 where
  pub transactions_root : Result Root PrimitiveError
  pub transactions : List TransactionEnvelope

pub record ConsensusSidecar : Type 0 where
  pub block_root : Root
  pub committed_root : Root

pub record ProposerCredential : Type 0 where
  pub scheme_id : ℕ
  pub public_key_material : Bytes

pub record BlockImportServices : Type 0 where
  pub resolver : Root → Option ℕ → Result ProposerCredential ProposerCredentialResolutionError
  pub dispatcher : ℕ → SignatureVerificationRequest → Result (Unit {0}) CryptoError
  pub revalidator : TransactionEnvelope → Result (Unit {0}) ValidationError
  pub preparer : ConsensusHeader → ConsensusSidecar → Result (Unit {0}) StateError
  pub execution_engine :
      ConsensusHeader
      → ConsensusBody
      → ConsensusSidecar
      → Result BlockExecutionOutcome ExecutionError

-- header_checks.rs.
unfoldable pub check_witness_bytes : Option ℕ → ℕ → Result (Unit {0}) ConsensusError
check_witness_bytes none actual_bytes = ok tt
check_witness_bytes (some max_bytes) actual_bytes =
    if ltb max_bytes actual_bytes
    then err (witness_byte_limit_exceeded max_bytes actual_bytes)
    else ok tt

unfoldable pub prefilter_header : ConsensusHeader → Option ℕ → Result Root ConsensusError
unfolding check_witness_bytes
prefilter_header header max_witness_bytes = do
  block_root ← map_err primitive header.canonical_root
  _ ← check_witness_bytes max_witness_bytes header.witness_bytes
  ok block_root

unfoldable pub verify_header_signature :
    Sha256
    → ConsensusHeader
    → Root
    → (Root → Option ℕ → Result ProposerCredential ProposerCredentialResolutionError)
    → (ℕ → SignatureVerificationRequest → Result (Unit {0}) CryptoError)
    → Result (Unit {0}) ConsensusError
verify_header_signature h header block_root resolver dispatcher = do
  credential ←
      map_err proposer_credential_resolution (resolver block_root header.proposer_index_hint)
  signing_data ← map_err domain (build_signing_data block_root validator_message)
  root ← map_err primitive (signing_root h signing_data)
  map_err crypto (
      dispatcher credential.scheme_id (record {
        public_key_material = credential.public_key_material;
        signing_root = root;
        signature = header.proposer_signature;
      }))

-- import.rs, sidecars.rs and execution_bridge.rs.
unfoldable pub verify_body_binding :
    ConsensusHeader → ConsensusBody → Result (Unit {0}) ConsensusError
verify_body_binding header body = do
  actual ← map_err primitive body.transactions_root
  if bytes_eq actual header.transactions_root
      then ok tt
      else err (header_body_root_mismatch header.transactions_root actual)

unfoldable pub revalidate_body_transactions :
    List TransactionEnvelope
    → (TransactionEnvelope → Result (Unit {0}) ValidationError)
    → Result (Unit {0}) ConsensusError
revalidate_body_transactions [] revalidator = ok tt
revalidate_body_transactions (transaction ∷ transactions) revalidator =
    map_err transaction_validation (revalidator transaction)
    >> revalidate_body_transactions transactions revalidator

unfoldable pub verify_sidecar_binding :
    ConsensusHeader
    → Root
    → ConsensusSidecar
    → (ConsensusHeader → ConsensusSidecar → Result (Unit {0}) StateError)
    → Result (Unit {0}) ConsensusError
verify_sidecar_binding header block_root sidecar preparer =
    (if bytes_eq sidecar.block_root block_root
      then ok tt
      else err (sidecar_block_root_mismatch block_root sidecar.block_root))
    >> ((if bytes_eq sidecar.committed_root header.execution_witnesses_root
          then ok tt
          else err
              (sidecar_commitment_mismatch header.execution_witnesses_root sidecar.committed_root))
        >> map_err state (preparer header sidecar))

unfoldable pub execute_and_compare :
    ConsensusHeader
    → ConsensusBody
    → ConsensusSidecar
    → BlockImportServices
    → Result BlockExecutionOutcome ConsensusError
unfolding ensure_matches
execute_and_compare header body sidecar services = do
  outcome ← map_err execution (services.execution_engine header body sidecar)
  _ ← map_err execution (
      ensure_matches outcome
        (record { state_root = header.state_root; receipts_root = header.receipts_root }))
  ok outcome

unfoldable pub import_block :
    Sha256
    → Option ℕ
    → ConsensusHeader
    → ConsensusBody
    → ConsensusSidecar
    → BlockImportServices
    → Result BlockImportOutcome ConsensusError
unfolding prefilter_header verify_header_signature verify_body_binding revalidate_body_transactions
    verify_sidecar_binding execute_and_compare
import_block h max_witness_bytes header body sidecar services = do
  block_root ← prefilter_header header max_witness_bytes
  _ ← verify_body_binding header body
  _ ← verify_header_signature h header block_root services.resolver services.dispatcher
  _ ← revalidate_body_transactions body.transactions services.revalidator
  _ ← verify_sidecar_binding header block_root sidecar services.preparer
  outcome ← execute_and_compare header body sidecar services
  ok (record {
    block_root = block_root;
    post_state_root = outcome.post_state_root;
    receipts_root = outcome.receipts_root;
  })

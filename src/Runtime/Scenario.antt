-- ===== src/Runtime/Scenario.antt =====
-- crates/shell-cli/src/fixtures.rs: the local reference scenario of a root check scenario. The loader
-- has loaded the payloads, whose root then does not fail: where the code would panic, the transaction
-- stays as it is.
use shell_chain_specs.Common.{
  some, List, [], ◌∷◌, map, length, is_empty, replicate, if◌then◌else◌, ok, err,
}
use shell_chain_specs.Primitives.Types.{TransactionEnvelope}
use shell_chain_specs.Primitives.Hash.{Sha256}
use shell_chain_specs.Primitives.Ssz.{payload_root}
use shell_chain_specs.Execution.{PlannedTransaction}
use shell_chain_specs.Consensus.Objects.{CanonicalBlock}
use shell_chain_specs.Fixtures.{RootCheckScenario, RootCheckScenarioStep}
use shell_chain_specs.Runtime.{OwnedAuthorizationMaterial, LocalReferenceScenario}

abbrev pub reference_default : OwnedAuthorizationMaterial
reference_default = record { public_key_material = replicate 32 0 }

unfoldable pub synthesize_reference_admission_transaction :
    Sha256 → TransactionEnvelope → TransactionEnvelope
synthesize_reference_admission_transaction h transaction =
    let reference : TransactionEnvelope = elim (payload_root h transaction.payload) [
      | ok root ↦ record {
        payload = transaction.payload;
        authorizations =
            record { scheme_id = 0; payload_root = root; signature = replicate 64 165 } ∷ [];
      }
      | err error ↦ transaction
    ] in
    if is_empty transaction.authorizations then reference else transaction

unfoldable pub planned_step : RootCheckScenarioStep → PlannedTransaction
planned_step step = record {
  transaction_root = step.transaction_root;
  plan = record {
    state_patch = record { accesses = step.key ∷ []; new_values = step.new_leaf_value ∷ [] };
    receipt = record { status_code = step.receipt_status_code; output = step.receipt_output };
  };
}

unfoldable pub scenario_block : RootCheckScenario → CanonicalBlock
scenario_block scenario = record {
  header = record {
    block_root = scenario.header.block_root;
    block_number = scenario.header.block_number;
    timestamp = scenario.header.timestamp;
    parent_root = scenario.header.parent_root;
    witness_bytes = scenario.header.witness_bytes;
    transactions_root = scenario.header.transactions_root;
    execution_witnesses_root = scenario.header.execution_witnesses_root;
    state_root = scenario.header.state_root;
    receipts_root = scenario.header.receipts_root;
    proposer_signature = scenario.header.proposer_signature;
    proposer_index_hint = some scenario.header.proposer_index;
  };
  body = record {
    transactions = scenario.transactions;
    transactions_root = scenario.header.transactions_root;
  };
  sidecar = record {
    block_root = scenario.sidecar.block_root;
    execution_witnesses_root = scenario.header.execution_witnesses_root;
    witnesses = scenario.witnesses;
  };
}

unfoldable pub reference_materials : TransactionEnvelope → List OwnedAuthorizationMaterial
reference_materials transaction =
    if is_empty transaction.authorizations
    then reference_default ∷ []
    else replicate (length transaction.authorizations) reference_default

unfoldable pub from_root_check_scenario : Sha256 → RootCheckScenario → LocalReferenceScenario
unfolding synthesize_reference_admission_transaction planned_step scenario_block reference_materials
from_root_check_scenario h scenario = record {
  block = scenario_block scenario;
  admission_transactions = map (synthesize_reference_admission_transaction h) scenario.transactions;
  pre_state_root = scenario.pre_state_root;
  materialized_state = scenario.materialized_state;
  planned_transactions = map planned_step scenario.steps;
  transaction_authorization_materials = map reference_materials scenario.transactions;
}

-- ===== src/Consensus/Tests.antt =====
-- A block that is imported.
use shell_chain_specs.Common.{◌≡◌, refl, none, some, [], ◌∷◌, bytes_eq, ok}
use shell_chain_specs.Primitives.Domains.{build_signing_data, domain_type}
use shell_chain_specs.Primitives.Ssz.{signing_root}
use shell_chain_specs.Primitives.Tests.{some_envelope, prefix_hash}
use shell_chain_specs.Execution.{ensure_matches}
use shell_chain_specs.Consensus.{
  BlockImportOutcome, ConsensusHeader, ConsensusBody, ConsensusSidecar, BlockImportServices,
  import_block, prefilter_header, check_witness_bytes, verify_header_signature, verify_body_binding,
  revalidate_body_transactions, verify_sidecar_binding, execute_and_compare,
}
use shell_chain_specs.Consensus.Import.{Imported, import_block-Imported}
use shell_chain_specs.Consensus.Complete.{Imported-import_block}

abbrev pub header : ConsensusHeader
header = record {
  canonical_root = ok (1 ∷ []);
  witness_bytes = 100;
  transactions_root = 2 ∷ [];
  execution_witnesses_root = 3 ∷ [];
  state_root = 4 ∷ [];
  receipts_root = 5 ∷ [];
  proposer_signature = 6 ∷ [];
  proposer_index_hint = none;
}

abbrev body : ConsensusBody
body = record { transactions_root = ok (2 ∷ []); transactions = some_envelope ∷ [] }

abbrev sidecar : ConsensusSidecar
sidecar = record { block_root = 1 ∷ []; committed_root = 3 ∷ [] }

abbrev services : BlockImportServices
services = record {
  resolver = λ root hint. ok (record { scheme_id = 1; public_key_material = 9 ∷ [] });
  dispatcher = λ scheme_id request. ok tt;
  revalidator = λ transaction. ok tt;
  preparer = λ header sidecar. ok tt;
  execution_engine = λ header body sidecar.
      ok (record { post_state_root = 4 ∷ []; receipts_root = 5 ∷ []; transaction_outcomes = [] });
}

abbrev imported : BlockImportOutcome
imported = record { block_root = 1 ∷ []; post_state_root = 4 ∷ []; receipts_root = 5 ∷ [] }

block-accepted : import_block prefix_hash (some 100) header body sidecar services ≡ ok imported
unfolding import_block prefilter_header check_witness_bytes verify_header_signature
    verify_body_binding revalidate_body_transactions verify_sidecar_binding execute_and_compare
    ensure_matches bytes_eq build_signing_data domain_type signing_root
block-accepted = refl

import_block-Imported_example :
    Imported prefix_hash (some 100) header body sidecar services imported
import_block-Imported_example =
    import_block-Imported prefix_hash (some 100) header body sidecar services imported
      block-accepted

Imported-import_block_example :
    import_block prefix_hash (some 100) header body sidecar services ≡ ok imported
Imported-import_block_example =
    Imported-import_block prefix_hash (some 100) header body sidecar services imported (
      import_block-Imported prefix_hash (some 100) header body sidecar services imported
        block-accepted)

-- ===== src/Primitives/Domains.antt =====
-- crates/shell-primitives/src/domains.rs.
use shell_chain_specs.Common.{[], ◌∷◌, Bytes, Result, ok, ◌>>=◌}
use shell_chain_specs.Primitives.Types.{Root, SigningData}
use shell_chain_specs.Primitives.Errors.{DomainError}

abbrev pub domain_tx_shell : Bytes
domain_tx_shell = 1 ∷ 0 ∷ 0 ∷ 0 ∷ []

abbrev pub domain_validator_message : Bytes
domain_validator_message = 2 ∷ 0 ∷ 0 ∷ 0 ∷ []

pub data DomainSelector : Type 0 where
  transaction_authorization validator_message : DomainSelector

unfoldable pub domain_type : DomainSelector → Result Bytes DomainError
domain_type transaction_authorization = ok domain_tx_shell
domain_type validator_message = ok domain_validator_message

unfoldable pub build_signing_data : Root → DomainSelector → Result SigningData DomainError
unfolding domain_type
build_signing_data object_root domain = do
  bytes ← domain_type domain
  ok (record { object_root = object_root; domain_type = bytes })

-- ===== src/Network/Fetch.antt =====
-- crates/shell-network/src/gossip/filtering.rs, fetch/mod.rs and fetch/policy.rs: whether an announced
-- object is fetched.
use shell_chain_specs.Common.{
  ℕ, Bool, true, false, not, ◌&&◌, Option, none, some, ◌≡◌, ◌↔◌, refl, ltb, if◌then◌else◌, Result,
  ok, err,
}
use shell_chain_specs.Consensus.{
  ConsensusError, witness_byte_limit_exceeded, ConsensusHeader, check_witness_bytes,
}

pub data FetchDecision : Type 0 where
  fetch skip defer : FetchDecision

pub record AnnouncementFilter : Type 0 where
  pub max_transaction_bytes : Option ℕ
  pub max_sidecar_bytes : Option ℕ
  pub allow_unsolicited_sidecars : Bool

pub record SidecarFetchPolicy : Type 0 where
  pub max_witness_bytes : Option ℕ
  pub require_explicit_request : Bool

-- The match's first arm: there is a limit, and the size is above it.
abbrev pub over_limit : Option ℕ → ℕ → Bool
over_limit none size = false
over_limit (some limit) size = ltb limit size

unfoldable pub transaction_fetch_decision : AnnouncementFilter → ℕ → FetchDecision
transaction_fetch_decision filter announced_size =
    if over_limit filter.max_transaction_bytes announced_size then skip else fetch

unfoldable pub sidecar_fetch_decision : AnnouncementFilter → ℕ → Bool → FetchDecision
sidecar_fetch_decision filter announced_size was_requested =
    if over_limit filter.max_sidecar_bytes announced_size
    then skip
    else if not filter.allow_unsolicited_sidecars && not was_requested
    then defer
    else fetch

unfoldable pub decide_for_header : SidecarFetchPolicy → ConsensusHeader → Bool → FetchDecision
decide_for_header policy header was_requested =
    if over_limit policy.max_witness_bytes header.witness_bytes
    then skip
    else if policy.require_explicit_request && not was_requested
    then defer
    else fetch

skip-test :
    (over waits : Bool) (reason : ConsensusError)
    → ((if over then skip else if waits then defer else fetch) ≡ skip) ↔ (
        (error : ConsensusError) × ◌≡◌ {A = Result (Unit {0}) ConsensusError}
          (if over then err reason else ok tt)
          (err error))
skip-test true waits reason = (λ e. (reason, refl), λ (error, e). refl)
skip-test false true reason = (λ e. cc, λ (error, e). cc)
skip-test false false reason = (λ e. cc, λ (error, e). cc)

-- A header's sidecar is skipped, requested or not, exactly when the import with the same limit for
-- witness bytes would refuse the header for them.
pub decide_for_header-skip :
    (policy : SidecarFetchPolicy) (header : ConsensusHeader) (was_requested : Bool)
    → (decide_for_header policy header was_requested ≡ skip) ↔ (
        (error : ConsensusError) × (check_witness_bytes policy.max_witness_bytes
            header.witness_bytes
          ≡ err error))
unfolding decide_for_header check_witness_bytes
decide_for_header-skip policy header was_requested =
    by_limit policy.max_witness_bytes (policy.require_explicit_request && not was_requested)
  where
    by_limit :
        (limit : Option ℕ) (waits : Bool)
        → ((if over_limit limit header.witness_bytes then skip else if waits then defer else fetch)
            ≡ skip)
          ↔ ((error : ConsensusError) × (check_witness_bytes limit header.witness_bytes
                ≡ err error))
    by_limit none true = (λ e. cc, λ (error, e). cc)
    by_limit none false = (λ e. cc, λ (error, e). cc)
    by_limit (some limit) waits =
        skip-test (ltb limit header.witness_bytes) waits
          (witness_byte_limit_exceeded limit header.witness_bytes)

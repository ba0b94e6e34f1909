-- ===== src/State/Applier.antt =====
-- crates/shell-state/src/reference_applier.rs. The accumulator stands in a `RefCell`: the applier's
-- state is the accumulator and whether it is borrowed; a call gives the state that it leaves.
pub mod Continuity
pub mod Accepts
use shell_chain_specs.Common.{Bool, false, bytes_eq, if◌then◌else◌, Result, ok, err, map_ok}
use shell_chain_specs.Primitives.Types.{Root}
use shell_chain_specs.Primitives.Hash.{Sha256}
use shell_chain_specs.State.Witness.{StateError, StatePatch, root_continuity_mismatch, backend}
use shell_chain_specs.State.Accumulator.{InMemoryAccumulator}
use shell_chain_specs.State.Accumulator

pub record ReferenceStateApplier : Type 0 where
  pub accumulator : InMemoryAccumulator
  pub borrowed : Bool

pub record StateTransitionOutcome : Type 0 where
  pub post_state_root : Root

abbrev pub new : InMemoryAccumulator → ReferenceStateApplier
new accumulator = record { accumulator = accumulator; borrowed = false }

-- The borrow ends with the call, on every branch.
unfoldable pub apply_transition :
    Sha256
    → ReferenceStateApplier
    → Root
    → StatePatch
    → Result StateTransitionOutcome StateError × ReferenceStateApplier
apply_transition h applier pre_state_root patch =
    let actual_root = applier.accumulator.root in
    let done = Accumulator.apply_transition h applier.accumulator patch in
    let outcome : Root → StateTransitionOutcome = λ root. record { post_state_root = root } in
    if applier.borrowed
    then (err (backend "reference state applier accumulator is already borrowed"), applier)
    else if bytes_eq actual_root pre_state_root
    then (map_ok outcome done.0, new done.1)
    else (err (root_continuity_mismatch pre_state_root actual_root), applier)

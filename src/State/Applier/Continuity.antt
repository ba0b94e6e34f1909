-- ===== src/State/Applier/Continuity.antt =====
-- The applier moves only from the root that it holds.
use shell_chain_specs.Common.{
  ◌≡◌, refl, sym, ap, ◌∙◌, ◌⊎◌, inl, inr, true, false, Bool-cases, bytes_eq, bytes_eq→eq, Result,
  ok, err, map_ok,
}
use shell_chain_specs.Primitives.Types.{Root}
use shell_chain_specs.Primitives.Hash.{Sha256}
use shell_chain_specs.State.Witness.{StateError, StatePatch, root_continuity_mismatch, backend}
use shell_chain_specs.State.Accumulator.{InMemoryAccumulator, recompute_root}
use shell_chain_specs.State.Accumulator
use shell_chain_specs.State.Accumulator.Invariant.{transition_err, transition_ok-root}
use shell_chain_specs.State.Applier.{
  ReferenceStateApplier, StateTransitionOutcome, apply_transition, new,
}

pub outcome-eq :
    (r : Result Root StateError) {outcome : StateTransitionOutcome}
    → map_ok (λ (root : Root). record { post_state_root = root }) r ≡ ok outcome
    → r ≡ ok outcome.post_state_root
outcome-eq (ok root) e = cc
outcome-eq (err reason) e = cc

outcome-err :
    (r : Result Root StateError) {reason : StateError}
    → map_ok {B = StateTransitionOutcome} (λ (root : Root). record { post_state_root = root }) r
      ≡ err reason
    → r ≡ err reason
outcome-err (ok root) e = cc
outcome-err (err reason) e = cc

module _ (h : Sha256) (applier : ReferenceStateApplier) (pre : Root) (patch : StatePatch) where
  unfoldable pub step : Result StateTransitionOutcome StateError × ReferenceStateApplier
  step = apply_transition h applier pre patch

  unfoldable pub done : Result Root StateError × InMemoryAccumulator
  done = Accumulator.apply_transition h applier.accumulator patch

  -- The three branches of a call.
  pub step-cases :
      ((applier.borrowed ≡ true)
        × (step
            ≡ (err (backend "reference state applier accumulator is already borrowed"), applier)))
      ⊎ (((applier.borrowed ≡ false)
            × ((applier.accumulator.root ≡ pre)
                × (step ≡ (
                  map_ok (λ (root : Root). record { post_state_root = root }) done.0,
                  new done.1,
                ))))
          ⊎ (step ≡ (err (root_continuity_mismatch pre applier.accumulator.root), applier)))
  unfolding step done apply_transition
  step-cases = elim (Bool-cases applier.borrowed) [
    | inl t ↦ inl (t, rw (t, apply_transition) refl)
    | inr f ↦ elim (Bool-cases (bytes_eq applier.accumulator.root pre)) [
      | inl same ↦ inr (
          inl (
            f,
            (bytes_eq→eq applier.accumulator.root pre same, rw (f, same, apply_transition) refl),
          ))
      | inr other ↦ inr (inr (rw (f, other, apply_transition) refl))
    ]
  ]

-- A call that reports an outcome was given the root that the applier held, was not made while the
-- accumulator was borrowed, and leaves an applier whose root is the one reported.
pub apply_transition-continuity :
    (h : Sha256) (applier : ReferenceStateApplier) (pre : Root) (patch : StatePatch)
    (outcome : StateTransitionOutcome)
    → (apply_transition h applier pre patch).0 ≡ ok outcome
    → (applier.accumulator.root ≡ pre)
      × ((applier.borrowed ≡ false)
          × ((apply_transition h applier pre patch).1.accumulator.root ≡ outcome.post_state_root))
unfolding step done
apply_transition-continuity h applier pre patch outcome e = elim (step-cases h applier pre patch) [
  | inl (_, s) ↦ absurd (cc (sym (ap (λ x. x.0) s) ∙ e))
  | inr (inl (free, (same, s))) ↦
      let result = outcome-eq (done h applier pre patch).0 (sym (ap (λ x. x.0) s) ∙ e) in
      (
        same,
        (
          free,
          ap
                (λ (x : Result StateTransitionOutcome StateError × ReferenceStateApplier).
                  x.1.accumulator.root)
                s
              ∙ transition_ok-root h applier.accumulator patch result,
        ),
      )
  | inr (inr s) ↦ absurd (cc (sym (ap (λ x. x.0) s) ∙ e))
]

-- A call that reports an error leaves the applier as it was.
pub apply_transition-rollback :
    (h : Sha256) (applier : ReferenceStateApplier) (pre : Root) (patch : StatePatch)
    (reason : StateError)
    → (apply_transition h applier pre patch).0 ≡ err reason
    → (apply_transition h applier pre patch).1 ≡ applier
unfolding step done
apply_transition-rollback h applier pre patch reason e = elim (step-cases h applier pre patch) [
  | inl (_, s) ↦ ap (λ x. x.1) s
  | inr (inl (free, (same, s))) ↦
      let result = outcome-err (done h applier pre patch).0 (sym (ap (λ x. x.0) s) ∙ e) in
      let kept = transition_err h applier.accumulator patch result in
      ap (λ x. x.1) s ∙ (λ i. record { accumulator = kept i; borrowed = sym free i })
  | inr (inr s) ↦ ap (λ x. x.1) s
]

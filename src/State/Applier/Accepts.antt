-- ===== src/State/Applier/Accepts.antt =====
-- Which calls the applier accepts, and what it holds after them.
use shell_chain_specs.Common.{
  ◌≡◌, refl, sym, ap, subst, ◌∙◌, ◌↔◌, inl, inr, false, length, eq→bytes_eq, ==_iff, ok, All,
}
use shell_chain_specs.Primitives.Types.{Root}
use shell_chain_specs.Primitives.StateKey.{StateKeyIsValid}
use shell_chain_specs.Primitives.Hash.{Sha256}
use shell_chain_specs.State.Witness.{StatePatch, validate_shape, ensure_canonical_access_order}
use shell_chain_specs.State.Witness.Order.{
  Increasing, increasing_loop-Increasing, Increasing-increasing_loop,
}
use shell_chain_specs.State.Accumulator.{InMemoryAccumulator}
use shell_chain_specs.State.Accumulator
use shell_chain_specs.State.Accumulator.Invariant.{
  WellFormed, apply_transition-WellFormed, transition_ok, transition_ok-root, next_of,
  validate_shape-length,
}
use shell_chain_specs.State.Applier.{
  ReferenceStateApplier, StateTransitionOutcome, apply_transition, new,
}
use shell_chain_specs.State.Applier.Continuity.{step, done, step-cases, outcome-eq}

-- As many values as keys, and the keys in canonical order.
abbrev pub Applicable : StatePatch → Type 0
Applicable patch = (length patch.accesses ≡ length patch.new_values) × Increasing patch.accesses

-- The root that the applier holds is the call's, and the accumulator is not borrowed.
abbrev pub Ready : ReferenceStateApplier → Root → Type 0
Ready applier root = (applier.accumulator.root ≡ root) × (applier.borrowed ≡ false)

Applicable-validate_shape : (patch : StatePatch) → Applicable patch → validate_shape patch ≡ ok tt
unfolding validate_shape
Applicable-validate_shape patch a =
    rw ((==_iff (length patch.accesses) (length patch.new_values)).1 a.0) refl

Applicable-order :
    (patch : StatePatch) → Applicable patch → ensure_canonical_access_order patch.accesses ≡ ok tt
unfolding ensure_canonical_access_order
Applicable-order patch a = Increasing-increasing_loop _ 0 patch.accesses a.1

Applicable-apply_transition :
    (h : Sha256) (acc : InMemoryAccumulator) (patch : StatePatch)
    → Applicable patch
    → Accumulator.apply_transition h acc patch
      ≡ (ok (next_of h acc patch).root, next_of h acc patch)
unfolding Accumulator.apply_transition
Applicable-apply_transition h acc patch a =
    rw (Applicable-validate_shape patch a, Applicable-order patch a, Accumulator.apply_transition)
      refl

pub Ready-apply_transition :
    (h : Sha256) (applier : ReferenceStateApplier) (pre : Root) (patch : StatePatch)
    → Ready applier pre
    → Applicable patch
    → apply_transition h applier pre patch ≡ (
      ok (record { post_state_root = (next_of h applier.accumulator patch).root }),
      new (next_of h applier.accumulator patch),
    )
unfolding apply_transition
Ready-apply_transition h applier pre patch (same, free) a =
    rw
      (
        free,
        eq→bytes_eq applier.accumulator.root pre same,
        Applicable-apply_transition h applier.accumulator patch a,
        apply_transition,
      )
      refl

-- What an accepted call says.
pub record Applied (h : Sha256) (before : ReferenceStateApplier) (pre : Root) (patch : StatePatch)
    (post : Root) (after : ReferenceStateApplier) : Type 0 where
  pub ready : Ready before pre
  pub applicable : Applicable patch
  pub left : after ≡ new (next_of h before.accumulator patch)
  pub ready_after : Ready after post

pub apply_transition-Applied :
    (h : Sha256) (before : ReferenceStateApplier) (pre : Root) (patch : StatePatch)
    (outcome : StateTransitionOutcome) (after : ReferenceStateApplier)
    → apply_transition h before pre patch ≡ (ok outcome, after)
    → Applied h before pre patch outcome.post_state_root after
unfolding ensure_canonical_access_order step done
apply_transition-Applied h before pre patch outcome after e = elim (step-cases h before pre patch) [
  | inl (_, s) ↦ absurd (cc (sym (ap (λ x. x.0) s) ∙ ap (λ x. x.0) e))
  | inr (inl (free, (same, s))) ↦
      let result =
        outcome-eq (done h before pre patch).0 (sym (ap (λ x. x.0) s) ∙ ap (λ x. x.0) e) in
      let (shape, (ordered, next)) = transition_ok h before.accumulator patch result in
      let kept : after ≡ new (next_of h before.accumulator patch) =
        sym (ap (λ x. x.1) e) ∙ ap (λ x. x.1) s ∙ ap new next in
      record {
        ready = (same, free);
        applicable = (
          validate_shape-length patch shape,
          increasing_loop-Increasing _ 0 patch.accesses ordered,
        );
        left = kept;
        ready_after = (
          ap (λ (a : ReferenceStateApplier). a.accumulator.root)
                (sym (ap (λ x. x.1) e) ∙ ap (λ x. x.1) s)
              ∙ transition_ok-root h before.accumulator patch result,
          ap (λ (a : ReferenceStateApplier). a.borrowed) kept,
        );
      }
  | inr (inr s) ↦ absurd (cc (sym (ap (λ x. x.0) s) ∙ ap (λ x. x.0) e))
]

pub Applied-WellFormed :
    (h : Sha256) (before : ReferenceStateApplier) (pre : Root) (patch : StatePatch) (post : Root)
    (after : ReferenceStateApplier)
    → WellFormed h before.accumulator
    → All StateKeyIsValid patch.accesses
    → Applied h before pre patch post after
    → WellFormed h after.accumulator
Applied-WellFormed h before pre patch post after w valid applied =
    let moved = Applicable-apply_transition h before.accumulator patch applied.applicable in
    subst (λ (a : InMemoryAccumulator). WellFormed h a)
      (ap (λ x. x.1) moved ∙ sym (ap (λ (a : ReferenceStateApplier). a.accumulator) applied.left))
      (apply_transition-WellFormed h before.accumulator patch w valid)

-- A call is accepted exactly when the applier holds the call's root and is not borrowed, and the patch
-- has as many values as keys and its keys in strictly increasing order of their canonical bytes.
pub apply_transition_iff :
    (h : Sha256) (applier : ReferenceStateApplier) (pre : Root) (patch : StatePatch)
    → ((outcome : StateTransitionOutcome) × ((apply_transition h applier pre patch).0 ≡ ok outcome))
      ↔ (Ready applier pre × Applicable patch)
apply_transition_iff h applier pre patch = (
  λ (outcome, e).
      let applied =
        apply_transition-Applied h applier pre patch outcome
          (apply_transition h applier pre patch).1
          (λ i. (e i, (apply_transition h applier pre patch).1)) in
      (applied.ready, applied.applicable),
  λ (ready, a). (_, ap (λ x. x.0) (Ready-apply_transition h applier pre patch ready a)),
)

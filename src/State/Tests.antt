-- ===== src/State/Tests.antt =====
-- Concrete inputs for the theorems on the accumulator and the applier.
use shell_chain_specs.Common.{
  ◌≡◌, ◌↔◌, ◌⊎◌, refl, false, some, List, [], ◌∷◌, All, ok, err, compare_bytes, bytes_eq,
  map_insert, map_get,
}
use shell_chain_specs.Primitives.Types.{Root, zero_root}
use shell_chain_specs.Primitives.StateKey.{
  StateKey, StateWitness, StateKeyIsValid, encode_state_key, canonicalize_execution_address,
  compare_state_keys, raw_tree_key,
}
use shell_chain_specs.Primitives.Hash.{Collision}
use shell_chain_specs.Primitives.Tests.{
  prefix_hash, account_key, slot_key, address-IsArray, slot-IsArray,
}
use shell_chain_specs.State.Witness.{
  StatePatch, root_continuity_mismatch, validate_shape, increasing_loop,
  ensure_canonical_access_order, keys_of, verify_witnesses,
}
use shell_chain_specs.State.Witness.Order.{Increasing}
use shell_chain_specs.State.Accumulator.{
  InMemoryAccumulator, new, apply_transition, apply_leaf, apply_leaves, recompute_root,
  verify_witness, get_witness_for_accesses, collect_witnesses, proof_path_for_access,
}
use shell_chain_specs.State.Accumulator.Invariant.{
  WellFormed, Stored, Named, new-WellFormed, lookup, apply_transition-WellFormed,
  apply_transition-leaves,
}
use shell_chain_specs.State.Accumulator.Proofs.{verify_witness_iff}
use shell_chain_specs.State.Accumulator.Produced.{
  Present, get_witness_for_accesses_iff, get_witness_for_accesses-verify_witnesses,
}
use shell_chain_specs.State.Accumulator.RootBinding.{compute_reference_root-binds}
use shell_chain_specs.State.Accumulator.Abstract.{contents, write_all, apply_transition-write_all}
use shell_chain_specs.State.Applier.{ReferenceStateApplier, StateTransitionOutcome}
use shell_chain_specs.State.Applier
use shell_chain_specs.State.Applier.Continuity.{
  apply_transition-continuity, apply_transition-rollback,
}
use shell_chain_specs.State.Applier.Accepts.{Ready, Applicable, apply_transition_iff}

abbrev pub two_keys : List StateKey
two_keys = account_key ∷ slot_key ∷ []

abbrev pub two_leaves : StatePatch
two_leaves = record { accesses = two_keys; new_values = (1 ∷ []) ∷ (2 ∷ 3 ∷ []) ∷ [] }

pub two_keys-IsValid : All StateKeyIsValid two_keys
two_keys-IsValid = (address-IsArray, ((address-IsArray, slot-IsArray), tt))

abbrev pub filled : InMemoryAccumulator
filled = (apply_transition prefix_hash new two_leaves).1

abbrev pub filled_root : Root
filled_root = (recompute_root prefix_hash (apply_leaves two_keys two_leaves.new_values [])).root

filled-accepted : (apply_transition prefix_hash new two_leaves).0 ≡ ok filled_root
unfolding apply_transition validate_shape ensure_canonical_access_order increasing_loop
    compare_state_keys compare_bytes encode_state_key canonicalize_execution_address
filled-accepted = refl

apply_transition-WellFormed_example : WellFormed prefix_hash filled
apply_transition-WellFormed_example =
    apply_transition-WellFormed prefix_hash new two_leaves (new-WellFormed prefix_hash)
      two_keys-IsValid

filled-WellFormed : WellFormed prefix_hash filled
filled-WellFormed =
    apply_transition-WellFormed prefix_hash new two_leaves (new-WellFormed prefix_hash)
      two_keys-IsValid

abbrev other_key : StateKey
other_key = raw_tree_key zero_root

apply_transition-leaves_example :
    Increasing two_keys
    × (Stored filled two_keys two_leaves.new_values
        × (Named other_key two_keys ⊎ (lookup filled other_key ≡ lookup new other_key)))
apply_transition-leaves_example =
    apply_transition-leaves prefix_hash new two_leaves filled_root other_key
      (new-WellFormed prefix_hash) filled-accepted

abbrev pub slot_witness : StateWitness
slot_witness = record { key = slot_key; leaf_value = 2 ∷ 3 ∷ []; proof = [] }

abbrev pub account_witness : StateWitness
account_witness = record { key = account_key; leaf_value = 1 ∷ []; proof = [] }

verify_witness_iff_example : (verify_witness filled slot_witness filled.root ≡ ok tt) ↔ (
    (filled.root ≡ filled.root)
    × ((slot_witness.proof ≡ [])
        × (lookup filled slot_key ≡ some (record { key = slot_key; leaf_value = 2 ∷ 3 ∷ [] }))))
verify_witness_iff_example =
    verify_witness_iff prefix_hash filled slot_witness filled.root filled-WellFormed
      (address-IsArray, slot-IsArray)

two_witnesses-produced :
    get_witness_for_accesses filled two_keys ≡ ok (account_witness ∷ slot_witness ∷ [])
unfolding get_witness_for_accesses collect_witnesses proof_path_for_access apply_transition
    apply_leaves apply_leaf recompute_root map_insert map_get validate_shape
    ensure_canonical_access_order increasing_loop compare_state_keys compare_bytes encode_state_key
    canonicalize_execution_address
two_witnesses-produced = refl

get_witness_for_accesses-verify_witnesses_example :
    (keys_of (account_witness ∷ slot_witness ∷ []) ≡ two_keys)
    × (verify_witnesses (verify_witness filled) (account_witness ∷ slot_witness ∷ []) filled.root
        ≡ ok tt)
get_witness_for_accesses-verify_witnesses_example =
    get_witness_for_accesses-verify_witnesses prefix_hash filled two_keys
      (account_witness ∷ slot_witness ∷ []) filled-WellFormed two_keys-IsValid
      two_witnesses-produced

get_witness_for_accesses_iff_example :
    ((ws : List StateWitness) × (get_witness_for_accesses filled two_keys ≡ ok ws))
    ↔ (Increasing two_keys × All (Present filled) two_keys)
get_witness_for_accesses_iff_example = get_witness_for_accesses_iff filled two_keys

compute_reference_root-binds_example : (filled.leaves ≡ filled.leaves) ⊎ Collision prefix_hash
compute_reference_root-binds_example =
    compute_reference_root-binds prefix_hash filled filled filled-WellFormed filled-WellFormed refl

abbrev applier : ReferenceStateApplier
applier = Applier.new new

applier-accepted :
    (Applier.apply_transition prefix_hash applier zero_root two_leaves).0
    ≡ ok (record { post_state_root = filled_root })
unfolding Applier.apply_transition apply_transition validate_shape ensure_canonical_access_order
    increasing_loop compare_state_keys compare_bytes encode_state_key canonicalize_execution_address
    bytes_eq
applier-accepted = refl

apply_transition-continuity_example :
    (new.root ≡ zero_root)
    × ((applier.borrowed ≡ false)
        × ((Applier.apply_transition prefix_hash applier zero_root two_leaves).1.accumulator.root
            ≡ filled_root))
apply_transition-continuity_example =
    apply_transition-continuity prefix_hash applier zero_root two_leaves
      (record { post_state_root = filled_root }) applier-accepted

applier-refused :
    (Applier.apply_transition prefix_hash applier (1 ∷ []) two_leaves).0
    ≡ err (root_continuity_mismatch (1 ∷ []) zero_root)
unfolding Applier.apply_transition bytes_eq
applier-refused = refl

apply_transition-rollback_example :
    (Applier.apply_transition prefix_hash applier (1 ∷ []) two_leaves).1 ≡ applier
apply_transition-rollback_example =
    apply_transition-rollback prefix_hash applier (1 ∷ []) two_leaves
      (root_continuity_mismatch (1 ∷ []) zero_root) applier-refused

apply_transition_iff_example :
    ((outcome : StateTransitionOutcome) × ((Applier.apply_transition prefix_hash applier zero_root
          two_leaves).0
        ≡ ok outcome))
    ↔ (Ready applier zero_root × Applicable two_leaves)
apply_transition_iff_example = apply_transition_iff prefix_hash applier zero_root two_leaves

-- Two accumulators with the same leaves: the second one is filled in two steps.
abbrev one_leaf : StatePatch
one_leaf = record { accesses = account_key ∷ []; new_values = (1 ∷ []) ∷ [] }

abbrev other_leaf : StatePatch
other_leaf = record { accesses = slot_key ∷ []; new_values = (2 ∷ 3 ∷ []) ∷ [] }

abbrev stepwise : InMemoryAccumulator
stepwise = (apply_transition prefix_hash (apply_transition prefix_hash new one_leaf).1 other_leaf).1

stepwise-WellFormed : WellFormed prefix_hash stepwise
stepwise-WellFormed =
    apply_transition-WellFormed prefix_hash (apply_transition prefix_hash new one_leaf).1 other_leaf
      (apply_transition-WellFormed prefix_hash new one_leaf (new-WellFormed prefix_hash)
        (two_keys-IsValid.0, tt))
      two_keys-IsValid.1

stepwise-leaves : filled.leaves ≡ stepwise.leaves
unfolding apply_transition apply_leaves apply_leaf recompute_root map_insert validate_shape
    ensure_canonical_access_order increasing_loop compare_state_keys compare_bytes encode_state_key
    canonicalize_execution_address
stepwise-leaves = refl

abbrev last_patch : StatePatch
last_patch = record { accesses = slot_key ∷ []; new_values = (7 ∷ []) ∷ [] }

abbrev last_root : Root
last_root =
    (recompute_root prefix_hash
      (apply_leaves last_patch.accesses last_patch.new_values filled.leaves)).root

last_patch-accepted : (apply_transition prefix_hash filled last_patch).0 ≡ ok last_root
unfolding apply_transition validate_shape ensure_canonical_access_order increasing_loop
last_patch-accepted = refl

apply_transition-write_all_example :
    ((apply_transition prefix_hash stepwise last_patch).0 ≡ ok last_root)
    × ((contents (apply_transition prefix_hash filled last_patch).1
          ≡ write_all last_patch.accesses last_patch.new_values (contents filled))
        × (contents (apply_transition prefix_hash stepwise last_patch).1
            ≡ write_all last_patch.accesses last_patch.new_values (contents filled)))
apply_transition-write_all_example =
    apply_transition-write_all prefix_hash filled stepwise last_patch last_root filled-WellFormed
      stepwise-WellFormed (λ i key. map_get key (stepwise-leaves i)) last_patch-accepted

-- ===== src/Fixtures/Tests.antt =====
-- Concrete inputs for the theorems on a scenario's roots.
use shell_chain_specs.Common.{◌≡◌, ◌⊎◌, refl, [], ◌∷◌, List, All, arith}
use shell_chain_specs.Primitives.StateKey.{StateWitness}
use shell_chain_specs.Primitives.Hash.{Collision}
use shell_chain_specs.Primitives.Tests.{prefix_hash, address-IsArray, slot-IsArray}
use shell_chain_specs.State.Tests.{account_witness, slot_witness}
use shell_chain_specs.Fixtures.Binding.{WitnessIsValid, compute_execution_witnesses_root-binds}

abbrev two_witnesses : List StateWitness
two_witnesses = account_witness ∷ slot_witness ∷ []

two_witnesses-IsValid : All WitnessIsValid two_witnesses
two_witnesses-IsValid = (
  record { key = address-IsArray; leaf_value = omega arith; proof = tt; nodes = omega arith },
  (
    record {
      key = (address-IsArray, slot-IsArray);
      leaf_value = omega arith;
      proof = tt;
      nodes = omega arith;
    },
    tt,
  ),
)

compute_execution_witnesses_root-binds_example :
    (two_witnesses ≡ two_witnesses) ⊎ Collision prefix_hash
compute_execution_witnesses_root-binds_example =
    compute_execution_witnesses_root-binds prefix_hash two_witnesses two_witnesses
      two_witnesses-IsValid two_witnesses-IsValid (omega arith) (omega arith) refl

-- ===== src/Fixtures/Vectors.antt =====
-- crates/shell-fixtures/src/lib.rs: the vectors that a root check scenario is resolved from, with the
-- fields that the resolution reads, and what they stand for.
use shell_chain_specs.Common.{
  ℕ, Option, none, some, List, [], map, Bytes, bytes_eq, Result, ok, err, ◌>>=◌,
}
use shell_chain_specs.Primitives.Types.{
  Root, BasicFeesPerGas, TransactionPayload, TransactionEnvelope, basic, create,
}
use shell_chain_specs.Primitives.StateKey.{
  StateKey, StateWitness, account_header, storage_slot, code_chunk, raw_tree_key, stem,
  encode_state_key,
}
use shell_chain_specs.State.Witness.{StatePatch}
use shell_chain_specs.Fixtures.Hex.{
  Panic, panicked, Text, check, traverse, parse_hex, parse_array, parse_root, parse_address,
  parse_bytes_32, parse_bytes_31,
}

pub record FeeInput : Type 0 where
  pub regular : Text
  pub max_priority_fee_per_gas : Text
  pub max_witness_priority_fee : Text

pub data TransactionPayloadInput : Type 0 where
  basic_input :
      (chain_id : Text) (nonce gas_limit : ℕ) (fees : FeeInput) (to value input_hex : Text)
      (access_commitment : Text)
      → TransactionPayloadInput
  create_input :
      (chain_id : Text) (nonce gas_limit : ℕ) (fees : FeeInput) (value initcode_hex : Text)
      (access_commitment : Text)
      → TransactionPayloadInput

pub record TransactionVector : Type 0 where
  pub id : Text
  pub payload : Option TransactionPayloadInput
  pub expected_outcome : Text

pub data StateKeyInput : Type 0 where
  account_header_input : (address : Text) (canonical_key_hex : Option Text) → StateKeyInput
  storage_slot_input : (address slot : Text) (canonical_key_hex : Option Text) → StateKeyInput
  code_chunk_input :
      (address : Text) (chunk_index : ℕ) (canonical_key_hex : Option Text) → StateKeyInput
  raw_tree_key_input : (raw_key : Text) (canonical_key_hex : Option Text) → StateKeyInput
  stem_input : (stem : Text) (canonical_key_hex : Option Text) → StateKeyInput

pub record WitnessFixture : Type 0 where
  pub key : StateKeyInput
  pub leaf_value_hex : Text
  pub proof_hex : List Text

pub record MaterializedLeafFixture : Type 0 where
  pub key : StateKeyInput
  pub leaf_value_hex : Text

pub record WitnessInput : Type 0 where
  pub expected_state_root : Option Text
  pub witness : Option WitnessFixture
  pub materialized_state : Option (List MaterializedLeafFixture)

pub record WitnessVector : Type 0 where
  pub id : Text
  pub input : WitnessInput
  pub expected_outcome : Text

unfoldable pub parse_fees : FeeInput → Result BasicFeesPerGas Panic
unfolding parse_array
parse_fees fees = do
  regular ← parse_bytes_32 fees.regular
  priority ← parse_bytes_32 fees.max_priority_fee_per_gas
  witness ← parse_bytes_32 fees.max_witness_priority_fee
  ok (record {
    regular = regular;
    max_priority_fee_per_gas = priority;
    max_witness_priority_fee = witness;
  })

unfoldable pub build_payload : TransactionPayloadInput → Result TransactionPayload Panic
unfolding parse_fees parse_array parse_hex
build_payload (basic_input chain_id nonce gas_limit fees to value input_hex access_commitment) = do
  chain ← parse_bytes_32 chain_id
  per_gas ← parse_fees fees
  recipient ← parse_address to
  amount ← parse_bytes_32 value
  input ← parse_hex input_hex
  commitment ← parse_root access_commitment
  ok (
      basic (record {
        chain_id = chain;
        nonce = nonce;
        gas_limit = gas_limit;
        fees = per_gas;
        to = recipient;
        value = amount;
        input = input;
        access_commitment = commitment;
      }))
build_payload (create_input chain_id nonce gas_limit fees value initcode_hex access_commitment) = do
  chain ← parse_bytes_32 chain_id
  per_gas ← parse_fees fees
  amount ← parse_bytes_32 value
  code ← parse_hex initcode_hex
  commitment ← parse_root access_commitment
  ok (
      create (record {
        chain_id = chain;
        nonce = nonce;
        gas_limit = gas_limit;
        fees = per_gas;
        value = amount;
        initcode = code;
        access_commitment = commitment;
      }))

-- `payload` and `envelope` of a transaction vector.
unfoldable pub vector_envelope : TransactionVector → Result TransactionEnvelope Panic
unfolding build_payload
vector_envelope vector = elim vector.payload [
  | none ↦ err panicked
  | some input ↦
      build_payload input >>= λ payload. ok (record { payload = payload; authorizations = [] })
]

unfoldable pub read_state_key : StateKeyInput → Result StateKey Panic
unfolding parse_array
read_state_key (account_header_input address canonical) =
    parse_address address >>= λ a. ok (account_header a)
read_state_key (storage_slot_input address slot canonical) = do
  a ← parse_address address
  s ← parse_bytes_32 slot
  ok (storage_slot a s)
read_state_key (code_chunk_input address chunk_index canonical) =
    parse_address address >>= λ a. ok (code_chunk a chunk_index)
read_state_key (raw_tree_key_input raw_key canonical) =
    parse_bytes_32 raw_key >>= λ raw. ok (raw_tree_key raw)
read_state_key (stem_input text canonical) = parse_bytes_31 text >>= λ bytes. ok (stem bytes)

unfoldable pub canonical_key_hex : StateKeyInput → Option Text
canonical_key_hex (account_header_input address canonical) = canonical
canonical_key_hex (storage_slot_input address slot canonical) = canonical
canonical_key_hex (code_chunk_input address chunk_index canonical) = canonical
canonical_key_hex (raw_tree_key_input raw_key canonical) = canonical
canonical_key_hex (stem_input text canonical) = canonical

unfoldable pub check_canonical_key : StateKey → Option Text → Result (Unit {0}) Panic
unfolding parse_hex
check_canonical_key key none = ok tt
check_canonical_key key (some expected_hex) =
    parse_hex expected_hex >>= λ bytes. check (bytes_eq (encode_state_key key) bytes)

unfoldable pub to_state_key : StateKeyInput → Result StateKey Panic
unfolding read_state_key canonical_key_hex check_canonical_key
to_state_key input = do
  key ← read_state_key input
  _ ← check_canonical_key key (canonical_key_hex input)
  ok key

unfoldable pub to_entry : MaterializedLeafFixture → Result (StateKey × Bytes) Panic
unfolding to_state_key parse_hex
to_entry leaf = do
  key ← to_state_key leaf.key
  value ← parse_hex leaf.leaf_value_hex
  ok (key, value)

unfoldable pub to_state_witness : WitnessFixture → Result StateWitness Panic
unfolding to_state_key parse_hex parse_array
to_state_witness fixture = do
  key ← to_state_key fixture.key
  value ← parse_hex fixture.leaf_value_hex
  proof ← traverse parse_bytes_32 fixture.proof_hex
  ok (record { key = key; leaf_value = value; proof = proof })

-- `witness`, where there must be one.
unfoldable pub single_witness : WitnessVector → Result StateWitness Panic
unfolding to_state_witness
single_witness vector = elim vector.input.witness [
  | none ↦ err panicked
  | some fixture ↦ to_state_witness fixture
]

unfoldable pub materialized_state : WitnessVector → Result (List (StateKey × Bytes)) Panic
unfolding to_entry
materialized_state vector = elim vector.input.materialized_state [
  | none ↦ ok []
  | some entries ↦ traverse to_entry entries
]

-- `expected_state_root`, where there must be one.
unfoldable pub declared_state_root : WitnessVector → Result Root Panic
unfolding parse_array
declared_state_root vector = elim vector.input.expected_state_root [
  | none ↦ err panicked
  | some text ↦ parse_root text
]

pub record ExecutionSemanticsStep : Type 0 where
  pub transaction_vector_id : Text
  pub writes : List MaterializedLeafFixture
  pub receipt_status_code : ℕ
  pub receipt_output_hex : Text

unfoldable pub state_patch : ExecutionSemanticsStep → Result StatePatch Panic
unfolding to_entry
state_patch step = do
  entries ← traverse to_entry step.writes
  ok (record {
    accesses = map (λ (e : StateKey × Bytes). e.0) entries;
    new_values = map (λ (e : StateKey × Bytes). e.1) entries;
  })

unfoldable pub receipt_output : ExecutionSemanticsStep → Result Bytes Panic
unfolding parse_hex
receipt_output step = parse_hex step.receipt_output_hex

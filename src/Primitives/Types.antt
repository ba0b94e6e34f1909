-- ===== src/Primitives/Types.antt =====
-- crates/shell-primitives/src/types/scalars.rs and transactions.rs. An array `[u8; n]` is a list of
-- bytes; its length is a fact that the `IsValid` records carry. The wrappers of `U256` (`ChainId`,
-- `TxValue`, `GasPrice`) are the 32 bytes that they hold.
use shell_chain_specs.Common.{
  ℕ, ◌^◌, ◌<◌, List, Bytes, IsByte, IsArray, All, replicate, Result, ok, err, ◌==◌, ◌||◌,
  if◌then◌else◌,
}

abbrev pub Root : Type 0
Root = Bytes

abbrev pub U256 : Type 0
U256 = Bytes

abbrev pub GasPrice : Type 0
GasPrice = U256

abbrev pub ExecutionAddress : Type 0
ExecutionAddress = Bytes

-- `[0u8; 32]`
abbrev pub zero_root : Root
zero_root = replicate 32 0

pub record BasicFeesPerGas : Type 0 where
  pub regular : GasPrice
  pub max_priority_fee_per_gas : GasPrice
  pub max_witness_priority_fee : GasPrice

pub record BasicTransactionPayload : Type 0 where
  pub chain_id : U256
  pub nonce : ℕ
  pub gas_limit : ℕ
  pub fees : BasicFeesPerGas
  pub to : ExecutionAddress
  pub value : U256
  pub input : Bytes
  pub access_commitment : Root

pub record CreateTransactionPayload : Type 0 where
  pub chain_id : U256
  pub nonce : ℕ
  pub gas_limit : ℕ
  pub fees : BasicFeesPerGas
  pub value : U256
  pub initcode : Bytes
  pub access_commitment : Root

pub record Authorization : Type 0 where
  pub scheme_id : ℕ
  pub payload_root : Root
  pub signature : Bytes

pub record SigningData : Type 0 where
  pub object_root : Root
  pub domain_type : Bytes

-- `TransactionPayloadSsz` is a private wrapper of this enum, and is the enum here.
pub data TransactionPayload : Type 0 where
  basic : BasicTransactionPayload → TransactionPayload
  create : CreateTransactionPayload → TransactionPayload

abbrev pub tag_basic : ℕ
tag_basic = 0

abbrev pub tag_create : ℕ
tag_create = 1

unfoldable pub protocol_tag : TransactionPayload → ℕ
protocol_tag (basic p) = tag_basic
protocol_tag (create p) = tag_create

-- The error is the tag that `UnsupportedPayloadVariant` carries.
unfoldable pub ensure_supported_tag : ℕ → Result (Unit {0}) ℕ
ensure_supported_tag tag = if tag == tag_basic || tag == tag_create then ok tt else err tag

pub record TransactionEnvelope : Type 0 where
  pub payload : TransactionPayload
  pub authorizations : List Authorization

-- What Rust's types say of a value: the length of each array and the range of each integer.
pub record FeesIsValid (f : BasicFeesPerGas) : Type 0 where
  pub regular : IsArray 32 f.regular
  pub priority : IsArray 32 f.max_priority_fee_per_gas
  pub witness : IsArray 32 f.max_witness_priority_fee

pub record BasicIsValid (p : BasicTransactionPayload) : Type 0 where
  pub chain_id : IsArray 32 p.chain_id
  pub nonce : p.nonce < 2 ^ 64
  pub gas_limit : p.gas_limit < 2 ^ 64
  pub fees : FeesIsValid p.fees
  pub to : IsArray 20 p.to
  pub value : IsArray 32 p.value
  pub input : All IsByte p.input
  pub access_commitment : IsArray 32 p.access_commitment

pub record CreateIsValid (p : CreateTransactionPayload) : Type 0 where
  pub chain_id : IsArray 32 p.chain_id
  pub nonce : p.nonce < 2 ^ 64
  pub gas_limit : p.gas_limit < 2 ^ 64
  pub fees : FeesIsValid p.fees
  pub value : IsArray 32 p.value
  pub initcode : All IsByte p.initcode
  pub access_commitment : IsArray 32 p.access_commitment

pub record AuthorizationIsValid (a : Authorization) : Type 0 where
  pub scheme_id : IsByte a.scheme_id
  pub payload_root : IsArray 32 a.payload_root
  pub signature : All IsByte a.signature

abbrev pub PayloadIsValid : TransactionPayload → Type 0
PayloadIsValid (basic p) = BasicIsValid p
PayloadIsValid (create p) = CreateIsValid p

pub record EnvelopeIsValid (e : TransactionEnvelope) : Type 0 where
  pub payload : PayloadIsValid e.payload
  pub authorizations : All AuthorizationIsValid e.authorizations

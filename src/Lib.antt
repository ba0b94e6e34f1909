-- ===== src/Lib.antt =====
-- Verification library of shell-chain: the protocol's objects and their wire form, the roots that
-- commit to them, the admission of transactions, signature dispatch, the reference state, the execution
-- and the import of blocks, and the local reference run that puts them together.
--
-- The parts. A transaction envelope is a payload with a list of authorizations. It travels in the wire
-- form of crates/shell-primitives/src/codec.rs; its payload's root (ssz.rs) is what each authorization
-- names and what is signed, in a domain (domains.rs). The mempool (crates/shell-mempool) screens an
-- envelope by local rules (validation.rs of the primitives, then fees and nonces) and has every
-- signature verified through the dispatcher of crates/shell-crypto. The state (crates/shell-state) is
-- an ordered map of leaves with a root; it hands out and checks witnesses and applies patches, which
-- the applier accepts only from the root that it holds. The execution of a block (crates/shell-execution)
-- asks an executor for a plan for each transaction and has the applier apply the plan's patch; the
-- planned executor replays plans in order. The import of a block (crates/shell-consensus) runs the
-- checks of header, body, transactions, sidecar and execution in order, and the network
-- (crates/shell-network) decides what is fetched and turns an error into an action on the peer that
-- sent the object. The local reference run (crates/shell-cli) fills the import's services with the
-- admission pipeline, the accumulator's witnesses and the planned execution, for a scenario that
-- crates/shell-fixtures resolves from its vectors, and the network's adapters call it.
--
-- The files.
-- - Common: the tests on native numbers, lists, results, byte strings with their order, and ordered
--   maps keyed by byte strings (the `BTreeMap` of the state), with the lemmas that the parts share.
-- - Primitives.Types, Primitives.Errors: types/scalars.rs, types/transactions.rs, errors.rs and
--   traits.rs of crates/shell-primitives/src. An array is a list of bytes, and what its type says of
--   length and range is in the `IsValid` records.
-- - Primitives.Codec, Primitives.EnvelopeCodec: codec.rs, function for function; the modules below hold
--   the layout of the encodings, the inversion of the decoders and the round trips.
-- - Primitives.Hash, Primitives.Ssz: ssz.rs. SHA-256 is a parameter, a function to 32 bytes; a theorem
--   that would need it to be injective says instead that a collision can be given. `merkleize` is
--   recursion on fuel 64: each call halves a limit that is a `usize`, so that the fuel
--   is enough. Assertions of debug builds check nothing here.
-- - Primitives.Domains, Primitives.Validation, Primitives.StateKey: domains.rs, validation.rs and
--   types/state.rs.
-- - Crypto: dispatch.rs, errors.rs, traits.rs and schemes/ed25519.rs of crates/shell-crypto/src. A
--   verifier is a record of its operations.
-- - State.Witness, State.Accumulator, State.Applier: errors.rs, witness.rs, transition.rs,
--   accumulator.rs and reference_applier.rs of crates/shell-state/src. A method that takes `&mut self`
--   gives its result and the state that it leaves; the `RefCell` of the applier is a flag of its state.
-- - Mempool: admission.rs, fees.rs, errors.rs and outcomes.rs of crates/shell-mempool/src. The
--   dispatcher's method is a parameter, and the end-to-end theorem fills it with the registry.
-- - Execution: errors.rs, outputs.rs, engine.rs and planned.rs of crates/shell-execution/src. An executor
--   and an applier change their own state behind `&self`: each is a function that takes its state and
--   gives it back, with an error too. Execution.Steps holds the relation that specifies a run.
-- - Consensus: header_checks.rs, import.rs, sidecars.rs, execution_bridge.rs, outcomes.rs and objects.rs
--   of crates/shell-consensus/src. Headers, bodies and sidecars are records of what their methods
--   return, services are functions; what a service changes in itself is not followed.
-- - Network: lib.rs, reputation/scoring.rs, gossip/filtering.rs and fetch/policy.rs of
--   crates/shell-network/src.
-- - Fixtures: lib.rs of crates/shell-fixtures/src: the texts, the vectors and the resolution of a root
--   check scenario. A text is its bytes, a panic is an error, and the functions that read the files are
--   arguments.
-- - Runtime: runtime.rs, adapters.rs and fixtures.rs of crates/shell-cli/src.
-- - Tests, below each part: concrete inputs for its theorems.
--
-- `usize` has 64 bits. Error messages are kept, those of panics are not. Not modelled: reading and
-- parsing files; the vectors that only tests read; traits without code (decoders, schedulers, stores,
-- metadata). The crates `sha2` and `ed25519_dalek` are arguments.
pub mod Common
pub mod Primitives
pub mod Crypto
pub mod State
pub mod Mempool
pub mod Execution
pub mod Consensus
pub mod Network
pub mod Fixtures
pub mod Runtime

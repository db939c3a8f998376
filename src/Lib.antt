-- ===== src/Lib.antt =====
-- The Filecoin FFI: its Rust half, exported functions over proofs, BLS signatures and the FVM, which the
-- Go half calls over a C interface; the part of the Go half that the Rust half calls back; and the Go
-- functions that users call, over the Rust half.
--
-- The parts and their files:
-- - Base: lists, maps, words, fixed-size pieces, and Base/Effect: an `anyhow` error as a value, and a
--   panic that unwinds. A function over a state that can do both is an `Exec`.
-- - Util: rust/src/util. Util/Response is the type of every response (`Result` there), Util/CatchPanic
--   the wrappers around every callback, Util/Log and Util/Api the logger under `LOG_INIT` and the
--   exported functions. Util/World is the state of the process: the logger, the lines logged, the
--   descriptors closed by dropped files, and the state outside.
-- - Fvm: rust/src/fvm. Fvm/Trace is `build_lotus_trace`, Fvm/Blockstore the trait and the three
--   stores of rust/src/fvm/blockstore, Fvm/Externs the externs, Fvm/Cgo the bridge of
--   rust/src/fvm/cgo, Fvm/Machine the exported functions of rust/src/fvm/machine.rs with the lock
--   around the executor, and Fvm/Machine/Threads several threads that call one machine, as a step
--   relation. `create_fvm_machine` stacks the fake store on the Go store and finishes it into
--   the overlay store.
-- - Bls: rust/src/bls/api.rs.
-- - Proofs: rust/src/proofs. Proofs/Types and Proofs/Upstream are types.rs and the enumerations of the
--   API, Proofs/Helpers is helpers.rs, with a `BTreeMap` as the list of its pairs in order, and
--   Proofs/Seal, Proofs/Unseal, Proofs/Post, Proofs/Aggregate, Proofs/Update and Proofs/Accessors are the
--   functions of api.rs.
-- - Go: cgo. Go.antt is the registry of cgo/registry.go, Go/Store and Go/Chain are cgo/blockstore.go and
--   cgo/extern.go; together they are the Go side that Fvm/Cgo takes as a parameter.
-- - Ffi: the Go package over the exported functions, composed with their models. Ffi/Bls is bls.go, with
--   its loops in Ffi/Slices; Ffi/Machine is fvm.go, with its `big.Int` amounts in Ffi/BigInt and the
--   registry of Go.antt; Ffi/Sectors is the sorted sectors of types.go. Of proofs.go, Ffi/Abi, Ffi/Replicas
--   are the conversions, Ffi/Post, Ffi/Seal and Ffi/Pieces some functions. Ffi/Abi also has the
--   conversions of sector_update.go, and Ffi/Boxes is the heap of the boxes that Go allocates.
-- - Examples: concrete parameters, and the theorems at concrete inputs.
--
-- Parameters: the crates fvm, fvm_shared, cid, fvm_ipld_car, bls_signatures, blstrs and filecoin_proofs_api,
-- the Go side (except in Go), the Go libraries, what users register, and formatting by the standard
-- library. They are the records FvmShared, FvmApi, CidApi, CgoApi, BlsApi, PostApi, SealApi, AggregateApi,
-- UpdateApi, AccessorApi, GoApi, Externs, GoLibs (the packages commcid, address and abi), SealLibs, Os and
-- Std. What a theorem needs of them is among its hypotheses (WritesCids, ReadsCids, Bls.Keys.IsLawful,
-- IsSerde, CommitmentsOf32, AmountsAreU128, GasIsI64).
--
-- Numbers are natural numbers with their wrap-around written out; a byte string is a list of numbers.
-- The loop of `build_lotus_trace` runs on fuel, the number of events and one: each round reads an
-- event. The pieces of a slice are cut on its length as fuel: each piece takes an element.
-- The words of a number are taken on the number itself as fuel: each divides it by 2^64.
-- Memory is not modelled, but for the boxes of Ffi/Boxes: other boxes are values, and the destructors
-- are left out. The parallel conversion
-- of verify_aggregate_seal_proof is a relation, whose ends are those that `try_reduce` documents; the
-- parallel maps that keep the order of their items are sequential, since their pieces share no state.
--
-- Not modelled: the further functions of proofs.go, distributed.go and sector_update.go, which convert
-- and call in the same way as those above; workflows.go, which only tests call; the constants and the
-- type aliases of cgo; the build scripts, the Windows variants and the tests.
pub mod Base
pub mod Util
pub mod Fvm
pub mod Bls
pub mod Proofs
pub mod Go
pub mod Ffi
pub mod Examples

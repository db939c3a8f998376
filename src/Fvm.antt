-- ===== src/Fvm.antt =====
-- rust/src/fvm: the machine behind the exported functions, its traces, the blockstores that it reads
-- and writes, and the callbacks into Go.
pub mod Shared
pub mod Trace
pub mod Cgo
pub mod Blockstore
pub mod Externs
pub mod Engine
pub mod Machine

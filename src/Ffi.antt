-- ===== src/Ffi.antt =====
-- The package `ffi` over the package `cgo`: what users of the Go library call, composed with the
-- exported functions of the Rust library.
pub mod Slices
pub mod Bls
pub mod BigInt
pub mod Machine
pub mod Abi
pub mod Boxes
pub mod Replicas
pub mod Sectors
pub mod Seal
pub mod Pieces
pub mod Post

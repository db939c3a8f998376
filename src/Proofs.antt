-- ===== src/Proofs.antt =====
-- rust/src/proofs: the proofs of the crate `filecoin_proofs_api`, which is a parameter.
pub mod Upstream
pub mod Types
pub mod Helpers
pub mod Post
pub mod Seal
pub mod Unseal
pub mod Aggregate
pub mod Update
pub mod Accessors

-- ===== src/Examples.antt =====
-- The parameters made concrete, and the theorems at concrete inputs.
pub mod Concrete
mod TraceRuns
mod StoreRuns
mod MachineRuns
mod UtilRuns
mod BlsRuns
mod ProofsRuns
mod AggregateRuns
mod GoRuns
mod ThreadRuns
mod FfiBlsRuns
mod FfiMachineRuns
mod FfiProofsRuns

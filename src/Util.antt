-- ===== src/Util.antt =====
-- rust/src/util: the response type that every exported function returns, the wrappers that catch
-- panics, and the logger that is initialised once.
pub mod World
pub mod Response
pub mod Log
pub mod CatchPanic
pub mod Api

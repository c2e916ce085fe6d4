-- ===== src/Worker.antt =====
-- kvstore/Worker.cc: the commands of a data server.  A handler is a function from the worker's
-- state to the state after it; the map lock is held over what stands between its calls, so a
-- handler runs whole.  Debug output is left out.
pub mod Input
pub mod Log
pub mod Handlers
pub mod Recovery
pub mod Dispatch
pub mod Invariant
pub mod Keeps
pub mod Waiting
pub mod KeepsSwap
pub mod KeepsLinks
pub mod KeepsRun
pub mod Effects
pub mod Deletion

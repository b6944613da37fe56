-- ===== src/Uthreads.antt =====
-- The user-level thread library, ex2/uthreads.cpp with ex2/Thread.cpp: the definitions stand in
-- Thread, Table, Scheduler, Api and Halves, and the other children prove what they are named for.
pub mod Thread
pub mod Table
pub mod Scheduler
pub mod Api
pub mod Store
pub mod Ids
pub mod Invariant
pub mod Pick
pub mod Switch
pub mod Running
pub mod Suspend
pub mod Blocking
pub mod Resuming
pub mod Spawn
pub mod Lifetime
pub mod Terminate
pub mod Halves
pub mod Trace
pub mod Late
pub mod Turns
pub mod Calls
pub mod Gone
mod Tests

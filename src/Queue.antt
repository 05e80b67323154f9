-- ===== src/Queue.antt =====
-- The bounded queue of task2/2.2, in its five versions.
pub mod Store
pub mod Shape
pub mod Spec
pub mod Ends
pub mod Calls
pub mod Threads
pub mod Sync
pub mod Mutex
pub mod Spinlock
pub mod Semaphore
pub mod Cond
pub mod Versions
pub mod Launch
mod Examples

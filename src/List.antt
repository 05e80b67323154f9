-- ===== src/List.antt =====
-- The list of task2/2.3 with one lock in each node, in its three versions.
pub mod Store
pub mod Swap
pub mod Laws
pub mod Ends
pub mod Front
pub mod Threads
pub mod Fill
pub mod Mutex
pub mod Rwlock
pub mod Spinlock
pub mod Main
pub mod Concurrent
mod Examples

-- ===== src/Uthread.antt =====
-- The threads in user space of task1/task1-7/uthread.c: a ring of threads, and a scheduler that
-- passes control to the next one that does not sleep.
pub mod State
pub mod Scheduler
pub mod Create
pub mod Start
pub mod Main
mod Examples

-- ===== src/Queue/Spinlock.antt =====
-- task2/2.2/spinlock/queue.c: each call holds the spinlock of the queue while it tests and changes it.
pub mod Refines
pub mod Threads
use osi.Base.{ℕ, Bool, true, false, ◌==◌, if◌then◌else◌, le_int}
use osi.Chain.{null}
use osi.Machine.{Cmd, ok, stop, blocked, fault, pure, ◌>>=◌, ◌>>◌, modify, assert}
use osi.Queue.Store.{Queue, State, set_queue, get_queue, enqueue, dequeue, attempt_add, attempt_get}
use osi.Queue.Calls
use osi.Queue.Calls.{Stats, abort, drain}

-- Whether the spinlock is held.
abbrev pub Spinlock : Type 0
Spinlock = Bool

-- A call that finds the spinlock held spins: in the run of one thread nobody releases it.
unfoldable pub spin_lock : Cmd (State Spinlock) (Unit {0})
spin_lock s = if s.lock then stop blocked else ok tt (record s { lock = true })

-- Unlocking a spinlock that is not held is undefined.
unfoldable pub spin_unlock : Cmd (State Spinlock) (Unit {0})
spin_unlock s = if s.lock then ok tt (record s { lock = false }) else stop fault

unfoldable pub queue_init : (allocated : Bool) (err max_count : ℕ) → Cmd (State Spinlock) (Unit {0})
queue_init allocated err max_count =
    if allocated
    then (do
      modify (λ s. record s { lock = false })
      set_queue (λ q. record q { first = null })
      set_queue (λ q. record q { last = null })
      set_queue (λ q. record q { max_count = max_count })
      set_queue (λ q. record q { count = 0 })
      set_queue (λ q. record q { add_attempts = 0; get_attempts = 0 })
      set_queue (λ q. record q { add_count = 0; get_count = 0 })
      if err == 0 then pure tt else abort)
    else abort

unfoldable pub queue_add : (fresh val : ℕ) → Cmd (State Spinlock) ℕ
unfolding spin_lock spin_unlock
queue_add fresh val = do
  attempt_add
  assert (λ s. le_int s.queue.count s.queue.max_count)
  spin_lock
  q ← get_queue
  if q.count == q.max_count
      then (do spin_unlock; pure 0)
      else if fresh == null
      then abort
      else do enqueue fresh val; spin_unlock; pure 1

unfoldable pub queue_get : (val : ℕ) → Cmd (State Spinlock) (ℕ × ℕ)
unfolding spin_lock spin_unlock
queue_get val = do
  attempt_get
  assert (λ s. le_int 0 s.queue.count)
  spin_lock
  q ← get_queue
  if q.count == 0 then (do spin_unlock; pure (0, val)) else do v ← dequeue; spin_unlock; pure (1, v)

-- Up to the lines that destroy the lock and free the queue
unfoldable pub queue_destroy : (fuel : ℕ) → Cmd (State Spinlock) (Unit {0})
queue_destroy fuel = drain fuel queue_get

unfoldable pub queue_print_stats : Cmd (State Spinlock) Stats
unfolding Calls.queue_print_stats
queue_print_stats = Calls.queue_print_stats

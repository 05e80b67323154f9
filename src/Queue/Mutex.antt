-- ===== src/Queue/Mutex.antt =====
-- task2/2.2/mutex/queue.c: each call holds the mutex of the queue while it tests and changes it.
pub mod Refines
pub mod Threads
use osi.Base.{ℕ, Bool, true, false, ◌==◌, if◌then◌else◌, le_int}
use osi.Chain.{null}
use osi.Machine.{Cmd, ok, stop, blocked, fault, pure, ◌>>=◌, ◌>>◌, modify, assert}
use osi.Queue.Store.{Queue, State, set_queue, get_queue, enqueue, dequeue, attempt_add, attempt_get}
use osi.Queue.Calls
use osi.Queue.Calls.{Stats, abort, drain}

-- Whether the mutex is held.
abbrev pub Mutex : Type 0
Mutex = Bool

-- A call that finds the mutex held waits: in the run of one thread nobody releases it.
unfoldable pub mutex_lock : Cmd (State Mutex) (Unit {0})
mutex_lock s = if s.lock then stop blocked else ok tt (record s { lock = true })

-- Unlocking a mutex that is not held is undefined.
unfoldable pub mutex_unlock : Cmd (State Mutex) (Unit {0})
mutex_unlock s = if s.lock then ok tt (record s { lock = false }) else stop fault

unfoldable pub queue_init : (allocated : Bool) (err max_count : ℕ) → Cmd (State Mutex) (Unit {0})
queue_init allocated err max_count =
    if allocated
    then (do
      modify (λ s. record s { lock = false })
      set_queue (λ q. record q { first = null })
      set_queue (λ q. record q { last = null })
      set_queue (λ q. record q { max_count = max_count })
      set_queue (λ q. record q { count = 0 })
      set_queue (λ q. record q { add_attempts = 0; get_attempts = 0 })
      set_queue (λ q. record q { add_count = 0; get_count = 0 })
      if err == 0 then pure tt else abort)
    else abort

unfoldable pub queue_add : (fresh val : ℕ) → Cmd (State Mutex) ℕ
unfolding mutex_lock mutex_unlock
queue_add fresh val = do
  attempt_add
  assert (λ s. le_int s.queue.count s.queue.max_count)
  mutex_lock
  q ← get_queue
  if q.count == q.max_count
      then (do mutex_unlock; pure 0)
      else if fresh == null
      then (do mutex_unlock; abort)
      else do enqueue fresh val; mutex_unlock; pure 1

unfoldable pub queue_get : (val : ℕ) → Cmd (State Mutex) (ℕ × ℕ)
unfolding mutex_lock mutex_unlock
queue_get val = do
  attempt_get
  mutex_lock
  assert (λ s. le_int 0 s.queue.count)
  q ← get_queue
  if q.count == 0
      then (do mutex_unlock; pure (0, val))
      else do v ← dequeue; mutex_unlock; pure (1, v)

-- Up to the lines that destroy the lock and free the queue
unfoldable pub queue_destroy : (fuel : ℕ) → Cmd (State Mutex) (Unit {0})
queue_destroy fuel = drain fuel queue_get

unfoldable pub queue_print_stats : Cmd (State Mutex) Stats
unfolding Calls.queue_print_stats
queue_print_stats = Calls.queue_print_stats

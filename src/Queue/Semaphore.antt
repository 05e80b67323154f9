-- ===== src/Queue/Semaphore.antt =====
-- task2/2.2/semaphore/queue.c: each call holds the only unit of the semaphore of the queue while it
-- tests and changes it.
pub mod Refines
pub mod Threads
use osi.Base.{ℕ, ◌+◌, ◌-◌, Bool, ◌==◌, if◌then◌else◌, le_int}
use osi.Chain.{null}
use osi.Machine.{Cmd, ok, stop, blocked, pure, ◌>>=◌, ◌>>◌, modify, assert}
use osi.Queue.Store.{Queue, State, set_queue, get_queue, enqueue, dequeue, attempt_add, attempt_get}
use osi.Queue.Calls
use osi.Queue.Calls.{Stats, abort, drain}

-- The value of the semaphore.
abbrev pub Semaphore : Type 0
Semaphore = ℕ

-- A call that finds the value 0 waits: in the run of one thread nobody posts.
unfoldable pub sem_wait : Cmd (State Semaphore) (Unit {0})
sem_wait s = if s.lock == 0 then stop blocked else ok tt (record s { lock = s.lock - 1 })

unfoldable pub sem_post : Cmd (State Semaphore) (Unit {0})
sem_post s = ok tt (record s { lock = s.lock + 1 })

unfoldable pub queue_init :
    (allocated : Bool) (err max_count : ℕ) → Cmd (State Semaphore) (Unit {0})
queue_init allocated err max_count =
    if allocated
    then (do
      modify (λ s. record s { lock = 1 })
      set_queue (λ q. record q { first = null })
      set_queue (λ q. record q { last = null })
      set_queue (λ q. record q { max_count = max_count })
      set_queue (λ q. record q { count = 0 })
      set_queue (λ q. record q { add_attempts = 0; get_attempts = 0 })
      set_queue (λ q. record q { add_count = 0; get_count = 0 })
      if err == 0 then pure tt else abort)
    else abort

unfoldable pub queue_add : (fresh val : ℕ) → Cmd (State Semaphore) ℕ
unfolding sem_wait sem_post
queue_add fresh val = do
  attempt_add
  assert (λ s. le_int s.queue.count s.queue.max_count)
  sem_wait
  q ← get_queue
  if q.count == q.max_count
      then (do sem_post; pure 0)
      else if fresh == null
      then (do sem_post; abort)
      else do enqueue fresh val; sem_post; pure 1

unfoldable pub queue_get : (val : ℕ) → Cmd (State Semaphore) (ℕ × ℕ)
unfolding sem_wait sem_post
queue_get val = do
  attempt_get
  assert (λ s. le_int 0 s.queue.count)
  sem_wait
  q ← get_queue
  if q.count == 0 then (do sem_post; pure (0, val)) else do v ← dequeue; sem_post; pure (1, v)

-- Up to the lines that destroy the lock and free the queue
unfoldable pub queue_destroy : (fuel : ℕ) → Cmd (State Semaphore) (Unit {0})
queue_destroy fuel = drain fuel queue_get

unfoldable pub queue_print_stats : Cmd (State Semaphore) Stats
unfolding Calls.queue_print_stats
queue_print_stats = Calls.queue_print_stats

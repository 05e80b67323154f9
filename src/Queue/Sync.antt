-- ===== src/Queue/Sync.antt =====
-- task2/2.2/sync/queue.c: the queue with no lock at all.
pub mod Refines
pub mod Race
pub mod Threads
pub mod Example
use osi.Base.{ℕ, Bool, ◌==◌, if◌then◌else◌, le_int}
use osi.Chain.{null}
use osi.Machine.{Cmd, pure, ◌>>=◌, ◌>>◌, assert}
use osi.Queue.Store.{Queue, State, set_queue, get_queue, enqueue, dequeue, attempt_add, attempt_get}
use osi.Queue.Calls
use osi.Queue.Calls.{Stats, abort, drain}

-- There is no lock.
abbrev pub Lock : Type 0
Lock = Unit {0}

unfoldable pub queue_init : (allocated : Bool) (err max_count : ℕ) → Cmd (State Lock) (Unit {0})
queue_init allocated err max_count =
    if allocated
    then (do
      set_queue (λ q. record q { first = null })
      set_queue (λ q. record q { last = null })
      set_queue (λ q. record q { max_count = max_count })
      set_queue (λ q. record q { count = 0 })
      set_queue (λ q. record q { add_attempts = 0; get_attempts = 0 })
      set_queue (λ q. record q { add_count = 0; get_count = 0 })
      if err == 0 then pure tt else abort)
    else abort

unfoldable pub queue_add : (fresh val : ℕ) → Cmd (State Lock) ℕ
queue_add fresh val = do
  attempt_add
  assert (λ s. le_int s.queue.count s.queue.max_count)
  q ← get_queue
  if q.count == q.max_count
      then pure 0
      else if fresh == null
      then abort
      else do enqueue fresh val; pure 1

unfoldable pub queue_get : (val : ℕ) → Cmd (State Lock) (ℕ × ℕ)
queue_get val = do
  attempt_get
  assert (λ s. le_int 0 s.queue.count)
  q ← get_queue
  if q.count == 0 then pure (0, val) else do v ← dequeue; pure (1, v)

-- Up to the line that frees the queue
unfoldable pub queue_destroy : (fuel : ℕ) → Cmd (State Lock) (Unit {0})
queue_destroy fuel = drain fuel queue_get

unfoldable pub queue_print_stats : Cmd (State Lock) Stats
unfolding Calls.queue_print_stats
queue_print_stats = Calls.queue_print_stats

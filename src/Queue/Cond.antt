-- ===== src/Queue/Cond.antt =====
-- task2/2.2/cond/queue.c: a call waits on a condition variable until it can go on. What the other
-- threads do while a call waits is the parameter `others`: `others k s` is the state in which its
-- `k`-th wait ends, with the mutex not yet taken again, or `none` if nobody ever wakes it up.
pub mod Refines
pub mod Threads
use osi.Base.{ℕ, zero, suc, ◌+◌, Bool, true, false, Option, none, some, ◌==◌, if◌then◌else◌, le_int}
use osi.Chain.{null}
use osi.Machine.{Cmd, ok, stop, blocked, fault, no_fuel, pure, ◌>>=◌, ◌>>◌, modify, assert}
use osi.Queue.Store.{Queue, State, set_queue, get_queue, enqueue, dequeue, attempt_add, attempt_get}
use osi.Queue.Calls
use osi.Queue.Calls.{Stats, abort, drain}

-- Whether the mutex is held, and how often each condition variable has been signalled.
pub record CondLock : Type 0 where
  pub mutex : Bool
  pub get_cond : ℕ
  pub add_cond : ℕ

abbrev pub set_mutex : Bool → State CondLock → State CondLock
set_mutex b s = record s { lock = record s.lock { mutex = b } }

unfoldable pub mutex_lock : Cmd (State CondLock) (Unit {0})
mutex_lock s = if s.lock.mutex then stop blocked else ok tt (set_mutex true s)

unfoldable pub mutex_unlock : Cmd (State CondLock) (Unit {0})
mutex_unlock s = if s.lock.mutex then ok tt (set_mutex false s) else stop fault

abbrev pub Others : Type 0
Others = ℕ → State CondLock → Option (State CondLock)

-- The wait gives the mutex up, and ends when it has it again.
unfoldable pub cond_wait : Others → ℕ → Cmd (State CondLock) (Unit {0})
unfolding mutex_unlock mutex_lock
cond_wait others k = do
  mutex_unlock
  λ s. elim (others k s) [ none ↦ stop blocked | some t ↦ ok tt t ]
  mutex_lock

abbrev pub signal_get : Cmd (State CondLock) (Unit {0})
signal_get = modify λ s. record s { lock = record s.lock { get_cond = s.lock.get_cond + 1 } }

abbrev pub signal_add : Cmd (State CondLock) (Unit {0})
signal_add = modify λ s. record s { lock = record s.lock { add_cond = s.lock.add_cond + 1 } }

-- The mutex and the condition variables are not initialised: they stay what `malloc` has left.
unfoldable pub queue_init : (allocated : Bool) (err max_count : ℕ) → Cmd (State CondLock) (Unit {0})
queue_init allocated err max_count =
    if allocated
    then (do
      set_queue (λ q. record q { first = null })
      set_queue (λ q. record q { last = null })
      set_queue (λ q. record q { max_count = max_count })
      set_queue (λ q. record q { count = 0 })
      set_queue (λ q. record q { add_attempts = 0; get_attempts = 0 })
      set_queue (λ q. record q { add_count = 0; get_count = 0 })
      if err == 0 then pure tt else abort)
    else abort

-- `while (q->count == q->max_count) pthread_cond_wait(&q->add_cond, &q->mutex);`
unfoldable pub wait_room : Others → (fuel k : ℕ) → Cmd (State CondLock) (Unit {0})
unfolding cond_wait
wait_room others zero k = λ _. stop no_fuel
wait_room others (suc fuel) k = do
  q ← get_queue
  if q.count == q.max_count then (do cond_wait others k; wait_room others fuel (suc k)) else pure tt

-- `while (q->count == 0) pthread_cond_wait(&q->get_cond, &q->mutex);`
unfoldable pub wait_item : Others → (fuel k : ℕ) → Cmd (State CondLock) (Unit {0})
unfolding cond_wait
wait_item others zero k = λ _. stop no_fuel
wait_item others (suc fuel) k = do
  q ← get_queue
  if q.count == 0 then (do cond_wait others k; wait_item others fuel (suc k)) else pure tt

unfoldable pub queue_add : Others → (fuel fresh val : ℕ) → Cmd (State CondLock) ℕ
unfolding mutex_lock mutex_unlock wait_room
queue_add others fuel fresh val = do
  attempt_add
  assert (λ s. le_int s.queue.count s.queue.max_count)
  mutex_lock
  wait_room others fuel 0
  if fresh == null then abort else do enqueue fresh val; signal_get; mutex_unlock; pure 1

unfoldable pub queue_get : Others → (fuel : ℕ) → Cmd (State CondLock) (ℕ × ℕ)
unfolding mutex_lock mutex_unlock wait_item
queue_get others fuel = do
  attempt_get
  mutex_lock
  assert (λ s. le_int 0 s.queue.count)
  wait_item others fuel 0
  v ← dequeue
  signal_add
  mutex_unlock
  pure (1, v)

-- Up to the lines that destroy the lock and free the queue
unfoldable pub queue_destroy : Others → (waits fuel : ℕ) → Cmd (State CondLock) (Unit {0})
queue_destroy others waits fuel = drain fuel (λ _. queue_get others waits)

unfoldable pub queue_print_stats : Cmd (State CondLock) Stats
unfolding Calls.queue_print_stats
queue_print_stats = Calls.queue_print_stats

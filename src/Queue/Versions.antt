-- ===== src/Queue/Versions.antt =====
-- The versions of the queue of task2/2.2 whose calls never wait for a condition, side by side.
use osi.Base.{ℕ, ◌≡◌, ◌≢◌, none}
use osi.Chain.{null}
use osi.Machine.{Returns}
use osi.Queue.Store.{State}
use osi.Queue.Spec.{Fifo, add, get}
use osi.Queue.Ends.{Represents}
use osi.Queue.Calls.{answer}
use osi.Queue.Mutex.{Mutex}
use osi.Queue.Spinlock.{Spinlock}
use osi.Queue.Semaphore.{Semaphore}
use osi.Queue.Sync.{Lock}
use osi.Queue.Threads.Run.{FifoQueue}
use osi.Queue.Mutex
use osi.Queue.Spinlock
use osi.Queue.Semaphore
use osi.Queue.Sync

pub data Version : Type 0 where
  mutex spinlock semaphore sync : Version

abbrev pub LockOf : Version → Type 0
LockOf mutex = Mutex
LockOf spinlock = Spinlock
LockOf semaphore = Semaphore
LockOf sync = Lock

abbrev pub queue_of : (v : Version) → FifoQueue (LockOf v)
queue_of mutex = Mutex.Threads.fifo_queue
queue_of spinlock = Spinlock.Threads.fifo_queue
queue_of semaphore = Semaphore.Threads.fifo_queue
queue_of sync = Sync.Threads.fifo_queue

-- In the versions with a mutex, a spinlock, a semaphore and without locks, on a heap that
-- represents a bounded queue, with the lock open, and if malloc answers an unused address that is
-- not NULL, queue_add and queue_get each return the answer of the abstract add and get, leave a
-- heap that represents what these leave, and the lock is open again.
pub calls-refine :
    (v : Version) (s : State (LockOf v)) (f : Fifo) (fresh val : ℕ)
    → Represents s.heap s.queue f
    → (queue_of v).Open s.lock
    → fresh ≢ null
    → s.heap fresh ≡ none
    → Returns
        (λ a t.
          (a ≡ (add val f).0) × Represents t.heap t.queue (add val f).1 × (queue_of v).Open t.lock)
        ((queue_of v).queue_add fresh val s)
      × Returns
          (λ a t.
            (a ≡ answer val (get f).0)
            × Represents t.heap t.queue (get f).1
            × (queue_of v).Open t.lock)
          ((queue_of v).queue_get val s)
calls-refine v s f fresh val rep o ne unused =
    ((queue_of v).add-refines s f fresh val rep o ne unused, (queue_of v).get-refines s f val rep o)

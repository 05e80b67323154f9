-- ===== src/Queue/Launch.antt =====
-- From `main` of queue-threads.c in task2/2.2 on, in the versions whose calls never wait for a condition.
use osi.Base.{ℕ, ◌≡◌, ◌≢◌, refl, true, none, [], ◌∷◌, arith}
use osi.Chain.{null}
use osi.Machine.{Cmd, ok, Returns, returns, Returns-and_then, Returns-ok}
use osi.Queue.Store.{State}
use osi.Queue.Spec.{empty}
use osi.Queue.Ends.{Represents}
use osi.Queue.Threads.{reader_turn, writer_turn}
use osi.Queue.Threads.Main.{Launched, reader, writer, queue_size, start_threads}
use osi.Queue.Threads.Run.{System, Reach, IsSound, InOrder, reader-never_errs}
use osi.Queue.Versions.{Version, mutex, spinlock, semaphore, sync, LockOf, queue_of}
use osi.Queue.Mutex
use osi.Queue.Mutex.Refines.{mutex_init-empty}
use osi.Queue.Spinlock
use osi.Queue.Spinlock.Refines.{spin_init-empty}
use osi.Queue.Semaphore
use osi.Queue.Semaphore.Refines.{sem_init-empty}
use osi.Queue.Sync
use osi.Queue.Sync.Refines.{sync_init-empty}

-- main with malloc and the monitor's thread in order
abbrev pub main_of : (v : Version) (pthread_create : ℕ → ℕ) → Cmd (State (LockOf v)) Launched
main_of mutex = Mutex.Threads.main true 0
main_of spinlock = Spinlock.Threads.main true 0
main_of semaphore = Semaphore.Threads.main true 0
main_of sync = Sync.Threads.main true 0

-- Both threads are started, on an empty queue whose lock is open.
abbrev Ready : (v : Version) → Launched → State (LockOf v) → Type 0
Ready v r t =
    (r.answer ≡ none)
    × (r.started ≡ reader ∷ writer ∷ [])
    × Represents t.heap t.queue (empty queue_size)
    × (queue_of v).Open t.lock

both :
    (pthread_create : ℕ → ℕ)
    → pthread_create 0 ≡ 0
    → pthread_create 1 ≡ 0
    → start_threads pthread_create ≡ record { answer = none; started = reader ∷ writer ∷ [] }
unfolding start_threads
both pthread_create first second = rw (first, second) refl

main-Ready :
    (v : Version) (pthread_create : ℕ → ℕ) (s : State (LockOf v))
    → pthread_create 0 ≡ 0
    → pthread_create 1 ≡ 0
    → Returns (Ready v) (main_of v pthread_create s)
unfolding Mutex.Threads.main Spinlock.Threads.main Semaphore.Threads.main Sync.Threads.main
main-Ready mutex pthread_create s first second =
    Returns-and_then (mutex_init-empty s queue_size (omega arith))
      λ _ t (rep, o). rw (both pthread_create first second) (returns (refl, refl, rep, o))
main-Ready spinlock pthread_create s first second =
    Returns-and_then (spin_init-empty s queue_size (omega arith))
      λ _ t (rep, o). rw (both pthread_create first second) (returns (refl, refl, rep, o))
main-Ready semaphore pthread_create s first second =
    Returns-and_then (sem_init-empty s queue_size (omega arith))
      λ _ t (rep, o). rw (both pthread_create first second) (returns (refl, refl, rep, o))
main-Ready sync pthread_create s first second =
    Returns-and_then (sync_init-empty s queue_size (omega arith))
      λ _ t rep. rw (both pthread_create first second) (returns (refl, refl, rep, tt))

-- Before their first turns, the reader expects 0 and the writer has written nothing.
abbrev pub begun : (v : Version) → State (LockOf v) → System (queue_of v)
begun v t = record { state = t; reader = record { expected = 0; errors = [] }; i = 0 }

begun-InOrder :
    (v : Version) (t : State (LockOf v))
    → Represents t.heap t.queue (empty queue_size)
    → (queue_of v).Open t.lock
    → InOrder (queue_of v) (begun v t)
begun-InOrder v t rep o = record {
  fifo = empty queue_size;
  represents = rep;
  is_open = o;
  values = refl;
  silent = refl;
}

-- In the versions with a mutex, a spinlock, a semaphore and without locks, if malloc and
-- pthread_create succeed in main, which starts both threads and ends, then after any interleaving
-- of whole turns of the reader and the writer the reader has printed nothing, and a next turn of
-- either, where malloc answers an unused address that is not NULL, returns and leaves a queue with
-- its lock open.
pub main-never_errs :
    (v : Version) (pthread_create : ℕ → ℕ) (s t : State (LockOf v)) (r : Launched)
    (b : System (queue_of v)) (fresh : ℕ)
    → pthread_create 0 ≡ 0
    → pthread_create 1 ≡ 0
    → main_of v pthread_create s ≡ ok r t
    → Reach (queue_of v) (begun v t) b
    → fresh ≢ null
    → b.state.heap fresh ≡ none
    → (r.started ≡ reader ∷ writer ∷ [])
      × (b.reader.errors ≡ [])
      × Returns
          (λ _ u. IsSound (queue_of v) u)
          (reader_turn ((queue_of v).queue_get) b.reader b.state)
      × Returns
          (λ _ u. IsSound (queue_of v) u)
          (writer_turn ((queue_of v).queue_add) fresh b.i b.state)
main-never_errs v pthread_create s t r b fresh first second e reach ne unused =
    let (ended, started, rep, o) = Returns-ok _ (main-Ready v pthread_create s first second) e in
    let (silent, reads, writes) =
      reader-never_errs (queue_of v) (begun v t) b fresh (begun-InOrder v t rep o) reach ne
        unused in
    (started, silent, reads, writes)

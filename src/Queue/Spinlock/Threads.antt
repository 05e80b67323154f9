-- ===== src/Queue/Spinlock/Threads.antt =====
-- The threads of task2/2.2/spinlock/queue-threads.c.
use osi.Base.{ℕ, ◌≡◌, false, Bool}
use osi.Machine.{Cmd}
use osi.Queue.Store.{State}
use osi.Queue.Threads
use osi.Queue.Threads.{Reader}
use osi.Queue.Threads.Main
use osi.Queue.Threads.Main.{Launched}
use osi.Queue.Threads.Run.{FifoQueue}
use osi.Queue.Spinlock.{Spinlock, queue_init, queue_add, queue_get}
use osi.Queue.Spinlock.Refines.{spin_add-refines, spin_get-refines}

-- The interface of the threads, for this version
abbrev pub fifo_queue : FifoQueue Spinlock
fifo_queue = record {
  Open = λ l. l ≡ false;
  queue_add = queue_add;
  queue_get = queue_get;
  add-refines = λ s f fresh v r o ne unused. spin_add-refines s f r o fresh v ne unused;
  get-refines = λ s f val r o. spin_get-refines s f r o val;
}

unfoldable pub reader_turn : Reader → Cmd (State Spinlock) Reader
unfolding Threads.reader_turn
reader_turn = Threads.reader_turn queue_get

unfoldable pub writer_turn : (fresh i : ℕ) → Cmd (State Spinlock) ℕ
unfolding Threads.writer_turn
writer_turn = Threads.writer_turn queue_add

unfoldable pub main :
    (allocated : Bool) (err : ℕ) (pthread_create : ℕ → ℕ) → Cmd (State Spinlock) Launched
unfolding Main.main
main allocated err pthread_create = Main.main (queue_init allocated err) pthread_create

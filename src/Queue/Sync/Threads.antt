-- ===== src/Queue/Sync/Threads.antt =====
-- The threads of task2/2.2/sync/queue-threads.c.
use osi.Base.{ℕ, Bool}
use osi.Machine.{Cmd, Returns-mono}
use osi.Queue.Store.{State}
use osi.Queue.Threads
use osi.Queue.Threads.{Reader}
use osi.Queue.Threads.Main
use osi.Queue.Threads.Main.{Launched}
use osi.Queue.Threads.Run.{FifoQueue}
use osi.Queue.Sync.{Lock, queue_init, queue_add, queue_get}
use osi.Queue.Sync.Refines.{sync_add-refines, sync_get-refines}

-- The interface of the threads, for this version
abbrev pub fifo_queue : FifoQueue Lock
fifo_queue = record {
  Open = λ _. Unit {0};
  queue_add = queue_add;
  queue_get = queue_get;
  add-refines = λ s f fresh v r _ ne unused.
      Returns-mono (sync_add-refines s f r fresh v ne unused)
        λ _ t (same, after). (same, after, tt);
  get-refines = λ s f val r _.
      Returns-mono (sync_get-refines s f r val) λ _ t (same, after). (same, after, tt);
}

unfoldable pub reader_turn : Reader → Cmd (State Lock) Reader
unfolding Threads.reader_turn
reader_turn = Threads.reader_turn queue_get

unfoldable pub writer_turn : (fresh i : ℕ) → Cmd (State Lock) ℕ
unfolding Threads.writer_turn
writer_turn = Threads.writer_turn queue_add

unfoldable pub main :
    (allocated : Bool) (err : ℕ) (pthread_create : ℕ → ℕ) → Cmd (State Lock) Launched
unfolding Main.main
main allocated err pthread_create = Main.main (queue_init allocated err) pthread_create

-- ===== src/Queue/Cond/Threads.antt =====
-- The threads of task2/2.2/cond/queue-threads.c.
use osi.Base.{ℕ, Bool}
use osi.Machine.{Cmd}
use osi.Queue.Store.{State}
use osi.Queue.Threads
use osi.Queue.Threads.{Reader}
use osi.Queue.Threads.Main
use osi.Queue.Threads.Main.{Launched}
use osi.Queue.Cond.{CondLock, Others, queue_init, queue_add, queue_get}

unfoldable pub reader_turn : Others → (fuel : ℕ) → Reader → Cmd (State CondLock) Reader
unfolding Threads.reader_turn
reader_turn others fuel = Threads.reader_turn λ _. queue_get others fuel

unfoldable pub writer_turn : Others → (fuel fresh i : ℕ) → Cmd (State CondLock) ℕ
unfolding Threads.writer_turn
writer_turn others fuel = Threads.writer_turn (queue_add others fuel)

unfoldable pub main :
    (allocated : Bool) (err : ℕ) (pthread_create : ℕ → ℕ) → Cmd (State CondLock) Launched
unfolding Main.main
main allocated err pthread_create = Main.main (queue_init allocated err) pthread_create

-- ===== src/Queue/Threads/Main.antt =====
-- `main` of queue-threads.c in task2/2.2, over any queue with `queue_init`, up to `pthread_exit`.
use osi.Base.{ℕ, Option, none, some, List, [], ◌∷◌, ◌==◌, if◌then◌else◌}
use osi.Machine.{Cmd, pure, ◌>>◌}
use osi.Queue.Store.{State}
use osi.Queue.Calls.{minus_one}

pub data Thread : Type 0 where
  reader writer : Thread

-- What main has answered, if it did not end by `pthread_exit`, and the threads it has started
pub record Launched : Type 0 where
  pub answer : Option ℕ
  pub started : List Thread

-- `pthread_create` answers `pthread_create k` to its `k`-th call.
unfoldable pub start_threads : (pthread_create : ℕ → ℕ) → Launched
start_threads pthread_create =
    if pthread_create 0 == 0
    then if pthread_create 1 == 0
      then record { answer = none; started = reader ∷ writer ∷ [] }
      else record { answer = some minus_one; started = reader ∷ [] }
    else record { answer = some minus_one; started = [] }

abbrev pub queue_size : ℕ
queue_size = 1000000

module _ {L : Type 0} where
  unfoldable pub main :
      (queue_init : (max_count : ℕ) → Cmd (State L) (Unit {0})) (pthread_create : ℕ → ℕ)
      → Cmd (State L) Launched
  unfolding start_threads
  main queue_init pthread_create = do queue_init queue_size; pure (start_threads pthread_create)

-- ===== src/Queue/Sync/Example.antt =====
-- `main` of task2/2.2/sync/queue-example.c.
pub mod Kept
pub mod Prints
use osi.Base.{ℕ, zero, suc, Bool, List, [], ◌∷◌, ◌++◌}
use osi.Machine.{Cmd, pure, ◌>>=◌, ◌>>◌}
use osi.Queue.Store.{State}
use osi.Queue.Calls.{Stats, minus_one}
use osi.Queue.Sync.{Lock, queue_init, queue_add, queue_get, queue_print_stats}

-- What a round of one of the loops prints: `ok`, the value, and the statistics
pub record Round : Type 0 where
  pub ok : ℕ
  pub val : ℕ
  pub stats : Stats

-- `n` more rounds of the first loop, from `i` on; malloc answers `fresh i` in the round of `i`.
unfoldable pub add_rounds : (fresh : ℕ → ℕ) (n i : ℕ) → Cmd (State Lock) (List Round)
unfolding queue_add queue_print_stats
add_rounds fresh zero i = pure []
add_rounds fresh (suc n) i = do
  ok ← queue_add (fresh i) i
  stats ← queue_print_stats
  rounds ← add_rounds fresh n (suc i)
  pure (record { ok = ok; val = i; stats = stats } ∷ rounds)

unfoldable pub get_rounds : (n : ℕ) → Cmd (State Lock) (List Round)
unfolding queue_get queue_print_stats
get_rounds zero = pure []
get_rounds (suc n) = do
  (ok, val) ← queue_get minus_one
  stats ← queue_print_stats
  rounds ← get_rounds n
  pure (record { ok = ok; val = val; stats = stats } ∷ rounds)

-- main with its three constants as arguments, and what it prints
unfoldable pub run :
    (max_count adds gets : ℕ) (allocated : Bool) (err : ℕ) (fresh : ℕ → ℕ)
    → Cmd (State Lock) (List Round)
unfolding queue_init add_rounds get_rounds
run max_count adds gets allocated err fresh = do
  queue_init allocated err max_count
  added ← add_rounds fresh adds 0
  got ← get_rounds gets
  pure (added ++ got)

unfoldable pub main : (allocated : Bool) (err : ℕ) (fresh : ℕ → ℕ) → Cmd (State Lock) (List Round)
unfolding run
main = run 1000 10 12

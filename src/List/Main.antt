-- ===== src/List/Main.antt =====
-- `main` of list-threads.c in task2/2.3, the same in its three versions, up to `pthread_exit`.
pub mod Starts
use osi.Base.{ℕ, zero, suc, Option, none, some, List, [], ◌∷◌, ◌++◌, ◌==◌, if◌then◌else◌}
use osi.Chain.{Ptr}
use osi.Machine.{Cmd, pure, ◌>>=◌, ◌>>◌}
use osi.List.Store.{State, list_init, minus_one}
use osi.List.Fill.{fill_list, first_arr}
use osi.List.Threads.{Operation, is_more, is_less, is_equal}

abbrev pub list_size : ℕ
list_size = 100000

-- What a thread runs: thread_comparision with an operation, or swap_threads
pub data Thread : Type 0 where
  compares : Operation → Thread
  swaps : Thread

-- What main has answered, if it did not end by `pthread_exit`, and the threads it has started
pub record Launched : Type 0 where
  pub answer : Option ℕ
  pub started : List Thread

-- `pthread_create` has started the thread if it answers 0.
abbrev pub started_if : (err : ℕ) → Thread → List Thread
started_if err thread = if err == 0 then thread ∷ [] else []

-- The loop that starts `n` more threads; its calls of `pthread_create` begin with the `k`-th.
unfoldable pub start_swaps : (pthread_create : ℕ → ℕ) (n k : ℕ) → List Thread → Launched
start_swaps pthread_create zero k started = record { answer = none; started = started }
start_swaps pthread_create (suc n) k started =
    let rest = start_swaps pthread_create n (suc k) (started ++ swaps ∷ []) in
    if pthread_create k == 0 then rest else record { answer = some minus_one; started = started }

-- `pthread_create` answers `pthread_create k` to its `k`-th call.
unfoldable pub start_threads : (pthread_create : ℕ → ℕ) → Launched
unfolding start_swaps
start_threads pthread_create =
    let started =
      started_if (pthread_create 0) (compares is_more)
      ++ started_if (pthread_create 1) (compares is_less)
      ++ started_if (pthread_create 2) (compares is_equal) in
    let loop = start_swaps pthread_create 3 3 started in
    if pthread_create 2 == 0 then loop else record { answer = some minus_one; started = started }

module _ {L : Type 0} where
  -- main with the size of its list as an argument
  unfoldable pub launch :
      (size : ℕ) (allocated : Ptr) (err : ℕ) (unlocked : L) (fresh : ℕ → Ptr) (junk : ℕ)
      (pthread_create : ℕ → ℕ) (fuel : ℕ)
      → Cmd (State L) Launched
  unfolding list_init fill_list start_threads
  launch size allocated err unlocked fresh junk pthread_create fuel = do
    list_init allocated err size
    fill_list unlocked fresh junk size fuel 0 0 first_arr
    pure (start_threads pthread_create)

  unfoldable pub main :
      (allocated : Ptr) (err : ℕ) (unlocked : L) (fresh : ℕ → Ptr) (junk : ℕ)
      (pthread_create : ℕ → ℕ) (fuel : ℕ)
      → Cmd (State L) Launched
  unfolding launch
  main = launch list_size

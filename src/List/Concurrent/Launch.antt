-- ===== src/List/Concurrent/Launch.antt =====
-- The threads of task2/2.3/mutex/list-threads.c on the list that main has made.
use osi.Base.{false, ℕ, suc, ◌≤◌, ◌<◌, ◌≡◌, ◌≢◌, none, [], ◌∷◌, arith, int_max}
use osi.Chain
use osi.Chain.{Ptr, null}
use osi.Machine.{ok, Returns-ok}
use osi.List.Store.{Item, State}
use osi.List.Mutex.{Mutex}
use osi.List.Fill.Fills.{Filled}
use osi.List.Main.{Launched, launch}
use osi.List.Main.Starts.{launch-Left}
use osi.List.Threads.Steps.{Work}
use osi.List.Concurrent.{System, Step, Reach}
use osi.List.Concurrent.Start.{Free, start, start-Step}

abbrev free_mutex : Mutex
free_mutex = record { held = false }

Filled-Free : (i : ℕ) (cells : Chain.Cells (Item Mutex)) → Filled free_mutex i cells → Free cells
Filled-Free i [] filled = tt
Filled-Free i ((p, v) ∷ cells) filled = (filled.0, Filled-Free (suc i) cells filled.2)

-- If main of the mutex version, with the size of its list as an argument, a non-negative int, and
-- with a malloc that answers addresses that are not NULL, for the nodes different unused ones, and
-- a monitor that starts, ends with a list, and fewer threads than it has nodes, but at least one,
-- begin at its first node, each to compare or to run swap_threads with random numbers other than 1,
-- then in any state that they reach by steps in any order some thread can make a step: they do not
-- block each other for ever.
pub launch-Step :
    (size n : ℕ) (works : ℕ → Work) (allocated : Ptr) (fresh : ℕ → Ptr) (junk : ℕ)
    (pthread_create : ℕ → ℕ) (fuel : ℕ) (s t : State Mutex) (r : Launched) (b : System)
    → size ≤ int_max
    → allocated ≢ null
    → ((j k : ℕ) → j < k → k < size → fresh j ≢ fresh k)
    → ((j : ℕ) → j < size → (fresh j ≢ null) × (s.heap (fresh j) ≡ none))
    → size < fuel
    → launch size allocated 0 free_mutex fresh junk pthread_create fuel s ≡ ok r t
    → 0 < n
    → n < size
    → Reach n works (start t) b
    → (c : System) × Step n works b c
launch-Step size n works allocated fresh junk pthread_create fuel s t r b small ne apart free enough
      e some_thread fewer reach =
    let (same, (cells, is, count, filled)) =
      Returns-ok _
        (launch-Left size small allocated free_mutex fresh junk pthread_create fuel s ne apart free
          enough)
        e in
    start-Step n works t cells is (Filled-Free 0 cells filled) (omega (arith, count)) b reach
      some_thread (omega (arith, count))

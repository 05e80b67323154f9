-- ===== src/List/Concurrent/Examples.antt =====
-- The theorems about threads at two of them on a list of four nodes with mutexes, and what
-- two of them do on a list of two nodes.
use osi.Base.{
  inc_int, le_int, false, ℕ, ◌≡◌, ◌+◌, ◌≤◌, refl, none, some, [], ◌∷◌, ◌==◌, arith, if◌then◌else◌,
  true,
}
use osi.Chain
use osi.Chain.{node, write}
use osi.Machine.{Outcome, ok, stop, blocked, fault, Returns, ◌>>=◌}
use osi.List.Store.{State, Item}
use osi.List.Laws.{IsList}
use osi.List.Threads.Races.{Lockable, swap_turn-races}
use osi.List.Mutex.{Mutex, node_lock, take, release, release}
use osi.List.Threads.{followed, exchange, swap_turn, is_more}
use osi.List.Threads.Steps.{
  Work, compares, moves, compare_nodes, count_end, locked, advance, take_next,
}
use osi.List.Concurrent.{System, Step, Reach, here, run, run-Reach, reached}
use osi.List.Concurrent.Family.{holds}
use osi.List.Concurrent.Moves.{Fair}
use osi.List.Concurrent.Start.{start, start-Fair}
use osi.List.Concurrent.Launch.{launch-Step}
use osi.List.Main.{Launched, launch, start_threads, start_swaps}
use osi.List.Fill.{text, set_at}
use osi.List.Examples.{item, lists, four, state, four-IsList}

abbrev ops : ℕ → Work
ops i = if i == 0 then compares is_more else moves

-- Both threads begin at the first node. Thread 0 goes to the second and gives both locks back, then
-- thread 1 does the same, and thread 0 takes the lock of the second one again.
abbrev ran : System
ran = reached (start state) (run 2 ops (0 ∷ 0 ∷ 0 ∷ 0 ∷ 1 ∷ 1 ∷ 1 ∷ 0 ∷ []) (start state))

ran-Reach : Reach 2 ops (start state) ran
unfolding advance take_next compare_nodes count_end take release
ran-Reach =
    run-Reach 2 ops (0 ∷ 0 ∷ 0 ∷ 0 ∷ 1 ∷ 1 ∷ 1 ∷ 0 ∷ []) (start state) (start state) ran here refl

ran_pc : ran.pc 0 ≡ locked 2
unfolding advance take_next compare_nodes count_end take release
ran_pc = refl

start-Fair_example :
    (holds 1 (ran.pc 0) + holds 1 (ran.pc 1) ≤ 1)
    × Fair (λ _ _. Unit) (advance node_lock (ops 0) (ran.pc 0) ran.state)
start-Fair_example =
    start-Fair 2 ops state four four-IsList (refl, (refl, (refl, (refl, tt)))) (omega arith) ran
      ran-Reach 0 1 1 (omega arith) (omega arith) (ground arith)

-- On a list of two nodes, two threads can wait for each other.
abbrev two : System
two = start (record {
  heap = write (write (λ _. none) 2 (some (node (item 20) 0))) 1 (some (node (item 10) 2));
  list = lists 2 2;
})

abbrev deadlocked : System
deadlocked = reached two (run 2 ops (0 ∷ 0 ∷ 0 ∷ 0 ∷ 0 ∷ 1 ∷ []) two)

deadlocked_all :
    (run 2 ops (0 ∷ 0 ∷ 0 ∷ 0 ∷ 0 ∷ 1 ∷ []) two ≡ some deadlocked)
    × (advance node_lock (ops 0) (deadlocked.pc 0) deadlocked.state ≡ stop blocked)
    × (advance node_lock (ops 1) (deadlocked.pc 1) deadlocked.state ≡ stop blocked)
unfolding advance take_next compare_nodes count_end take release
deadlocked_all = (refl, refl, refl)

-- A list of five nodes
abbrev five : Chain.Cells (Item Mutex)
five = (1, item 10) ∷ (2, item 20) ∷ (3, item 30) ∷ (4, item 40) ∷ (5, item 50) ∷ []

abbrev state_five : State Mutex
state_five = record {
  heap =
      write
        (write
          (write (write (write (λ _. none) 5 (some (node (item 50) 0))) 4 (some (node (item 40) 5)))
            3 (some (node (item 30) 4)))
          2 (some (node (item 20) 3)))
        1 (some (node (item 10) 2));
  list = lists 5 5;
}

five-IsList : IsList state_five.heap state_five.list five
five-IsList = record {
  first = refl;
  last = refl;
  linked = (
    ground arith,
    refl,
    refl,
    (
      ground arith,
      refl,
      refl,
      (ground arith, refl, refl, (ground arith, refl, refl, (ground arith, refl, refl, tt))),
    ),
  );
  count = refl;
  room = omega arith;
  small = omega arith;
}

item-Lockable : (v : ℕ) → Lockable node_lock (item v)
unfolding take
item-Lockable v = ((record { held = true }, refl), (record { held = true }, refl))

swap_turn-races_example :
    (followed node_lock 3 2 state_five ≡ ok true state_five)
    × Returns
        (λ _ t. exchange node_lock 2 t ≡ stop fault)
        ((swap_turn node_lock 1 1 >>= swap_turn node_lock 1) state_five)
swap_turn-races_example =
    swap_turn-races node_lock state_five [] 1 2 3 4 5 (item 10) (item 20) (item 30) (item 40)
      (item 50) five-IsList (item-Lockable 10) (item-Lockable 20) (item-Lockable 30)
      (item-Lockable 40) (item-Lockable 50)

-- A list of three nodes that main makes, at 1, 2 and 3
abbrev nothing : State Mutex
nothing = record { heap = λ _. none; list = lists 0 0 }

abbrev state_of : {A : Type 0} → Outcome (State Mutex) A → State Mutex
state_of (ok a s) = s
state_of (stop x) = nothing

abbrev made : Outcome (State Mutex) Launched
made = launch 3 9 0 (record { held = false }) (λ j. j + 1) 7 (λ _. 0) 4 nothing

abbrev made_run : System
made_run = reached (start (state_of made)) (run 2 ops (0 ∷ 0 ∷ []) (start (state_of made)))

made_run-Reach : Reach 2 ops (start (state_of made)) made_run
unfolding launch text set_at inc_int le_int advance take_next compare_nodes count_end take
made_run-Reach =
    run-Reach 2 ops (0 ∷ 0 ∷ []) (start (state_of made)) (start (state_of made)) made_run here refl

launch-Step_example : (c : System) × Step 2 ops made_run c
unfolding launch text set_at inc_int le_int start_threads start_swaps
launch-Step_example =
    launch-Step 3 2 ops 9 (λ j. j + 1) 7 (λ _. 0) 4 nothing (state_of made) (start_threads (λ _. 0))
      made_run (omega arith) (omega arith) (λ j k less below. omega arith)
      (λ j below. (omega arith, refl)) (omega arith) refl (omega arith) (omega arith) made_run-Reach

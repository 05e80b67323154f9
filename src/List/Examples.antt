-- ===== src/List/Examples.antt =====
-- The theorems about the list of task2/2.3 at a list of four nodes with mutexes.
use osi.Base.{
  true, ◌≡◌, refl, false, none, some, [], ◌∷◌, ◌++◌, ◌==◌, arith, if◌then◌else◌, length, ℕ, ◌+◌,
}
use osi.Chain
use osi.Chain.{node, write}
use osi.Machine.{Returns}
use osi.List.Store
use osi.List.Store.{Item, Lists, list_add_last, list_get, list_get_first, list_destroy, swap_nodes}
use osi.List.Mutex.{Mutex, node_lock, take}
use osi.List.Main.{compares, swaps, list_size, main}
use osi.List.Main.Starts.{main-starts}
use osi.List.Fill.Fills.{Filled}
use osi.List.Threads.{is_more, is_less, is_equal, add_one, compare_turns, swap_turn}
use osi.List.Threads.Exchange.{swap_turn-exchanges}
use osi.List.Laws.{IsList, swap_nodes-exchanges}
use osi.List.Threads
use osi.List.Spinlock
use osi.List.Spinlock.{Spinlock}
use osi.List.Spinlock.Threads.{compare_turn-same}
use osi.List.Ends.{list_add_last-appends}
use osi.List.Front.{Destroyed, list_destroy-frees}

abbrev pub item : ℕ → Item Mutex
item v = record { val = v; string = 1 ∷ []; lock = record { held = false } }

abbrev pub lists : ℕ → ℕ → Lists
lists last count = record {
  first = 1;
  last = last;
  count_equal = 0;
  count_less = 0;
  count_more = 0;
  count = count;
  max_count = 5;
  swap_count = 0;
}

abbrev pub four : Chain.Cells (Item Mutex)
four = (1, item 10) ∷ (2, item 20) ∷ (3, item 30) ∷ (4, item 40) ∷ []

abbrev heap : Chain.Heap (Item Mutex)
heap =
    write
      (write (write (write (λ _. none) 4 (some (node (item 40) 0))) 3 (some (node (item 30) 4))) 2
        (some (node (item 20) 3)))
      1 (some (node (item 10) 2))

abbrev pub state : Store.State Mutex
state = record { heap = heap; list = lists 4 4 }

abbrev single : Store.State Mutex
single = record { heap = write (λ _. none) 1 (some (node (item 10) 0)); list = lists 1 1 }

pub four-IsList : IsList heap (lists 4 4) four
four-IsList = record {
  first = refl;
  last = refl;
  linked = (
    ground arith,
    refl,
    refl,
    (ground arith, refl, refl, (ground arith, refl, refl, (ground arith, refl, refl, tt))),
  );
  count = refl;
  room = omega arith;
  small = omega arith;
}

single-IsList : IsList single.heap single.list ((1, item 10) ∷ [])
single-IsList = record {
  first = refl;
  last = refl;
  linked = (ground arith, refl, refl, tt);
  count = refl;
  room = omega arith;
  small = omega arith;
}

list_add_last-appends_example :
    Returns
      (λ a t.
        if length four == 5
        then (a ≡ 0) × (t ≡ state)
        else (a ≡ 1)
          × IsList t.heap t.list (
              four
              ++ (9, record { val = 7; string = 1 ∷ 1 ∷ []; lock = record { held = false } }) ∷ [])
          × (t.list.swap_count ≡ 0))
      (list_add_last (record { held = false }) 9 7 (1 ∷ 1 ∷ []) state)
list_add_last-appends_example =
    list_add_last-appends state four (record { held = false }) 9 7 (1 ∷ 1 ∷ []) four-IsList
      (ground arith) refl (ground arith)

list_destroy-frees_example : Returns (λ _. Destroyed state four) (list_destroy 5 state)
list_destroy-frees_example =
    list_destroy-frees state four four-IsList.linked refl (omega arith) (omega arith)

swap_nodes-exchanges_example :
    Returns
      (λ _ t.
        IsList t.heap t.list ((1, item 10) ∷ (3, item 30) ∷ (2, item 20) ∷ (4, item 40) ∷ [])
        × (t.list ≡ lists 4 4))
      (swap_nodes 2 3 1 state)
swap_nodes-exchanges_example =
    swap_nodes-exchanges state [] 1 2 3 4 (item 10) (item 20) (item 30) (item 40) [] four-IsList

abbrev taken : Mutex
taken = record { held = true }

swap_turn-exchanges_example :
    Returns
      (λ iter t.
        (iter ≡ 3)
        × IsList t.heap t.list ((1, item 10) ∷ (3, item 30) ∷ (2, item 20) ∷ (4, item 40) ∷ [])
        × (t.list ≡ lists 4 4))
      (swap_turn node_lock 1 1 state)
unfolding take
swap_turn-exchanges_example =
    swap_turn-exchanges node_lock state [] 1 2 3 4 (item 10) (item 20) (item 30) (item 40) [] taken
      taken taken taken taken four-IsList refl refl refl refl refl

-- The last of two nodes with spinlocks
abbrev spin_item : ℕ → Item Spinlock
spin_item v = record { val = v; string = 1 ∷ []; lock = record { held = false } }

abbrev spun : Store.State Spinlock
spun = record {
  heap =
      write (write (λ _. none) 2 (some (node (spin_item 20) 0))) 1 (some (node (spin_item 10) 2));
  list = lists 2 2;
}

compare_turn-same_example :
    Spinlock.Threads.compare_turn is_more 2 spun
    ≡ Threads.compare_turn Spinlock.Threads.node_lock is_more 2 spun
compare_turn-same_example = compare_turn-same is_more 2 spun

-- Before main, with nothing on the heap; the first call of pthread_create fails.
abbrev nothing : Store.State Mutex
nothing = record { heap = λ _. none; list = lists 0 0 }

abbrev fails_first : ℕ → ℕ
fails_first k = if k == 0 then 11 else 0

main-starts_example :
    Returns
      (λ r t.
        (r.answer ≡ none)
        × (r.started ≡ compares is_less ∷ compares is_equal ∷ swaps ∷ swaps ∷ swaps ∷ [])
        × ((cells : Chain.Cells (Item Mutex)) × IsList t.heap t.list cells
            × (length cells ≡ list_size)
            × Filled (record { held = false }) 0 cells))
      (main 8 0 (record { held = false }) (λ j. j + 1) 7 fails_first 100001 nothing)
main-starts_example =
    main-starts 8 (record { held = false }) (λ j. j + 1) 7 fails_first 100001 nothing (omega arith)
      (λ j k less below. omega arith) (λ j below. (omega arith, refl)) (λ k le. ground arith)
      (omega arith)

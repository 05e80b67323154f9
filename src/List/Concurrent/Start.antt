-- ===== src/List/Concurrent/Start.antt =====
-- The threads of task2/2.3/mutex/list-threads.c from where `pthread_create` starts them, on
-- a list that fill_list has made.
use osi.Base.{
  ℕ, zero, suc, ◌+◌, ◌≤◌, ◌<◌, ◌≡◌, refl, ◌≢◌, ◌∙◌, ap, sym, true, false, some, List, [], ◌∷◌, ◌==◌,
  ==_iff, arith, Bool-cases, ◌⊎◌, inl, inr, length,
}
use mathlib.Core.Path.{subst}
use osi.Chain
use osi.Chain.{Ptr, node, has, head_ptr, Linked}
use osi.Machine.{Outcome, ok, stop, blocked}
use osi.List.Store.{Item, State}
use osi.List.Mutex.{Mutex, node_lock}
use osi.List.Laws.{IsList}
use osi.List.Threads.Steps.{Work, Pc, starts, advance}
use osi.List.Concurrent.{System, Step, picks, Reach}
use osi.List.Concurrent.Family.{total, holds, two-total}
use osi.List.Concurrent.Ring.{mem, first_of, next_of, Nodes}
use osi.List.Concurrent.Invariant.{Inv}
use osi.List.Concurrent.Moves.{Fair, goes, waits}
use osi.List.Concurrent.Runs.{held_once, advance-Fair, Reach-Inv}
use osi.List.Concurrent.Progress.{blocked-IsStuck, all_stuck}

abbrev pub addresses : Chain.Cells (Item Mutex) → List Ptr
addresses [] = []
addresses ((p, v) ∷ cells) = p ∷ addresses cells

-- No lock of a node is held.
abbrev pub Free : Chain.Cells (Item Mutex) → Type 0
Free [] = Unit
Free ((p, v) ∷ cells) = (v.lock ≡ record { held = false }) × Free cells

-- Every thread begins with `iter = list->first`.
abbrev pub start : State Mutex → System
start s = record { state = s; pc = λ i. starts s.list.first }

mem-addresses : (p : Ptr) (cells : Chain.Cells (Item Mutex)) → mem p (addresses cells) ≡ has p cells
mem-addresses p [] = refl
mem-addresses p ((q, v) ∷ cells) = ground (arith, mem-addresses p cells)

first-addresses : (cells : Chain.Cells (Item Mutex)) → first_of (addresses cells) ≡ head_ptr cells
first-addresses [] = refl
first-addresses ((p, v) ∷ cells) = refl

length-addresses : (cells : Chain.Cells (Item Mutex)) → length (addresses cells) ≡ length cells
length-addresses [] = refl
length-addresses (c ∷ cells) = ap suc (length-addresses cells)

Linked-Nodes :
    (h : Chain.Heap (Item Mutex)) (cells : Chain.Cells (Item Mutex))
    → Linked h cells
    → Nodes (addresses cells)
Linked-Nodes h [] l = tt
Linked-Nodes h ((p, v) ∷ cells) l = (l.0, mem-addresses p cells ∙ l.2, Linked-Nodes h cells l.3)

-- a free node of the list
abbrev FreeAt : Chain.Heap (Item Mutex) → List Ptr → Ptr → Type 0
FreeAt h xs q =
    (v : Item Mutex) × (h q
      ≡ some (node (record v { lock = record { held = false } }) (next_of xs q)))

first_free :
    (h : Chain.Heap (Item Mutex)) (p : Ptr) (v : Item Mutex) (cells : Chain.Cells (Item Mutex))
    → h p ≡ some (node v (head_ptr cells))
    → v.lock ≡ record { held = false }
    → h p ≡ some (node (record v { lock = record { held = false } }) (first_of (addresses cells)))
first_free h p v cells e free =
    e
    ∙ ap (λ (m : Mutex). some (node (record v { lock = m }) (head_ptr cells))) free
    ∙ ap (λ (x : Ptr). some (node (record v { lock = record { held = false } }) x))
        (sym (first-addresses cells))

Linked-Free :
    (h : Chain.Heap (Item Mutex)) (cells : Chain.Cells (Item Mutex)) (q : Ptr)
    → Linked h cells
    → Free cells
    → mem q (addresses cells) ≡ true
    → FreeAt h (addresses cells) q
Linked-Free h [] q l free m = cc
Linked-Free h ((p, v) ∷ cells) q l free m = elim (Bool-cases (p == q)) [
  | inl e ↦ (v, rw e (ap h (sym ((==_iff p q).0 e)) ∙ first_free h p v cells l.1 free.0))
  | inr e ↦ let (w, there) = Linked-Free h cells q l.3 free.1 (ground arith) in (w, rw e there)
]

forget :
    {P : Pc → State Mutex → Type 0} {o : Outcome (State Mutex) Pc} → Fair P o → Fair (λ _ _. Unit) o
forget (goes h) = goes tt
forget waits = waits

goes_or_waits :
    {P : Pc → State Mutex → Type 0} {o : Outcome (State Mutex) Pc}
    → Fair P o
    → ((p : Pc) × (t : State Mutex) × (o ≡ ok p t)) ⊎ (o ≡ stop blocked)
goes_or_waits (goes {p} {t} h) = inl (p, t, refl)
goes_or_waits waits = inr refl

-- Of the first `m` threads one can make a step, or all wait.
search :
    (n : ℕ) (ops : ℕ → Work) (b : System)
    → ((i : ℕ) → i < n → Fair (λ _ _. Unit) (advance node_lock (ops i) (b.pc i) b.state))
    → (m : ℕ) → m ≤ n
    → ((c : System) × Step n ops b c)
      ⊎ ((i : ℕ) → i < m → advance node_lock (ops i) (b.pc i) b.state ≡ stop blocked)
search n ops b fair zero le = inr (λ i lt. absurd (omega arith))
search n ops b fair (suc m) le = elim (goes_or_waits (fair m (omega arith))) [
  | inl (p, t, e) ↦ inl (_, picks m (omega arith) e)
  | inr waits_here ↦ elim (search n ops b fair m (omega arith)) [
    | inl step ↦ inl step
    | inr others ↦ inr (λ i lt. elim (Bool-cases (m == i)) [
      | inl same ↦
          subst (λ x. advance node_lock (ops x) (b.pc x) b.state ≡ stop blocked)
            ((==_iff m i).0 same) waits_here
      | inr other ↦ others i (ground arith)
    ])
  ]
]

total-start : (q p : Ptr) (n : ℕ) → total (holds q) n (λ i. starts p) ≡ 0
total-start q p zero = refl
total-start q p (suc n) = omega (arith, total-start q p n)

mem-head :
    (cells : Chain.Cells (Item Mutex))
    → 0 < length cells
    → mem (head_ptr cells) (addresses cells) ≡ true
mem-head [] pos = absurd (omega arith)
mem-head ((p, v) ∷ cells) pos = ground arith

module _ (n : ℕ) (ops : ℕ → Work) (s : State Mutex) (cells : Chain.Cells (Item Mutex))
    (is : IsList s.heap s.list cells) (free : Free cells) (some_node : 0 < length cells) where
  start-Inv : Inv n (addresses cells) s (start s).pc
  start-Inv = record {
    first = is.first ∙ sym (first-addresses cells);
    stands = λ q m.
        let (v, e) = Linked-Free s.heap cells q is.linked free m in
        (v, rw (total-start q s.list.first n) e);
    once = λ q. omega (arith, total-start q s.list.first n);
    places = λ i. rw is.first (mem-head cells some_node);
  }

  module _ (b : System) (reach : Reach n ops (start s) b) where
    distinct : Nodes (addresses cells)
    distinct = Linked-Nodes s.heap cells is.linked

    reached-Inv : Inv n (addresses cells) b.state b.pc
    reached-Inv = Reach-Inv n (addresses cells) distinct ops start-Inv reach

    no_fault : (i : ℕ) → i < n → Fair (λ _ _. Unit) (advance node_lock (ops i) (b.pc i) b.state)
    no_fault i lt =
        forget (advance-Fair n (addresses cells) distinct b.state b.pc reached-Inv i lt (ops i))

    -- On a well-formed list of at least one node, all of whose mutexes are free, any number of
    -- threads begin at the first node, each to compare or to run swap_threads with random numbers
    -- other than 1. In any state that they reach by steps in any order, two different threads do
    -- not hold the mutex of the same node, and a step of a thread goes on or waits for a mutex:
    -- nothing else stops it.
    pub start-Fair :
        (i j : ℕ) (q : Ptr)
        → i < n
        → j < n
        → i ≢ j
        → (holds q (b.pc i) + holds q (b.pc j) ≤ 1)
          × Fair (λ _ _. Unit) (advance node_lock (ops i) (b.pc i) b.state)
    start-Fair i j q i_lt j_lt ne = (
      omega (arith, reached-Inv.once q, two-total (holds q) n b.pc i j i_lt j_lt ne),
      no_fault i i_lt,
    )

    -- On a well-formed list of at least one node, all of whose mutexes are free, threads begin at
    -- the first node, each to compare or to run swap_threads with random numbers other than 1. If
    -- there is a thread, and there are fewer threads than nodes, then in any state that they reach
    -- by steps in any order some thread can make a step: they do not block each other for ever.
    pub start-Step : 0 < n → n < length cells → (c : System) × Step n ops b c
    start-Step some_thread fewer = elim (search n ops b no_fault n (omega arith)) [
      | inl step ↦ step
      | inr none_goes ↦
          let stuck = λ (i : ℕ) (lt : i < n).
            blocked-IsStuck n (addresses cells) distinct b.state b.pc reached-Inv (ops i) (b.pc i)
              (λ r.
                held_once n (addresses cells) distinct b.state b.pc reached-Inv i lt (b.pc i) r
                  refl)
              (reached-Inv.places i) (none_goes i lt) in
          absurd (
            omega (
              arith,
              fewer,
              length-addresses cells,
              all_stuck n (addresses cells) distinct b.state b.pc reached-Inv stuck some_thread,
            ))
    ]

-- ===== src/List/Concurrent/Moves.antt =====
-- Each step of a thread on a list of task2/2.3/mutex, with other threads at work.
use osi.Base.{
  ℕ, ◌<◌, ◌≡◌, refl, ◌≢◌, ◌∙◌, ap, Bool, true, false, some, List, ◌==◌, ltb, ==_iff, arith,
  Bool-cases, inl, inr,
}
use osi.Chain
use osi.Chain.{Ptr, null, node, write}
use osi.Machine.{Outcome, ok, stop, blocked}
use osi.List.Store.{Item, Lists, State, load}
use osi.List.Mutex.{Mutex, node_lock, take, release}
use osi.List.Threads.{lock_read, unlock_node}
use osi.List.Threads.Steps.{
  Work, compares, moves, Pc, moved, take_next, count_end, compare_nodes, first-count_end,
}
use osi.List.Concurrent.Ring.{mem, next_of, after, Nodes, Nodes-ne, mem-after}
use osi.List.Concurrent.Invariant.{count, Inv, relocked}

-- Each step gives a result of which `P` holds, or waits for a lock. Nothing else stops it.
pub data Fair (P : Pc → State Mutex → Type 0) : Outcome (State Mutex) Pc → Type 0 where
  goes : {p : Pc} {t : State Mutex} → P p t → Fair P (ok p t)
  waits : Fair P (stop blocked)

load_lem :
    (q : Ptr) (m : Chain.Node (Item Mutex)) (s : State Mutex)
    → q ≢ null
    → s.heap q ≡ some m
    → load q s ≡ ok m s
unfolding load
load_lem q m s ne e = ground arith

module _ (n : ℕ) (xs : List Ptr) (distinct : Nodes xs) (s : State Mutex) (pc : ℕ → Pc)
    (inv : Inv n xs s pc) where
  module _ (q : Ptr) (here : mem q xs ≡ true) where
    -- the item of the node at `q`
    abbrev pub item_at : Item Mutex
    item_at = record (inv.stands q here).0 { lock = record { held = ltb 0 (count n xs q pc) } }

    load-at : load q s ≡ ok (node item_at (next_of xs q)) s
    load-at = load_lem q _ s (Nodes-ne xs q distinct here) (inv.stands q here).1

    pub lock-held : 0 < count n xs q pc → lock_read node_lock q s ≡ stop blocked
    unfolding lock_read take
    lock-held some_holder =
        let test : ltb 0 (count n xs q pc) ≡ true = ground arith in rw (load-at, test)

    pub lock-free :
        count n xs q pc ≡ 0
        → lock_read node_lock q s ≡ ok tt (relocked n xs s q item_at true s.list)
    unfolding lock_read take
    lock-free nobody =
        let test : ltb 0 (count n xs q pc) ≡ false = ground arith in rw (load-at, test)

    pub unlock-at :
        count n xs q pc ≡ 1
        → unlock_node node_lock q s ≡ ok tt (relocked n xs s q item_at false s.list)
    unfolding unlock_node release
    unlock-at once = let test : ltb 0 (count n xs q pc) ≡ true = ground arith in rw (load-at, test)

  -- Behind the lock of `q`, the nodes still point where they did.
  load-relocked :
      (q : Ptr) (v : Item Mutex) (held : Bool) (list : Lists) (r : Ptr)
      → mem q xs ≡ true
      → mem r xs ≡ true
      → (w : Item Mutex) × (load r (relocked n xs s q v held list)
          ≡ ok (node w (next_of xs r)) (relocked n xs s q v held list))
  load-relocked q v held list r mq mr = elim (Bool-cases (q == r)) [
    | inl e ↦ (
      record v { lock = record { held = held } },
      load_lem r _ _ (Nodes-ne xs r distinct mr) (
          rw e (
            ap
              (λ (x : Ptr). some (node (record v { lock = record { held = held } }) (next_of xs x)))
              ((==_iff q r).0 e))),
    )
    | inr e ↦ (item_at r mr, load_lem r _ _ (Nodes-ne xs r distinct mr) (rw e (inv.stands r mr).1))
  ]

  module _ (p : Ptr) (here : mem p xs ≡ true) where
    abbrev pub q : Ptr
    q = after xs p

    abbrev pub mq : mem q xs ≡ true
    mq = mem-after xs p here

    -- The list behind a step that has taken the next lock
    abbrev pub Taken : Work → Type 0
    Taken op =
        (list : Lists) × (list.first ≡ s.list.first)
        × (take_next node_lock op p s ≡ ok (moved p q) (relocked n xs s q (item_at q mq) true list))

    after-last : (next_of xs p == null) ≡ true → s.list.first ≡ q
    unfolding after
    after-last last = rw last inv.first

    after-more : (next_of xs p == null) ≡ false → next_of xs p ≡ q
    unfolding after
    after-more more = rw more

    lock-at : (r : Ptr) → r ≡ q → lock_read node_lock r s ≡ lock_read node_lock q s
    lock-at r e = ap (λ (x : Ptr). lock_read node_lock x s) e

    -- To compare the two nodes changes nothing.
    compare_nodes-quiet :
        (op : Work)
        → (next_of xs p == null) ≡ false
        → compare_nodes node_lock op p (relocked n xs s q (item_at q mq) true s.list)
          ≡ ok tt (relocked n xs s q (item_at q mq) true s.list)
    unfolding compare_nodes
    compare_nodes-quiet (compares op) more =
        let (w, again) = load-relocked q (item_at q mq) true s.list p mq here in
        let (w', there) = load-relocked q (item_at q mq) true s.list q mq mq in
        rw (
          again,
          ap (λ (x : Ptr). load x (relocked n xs s q (item_at q mq) true s.list)) (after-more more)
              ∙ there,
        )
    compare_nodes-quiet moves more = refl

    pub take_next-free : (op : Work) → count n xs q pc ≡ 0 → Taken op
    unfolding take_next
    take_next-free op nobody = elim (Bool-cases (next_of xs p == null)) [
      | inl last ↦ (
        count_end op s.list,
        first-count_end op s.list,
        rw (load-at p here, last, lock-at s.list.first (after-last last) ∙ lock-free q mq nobody)
            (ap
              (λ (x : Ptr).
                ok (moved p x) (relocked n xs s q (item_at q mq) true (count_end op s.list)))
              (after-last last)),
      )
      | inr more ↦
          let (w, again) = load-relocked q (item_at q mq) true s.list p mq here in
          (
            s.list,
            refl,
            rw
                (
                  load-at p here,
                  more,
                  load-at p here,
                  lock-at (next_of xs p) (after-more more) ∙ lock-free q mq nobody,
                  compare_nodes-quiet op more,
                  again,
                )
                (ap (λ (x : Ptr). ok (moved p x) (relocked n xs s q (item_at q mq) true s.list))
                  (after-more more)),
          )
    ]

    pub take_next-held :
        (op : Work) → 0 < count n xs q pc → take_next node_lock op p s ≡ stop blocked
    unfolding take_next
    take_next-held op somebody = elim (Bool-cases (next_of xs p == null)) [
      | inl last ↦
          rw
            (load-at p here, last, lock-at s.list.first (after-last last) ∙ lock-held q mq somebody)
      | inr more ↦ rw (
        load-at p here,
        more,
        load-at p here,
        lock-at (next_of xs p) (after-more more) ∙ lock-held q mq somebody,
      )
    ]

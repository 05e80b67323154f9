-- ===== src/List/Concurrent/Invariant.antt =====
-- What holds of a list of task2/2.3 and of the threads at work on it, at every moment.
use osi.Base.{
  ℕ, ◌+◌, ◌≤◌, ◌<◌, ◌≡◌, ◌∙◌, ap, Bool, true, Option, some, List, ◌==◌, ltb, ==_iff, arith,
  if◌then◌else◌, Bool-cases, inl, inr,
}
use mathlib.Core.Path.{subst}
use osi.Chain
use osi.Chain.{Ptr, null, node, write}
use osi.List.Store.{Item, Lists, State}
use osi.List.Mutex.{Mutex}
use osi.List.Threads.Steps.{Pc, starts, locked, moved, leaves}
use osi.List.Concurrent.{update}
use osi.List.Concurrent.Family.{total, total-update, holds}
use osi.List.Concurrent.Ring.{mem, first_of, next_of, after}

module _ (n : ℕ) (xs : List Ptr) where
  -- How many locks of the node at `q` the threads hold
  abbrev pub count : Ptr → (ℕ → Pc) → ℕ
  count q pc = total (holds q) n pc

  abbrev pub Places : Pc → Type 0
  Places (starts iter) = mem iter xs ≡ true
  Places (locked iter) = mem iter xs ≡ true
  Places (moved mutex iter) = (mem mutex xs ≡ true) × (iter ≡ after xs mutex)
  Places (leaves mutex iter) = (mem mutex xs ≡ true) × (mem iter xs ≡ true)

  -- The node at `q` points to the next one, and its mutex is held if a thread holds it.
  abbrev pub Stands : State Mutex → (ℕ → Pc) → Ptr → Type 0
  Stands s pc q =
      (v : Item Mutex) × (s.heap q
        ≡ some (node (record v { lock = record { held = ltb 0 (count q pc) } }) (next_of xs q)))

  pub record Inv (s : State Mutex) (pc : ℕ → Pc) : Type 0 where
    pub first : s.list.first ≡ first_of xs
    pub stands : (q : Ptr) → mem q xs ≡ true → Stands s pc q
    pub once : (q : Ptr) → count q pc ≤ 1
    pub places : (i : ℕ) → Places (pc i)

  -- the state with other content of a mutex
  abbrev pub relocked : State Mutex → Ptr → Item Mutex → Bool → Lists → State Mutex
  relocked s q v held list = record {
    heap = write s.heap q (some (node (record v { lock = record { held = held } }) (next_of xs q)));
    list = list;
  }

  -- A thread takes or gives back the lock of `q`: `a` and `b` are how often it is held before and
  -- behind the step.
  abbrev pub Moves : (q : Ptr) (old p : Pc) (a b : ℕ) → Type 0
  Moves q old p a b =
      (r : Ptr) → holds r p + (if q == r then a else 0) ≡ holds r old + (if q == r then b else 0)

  count-moved :
      (pc : ℕ → Pc) (i : ℕ) (q : Ptr) (old p : Pc) (a b : ℕ)
      → i < n
      → pc i ≡ old
      → count q pc ≡ a
      → Moves q old p a b
      → (r : Ptr) → count r (update pc i p) ≡ (if q == r then b else count r pc)
  count-moved pc i q old p a b lt at before moves r = elim (Bool-cases (q == r)) [
    | inl e ↦
        let at_r : count r pc ≡ a = subst (λ x. count x pc ≡ a) ((==_iff q r).0 e) before in
        let change : holds r p + a ≡ holds r old + b = (rw e at (moves r)) in
        rw e (
          omega (
            arith,
            total-update (holds r) n pc i p lt,
            ap (λ (c : Pc). holds r c) at,
            at_r,
            change,
          ))
    | inr e ↦
        let change : holds r p + 0 ≡ holds r old + 0 = (rw e at (moves r)) in
        rw e
          (omega (arith, total-update (holds r) n pc i p lt, ap (λ (c : Pc). holds r c) at, change))
  ]

  -- the same node under another name
  relocked-at :
      (v : Item Mutex) (held : Bool) (q r : Ptr)
      → q ≡ r
      → ◌≡◌ {A = Option (Chain.Node (Item Mutex))}
          (some (node (record v { lock = record { held = held } }) (next_of xs q)))
          (some (node (record v { lock = record { held = held } }) (next_of xs r)))
  relocked-at v held q r e =
      ap (λ (x : Ptr). some (node (record v { lock = record { held = held } }) (next_of xs x))) e

  Stands-moved :
      (s : State Mutex) (pc pc' : ℕ → Pc) (q : Ptr) (v : Item Mutex) (list : Lists) (b : ℕ)
      (r : Ptr)
      → count r pc' ≡ (if q == r then b else count r pc)
      → Stands s pc r
      → Stands (relocked s q v (ltb 0 b) list) pc' r
  Stands-moved s pc pc' q v list b r counts (w, old) = elim (Bool-cases (q == r)) [
    | inl e ↦ (v, rw (counts, e) (relocked-at v (ltb 0 b) q r ((==_iff q r).0 e)))
    | inr e ↦ (w, rw (counts, e) old)
  ]

  Places-update :
      (pc : ℕ → Pc) (i : ℕ) (p : Pc)
      → ((j : ℕ) → Places (pc j))
      → Places p
      → (j : ℕ) → Places (update pc i p j)
  Places-update pc i p old new j = elim (Bool-cases (i == j)) [
    | inl e ↦ rw e new
    | inr e ↦ rw e (old j)
  ]

  pub relocked-Inv :
      (s : State Mutex) (pc : ℕ → Pc) (i : ℕ) (q : Ptr) (v : Item Mutex) (old p : Pc) (list : Lists)
      (a b : ℕ)
      → Inv s pc
      → i < n
      → pc i ≡ old
      → count q pc ≡ a
      → b ≤ 1
      → list.first ≡ s.list.first
      → Moves q old p a b
      → Places p
      → Inv (relocked s q v (ltb 0 b) list) (update pc i p)
  relocked-Inv s pc i q v old p list a b inv lt at before small same moves place =
      let counts = count-moved pc i q old p a b lt at before moves in
      record {
        first = same ∙ inv.first;
        stands = λ r m. Stands-moved s pc (update pc i p) q v list b r (counts r) (inv.stands r m);
        once = λ r. ground (arith, counts r, inv.once r);
        places = Places-update pc i p inv.places place;
      }

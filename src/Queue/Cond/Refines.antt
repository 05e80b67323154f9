-- ===== src/Queue/Cond/Refines.antt =====
-- The calls of task2/2.2/cond/queue.c against the abstract queue, whatever the other threads do
-- while a call waits, as long as they keep to the queue's own operations.
use osi.Base.{
  ℕ, zero, suc, ◌≤◌, ◌<◌, ◌≡◌, refl, ◌≢◌, true, false, Bool, Option, none, some, inl, inr, List,
  ◌∷◌, arith, ◌==◌, Bool-cases, eq_of_some, if◌then◌else◌, length, int_max,
}
use osi.Chain.{Ptr, null}
use osi.Machine.{◌>>◌, stop, blocked, Returns, returns, Returns-and_then, Returns-mono}
use osi.Queue.Store.{State}
use osi.Queue.Spec.{Fifo, empty, push, left, tried_add, tried_get}
use osi.Queue.Ends.{Represents, enqueue-push, dequeue-left}
use osi.Queue.Calls.{
  assert-passes, assert_nonneg, full_test, has_room, Represents-tried_add, Represents-tried_get,
  Represents-empty, empty_test, is_empty, null_test,
}
use osi.Queue.Cond.{
  CondLock, Others, cond_wait, wait_room, wait_item, queue_init, queue_add, queue_get,
}

-- The other threads answer every wait, during the `k`-th one do `acts k` to the abstract queue, and
-- leave the address `fresh` alone, which `malloc` will hand to this thread.
pub record Plays (others : Others) (acts : ℕ → Fifo → Fifo) (fresh : Ptr) : Type 0 where
  pub after : ℕ → State CondLock → State CondLock
  pub answers : (k : ℕ) (s : State CondLock) → others k s ≡ some (after k s)
  pub keeps :
      (k : ℕ) (s : State CondLock) (f : Fifo)
      → Represents s.heap s.queue f
      → s.lock.mutex ≡ false
      → Represents (after k s).heap (after k s).queue (acts k f)
        × ((after k s).lock.mutex ≡ false)
        × (s.lock.get_cond ≤ (after k s).lock.get_cond)
        × (s.lock.add_cond ≤ (after k s).lock.add_cond)
  pub spares : (k : ℕ) (s : State CondLock) → s.heap fresh ≡ none → (after k s).heap fresh ≡ none

abbrev pub is_full : Fifo → Bool
is_full f = length f.items == f.cap

abbrev pub no_items : Fifo → Bool
no_items f = is_empty f.items

-- The first of the abstract queues `f`, `acts k f`, … at which the call need not wait.
unfoldable pub await : (Fifo → Bool) → (ℕ → Fifo → Fifo) → (fuel k : ℕ) → Fifo → Option Fifo
await stuck acts zero k f = none
await stuck acts (suc fuel) k f =
    let rest = await stuck acts fuel (suc k) (acts k f) in if stuck f then rest else some f

-- What holds when a wait is over.
abbrev Woken : Ptr → State CondLock → Fifo → State CondLock → Type 0
Woken fresh s g t =
    Represents t.heap t.queue g
    × (t.lock.mutex ≡ true)
    × (s.lock.get_cond ≤ t.lock.get_cond)
    × (s.lock.add_cond ≤ t.lock.add_cond)
    × (s.heap fresh ≡ none → t.heap fresh ≡ none)

Woken-trans :
    (fresh : Ptr) (s t u : State CondLock) (f g : Fifo)
    → Woken fresh s f t
    → Woken fresh t g u
    → Woken fresh s g u
Woken-trans fresh s t u f g w w' =
    (w'.0, w'.1, omega arith, omega arith, λ unused. w'.4 (w.4 unused))

module _ (others : Others) (acts : ℕ → Fifo → Fifo) (fresh : Ptr)
    (p : Plays others acts fresh) where
  cond_wait-acts :
      (k : ℕ) (s : State CondLock) (f : Fifo)
      → Represents s.heap s.queue f
      → s.lock.mutex ≡ true
      → Returns (λ _. Woken fresh s (acts k f)) (cond_wait others k s)
  unfolding cond_wait
  cond_wait-acts k s f r held =
      let (after, free, gets, adds) =
        p.keeps k (record s { lock = record s.lock { mutex = false } }) f r refl in
      rw (held, p.answers k _, free) (returns (after, refl, gets, adds, p.spares k _))

  wait_room-await :
      (fuel k : ℕ) (s : State CondLock) (f g : Fifo)
      → Represents s.heap s.queue f
      → s.lock.mutex ≡ true
      → await is_full acts fuel k f ≡ some g
      → Returns (λ _ t. Woken fresh s g t × (is_full g ≡ false)) (wait_room others fuel k s)
  unfolding wait_room await
  wait_room-await zero k s f g r held e = cc
  wait_room-await (suc fuel) k s f g r held e = elim (Bool-cases (is_full f)) [
    | inl wait ↦
        rw (full_test s.heap s.queue f r, wait)
          (Returns-and_then (cond_wait-acts k s f r held) λ _ t w.
            Returns-mono (wait_room-await fuel (suc k) t (acts k f) g w.0 w.1 (rw wait at e))
              λ _ u (w', ready). (Woken-trans fresh s t u (acts k f) g w w', ready))
    | inr ready ↦
        let same : f ≡ g = eq_of_some (rw ready at e) in
        rw (full_test s.heap s.queue f r, ready)
          (returns
            ((rw (← same) r, held, omega arith, omega arith, λ unused. unused), rw (← same) ready))
  ]

  wait_item-await :
      (fuel k : ℕ) (s : State CondLock) (f g : Fifo)
      → Represents s.heap s.queue f
      → s.lock.mutex ≡ true
      → await no_items acts fuel k f ≡ some g
      → Returns (λ _ t. Woken fresh s g t × (no_items g ≡ false)) (wait_item others fuel k s)
  unfolding wait_item await
  wait_item-await zero k s f g r held e = cc
  wait_item-await (suc fuel) k s f g r held e = elim (Bool-cases (no_items f)) [
    | inl wait ↦
        rw (empty_test s.heap s.queue f r, wait)
          (Returns-and_then (cond_wait-acts k s f r held) λ _ t w.
            Returns-mono (wait_item-await fuel (suc k) t (acts k f) g w.0 w.1 (rw wait at e))
              λ _ u (w', ready). (Woken-trans fresh s t u (acts k f) g w w', ready))
    | inr ready ↦
        let same : f ≡ g = eq_of_some (rw ready at e) in
        rw (empty_test s.heap s.queue f r, ready)
          (returns
            ((rw (← same) r, held, omega arith, omega arith, λ unused. unused), rw (← same) ready))
  ]

  module _ (s : State CondLock) (f g : Fifo) (r : Represents s.heap s.queue f) where
    -- If the other threads answer every wait and keep the heap representing what they do to the
    -- abstract queue, if the mutex is free and malloc answers an unused address that is not NULL,
    -- and if the first abstract queue with room, within fuel tests, is g, then queue_add returns 1,
    -- the heap represents g with the value behind it, the mutex is free and get_cond has been
    -- signalled.
    pub cond_add-refines :
        (fuel v : ℕ)
        → fresh ≢ null
        → s.heap fresh ≡ none
        → s.lock.mutex ≡ false
        → await is_full acts fuel 0 (tried_add f) ≡ some g
        → Returns
            (λ a t.
              (a ≡ 1)
              × Represents t.heap t.queue (push v g)
              × (t.lock.mutex ≡ false)
              × (s.lock.get_cond < t.lock.get_cond))
            (queue_add others fuel fresh v s)
    unfolding queue_add
    cond_add-refines fuel v ne unused free e =
        let r' = Represents-tried_add s.heap s.queue f r in
        rw (assert-passes s.heap s.queue f r, free)
          (Returns-and_then (wait_room-await fuel 0 _ (tried_add f) g r' refl e)
            λ _ t ((after, held, gets, _, still), room). rw (null_test fresh ne) (
              Returns-and_then
                (enqueue-push t g after fresh v (has_room t.heap t.queue g after room) ne
                  (still unused))
                λ _ u (same, final). rw (same, held) (returns (refl, final, refl, omega arith))))

    -- If the other threads answer every wait and keep the heap representing what they do to the
    -- abstract queue, if the mutex is free, and if the first abstract queue that is not empty,
    -- within fuel tests, is g with v in front, then queue_get returns 1 and v, the heap represents
    -- g without v, the mutex is free and add_cond has been signalled.
    pub cond_get-refines :
        (fuel v : ℕ) (rest : List ℕ)
        → s.lock.mutex ≡ false
        → await no_items acts fuel 0 (tried_get f) ≡ some g
        → g.items ≡ v ∷ rest
        → Returns
            (λ a t.
              (a ≡ (1, v))
              × Represents t.heap t.queue (left rest g)
              × (t.lock.mutex ≡ false)
              × (s.lock.add_cond < t.lock.add_cond))
            (queue_get others fuel s)
    unfolding queue_get
    cond_get-refines fuel v rest free e items =
        let r' = Represents-tried_get s.heap s.queue f r in
        rw (free, assert_nonneg s.heap s.queue f r)
          (Returns-and_then (wait_item-await fuel 0 _ (tried_get f) g r' refl e)
            λ _ t ((after, held, _, adds, _), _).
              Returns-and_then (dequeue-left t g after v rest items) λ _ u (value, same, final).
                rw (same, held, value) (returns (refl, final, refl, omega arith)))

-- If malloc leaves memory that looks like a held mutex, and max_count is a non-negative int, a
-- queue_add right behind queue_init blocks for ever.
pub cond_init-add_blocked :
    (s : State CondLock) (others : Others) (fuel fresh v max_count : ℕ)
    → max_count ≤ int_max
    → s.lock.mutex ≡ true
    → (queue_init true 0 max_count >> queue_add others fuel fresh v) s ≡ stop blocked
unfolding queue_init queue_add
cond_init-add_blocked s others fuel fresh v max_count small garbage =
    let r = Represents-empty s.heap s.queue max_count small in
    rw (assert-passes s.heap _ (empty max_count) r, garbage)

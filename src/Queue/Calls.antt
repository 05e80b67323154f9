-- ===== src/Queue/Calls.antt =====
-- What the proofs about the five versions of `queue_add` and `queue_get` share: the tests that the
-- calls make, read off the abstract queue, and the statistics.
use osi.Base.{
  ℕ, zero, suc, ◌-◌, ◌^◌, ◌≤◌, ◌<◌, ◌≡◌, refl, ◌≢◌, ◌∙◌, ap, sym, Bool, true, false, Option, none,
  some, List, [], ◌∷◌, arith, ◌==◌, ==_iff, if◌then◌else◌, length, inc_long, sub_long, le_int,
  le_int-le, int_max,
}
use mathlib.Core.Path.{subst}
use osi.Chain.{null, head_ptr, Linked, values, length-values}
use osi.Machine.{Cmd, pure, stop, aborted, no_fuel, ◌>>=◌, ◌>>◌, Returns, returns, Returns-and_then}
use osi.Queue.Store.{Heap, Queue, State, get_queue}
use osi.Queue.Shape.{Cells}
use osi.Queue.Spec.{Fifo, tried_add, tried_get, get_from, empty, left}
use osi.Queue.Ends.{Represents}

abbrev pub abort : {S A : Type 0} → Cmd S A
abort = λ _. stop aborted

-- The answer of `queue_get(q, &val)`, and what it leaves in `val`.
abbrev pub answer : ℕ → Option ℕ → ℕ × ℕ
answer val none = (0, val)
answer val (some v) = (1, v)

-- -1, as an `int`
abbrev pub minus_one : ℕ
minus_one = 2 ^ 32 - 1

-- What `queue_print_stats` prints: the size, the attempts and their difference, and the same of the
-- counts.
pub record Stats : Type 0 where
  pub size : ℕ
  pub add_attempts : ℕ
  pub get_attempts : ℕ
  pub attempts_left : ℕ
  pub add_count : ℕ
  pub get_count : ℕ
  pub counts_left : ℕ

unfoldable pub queue_print_stats : {L : Type 0} → Cmd (State L) Stats
queue_print_stats = do
  q ← get_queue
  pure (record {
    size = q.count;
    add_attempts = q.add_attempts;
    get_attempts = q.get_attempts;
    attempts_left = sub_long q.add_attempts q.get_attempts;
    add_count = q.add_count;
    get_count = q.get_count;
    counts_left = sub_long q.add_count q.get_count;
  })

-- `while (q->first) { int val = -1; queue_get(q, &val); queue_print_stats(q); }`
unfoldable pub drain : {L : Type 0} → ℕ → (ℕ → Cmd (State L) (ℕ × ℕ)) → Cmd (State L) (Unit {0})
unfolding queue_print_stats
drain zero get = λ _. stop no_fuel
drain (suc fuel) get = do
  q ← get_queue
  if q.first == null then pure tt else (do get minus_one; queue_print_stats; drain fuel get)

abbrev pub is_empty : List ℕ → Bool
is_empty [] = true
is_empty (v ∷ rest) = false

head_test : (h : Heap) (xs : Cells) → Linked h xs → (head_ptr xs == null) ≡ is_empty (values xs)
head_test h [] l = refl
head_test h ((p, v) ∷ xs) l = ground arith

length_test : (items : List ℕ) → (length items == 0) ≡ is_empty items
length_test [] = refl
length_test (v ∷ rest) = ground arith

module _ (h : Heap) (q : Queue) (f : Fifo) (r : Represents h q f) where
  pub count-length : q.count ≡ length f.items
  count-length =
      r.is.count ∙ sym (length-values r.cells) ∙ sym (ap (λ (l : List ℕ). length l) r.items)

  pub assert-passes : le_int q.count q.max_count ≡ true
  assert-passes = le_int-le q.count q.max_count (omega (arith, r.is.count, r.is.room)) r.is.small

  pub assert_nonneg : le_int 0 q.count ≡ true
  assert_nonneg =
      le_int-le 0 q.count (omega arith) (omega (arith, r.is.count, r.is.room, r.is.small))

  pub full_test : (q.count == q.max_count) ≡ (length f.items == f.cap)
  full_test = rw (count-length, r.cap)

  pub has_room : (length f.items == f.cap) ≡ false → length f.items < f.cap
  has_room e = ground (arith, count-length, r.is.count, r.is.room, r.cap)

  pub empty_test : (q.count == 0) ≡ is_empty f.items
  empty_test = rw count-length (length_test f.items)

  pub first_test : (q.first == null) ≡ is_empty f.items
  first_test = rw (r.is.first, r.items) (head_test h r.cells r.is.linked)

  pub Represents-tried_add :
      Represents h (record q { add_attempts = inc_long q.add_attempts }) (tried_add f)
  Represents-tried_add = record {
    cells = r.cells;
    is = record {
      first = r.is.first;
      last = r.is.last;
      linked = r.is.linked;
      count = r.is.count;
      room = r.is.room;
      small = r.is.small;
    };
    items = r.items;
    cap = r.cap;
    add_attempts = ap inc_long r.add_attempts;
    get_attempts = r.get_attempts;
    add_count = r.add_count;
    get_count = r.get_count;
  }

  pub Represents-tried_get :
      Represents h (record q { get_attempts = inc_long q.get_attempts }) (tried_get f)
  Represents-tried_get = record {
    cells = r.cells;
    is = record {
      first = r.is.first;
      last = r.is.last;
      linked = r.is.linked;
      count = r.is.count;
      room = r.is.room;
      small = r.is.small;
    };
    items = r.items;
    cap = r.cap;
    add_attempts = r.add_attempts;
    get_attempts = ap inc_long r.get_attempts;
    add_count = r.add_count;
    get_count = r.get_count;
  }

-- `if (!new)` behind a `malloc` that did not fail
pub null_test : (p : ℕ) → p ≢ null → (p == null) ≡ false
null_test p ne = ground arith

pub Represents-empty :
    (h : Heap) (q : Queue) (max_count : ℕ)
    → max_count ≤ int_max
    → Represents h
        (record q {
          first = null;
          last = null;
          max_count = max_count;
          count = 0;
          add_attempts = 0;
          get_attempts = 0;
          add_count = 0;
          get_count = 0;
        })
        (empty max_count)
Represents-empty h q max_count small = record {
  cells = [];
  is = record {
    first = refl;
    last = refl;
    linked = tt;
    count = refl;
    room = omega arith;
    small = small;
  };
  items = refl;
  cap = refl;
  add_attempts = refl;
  get_attempts = refl;
  add_count = refl;
  get_count = refl;
}

-- The abstract queue when its items have been taken out one by one.
pub drained : List ℕ → Fifo → Fifo
drained [] f = f
drained (v ∷ rest) f = drained rest (left rest (tried_get f))

module _ {L : Type 0} (Open : L → Type 0) (get : ℕ → Cmd (State L) (ℕ × ℕ))
    (refines : (s : State L) (f : Fifo)
      → Represents s.heap s.queue f
      → Open s.lock
      → (val : ℕ)
      → Returns
          (λ a t.
            (a ≡ answer val (get_from f.items f).0)
            × Represents t.heap t.queue (get_from f.items f).1
            × Open t.lock)
          (get val s)) where
  abbrev Gets : State L → Fifo → List ℕ → Type 0
  Gets s f items =
      Returns
        (λ a t.
          (a ≡ answer minus_one (get_from items f).0)
          × Represents t.heap t.queue (get_from items f).1
          × Open t.lock)
        (get minus_one s)

  -- The loop of `queue_destroy` ends, with one unit of fuel more than items, and empties the queue.
  pub drain-drained :
      (fuel : ℕ) (s : State L) (f : Fifo) (items : List ℕ)
      → Represents s.heap s.queue f
      → Open s.lock
      → f.items ≡ items
      → length items < fuel
      → Returns
          (λ _ t.
            Represents t.heap t.queue (drained items f) × (t.queue.first ≡ null) × Open t.lock)
          (drain fuel get s)
  unfolding drain drained
  drain-drained zero s f items r o e lt = absurd (omega arith)
  drain-drained (suc fuel) s f [] r o e lt =
      let over = first_test s.heap s.queue f r ∙ ap is_empty e in
      rw over (returns (r, (==_iff _ null).0 over, o))
  drain-drained (suc fuel) s f (v ∷ rest) r o e lt =
      rw (first_test s.heap s.queue f r ∙ ap is_empty e) (
        Returns-and_then (subst (Gets s f) e (refines s f r o minus_one))
          λ _ t (_, after, o'). drain-drained fuel t _ rest after o' refl (omega arith))

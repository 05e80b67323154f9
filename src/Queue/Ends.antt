-- ===== src/Queue/Ends.antt =====
-- The commands on the two ends of a queue of task2/2.2, `enqueue` and `dequeue`, against the values
-- that it holds.
use osi.Base.{
  ℕ, ◌+◌, ◌<◌, ◌≡◌, refl, ◌≢◌, ◌∙◌, ap, sym, none, some, List, [], ◌∷◌, ◌++◌, arith, length,
  length-append, inc_int, dec_int, inc_long, inc_int-suc, dec_int-suc,
}
use mathlib.Core.Path.{subst}
use osi.Chain.{
  Ptr, null, write, head_ptr, last_ptr, last_val, values, values-append, length-values, Linked,
  Linked-write, not-has_of_none, Linked-last, Linked-snoc, last_ptr-snoc,
}
use osi.Machine.{ok, Returns, returns, Returns-mono}
use osi.Queue.Store.{
  Node, Heap, Queue, State, load, link_last, count_add, unlink_first, count_get, enqueue, dequeue,
}
use osi.Queue.Shape.{Cells, IsQueue}
use osi.Queue.Spec.{Fifo, push, left}

-- The queue on the heap stands for the abstract queue `f`.
pub record Represents (h : Heap) (q : Queue) (f : Fifo) : Type 0 where
  pub cells : Cells
  pub is : IsQueue h q cells
  pub items : f.items ≡ values cells
  pub cap : f.cap ≡ q.max_count
  pub add_attempts : f.add_attempts ≡ q.add_attempts
  pub get_attempts : f.get_attempts ≡ q.get_attempts
  pub add_count : f.add_count ≡ q.add_count
  pub get_count : f.get_count ≡ q.get_count

-- The record of the queue after one more node at the back, or one less at the front.
abbrev with_back : Queue → Ptr → Ptr → Queue
with_back q new head = record q {
  first = head;
  last = new;
  count = inc_int q.count;
  add_count = inc_long q.add_count;
}

abbrev with_front : Queue → Ptr → Queue
with_front q head = record q {
  first = head;
  count = dec_int q.count;
  get_count = inc_long q.get_count;
}

with_back-first :
    (q : Queue) (new head : Ptr) → q.first ≡ head → with_back q new q.first ≡ with_back q new head
with_back-first q new head e = ap (with_back q new) e

module _ {L : Type 0} where
  -- The state after `enqueue` of the value `v` at the address `fresh` behind the cells `xs`.
  abbrev Enqueued : State L → ℕ → ℕ → Cells → State L → Type 0
  Enqueued s fresh v xs t =
      (t.lock ≡ s.lock)
      × (t.queue ≡ with_back s.queue fresh (head_ptr (xs ++ (fresh, v) ∷ [])))
      × Linked t.heap (xs ++ (fresh, v) ∷ [])

  load-some : (p : Ptr) (n : Node) (s : State L) → p ≢ null → s.heap p ≡ some n → load p s ≡ ok n s
  unfolding load
  load-some p n s ne e = ground arith

  pub link_last-cons :
      (s : State L) (new u : ℕ)
      → s.queue.first ≢ null
      → s.queue.last ≢ null
      → s.heap s.queue.last ≡ some (record { val = u; next = null })
      → link_last new s
        ≡ ok tt (record s {
          heap = write s.heap s.queue.last (some (record { val = u; next = new }));
          queue = record s.queue { last = new };
        })
  unfolding link_last
  link_last-cons s new u first last e = ground arith

  unlink_first-cons :
      (s : State L) (n : Node)
      → s.queue.first ≢ null
      → s.heap s.queue.first ≡ some n
      → unlink_first s
        ≡ ok n.val (record s {
          heap = write s.heap s.queue.first none;
          queue = record s.queue { first = n.next };
        })
  unfolding unlink_first
  unlink_first-cons s n first e = ground arith

  -- the state behind the two assignments to a new node
  abbrev pub fresh_node : State L → ℕ → ℕ → State L
  fresh_node s fresh v = record s {
    heap = write s.heap fresh (some (record { val = v; next = null }));
  }

  pub link_last-nil :
      (s : State L) (new : ℕ)
      → s.queue.first ≡ null
      → link_last new s ≡ ok tt (record s { queue = record s.queue { first = new; last = new } })
  unfolding link_last
  link_last-nil s new first = ground arith

  enqueue-cells :
      (s : State L) (fresh v : ℕ) (xs : Cells)
      → IsQueue s.heap s.queue xs
      → fresh ≢ null
      → s.heap fresh ≡ none
      → Returns (λ _. Enqueued s fresh v xs) (enqueue fresh v s)
  unfolding enqueue count_add
  enqueue-cells s fresh v [] is ne unused =
      rw (link_last-nil (fresh_node s fresh v) fresh is.first)
        (returns (refl, refl, (ne, ground arith, refl, tt)))
  enqueue-cells s fresh v ((p, w) ∷ xs) is ne unused =
      let out = not-has_of_none s.heap ((p, w) ∷ xs) fresh is.linked unused in
      let h = (fresh_node s fresh v).heap in
      let l = Linked-write s.heap ((p, w) ∷ xs) fresh _ is.linked out in
      let (ne_last, at_last) = Linked-last h p w xs l in
      rw
        (link_last-cons (fresh_node s fresh v) fresh (last_val w xs)
          (λ e. is.linked.0 (sym is.first ∙ e)) (λ e. ne_last (sym is.last ∙ e))
          (ap h is.last ∙ at_last))
        (returns (
          refl,
          with_back-first s.queue fresh p is.first,
          subst
              (λ a.
                Linked (write h a (some (record { val = last_val w xs; next = fresh })))
                  (((p, w) ∷ xs) ++ (fresh, v) ∷ []))
              (sym is.last) (Linked-snoc h p w xs fresh v l ne (ground arith) out),
        ))

  pub dequeue-cells :
      (s : State L) (p v : ℕ) (xs : Cells)
      → IsQueue s.heap s.queue ((p, v) ∷ xs)
      → dequeue s
        ≡ ok v (record s {
          heap = write s.heap s.queue.first none;
          queue = with_front s.queue (head_ptr xs);
        })
  unfolding dequeue count_get
  dequeue-cells s p v xs is = rw (
      unlink_first-cons s (record { val = v; next = head_ptr xs })
        (λ e. is.linked.0 (sym is.first ∙ e)) (ap s.heap is.first ∙ is.linked.1))

last_ptr-tail : (l p : Ptr) (xs : Cells) → l ≡ last_ptr p xs → l ≡ last_ptr l xs
last_ptr-tail l p [] e = refl
last_ptr-tail l p (x ∷ xs) e = e

-- The queue after an `enqueue`, and what it stands for.
Represents-push :
    (h h' : Heap) (q : Queue) (f : Fifo) (r : Represents h q f) (fresh v : ℕ)
    → length f.items < f.cap
    → Linked h' (r.cells ++ (fresh, v) ∷ [])
    → Represents h' (with_back q fresh (head_ptr (r.cells ++ (fresh, v) ∷ []))) (push v f)
Represents-push h h' q f r fresh v room linked = record {
  cells = r.cells ++ (fresh, v) ∷ [];
  is = record {
    first = refl;
    last = sym (last_ptr-snoc fresh r.cells fresh v);
    linked = linked;
    count = omega (arith, fewer, grown, r.is.count, inc_int-suc q.count);
    room = omega (arith, fewer, grown);
    small = r.is.small;
  };
  items = ap (λ (l : List ℕ). l ++ v ∷ []) r.items ∙ sym (values-append r.cells _);
  cap = r.cap;
  add_attempts = r.add_attempts;
  get_attempts = r.get_attempts;
  add_count = ap inc_long r.add_count;
  get_count = r.get_count;
}
  where
    fewer : length r.cells < q.max_count
    fewer = omega (arith, ap (λ (l : List ℕ). length l) r.items, length-values r.cells, room, r.cap)

    grown : length (r.cells ++ (fresh, v) ∷ []) ≡ length r.cells + 1
    grown = length-append r.cells _

Represents-left :
    (h : Heap) (q : Queue) (f : Fifo) (p v : ℕ) (xs : Cells)
    → (r : Represents h q f) → r.cells ≡ (p, v) ∷ xs
    → Represents (write h q.first none) (with_front q (head_ptr xs)) (left (values xs) f)
Represents-left h q f p v xs r e = record {
  cells = xs;
  is = record {
    first = refl;
    last = last_ptr-tail q.last p xs is.last;
    linked = rw (is.first) (Linked-write h xs p none is.linked.3 is.linked.2);
    count = ap dec_int is.count ∙ dec_int-suc (length xs) (omega (arith, is.room, is.small));
    room = omega (arith, is.room);
    small = is.small;
  };
  items = refl;
  cap = r.cap;
  add_attempts = r.add_attempts;
  get_attempts = r.get_attempts;
  add_count = r.add_count;
  get_count = ap inc_long r.get_count;
}
  where
    is : IsQueue h q ((p, v) ∷ xs)
    is = subst (λ c. IsQueue h q c) e r.is

cells-cons :
    (xs : Cells) (v : ℕ) (rest : List ℕ)
    → v ∷ rest ≡ values xs
    → (p : Ptr) × (ys : Cells) × (xs ≡ (p, v) ∷ ys) × (rest ≡ values ys)
cells-cons [] v rest e = cc
cells-cons ((p, w) ∷ ys) v rest e = (p, ys, ground arith, ground arith)

module _ {L : Type 0} (s : State L) (f : Fifo) (r : Represents s.heap s.queue f) where
  pub enqueue-push :
      (fresh v : ℕ)
      → length f.items < f.cap
      → fresh ≢ null
      → s.heap fresh ≡ none
      → Returns
          (λ _ t. (t.lock ≡ s.lock) × Represents t.heap t.queue (push v f))
          (enqueue fresh v s)
  enqueue-push fresh v room ne unused =
      Returns-mono (enqueue-cells s fresh v r.cells r.is ne unused) λ _ t (lock, q, linked).
        (lock, rw q (Represents-push s.heap t.heap s.queue f r fresh v room linked))

  pub dequeue-left :
      (v : ℕ) (rest : List ℕ)
      → f.items ≡ v ∷ rest
      → Returns
          (λ a t. (a ≡ v) × (t.lock ≡ s.lock) × Represents t.heap t.queue (left rest f))
          (dequeue s)
  dequeue-left v rest e =
      let (p, ys, cells, values_ys) = cells-cons r.cells v rest (sym e ∙ r.items) in
      rw (dequeue-cells s p v ys (subst (λ c. IsQueue s.heap s.queue c) cells r.is), values_ys)
        (returns (refl, refl, Represents-left s.heap s.queue f p v ys r cells))

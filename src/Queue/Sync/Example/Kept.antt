-- ===== src/Queue/Sync/Example/Kept.antt =====
-- What the calls of task2/2.2/sync/queue.c leave alone, and how their statistics go together.
use osi.Base.{
  ℕ, ◌+◌, ◌%◌, ◌^◌, ◌<◌, ◌≡◌, ◌≢◌, ◌∙◌, ap, sym, false, none, some, List, [], ◌∷◌, arith, ◌==◌,
  length, length-append, inc_long, sub_long,
}
use osi.Chain.{null, last_val, Linked-last}
use osi.Machine.{Returns, returns, Returns-and_then}
use osi.Queue.Store.{State, enqueue, count_add}
use osi.Queue.Shape.{Cells, IsQueue}
use osi.Queue.Spec.{Fifo, push, tried_add, tried_get, left}
use osi.Queue.Ends.{Represents, link_last-nil, link_last-cons, fresh_node}
use osi.Queue.Calls.{assert-passes, full_test, Represents-tried_add, null_test}
use osi.Queue.Sync.{Lock, queue_add}

-- Other unused addresses stay unused.
abbrev pub Else : State Lock → ℕ → State Lock → Type 0
Else s new t = (r : ℕ) → s.heap r ≡ none → (r == new) ≡ false → t.heap r ≡ none

enqueue-Else :
    (s : State Lock) (new v : ℕ) (xs : Cells)
    → IsQueue s.heap s.queue xs
    → s.heap new ≡ none
    → Returns (λ _ t. Else s new t) (enqueue new v s)
unfolding enqueue count_add
enqueue-Else s new v [] is unused =
    rw (link_last-nil (fresh_node s new v) new is.first) (returns (λ r free other. ground arith))
enqueue-Else s new v ((p, w) ∷ xs) is unused =
    let (ne_last, at_last) = Linked-last s.heap p w xs is.linked in
    let at = ap s.heap is.last ∙ at_last in
    let at_h : (fresh_node s new v).heap s.queue.last
        ≡ some (record { val = last_val w xs; next = null }) =
      ground (arith, at, unused) in
    rw
      (link_last-cons (fresh_node s new v) new (last_val w xs) (λ e. is.linked.0 (sym is.first ∙ e))
        (λ e. ne_last (sym is.last ∙ e)) at_h)
      (returns (λ r free other. ground (arith, at)))

pub queue_add-Else :
    (s : State Lock) (f : Fifo) (fresh v : ℕ)
    → Represents s.heap s.queue f
    → fresh ≢ null
    → s.heap fresh ≡ none
    → (length f.items == f.cap) ≡ false
    → Returns (λ _ t. Else s fresh t) (queue_add fresh v s)
unfolding queue_add
queue_add-Else s f fresh v r ne unused room =
    let r' = Represents-tried_add s.heap s.queue f r in
    rw (assert-passes s.heap s.queue f r, full_test s.heap s.queue f r, room, null_test fresh ne)
      (Returns-and_then (enqueue-Else _ fresh v r'.cells r'.is unused) λ _ t kept. returns kept)

-- As many values are in the queue as were added and not taken out, up to the wrap-around.
abbrev pub Balanced : Fifo → Type 0
Balanced f = (f.add_count ≡ (f.get_count + length f.items) % 2 ^ 64) × (f.get_count < 2 ^ 64)

pub push-Balanced : (v : ℕ) (f : Fifo) → Balanced f → Balanced (push v (tried_add f))
unfolding inc_long
push-Balanced v f (same, small) =
    (omega (arith, same, small, length-append f.items (v ∷ [])), small)

pub left-Balanced :
    (v : ℕ) (rest : List ℕ) (f : Fifo)
    → f.items ≡ v ∷ rest
    → Balanced f
    → Balanced (left rest (tried_get f))
unfolding inc_long
left-Balanced v rest f e (same, small) =
    let size : length f.items ≡ length rest + 1 = ap (λ (l : List ℕ). length l) e ∙ omega arith in
    (omega (arith, same, small, size), omega arith)

pub sub_long-Balanced :
    (f : Fifo)
    → Balanced f
    → length f.items < 2 ^ 64
    → sub_long f.add_count f.get_count ≡ length f.items
unfolding sub_long
sub_long-Balanced f (same, small) fits = omega (arith, same, small)

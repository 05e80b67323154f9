-- ===== src/Queue/Sync/Example/Prints.antt =====
-- What main of task2/2.2/sync/queue-example.c prints.
use osi.Base.{
  ℕ, zero, suc, ◌+◌, ◌≤◌, ◌<◌, ◌≡◌, refl, ◌≢◌, ◌∙◌, ap, sym, true, false, none, List, [], ◌∷◌, ◌++◌,
  arith, ◌^◌, ◌==◌, length, int_max, append-nil, append-shift, length-append, sub_long,
}
use mathlib.Core.Path.{subst}
use osi.Chain.{null}
use osi.Machine.{Returns, returns, returns_both, Returns-and_then, Returns-mono}
use osi.Queue.Store.{State}
use osi.Queue.Spec.{Fifo, empty, add, get, get_from, push, left, tried_add, tried_get}
use osi.Queue.Ends.{Represents}
use osi.Queue.Calls
use osi.Queue.Calls.{Stats, answer, minus_one, Represents-empty, count-length, full_test}
use osi.Queue.Sync.{Lock, queue_add, queue_get, queue_print_stats}
use osi.Queue.Sync.Refines.{sync_add-refines, sync_get-refines}
use osi.Queue.Sync.Example.{Round, add_rounds, get_rounds, run}
use osi.Queue.Sync.Example.Kept.{
  Else, queue_add-Else, Balanced, push-Balanced, left-Balanced, sub_long-Balanced,
}

abbrev pub answers : List Round → List (ℕ × ℕ)
answers [] = []
answers (r ∷ rounds) = (r.ok, r.val) ∷ answers rounds

-- In each round the printed difference of the counts is the printed size.
abbrev pub AllFit : List Round → Type 0
AllFit [] = Unit
AllFit (r ∷ rounds) = (r.stats.counts_left ≡ r.stats.size) × AllFit rounds

-- The numbers from `i` on
abbrev pub numbers : (n i : ℕ) → List ℕ
numbers zero i = []
numbers (suc n) i = i ∷ numbers n (suc i)

abbrev pub accepted : List ℕ → List (ℕ × ℕ)
accepted [] = []
accepted (v ∷ vs) = (1, v) ∷ accepted vs

-- `n` answers at a queue that holds `vs`
abbrev pub taken : (n : ℕ) → List ℕ → List (ℕ × ℕ)
taken zero vs = []
taken (suc n) [] = (0, minus_one) ∷ taken n []
taken (suc n) (v ∷ vs) = (1, v) ∷ taken n vs

-- The state holds a queue whose statistics fit.
abbrev Holds : Fifo → State Lock → Type 0
Holds f s = Represents s.heap s.queue f × Balanced f

-- the two numbers that queue_print_stats prints then
print_stats-fits :
    (s : State Lock) (f : Fifo)
    → Holds f s
    → sub_long s.queue.add_count s.queue.get_count ≡ s.queue.count
print_stats-fits s f (r, b) =
    let size = count-length s.heap s.queue f r in
    let few : length f.items < 2 ^ 64 = omega (arith, size, r.is.count, r.is.room, r.is.small) in
    ap (λ a. sub_long a s.queue.get_count) (sym r.add_count)
    ∙ ap (λ a. sub_long f.add_count a) (sym r.get_count)
    ∙ sub_long-Balanced f b few
    ∙ sym size

-- the addresses from which the nodes come
abbrev Fresh : (fresh : ℕ → ℕ) (total i : ℕ) → State Lock → Type 0
Fresh fresh total i s = (j : ℕ) → i ≤ j → j < total → (fresh j ≢ null) × (s.heap (fresh j) ≡ none)

add-room :
    (v : ℕ) (f : Fifo) → (length f.items == f.cap) ≡ false → add v f ≡ (1, push v (tried_add f))
unfolding add
add-room v f room = rw room refl

module _ (fresh : ℕ → ℕ) (total : ℕ)
    (apart : (j k : ℕ) → j < k → k < total → fresh j ≢ fresh k) where
  abbrev Adds : Fifo → (n i : ℕ) → List Round → State Lock → Type 0
  Adds f n i out t =
      (answers out ≡ accepted (numbers n i))
      × AllFit out
      × ((g : Fifo) × Holds g t × (g.items ≡ f.items ++ numbers n i))

  add_step :
      (s : State Lock) (f : Fifo) (i : ℕ)
      → Holds f s
      → length f.items < f.cap
      → fresh i ≢ null
      → s.heap (fresh i) ≡ none
      → Returns
          (λ a t. (a ≡ 1) × Holds (push i (tried_add f)) t × Else s (fresh i) t)
          (queue_add (fresh i) i s)
  add_step s f i (r, b) less ne unused =
      let room : (length f.items == f.cap) ≡ false = ground arith in
      Returns-mono
        (returns_both (sync_add-refines s f r (fresh i) i ne unused)
          (queue_add-Else s f (fresh i) i r ne unused room))
        (λ a t ((one, rep), kept).
          let e = add-room i f room in
          (
            one ∙ ap (λ (x : ℕ × Fifo). x.0) e,
            (subst (λ (x : ℕ × Fifo). Represents t.heap t.queue x.1) e rep, push-Balanced i f b),
            kept,
          ))

  add_rounds-Adds :
      (n i : ℕ) (s : State Lock) (f : Fifo)
      → Holds f s
      → length f.items + n ≤ f.cap
      → i + n ≤ total
      → Fresh fresh total i s
      → Returns (Adds f n i) (add_rounds fresh n i s)
  unfolding add_rounds queue_print_stats Calls.queue_print_stats
  add_rounds-Adds zero i s f h room bound free =
      returns (refl, tt, (f, h, sym (append-nil f.items)))
  add_rounds-Adds (suc n) i s f h room bound free =
      let (ne, unused) = free i (omega arith) (omega arith) in
      let more = length-append f.items (i ∷ []) in
      Returns-and_then (add_step s f i h (omega arith) ne unused) λ a t (one, after, kept).
        Returns-and_then
          (add_rounds-Adds n (suc i) t (push i (tried_add f)) after (omega (arith, more))
            (omega arith)
            (λ j from below. (
              (free j (omega arith) below).0,
              kept (fresh j) (free j (omega arith) below).1
                  (ground (arith, apart i j (omega arith) below)),
            )))
          λ out w (answered, all_fit, (g, holds, items)). returns (
            rw one (ap (λ (l : List (ℕ × ℕ)). (1, i) ∷ l) answered),
            (print_stats-fits t (push i (tried_add f)) after, all_fit),
            (g, holds, items ∙ sym (append-shift f.items i (numbers n (suc i)))),
          )

-- What the second loop prints at a queue that holds `vs`
abbrev Gets : (n : ℕ) → List ℕ → List Round → State Lock → Type 0
Gets n vs out t = (answers out ≡ taken n vs) × AllFit out

-- `queue_get` where the values are known by their shape
get_step :
    (s : State Lock) (f : Fifo) (vs : List ℕ)
    → Holds f s
    → f.items ≡ vs
    → Returns
        (λ a t.
          (a ≡ answer minus_one (get_from vs f).0) × Represents t.heap t.queue (get_from vs f).1)
        (queue_get minus_one s)
unfolding get
get_step s f vs (r, b) e =
    subst
      (λ (l : List ℕ).
        Returns
          (λ a t.
            (a ≡ answer minus_one (get_from l f).0) × Represents t.heap t.queue (get_from l f).1)
          (queue_get minus_one s))
      e (sync_get-refines s f r minus_one)

get_rounds-Gets :
    (n : ℕ) (s : State Lock) (f : Fifo) (vs : List ℕ)
    → Holds f s
    → f.items ≡ vs
    → Returns (Gets n vs) (get_rounds n s)
unfolding get_rounds queue_print_stats Calls.queue_print_stats
get_rounds-Gets zero s f vs h e = returns (refl, tt)
get_rounds-Gets (suc n) s f [] h e = Returns-and_then (get_step s f [] h e) λ a t (nothing, rep).
    let after : Holds (tried_get f) t = (rep, h.1) in
    Returns-and_then (get_rounds-Gets n t (tried_get f) [] after e) λ out w (answered, all_fit).
      returns (
        rw nothing (ap (λ (l : List (ℕ × ℕ)). (0, minus_one) ∷ l) answered),
        (print_stats-fits t (tried_get f) after, all_fit),
      )
get_rounds-Gets (suc n) s f (v ∷ vs) h e =
    Returns-and_then (get_step s f (v ∷ vs) h e) λ a t (first, rep).
      let after : Holds (left vs (tried_get f)) t = (rep, left-Balanced v vs f e h.1) in
      Returns-and_then (get_rounds-Gets n t (left vs (tried_get f)) vs after refl)
        λ out w (answered, all_fit). returns (
          rw first (ap (λ (l : List (ℕ × ℕ)). (1, v) ∷ l) answered),
          (print_stats-fits t (left vs (tried_get f)) after, all_fit),
        )

answers-append : (xs ys : List Round) → answers (xs ++ ys) ≡ answers xs ++ answers ys
answers-append [] ys = refl
answers-append (x ∷ xs) ys = ap (λ (l : List (ℕ × ℕ)). (x.ok, x.val) ∷ l) (answers-append xs ys)

AllFit-append : (xs ys : List Round) → AllFit xs → AllFit ys → AllFit (xs ++ ys)
AllFit-append [] ys a b = b
AllFit-append (x ∷ xs) ys (fits, a) b = (fits, AllFit-append xs ys a b)

-- If max_count is a non-negative int and at least the number of rounds of the first loop,
-- queue_init succeeds, and malloc answers different unused addresses that are not NULL, main of
-- queue-example.c with any numbers of rounds prints that each queue_add has answered 1; then its
-- calls of queue_get give the numbers back in their order, and behind the last one 0 with the -1
-- that stood there. In each round the printed difference of the counts is the printed size.
pub run-answers :
    (max_count adds gets : ℕ) (fresh : ℕ → ℕ) (s : State Lock)
    → max_count ≤ int_max
    → adds ≤ max_count
    → ((j k : ℕ) → j < k → k < adds → fresh j ≢ fresh k)
    → ((j : ℕ) → j < adds → (fresh j ≢ null) × (s.heap (fresh j) ≡ none))
    → Returns
        (λ out _.
          (answers out ≡ accepted (numbers adds 0) ++ taken gets (numbers adds 0)) × AllFit out)
        (run max_count adds gets true 0 fresh s)
unfolding run
run-answers max_count adds gets fresh s small room apart free =
    let begun : Holds (empty max_count) _ =
      (Represents-empty s.heap s.queue max_count small, (omega arith, omega arith)) in
    Returns-and_then
      (add_rounds-Adds fresh adds apart adds 0 _ (empty max_count) begun (omega arith) (omega arith)
        (λ j from below. free j below))
      λ added t (answered, fit, (g, holds, items)).
        Returns-and_then (get_rounds-Gets gets t g (numbers adds 0) holds items)
          λ got u (taken_out, fit'). returns (
            answers-append added got ∙ rw (answered, taken_out) refl,
            AllFit-append added got fit fit',
          )

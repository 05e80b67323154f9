-- ===== src/List/Threads/Turns.antt =====
-- Turns of the threads of list-threads.c in task2/2.3 on a list on which nobody else works.
use osi.Base.{suc, ◌≡◌, refl, ◌≢◌, ◌∙◌, ap, sym, ◌≤◌, length, [], ◌∷◌, false, some, ◌==◌, arith}
use mathlib.Core.Path.{fun_ext}
use osi.Chain
use osi.Chain.{Ptr, null, node, write, has, head_ptr, Linked}
use osi.Machine.{ok}
use osi.List.Store.{Item, Lists, State}
use osi.List.Laws.{IsList}
use osi.List.Threads.{
  NodeLock, Operation, is_more, is_less, is_equal, add_one, compare_turn, compare_turns,
}

module _ {L : Type 0} (locks : NodeLock L) where
  open locks use {rdlock, wrlock, unlock}

  -- `add_one` keeps the first node.
  abbrev counted : Operation → Lists → Lists
  counted op l = record (add_one op l) { first = l.first }

  counted_lem : (op : Operation) (l : Lists) → counted op l ≡ add_one op l
  unfolding add_one
  counted_lem is_more l = refl
  counted_lem is_less l = refl
  counted_lem is_equal l = refl

  compare_turn-next_writes :
      (op : Operation) (s : State L) (iter p q : Ptr) (v w : Item L) (l m : L)
      → iter ≢ null
      → p ≢ null
      → (p == iter) ≡ false
      → s.heap iter ≡ some (node v p)
      → s.heap p ≡ some (node w q)
      → rdlock v.lock ≡ some l
      → rdlock w.lock ≡ some m
      → unlock l ≡ some v.lock
      → unlock m ≡ some w.lock
      → compare_turn locks op iter s
        ≡ ok p (record s {
          heap =
              write
                (write
                  (write
                    (write s.heap iter (some (node (record v { lock = l }) p)))
                    p
                    (some (node (record w { lock = m }) q)))
                  p
                  (some (node w q)))
                iter
                (some (node v p));
        })
  unfolding compare_turn
  compare_turn-next_writes op s iter p q v w l m ne np other at_iter at_p lv lw ul um = ground arith

  pub restored :
      (h : Chain.Heap (Item L)) (a p : Ptr) (n m n' m' : Chain.Node (Item L))
      → (p == a) ≡ false
      → h a ≡ some n
      → h p ≡ some m
      → write (write (write (write h a (some n')) p (some m')) p (some m)) a (some n) ≡ h
  restored h a p n m n' m' other at_a at_p = fun_ext λ r. ground arith

  compare_turn-next :
      (op : Operation) (s : State L) (iter p q : Ptr) (v w : Item L) (l m : L)
      → iter ≢ null
      → p ≢ null
      → (p == iter) ≡ false
      → s.heap iter ≡ some (node v p)
      → s.heap p ≡ some (node w q)
      → rdlock v.lock ≡ some l
      → rdlock w.lock ≡ some m
      → compare_turn locks op iter s ≡ ok p s
  compare_turn-next op s iter p q v w l m ne np other at_iter at_p lv lw =
      compare_turn-next_writes op s iter p q v w l m ne np other at_iter at_p lv lw
        (locks.unlock-rdlock _ _ lv) (locks.unlock-rdlock _ _ lw)
      ∙ ap (λ (h : Chain.Heap (Item L)). ok p (record s { heap = h }))
          (restored s.heap iter p _ _ _ _ other at_iter at_p)

  compare_turn-last_writes :
      (op : Operation) (s : State L) (iter q : Ptr) (v w : Item L) (l m : L)
      → iter ≢ null
      → s.list.first ≢ null
      → (s.list.first == iter) ≡ false
      → s.heap iter ≡ some (node v null)
      → s.heap s.list.first ≡ some (node w q)
      → rdlock v.lock ≡ some l
      → rdlock w.lock ≡ some m
      → unlock l ≡ some v.lock
      → unlock m ≡ some w.lock
      → compare_turn locks op iter s
        ≡ ok s.list.first (record s {
          heap =
              write
                (write
                  (write
                    (write s.heap iter (some (node (record v { lock = l }) null)))
                    s.list.first
                    (some (node (record w { lock = m }) q)))
                  s.list.first
                  (some (node w q)))
                iter
                (some (node v null));
          list = record (add_one op s.list) { first = s.list.first };
        })
  unfolding compare_turn add_one
  compare_turn-last_writes is_more s iter q v w l m ne np other at_iter at_p lv lw ul um =
      ground arith
  compare_turn-last_writes is_less s iter q v w l m ne np other at_iter at_p lv lw ul um =
      ground arith
  compare_turn-last_writes is_equal s iter q v w l m ne np other at_iter at_p lv lw ul um =
      ground arith

  compare_turn-last :
      (op : Operation) (s : State L) (iter q : Ptr) (v w : Item L) (l m : L)
      → iter ≢ null
      → s.list.first ≢ null
      → (s.list.first == iter) ≡ false
      → s.heap iter ≡ some (node v null)
      → s.heap s.list.first ≡ some (node w q)
      → rdlock v.lock ≡ some l
      → rdlock w.lock ≡ some m
      → compare_turn locks op iter s ≡ ok s.list.first (record s { list = counted op s.list })
  compare_turn-last op s iter q v w l m ne np other at_iter at_p lv lw =
      compare_turn-last_writes op s iter q v w l m ne np other at_iter at_p lv lw
        (locks.unlock-rdlock _ _ lv) (locks.unlock-rdlock _ _ lw)
      ∙ ap
          (λ (h : Chain.Heap (Item L)).
            ok s.list.first (record s { heap = h; list = counted op s.list }))
          (restored s.heap iter s.list.first _ _ _ _ other at_iter at_p)

  -- Every lock of the nodes can be taken for reading.
  abbrev pub Readable : Chain.Cells (Item L) → Type 0
  Readable [] = Unit
  Readable ((p, v) ∷ xs) = ((l : L) × (rdlock v.lock ≡ some l)) × Readable xs

  -- The turns from a node behind the first one to the end, and back to the first.
  compare_turns-rest :
      (op : Operation) (s : State L) (iter q : Ptr) (v w : Item L) (xs : Chain.Cells (Item L))
      (m : L)
      → s.list.first ≢ null
      → s.heap s.list.first ≡ some (node w q)
      → rdlock w.lock ≡ some m
      → Linked s.heap ((iter, v) ∷ xs)
      → Readable ((iter, v) ∷ xs)
      → has s.list.first ((iter, v) ∷ xs) ≡ false
      → compare_turns locks op (suc (length xs)) iter s
        ≡ ok s.list.first (record s { list = counted op s.list })
  unfolding compare_turns
  compare_turns-rest op s iter q v w [] m nf at_f lw l (lv, _) out =
      rw (compare_turn-last op s iter q v w lv.0 m l.0 nf (ground arith) l.1 at_f lv.1 lw)
  compare_turns-rest op s iter q v w ((p, u) ∷ xs) m nf at_f lw l (lv, (lu, rest)) out =
      rw
        (compare_turn-next op s iter p (head_ptr xs) v u lv.0 lu.0 l.0 l.3.0 (ground arith) l.1
          l.3.1 lv.1 lu.1)
        (compare_turns-rest op s p q u w xs m nf at_f lw l.3 (lu, rest) (ground arith))

  from_first :
      (op : Operation) (s : State L) (p q : Ptr) (v w : Item L) (xs : Chain.Cells (Item L))
      → Linked s.heap ((p, v) ∷ (q, w) ∷ xs)
      → s.list.first ≡ p
      → Readable ((p, v) ∷ (q, w) ∷ xs)
      → compare_turns locks op (suc (suc (length xs))) s.list.first s
        ≡ ok s.list.first (record s { list = add_one op s.list })
  unfolding compare_turns
  from_first op s p q v w xs l first (lv, (lw, rest)) =
      rw
        (compare_turn-next op s s.list.first q (head_ptr xs) v w lv.0 lw.0
          (λ e. l.0 (sym first ∙ e)) l.3.0 (ground arith) (ap s.heap first ∙ l.1) l.3.1 lv.1 lw.1)
        (compare_turns-rest op s q q w v xs lv.0 (λ e. l.0 (sym first ∙ e)) (ap s.heap first ∙ l.1)
            lv.1 l.3 (lw, rest) (ap (λ (a : Ptr). has a ((q, w) ∷ xs)) first ∙ l.2)
          ∙ ap (λ (t : Lists). ok s.list.first (record s { list = t })) (counted_lem op s.list))

  -- On a well-formed list of two nodes or more whose locks can all be taken for reading, as many
  -- turns of thread_comparision as there are nodes, with nobody else at work, return to the first
  -- node, add one to the counter of the operation, and change nothing else, no lock either.
  pub compare_turns-counts :
      (op : Operation) (s : State L) (xs : Chain.Cells (Item L))
      → IsList s.heap s.list xs
      → Readable xs
      → 2 ≤ length xs
      → compare_turns locks op (length xs) s.list.first s
        ≡ ok s.list.first (record s { list = add_one op s.list })
  compare_turns-counts op s [] is free long = absurd (omega arith)
  compare_turns-counts op s (x ∷ []) is free long = absurd (omega arith)
  compare_turns-counts op s ((p, v) ∷ (q, w) ∷ xs) is (lv, (lw, rest)) long =
      from_first op s p q v w xs is.linked is.first (lv, (lw, rest))

-- ===== src/List/Threads/Exchange.antt =====
-- The exchange of `swap_threads` in list-threads.c of task2/2.3, on a list on which nobody else works.
use osi.Base.{◌≡◌, refl, ◌≢◌, ◌∙◌, ap, ◌∷◌, ◌++◌, true, false, some, ◌==◌, arith}
use mathlib.Core.Path.{fun_ext}
use osi.Chain
use osi.Chain.{Ptr, null, node, write, has, head_ptr, Linked}
use osi.Machine.{ok, Returns, returns}
use osi.List.Store.{Item, State}
use osi.List.Swap.{swapped, Linked-suffix}
use osi.List.Laws.{IsList, exchanged-IsList}
use osi.List.Threads.{NodeLock, exchange, followed, move_on, swap_turn}
use osi.List.Threads.Turns.{restored}

module _ {L : Type 0} (locks : NodeLock L) where
  open locks use {rdlock, wrlock, unlock}

  -- a node on the heap whose lock is `l` for a while
  abbrev held : Item L → L → Item L
  held v l = record v { lock = l }

  -- the heap behind the nine changes: three locks, `swap_nodes`, and three unlocks
  abbrev changed :
      Chain.Heap (Item L) → (p f g q : Ptr) (a b c : Item L) (l m n : L) → Chain.Heap (Item L)
  changed h p f g q a b c l m n =
      let locked =
        write (write (write h p (some (node (held a l) f))) f (some (node (held b m) g))) g
          (some (node (held c n) q)) in
      let swapped =
        write (write (write locked p (some (node (held a l) g))) f (some (node (held b m) q))) g
          (some (node (held c n) f)) in
      write (write (write swapped f (some (node b q))) g (some (node c f))) p (some (node a g))

  exchange-changed :
      (s : State L) (p f g q : Ptr) (a b c : Item L) (l m n : L)
      → p ≢ null
      → f ≢ null
      → g ≢ null
      → (p == f) ≡ false
      → (p == g) ≡ false
      → (f == g) ≡ false
      → s.heap p ≡ some (node a f)
      → s.heap f ≡ some (node b g)
      → s.heap g ≡ some (node c q)
      → wrlock a.lock ≡ some l
      → wrlock b.lock ≡ some m
      → wrlock c.lock ≡ some n
      → unlock l ≡ some a.lock
      → unlock m ≡ some b.lock
      → unlock n ≡ some c.lock
      → exchange locks p s ≡ ok tt (record s { heap = changed s.heap p f g q a b c l m n })
  unfolding exchange
  exchange-changed s p f g q a b c l m n np nf ng pf pg fg at_p at_f at_g lp lf lg up uf ug =
      ground arith

  changed-swapped :
      (h : Chain.Heap (Item L)) (p f g q : Ptr) (a b c : Item L) (l m n : L)
      → (p == f) ≡ false
      → (p == g) ≡ false
      → (f == g) ≡ false
      → changed h p f g q a b c l m n ≡ swapped h p f g a b c q
  changed-swapped h p f g q a b c l m n pf pg fg = fun_ext λ r. ground arith

  move_on-next_writes :
      (s : State L) (iter p q : Ptr) (v w : Item L) (l m : L)
      → iter ≢ null
      → p ≢ null
      → (p == iter) ≡ false
      → s.heap iter ≡ some (node v p)
      → s.heap p ≡ some (node w q)
      → rdlock v.lock ≡ some l
      → rdlock w.lock ≡ some m
      → unlock l ≡ some v.lock
      → unlock m ≡ some w.lock
      → move_on locks iter s
        ≡ ok p (record s {
          heap =
              write
                (write
                  (write
                    (write s.heap iter (some (node (held v l) p)))
                    p
                    (some (node (held w m) q)))
                  p
                  (some (node w q)))
                iter
                (some (node v p));
        })
  unfolding move_on
  move_on-next_writes s iter p q v w l m ne np other at_iter at_p lv lw ul um = ground arith

  move_on-next :
      (s : State L) (iter p q : Ptr) (v w : Item L) (l m : L)
      → iter ≢ null
      → p ≢ null
      → (p == iter) ≡ false
      → s.heap iter ≡ some (node v p)
      → s.heap p ≡ some (node w q)
      → rdlock v.lock ≡ some l
      → rdlock w.lock ≡ some m
      → move_on locks iter s ≡ ok p s
  move_on-next s iter p q v w l m ne np other at_iter at_p lv lw =
      move_on-next_writes s iter p q v w l m ne np other at_iter at_p lv lw
        (locks.unlock-rdlock _ _ lv) (locks.unlock-rdlock _ _ lw)
      ∙ ap (λ (h : Chain.Heap (Item L)). ok p (record s { heap = h }))
          (restored locks s.heap iter p _ _ _ _ other at_iter at_p)

  pub followed-three :
      (s : State L) (p f g q : Ptr) (a b c d : Item L) (ys : Chain.Cells (Item L))
      → Linked s.heap ((p, a) ∷ (f, b) ∷ (g, c) ∷ (q, d) ∷ ys)
      → followed locks 3 p s ≡ ok true s
  unfolding followed
  followed-three s p f g q a b c d ys l = ground arith

  exchange-swapped :
      (s : State L) (p f g : Ptr) (a b c : Item L) (l m n : L) (ys : Chain.Cells (Item L))
      → Linked s.heap ((p, a) ∷ (f, b) ∷ (g, c) ∷ ys)
      → wrlock a.lock ≡ some l
      → wrlock b.lock ≡ some m
      → wrlock c.lock ≡ some n
      → exchange locks p s ≡ ok tt (record s { heap = swapped s.heap p f g a b c (head_ptr ys) })
  exchange-swapped s p f g a b c l m n ys is lp lf lg =
      let pf : (p == f) ≡ false = ground arith in
      let pg : (p == g) ≡ false = ground arith in
      let fg : (f == g) ≡ false = ground arith in
      exchange-changed s p f g (head_ptr ys) a b c l m n is.0 is.3.0 is.3.3.0 pf pg fg is.1 is.3.1
        is.3.3.1 lp lf lg (locks.unlock-wrlock _ _ lp) (locks.unlock-wrlock _ _ lf)
        (locks.unlock-wrlock _ _ lg)
      ∙ ap (λ (h : Chain.Heap (Item L)). ok tt (record s { heap = h }))
          (changed-swapped s.heap p f g (head_ptr ys) a b c l m n pf pg fg)

  other_of_has :
      (a b : Ptr) (v : Item L) (xs : Chain.Cells (Item L))
      → has a ((b, v) ∷ xs) ≡ false
      → (b == a) ≡ false
  other_of_has a b v xs e = ground arith

  -- On a well-formed list, if the locks of the first three of four nodes in a row can be taken for
  -- writing, and those of the first and third for reading, a turn of swap_threads at the first node
  -- with the random number 1 returns and leaves a well-formed list with the second and third
  -- exchanged, every node with its lock as it was, list_t as it was, and the iterator at the node
  -- that is now second.
  pub swap_turn-exchanges :
      (s : State L) (pre : Chain.Cells (Item L)) (p f g q : Ptr) (a b c d : Item L)
      (ys : Chain.Cells (Item L)) (l m n i j : L)
      → IsList s.heap s.list (pre ++ (p, a) ∷ (f, b) ∷ (g, c) ∷ (q, d) ∷ ys)
      → wrlock a.lock ≡ some l
      → wrlock b.lock ≡ some m
      → wrlock c.lock ≡ some n
      → rdlock a.lock ≡ some i
      → rdlock c.lock ≡ some j
      → Returns
          (λ iter t.
            (iter ≡ g)
            × IsList t.heap t.list (pre ++ (p, a) ∷ (g, c) ∷ (f, b) ∷ (q, d) ∷ ys)
            × (t.list ≡ s.list))
          (swap_turn locks 1 p s)
  unfolding swap_turn
  swap_turn-exchanges s pre p f g q a b c d ys l m n i j is lp lf lg rp rg =
      let old = Linked-suffix s.heap pre ((p, a) ∷ (f, b) ∷ (g, c) ∷ (q, d) ∷ ys) is.linked in
      let new = exchanged-IsList s pre p f g q a b c d ys is in
      let here =
        Linked-suffix (swapped s.heap p f g a b c q) pre ((p, a) ∷ (g, c) ∷ (f, b) ∷ (q, d) ∷ ys)
          new.linked in
      rw
        (
          followed-three s p f g q a b c d ys old,
          exchange-swapped s p f g a b c l m n ((q, d) ∷ ys) old lp lf lg,
          move_on-next (record s { heap = swapped s.heap p f g a b c q }) p g f a c i j here.0
              here.3.0 (other_of_has p g c ((f, b) ∷ (q, d) ∷ ys) here.2) here.1 here.3.1 rp rg,
        )
        (returns (refl, new, refl))

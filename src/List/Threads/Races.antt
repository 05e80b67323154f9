-- ===== src/List/Threads/Races.antt =====
-- Two threads that run `swap_threads` of list-threads.c in task2/2.3 (mutex, rwlock): the test for
-- three followers is made before a lock is taken.
use osi.Base.{◌≡◌, sym, append-shift, [], ◌∷◌, ◌++◌, true, some, arith}
use mathlib.Core.Path.{subst}
use osi.Chain
use osi.Chain.{Ptr, null, node, Linked}
use osi.Machine.{ok, stop, fault, ◌>>=◌, Returns, Returns-and_then, Returns-mono}
use osi.List.Store.{Item, State}
use osi.List.Swap.{Linked-suffix}
use osi.List.Laws.{IsList}
use osi.List.Threads.{NodeLock, exchange, followed, swap_turn}
use osi.List.Threads.Exchange.{swap_turn-exchanges, followed-three}

module _ {L : Type 0} (locks : NodeLock L) where
  open locks use {rdlock, wrlock, unlock}

  -- The lock of a node can be taken, for writing and for reading.
  abbrev pub Lockable : Item L → Type 0
  Lockable v = ((l : L) × (wrlock v.lock ≡ some l)) × ((l : L) × (rdlock v.lock ≡ some l))

  exchange-short :
      (s : State L) (p f : Ptr) (a b : Item L)
      → Linked s.heap ((p, a) ∷ (f, b) ∷ [])
      → Lockable a
      → Lockable b
      → exchange locks p s ≡ stop fault
  unfolding exchange
  exchange-short s p f a b l ((x, ea), _) ((y, eb), _) = ground arith

  -- The second turn, at the third node of the list that the first has left
  second :
      (t : State L) (pre : Chain.Cells (Item L)) (p f g q r : Ptr) (a b c d e : Item L)
      → IsList t.heap t.list (pre ++ (p, a) ∷ (g, c) ∷ (f, b) ∷ (q, d) ∷ (r, e) ∷ [])
      → Lockable b
      → Lockable c
      → Lockable d
      → Lockable e
      → Returns (λ _ u. exchange locks f u ≡ stop fault) (swap_turn locks 1 g t)
  second t pre p f g q r a b c d e now lb lc ld le =
      let pre' = pre ++ (p, a) ∷ [] in
      let now' =
        subst (λ x. IsList t.heap t.list x)
          (append-shift pre (p, a) ((g, c) ∷ (f, b) ∷ (q, d) ∷ (r, e) ∷ [])) now in
      Returns-mono
        (swap_turn-exchanges locks t pre' g f q r c b d e [] _ _ _ _ _ now' lc.0.1 lb.0.1 ld.0.1
          lc.1.1 ld.1.1)
        (λ iter u (at, after, same).
          exchange-short u f r b e
            (Linked-suffix u.heap pre' ((g, c) ∷ (q, d) ∷ (f, b) ∷ (r, e) ∷ []) after.linked).3.3 lb
            le)

  -- At the second of the last five nodes of a well-formed list whose locks can be taken, the test
  -- of swap_threads for three followers succeeds. If another thread then makes a turn with an
  -- exchange at the first of the five, and another one from where it is, the exchange behind the
  -- test reads through NULL.
  pub swap_turn-races :
      (s : State L) (pre : Chain.Cells (Item L)) (p f g q r : Ptr) (a b c d e : Item L)
      → IsList s.heap s.list (pre ++ (p, a) ∷ (f, b) ∷ (g, c) ∷ (q, d) ∷ (r, e) ∷ [])
      → Lockable a
      → Lockable b
      → Lockable c
      → Lockable d
      → Lockable e
      → (followed locks 3 f s ≡ ok true s)
        × Returns
            (λ _ t. exchange locks f t ≡ stop fault)
            ((swap_turn locks 1 p >>= swap_turn locks 1) s)
  swap_turn-races s pre p f g q r a b c d e is la lb lc ld le = (
    followed-three locks s f g q r b c d e [] (Linked-suffix s.heap pre _ is.linked).3,
    Returns-and_then
        (swap_turn-exchanges locks s pre p f g q a b c d ((r, e) ∷ []) _ _ _ _ _ is la.0.1 lb.0.1
          lc.0.1 la.1.1 lc.1.1)
        (λ iter t (at, now, same).
          subst (λ x. Returns (λ _ u. exchange locks f u ≡ stop fault) (swap_turn locks 1 x t))
            (sym at) (second t pre p f g q r a b c d e now lb lc ld le)),
  )

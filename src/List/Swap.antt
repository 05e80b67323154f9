-- ===== src/List/Swap.antt =====
-- `swap_nodes` of task2/2.3 on linked nodes.
use osi.Base.{◌≡◌, refl, false, some, [], ◌∷◌, ◌++◌, arith}
use osi.Chain
use osi.Chain.{Ptr, null, node, write, has, head_ptr, Linked, has-append, Linked-write}
use osi.Machine.{ok}
use osi.List.Store.{Item, State, swap_nodes}

module _ {V : Type 0} where
  -- `h` after the three writes of `swap_nodes`
  abbrev pub swapped : Chain.Heap V → (p f g : Ptr) (a b c : V) (q : Ptr) → Chain.Heap V
  swapped h p f g a b c q =
      write (write (write h p (some (node a g))) f (some (node b q))) g (some (node c f))

  pub head-keep :
      (pre xs ys : Chain.Cells V)
      → head_ptr xs ≡ head_ptr ys
      → head_ptr (pre ++ xs) ≡ head_ptr (pre ++ ys)
  head-keep [] xs ys e = e
  head-keep (x ∷ pre) xs ys e = refl

  -- Nodes in front of the place of the exchange do not notice it.
  pub Linked-front :
      (h h' : Chain.Heap V) (pre xs ys : Chain.Cells V)
      → head_ptr xs ≡ head_ptr ys
      → ((r : Ptr) → has r xs ≡ has r ys)
      → ((r : Ptr) → has r xs ≡ false → h' r ≡ h r)
      → Linked h (pre ++ xs)
      → (Linked h xs → Linked h' ys)
      → Linked h' (pre ++ ys)
  Linked-front h h' [] xs ys heads same spared l step = step l
  Linked-front h h' ((r, v) ∷ pre) xs ys heads same spared l step = (
    l.0,
    rw (spared r (not_in r pre xs l.2), ← head-keep pre xs ys heads) l.1,
    rw (has-append r pre ys, ← same r, ← has-append r pre xs) l.2,
    Linked-front h h' pre xs ys heads same spared l.3 step,
  )
    where
      not_in : (r : Ptr) (pre xs : Chain.Cells V) → has r (pre ++ xs) ≡ false → has r xs ≡ false
      not_in r pre xs e = ground (arith, has-append r pre xs)

  pub Linked-swapped :
      (h : Chain.Heap V) (p f g : Ptr) (a b c : V) (ys : Chain.Cells V)
      → Linked h ((p, a) ∷ (f, b) ∷ (g, c) ∷ ys)
      → Linked (swapped h p f g a b c (head_ptr ys)) ((p, a) ∷ (g, c) ∷ (f, b) ∷ ys)
  Linked-swapped h p f g a b c ys l = (
    l.0,
    ground arith,
    ground arith,
    (
      l.3.3.0,
      ground arith,
      ground arith,
      (
        l.3.0,
        ground arith,
        ground arith,
        Linked-write _ ys g _
            (Linked-write _ ys f _ (Linked-write h ys p _ l.3.3.3 (ground arith)) (ground arith))
            (ground arith),
      ),
    ),
  )

  pub Linked-suffix :
      (h : Chain.Heap V) (pre xs : Chain.Cells V) → Linked h (pre ++ xs) → Linked h xs
  Linked-suffix h [] xs l = l
  Linked-suffix h (x ∷ pre) xs l = Linked-suffix h pre xs l.3

module _ {L : Type 0} where
  pub swap_nodes-swapped :
      (s : State L) (p f g : Ptr) (a b c : Item L) (ys : Chain.Cells (Item L))
      → Linked s.heap ((p, a) ∷ (f, b) ∷ (g, c) ∷ ys)
      → swap_nodes f g p s ≡ ok tt (record s { heap = swapped s.heap p f g a b c (head_ptr ys) })
  unfolding swap_nodes
  swap_nodes-swapped s p f g a b c ys l = ground arith

-- ===== src/List/Laws.antt =====
-- What a well-formed list of task2/2.3 looks like on the heap, and `swap_nodes` on one.
use osi.Base.{suc, ◌≤◌, ◌≡◌, refl, ◌∙◌, ap, [], ◌∷◌, ◌++◌, arith, length, int_max}
use osi.Chain
use osi.Chain.{
  Ptr, null, node, write, has, head_ptr, last_ptr, last_val, Linked, not-has_of_none, Linked-write,
  Linked-last, Linked-snoc, last_ptr-snoc,
}
use osi.Machine.{Returns, returns}
use osi.List.Store.{Item, Lists, State, swap_nodes}
use osi.List.Swap.{
  swapped, head-keep, Linked-front, Linked-swapped, Linked-suffix, swap_nodes-swapped,
}

module _ {L : Type 0} where
  pub record IsList (h : Chain.Heap (Item L)) (l : Lists) (xs : Chain.Cells (Item L)) : Type 0 where
    pub first : l.first ≡ head_ptr xs
    pub last : l.last ≡ last_ptr l.last xs
    pub linked : Linked h xs
    pub count : l.count ≡ length xs
    pub room : length xs ≤ l.max_count
    pub small : l.max_count ≤ int_max

  -- swap_nodes
  last-keep :
      (r : Ptr) (pre : Chain.Cells (Item L)) (p f g q : Ptr) (a b c d : Item L)
      (ys : Chain.Cells (Item L))
      → last_ptr r (pre ++ (p, a) ∷ (f, b) ∷ (g, c) ∷ (q, d) ∷ ys)
        ≡ last_ptr r (pre ++ (p, a) ∷ (g, c) ∷ (f, b) ∷ (q, d) ∷ ys)
  last-keep r [] p f g q a b c d ys = refl
  last-keep r ((t, v) ∷ pre) p f g q a b c d ys = last-keep t pre p f g q a b c d ys

  length-keep :
      (pre : Chain.Cells (Item L)) (p f g q : Ptr) (a b c d : Item L) (ys : Chain.Cells (Item L))
      → length (pre ++ (p, a) ∷ (f, b) ∷ (g, c) ∷ (q, d) ∷ ys)
        ≡ length (pre ++ (p, a) ∷ (g, c) ∷ (f, b) ∷ (q, d) ∷ ys)
  length-keep [] p f g q a b c d ys = refl
  length-keep (x ∷ pre) p f g q a b c d ys = ap suc (length-keep pre p f g q a b c d ys)

  pub exchanged-IsList :
      (s : State L) (pre : Chain.Cells (Item L)) (p f g q : Ptr) (a b c d : Item L)
      (ys : Chain.Cells (Item L))
      → IsList s.heap s.list (pre ++ (p, a) ∷ (f, b) ∷ (g, c) ∷ (q, d) ∷ ys)
      → IsList (swapped s.heap p f g a b c q) s.list (pre ++ (p, a) ∷ (g, c) ∷ (f, b) ∷ (q, d) ∷ ys)
  exchanged-IsList s pre p f g q a b c d ys is = record {
    first = is.first ∙ head-keep pre _ _ refl;
    last = is.last ∙ last-keep s.list.last pre p f g q a b c d ys;
    linked =
        Linked-front s.heap (swapped s.heap p f g a b c q) pre _ _ refl (λ r. ground arith)
          (λ r out. ground arith) is.linked (Linked-swapped s.heap p f g a b c ((q, d) ∷ ys));
    count = is.count ∙ length-keep pre p f g q a b c d ys;
    room = omega (arith, length-keep pre p f g q a b c d ys, is.room);
    small = is.small;
  }

  -- On a well-formed list, swap_nodes with the second and third of four nodes in a row, and the
  -- first as parent, returns and leaves a well-formed list with the two exchanged, and list_t as it
  -- was.
  pub swap_nodes-exchanges :
      (s : State L) (pre : Chain.Cells (Item L)) (p f g q : Ptr) (a b c d : Item L)
      (ys : Chain.Cells (Item L))
      → IsList s.heap s.list (pre ++ (p, a) ∷ (f, b) ∷ (g, c) ∷ (q, d) ∷ ys)
      → Returns
          (λ _ t.
            IsList t.heap t.list (pre ++ (p, a) ∷ (g, c) ∷ (f, b) ∷ (q, d) ∷ ys)
            × (t.list ≡ s.list))
          (swap_nodes f g p s)
  swap_nodes-exchanges s pre p f g q a b c d ys is =
      rw (swap_nodes-swapped s p f g a b c ((q, d) ∷ ys) (Linked-suffix s.heap pre _ is.linked))
        (returns (exchanged-IsList s pre p f g q a b c d ys is, refl))

-- ===== src/List/Front.antt =====
-- The first node of a list: `list_get_first`, `list_get` and `list_destroy` of task2/2.3.
use osi.Base.{
  ℕ, suc, ◌≤◌, ◌<◌, ◌≡◌, refl, ◌≢◌, ◌∙◌, sym, ap, true, false, none, some, [], ◌∷◌, arith, ◌==◌,
  if◌then◌else◌, length, int_max, dec_int, dec_int-suc, le_int, le_int-le,
}
use osi.Chain
use osi.Chain.{Ptr, null, node, write, head_ptr, last_ptr, Linked, Linked-write, has}
use osi.Machine.{ok, stop, fault, Returns, returns, Returns-mono}
use osi.List.Store.{Item, State, minus_one, load, list_get, list_get_first, list_destroy}
use osi.List.Laws.{IsList}
use osi.List.Ends.{last_ptr-tail}

module _ {L : Type 0} where
  abbrev without_first : State L → Ptr → State L
  without_first s p = record s {
    heap = write s.heap s.list.first none;
    list = record s.list { first = p };
  }

  -- What the two functions do if `count` is not 0 and there is a first node.
  list_get-node :
      (s : State L) (junk : ℕ) (v : Item L) (p : Ptr)
      → le_int 0 s.list.count ≡ true
      → (s.list.count == 0) ≡ false
      → s.list.first ≢ null
      → s.heap s.list.first ≡ some (node v p)
      → list_get junk s ≡ ok (1, v.val) (without_first s p)
  unfolding list_get
  list_get-node s junk v p pos some_left ne e = ground arith

  list_get_first-node :
      (s : State L) (junk : ℕ) (v : Item L) (p : Ptr)
      → le_int 0 s.list.count ≡ true
      → (s.list.count == 0) ≡ false
      → s.list.first ≢ null
      → s.heap s.list.first ≡ some (node v p)
      → list_get_first junk s
        ≡ ok
            (1, v.val)
            (record (without_first s p) {
              list = record s.list { first = p; count = dec_int s.list.count };
            })
  unfolding list_get_first
  list_get_first-node s junk v p pos some_left ne e = ground arith

  list_get_first-none :
      (s : State L) (junk : ℕ) → s.list.count ≡ 0 → list_get_first junk s ≡ ok (0, junk) s
  unfolding list_get_first le_int
  list_get_first-none s junk e = ground arith

  list_get-null :
      (s : State L) (junk : ℕ)
      → s.list.count ≡ 1
      → s.list.first ≡ null
      → list_get junk s ≡ stop fault
  unfolding list_get load le_int
  list_get-null s junk e first = ground arith

  first_null : (s : State L) → s.list.first ≡ null → (s.list.first == null) ≡ true
  first_null s e = ground arith

  first_not_null :
      (s : State L) (p : Ptr) → s.list.first ≡ p → p ≢ null → (s.list.first == null) ≡ false
  first_not_null s p e ne = ground arith

  count_not_zero : (s : State L) → 1 ≤ s.list.count → (s.list.count == 0) ≡ false
  count_not_zero s e = ground arith

  freed_first :
      (s : State L) (p : Ptr) (v : Item L) (xs : Chain.Cells (Item L)) (a : Ptr)
      → s.list.first ≡ p
      → (if has a xs then none else write s.heap s.list.first none a)
        ≡ (if has a ((p, v) ∷ xs) then none else s.heap a)
  freed_first s p v xs a e = ground arith

  -- What `list_get_first` answers and leaves, by the sequence of the items.
  abbrev pub Taken : ℕ → State L → Chain.Cells (Item L) → ℕ × ℕ → State L → Type 0
  Taken junk s [] a t = (a ≡ (0, junk)) × (t ≡ s)
  Taken junk s ((p, v) ∷ xs) a t = (a ≡ (1, v.val)) × IsList t.heap t.list xs × (t.heap p ≡ none)

  -- On a well-formed list, list_get_first returns: without nodes 0 and no change, else 1 and the
  -- val of the first node, which has been freed, and a well-formed list of the others.
  pub list_get_first-removes :
      (s : State L) (xs : Chain.Cells (Item L)) (junk : ℕ)
      → IsList s.heap s.list xs
      → Returns (Taken junk s xs) (list_get_first junk s)
  list_get_first-removes s [] junk is =
      rw (list_get_first-none s junk is.count) (returns (refl, refl))
  list_get_first-removes s ((p, v) ∷ xs) junk is =
      let less : length xs < int_max = omega (arith, is.room, is.small) in
      rw
        (list_get_first-node s junk v (head_ptr xs)
          (le_int-le 0 s.list.count (omega arith) (omega (arith, is.count, less)))
          (count_not_zero s (omega (arith, is.count))) (λ e. is.linked.0 (sym is.first ∙ e))
          (ap s.heap is.first ∙ is.linked.1))
        (returns (
          refl,
          record {
            first = refl;
            last = last_ptr-tail s.list.last p xs is.last;
            linked = rw (is.first) (Linked-write s.heap xs p none is.linked.3 is.linked.2);
            count = ap dec_int is.count ∙ dec_int-suc (length xs) less;
            room = omega (arith, is.room);
            small = is.small;
          },
          rw is.first (ground arith),
        ))

  -- On a well-formed list of one node, list_get returns 1 and its val but leaves count at 1, so
  -- that the next list_get reads through NULL.
  pub list_get-stale :
      (s : State L) (p : Ptr) (v : Item L) (junk : ℕ)
      → IsList s.heap s.list ((p, v) ∷ [])
      → Returns (λ a t. (a ≡ (1, v.val)) × (list_get junk t ≡ stop fault)) (list_get junk s)
  list_get-stale s p v junk is =
      rw
        (list_get-node s junk v null
          (le_int-le 0 s.list.count (omega arith) (omega (arith, is.count)))
          (count_not_zero s (omega (arith, is.count))) (λ e. is.linked.0 (sym is.first ∙ e))
          (ap s.heap is.first ∙ is.linked.1))
        (returns (refl, list_get-null (without_first s null) junk is.count refl))

  -- The state in which a run of `list_destroy` that began with the nodes `xs` ends.
  abbrev pub Destroyed : State L → Chain.Cells (Item L) → State L → Type 0
  Destroyed s xs t =
      (t.list.first ≡ null) × ((p : Ptr) → t.heap p ≡ (if has p xs then none else s.heap p))

  -- If the nodes from first on are linked and count is a positive int, the loop of list_destroy
  -- ends within one more test than there are nodes: first is NULL, these nodes have been freed and
  -- nothing else has changed on the heap.
  pub list_destroy-frees :
      (s : State L) (xs : Chain.Cells (Item L))
      → Linked s.heap xs
      → s.list.first ≡ head_ptr xs
      → 1 ≤ s.list.count
      → s.list.count ≤ int_max
      → Returns (λ _. Destroyed s xs) (list_destroy (suc (length xs)) s)
  unfolding list_destroy
  list_destroy-frees s [] l first some_left small =
      rw (first_null s first) (returns (first, λ p. refl))
  list_destroy-frees s ((p, v) ∷ xs) l first some_left small =
      rw
        (
          first_not_null s p first l.0,
          list_get-node s minus_one v (head_ptr xs) (le_int-le 0 s.list.count (omega arith) small)
              (count_not_zero s some_left) (λ e. l.0 (sym first ∙ e)) (ap s.heap first ∙ l.1),
        )
        (Returns-mono
          (list_destroy-frees (without_first s (head_ptr xs)) xs
            (rw first (Linked-write s.heap xs p none l.3 l.2)) refl some_left small)
          λ _ t (gone, freed). (gone, λ a. freed a ∙ freed_first s p v xs a first))

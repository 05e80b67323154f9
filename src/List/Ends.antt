-- ===== src/List/Ends.antt =====
-- `list_add_last` of task2/2.3 against the sequence of items that the list holds.
use osi.Base.{
  ℕ, ◌+◌, ◌≤◌, ◌<◌, ◌≡◌, refl, ◌≢◌, ◌∙◌, sym, ap, true, false, none, some, List, [], ◌∷◌, ◌++◌,
  arith, ◌==◌, Bool-cases, inl, inr, if◌then◌else◌, length, length-append, inc_int, inc_int-suc,
  le_int, le_int-le, leb,
}
use mathlib.Core.Path.{subst}
use osi.Chain
use osi.Chain.{
  Ptr, null, node, write, has, head_ptr, last_ptr, last_val, Linked, not-has_of_none, Linked-write,
  Linked-last, Linked-snoc, last_ptr-snoc,
}
use osi.Machine.{ok, Returns, returns, Returns-and_then}
use osi.List.Store.{Item, State, string_size, link_last, list_add_last}
use osi.List.Laws.{IsList}

pub last_ptr-tail :
    {V : Type 0} (l p : Ptr) (xs : Chain.Cells V) → l ≡ last_ptr p xs → l ≡ last_ptr l xs
last_ptr-tail l p [] e = refl
last_ptr-tail l p (x ∷ xs) e = e

module _ {L : Type 0} where
  pub assert-passes :
      (s : State L) (xs : Chain.Cells (Item L))
      → IsList s.heap s.list xs
      → (le_int s.list.count s.list.max_count ≡ true) × (le_int 0 s.list.count ≡ true)
  assert-passes s xs is = (
    le_int-le s.list.count s.list.max_count (omega (arith, is.count, is.room)) is.small,
    le_int-le 0 s.list.count (omega arith) (omega (arith, is.count, is.room, is.small)),
  )

  -- The state when `list_add_last` links the node `new` that it has just filled.
  pub link_last-nil :
      (s : State L) (new : Ptr)
      → s.list.first ≡ null
      → link_last new s ≡ ok tt (record s { list = record s.list { first = new; last = new } })
  unfolding link_last
  link_last-nil s new first = ground arith

  pub link_last-cons :
      (s : State L) (new : Ptr) (u : Item L)
      → s.list.first ≢ null
      → s.list.last ≢ null
      → s.heap s.list.last ≡ some (node u null)
      → link_last new s
        ≡ ok tt (record s {
          heap = write s.heap s.list.last (some (node u new));
          list = record s.list { last = new };
        })
  unfolding link_last
  link_last-cons s new u first last e = ground arith

  -- the heap and the record behind `link_last`
  abbrev LinkedLast : State L → Ptr → Item L → Chain.Cells (Item L) → State L → Type 0
  LinkedLast s new v xs t =
      Linked t.heap (xs ++ (new, v) ∷ [])
      × (t.list ≡ record s.list { first = head_ptr (xs ++ (new, v) ∷ []); last = new })

  link_last-cells :
      (s : State L) (new : Ptr) (v : Item L) (xs : Chain.Cells (Item L))
      → IsList s.heap s.list xs
      → new ≢ null
      → s.heap new ≡ none
      → Returns
          (λ _. LinkedLast s new v xs)
          (link_last new (record s { heap = write s.heap new (some (node v null)) }))
  link_last-cells s new v [] is ne unused =
      rw (link_last-nil (record s { heap = write s.heap new (some (node v null)) }) new is.first)
        (returns ((ne, ground arith, refl, tt), refl))
  link_last-cells s new v ((p, w) ∷ xs) is ne unused =
      let out = not-has_of_none s.heap ((p, w) ∷ xs) new is.linked unused in
      let h = write s.heap new (some (node v null)) in
      let l = Linked-write s.heap ((p, w) ∷ xs) new _ is.linked out in
      let (ne_last, at_last) = Linked-last h p w xs l in
      rw
        (link_last-cons (record s { heap = h }) new (last_val w xs)
          (λ e. is.linked.0 (sym is.first ∙ e)) (λ e. ne_last (sym is.last ∙ e))
          (ap h is.last ∙ at_last))
        (returns (
          subst
              (λ a.
                Linked (write h a (some (node (last_val w xs) new)))
                  (((p, w) ∷ xs) ++ (new, v) ∷ []))
              (sym is.last) (Linked-snoc h p w xs new v l ne (ground arith) out),
          ap (λ (a : Ptr). record s.list { first = a; last = new }) is.first,
        ))

  added-room :
      (xs : Chain.Cells (Item L)) (n : ℕ) → length xs ≤ n → (length xs == n) ≡ false → length xs < n
  added-room xs n le e = ground arith

  added-IsList :
      (s t : State L) (new : Ptr) (v : Item L) (xs : Chain.Cells (Item L))
      → IsList s.heap s.list xs
      → LinkedLast s new v xs t
      → length xs < s.list.max_count
      → IsList t.heap (record t.list { count = inc_int t.list.count }) (xs ++ (new, v) ∷ [])
  added-IsList s t new v xs is (linked, l) less =
      let grown : length (xs ++ (new, v) ∷ []) ≡ length xs + 1 = length-append xs _ in
      record {
        first = ap (λ l. l.first) l;
        last = ap (λ l. l.last) l ∙ sym (last_ptr-snoc t.list.last xs new v);
        linked = linked;
        count =
            omega (
              arith,
              grown,
              is.count,
              less,
              is.small,
              ap (λ l. l.count) l,
              inc_int-suc t.list.count,
            );
        room = omega (arith, grown, less, ap (λ l. l.max_count) l);
        small = omega (arith, is.small, ap (λ l. l.max_count) l);
      }

  -- On a well-formed list, if malloc answers an unused address that is not NULL and the string
  -- fits, list_add_last returns: at the bound 0 and no change, else 1 and a well-formed list with
  -- one more node at its end, whose val is what malloc left and whose lock is new; swap_count
  -- stays.
  pub list_add_last-appends :
      (s : State L) (xs : Chain.Cells (Item L)) (unlocked : L) (fresh junk : ℕ) (str : List ℕ)
      → IsList s.heap s.list xs
      → fresh ≢ null
      → s.heap fresh ≡ none
      → length str < string_size
      → Returns
          (λ a t.
            if length xs == s.list.max_count
            then (a ≡ 0) × (t ≡ s)
            else (a ≡ 1)
              × IsList t.heap t.list
                  (xs ++ (fresh, record { val = junk; string = str; lock = unlocked }) ∷ [])
              × (t.list.swap_count ≡ s.list.swap_count))
          (list_add_last unlocked fresh junk str s)
  unfolding list_add_last
  list_add_last-appends s xs unlocked fresh junk str is ne unused fits =
      let test : (s.list.count == s.list.max_count) ≡ (length xs == s.list.max_count) =
        ap (λ (n : ℕ). n == s.list.max_count) is.count in
      elim (Bool-cases (length xs == s.list.max_count)) [
        | inl full ↦ rw ((assert-passes s xs is).0, full, test ∙ full) (returns (refl, refl))
        | inr room ↦
            let not_null : (fresh == null) ≡ false = ground arith in
            let short : leb string_size (length str) ≡ false = ground arith in
            let less : length xs < s.list.max_count = added-room xs s.list.max_count is.room room in
            rw ((assert-passes s xs is).0, room, test ∙ room, not_null, short)
              (Returns-and_then
                (link_last-cells s fresh (record { val = junk; string = str; lock = unlocked }) xs
                  is ne unused)
                λ _ t linked. returns (
                  refl,
                  added-IsList s t fresh _ xs is linked less,
                  ap (λ l. l.swap_count) linked.1,
                ))
      ]

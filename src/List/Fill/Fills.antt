-- ===== src/List/Fill/Fills.antt =====
-- `fill_list` of task2/2.3 on a list with enough room.
use osi.Base.{
  ℕ, zero, suc, ◌+◌, ◌-◌, ◌%◌, ◌≤◌, ◌<◌, ◌≡◌, ◌≢◌, refl, ◌∙◌, ap, sym, false, none, some, List, [],
  ◌∷◌, ◌++◌, ◌==◌, inc_int, inc_int-suc, le_int-le, le_int-gt, append-nil, length-append,
  append-shift, ==_iff, length, arith, int_max, Bool-cases, inl, inr, leb,
}
use mathlib.Core.Path.{subst}
use osi.Chain
use osi.Chain.{Ptr, null, node, write, last_val, Linked-last, head_ptr}
use osi.Machine.{Returns, returns, returns_both, Returns-and_then, Returns-mono}
use osi.List.Store.{Item, State, link_last, list_add_last, string_size}
use osi.List.Ends.{assert-passes, list_add_last-appends, link_last-nil, link_last-cons}
use osi.List.Laws.{IsList}
use osi.List.Fill.{set_at, text, first_arr, fill_list}
use osi.List.Fill.Strings.{length-set_at, length-ended, length-resumed}

-- The array at the counter `i`
abbrev Reaches : (i : ℕ) → List ℕ → Type 0
Reaches i arr = (length arr ≡ 100) × ((j : ℕ) → j < 100 → j ≤ i → j ≤ length (text arr))

Reaches-suc :
    (i : ℕ) (arr : List ℕ)
    → Reaches i arr
    → Reaches (suc i) (set_at (i % 100) 1 (set_at (i % 100) 0 arr))
Reaches-suc i arr (size, reach) =
    let here = reach (i % 100) (omega arith) (omega arith) in
    let lt : i % 100 < length arr = omega (arith, size) in
    (
      length-set_at (i % 100) 1 _ ∙ length-set_at (i % 100) 0 arr ∙ size,
      λ j small le. elim (Bool-cases (j == suc i)) [
        | inl e ↦ omega (
          arith,
          (==_iff j (suc i)).0 e,
          (length-resumed (i % 100) 0 arr lt here (omega arith)).0,
        )
        | inr e ↦ (length-resumed (i % 100) j arr lt here (reach j small (ground arith))).1
      ],
    )

module _ {L : Type 0} where
  -- What a call of list_add_last leaves alone
  abbrev Else : State L → Ptr → State L → Type 0
  Else s new t =
      (t.list.max_count ≡ s.list.max_count)
      × ((r : Ptr) → s.heap r ≡ none → (r == new) ≡ false → t.heap r ≡ none)

  link_last-Else :
      (s : State L) (new : Ptr) (v : Item L) (xs : Chain.Cells (Item L))
      → IsList s.heap s.list xs
      → s.heap new ≡ none
      → Returns
          (λ _ t. Else s new t)
          (link_last new (record s { heap = write s.heap new (some (node v null)) }))
  link_last-Else s new v [] is unused =
      rw (link_last-nil (record s { heap = write s.heap new (some (node v null)) }) new is.first)
        (returns (refl, λ r free other. ground arith))
  link_last-Else s new v ((p, w) ∷ xs) is unused =
      let (ne_last, at_last) = Linked-last s.heap p w xs is.linked in
      let h = write s.heap new (some (node v null)) in
      let at = ap s.heap is.last ∙ at_last in
      let at_h : h s.list.last ≡ some (node (last_val w xs) null) = ground (arith, at, unused) in
      rw
        (link_last-cons (record s { heap = h }) new (last_val w xs)
          (λ e. is.linked.0 (sym is.first ∙ e)) (λ e. ne_last (sym is.last ∙ e)) at_h)
        (returns (refl, λ r free other. ground (arith, at)))

  list_add_last-Else :
      (s : State L) (xs : Chain.Cells (Item L)) (unlocked : L) (fresh junk : ℕ) (str : List ℕ)
      → IsList s.heap s.list xs
      → fresh ≢ null
      → s.heap fresh ≡ none
      → length str < string_size
      → length xs < s.list.max_count
      → Returns (λ _ t. Else s fresh t) (list_add_last unlocked fresh junk str s)
  unfolding list_add_last
  list_add_last-Else s xs unlocked fresh junk str is ne unused fits less =
      let room : (s.list.count == s.list.max_count) ≡ false = ground (arith, is.count) in
      let not_null : (fresh == null) ≡ false = ground arith in
      let short : leb string_size (length str) ≡ false = ground arith in
      rw ((assert-passes s xs is).0, room, not_null, short)
        (Returns-and_then
          (link_last-Else s fresh (record { val = junk; string = str; lock = unlocked }) xs is
            unused)
          λ _ t kept. returns kept)

  -- With room for one more
  list_add_last-room :
      (s : State L) (xs : Chain.Cells (Item L)) (unlocked : L) (fresh junk : ℕ) (str : List ℕ)
      → IsList s.heap s.list xs
      → fresh ≢ null
      → s.heap fresh ≡ none
      → length str < string_size
      → length xs < s.list.max_count
      → Returns
          (λ a t.
            (a ≡ 1)
            × IsList t.heap t.list
                (xs ++ (fresh, record { val = junk; string = str; lock = unlocked }) ∷ [])
            × Else s fresh t)
          (list_add_last unlocked fresh junk str s)
  list_add_last-room s xs unlocked fresh junk str is ne unused fits less =
      let room : (length xs == s.list.max_count) ≡ false = ground arith in
      Returns-mono
        (returns_both (list_add_last-appends s xs unlocked fresh junk str is ne unused fits)
          (list_add_last-Else s xs unlocked fresh junk str is ne unused fits less))
        (λ a t (added, kept). let (one, longer, same) = rw room at added in (one, longer, kept))

  -- The nodes that fill_list adds when its counter is `i`: new locks, and strings that grow up to 99
  abbrev pub Filled : (unlocked : L) (i : ℕ) → Chain.Cells (Item L) → Type 0
  Filled unlocked i [] = Unit
  Filled unlocked i ((p, v) ∷ ys) =
      (v.lock ≡ unlocked) × (length v.string ≡ i % 100) × Filled unlocked (suc i) ys

  -- the addresses from which the nodes come
  abbrev Fresh : (fresh : ℕ → Ptr) (size i : ℕ) → State L → Type 0
  Fresh fresh size i s = (j : ℕ) → i ≤ j → j < size → (fresh j ≢ null) × (s.heap (fresh j) ≡ none)

  module _ (unlocked : L) (fresh : ℕ → Ptr) (junk size : ℕ) (small : size ≤ int_max)
      (apart : (j k : ℕ) → j < k → k < size → fresh j ≢ fresh k) where
    abbrev Fills : (xs : Chain.Cells (Item L)) (i : ℕ) → State L → Type 0
    Fills xs i t =
        (ys : Chain.Cells (Item L)) × IsList t.heap t.list (xs ++ ys)
        × (i + length ys ≡ size)
        × Filled unlocked i ys

    fill_list-on :
        (fuel i : ℕ) (arr : List ℕ) (s : State L) (xs : Chain.Cells (Item L))
        → IsList s.heap s.list xs
        → length xs + (size - i) ≤ s.list.max_count
        → i ≤ size
        → size - i < fuel
        → Fresh fresh size i s
        → Reaches i arr
        → Returns (λ _ t. Fills xs i t) (fill_list unlocked fresh junk size fuel i i arr s)
    unfolding fill_list
    fill_list-on zero i arr s xs is room le enough free reach = absurd (omega arith)
    fill_list-on (suc fuel) i arr s xs is room le enough free reach =
        elim (Bool-cases (size == i)) [
          | inl over ↦ rw (le_int-le size i (ground arith) (ground arith)) (
              returns (
                [],
                subst (λ l. IsList s.heap s.list l) (sym (append-nil xs)) is,
                ground (arith, ==_iff size i),
                tt,
              ))
          | inr more ↦
              let lt : i < size = ground arith in
              let (ne, unused) = free i (omega arith) lt in
              let ended = set_at (i % 100) 0 arr in
              let here = reach.1 (i % 100) (omega arith) (omega arith) in
              let size_of : length (text ended) ≡ i % 100 =
                length-ended (i % 100) arr (omega (arith, reach.0)) here in
              let less : length xs < s.list.max_count = omega arith in
              let fits : length (text ended) < string_size = omega (arith, size_of) in
              rw (le_int-gt i size lt small) (
                Returns-and_then
                  (list_add_last-room s xs unlocked (fresh i) junk (text ended) is ne unused fits
                    less)
                  (λ a t (one, longer, (same, keeps)).
                    let new : Ptr × Item L =
                      (fresh i, record { val = junk; string = text ended; lock = unlocked }) in
                    let counter : inc_int i ≡ suc i = omega (arith, inc_int-suc i (omega arith)) in
                    rw (one, counter)
                      (Returns-mono
                        (fill_list-on fuel (suc i) (set_at (i % 100) 1 ended) t (xs ++ new ∷ [])
                          longer (omega (arith, length-append xs (new ∷ []), same)) (omega arith)
                          (omega arith)
                          (λ j from below. (
                            (free j (omega arith) below).0,
                            keeps (fresh j) (free j (omega arith) below).1
                                (ground (arith, apart i j (omega arith) below)),
                          ))
                          (Reaches-suc i arr reach))
                        (λ _ u (ys, all, counts, filled). (
                          new ∷ ys,
                          subst (λ l. IsList u.heap u.list l) (sym (append-shift xs new ys)) all,
                          omega (arith, counts),
                          (refl, size_of, filled),
                        )))))
        ]

    -- On an empty list with room for `size` nodes, if malloc answers different unused addresses that are
    -- not NULL, fill_list returns within fuel for one round more than `size`, and leaves a well-formed
    -- list of `size` nodes, each with a new lock, whose strings have 0, 1, up to 99 bytes, and again
    -- from 0.
    pub fill_list-Filled :
        (fuel : ℕ) (s : State L)
        → IsList s.heap s.list []
        → size ≤ s.list.max_count
        → size < fuel
        → Fresh fresh size 0 s
        → Returns
            (λ _ t.
              (ys : Chain.Cells (Item L)) × IsList t.heap t.list ys
              × (length ys ≡ size)
              × Filled unlocked 0 ys)
            (fill_list unlocked fresh junk size fuel 0 0 first_arr s)
    fill_list-Filled fuel s is room enough free =
        Returns-mono
          (fill_list-on fuel 0 first_arr s [] is (omega arith) (omega arith) (omega arith) free
            (refl, λ j small le. omega arith))
          (λ _ t (ys, all, counts, filled). (ys, all, omega (arith, counts), filled))

-- ===== src/Chain.antt =====
-- Singly linked nodes on a heap, for the queues of task2/2.2 and the lists of task2/2.3. `V` is what
-- a node holds besides the address of the next one.
pub mod Segment
use osi.Base.{
  ℕ, ◌≡◌, refl, ◌∙◌, ◌≢◌, Bool, true, false, ◌||◌, none, some, List, [], ◌∷◌, ◌++◌, arith, ◌==◌,
  length, Option, if◌then◌else◌,
}

abbrev pub Ptr : Type 0
Ptr = ℕ

abbrev pub null : Ptr
null = 0

pub record Node (V : Type 0) : Type 0 where
  pub val : V
  pub next : Ptr

module _ {V : Type 0} where
  abbrev pub node : V → Ptr → Node V
  node v p = record { val = v; next = p }

  abbrev pub write : (Ptr → Option (Node V)) → Ptr → Option (Node V) → Ptr → Option (Node V)
  write h p c a = if p == a then c else h a

abbrev pub Heap : Type 0 → Type 0
Heap V = Ptr → Option (Node V)

-- Address and value of each node, from the first to the last.
abbrev pub Cells : Type 0 → Type 0
Cells V = List (Ptr × V)

module _ {V : Type 0} where
  abbrev pub has : Ptr → Cells V → Bool
  has a [] = false
  has a ((p, _) ∷ xs) = (a == p) || has a xs

  abbrev pub head_ptr : Cells V → Ptr
  head_ptr [] = null
  head_ptr ((p, _) ∷ xs) = p

  -- The last address and value of a list, if its first ones are `p` and `v`.
  abbrev pub last_ptr : Ptr → Cells V → Ptr
  last_ptr p [] = p
  last_ptr p ((q, _) ∷ xs) = last_ptr q xs

  abbrev pub last_val : V → Cells V → V
  last_val v [] = v
  last_val v ((_, w) ∷ xs) = last_val w xs

  abbrev pub values : Cells V → List V
  values [] = []
  values ((_, v) ∷ xs) = v ∷ values xs

  -- Distinct allocated nodes, each with the address of the next, and NULL in the last.
  abbrev pub Linked : Heap V → Cells V → Type 0
  Linked h [] = Unit
  Linked h ((p, v) ∷ xs) =
      (p ≢ null) × (h p ≡ some (node v (head_ptr xs))) × (has p xs ≡ false) × Linked h xs

module _ {V : Type 0} where
  pub has-append : (a : Ptr) (xs ys : Cells V) → has a (xs ++ ys) ≡ (has a xs || has a ys)
  has-append a [] ys = refl
  has-append a (x ∷ xs) ys = ground (arith, has-append a xs ys)

  pub has-last_ptr : (p : Ptr) (v : V) (xs : Cells V) → has (last_ptr p xs) ((p, v) ∷ xs) ≡ true
  has-last_ptr p v [] = ground arith
  has-last_ptr p v ((q, w) ∷ xs) = ground (arith, has-last_ptr q w xs)

  pub values-append : (xs ys : Cells V) → values (xs ++ ys) ≡ values xs ++ values ys
  values-append [] ys = refl
  values-append ((p, v) ∷ xs) ys = rw (values-append xs ys)

  pub length-values : (xs : Cells V) → length (values xs) ≡ length xs
  length-values [] = refl
  length-values (x ∷ xs) = omega (arith, length-values xs)

  -- A change outside the list leaves it linked.
  pub Linked-write :
      (h : Heap V) (xs : Cells V) (p : Ptr) (c : Option (Node V))
      → Linked h xs
      → has p xs ≡ false
      → Linked (write h p c) xs
  Linked-write h [] p c l out = tt
  Linked-write h ((q, v) ∷ xs) p c l out =
      (l.0, ground arith, l.2, Linked-write h xs p c l.3 (ground arith))

  pub not-has_of_none :
      (h : Heap V) (xs : Cells V) (p : Ptr) → Linked h xs → h p ≡ none → has p xs ≡ false
  not-has_of_none h [] p l unused = refl
  not-has_of_none h ((q, v) ∷ xs) p l unused = ground (arith, not-has_of_none h xs p l.3 unused)

  -- The last node of a list that is not empty holds NULL.
  pub Linked-last :
      (h : Heap V) (p : Ptr) (v : V) (xs : Cells V)
      → Linked h ((p, v) ∷ xs)
      → (last_ptr p xs ≢ null) × (h (last_ptr p xs) ≡ some (node (last_val v xs) null))
  Linked-last h p v [] l = (l.0, l.1)
  Linked-last h p v ((q, w) ∷ xs) l = Linked-last h q w xs l.3

  pub write-ne : (h : Heap V) (a b : Ptr) (c : Option (Node V)) → b ≢ a → write h b c a ≡ h a
  write-ne h a b c ne = ground arith

  pub ne_of_has : (a b : Ptr) (xs : Cells V) → has a xs ≡ false → has b xs ≡ true → b ≢ a
  ne_of_has a b [] out in_it = cc
  ne_of_has a b (x ∷ xs) out in_it = ground (arith, ne_of_has a b xs)

  -- Writing the address of a node into the last node appends the node.
  pub Linked-snoc :
      (h : Heap V) (p : Ptr) (v : V) (xs : Cells V) (new : Ptr) (w : V)
      → Linked h ((p, v) ∷ xs)
      → new ≢ null
      → h new ≡ some (node w null)
      → has new ((p, v) ∷ xs) ≡ false
      → Linked
          (write h (last_ptr p xs) (some (node (last_val v xs) new)))
          (((p, v) ∷ xs) ++ (new, w) ∷ [])
  Linked-snoc h p v [] new w l ne at_new out =
      (l.0, ground arith, ground arith, (ne, ground arith, refl, tt))
  Linked-snoc h p v ((q, u) ∷ xs) new w l ne at_new out = (
    l.0,
    write-ne h p _ _ (ne_of_has p _ ((q, u) ∷ xs) l.2 (has-last_ptr q u xs)) ∙ l.1,
    ground (arith, has-append p xs ((new, w) ∷ [])),
    Linked-snoc h q u xs new w l.3 ne at_new (ground arith),
  )

  pub last_ptr-snoc :
      (p : Ptr) (xs : Cells V) (new : Ptr) (w : V) → last_ptr p (xs ++ (new, w) ∷ []) ≡ new
  last_ptr-snoc p [] new w = refl
  last_ptr-snoc p ((q, _) ∷ xs) new w = last_ptr-snoc q xs new w

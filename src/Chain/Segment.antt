-- ===== src/Chain/Segment.antt =====
-- Linked nodes whose last one points to any address, for the ring of task1/task1-7.
use osi.Base.{◌≡◌, refl, ◌∙◌, ◌≢◌, false, Option, none, some, [], ◌∷◌, ◌++◌, arith}
use osi.Chain.{
  Ptr, null, node, write, write-ne, has, last_ptr, last_val, has-append, Heap, Cells, ne_of_has,
  has-last_ptr,
}

module _ {V : Type 0} where
  abbrev pub head_or : Ptr → Cells V → Ptr
  head_or q [] = q
  head_or q ((p, _) ∷ xs) = p

  -- Distinct allocated nodes, each with the address of the next, and `q` in the last.
  abbrev pub Segment : Heap V → Cells V → Ptr → Type 0
  Segment h [] q = Unit
  Segment h ((p, v) ∷ xs) q =
      (p ≢ null) × (h p ≡ some (node v (head_or q xs))) × (has p xs ≡ false) × Segment h xs q

module _ {V : Type 0} where
  pub Segment-write :
      (h : Heap V) (xs : Cells V) (q p : Ptr) (c : Option _)
      → Segment h xs q
      → has p xs ≡ false
      → Segment (write h p c) xs q
  Segment-write h [] q p c l out = tt
  Segment-write h ((r, v) ∷ xs) q p c l out =
      (l.0, ground arith, l.2, Segment-write h xs q p c l.3 (ground arith))

  pub not-has_of_unused :
      (h : Heap V) (xs : Cells V) (q p : Ptr) → Segment h xs q → h p ≡ none → has p xs ≡ false
  not-has_of_unused h [] q p l unused = refl
  not-has_of_unused h ((r, v) ∷ xs) q p l unused =
      ground (arith, not-has_of_unused h xs q p l.3 unused)

  pub Segment-last :
      (h : Heap V) (p : Ptr) (v : V) (xs : Cells V) (q : Ptr)
      → Segment h ((p, v) ∷ xs) q
      → (last_ptr p xs ≢ null) × (h (last_ptr p xs) ≡ some (node (last_val v xs) q))
  Segment-last h p v [] q l = (l.0, l.1)
  Segment-last h p v ((r, w) ∷ xs) q l = Segment-last h r w xs q l.3

  -- The last node is made to point to a new one, which points to `t`.
  pub Segment-snoc :
      (h : Heap V) (p : Ptr) (v : V) (xs : Cells V) (q new : Ptr) (w : V) (t : Ptr)
      → Segment h ((p, v) ∷ xs) q
      → new ≢ null
      → h new ≡ some (node w t)
      → has new ((p, v) ∷ xs) ≡ false
      → Segment
          (write h (last_ptr p xs) (some (node (last_val v xs) new)))
          (((p, v) ∷ xs) ++ (new, w) ∷ [])
          t
  Segment-snoc h p v [] q new w t l ne at_new out =
      (l.0, ground arith, ground arith, (ne, ground arith, refl, tt))
  Segment-snoc h p v ((r, u) ∷ xs) q new w t l ne at_new out = (
    l.0,
    write-ne h p _ _ (ne_of_has p _ ((r, u) ∷ xs) l.2 (has-last_ptr r u xs)) ∙ l.1,
    ground (arith, has-append p xs ((new, w) ∷ [])),
    Segment-snoc h r u xs q new w t l.3 ne at_new (ground arith),
  )

  -- The part up to a node, and the part from it on.
  pub Segment-suffix :
      (h : Heap V) (pre xs : Cells V) (q : Ptr) → Segment h (pre ++ xs) q → Segment h xs q
  Segment-suffix h [] xs q l = l
  Segment-suffix h (x ∷ pre) xs q l = Segment-suffix h pre xs q l.3

  pub not-has-suffix : (pre xs : Cells V) (p : Ptr) → has p (pre ++ xs) ≡ false → has p xs ≡ false
  not-has-suffix pre xs p e = ground (arith, has-append p pre xs)

  -- Behind `a`, the node `c` is left out.
  pub Segment-without :
      (h : Heap V) (pre : Cells V) (a c : Ptr) (v w : V) (xs : Cells V) (q : Ptr)
      → Segment h (pre ++ (a, v) ∷ (c, w) ∷ xs) q
      → Segment (write h a (some (node v (head_or q xs)))) (pre ++ (a, v) ∷ xs) q
  Segment-without h [] a c v w xs q l =
      (l.0, ground arith, ground arith, Segment-write h xs q a _ l.3.3 (ground arith))
  Segment-without h ((p, u) ∷ []) a c v w xs q l =
      (l.0, ground arith, ground arith, Segment-without h [] a c v w xs q l.3)
  Segment-without h ((p, u) ∷ (r, z) ∷ pre) a c v w xs q l = (
    l.0,
    ground (arith, has-append p pre ((a, v) ∷ (c, w) ∷ xs)),
    ground (arith, has-append p pre ((a, v) ∷ (c, w) ∷ xs), has-append p pre ((a, v) ∷ xs)),
    Segment-without h ((r, z) ∷ pre) a c v w xs q l.3,
  )

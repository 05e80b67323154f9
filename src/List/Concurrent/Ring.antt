-- ===== src/List/Concurrent/Ring.antt =====
-- The nodes of a list of task2/2.3 as a ring: behind the last one the threads go on with the first.
use osi.Base.{
  ◌≡◌, ◌≢◌, sym, Bool, true, false, ◌||◌, List, [], ◌∷◌, ◌==◌, ==_self, ==_iff, arith,
  if◌then◌else◌, Bool-cases, inl, inr,
}
use mathlib.Core.Path.{subst}
use osi.Chain.{Ptr, null}

abbrev pub mem : Ptr → List Ptr → Bool
mem p [] = false
mem p (q ∷ xs) = (q == p) || mem p xs

abbrev pub first_of : List Ptr → Ptr
first_of [] = null
first_of (p ∷ xs) = p

abbrev pub next_of : List Ptr → Ptr → Ptr
next_of [] p = null
next_of (q ∷ xs) p = if q == p then first_of xs else next_of xs p

-- the node to which a thread at `p` goes
unfoldable pub after : List Ptr → Ptr → Ptr
after xs p = if next_of xs p == null then first_of xs else next_of xs p

-- different addresses, none of them NULL
abbrev pub Nodes : List Ptr → Type 0
Nodes [] = Unit
Nodes (p ∷ xs) = (p ≢ null) × (mem p xs ≡ false) × Nodes xs

pub Nodes-ne : (xs : List Ptr) (p : Ptr) → Nodes xs → mem p xs ≡ true → p ≢ null
Nodes-ne [] p d m = cc
Nodes-ne (q ∷ xs) p d m = elim (Bool-cases (q == p)) [
  | inl same ↦ ground arith
  | inr other ↦ Nodes-ne xs p d.2 (ground arith)
]

mem-first : (xs : List Ptr) (p : Ptr) → mem p xs ≡ true → mem (first_of xs) xs ≡ true
mem-first [] p m = m
mem-first (q ∷ xs) p m = ground arith

mem-next : (xs : List Ptr) (p : Ptr) → (next_of xs p == null) ≡ false → mem (next_of xs p) xs ≡ true
mem-next [] p e = ground arith
mem-next (q ∷ []) p e = ground arith
mem-next (q ∷ r ∷ xs) p e = ground (arith, mem-next (r ∷ xs) p)

pub mem-after : (xs : List Ptr) (p : Ptr) → mem p xs ≡ true → mem (after xs p) xs ≡ true
unfolding after
mem-after xs p m = elim (Bool-cases (next_of xs p == null)) [
  | inl last ↦ rw last (mem-first xs p m)
  | inr more ↦ rw more (mem-next xs p more)
]

-- What holds of a node holds of the next one.
abbrev GoesOn : (Ptr → Type 0) → List Ptr → Type 0
GoesOn P xs = (p : Ptr) → mem p xs ≡ true → (next_of xs p == null) ≡ false → P p → P (next_of xs p)

GoesOn-tail :
    (P : Ptr → Type 0) (q : Ptr) (xs : List Ptr) → Nodes (q ∷ xs) → GoesOn P (q ∷ xs) → GoesOn P xs
GoesOn-tail P q xs d g p m e here =
    let other : (q == p) ≡ false = ground arith in
    let same : next_of (q ∷ xs) p ≡ next_of xs p = rw other in
    subst P same (g p (ground arith) (rw same e) here)

first_next :
    (P : Ptr → Type 0) (p : Ptr) (xs : List Ptr) (q : Ptr)
    → Nodes (p ∷ xs)
    → GoesOn P (p ∷ xs)
    → mem q xs ≡ true
    → P p
    → P (first_of xs)
first_next P p xs q d g m here =
    let same : next_of (p ∷ xs) p ≡ first_of xs = rw (==_self p) in
    let ne = Nodes-ne xs (first_of xs) d.2 (mem-first xs q m) in
    subst P same (g p (ground arith) (rw same (ground arith)) here)

-- from the first node on
forward :
    (P : Ptr → Type 0) (xs : List Ptr)
    → Nodes xs
    → GoesOn P xs
    → P (first_of xs)
    → (q : Ptr) → mem q xs ≡ true
    → P q
forward P [] d g start q m = cc
forward P (p ∷ xs) d g start q m = elim (Bool-cases (p == q)) [
  | inl same ↦ subst P ((==_iff p q).0 same) start
  | inr other ↦
      let m' : mem q xs ≡ true = ground arith in
      forward P xs d.2 (GoesOn-tail P p xs d g) (first_next P p xs q d g m' start) q m'
]

-- The last node of the rest is the last one.
abbrev Last : (Ptr → Type 0) → List Ptr → Type 0
Last P xs = (l : Ptr) × (mem l xs ≡ true) × (next_of xs l ≡ null) × P l

Last-tail :
    (P : Ptr → Type 0) (q : Ptr) (xs : List Ptr) → Nodes (q ∷ xs) → Last P xs → Last P (q ∷ xs)
Last-tail P q xs d (l, m, e, here) =
    let other : (q == l) ≡ false = ground arith in (l, ground arith, rw other e, here)

-- up to the last node
to_last :
    (P : Ptr → Type 0) (xs : List Ptr)
    → Nodes xs
    → GoesOn P xs
    → (p : Ptr) → mem p xs ≡ true
    → P p
    → Last P xs
to_last P [] d g p m here = cc
to_last P (q ∷ []) d g p m here = let same : q ≡ p = ground arith in (p, m, ground arith, here)
to_last P (q ∷ r ∷ xs) d g p m here = elim (Bool-cases (q == p)) [
  | inl same ↦
      let m' : mem r (r ∷ xs) ≡ true = ground arith in
      let there = first_next P q (r ∷ xs) r d g m' (subst P (sym ((==_iff q p).0 same)) here) in
      Last-tail P q (r ∷ xs) d (to_last P (r ∷ xs) d.2 (GoesOn-tail P q (r ∷ xs) d g) r m' there)
  | inr other ↦
      Last-tail P q (r ∷ xs) d
        (to_last P (r ∷ xs) d.2 (GoesOn-tail P q (r ∷ xs) d g) p (ground arith) here)
]

-- Whatever holds of one node, and goes on from each node to the one behind it, holds of all.
pub around :
    (P : Ptr → Type 0) (xs : List Ptr)
    → Nodes xs
    → ((p : Ptr) → mem p xs ≡ true → P p → P (after xs p))
    → (p : Ptr) → mem p xs ≡ true
    → P p
    → (q : Ptr) → mem q xs ≡ true
    → P q
unfolding after
around P xs d g p m here =
    let on : GoesOn P xs = λ q mq e hq. subst P (rw e) (g q mq hq) in
    let (l, ml, e, hl) = to_last P xs d on p m here in
    forward P xs d on (subst P (rw e) (g l ml hl))

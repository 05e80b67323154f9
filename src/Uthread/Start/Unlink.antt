-- ===== src/Uthread/Start/Unlink.antt =====
-- How `start_thread` of task1/task1-7/uthread.c takes a thread out of the ring.
use osi.Base.{
  ℕ, zero, suc, ◌<◌, ◌≡◌, refl, ◌∙◌, ap, false, some, [], ◌∷◌, ◌++◌, arith, ◌==◌, if◌then◌else◌,
  length, ==_self, Bool-cases, inl, inr,
}
use osi.Chain
use osi.Chain.{Ptr, null, node, write, has, has-append}
use osi.Chain.Segment.{head_or, Segment, Segment-suffix, Segment-without}
use osi.Machine.{ok, pure, Returns, returns}
use osi.Uthread.State.{Uthread, State, set_list}
use osi.Uthread.Scheduler.Picks.{load_lem}
use osi.Uthread.Create.Ring.{set_next_lem}
use osi.Uthread.Start.{find_before, unlink}

-- A node in front of `a` does not point to `c`, which stands behind `a`.
other_next :
    (h : Chain.Heap Uthread) (pre : Chain.Cells Uthread) (a c : Ptr) (x w : Uthread)
    (xs : Chain.Cells Uthread) (e : Ptr)
    → Segment h (pre ++ (a, x) ∷ (c, w) ∷ xs) e
    → (head_or e (pre ++ (a, x) ∷ (c, w) ∷ xs) == c) ≡ false
other_next h [] a c x w xs e l = ground arith
other_next h ((p, v) ∷ pre) a c x w xs e l = ground (arith, has-append p pre ((a, x) ∷ (c, w) ∷ xs))

head-front :
    (pre : Chain.Cells Uthread) (a : Ptr) (x : Uthread) (xs : Chain.Cells Uthread) (e : Ptr)
    → head_or e (pre ++ (a, x) ∷ xs) ≡ head_or a pre
head-front [] a x xs e = refl
head-front (y ∷ pre) a x xs e = refl

pub find_before_lem :
    (s : State) (fuel : ℕ) (pre : Chain.Cells Uthread) (a c : Ptr) (x w : Uthread)
    (xs : Chain.Cells Uthread) (e : Ptr)
    → Segment s.heap (pre ++ (a, x) ∷ (c, w) ∷ xs) e
    → length pre < fuel
    → find_before fuel c (head_or a pre) s ≡ ok a s
unfolding find_before
find_before_lem s zero pre a c x w xs e l enough = absurd (omega arith)
find_before_lem s (suc fuel) [] a c x w xs e l enough =
    rw (load_lem a (node x c) s l.0 l.1, ==_self c)
find_before_lem s (suc fuel) ((p, v) ∷ pre) a c x w xs e l enough =
    rw
      (
        load_lem p (node v (head_or e (pre ++ (a, x) ∷ (c, w) ∷ xs))) s l.0 l.1,
        other_next s.heap pre a c x w xs e l.3,
        head-front pre a x ((c, w) ∷ xs) e,
      )
      (find_before_lem s fuel pre a c x w xs e l.3 (omega arith))

-- The current thread `c` stands behind `a` in the ring from `first` on.
pub record Stands (s : State) (pre : Chain.Cells Uthread) (a c : Ptr) (x w : Uthread)
    (xs : Chain.Cells Uthread) : Type 0 where
  pub first : s.ulist.first ≡ head_or a pre
  pub linked : Segment s.heap (pre ++ (a, x) ∷ (c, w) ∷ xs) s.ulist.first

-- The state without `c` in the ring. The structure of `c` stays on the heap.
abbrev pub taken_out : State → (a c : Ptr) (x : Uthread) (xs : Chain.Cells Uthread) → State
taken_out s a c x xs = record s {
  heap = write s.heap a (some (node x (head_or s.ulist.first xs)));
  ulist = record s.ulist { last = if c == s.ulist.last then a else s.ulist.last };
}

last_test :
    (s : State) (h : Chain.Heap Uthread) (a c : Ptr)
    → (if c == s.ulist.last then set_list (λ l. record l { last = a }) else pure tt)
        (record s { heap = h })
      ≡ ok tt (record s {
        heap = h;
        ulist = record s.ulist { last = if c == s.ulist.last then a else s.ulist.last };
      })
last_test s h a c = elim (Bool-cases (c == s.ulist.last)) [
  | inl same ↦ rw same
  | inr other ↦ rw other
]

pub unlink_lem :
    (s : State) (fuel : ℕ) (pre : Chain.Cells Uthread) (a c : Ptr) (x w : Uthread)
    (xs : Chain.Cells Uthread)
    → Stands s pre a c x w xs
    → length pre < fuel
    → unlink fuel c s ≡ ok tt (taken_out s a c x xs)
unfolding unlink
unlink_lem s fuel pre a c x w xs st enough =
    let at_a = Segment-suffix s.heap pre ((a, x) ∷ (c, w) ∷ xs) s.ulist.first st.linked in
    rw
      (
        ap (λ (p : Ptr). find_before fuel c p s) st.first
            ∙ find_before_lem s fuel pre a c x w xs s.ulist.first st.linked enough,
        load_lem c (node w (head_or s.ulist.first xs)) s at_a.3.0 at_a.3.1,
        set_next_lem a (head_or s.ulist.first xs) (node x c) s at_a.0 at_a.1,
      )
      (last_test s (write s.heap a (some (node x (head_or s.ulist.first xs)))) a c)

pub unlink-removes :
    (s : State) (fuel : ℕ) (pre : Chain.Cells Uthread) (a c : Ptr) (x w : Uthread)
    (xs : Chain.Cells Uthread)
    → Stands s pre a c x w xs
    → length pre < fuel
    → Returns
        (λ _ t.
          Segment t.heap (pre ++ (a, x) ∷ xs) s.ulist.first
          × (t.ulist ≡ record s.ulist { last = if c == s.ulist.last then a else s.ulist.last }))
        (unlink fuel c s)
unlink-removes s fuel pre a c x w xs st enough =
    rw (unlink_lem s fuel pre a c x w xs st enough)
      (returns (Segment-without s.heap pre a c x w xs s.ulist.first st.linked, refl))

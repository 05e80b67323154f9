-- ===== src/Uthread/Create/Ring.antt =====
-- `uthread_create` of task1/task1-7/uthread.c and the ring of threads.
use osi.Base.{
  ℕ, ◌+◌, ◌-◌, ◌≡◌, refl, ◌≢◌, ◌∙◌, ap, sym, true, none, some, List, [], ◌∷◌, ◌++◌, arith,
}
use mathlib.Core.Path.{subst}
use osi.Chain
use osi.Chain.{Ptr, null, node, write, last_ptr, last_val, last_ptr-snoc}
use osi.Chain.Segment.{Segment, Segment-write, Segment-last, Segment-snoc, not-has_of_unused}
use osi.Machine.{ok, Returns, returns}
use osi.Uthread.State.{Uthread, State, set_next, stack_size}
use osi.Uthread.Create.{new_uthread, uthread_create}

-- The threads from the first to the last, which points to `q`.
pub record HasThreads (s : State) (p : Ptr) (v : Uthread) (xs : Chain.Cells Uthread) (q : Ptr)
    : Type 0 where
  pub first : s.ulist.first ≡ p
  pub last : s.ulist.last ≡ last_ptr p xs
  pub linked : Segment s.heap ((p, v) ∷ xs) q

pub set_next_lem :
    (p q : Ptr) (n : Chain.Node Uthread) (s : State)
    → p ≢ null
    → s.heap p ≡ some n
    → set_next p q s ≡ ok tt (record s { heap = write s.heap p (some (node n.val q)) })
unfolding set_next
set_next_lem p q n s ne e = ground arith

-- On a list of linked threads from first to last, if mmap and getcontext succeed and the top of the
-- new stack is an unused address that is not NULL, uthread_create returns this address and leaves a
-- list with the new thread behind the others, whose last thread points to the first one; the
-- current thread stays.
pub uthread_create-HasThreads :
    (s : State) (p : Ptr) (v : Uthread) (xs : Chain.Cells Uthread) (q : Ptr) (size stack : ℕ)
    (name : List ℕ) (thread_func arg : ℕ)
    → HasThreads s p v xs q
    → stack + stack_size - size ≢ null
    → s.heap (stack + stack_size - size) ≡ none
    → Returns
        (λ a t.
          (a ≡ stack + stack_size - size)
          × HasThreads t p v
              (xs ++ (stack + stack_size - size, new_uthread stack name thread_func arg) ∷ [])
              p
          × (t.ulist.curr ≡ s.ulist.curr))
        (uthread_create size stack true (some name) thread_func arg s)
unfolding uthread_create
uthread_create-HasThreads s p v xs q size stack name thread_func arg is ne unused =
    let new = stack + stack_size - size in
    let fresh = new_uthread stack name thread_func arg in
    let h = write s.heap new (some (node fresh s.ulist.first)) in
    let out = not-has_of_unused s.heap ((p, v) ∷ xs) q new is.linked unused in
    let l =
      Segment-write s.heap ((p, v) ∷ xs) q new (some (node fresh s.ulist.first)) is.linked out in
    let (ne_last, at_last) = Segment-last h p v xs q l in
    let linked =
      subst
        (λ (a : Ptr × Ptr).
          Segment (write h a.0 (some (node (last_val v xs) new)))
            (((p, v) ∷ xs) ++ (new, fresh) ∷ []) a.1)
        (ap (λ (b : Ptr). (b, s.ulist.first)) (sym is.last)
          ∙ ap (λ (b : Ptr). (s.ulist.last, b)) is.first)
        (Segment-snoc h p v xs q new fresh s.ulist.first l ne (ground arith) out) in
    rw
      (set_next_lem s.ulist.last new (node (last_val v xs) q) (record s { heap = h })
        (λ e. ne_last (sym is.last ∙ e)) (ap h is.last ∙ at_last))
      (returns (
        refl,
        record { first = is.first; last = sym (last_ptr-snoc p xs new fresh); linked = linked },
        refl,
      ))

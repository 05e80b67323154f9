-- ===== src/Uthread/Main/Ring.antt =====
-- The ring that `main` of task1/task1-7/uthread.c makes.
use osi.Base.{
  ℕ, ◌+◌, ◌-◌, ◌<◌, ◌≡◌, refl, ◌≢◌, ◌∙◌, ap, sym, Bool, true, false, none, some, List, [], ◌∷◌,
  ◌++◌, ◌==◌, arith, inc_int,
}
use mathlib.Core.Path.{subst}
use osi.Chain
use osi.Chain.{Ptr, null, node, write, has, has-append, last_ptr, last_val}
use osi.Chain.Segment.{Segment-last}
use osi.Machine.{Returns, returns, returns_both, Returns-and_then, Returns-mono}
use osi.Uthread.State.{Uthread, State, Context, own, stack_size, time_to_clear}
use osi.Uthread.Create.{new_uthread, uthread_create}
use osi.Uthread.Create.Ring.{HasThreads, uthread_create-HasThreads, set_next_lem}
use osi.Uthread.Scheduler.Picks.{save}
use osi.Uthread.Main.{named_main, set_up, main, name_of}
use osi.Uthread.Main.Sleep.{slept, uthread_sleep-HasThreads}

-- The threads so far, on a heap that was `h` at first
record Ready (h : Chain.Heap Uthread) (time : ℕ) (run : Context) (s : State) (p : Ptr) (v : Uthread)
    (xs : Chain.Cells Uthread) (q : Ptr) : Type 0 where
  threads : HasThreads s p v xs q
  curr : s.ulist.curr ≡ p
  same_time : s.curr_time ≡ time
  same_run : s.running ≡ run
  unused : (r : Ptr) → h r ≡ none → has r xs ≡ false → s.heap r ≡ none

-- What uthread_create leaves alone
uthread_create-else :
    (s : State) (p : Ptr) (v : Uthread) (xs : Chain.Cells Uthread) (q : Ptr) (size stack : ℕ)
    (name : List ℕ) (thread_func arg : ℕ)
    → HasThreads s p v xs q
    → stack + stack_size - size ≢ null
    → s.heap (stack + stack_size - size) ≡ none
    → Returns
        (λ _ t.
          (t.curr_time ≡ s.curr_time)
          × (t.running ≡ s.running)
          × ((r : Ptr)
              → s.heap r ≡ none
              → (r == stack + stack_size - size) ≡ false
              → t.heap r ≡ none))
        (uthread_create size stack true (some name) thread_func arg s)
unfolding uthread_create
uthread_create-else s p v xs q size stack name thread_func arg is ne unused =
    let new = stack + stack_size - size in
    let (ne_last, at_last) = Segment-last s.heap p v xs q is.linked in
    let at : s.heap s.ulist.last ≡ some (node (last_val v xs) q) = ap s.heap is.last ∙ at_last in
    let h = write s.heap new (some (node (new_uthread stack name thread_func arg) s.ulist.first)) in
    let at_h : h s.ulist.last ≡ some (node (last_val v xs) q) = ground (arith, at, unused) in
    rw
      (set_next_lem s.ulist.last new (node (last_val v xs) q) (record s { heap = h })
        (λ e. ne_last (sym is.last ∙ e)) at_h)
      (returns (refl, refl, λ r free other. ground (arith, at)))

module _ (h : Chain.Heap Uthread) (time : ℕ) (run : Context) (p : Ptr) (v : Uthread) (size : ℕ)
    (thread_func : ℕ) where
  -- The address at which uthread_create puts a thread
  abbrev top : ℕ → Ptr
  top stack = stack + stack_size - size

  uthread_create-Ready :
      (s : State) (xs : Chain.Cells Uthread) (q : Ptr) (stack : ℕ) (name : List ℕ) (arg : ℕ)
      → Ready h time run s p v xs q
      → top stack ≢ null
      → h (top stack) ≡ none
      → has (top stack) xs ≡ false
      → Returns
          (λ _ t.
            Ready h time run t p v
              (xs ++ (top stack, new_uthread stack name thread_func arg) ∷ [])
              p)
          (uthread_create size stack true (some name) thread_func arg s)
  uthread_create-Ready s xs q stack name arg is ne free fresh =
      let unused = is.unused (top stack) free fresh in
      Returns-mono
        (returns_both
          (uthread_create-HasThreads s p v xs q size stack name thread_func arg is.threads ne
            unused)
          (uthread_create-else s p v xs q size stack name thread_func arg is.threads ne unused))
        (λ a t (new, else_same). record {
          threads = new.1;
          curr = new.2 ∙ is.curr;
          same_time = else_same.0 ∙ is.same_time;
          same_run = else_same.1 ∙ is.same_run;
          unused = λ r was out.
              else_same.2 r
                (is.unused r was (
                  ground (
                    arith,
                    out,
                    has-append r xs ((top stack, new_uthread stack name thread_func arg) ∷ []),
                  )))
                (ground (
                  arith,
                  out,
                  has-append r xs ((top stack, new_uthread stack name thread_func arg) ∷ []),
                ));
        })

-- the heap behind set_up
set_up_heap :
    (s : State) (p : Ptr) (n : Chain.Node Uthread)
    → s.heap p ≡ some n
    → p ≢ null
    → Returns
        (λ _ t. Ready s.heap s.curr_time s.running t p (named_main n.val) [] null)
        (set_up p s)
unfolding set_up named_main
set_up_heap s p n at ne =
    let test : (p == null) ≡ false = ground arith in
    let self : (p == p) ≡ true = ground arith in
    rw (test, at, test, self, test, self, test, self)
      (returns (record {
        threads = record { first = refl; last = refl; linked = (ne, ground arith, refl, tt) };
        curr = refl;
        same_time = refl;
        same_run = refl;
        unused = λ r was out. ground arith;
      }))

-- The threads of the three calls of uthread_create
abbrev pub made : (size : ℕ) (stack : ℕ → ℕ) (thread_func : ℕ) (arg : ℕ → ℕ) → Chain.Cells Uthread
made size stack thread_func arg =
    (stack 0 + stack_size - size, new_uthread (stack 0) (name_of 0) thread_func (arg 0))
    ∷ (stack 1 + stack_size - size, new_uthread (stack 1) (name_of 1) thread_func (arg 1))
    ∷ (stack 2 + stack_size - size, new_uthread (stack 2) (name_of 2) thread_func (arg 2))
    ∷ []

-- If the variable main_thread has memory, mmap answers three stacks whose tops are different unused
-- addresses that are not NULL, getcontext succeeds, and the stacks are not due, main with fuel for
-- a test leaves a ring of the main thread and its three threads, in this order, with the names and
-- arguments of the three calls; the main thread sleeps for 10 seconds since now with the context
-- that ran, and the first of the three is the current one and runs its own code.
pub main-HasThreads :
    (s : State) (p : Ptr) (n : Chain.Node Uthread) (size : ℕ) (stack : ℕ → ℕ) (thread_func : ℕ)
    (arg : ℕ → ℕ) (now : ℕ) (clock : ℕ → ℕ) (munmap : ℕ → Bool) (fuel : ℕ)
    → p ≢ null
    → s.heap p ≡ some n
    → ((k : ℕ)
        → k < 3
        → (stack k + stack_size - size ≢ null) × (s.heap (stack k + stack_size - size) ≡ none))
    → ((j k : ℕ) → j < k → k < 3 → stack j + stack_size - size ≢ stack k + stack_size - size)
    → (inc_int s.curr_time == time_to_clear) ≡ false
    → 0 < fuel
    → Returns
        (λ _ t.
          HasThreads t p
            (save s.running (slept now 10 (named_main n.val)))
            (made size stack thread_func arg)
            p
          × (t.ulist.curr ≡ stack 0 + stack_size - size)
          × (t.running ≡ own))
        (main p size stack (λ _. true) thread_func arg now clock munmap fuel s)
unfolding main new_uthread
main-HasThreads s p n size stack thread_func arg now clock munmap fuel ne at free apart time
      enough =
    let create =
      uthread_create-Ready s.heap s.curr_time s.running p (named_main n.val) size thread_func in
    Returns-and_then (set_up_heap s p n at ne) λ _ s0 r0.
      Returns-and_then
        (create s0 [] null (stack 0) (name_of 0) (arg 0) r0 (free 0 (omega arith)).0
          (free 0 (omega arith)).1 refl)
        λ _ s1 r1.
          Returns-and_then
            (create s1 _ p (stack 1) (name_of 1) (arg 1) r1 (free 1 (omega arith)).0
              (free 1 (omega arith)).1 (ground (arith, apart 0 1)))
            λ _ s2 r2.
              Returns-and_then
                (create s2 _ p (stack 2) (name_of 2) (arg 2) r2 (free 2 (omega arith)).0
                  (free 2 (omega arith)).1 (ground (arith, apart 0 2, apart 1 2)))
                λ _ s3 r3.
                  Returns-mono
                    (uthread_sleep-HasThreads now 10 clock munmap s3 p _ (named_main n.val) _ _ fuel
                      r3.threads r3.curr refl
                      (ap (λ x. inc_int x == time_to_clear) r3.same_time ∙ time) enough)
                    (λ _ t (ring, at_first, runs). (
                      subst
                          (λ c.
                            HasThreads t p (save c (slept now 10 (named_main n.val)))
                              (made size stack thread_func arg) p)
                          r3.same_run ring,
                      at_first,
                      runs,
                    ))

-- ===== src/Mythread/Child.antt =====
-- A thread of task1/task1-6/mythread_create.c that runs its routine and ends.
use osi.Base.{
  ℕ, suc, ◌+◌, ◌≤◌, ◌<◌, ◌≡◌, refl, ◌∙◌, ap, Bool, true, false, none, some, ==_self, arith,
  if◌then◌else◌, leb, ltb, ◌&&◌,
}
use osi.Machine.{ok, stop, fault, pure, ◌>>◌, ◌>>=◌}
use osi.Mythread.{
  Ptr, Thread, State, Routine, stack_size, mythread_cancelled, write, load, update, unmap,
  run_routine, clear_tid, start_routine, mythread_cancel, mythread_testcancel,
}

pub load_lem : (p : Ptr) (t : Thread) (s : State) → s.threads p ≡ some t → load p s ≡ ok t s
unfolding load
load_lem p t s e = rw e

pub load-gone : (p : Ptr) (s : State) → s.threads p ≡ none → load p s ≡ stop fault
unfolding load
load-gone p s e = rw e

-- The routine has an answer for its argument, and never leaves by mythread_testcancel.
abbrev pub answers : (ℕ → ℕ → ℕ) → Routine
answers result routine arg = pure (some (result routine arg))

-- The value that the thread leaves
abbrev pub value_of : (ℕ → ℕ → ℕ) → Thread → ℕ
value_of result t = if t.is_cancelled then mythread_cancelled else result t.routine t.arg

-- What the child leaves, where it has not been detached
abbrev pub ended : (ℕ → ℕ → ℕ) → Thread → Thread
ended result t = record t { retval = value_of result t; not_finished = false }

-- The state with `t` at `p`
abbrev pub put : Ptr → Thread → State → State
put p t s = record s { threads = write s.threads p (some t) }

pub update_lem :
    (p : Ptr) (f : Thread → Thread) (t : Thread) (s : State)
    → s.threads p ≡ some t
    → update p f s ≡ ok tt (put p (f t) s)
unfolding update
update_lem p f t s e = rw (load_lem p t s e)

pub load-put : (p : Ptr) (t : Thread) (s : State) → load p (put p t s) ≡ ok t (put p t s)
load-put p t s = load_lem p t (put p t s) (ground arith)

clear_tid-put :
    (p : Ptr) (t : Thread) (s : State)
    → clear_tid p (put p t s) ≡ ok tt (put p (record t { not_finished = false }) (put p t s))
unfolding clear_tid
clear_tid-put p t s = rw (==_self p)

-- the last test of the child, and what the kernel does
attached-put :
    (p : Ptr) (t : Thread) (s : State)
    → t.is_detached ≡ false
    → ((if t.is_detached then unmap t.stack else pure tt) >> clear_tid p) (put p t s)
      ≡ ok tt (put p (record t { not_finished = false }) (put p t s))
attached-put p t s e =
    ap (λ (b : Bool). ((if b then unmap t.stack else pure tt) >> clear_tid p) (put p t s)) e
    ∙ clear_tid-put p t s

module _ (result : ℕ → ℕ → ℕ) (p : Ptr) where
  pub run_routine_lem :
      (fuel : ℕ) (t : Thread) (s : State)
      → s.threads p ≡ some t
      → run_routine (answers result) (suc fuel) p s
        ≡ ok tt (put p (record t { retval = value_of result t }) s)
  unfolding run_routine
  run_routine_lem fuel t s e = rw (load_lem p t s e) (by_test t.is_cancelled)
    where
      by_test :
          (b : Bool)
          → (if b
                then update p (λ t. record t { retval = mythread_cancelled })
                else update p (λ u. record u { retval = result t.routine t.arg }))
              s
            ≡ ok tt (
                put p
                  (record t { retval = if b then mythread_cancelled else result t.routine t.arg })
                  s)
      by_test true = update_lem p _ t s e
      by_test false = update_lem p _ t s e

  pub start_routine_lem :
      (fuel : ℕ) (t : Thread) (s : State)
      → s.threads p ≡ some t
      → t.is_detached ≡ false
      → start_routine (answers result) (suc fuel) p s
        ≡ ok tt (put p (ended result t) (put p (record t { retval = value_of result t }) s))
  unfolding start_routine
  start_routine_lem fuel t s e attached =
      rw
        (
          load_lem p t s e,
          run_routine_lem fuel t s e,
          load-put p (record t { retval = value_of result t }) s,
        )
        (attached-put p (record t { retval = value_of result t }) s attached)

-- When the thread is cancelled: not at all, before it starts, while its routine runs, which does
-- not test it, or while its routine runs, which calls mythread_testcancel behind it.
pub data Cancel : Type 0 where
  not_cancelled before_start in_routine and_tested : Cancel

abbrev pub is_early : Cancel → Bool
is_early before_start = true
is_early _ = false

-- The routine, with the cancel of the other thread at its place
abbrev pub routine_of : (ℕ → ℕ → ℕ) → Ptr → Cancel → Routine
routine_of result p not_cancelled routine arg = pure (some (result routine arg))
routine_of result p before_start routine arg = pure (some (result routine arg))
routine_of result p in_routine routine arg = do mythread_cancel p; pure (some (result routine arg))
routine_of result p and_tested routine arg = do
  mythread_cancel p
  left ← mythread_testcancel p
  pure (if left then none else some (result routine arg))

abbrev pub answer_of : Cancel → (answer : ℕ) → ℕ
answer_of not_cancelled answer = answer
answer_of before_start answer = mythread_cancelled
answer_of in_routine answer = answer
answer_of and_tested answer = mythread_cancelled

-- The child has run from its start to its end, and has left `answer`.
pub record Over (p : Ptr) (t : Thread) (s u : State) (answer : ℕ) : Type 0 where
  pub last : Thread
  pub there : u.threads p ≡ some last
  pub finished : last.not_finished ≡ false
  pub answered : last.retval ≡ answer
  pub stacked : last.stack ≡ t.stack
  pub same_num : u.thread_num ≡ s.thread_num

module _ (result : ℕ → ℕ → ℕ) (p : Ptr) (t : Thread) (s : State) (e : s.threads p ≡ some t)
    (attached : t.is_detached ≡ false) where
  abbrev stopped : Thread
  stopped = record t { is_cancelled = true }

  -- the state behind a cancel in the routine
  abbrev s1 : State
  s1 = put p stopped s

  there1 : s1.threads p ≡ some stopped
  there1 = ground arith

  ended-Over :
      (v : Thread) (r : State) (answer : ℕ)
      → v.retval ≡ answer
      → v.stack ≡ t.stack
      → r.thread_num ≡ s.thread_num
      → Over p t s (put p (record v { not_finished = false }) (put p v r)) answer
  ended-Over v r answer same stack num = record {
    last = record v { not_finished = false };
    there = ground arith;
    finished = refl;
    answered = same;
    stacked = stack;
    same_num = num;
  }

  run_routine-in_routine :
      (fuel : ℕ)
      → t.is_cancelled ≡ false
      → run_routine (routine_of result p in_routine) (suc fuel) p s
        ≡ ok tt (put p (record stopped { retval = result t.routine t.arg }) s1)
  unfolding run_routine mythread_cancel
  run_routine-in_routine fuel early = rw (
    load_lem p t s e,
    early,
    update_lem p (λ t. record t { is_cancelled = true }) t s e,
    update_lem p (λ u. record u { retval = result t.routine t.arg }) stopped s1 there1,
  )

  run_routine-and_tested :
      (fuel : ℕ)
      → t.is_cancelled ≡ false
      → run_routine (routine_of result p and_tested) (suc (suc fuel)) p s
        ≡ ok tt (put p (record stopped { retval = mythread_cancelled }) s1)
  unfolding run_routine mythread_cancel mythread_testcancel
  run_routine-and_tested fuel early = rw (
    load_lem p t s e,
    early,
    update_lem p (λ t. record t { is_cancelled = true }) t s e,
    load_lem p stopped s1 there1,
    load_lem p stopped s1 there1,
    update_lem p (λ u. record u { retval = mythread_cancelled }) stopped s1 there1,
  )

  pub start_routine-Over :
      (c : Cancel)
      → t.is_cancelled ≡ is_early c
      → (u : State) × (start_routine (routine_of result p c) 2 p s ≡ ok tt u)
        × Over p t s u (answer_of c (result t.routine t.arg))
  unfolding start_routine
  start_routine-Over not_cancelled early = (
    _,
    start_routine_lem result p 1 t s e attached,
    ended-Over (record t { retval = value_of result t }) s _
        (ap (λ (b : Bool). if b then mythread_cancelled else result t.routine t.arg) early) refl
        refl,
  )
  start_routine-Over before_start early = (
    _,
    start_routine_lem result p 1 t s e attached,
    ended-Over (record t { retval = value_of result t }) s _
        (ap (λ (b : Bool). if b then mythread_cancelled else result t.routine t.arg) early) refl
        refl,
  )
  start_routine-Over in_routine early =
      let v = record stopped { retval = result t.routine t.arg } in
      (
        _,
        rw (load_lem p t s e, run_routine-in_routine 1 early, load-put p v s1)
            (attached-put p v s1 attached),
        ended-Over v s1 _ refl refl refl,
      )
  start_routine-Over and_tested early =
      let v = record stopped { retval = mythread_cancelled } in
      (
        _,
        rw (load_lem p t s e, run_routine-and_tested 0 early, load-put p v s1)
            (attached-put p v s1 attached),
        ended-Over v s1 _ refl refl refl,
      )

-- The state without what lies in the stack
abbrev pub gone : ℕ → State → State
gone stack s = record s {
  threads = λ a. if leb stack a && ltb a (stack + stack_size) then none else s.threads a;
}

clear_tid-gone : (p : Ptr) (s : State) → s.threads p ≡ none → clear_tid p s ≡ ok tt s
unfolding clear_tid
clear_tid-gone p s e = rw e

-- The child is detached at its end, and its structure lies in its stack.
pub start_routine-unmaps :
    (result : ℕ → ℕ → ℕ) (p : Ptr) (t : Thread) (s : State)
    → s.threads p ≡ some t
    → t.is_detached ≡ true
    → t.stack ≤ p
    → p < t.stack + stack_size
    → start_routine (answers result) 1 p s
      ≡ ok tt (gone t.stack (put p (record t { retval = value_of result t }) s))
unfolding start_routine unmap
start_routine-unmaps result p t s e detached lo hi =
    let u = put p (record t { retval = value_of result t }) s in
    rw
      (
        load_lem p t s e,
        run_routine_lem result p 0 t s e,
        load-put p (record t { retval = value_of result t }) s,
      )
      (ap (λ (b : Bool). ((if b then unmap t.stack else pure tt) >> clear_tid p) u) detached
        ∙ clear_tid-gone p (gone t.stack u) (ground arith))

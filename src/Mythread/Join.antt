-- ===== src/Mythread/Join.antt =====
-- What mythread_join of task1/task1-6/mythread_create.c returns, and the stack that it unmaps.
use osi.Base.{
  ℕ, zero, suc, ◌+◌, ◌-◌, ◌≤◌, ◌<◌, ◌≡◌, refl, ap, sym, Bool-cases, inl, inr, Bool, true, false,
  Option, none, some, ◌==◌, ==_self, arith, if◌then◌else◌, inc_int,
}
use osi.Machine.{Cmd, ok, stop, fault, pure, Returns, Returns-mono, returns, ◌>>=◌, ◌>>◌}
use osi.Mythread.{
  Ptr, Thread, State, stack_size, unmap, mythread_detach, mythread_cancel, start_routine,
  mythread_create, wait_finished, take_result, mythread_join, new_thread,
}
use osi.Mythread.Child.{
  load_lem, load-gone, update_lem, answers, value_of, put, gone, Cancel, is_early, routine_of,
  answer_of, Over, start_routine-Over, start_routine-unmaps,
}

-- The child runs during the sleep `n` of the caller, and nobody else does anything.
abbrev pub at_sleep : ℕ → Cmd State (Unit {0}) → ℕ → Cmd State (Unit {0})
at_sleep n child k = if k == n then child else pure tt

-- Idle sleeps, and then the one during which the child ends
wait_finished-after :
    (p : Ptr) (child : Cmd State (Unit {0})) (m k n : ℕ) (t t' : Thread) (s u : State)
    → k + m ≡ n
    → s.threads p ≡ some t
    → t.not_finished ≡ true
    → child s ≡ ok tt u
    → u.threads p ≡ some t'
    → t'.not_finished ≡ false
    → wait_finished (at_sleep n child) (suc (suc m)) k p s ≡ ok tt u
unfolding wait_finished
wait_finished-after p child zero k n t t' s u at e runs ends e' over =
    let now : (k == n) ≡ true = ground arith in
    rw (load_lem p t s e, runs, now, ends, load_lem p t' u e', over)
wait_finished-after p child (suc m) k n t t' s u at e runs ends e' over =
    let later : (k == n) ≡ false = ground arith in
    rw (load_lem p t s e, runs, later)
      (wait_finished-after p child m (suc k) n t t' s u (omega arith) e runs ends e' over)

module _ (result : ℕ → ℕ → ℕ) (p : Ptr) where
  -- What mythread_join leaves
  abbrev pub Joined : (answer thread_num : ℕ) → (wanted : Bool) → Bool × Option ℕ → State → Type 0
  Joined answer thread_num wanted a u =
      (a ≡ (true, if wanted then some answer else none))
      × (u.threads p ≡ none)
      × (u.thread_num ≡ thread_num)

  join-Joined :
      (n : ℕ) (wanted : Bool) (t : Thread) (s u : State) (answer : ℕ) (child : Cmd State (Unit {0}))
      → s.threads p ≡ some t
      → t.is_detached ≡ false
      → t.not_finished ≡ true
      → t.stack ≤ p
      → p < t.stack + stack_size
      → child s ≡ ok tt u
      → Over p t s u answer
      → Returns
          (Joined answer s.thread_num wanted)
          (mythread_join (at_sleep n child) (suc (suc n)) wanted p s)
  unfolding mythread_join take_result unmap
  join-Joined n wanted t s u answer child e attached runs lo hi ends o =
      rw
        (
          load_lem p t s e,
          attached,
          wait_finished-after p child n 0 n t o.last s u (omega arith) e runs ends o.there
              o.finished,
          load_lem p o.last u o.there,
        )
        (returns (
          ap (λ (r : ℕ). (true, if wanted then some r else none)) o.answered,
          ground (arith, o.stacked),
          o.same_num,
        ))

  -- With a cancel at any time
  join-child :
      (n : ℕ) (wanted : Bool) (c : Cancel) (t : Thread) (s : State)
      → s.threads p ≡ some t
      → t.is_detached ≡ false
      → t.not_finished ≡ true
      → t.stack ≤ p
      → p < t.stack + stack_size
      → t.is_cancelled ≡ is_early c
      → Returns (Joined (answer_of c (result t.routine t.arg)) s.thread_num wanted) (
          mythread_join
            (at_sleep n (start_routine (routine_of result p c) 2 p))
            (suc (suc n))
            wanted
            p
            s)
  join-child n wanted c t s e attached runs lo hi early =
      let (u, ends, o) = start_routine-Over result p t s e attached c early in
      join-Joined n wanted t s u _ _ e attached runs lo hi ends o

  -- A join of a thread whose stack is gone
  join-gone :
      (others : ℕ → Cmd State (Unit {0})) (fuel : ℕ) (wanted : Bool) (s : State)
      → s.threads p ≡ none
      → mythread_join others fuel wanted p s ≡ stop fault
  unfolding mythread_join
  join-gone others fuel wanted s e = rw (load-gone p s e)

-- Cancelled or not, between the creation and the join
abbrev pub cancelled_if : Bool → Ptr → Cmd State (Unit {0})
cancelled_if b p = if b then mythread_cancel p else pure tt

-- If clone succeeds and the structure fits the stack, a thread is created and joined, and it runs
-- its routine from start to end while the caller is in the n-th sleep of the join, then the join
-- ends with n and two tests, and its answer is 0 and, where wanted, what the routine answers, if
-- the thread is not cancelled, or is cancelled while its routine runs and does not test it; it is
-- MYTHREAD_CANCELLED if the cancel comes before the thread starts or if the routine calls
-- mythread_testcancel behind it. The number of threads is one higher, and a second join is
-- undefined, since the structure is gone.
pub mythread_create-join :
    (result : ℕ → ℕ → ℕ) (size stack routine arg n : ℕ) (c : Cancel) (wanted : Bool) (s : State)
    (others : ℕ → Cmd State (Unit {0})) (fuel : ℕ)
    → 0 < size
    → size ≤ stack_size
    → Returns
        (λ a t.
          (a ≡ (true, if wanted then some (answer_of c (result routine arg)) else none))
          × (t.thread_num ≡ inc_int s.thread_num)
          × (mythread_join others fuel wanted (stack + stack_size - size) t ≡ stop fault))
        ((mythread_create size stack true routine arg >>= λ p.
            cancelled_if (is_early c) p
            >> mythread_join
                (at_sleep n (start_routine (routine_of result p c) 2 p))
                (suc (suc n))
                wanted
                p)
          s)
unfolding mythread_create mythread_cancel
mythread_create-join result size stack routine arg n c wanted s others fuel some_size fits =
    let p = stack + stack_size - size in
    let t = new_thread (inc_int s.thread_num) stack routine arg in
    let created = put p t (record s { thread_num = inc_int s.thread_num }) in
    let stopped = record t { is_cancelled = true } in
    elim (Bool-cases (is_early c)) [
      | inl early ↦
          rw
            (early, update_lem p (λ t. record t { is_cancelled = true }) t created (rw (==_self p)))
            (Returns-mono
              (join-child result p n wanted c stopped (put p stopped created) (rw (==_self p)) refl
                refl (omega arith) (omega arith) (sym early))
              λ a u (same, freed, count).
                (same, count, join-gone result p others fuel wanted u freed))
      | inr late ↦ rw late (
          Returns-mono
            (join-child result p n wanted c t created (rw (==_self p)) refl refl (omega arith)
              (omega arith) (sym late))
            λ a u (same, freed, count).
              (same, count, join-gone result p others fuel wanted u freed))
    ]

-- Another thread detaches the child, and the child ends.
abbrev pub detached_end : (ℕ → ℕ → ℕ) → Ptr → Cmd State (Unit {0})
detached_end result p = mythread_detach p >> start_routine (answers result) 1 p

-- If a thread whose structure lies in its own stack is detached and ends during a sleep of
-- mythread_join, its stack is unmapped and the next test of the join reads freed memory.
pub mythread_join-detached :
    (result : ℕ → ℕ → ℕ) (p : Ptr) (t : Thread) (s : State) (wanted : Bool)
    → s.threads p ≡ some t
    → t.is_detached ≡ false
    → t.not_finished ≡ true
    → t.stack ≤ p
    → p < t.stack + stack_size
    → mythread_join (at_sleep 0 (detached_end result p)) 2 wanted p s ≡ stop fault
unfolding mythread_join wait_finished mythread_detach
mythread_join-detached result p t s wanted e attached runs lo hi =
    let d = record t { is_detached = true } in
    rw (
      load_lem p t s e,
      attached,
      load_lem p t s e,
      runs,
      update_lem p (λ t. record t { is_detached = true }) t s e,
      start_routine-unmaps result p d (put p d s) (rw (==_self p)) refl lo hi,
      load-gone p (gone t.stack (put p (record d { retval = value_of result d }) (put p d s)))
          (ground arith),
    )

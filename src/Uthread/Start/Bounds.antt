-- ===== src/Uthread/Start/Bounds.antt =====
-- The array of stacks of task1/task1-7/uthread.c, and the time at which it is cleared.
use osi.Base.{
  ℕ, ◌+◌, ◌%◌, ◌^◌, ◌<◌, ◌≤◌, ◌≡◌, ◌≢◌, Bool, true, false, Option, some, List, [], ◌∷◌, ◌++◌, arith,
  ◌==◌, leb, length, length-append, inc_int, inl, inr, Bool-cases,
}
use mathlib.Core.Path.{subst}
use osi.Chain
use osi.Chain.{Ptr, null, node, write}
use osi.Machine.{
  Outcome, ok, Ensures, ended, stopped, Ensures-and_then, Ensures-ok, Ensures-any, Ensures-if,
}
use osi.Uthread.State.{Uthread, State, time_to_clear, max_stacks_to_clear}
use osi.Uthread.Create.{uthread_create}
use osi.Uthread.Scheduler.{clear_stacks, tick, uthread_scheduler, uthread_sleep, alarm_sig_handler}
use osi.Uthread.Start.{record_stack, start_thread}
use osi.Uthread.Start.Unmap.{record_stack_lem}
use osi.Uthread.Start.Keeps.{
  load-Keeps, update-Keeps, find_awake-Keeps, swap_context-Keeps, unlink-Keeps, alarm-Keeps,
  create-Keeps,
}

-- Not more stacks wait than turns of the scheduler have passed.
abbrev pub Bounded : List ℕ → ℕ → Type 0
Bounded stacks time = (length stacks ≤ time) × (time < time_to_clear)

-- What holds while a thread ends.
abbrev Ending : List ℕ → ℕ → Type 0
Ending stacks time = (length stacks ≤ time + 1) × (time < time_to_clear)

abbrev pub IsBounded : State → Type 0
IsBounded s = Bounded s.stacks s.curr_time

tick-IsBounded :
    (munmap : ℕ → Bool) (s : State)
    → Ending s.stacks s.curr_time
    → Ensures (λ _ t. IsBounded t) (tick munmap s)
unfolding tick inc_int
tick-IsBounded munmap s b = elim (Bool-cases ((s.curr_time + 1) % 2 ^ 32 == time_to_clear)) [
  | inl now ↦
      rw now (
        Ensures-and_then (Ensures-any (clear_stacks munmap s.stacks _))
          λ _ t _. ended (omega arith))
  | inr later ↦ rw later (ended (ground arith))
]

scheduler-IsBounded :
    (clock : ℕ → ℕ) (munmap : ℕ → Bool) (fuel : ℕ) (s : State)
    → Ending s.stacks s.curr_time
    → Ensures (λ _ t. IsBounded t) (uthread_scheduler clock munmap fuel s)
unfolding uthread_scheduler
scheduler-IsBounded clock munmap fuel s b =
    Ensures-and_then (tick-IsBounded munmap (record s { scheduler_active = true }) b) λ _ t q.
      Ensures-and_then (load-Keeps Bounded t.ulist.curr t q) λ n u q.
        Ensures-and_then (find_awake-Keeps Bounded clock fuel 0 n.next u q) λ next v q.
          Ensures-and_then (update-Keeps Bounded next (λ t. record t { is_sleep = false }) v q)
            λ _ w q.
              swap_context-Keeps Bounded t.ulist.curr next
                (record w { ulist = record w.ulist { curr = next }; scheduler_active = false }) q

sleep-IsBounded :
    (now sleep_time : ℕ) (clock : ℕ → ℕ) (munmap : ℕ → Bool) (fuel : ℕ) (s : State)
    → IsBounded s
    → Ensures (λ _ t. IsBounded t) (uthread_sleep now sleep_time clock munmap fuel s)
unfolding uthread_sleep
sleep-IsBounded now sleep_time clock munmap fuel s q =
    let c = s.ulist.curr in
    Ensures-and_then (update-Keeps Bounded c (λ t. record t { is_sleep = true }) s q) λ _ t q.
      Ensures-and_then (update-Keeps Bounded c (λ t. record t { time_to_sleep = sleep_time }) t q)
        λ _ u q.
          Ensures-and_then (update-Keeps Bounded c (λ t. record t { start = now }) u q)
            λ _ v q. scheduler-IsBounded clock munmap fuel v (omega arith)

record_stack-Ending :
    (c : Ptr) (s : State)
    → IsBounded s
    → Ensures (λ _ t. Ending t.stacks t.curr_time) (record_stack c s)
unfolding record_stack
record_stack-Ending c s q = Ensures-and_then (load-Keeps Bounded c s q) λ n t q.
    Ensures-if (leb max_stacks_to_clear (length t.stacks)) _ _ _ stopped
      (ended (omega (arith, length-append t.stacks (n.val.stack ∷ []))))

start_thread-IsBounded :
    (clock : ℕ → ℕ) (munmap : ℕ → Bool) (fuel : ℕ) (s : State)
    → IsBounded s
    → Ensures (λ _ t. IsBounded t) (start_thread clock munmap fuel s)
unfolding start_thread
start_thread-IsBounded clock munmap fuel s q =
    Ensures-and_then (unlink-Keeps Bounded fuel s.ulist.curr s q) λ _ t q.
      Ensures-and_then (record_stack-Ending s.ulist.curr t q)
        λ _ u q. scheduler-IsBounded clock munmap fuel u q

-- What the program does between two moments at which a thread runs its own code
pub data Turn (s t : State) : Type 0 where
  schedules :
      (clock : ℕ → ℕ) (munmap : ℕ → Bool) (fuel : ℕ)
      → uthread_scheduler clock munmap fuel s ≡ ok tt t
      → Turn s t
  sleeps_for :
      (now sleep_time : ℕ) (clock : ℕ → ℕ) (munmap : ℕ → Bool) (fuel : ℕ)
      → uthread_sleep now sleep_time clock munmap fuel s ≡ ok tt t
      → Turn s t
  ends :
      (clock : ℕ → ℕ) (munmap : ℕ → Bool) (fuel : ℕ)
      → start_thread clock munmap fuel s ≡ ok tt t
      → Turn s t
  rings : alarm_sig_handler s ≡ ok tt t → Turn s t
  creates :
      (size stack : ℕ) (name : Option (List ℕ)) (thread_func arg a : ℕ)
      → uthread_create size stack true name thread_func arg s ≡ ok a t
      → Turn s t

pub data Reach (s : State) : State → Type 0 where
  here : Reach s s
  next : {t u : State} → Reach s t → Turn t u → Reach s u

ensured :
    {A : Type 0} {P : State → Type 0} {a : A} {t : State} (m : Outcome State A)
    → Ensures (λ _ u. P u) m
    → m ≡ ok a t
    → P t
ensured {P} m e same = Ensures-ok (subst (λ o. Ensures (λ _ u. P u) o) same e)

Turn-IsBounded : {s t : State} → Turn s t → IsBounded s → IsBounded t
Turn-IsBounded {s} (schedules clock munmap fuel e) q =
    ensured _ (scheduler-IsBounded clock munmap fuel s (omega arith)) e
Turn-IsBounded {s} (sleeps_for now sleep_time clock munmap fuel e) q =
    ensured _ (sleep-IsBounded now sleep_time clock munmap fuel s q) e
Turn-IsBounded {s} (ends clock munmap fuel e) q =
    ensured _ (start_thread-IsBounded clock munmap fuel s q) e
Turn-IsBounded {s} (rings e) q = ensured _ (alarm-Keeps Bounded s q) e
Turn-IsBounded {s} (creates size stack name thread_func arg a e) q =
    ensured _ (create-Keeps Bounded size stack true name thread_func arg s q) e

pub Reach-IsBounded : {s t : State} → IsBounded s → Reach s t → IsBounded t
Reach-IsBounded q here = q
Reach-IsBounded q (next r turn) = Turn-IsBounded turn (Reach-IsBounded q r)

-- If at some moment the array of stacks holds no more stacks than turns of the scheduler are
-- counted, and fewer than 30 are counted, then after any sequence of schedules, sleeps, ends of
-- threads, alarms and creations a thread that ends finds room in the array of 100 for its stack.
pub record_stack-in_bounds :
    (s t : State) (c : Ptr) (n : Chain.Node Uthread)
    → IsBounded s
    → Reach s t
    → c ≢ null
    → t.heap c ≡ some n
    → record_stack c t ≡ ok tt (record t { stacks = t.stacks ++ n.val.stack ∷ [] })
record_stack-in_bounds s t c n q r ne there =
    let b = Reach-IsBounded q r in record_stack_lem c n t ne there (omega arith)

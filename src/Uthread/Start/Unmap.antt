-- ===== src/Uthread/Start/Unmap.antt =====
-- `start_thread` of task1/task1-7/uthread.c when its call of the scheduler clears the stacks.
use osi.Base.{
  ℕ, ◌+◌, ◌<◌, ◌≤◌, ◌≡◌, refl, ◌≢◌, true, false, none, some, List, [], ◌∷◌, ◌++◌, arith, ◌==◌, leb,
  if◌then◌else◌, length, inc_int, Bool-cases, inl, inr,
}
use osi.Chain
use osi.Chain.{Ptr, null, node, write}
use osi.Chain.Segment.{head_or, Segment-suffix}
use osi.Machine.{ok, stop, fault}
use osi.Uthread.State.{Uthread, State, load, unmapped, stack_size, max_stacks_to_clear}
use osi.Uthread.Scheduler.{clear_stacks, tick, uthread_scheduler}
use osi.Uthread.Scheduler.Picks.{load_lem}
use osi.Uthread.Start.{record_stack, start_thread}
use osi.Uthread.Start.Unlink.{Stands, taken_out, unlink_lem}

-- The heap without what lies in the stacks
unfoldable pub cleared : Chain.Heap Uthread → List ℕ → Chain.Heap Uthread
cleared h [] = h
cleared h (stack ∷ stacks) = cleared (if stack == null then h else unmapped h stack) stacks

clear_stacks_lem :
    (stacks : List ℕ) (s : State)
    → clear_stacks (λ _. true) stacks s ≡ ok tt (record s { heap = cleared s.heap stacks })
unfolding clear_stacks cleared
clear_stacks_lem [] s = refl
clear_stacks_lem (stack ∷ stacks) s = elim (Bool-cases (stack == null)) [
  | inl empty ↦ rw empty (clear_stacks_lem stacks s)
  | inr some_stack ↦
      rw some_stack (clear_stacks_lem stacks (record s { heap = unmapped s.heap stack }))
]

cleared-none :
    (stacks : List ℕ) (h : Chain.Heap Uthread) (a : Ptr) → h a ≡ none → cleared h stacks a ≡ none
unfolding cleared unmapped
cleared-none [] h a e = e
cleared-none (stack ∷ stacks) h a e =
    cleared-none stacks (if stack == null then h else unmapped h stack) a (ground arith)

cleared-last :
    (stacks : List ℕ) (stack : ℕ) (h : Chain.Heap Uthread) (a : Ptr)
    → stack ≢ null
    → stack ≤ a
    → a < stack + stack_size
    → cleared h (stacks ++ stack ∷ []) a ≡ none
unfolding cleared unmapped
cleared-last [] stack h a ne lo hi = ground arith
cleared-last (other ∷ stacks) stack h a ne lo hi =
    cleared-last stacks stack (if other == null then h else unmapped h other) a ne lo hi

not_full : (n : ℕ) → n < max_stacks_to_clear → leb max_stacks_to_clear n ≡ false
not_full n room = ground arith

pub record_stack_lem :
    (c : Ptr) (n : Chain.Node Uthread) (s : State)
    → c ≢ null
    → s.heap c ≡ some n
    → length s.stacks < max_stacks_to_clear
    → record_stack c s ≡ ok tt (record s { stacks = s.stacks ++ n.val.stack ∷ [] })
unfolding record_stack
record_stack_lem c n s ne e room = rw (load_lem c n s ne e, not_full (length s.stacks) room)

tick-clears :
    (s : State)
    → s.curr_time ≡ 29
    → tick (λ _. true) s
      ≡ ok tt (record s { heap = cleared s.heap s.stacks; curr_time = 0; stacks = [] })
unfolding tick inc_int
tick-clears s e = rw (e, clear_stacks_lem s.stacks (record s { curr_time = 30 }))

load-gone : (p : Ptr) (s : State) → s.heap p ≡ none → load p s ≡ stop fault
unfolding load
load-gone p s e = ground arith

scheduler-unmapped :
    (clock : ℕ → ℕ) (fuel : ℕ) (s : State)
    → s.curr_time ≡ 29
    → cleared s.heap s.stacks s.ulist.curr ≡ none
    → uthread_scheduler clock (λ _. true) fuel s ≡ stop fault
unfolding uthread_scheduler
scheduler-unmapped clock fuel s time gone = rw (
  tick-clears (record s { scheduler_active = true }) time,
  load-gone s.ulist.curr
      (record s {
        heap = cleared s.heap s.stacks;
        curr_time = 0;
        stacks = [];
        scheduler_active = true;
      })
      gone,
)

-- If a thread whose structure lies in its own stack ends when 29 turns are counted, and is found in
-- the ring, start_thread puts its stack into the list, uthread_scheduler unmaps it at once, and the
-- next read of the current thread is undefined.
pub start_thread-unmaps_itself :
    (clock : ℕ → ℕ) (s : State) (fuel : ℕ) (pre : Chain.Cells Uthread) (a : Ptr) (x w : Uthread)
    (xs : Chain.Cells Uthread)
    → Stands s pre a s.ulist.curr x w xs
    → length pre < fuel
    → s.curr_time ≡ 29
    → length s.stacks < max_stacks_to_clear
    → w.stack ≢ null
    → w.stack ≤ s.ulist.curr
    → s.ulist.curr < w.stack + stack_size
    → start_thread clock (λ _. true) fuel s ≡ stop fault
unfolding start_thread
start_thread-unmaps_itself clock s fuel pre a x w xs st enough time room ne lo hi =
    let c = s.ulist.curr in
    let at_a = Segment-suffix s.heap pre ((a, x) ∷ (c, w) ∷ xs) s.ulist.first st.linked in
    let out = taken_out s a c x xs in
    rw (
      unlink_lem s fuel pre a c x w xs st enough,
      record_stack_lem c (node w (head_or s.ulist.first xs)) out at_a.3.0 (ground arith) room,
      scheduler-unmapped clock fuel (record out { stacks = s.stacks ++ w.stack ∷ [] }) time
          (cleared-last s.stacks w.stack out.heap c ne lo hi),
    )

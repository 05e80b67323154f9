-- ===== src/Uthread/Scheduler/Alarm.antt =====
-- The alarm of task1/task1-7/uthread.c in the middle of a thread.
use osi.Base.{
  ℕ, ◌<◌, ◌≡◌, refl, Bool, false, some, ◌∷◌, ◌++◌, arith, ◌==◌, if◌then◌else◌, inc_int, length,
}
use osi.Chain
use osi.Chain.{Ptr, null, node}
use osi.Machine.{ok, Returns, returns, ◌>>◌}
use osi.Uthread.State.{Uthread, State, sched_loop, time_to_clear}
use osi.Uthread.Scheduler.{alarm_sig_handler, uthread_scheduler}
use osi.Uthread.Scheduler.Picks.{Picks, LeadsTo, scheduler-Picks, touch, wake}

saved_loop :
    (h : Chain.Heap Uthread) (q c : Ptr) (n : Chain.Node Uthread)
    → h c ≡ some n
    → (m : Chain.Node Uthread) × (touch (touch h q wake) c (λ t. record t { uctx = sched_loop }) c
        ≡ some m)
      × (m.val.uctx ≡ sched_loop)
unfolding touch
saved_loop h q c n e = (
  node (record (if q == c then wake n.val else n.val) { uctx = sched_loop }) n.next,
  ground arith,
  refl,
)

alarm_sig_handler-idle :
    (s : State)
    → s.scheduler_active ≡ false
    → alarm_sig_handler s ≡ ok tt (record s { running = sched_loop })
unfolding alarm_sig_handler
alarm_sig_handler-idle s idle = rw idle

-- If the alarm rings in the middle of a thread and the scheduler, from its own context, then picks
-- another one, what it saves for the thread is the context of the loop of the scheduler: where the
-- thread was is lost.
pub alarm-loses_context :
    (clock : ℕ → ℕ) (munmap : ℕ → Bool) (s : State) (ys : Chain.Cells Uthread) (q : Ptr)
    (w : Uthread) (zs : Chain.Cells Uthread) (v : Uthread) (fuel : ℕ)
    → LeadsTo s (ys ++ (q, w) ∷ zs) v
    → Picks clock 0 ys w
    → (inc_int s.curr_time == time_to_clear) ≡ false
    → length ys < fuel
    → s.scheduler_active ≡ false
    → Returns
        (λ _ t.
          (t.ulist.curr ≡ q)
          × ((n : Chain.Node Uthread) × (t.heap s.ulist.curr ≡ some n) × (n.val.uctx ≡ sched_loop)))
        ((alarm_sig_handler >> uthread_scheduler clock munmap fuel) s)
alarm-loses_context clock munmap s ys q w zs v fuel ring p time enough idle =
    rw
      (
        alarm_sig_handler-idle s idle,
        scheduler-Picks clock munmap (record s { running = sched_loop }) ys q w zs v fuel
            (record { linked = ring.linked; at_curr = ring.at_curr; not_null = ring.not_null }) p
            time enough,
      )
      (returns (refl, saved_loop s.heap q s.ulist.curr _ ring.at_curr))

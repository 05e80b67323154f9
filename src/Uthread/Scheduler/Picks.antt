-- ===== src/Uthread/Scheduler/Picks.antt =====
-- Which thread `uthread_scheduler` of task1/task1-7/uthread.c runs next.
use osi.Base.{
  ℕ, zero, suc, ◌<◌, ◌≡◌, refl, ◌≢◌, ap, fun_ext, Bool, true, false, Option, none, some, [], ◌∷◌,
  ◌++◌, arith, ◌==◌, if◌then◌else◌, length, inc_int,
}
use osi.Chain
use osi.Chain.{Ptr, null, node, has}
use osi.Chain.Segment.{head_or, Segment, Segment-suffix}
use osi.Machine.{ok}
use osi.Uthread.State.{Uthread, State, Context, load, update, time_to_clear}
use osi.Uthread.Scheduler.{sleeps, tick, find_awake, swap_context, uthread_scheduler}

abbrev adjust : (Uthread → Uthread) → Option (Chain.Node Uthread) → Option (Chain.Node Uthread)
adjust f none = none
adjust f (some n) = some (node (f n.val) n.next)

-- the heap with other fields in the thread at `p`
unfoldable pub touch : Chain.Heap Uthread → Ptr → (Uthread → Uthread) → Chain.Heap Uthread
touch h p f a = if p == a then adjust f (h a) else h a

abbrev pub wake : Uthread → Uthread
wake t = record t { is_sleep = false }

abbrev pub save : Context → Uthread → Uthread
save c t = record t { uctx = c }

pub load_lem :
    (p : Ptr) (n : Chain.Node Uthread) (s : State)
    → p ≢ null
    → s.heap p ≡ some n
    → load p s ≡ ok n s
unfolding load
load_lem p n s ne e = ground arith

pub update_lem :
    (p : Ptr) (f : Uthread → Uthread) (n : Chain.Node Uthread) (s : State)
    → p ≢ null
    → s.heap p ≡ some n
    → update p f s ≡ ok tt (record s { heap = touch s.heap p f })
unfolding update touch
update_lem p f n s ne e =
    rw (load_lem p n s ne e)
      (ap (λ (h : Chain.Heap Uthread). ok tt (record s { heap = h })) (fun_ext λ a. ground arith))

-- The threads `ys` sleep when the search looks at them, and `w` behind them does not.
abbrev pub Picks : (clock : ℕ → ℕ) (k : ℕ) → Chain.Cells Uthread → Uthread → Type 0
Picks clock k [] w = sleeps (clock k) w ≡ false
Picks clock k ((p, v) ∷ ys) w = (sleeps (clock k) v ≡ true) × Picks clock (suc k) ys w

next_test :
    (h : Chain.Heap Uthread) (ys : Chain.Cells Uthread) (q : Ptr) (w : Uthread)
    (zs : Chain.Cells Uthread) (e : Ptr)
    → Segment h (ys ++ (q, w) ∷ zs) e
    → (head_or q ys == null) ≡ false
next_test h [] q w zs e l = ground arith
next_test h ((p, v) ∷ ys) q w zs e l = ground arith

head-append :
    (ys : Chain.Cells Uthread) (q : Ptr) (w : Uthread) (zs : Chain.Cells Uthread) (e : Ptr)
    → head_or e (ys ++ (q, w) ∷ zs) ≡ head_or q ys
head-append [] q w zs e = refl
head-append ((p, v) ∷ ys) q w zs e = refl

find_awake-Picks :
    (clock : ℕ → ℕ) (s : State) (fuel k : ℕ) (ys : Chain.Cells Uthread) (q : Ptr) (w : Uthread)
    (zs : Chain.Cells Uthread) (e : Ptr)
    → Segment s.heap (ys ++ (q, w) ∷ zs) e
    → Picks clock k ys w
    → length ys < fuel
    → find_awake clock fuel k (head_or q ys) s ≡ ok q s
unfolding find_awake
find_awake-Picks clock s zero k ys q w zs e l p enough = absurd (omega arith)
find_awake-Picks clock s (suc fuel) k [] q w zs e l p enough =
    rw (load_lem q (node w (head_or e zs)) s l.0 l.1, p)
find_awake-Picks clock s (suc fuel) k ((a, v) ∷ ys) q w zs e l (asleep, p) enough =
    rw
      (
        load_lem a (node v (head_or e (ys ++ (q, w) ∷ zs))) s l.0 l.1,
        asleep,
        head-append ys q w zs e,
        next_test s.heap ys q w zs e l.3,
      )
      (find_awake-Picks clock s fuel (suc k) ys q w zs e l.3 p (omega arith))

tick-plain :
    (munmap : ℕ → Bool) (s : State)
    → (inc_int s.curr_time == time_to_clear) ≡ false
    → tick munmap s ≡ ok tt (record s { curr_time = inc_int s.curr_time })
unfolding tick
tick-plain munmap s e = rw e

swap_context_lem :
    (c q : Ptr) (n m : Chain.Node Uthread) (s : State)
    → c ≢ null
    → q ≢ null
    → s.heap c ≡ some n
    → s.heap q ≡ some m
    → swap_context c q s
      ≡ ok tt (record s {
        heap = touch s.heap c (save s.running);
        running = if c == q then s.running else m.val.uctx;
      })
unfolding swap_context touch
swap_context_lem c q n m s nc nq at_c at_q =
    ground (arith, update_lem c (save s.running) n s nc at_c)

touched :
    (h : Chain.Heap Uthread) (q c : Ptr) (n : Chain.Node Uthread)
    → h c ≡ some n
    → touch h q wake c ≡ some (node (if q == c then wake n.val else n.val) n.next)
unfolding touch
touched h q c n e = ground arith

touched_self :
    (h : Chain.Heap Uthread) (q : Ptr) (n : Chain.Node Uthread)
    → h q ≡ some n
    → touch h q wake q ≡ some (node (wake n.val) n.next)
unfolding touch
touched_self h q n e = ground arith

-- The state in which the thread at `q` runs, whose context is `c`.
abbrev pub switched : State → Ptr → Context → State
switched s q c = record s {
  heap = touch (touch s.heap q wake) s.ulist.curr (save s.running);
  ulist = record s.ulist { curr = q };
  curr_time = inc_int s.curr_time;
  scheduler_active = false;
  running = c;
}

-- A ring into which the current thread, with the fields `v`, leads.
pub record LeadsTo (s : State) (xs : Chain.Cells Uthread) (v : Uthread) : Type 0 where
  pub linked : Segment s.heap xs (head_or null xs)
  pub at_curr : s.heap s.ulist.curr ≡ some (node v (head_or null xs))
  pub not_null : s.ulist.curr ≢ null

-- If the current thread leads into a ring in which the threads of a front part sleep when the
-- search looks at them and the thread behind them does not, and the stacks are not due,
-- uthread_scheduler with fuel for one test more than that front part makes this thread the current
-- one and no sleeper, saves the context that runs in the thread that was the current one, and runs
-- the context of the new one.
pub scheduler-Picks :
    (clock : ℕ → ℕ) (munmap : ℕ → Bool) (s : State) (ys : Chain.Cells Uthread) (q : Ptr)
    (w : Uthread) (zs : Chain.Cells Uthread) (v : Uthread) (fuel : ℕ)
    → LeadsTo s (ys ++ (q, w) ∷ zs) v
    → Picks clock 0 ys w
    → (inc_int s.curr_time == time_to_clear) ≡ false
    → length ys < fuel
    → uthread_scheduler clock munmap fuel s
      ≡ ok tt (switched s q (if s.ulist.curr == q then s.running else w.uctx))
unfolding uthread_scheduler
scheduler-Picks clock munmap s ys q w zs v fuel ring p time enough =
    let at_q =
      Segment-suffix s.heap ys ((q, w) ∷ zs) (head_or null (ys ++ (q, w) ∷ zs)) ring.linked in
    let e = head_or null (ys ++ (q, w) ∷ zs) in
    let s' : State = record s { curr_time = inc_int s.curr_time; scheduler_active = true } in
    let woken : State = record s {
      heap = touch s.heap q wake;
      ulist = record s.ulist { curr = q };
      curr_time = inc_int s.curr_time;
      scheduler_active = false;
    } in
    rw (
      tick-plain munmap (record s { scheduler_active = true }) time,
      load_lem s.ulist.curr (node v e) s' ring.not_null ring.at_curr,
      head-append ys q w zs null,
      find_awake-Picks clock s' fuel 0 ys q w zs e ring.linked p enough,
      update_lem q wake (node w (head_or e zs)) s' at_q.0 at_q.1,
      swap_context_lem s.ulist.curr q _ _ woken ring.not_null at_q.0
          (touched s.heap q s.ulist.curr _ ring.at_curr) (touched_self s.heap q _ at_q.1),
    )

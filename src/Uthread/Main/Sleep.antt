-- ===== src/Uthread/Main/Sleep.antt =====
-- `uthread_sleep` of task1/task1-7/uthread.c in a ring of threads.
use osi.Base.{
  ℕ, ◌<◌, ◌≡◌, refl, ◌≢◌, ◌∙◌, ap, sym, Bool, true, false, some, [], ◌∷◌, ◌++◌, ◌==◌, arith,
  inc_int, if◌then◌else◌,
}
use mathlib.Core.Path.{subst}
use osi.Chain
use osi.Chain.{Ptr, null, node, has, has-append}
use osi.Chain.Segment.{Segment}
use osi.Machine.{ok, Returns, returns}
use osi.Uthread.State.{Uthread, State, time_to_clear, update}
use osi.Uthread.Scheduler.{sleeps, uthread_sleep}
use osi.Uthread.Scheduler.Picks.{LeadsTo, scheduler-Picks, switched, touch, update_lem, wake, save}
use osi.Uthread.Create.Ring.{HasThreads}

Segment-touch :
    (h : Chain.Heap Uthread) (xs : Chain.Cells Uthread) (q p : Ptr) (f : Uthread → Uthread)
    → Segment h xs q
    → has p xs ≡ false
    → Segment (touch h p f) xs q
unfolding touch
Segment-touch h [] q p f l out = tt
Segment-touch h ((r, v) ∷ xs) q p f l out =
    (l.0, ground arith, l.2, Segment-touch h xs q p f l.3 (ground arith))

-- The first of the nodes is changed.
Segment-touch_first :
    (h : Chain.Heap Uthread) (p : Ptr) (v : Uthread) (xs : Chain.Cells Uthread) (q : Ptr)
    (f : Uthread → Uthread)
    → Segment h ((p, v) ∷ xs) q
    → Segment (touch h p f) ((p, f v) ∷ xs) q
unfolding touch
Segment-touch_first h p v xs q f l =
    (l.0, ground (arith, l.1), l.2, Segment-touch h xs q p f l.3 l.2)

-- the ring from the second thread on
Segment-turned :
    (h : Chain.Heap Uthread) (p : Ptr) (v : Uthread) (xs : Chain.Cells Uthread) (t : Ptr)
    → Segment h xs p
    → p ≢ null
    → h p ≡ some (node v t)
    → has p xs ≡ false
    → Segment h (xs ++ (p, v) ∷ []) t
Segment-turned h p v [] t l ne at out = (ne, at, refl, tt)
Segment-turned h p v ((r, w) ∷ []) t l ne at out =
    (l.0, l.1, ground arith, Segment-turned h p v [] t l.3 ne at (ground arith))
Segment-turned h p v ((r, w) ∷ (r', w') ∷ xs) t l ne at out = (
  l.0,
  l.1,
  ground (arith, has-append r ((r', w') ∷ xs) ((p, v) ∷ [])),
  Segment-turned h p v ((r', w') ∷ xs) t l.3 ne at (ground arith),
)

Segment-touch_second :
    (h : Chain.Heap Uthread) (p : Ptr) (v : Uthread) (q : Ptr) (w : Uthread)
    (xs : Chain.Cells Uthread) (r : Ptr) (f : Uthread → Uthread)
    → Segment h ((p, v) ∷ (q, w) ∷ xs) r
    → Segment (touch h q f) ((p, v) ∷ (q, f w) ∷ xs) r
unfolding touch
Segment-touch_second h p v q w xs r f l =
    (l.0, ground (arith, l.1, l.2), ground (arith, l.2), Segment-touch_first h q w xs r f l.3)

not-sleeps : (now : ℕ) (w : Uthread) → w.is_sleep ≡ false → sleeps now w ≡ false
unfolding sleeps
not-sleeps now w awake = rw awake

abbrev pub slept : (now sleep_time : ℕ) → Uthread → Uthread
slept now sleep_time v = record v { is_sleep = true; time_to_sleep = sleep_time; start = now }

module _ (now sleep_time : ℕ) (clock : ℕ → ℕ) (munmap : ℕ → Bool) (s : State) (p q : Ptr)
    (v w : Uthread) (xs : Chain.Cells Uthread) (fuel : ℕ) (is : HasThreads s p v ((q, w) ∷ xs) p)
    (at_first : s.ulist.curr ≡ p) where
  -- the heap behind the three lines of uthread_sleep
  abbrev marked : Chain.Heap Uthread
  marked =
      touch
        (touch (touch s.heap p (λ t. record t { is_sleep = true })) p
          (λ t. record t { time_to_sleep = sleep_time }))
        p (λ t. record t { start = now })

  marked-Segment : Segment marked ((p, slept now sleep_time v) ∷ (q, w) ∷ xs) p
  marked-Segment =
      let l1 =
        Segment-touch_first s.heap p v ((q, w) ∷ xs) p (λ t. record t { is_sleep = true })
          is.linked in
      let l2 =
        Segment-touch_first _ p _ ((q, w) ∷ xs) p (λ t. record t { time_to_sleep = sleep_time })
          l1 in
      Segment-touch_first _ p _ ((q, w) ∷ xs) p (λ t. record t { start = now }) l2

  abbrev marked_state : State
  marked_state = record s { heap = marked }

  marked-LeadsTo :
      LeadsTo marked_state
        ([] ++ (q, w) ∷ (xs ++ (p, slept now sleep_time v) ∷ []))
        (slept now sleep_time v)
  marked-LeadsTo =
      let l = marked-Segment in
      record {
        linked = Segment-turned marked p (slept now sleep_time v) ((q, w) ∷ xs) q l.3 l.0 l.1 l.2;
        at_curr = ap marked at_first ∙ l.1;
        not_null = λ e. l.0 (sym at_first ∙ e);
      }

  update_curr :
      (h : Chain.Heap Uthread) (f : Uthread → Uthread) (n : Chain.Node Uthread)
      → h p ≡ some n
      → update s.ulist.curr f (record s { heap = h }) ≡ ok tt (record s { heap = touch h p f })
  update_curr h f n at =
      subst (λ c. update c f (record s { heap = h }) ≡ ok tt (record s { heap = touch h p f }))
        (sym at_first) (update_lem p f n (record s { heap = h }) is.linked.0 at)

  pub uthread_sleep-switched :
      w.is_sleep ≡ false
      → (inc_int s.curr_time == time_to_clear) ≡ false
      → 0 < fuel
      → uthread_sleep now sleep_time clock munmap fuel s
        ≡ ok tt (switched marked_state q (if s.ulist.curr == q then s.running else w.uctx))
  unfolding uthread_sleep
  uthread_sleep-switched awake time enough =
      let l1 =
        Segment-touch_first s.heap p v ((q, w) ∷ xs) p (λ t. record t { is_sleep = true })
          is.linked in
      let l2 =
        Segment-touch_first _ p _ ((q, w) ∷ xs) p (λ t. record t { time_to_sleep = sleep_time })
          l1 in
      rw
        (
          update_curr s.heap (λ t. record t { is_sleep = true }) _ is.linked.1,
          update_curr _ (λ t. record t { time_to_sleep = sleep_time }) _ l1.1,
          update_curr _ (λ t. record t { start = now }) _ l2.1,
        )
        (scheduler-Picks clock munmap marked_state [] q w (xs ++ (p, slept now sleep_time v) ∷ [])
          (slept now sleep_time v) fuel marked-LeadsTo (not-sleeps (clock 0) w awake) time enough)

  -- In a ring whose first thread is the current one and whose second one is awake, uthread_sleep marks
  -- the first one as asleep since now, keeps the context that runs in it, and runs the second one; the
  -- ring and its other threads stay.
  pub uthread_sleep-HasThreads :
      w.is_sleep ≡ false
      → (inc_int s.curr_time == time_to_clear) ≡ false
      → 0 < fuel
      → Returns
          (λ _ t.
            HasThreads t p (save s.running (slept now sleep_time v)) ((q, wake w) ∷ xs) p
            × (t.ulist.curr ≡ q)
            × (t.running ≡ w.uctx))
          (uthread_sleep now sleep_time clock munmap fuel s)
  uthread_sleep-HasThreads awake time enough =
      let other : (s.ulist.curr == q) ≡ false = ground (arith, at_first, marked-Segment.2) in
      let woken =
        Segment-touch_second marked p (slept now sleep_time v) q w xs p wake marked-Segment in
      let linked =
        subst
          (λ c.
            Segment (touch (touch marked q wake) c (save s.running))
              ((p, save s.running (slept now sleep_time v)) ∷ (q, wake w) ∷ xs) p)
          (sym at_first)
          (Segment-touch_first (touch marked q wake) p (slept now sleep_time v) ((q, wake w) ∷ xs) p
            (save s.running) woken) in
      rw (uthread_sleep-switched awake time enough, other)
        (returns (record { first = is.first; last = is.last; linked = linked }, refl, refl))

-- ===== src/Uthread/Examples.antt =====
-- The theorems about the threads of task1/task1-7 at a ring of the main thread and one other.
use osi.Base.{ℕ, ◌+◌, ◌-◌, ◌*◌, ◌≡◌, refl, true, false, none, some, [], ◌∷◌, ◌++◌, arith, inc_int}
use osi.Chain
use osi.Chain.{Ptr, null, node, write, has}
use osi.Machine.{ok, stop, fault, Returns, ◌>>◌}
use osi.Uthread.State.{Uthread, State, own, sched_loop, stack_size}
use osi.Uthread.Scheduler.{sleeps, elapsed, uthread_scheduler, alarm_sig_handler}
use osi.Uthread.Scheduler.Picks.{LeadsTo, switched, scheduler-Picks, save}
use osi.Uthread.Scheduler.Alarm.{alarm-loses_context}
use osi.Uthread.Main.{named_main, main}
use osi.Uthread.Main.Sleep.{slept}
use osi.Uthread.Main.Ring.{made, main-HasThreads}
use osi.Uthread.Create.Ring.{HasThreads}
use osi.Uthread.Start.{record_stack, start_thread}
use osi.Uthread.Start.Unlink.{Stands}
use osi.Uthread.Start.Unmap.{start_thread-unmaps_itself}
use osi.Uthread.Start.Bounds.{here, next, rings, record_stack-in_bounds}

-- The main thread, at 5, and the other one, at the top of its stack
abbrev main_thread : Uthread
main_thread = record {
  stack = 0;
  name = b'm' ∷ [];
  thread_func = 0;
  arg = 0;
  uctx = own;
  is_sleep = false;
  time_to_sleep = 0;
  start = 0;
}

abbrev other : Uthread
other = record main_thread { stack = 10000; name = b'o' ∷ [] }

abbrev asleep : Uthread
asleep = record other { is_sleep = true; time_to_sleep = 10 }

abbrev ring : Uthread → (curr : Ptr) → (curr_time : ℕ) → State
ring w curr curr_time = record {
  heap = write (write (λ _. none) 20000 (some (node w 5))) 5 (some (node main_thread 20000));
  ulist = record { first = 5; last = 20000; curr = curr };
  stacks = [];
  curr_time = curr_time;
  scheduler_active = false;
  running = own;
}

leads : (w : Uthread) → LeadsTo (ring w 5 3) ((20000, w) ∷ (5, main_thread) ∷ []) main_thread
leads w = record {
  linked = (ground arith, refl, refl, (ground arith, refl, refl, tt));
  at_curr = refl;
  not_null = ground arith;
}

stands : Stands (ring other 20000 29) [] 5 20000 main_thread other []
stands = record {
  first = refl;
  linked = (ground arith, refl, refl, (ground arith, refl, refl, tt));
}

scheduler-Picks_example :
    uthread_scheduler (λ _. 7) (λ _. true) 2 (ring asleep 5 3)
    ≡ ok tt (switched (ring asleep 5 3) 5 own)
unfolding sleeps elapsed inc_int
scheduler-Picks_example =
    scheduler-Picks (λ _. 7) (λ _. true) (ring asleep 5 3) ((20000, asleep) ∷ []) 5 main_thread []
      main_thread 2 (leads asleep) (refl, refl) refl (omega arith)

alarm-loses_context_example :
    Returns
      (λ _ t.
        (t.ulist.curr ≡ 20000)
        × ((n : Chain.Node Uthread) × (t.heap (ring other 5 3).ulist.curr ≡ some n)
            × (n.val.uctx ≡ sched_loop)))
      ((alarm_sig_handler >> uthread_scheduler (λ _. 7) (λ _. true) 1) (ring other 5 3))
unfolding sleeps inc_int
alarm-loses_context_example =
    alarm-loses_context (λ _. 7) (λ _. true) (ring other 5 3) [] 20000 other ((5, main_thread) ∷ [])
      main_thread 1 (leads other) refl refl (omega arith) refl

start_thread-unmaps_itself_example :
    start_thread (λ _. 7) (λ _. true) 1 (ring other 20000 29) ≡ stop fault
start_thread-unmaps_itself_example =
    start_thread-unmaps_itself (λ _. 7) (ring other 20000 29) 1 [] 5 main_thread other [] stands
      (omega arith) refl (omega arith) (omega arith) (omega arith) (omega arith)

-- The alarm rings once, and the other thread ends.
record_stack-in_bounds_example :
    record_stack 20000 (record (ring other 20000 3) { running = sched_loop })
    ≡ ok tt (record (ring other 20000 3) { running = sched_loop; stacks = [] ++ 10000 ∷ [] })
unfolding alarm_sig_handler
record_stack-in_bounds_example =
    record_stack-in_bounds (ring other 20000 3)
      (record (ring other 20000 3) { running = sched_loop }) 20000 (node other 5)
      (omega arith, omega arith) (next here (rings refl)) (omega arith) refl

-- Before main, with its variable at 5
abbrev before_main : State
before_main = record (ring other 0 0) { heap = write (λ _. none) 5 (some (node main_thread 77)) }

main-HasThreads_example :
    Returns
      (λ _ t.
        HasThreads t 5
          (save own (slept 7 10 (named_main main_thread)))
          (made 1000 (λ k. 40000 + k * 20000) 8 (λ k. 9 + k))
          5
        × (t.ulist.curr ≡ 40000 + 0 * 20000 + stack_size - 1000)
        × (t.running ≡ own))
      (main 5 1000
        (λ k. 40000 + k * 20000)
        (λ _. true)
        8
        (λ k. 9 + k)
        7
        (λ _. 7)
        (λ _. true)
        1
        before_main)
unfolding inc_int
main-HasThreads_example =
    main-HasThreads before_main 5 (node main_thread 77) 1000 (λ k. 40000 + k * 20000) 8 (λ k. 9 + k)
      7 (λ _. 7) (λ _. true) 1 (omega arith) refl (λ k lt. (omega arith, ground arith))
      (λ j k less lt. omega arith) refl (omega arith)

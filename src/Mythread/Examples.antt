-- ===== src/Mythread/Examples.antt =====
-- The theorems about the threads of task1/task1-6 at concrete threads.
use osi.Base.{ℕ, ◌+◌, ◌-◌, ◌≡◌, refl, true, false, none, some, ◌==◌, arith, if◌then◌else◌, inc_int}
use osi.Machine.{stop, fault, pure, Returns, ◌>>=◌, ◌>>◌}
use osi.Mythread.{
  State, stack_size, mythread_cancelled, start_routine, mythread_create, mythread_join, new_thread,
}
use osi.Mythread.Child.{routine_of, and_tested}
use osi.Mythread.Join.{
  at_sleep, cancelled_if, detached_end, mythread_create-join, mythread_join-detached,
}

-- A routine adds its number and its argument.
abbrev sum : ℕ → ℕ → ℕ
sum routine arg = routine + arg

abbrev nothing : State
nothing = record { threads = λ _. none; thread_num = 0 }

-- The thread is cancelled while its routine runs, which tests it, during the fourth sleep of the
-- caller.
mythread_create-join_example :
    Returns
      (λ a t.
        (a ≡ (true, some mythread_cancelled))
        × (t.thread_num ≡ inc_int 0)
        × (mythread_join (λ _. pure tt) 9 true (40000 + stack_size - 1000) t ≡ stop fault))
      ((mythread_create 1000 40000 true 7 8 >>= λ p.
          cancelled_if false p
          >> mythread_join (at_sleep 3 (start_routine (routine_of sum p and_tested) 2 p)) 5 true p)
        nothing)
mythread_create-join_example =
    mythread_create-join sum 1000 40000 7 8 3 and_tested true nothing (λ _. pure tt) 9 (omega arith)
      (omega arith)

abbrev one : State
one = record {
  threads = λ a. if 50000 == a then some (new_thread 1 40000 7 8) else none;
  thread_num = 1;
}

mythread_join-detached_example :
    mythread_join (at_sleep 0 (detached_end sum 50000)) 2 true 50000 one ≡ stop fault
mythread_join-detached_example =
    mythread_join-detached sum 50000 (new_thread 1 40000 7 8) one true refl refl refl (omega arith)
      (omega arith)

-- ===== src/Mythread.antt =====
-- The threads of task1/task1-6/mythread_create.c: made by clone, ended, cancelled and joined. The
-- structure of a thread stands at the top of its stack.
pub mod Child
pub mod Join
mod Examples
use osi.Base.{
  ℕ, zero, suc, ◌+◌, ◌-◌, ◌*◌, Bool, true, false, ◌&&◌, Option, none, some, ◌==◌, if◌then◌else◌,
  leb, ltb, inc_int,
}
use osi.Machine.{Cmd, ok, stop, fault, aborted, no_fuel, pure, ◌>>=◌, ◌>>◌, modify, read}

abbrev pub Ptr : Type 0
Ptr = ℕ

-- `mythread_struct_t`
pub record Thread : Type 0 where
  pub mythread_id : ℕ
  pub routine : ℕ
  pub arg : ℕ
  pub retval : ℕ
  pub stack : ℕ
  pub not_finished : Bool
  pub is_detached : Bool
  pub is_cancelled : Bool

-- The structures in memory, and `thread_num`
pub record State : Type 0 where
  pub threads : Ptr → Option Thread
  pub thread_num : ℕ

abbrev pub stack_size : ℕ
stack_size = 4096 * 4

-- `MYTHREAD_CANCELLED`
abbrev pub mythread_cancelled : ℕ
mythread_cancelled = 1234453

abbrev pub write : (Ptr → Option Thread) → Ptr → Option Thread → Ptr → Option Thread
write h p c a = if p == a then c else h a

abbrev pub found : Option Thread → Cmd State Thread
found none s = stop fault
found (some t) s = ok t s

-- `thread->...` read: undefined where the stack has been unmapped
unfoldable pub load : Ptr → Cmd State Thread
load p s = found (s.threads p) s

abbrev pub store : Ptr → Option Thread → Cmd State (Unit {0})
store p c = modify λ s. record s { threads = write s.threads p c }

unfoldable pub update : Ptr → (Thread → Thread) → Cmd State (Unit {0})
unfolding load
update p f = load p >>= λ t. store p (some (f t))

-- `munmap(stack, STACK_SIZE)`
unfoldable pub unmap : (stack : ℕ) → Cmd State (Unit {0})
unmap stack = modify λ s. record s {
  threads = λ a. if leb stack a && ltb a (stack + stack_size) then none else s.threads a;
}

unfoldable pub mythread_detach : Ptr → Cmd State (Unit {0})
unfolding update
mythread_detach p = update p λ t. record t { is_detached = true }

unfoldable pub mythread_cancel : Ptr → Cmd State (Unit {0})
unfolding update
mythread_cancel p = update p λ t. record t { is_cancelled = true }

-- Whether the call leaves for `ctx`, and does not return
unfoldable pub mythread_testcancel : Ptr → Cmd State Bool
unfolding load
mythread_testcancel p = load p >>= λ t. pure t.is_cancelled

-- The answer of a routine, or none where a call of `mythread_testcancel` has left it
abbrev pub Routine : Type 0
Routine = (routine arg : ℕ) → Cmd State (Option ℕ)

-- From `getcontext` on, where the context of the thread goes on
unfoldable pub run_routine : Routine → (fuel : ℕ) → Ptr → Cmd State (Unit {0})
unfolding load update
run_routine run zero p = λ _. stop no_fuel
run_routine run (suc fuel) p = do
  t ← load p
  if t.is_cancelled then update p (λ t. record t { retval = mythread_cancelled }) else (do
    answer ← run t.routine t.arg
    elim answer [
      | none ↦ run_routine run fuel p
      | some r ↦ update p (λ t. record t { retval = r })
    ])

abbrev cleared : Ptr → Option Thread → Cmd State (Unit {0})
cleared p none = pure tt
cleared p (some t) = store p (some (record t { not_finished = false }))

-- The kernel clears `notFinished` when the thread is over, where that is still in memory.
unfoldable pub clear_tid : Ptr → Cmd State (Unit {0})
clear_tid p s = cleared p (s.threads p) s

-- A detached thread unmaps its stack from another one.
unfoldable pub start_routine : Routine → (fuel : ℕ) → Ptr → Cmd State (Unit {0})
unfolding load run_routine unmap clear_tid
start_routine run fuel p = do
  load p
  run_routine run fuel p
  t ← load p
  if t.is_detached then unmap t.stack else pure tt
  clear_tid p

abbrev pub new_thread : (thread_num stack routine arg : ℕ) → Thread
new_thread thread_num stack routine arg = record {
  mythread_id = thread_num;
  routine = routine;
  arg = arg;
  retval = 0;
  stack = stack;
  not_finished = true;
  is_detached = false;
  is_cancelled = false;
}

-- `mmap` has answered `stack`, with zeros in it, and `size` is the size of the structure. The result
-- is what is left in `*mythread`.
unfoldable pub mythread_create :
    (size stack : ℕ) (clone_ok : Bool) (routine arg : ℕ) → Cmd State Ptr
mythread_create size stack clone_ok routine arg =
    let thread = stack + stack_size - size in
    do
      modify (λ s. record s { thread_num = inc_int s.thread_num })
      n ← read (λ s. s.thread_num)
      store thread (some (new_thread n stack routine arg))
      if clone_ok then pure thread else (λ _. stop aborted)

-- The loop of `mythread_join`: the other threads do `others k` during its `k`-th sleep.
unfoldable pub wait_finished :
    (others : ℕ → Cmd State (Unit {0})) → (fuel k : ℕ) → Ptr → Cmd State (Unit {0})
unfolding load
wait_finished others zero k p = λ _. stop no_fuel
wait_finished others (suc fuel) k p = do
  t ← load p
  if t.not_finished then others k >> wait_finished others fuel (suc k) p else pure tt

-- Behind the loop: the answer, and `*retval` where `retval` is not NULL
unfoldable pub take_result : (wanted : Bool) → Ptr → Cmd State (Bool × Option ℕ)
unfolding load unmap
take_result wanted p = do
  t ← load p
  unmap t.stack
  pure (true, if wanted then some t.retval else none)

-- 0 is `true`, and -1 `false`.
unfoldable pub mythread_join :
    (others : ℕ → Cmd State (Unit {0}))
    → (fuel : ℕ) → (wanted : Bool) → Ptr
    → Cmd State (Bool × Option ℕ)
unfolding load wait_finished take_result
mythread_join others fuel wanted p = do
  t ← load p
  if t.is_detached
      then pure (false, none)
      else (do wait_finished others fuel 0 p; take_result wanted p)

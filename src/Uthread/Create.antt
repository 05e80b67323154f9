-- ===== src/Uthread/Create.antt =====
-- `uthread_create` and `main` of task1/task1-7/uthread.c.
pub mod Ring
use osi.Base.{
  ℕ, zero, suc, ◌+◌, ◌-◌, Bool, true, false, Option, none, some, List, [], ◌∷◌, ◌++◌, ◌==◌,
  if◌then◌else◌, take, zeros,
}
use osi.Chain.{Ptr, null, node}
use osi.Machine.{Cmd, ok, stop, aborted, pure, ◌>>=◌, ◌>>◌, modify}
use osi.Uthread.State.{
  Uthread, State, own, get_list, set_list, load, store, set_next, stack_size, name_size,
}

-- `strncpy` pads with 0 and cuts off.
unfoldable pub strncpy : List ℕ → ℕ → List ℕ
strncpy src n = take n (src ++ zeros n)

-- What `uthread_create` puts at the top of the new stack.
unfoldable pub new_uthread : (stack : ℕ) (name : List ℕ) (thread_func arg : ℕ) → Uthread
unfolding strncpy
new_uthread stack name thread_func arg = record {
  stack = stack;
  name = strncpy name name_size;
  thread_func = thread_func;
  arg = arg;
  uctx = own;
  is_sleep = false;
  time_to_sleep = 0;
  start = 0;
}

-- `mmap` has answered `stack`, with zeros in it, and `size` is the size of `uthread_t`; `err` is
-- what `getcontext` answers. The result is what is left in `*uthread`.
unfoldable pub uthread_create :
    (size stack : ℕ) (err_ok : Bool) (name : Option (List ℕ)) (thread_func arg : ℕ) → Cmd State Ptr
unfolding new_uthread set_next
uthread_create size stack err_ok none thread_func arg = λ _. stop aborted
uthread_create size stack err_ok (some name) thread_func arg =
    let new_ut = stack + stack_size - size in
    if err_ok
    then (do
      l ← get_list
      store new_ut (some (node (new_uthread stack name thread_func arg) l.first))
      set_next l.last new_ut
      set_list (λ l. record l { last = new_ut })
      pure new_ut)
    else (λ _. stop aborted)

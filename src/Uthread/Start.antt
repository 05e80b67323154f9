-- ===== src/Uthread/Start.antt =====
-- `start_thread` of task1/task1-7/uthread.c: what happens when the function of a thread has returned.
pub mod Unlink
pub mod Unmap
pub mod Keeps
pub mod Bounds
use osi.Base.{
  ℕ, zero, suc, Bool, true, false, List, [], ◌∷◌, ◌++◌, ◌==◌, if◌then◌else◌, leb, length,
}
use osi.Chain.{Ptr, null, node}
use osi.Machine.{Cmd, ok, stop, fault, no_fuel, pure, ◌>>=◌, ◌>>◌, modify, read}
use osi.Uthread.State.{Uthread, State, get_list, set_list, load, set_next, max_stacks_to_clear}
use osi.Uthread.Scheduler.{uthread_scheduler}

-- `while (temp->next != curr) temp = temp->next;`
unfoldable pub find_before : (fuel : ℕ) (curr temp : Ptr) → Cmd State Ptr
unfolding load
find_before zero curr temp = λ _. stop no_fuel
find_before (suc fuel) curr temp = do
  n ← load temp
  if n.next == curr then pure temp else find_before fuel curr n.next

-- The lines that take `curr` out of the ring
unfoldable pub unlink : (fuel : ℕ) (curr : Ptr) → Cmd State (Unit {0})
unfolding find_before load set_next
unlink fuel curr = do
  l ← get_list
  temp ← find_before fuel curr l.first
  c ← load curr
  set_next temp c.next
  k ← get_list
  if curr == k.last then set_list (λ l. record l { last = temp }) else pure tt

-- `stack_list.stacksArr[stack_list.currNum] = curr->stack; stack_list.currNum++;`
unfoldable pub record_stack : Ptr → Cmd State (Unit {0})
unfolding load
record_stack curr = do
  c ← load curr
  stacks ← read (λ s. s.stacks)
  if leb max_stacks_to_clear (length stacks)
      then (λ _. stop fault)
      else modify (λ s. record s { stacks = s.stacks ++ c.val.stack ∷ [] })

-- The thread's function has returned, and left this state.
unfoldable pub start_thread : (clock : ℕ → ℕ) (munmap : ℕ → Bool) (fuel : ℕ) → Cmd State (Unit {0})
unfolding unlink record_stack uthread_scheduler
start_thread clock munmap fuel = do
  l ← get_list
  unlink fuel l.curr
  record_stack l.curr
  uthread_scheduler clock munmap fuel

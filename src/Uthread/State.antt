-- ===== src/Uthread/State.antt =====
-- The globals and structures of task1/task1-7/uthread.c.
use osi.Base.{ℕ, ◌+◌, ◌*◌, Bool, ◌&&◌, Option, none, some, List, ◌==◌, if◌then◌else◌, leb, ltb}
use osi.Chain
use osi.Chain.{Ptr, null, node, write}
use osi.Machine.{Cmd, ok, stop, fault, ◌>>=◌, modify, read}

-- Where a context goes on: in the code of its own thread, or in the loop of `uthread_sched_yield`.
pub data Context : Type 0 where
  own : Context
  sched_loop : Context

-- `uthread_t` without `next`
pub record Uthread : Type 0 where
  pub stack : ℕ
  pub name : List ℕ
  pub thread_func : ℕ
  pub arg : ℕ
  pub uctx : Context
  pub is_sleep : Bool
  pub time_to_sleep : ℕ
  pub start : ℕ

-- `uthreads_list`
pub record Uthreads : Type 0 where
  pub first : Ptr
  pub last : Ptr
  pub curr : Ptr

-- The heap, `ulist`, the first `currNum` elements of `stacksArr`, `currTime`, `isSchduler_active`,
-- and the context that runs.
pub record State : Type 0 where
  pub heap : Chain.Heap Uthread
  pub ulist : Uthreads
  pub stacks : List ℕ
  pub curr_time : ℕ
  pub scheduler_active : Bool
  pub running : Context

abbrev pub page_size : ℕ
page_size = 4096

abbrev pub stack_size : ℕ
stack_size = page_size * 4

abbrev pub name_size : ℕ
name_size = 16

abbrev pub max_stacks_to_clear : ℕ
max_stacks_to_clear = 100

abbrev pub time_to_clear : ℕ
time_to_clear = 30

abbrev pub clocks_per_sec : ℕ
clocks_per_sec = 1000000

abbrev pub set_list : (Uthreads → Uthreads) → Cmd State (Unit {0})
set_list f = modify λ s. record s { ulist = f s.ulist }

abbrev pub get_list : Cmd State Uthreads
get_list = read λ s. s.ulist

abbrev pub found : Option (Chain.Node Uthread) → Cmd State (Chain.Node Uthread)
found none s = stop fault
found (some n) s = ok n s

unfoldable pub load : Ptr → Cmd State (Chain.Node Uthread)
load p s = if p == null then stop fault else found (s.heap p) s

abbrev pub store : Ptr → Option (Chain.Node Uthread) → Cmd State (Unit {0})
store p c = modify λ s. record s { heap = write s.heap p c }

-- A change of the fields of a thread, and one of its `next`
unfoldable pub update : Ptr → (Uthread → Uthread) → Cmd State (Unit {0})
unfolding load
update p f = load p >>= λ n. store p (some (node (f n.val) n.next))

unfoldable pub set_next : Ptr → Ptr → Cmd State (Unit {0})
unfolding load
set_next p q = load p >>= λ n. store p (some (node n.val q))

-- `munmap(stack, STACK_SIZE)`: what lies in the stack is gone, the thread's structure with it.
unfoldable pub unmapped : Chain.Heap Uthread → ℕ → Chain.Heap Uthread
unmapped h stack a = if leb stack a && ltb a (stack + stack_size) then none else h a

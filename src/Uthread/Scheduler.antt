-- ===== src/Uthread/Scheduler.antt =====
-- `uthread_scheduler`, `uthread_sleep` and the alarm of task1/task1-7/uthread.c.
pub mod Picks
pub mod Alarm
use osi.Base.{
  ℕ, zero, suc, ◌+◌, ◌-◌, ◌/◌, ◌%◌, ◌^◌, Bool, true, false, ◌&&◌, List, [], ◌∷◌, ◌==◌,
  if◌then◌else◌, leb, ltb, inc_int,
}
use osi.Chain.{Ptr, null, node}
use osi.Machine.{Cmd, ok, stop, aborted, no_fuel, pure, ◌>>=◌, ◌>>◌, modify, read}
use osi.Uthread.State.{
  Uthread, State, Context, own, sched_loop, get_list, set_list, load, update, unmapped,
  time_to_clear, clocks_per_sec,
}

-- `(clock() - start) / CLOCKS_PER_SEC`, compared as an unsigned number
unfoldable pub elapsed : (now start : ℕ) → ℕ
elapsed now start =
    if leb start now
    then (now - start) / clocks_per_sec
    else (2 ^ 64 - (start - now) / clocks_per_sec) % 2 ^ 64

unfoldable pub sleeps : (now : ℕ) → Uthread → Bool
unfolding elapsed
sleeps now t = t.is_sleep && ltb (elapsed now t.start) t.time_to_sleep

-- The loop over `stacksArr`; `munmap` answers for each stack whether it has succeeded.
unfoldable pub clear_stacks : (munmap : ℕ → Bool) → List ℕ → Cmd State (Unit {0})
unfolding unmapped
clear_stacks munmap [] = pure tt
clear_stacks munmap (stack ∷ stacks) =
    let rest = clear_stacks munmap stacks in
    if stack == null
    then rest
    else if munmap stack
    then (do modify (λ s. record s { heap = unmapped s.heap stack }); rest)
    else (λ _. stop aborted)

-- The lines up to the search
unfoldable pub tick : (munmap : ℕ → Bool) → Cmd State (Unit {0})
unfolding clear_stacks
tick munmap = do
  modify (λ s. record s { curr_time = inc_int s.curr_time })
  t ← read (λ s. s.curr_time)
  stacks ← read (λ s. s.stacks)
  if t == time_to_clear
      then (do clear_stacks munmap stacks; modify (λ s. record s { curr_time = 0; stacks = [] }))
      else pure tt

-- The search for a thread that does not sleep; the `k`-th call of `clock` answers `clock k`.
unfoldable pub find_awake : (clock : ℕ → ℕ) (fuel k : ℕ) → Ptr → Cmd State Ptr
unfolding load sleeps
find_awake clock zero k iter = λ _. stop no_fuel
find_awake clock (suc fuel) k iter = do
  n ← load iter
  if sleeps (clock k) n.val
      then (do
        l ← get_list
        find_awake clock fuel (suc k) (if n.next == null then l.first else n.next))
      else pure iter

-- `swapcontext` leaves the context that runs in `curr`, and runs that of `next`.
unfoldable pub swap_context : (curr next : Ptr) → Cmd State (Unit {0})
unfolding load update
swap_context curr next = do
  c ← read (λ s. s.running)
  update curr (λ t. record t { uctx = c })
  n ← load next
  modify (λ s. record s { running = n.val.uctx })

-- Up to the moment when another context runs. The copy of the context of `curr` reads it.
unfoldable pub uthread_scheduler :
    (clock : ℕ → ℕ) (munmap : ℕ → Bool) (fuel : ℕ) → Cmd State (Unit {0})
unfolding tick find_awake swap_context load update
uthread_scheduler clock munmap fuel = do
  modify (λ s. record s { scheduler_active = true })
  tick munmap
  l ← get_list
  n ← load l.curr
  next ← find_awake clock fuel 0 n.next
  update next (λ t. record t { is_sleep = false })
  set_list (λ l. record l { curr = next })
  modify (λ s. record s { scheduler_active = false })
  swap_context l.curr next

unfoldable pub uthread_sleep :
    (now sleep_time : ℕ) (clock : ℕ → ℕ) (munmap : ℕ → Bool) (fuel : ℕ) → Cmd State (Unit {0})
unfolding uthread_scheduler update
uthread_sleep now sleep_time clock munmap fuel = do
  l ← get_list
  update l.curr (λ t. record t { is_sleep = true })
  update l.curr (λ t. record t { time_to_sleep = sleep_time })
  update l.curr (λ t. record t { start = now })
  uthread_scheduler clock munmap fuel

-- The handler of the alarm leaves for the scheduler's own context, whatever runs.
unfoldable pub alarm_sig_handler : Cmd State (Unit {0})
alarm_sig_handler = do
  active ← read (λ s. s.scheduler_active)
  if active then pure tt else modify (λ s. record s { running = sched_loop })

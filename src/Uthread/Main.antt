-- ===== src/Uthread/Main.antt =====
-- `main` of task1/task1-7/uthread.c, up to the moment when the first thread runs.
pub mod Sleep
pub mod Ring
use osi.Base.{ℕ, zero, suc, Bool, false, some, List, [], ◌∷◌}
use osi.Chain.{Ptr, null}
use osi.Machine.{Cmd, pure, ◌>>=◌, ◌>>◌}
use osi.Uthread.State.{Uthread, State, own, set_list, update, set_next, name_size}
use osi.Uthread.Create.{strncpy, uthread_create}
use osi.Uthread.Scheduler.{uthread_sleep}

abbrev pub user_thread : List ℕ → List ℕ
user_thread ending =
    b'u' ∷ b's' ∷ b'e' ∷ b'r' ∷ b' ' ∷ b't' ∷ b'h' ∷ b'r' ∷ b'e' ∷ b'a' ∷ b'd' ∷ b' ' ∷ ending

abbrev pub name_main : List ℕ
name_main = user_thread (b'm' ∷ b'a' ∷ b'i' ∷ b'n' ∷ [])

-- The names of the three threads
abbrev pub name_of : ℕ → List ℕ
name_of zero = user_thread (b'z' ∷ b'e' ∷ b'r' ∷ b'o' ∷ [])
name_of (suc zero) = user_thread (b'o' ∷ b'n' ∷ b'e' ∷ [])
name_of (suc (suc k)) = user_thread (b't' ∷ b'w' ∷ b'o' ∷ [])

-- What main writes into its variable `main_thread`
unfoldable pub named_main : Uthread → Uthread
unfolding strncpy
named_main v = record v { name = strncpy name_main name_size; is_sleep = false; uctx = own }

-- The lines that set up `ulist` and `main_thread`, which lies at `main_thread`
unfoldable pub set_up : (main_thread : Ptr) → Cmd State (Unit {0})
unfolding strncpy update set_next
set_up main_thread = do
  set_list (λ l. record l { curr = main_thread })
  set_list (λ l. record l { first = main_thread })
  set_list (λ l. record l { last = main_thread })
  update main_thread (λ t. record t { name = strncpy name_main name_size })
  set_next main_thread null
  update main_thread (λ t. record t { is_sleep = false })
  update main_thread (λ t. record t { uctx = own })

-- `mmap` answers `stack k` to the `k`-th call of uthread_create, and `getcontext` `getcontext k`; the
-- function `uthread` lies at `thread_func`, and the `k`-th string literal at `arg k`.
unfoldable pub main :
    (main_thread : Ptr) (size : ℕ) (stack : ℕ → ℕ) (getcontext : ℕ → Bool) (thread_func : ℕ)
    (arg : ℕ → ℕ) (now : ℕ) (clock : ℕ → ℕ) (munmap : ℕ → Bool) (fuel : ℕ)
    → Cmd State (Unit {0})
unfolding set_up uthread_create uthread_sleep
main main_thread size stack getcontext thread_func arg now clock munmap fuel = do
  set_up main_thread
  uthread_create size (stack 0) (getcontext 0) (some (name_of 0)) thread_func (arg 0)
  uthread_create size (stack 1) (getcontext 1) (some (name_of 1)) thread_func (arg 1)
  uthread_create size (stack 2) (getcontext 2) (some (name_of 2)) thread_func (arg 2)
  uthread_sleep now 10 clock munmap fuel

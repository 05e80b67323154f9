-- ===== src/List/Concurrent.antt =====
-- The threads of task2/2.3/mutex/list-threads.c at work on one list, in any order of their steps:
-- those that compare, and those that run swap_threads with random numbers other than 1.
pub mod Family
pub mod Ring
pub mod Invariant
pub mod Moves
pub mod Runs
pub mod Progress
pub mod Start
pub mod Launch
mod Examples
use osi.Base.{
  ℕ, ◌<◌, ◌≡◌, refl, ap, ◌∙◌, sym, ◌==◌, if◌then◌else◌, Option, some, none, List, [], ◌∷◌, ltb,
  Bool, true, false, Bool-cases, inl, inr, arith,
}
use mathlib.Core.Path.{subst}
use osi.Machine.{Outcome, ok, stop}
use osi.List.Store.{State}
use osi.List.Mutex.{Mutex, node_lock}
use osi.List.Threads.Steps.{Work, Pc, advance}

-- The memory, and where each thread stands. Numbers from the number of threads on name no thread.
pub record System : Type 0 where
  pub state : State Mutex
  pub pc : ℕ → Pc

abbrev pub update : (ℕ → Pc) → ℕ → Pc → ℕ → Pc
update pc i p j = if i == j then p else pc j

-- One of `n` threads makes a step; the thread `i` does `ops i`.
pub data Step (n : ℕ) (ops : ℕ → Work) (a : System) : System → Type 0 where
  picks :
      (i : ℕ) {t : State Mutex} {p : Pc}
      → i < n
      → advance node_lock (ops i) (a.pc i) a.state ≡ ok p t
      → Step n ops a (record { state = t; pc = update a.pc i p })

pub data Reach (n : ℕ) (ops : ℕ → Work) (a : System) : System → Type 0 where
  here : Reach n ops a a
  next : {b c : System} → Reach n ops a b → Step n ops b c → Reach n ops a c

abbrev pub reached : System → Option System → System
reached a none = a
reached a (some b) = b

none_is_not : {b : System} → ¬ (none ≡ some b)
none_is_not e = cc

-- The threads that `picked` names, each with a step, or nothing if one of them cannot make it
abbrev after_step : System → ℕ → Outcome (State Mutex) Pc → Option System
after_step a i (ok p t) = some (record { state = t; pc = update a.pc i p })
after_step a i (stop _) = none

abbrev step_of : (n : ℕ) → (ℕ → Work) → ℕ → System → Option System
step_of n ops i a =
    if ltb i n then after_step a i (advance node_lock (ops i) (a.pc i) a.state) else none

abbrev go_on : Option System → (System → Option System) → Option System
go_on none f = none
go_on (some a) f = f a

abbrev pub run : (n : ℕ) → (ℕ → Work) → (picked : List ℕ) → System → Option System
run n ops [] a = some a
run n ops (i ∷ picked) a = go_on (step_of n ops i a) (run n ops picked)

after_step-Step :
    (n : ℕ) (ops : ℕ → Work) (a b : System) (i : ℕ) (o : Outcome (State Mutex) Pc)
    → i < n
    → advance node_lock (ops i) (a.pc i) a.state ≡ o
    → after_step a i o ≡ some b
    → Step n ops a b
after_step-Step n ops a b i (ok p t) lt at e =
    subst (λ (x : System). Step n ops a x) (ap (reached a) e) (picks i lt at)
after_step-Step n ops a b i (stop x) lt at e = cc

step_of-Step :
    (n : ℕ) (ops : ℕ → Work) (i : ℕ) (a b : System) → step_of n ops i a ≡ some b → Step n ops a b
step_of-Step n ops i a b e = elim (Bool-cases (ltb i n)) [
  | inl below ↦ after_step-Step n ops a b i _ (ground arith) refl (rw below at e)
  | inr above ↦ absurd (none_is_not (rw above at e))
]

go_on-some :
    (o : Option System) (f : System → Option System) (c : System)
    → go_on o f ≡ some c
    → (b : System) × (o ≡ some b) × (f b ≡ some c)
go_on-some none f c e = cc
go_on-some (some b) f c e = (b, refl, e)

-- What a run reaches is reached.
pub run-Reach :
    (n : ℕ) (ops : ℕ → Work) (picked : List ℕ) (a b c : System)
    → Reach n ops a b
    → run n ops picked b ≡ some c
    → Reach n ops a c
run-Reach n ops [] a b c r e = subst (λ x. Reach n ops a x) (ap (reached a) e) r
run-Reach n ops (i ∷ picked) a b c r e =
    let (b', at, rest) = go_on-some (step_of n ops i b) (run n ops picked) c e in
    run-Reach n ops picked a b' c (next r (step_of-Step n ops i b b' at)) rest

-- ===== src/Uthread/Start/Keeps.antt =====
-- The commands of task1/task1-7/uthread.c that leave the stacks to clear and the time alone.
use osi.Base.{
  ℕ, zero, suc, ◌+◌, ◌-◌, Bool, true, false, Option, none, some, List, ◌==◌, if◌then◌else◌, inl,
  inr, Bool-cases,
}
use osi.Chain
use osi.Chain.{Ptr, null, node, write}
use osi.Machine.{Ensures, ended, stopped, Ensures-and_then, Ensures-if}
use osi.Uthread.State.{Uthread, State, found, load, update, set_next, stack_size}
use osi.Uthread.Create.{uthread_create, new_uthread}
use osi.Uthread.Scheduler.{find_awake, swap_context, alarm_sig_handler, sleeps}
use osi.Uthread.Start.{find_before, unlink}

-- Commands that leave the stacks and the time alone keep what holds of these.
module _ (Q : List ℕ → ℕ → Type 0) where
  abbrev pub Kept : State → Type 0
  Kept s = Q s.stacks s.curr_time

  pub found-Keeps :
      (c : Option (Chain.Node Uthread)) (s : State) → Kept s → Ensures (λ _ t. Kept t) (found c s)
  found-Keeps none s q = stopped
  found-Keeps (some n) s q = ended q

  pub load-Keeps : (p : Ptr) (s : State) → Kept s → Ensures (λ _ t. Kept t) (load p s)
  unfolding load
  load-Keeps p s q = elim (Bool-cases (p == null)) [
    | inl e ↦ rw e stopped
    | inr e ↦ rw e (found-Keeps (s.heap p) s q)
  ]

  pub update-Keeps :
      (p : Ptr) (f : Uthread → Uthread) (s : State)
      → Kept s
      → Ensures (λ _ t. Kept t) (update p f s)
  unfolding update
  update-Keeps p f s q = Ensures-and_then (load-Keeps p s q) λ n t q. ended q

  pub set_next-Keeps : (p r : Ptr) (s : State) → Kept s → Ensures (λ _ t. Kept t) (set_next p r s)
  unfolding set_next
  set_next-Keeps p r s q = Ensures-and_then (load-Keeps p s q) λ n t q. ended q

  pub find_awake-Keeps :
      (clock : ℕ → ℕ) (fuel k : ℕ) (iter : Ptr) (s : State)
      → Kept s
      → Ensures (λ _ t. Kept t) (find_awake clock fuel k iter s)
  unfolding find_awake
  find_awake-Keeps clock zero k iter s q = stopped
  find_awake-Keeps clock (suc fuel) k iter s q = Ensures-and_then (load-Keeps iter s q) λ n t q.
      Ensures-if (sleeps (clock k) n.val) _ _ _
        (find_awake-Keeps clock fuel (suc k) (if n.next == null then t.ulist.first else n.next) t q)
        (ended q)

  pub swap_context-Keeps :
      (curr next : Ptr) (s : State) → Kept s → Ensures (λ _ t. Kept t) (swap_context curr next s)
  unfolding swap_context
  swap_context-Keeps curr next s q =
      Ensures-and_then (update-Keeps curr (λ t. record t { uctx = s.running }) s q)
        λ _ t q. Ensures-and_then (load-Keeps next t q) λ n u q. ended q

  pub find_before-Keeps :
      (fuel : ℕ) (curr temp : Ptr) (s : State)
      → Kept s
      → Ensures (λ _ t. Kept t) (find_before fuel curr temp s)
  unfolding find_before
  find_before-Keeps zero curr temp s q = stopped
  find_before-Keeps (suc fuel) curr temp s q =
      Ensures-and_then (load-Keeps temp s q) λ n t q.
        Ensures-if (n.next == curr) _ _ _ (ended q) (find_before-Keeps fuel curr n.next t q)

  pub unlink-Keeps :
      (fuel : ℕ) (curr : Ptr) (s : State) → Kept s → Ensures (λ _ t. Kept t) (unlink fuel curr s)
  unfolding unlink
  unlink-Keeps fuel curr s q =
      Ensures-and_then (find_before-Keeps fuel curr s.ulist.first s q) λ temp t q.
        Ensures-and_then (load-Keeps curr t q) λ c u q.
          Ensures-and_then (set_next-Keeps temp c.next u q)
            λ _ v q. Ensures-if (curr == v.ulist.last) _ _ _ (ended q) (ended q)

  pub alarm-Keeps : (s : State) → Kept s → Ensures (λ _ t. Kept t) (alarm_sig_handler s)
  unfolding alarm_sig_handler
  alarm-Keeps s q = Ensures-if s.scheduler_active _ _ _ (ended q) (ended q)

  pub create-Keeps :
      (size stack : ℕ) (err_ok : Bool) (name : Option (List ℕ)) (thread_func arg : ℕ) (s : State)
      → Kept s
      → Ensures (λ _ t. Kept t) (uthread_create size stack err_ok name thread_func arg s)
  unfolding uthread_create
  create-Keeps size stack err_ok none thread_func arg s q = stopped
  create-Keeps size stack false (some name) thread_func arg s q = stopped
  create-Keeps size stack true (some name) thread_func arg s q =
      Ensures-and_then
        (set_next-Keeps s.ulist.last (stack + stack_size - size)
          (record s {
            heap =
                write s.heap (stack + stack_size - size)
                  (some (node (new_uthread stack name thread_func arg) s.ulist.first));
          })
          q)
        λ _ t q. ended q

-- ===== src/List/Spinlock/Threads.antt =====
-- The threads of task2/2.3/spinlock/list-threads.c, whose turns have another order than those of the
-- other versions: the end of the list is counted before its first lock is taken, and swap_threads
-- moves on before it exchanges.
use osi.Base.{
  ℕ, ◌≡◌, refl, ap, eq_of_some, Bool, true, false, Option, none, some, ◌==◌, if◌then◌else◌,
  Bool-cases, Option-cases, inl, inr, fun_ext,
}
use mathlib.Core.Path.{subst}
use osi.Chain.{Ptr, null}
use osi.Machine.{Cmd, pure, ◌>>=◌, ◌>>◌}
use osi.List.Store.{load, set_list, get_list}
use osi.List.Threads
use osi.List.Threads.{
  NodeLock, Operation, is_more, is_less, is_equal, operation_on, add_one, lock_read, lock_write,
  unlock_node, followed, move_on,
}
use osi.List.Threads.Steps.{first-add_one}
use osi.List.Spinlock.{Spinlock, State, swap_nodes}

unfoldable pub take : Bool → Option Spinlock
take true = none
take false = some (record { held = true })

-- To unlock what nobody holds is undefined.
unfoldable pub release : Bool → Option Spinlock
release true = some (record { held = false })
release false = none

release-taken :
    (b : Bool) (m : Spinlock) → take b ≡ some m → release m.held ≡ some (record { held = b })
unfolding take release
release-taken true m e = cc
release-taken false m e =
    subst (λ (k : Spinlock). release k.held ≡ some (record { held = false })) (eq_of_some e) refl

pub release-take : (l m : Spinlock) → take l.held ≡ some m → release m.held ≡ some l
release-take l m e = release-taken l.held m e

-- One lock for reading and writing
abbrev pub node_lock : NodeLock Spinlock
node_lock = record {
  rdlock = λ l. take l.held;
  wrlock = λ l. take l.held;
  unlock = λ l. release l.held;
  unlock-rdlock = release-take;
  unlock-wrlock = release-take;
}

-- The lines at the end of the list
unfoldable pub end_turn : Operation → Ptr → Cmd State Ptr
unfolding lock_read unlock_node
end_turn op iter = do
  set_list (add_one op)
  l ← get_list
  lock_read node_lock l.first
  m ← get_list
  unlock_node node_lock m.first
  unlock_node node_lock iter
  pure m.first

-- the body of the loop of `thread_comparision`, with the new `iter`
unfoldable pub compare_turn : Operation → Ptr → Cmd State Ptr
unfolding load lock_read unlock_node operation_on end_turn
compare_turn op iter = do
  lock_read node_lock iter
  n ← load iter
  if n.next == null then end_turn op iter else (do
    a ← load iter
    lock_read node_lock a.next
    b ← load iter
    c ← load b.next
    pure (operation_on op b.val c.val)
    d ← load iter
    unlock_node node_lock d.next
    unlock_node node_lock iter
    pure d.next)

-- the exchange, which gives the locks back from the first on
unfoldable pub exchange : Ptr → Cmd State (Unit {0})
unfolding load lock_write unlock_node swap_nodes
exchange iter = do
  lock_write node_lock iter
  a ← load iter
  lock_write node_lock a.next
  b ← load iter
  c ← load b.next
  lock_write node_lock c.next
  d ← load iter
  e ← load d.next
  swap_nodes d.next e.next iter
  unlock_node node_lock iter
  f ← load iter
  unlock_node node_lock f.next
  g ← load iter
  h ← load g.next
  unlock_node node_lock h.next

-- the body of the loop of `swap_threads` for the random number `r`, with the new `iter`
unfoldable pub swap_turn : (r : ℕ) → Ptr → Cmd State Ptr
unfolding move_on followed exchange load
swap_turn r iter = do
  p ← move_on node_lock iter
  long ← (if r == 1 then (load p >>= λ a. followed node_lock 2 a.next) else pure false)
  if long then exchange p else pure tt
  pure p

-- the lines at the end of the list in the shared text
abbrev shared_end : Operation → Ptr → Cmd State Ptr
shared_end op iter = do
  l ← get_list
  lock_read node_lock l.first
  m ← get_list
  set_list (add_one op)
  unlock_node node_lock m.first
  unlock_node node_lock iter
  pure m.first

end_turn-same :
    (op : Operation) (iter : Ptr) (s : State) → end_turn op iter s ≡ shared_end op iter s
unfolding end_turn lock_read load
end_turn-same op iter s = elim (Bool-cases (s.list.first == null)) [
  | inl nothing ↦ rw (first-add_one op s.list, nothing)
  | inr first ↦ elim (Option-cases (s.heap s.list.first)) [
    | inl freed ↦ rw (first-add_one op s.list, first, freed)
    | inr (n, there) ↦ elim (Option-cases (take n.val.lock.held)) [
      | inl held ↦ rw (first-add_one op s.list, first, there, held)
      | inr (l, free) ↦
          rw (first-add_one op s.list, first, there, free) (rw (first-add_one op s.list))
    ]
  ]
]

-- From any state, a turn of thread_comparision in the spinlock version, which counts the end of the
-- list before it takes the lock of the first node, gives the same result and the same state, or
-- stops in the same way, as a turn of the text that the other versions share, with the spinlock for
-- the lock.
pub compare_turn-same :
    (op : Operation) (iter : Ptr) (s : State)
    → compare_turn op iter s ≡ Threads.compare_turn node_lock op iter s
unfolding compare_turn Threads.compare_turn
compare_turn-same op iter s =
    ap
      (λ (e : Cmd State Ptr).
        (lock_read node_lock iter >>= λ _. load iter >>= λ n. if n.next == null then e else (do
          a ← load iter
          lock_read node_lock a.next
          b ← load iter
          c ← load b.next
          pure (operation_on op b.val c.val)
          d ← load iter
          unlock_node node_lock d.next
          unlock_node node_lock iter
          pure d.next))
          s)
      (fun_ext λ t. end_turn-same op iter t)

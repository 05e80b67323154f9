-- ===== src/List/Mutex.antt =====
-- list.c of task2/2.3/mutex: the list whose nodes have a mutex. The functions are those of
-- List.Store, with the lock that `list_add_last` makes; the threads are those of List.Threads.
pub mod Launch
use osi.Base.{ℕ, ◌≡◌, refl, eq_of_some, Bool, true, false, Option, none, some, List}
use mathlib.Core.Path.{subst}
use osi.Chain.{Ptr}
use osi.Machine.{Cmd}
use osi.List.Store
use osi.List.Threads
use osi.List.Threads.{NodeLock, Operation}

-- `pthread_mutex_t`
pub record Mutex : Type 0 where
  pub held : Bool

unfoldable pub take : Bool → Option Mutex
take true = none
take false = some (record { held = true })

-- To unlock what nobody holds is undefined.
unfoldable pub release : Bool → Option Mutex
release true = some (record { held = false })
release false = none

release-taken :
    (b : Bool) (m : Mutex) → take b ≡ some m → release m.held ≡ some (record { held = b })
unfolding take release
release-taken true m e = cc
release-taken false m e =
    subst (λ (k : Mutex). release k.held ≡ some (record { held = false })) (eq_of_some e) refl

pub release-take : (l m : Mutex) → take l.held ≡ some m → release m.held ≡ some l
release-take l m e = release-taken l.held m e

-- One lock for reading and writing
abbrev pub node_lock : NodeLock Mutex
node_lock = record {
  rdlock = λ l. take l.held;
  wrlock = λ l. take l.held;
  unlock = λ l. release l.held;
  unlock-rdlock = release-take;
  unlock-wrlock = release-take;
}

-- `lnode_t` without `next`
abbrev pub LockedItem : Type 0
LockedItem = Store.Item Mutex

-- The nodes and the `list_t`
abbrev pub State : Type 0
State = Store.State Mutex

unfoldable pub list_init : (allocated : ℕ) (err max_count : ℕ) → Cmd State (Unit {0})
unfolding Store.list_init
list_init = Store.list_init

unfoldable pub list_get : (val : ℕ) → Cmd State (ℕ × ℕ)
unfolding Store.list_get
list_get = Store.list_get

unfoldable pub list_destroy : (fuel : ℕ) → Cmd State (Unit {0})
unfolding Store.list_destroy
list_destroy = Store.list_destroy

unfoldable pub list_add_last : (fresh junk : ℕ) (str : List ℕ) → Cmd State ℕ
unfolding Store.list_add_last
list_add_last = Store.list_add_last (record { held = false })

unfoldable pub swap_nodes : (first second parent : Ptr) → Cmd State (Unit {0})
unfolding Store.swap_nodes
swap_nodes = Store.swap_nodes

unfoldable pub list_get_first : (val : ℕ) → Cmd State (ℕ × ℕ)
unfolding Store.list_get_first
list_get_first = Store.list_get_first

-- The bodies of the loops of the threads in list-threads.c
unfoldable pub compare_turn : Operation → Ptr → Cmd State Ptr
unfolding Threads.compare_turn
compare_turn = Threads.compare_turn node_lock

unfoldable pub swap_turn : (r : ℕ) → Ptr → Cmd State Ptr
unfolding Threads.swap_turn
swap_turn = Threads.swap_turn node_lock

unfoldable pub list_print_stats : Cmd State Store.Stats
unfolding Store.list_print_stats
list_print_stats = Store.list_print_stats

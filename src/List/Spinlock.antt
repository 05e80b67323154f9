-- ===== src/List/Spinlock.antt =====
-- list.c of task2/2.3/spinlock: the list whose nodes have a spinlock. The functions are those of
-- List.Store, and `list_add_last` makes the new node's lock.
pub mod Launch
pub mod Threads
use osi.Base.{ℕ, Bool, false, List}
use osi.Chain.{Ptr}
use osi.Machine.{Cmd}
use osi.List.Store

-- `pthread_spinlock_t`
pub record Spinlock : Type 0 where
  pub held : Bool

-- `lnode_t` without `next`
abbrev pub LockedItem : Type 0
LockedItem = Store.Item Spinlock

-- The nodes and the `list_t`
abbrev pub State : Type 0
State = Store.State Spinlock

unfoldable pub list_init : (allocated : ℕ) (err max_count : ℕ) → Cmd State (Unit {0})
unfolding Store.list_init
list_init = Store.list_init

unfoldable pub list_get : (val : ℕ) → Cmd State (ℕ × ℕ)
unfolding Store.list_get
list_get = Store.list_get

unfoldable pub list_destroy : (fuel : ℕ) → Cmd State (Unit {0})
unfolding Store.list_destroy
list_destroy = Store.list_destroy

unfoldable pub list_add_last : (fresh junk : ℕ) (str : List ℕ) → Cmd State ℕ
unfolding Store.list_add_last
list_add_last = Store.list_add_last (record { held = false })

unfoldable pub swap_nodes : (first second parent : Ptr) → Cmd State (Unit {0})
unfolding Store.swap_nodes
swap_nodes = Store.swap_nodes

unfoldable pub list_get_first : (val : ℕ) → Cmd State (ℕ × ℕ)
unfolding Store.list_get_first
list_get_first = Store.list_get_first

unfoldable pub list_print_stats : Cmd State Store.Stats
unfolding Store.list_print_stats
list_print_stats = Store.list_print_stats

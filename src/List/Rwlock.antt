-- ===== src/List/Rwlock.antt =====
-- list.c of task2/2.3/rwlock: the list whose nodes have a read-write lock. The functions are those of
-- List.Store, with the lock that `list_add_last` makes; the threads are those of List.Threads.
pub mod Launch
use osi.Base.{ℕ, zero, suc, ◌≡◌, refl, Option, none, some, eq_of_some, List}
use mathlib.Core.Path.{subst}
use osi.Chain.{Ptr}
use osi.Machine.{Cmd}
use osi.List.Store
use osi.List.Threads
use osi.List.Threads.{NodeLock, Operation}

-- `pthread_rwlock_t`: how many hold it to read, or the one that holds it to write
pub data Rwlock : Type 0 where
  readers : ℕ → Rwlock
  writer : Rwlock

unfoldable pub read_lock : Rwlock → Option Rwlock
read_lock (readers n) = some (readers (suc n))
read_lock writer = none

unfoldable pub write_lock : Rwlock → Option Rwlock
write_lock (readers zero) = some writer
write_lock (readers (suc n)) = none
write_lock writer = none

-- To unlock what nobody holds is undefined.
unfoldable pub release : Rwlock → Option Rwlock
release (readers zero) = none
release (readers (suc n)) = some (readers n)
release writer = some (readers zero)

pub release-read_lock : (l m : Rwlock) → read_lock l ≡ some m → release m ≡ some l
unfolding read_lock release
release-read_lock (readers n) m e = subst (λ k. release k ≡ some (readers n)) (eq_of_some e) refl
release-read_lock writer m e = cc

pub release-write_lock : (l m : Rwlock) → write_lock l ≡ some m → release m ≡ some l
unfolding write_lock release
release-write_lock (readers zero) m e =
    subst (λ k. release k ≡ some (readers zero)) (eq_of_some e) refl
release-write_lock (readers (suc n)) m e = cc
release-write_lock writer m e = cc

abbrev pub node_lock : NodeLock Rwlock
node_lock = record {
  rdlock = read_lock;
  wrlock = write_lock;
  unlock = release;
  unlock-rdlock = release-read_lock;
  unlock-wrlock = release-write_lock;
}

-- `lnode_t` without `next`
abbrev pub LockedItem : Type 0
LockedItem = Store.Item Rwlock

-- The nodes and the `list_t`
abbrev pub State : Type 0
State = Store.State Rwlock

unfoldable pub list_init : (allocated : ℕ) (err max_count : ℕ) → Cmd State (Unit {0})
unfolding Store.list_init
list_init = Store.list_init

unfoldable pub list_get : (val : ℕ) → Cmd State (ℕ × ℕ)
unfolding Store.list_get
list_get = Store.list_get

unfoldable pub list_destroy : (fuel : ℕ) → Cmd State (Unit {0})
unfolding Store.list_destroy
list_destroy = Store.list_destroy

unfoldable pub list_add_last : (fresh junk : ℕ) (str : List ℕ) → Cmd State ℕ
unfolding Store.list_add_last
list_add_last = Store.list_add_last (readers 0)

unfoldable pub swap_nodes : (first second parent : Ptr) → Cmd State (Unit {0})
unfolding Store.swap_nodes
swap_nodes = Store.swap_nodes

unfoldable pub list_get_first : (val : ℕ) → Cmd State (ℕ × ℕ)
unfolding Store.list_get_first
list_get_first = Store.list_get_first

-- The bodies of the loops of the threads in list-threads.c
unfoldable pub compare_turn : Operation → Ptr → Cmd State Ptr
unfolding Threads.compare_turn
compare_turn = Threads.compare_turn node_lock

unfoldable pub swap_turn : (r : ℕ) → Ptr → Cmd State Ptr
unfolding Threads.swap_turn
swap_turn = Threads.swap_turn node_lock

unfoldable pub list_print_stats : Cmd State Store.Stats
unfolding Store.list_print_stats
list_print_stats = Store.list_print_stats

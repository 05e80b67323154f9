-- ===== src/List/Threads.antt =====
-- The threads of list-threads.c in task2/2.3, one turn of their loops at a time: they take the locks
-- of the nodes hand over hand. The interface `NodeLock` is what they need of a lock in a node.
pub mod Turns
pub mod Steps
pub mod Exchange
pub mod Races
use osi.Base.{
  ℕ, zero, suc, ◌≡◌, Bool, true, false, Option, none, some, ◌==◌, if◌then◌else◌, inc_int, length,
  leb, ltb, ◌&&◌, not,
}
use osi.Chain
use osi.Chain.{Ptr, null, node}
use osi.Machine.{Cmd, ok, stop, fault, blocked, pure, ◌>>=◌, ◌>>◌, modify, read}
use osi.List.Store.{Item, Lists, State, load, store, set_list, get_list, swap_nodes}

-- To lock for reading or writing may have to wait; to unlock undoes either, and is undefined where
-- nobody holds the lock.
pub record NodeLock (L : Type 0) : Type 0 where
  pub rdlock : L → Option L
  pub wrlock : L → Option L
  pub unlock : L → Option L
  pub unlock-rdlock : (l m : L) → rdlock l ≡ some m → unlock m ≡ some l
  pub unlock-wrlock : (l m : L) → wrlock l ≡ some m → unlock m ≡ some l

-- the three functions to which `operation` points
pub data Operation : Type 0 where
  is_more is_less is_equal : Operation

module _ {L : Type 0} where
  -- `strlen` of the two strings compared
  unfoldable pub operation_on : Operation → Item L → Item L → Bool
  operation_on is_more a b = ltb (length b.string) (length a.string)
  operation_on is_less a b = ltb (length a.string) (length b.string)
  operation_on is_equal a b = length a.string == length b.string

unfoldable pub add_one : Operation → Lists → Lists
add_one is_more l = record l { count_more = inc_int l.count_more }
add_one is_less l = record l { count_less = inc_int l.count_less }
add_one is_equal l = record l { count_equal = inc_int l.count_equal }

module _ {L : Type 0} (locks : NodeLock L) where
  open locks use {rdlock, wrlock, unlock}

  abbrev with_lock : Chain.Node (Item L) → L → Chain.Node (Item L)
  with_lock n l = node (record n.val { lock = l }) n.next

  abbrev take : Option L → Ptr → Chain.Node (Item L) → Cmd (State L) (Unit {0})
  take none p n = λ _. stop blocked
  take (some l) p n = store p (some (with_lock n l))

  abbrev give_back : Option L → Ptr → Chain.Node (Item L) → Cmd (State L) (Unit {0})
  give_back none p n = λ _. stop fault
  give_back (some l) p n = store p (some (with_lock n l))

  unfoldable pub lock_read : Ptr → Cmd (State L) (Unit {0})
  unfolding load
  lock_read p = load p >>= λ n. take (rdlock n.val.lock) p n

  unfoldable pub lock_write : Ptr → Cmd (State L) (Unit {0})
  unfolding load
  lock_write p = load p >>= λ n. take (wrlock n.val.lock) p n

  unfoldable pub unlock_node : Ptr → Cmd (State L) (Unit {0})
  unfolding load
  unlock_node p = load p >>= λ n. give_back (unlock n.val.lock) p n

  -- the body of the loop of `thread_comparision`, with the new `iter`
  unfoldable pub compare_turn : Operation → Ptr → Cmd (State L) Ptr
  unfolding load lock_read unlock_node operation_on
  compare_turn op iter = do
    lock_read iter
    n ← load iter
    if n.next == null
        then (do
          l ← get_list
          lock_read l.first
          m ← get_list
          set_list (add_one op)
          unlock_node m.first
          unlock_node iter
          pure m.first)
        else (do
          a ← load iter
          lock_read a.next
          b ← load iter
          c ← load b.next
          pure (operation_on op b.val c.val)
          d ← load iter
          unlock_node d.next
          unlock_node iter
          pure d.next)

  -- So many turns of the loop, which has no end.
  unfoldable pub compare_turns : Operation → (turns : ℕ) → Ptr → Cmd (State L) Ptr
  compare_turns op zero iter = pure iter
  compare_turns op (suc n) iter = compare_turn op iter >>= compare_turns op n

  -- `iter && iter->next && iter->next->next && iter->next->next->next`
  unfoldable pub followed : (n : ℕ) → Ptr → Cmd (State L) Bool
  unfolding load
  followed zero p = pure (not (p == null))
  followed (suc n) p = if p == null then pure false else load p >>= λ a. followed n a.next

  -- the exchange that `swap_threads` makes now and then
  unfoldable pub exchange : Ptr → Cmd (State L) (Unit {0})
  unfolding load lock_write unlock_node swap_nodes
  exchange iter = do
    lock_write iter
    a ← load iter
    lock_write a.next
    b ← load iter
    c ← load b.next
    lock_write c.next
    d ← load iter
    e ← load d.next
    swap_nodes d.next e.next iter
    f ← load iter
    g ← load f.next
    unlock_node g.next
    h ← load iter
    unlock_node h.next
    unlock_node iter

  -- the second half of the loop of `swap_threads`, with the new `iter`
  unfoldable pub move_on : Ptr → Cmd (State L) Ptr
  unfolding load lock_read unlock_node
  move_on iter = do
    lock_read iter
    n ← load iter
    if n.next == null
        then (do
          l ← get_list
          lock_read l.first
          m ← get_list
          set_list (λ l. record l { swap_count = inc_int l.swap_count })
          unlock_node m.first
          unlock_node iter
          pure m.first)
        else (do
          a ← load iter
          lock_read a.next
          b ← load iter
          unlock_node b.next
          unlock_node iter
          pure b.next)

  -- the body of the loop of `swap_threads` for the random number `r`, with the new `iter`
  unfoldable pub swap_turn : (r : ℕ) → Ptr → Cmd (State L) Ptr
  swap_turn r iter = do
    long ← (if r == 1 then followed 3 iter else pure false)
    if long then exchange iter else pure tt
    move_on iter

-- ===== src/List/Threads/Steps.antt =====
-- A turn of `thread_comparision` of list-threads.c in task2/2.3, or the second half of one of
-- `swap_threads`, cut where another thread can come between: at each call that takes or gives back the lock of a node.
use osi.Base.{inc_int, ◌≡◌, refl, ◌==◌, if◌then◌else◌}
use osi.Chain.{Ptr, null}
use osi.Machine.{Cmd, pure, and_then_assoc, and_then-if, and_then-if_outcome, ◌>>=◌, ◌>>◌}
use osi.List.Store.{Lists, State, load, set_list, get_list}
use osi.List.Threads.{
  NodeLock, Operation, is_more, is_less, is_equal, operation_on, add_one, lock_read, unlock_node,
  compare_turn, move_on,
}

-- Where a thread stands: before its turn at `iter`, with the lock of `iter`, with the locks of both
-- nodes and the new `iter`, and with the lock of the first of them.
pub data Pc : Type 0 where
  starts : (iter : Ptr) → Pc
  locked : (iter : Ptr) → Pc
  moved : (mutex iter : Ptr) → Pc
  leaves : (mutex iter : Ptr) → Pc

-- To count does not move the first node.
pub first-add_one : (op : Operation) (l : Lists) → (add_one op l).first ≡ l.first
unfolding add_one
first-add_one is_more l = refl
first-add_one is_less l = refl
first-add_one is_equal l = refl

-- What a thread does: thread_comparision with an operation, or swap_threads as long as its random
-- number is not 1
pub data Work : Type 0 where
  compares : Operation → Work
  moves : Work

-- What it counts at the end of the list
unfoldable pub count_end : Work → Lists → Lists
unfolding add_one
count_end (compares op) l = add_one op l
count_end moves l = record l { swap_count = inc_int l.swap_count }

pub first-count_end : (w : Work) (l : Lists) → (count_end w l).first ≡ l.first
unfolding count_end
first-count_end (compares op) l = first-add_one op l
first-count_end moves l = refl

module _ {L : Type 0} (locks : NodeLock L) where
  -- What it does with the two nodes that it has locked
  unfoldable pub compare_nodes : Work → Ptr → Cmd (State L) (Unit {0})
  unfolding load operation_on
  compare_nodes (compares op) iter = do
    b ← load iter
    c ← load b.next
    pure (operation_on op b.val c.val)
    pure tt
  compare_nodes moves iter = pure tt

  -- Behind the lock of `iter`: the lock of the next node, or of the first
  unfoldable pub take_next : Work → Ptr → Cmd (State L) Pc
  unfolding load lock_read count_end compare_nodes
  take_next w iter = do
    n ← load iter
    if n.next == null
        then (do
          l ← get_list
          lock_read locks l.first
          m ← get_list
          set_list (count_end w)
          pure (moved iter m.first))
        else (do
          a ← load iter
          lock_read locks a.next
          compare_nodes w iter
          d ← load iter
          pure (moved iter d.next))

  -- One step of one thread. A lock that is not free stops the thread where it is.
  unfoldable pub advance : Work → Pc → Cmd (State L) Pc
  unfolding take_next unlock_node lock_read
  advance w (starts iter) = do lock_read locks iter; pure (locked iter)
  advance w (locked iter) = take_next w iter
  advance w (moved mutex iter) = do unlock_node locks iter; pure (leaves mutex iter)
  advance w (leaves mutex iter) = do unlock_node locks mutex; pure (starts iter)

  -- Four steps of one thread, with nobody between
  abbrev pub four_steps : Work → Pc → Cmd (State L) Pc
  four_steps w p = advance w p >>= advance w >>= advance w >>= advance w

  -- The turn of the loop that this is
  abbrev pub turn_of : Work → Ptr → Cmd (State L) Ptr
  turn_of (compares op) = compare_turn locks op
  turn_of moves = move_on locks

  -- From any state and with any lock, the four steps of a thread, taken one behind the other, give
  -- the same result and the same state, or stop for the same reason, as a turn of the loop of
  -- thread_comparision, or as the second half of a turn of swap_threads, which is the whole where
  -- the random number is not 1.
  pub four_steps-turn :
      (w : Work) (iter : Ptr) (s : State L)
      → four_steps w (starts iter) s ≡ (turn_of w iter >>= λ p. pure (starts p)) s
  unfolding advance compare_turn move_on count_end compare_nodes
  four_steps-turn (compares op) iter s = simp (and_then_assoc, and_then-if, and_then-if_outcome)
  four_steps-turn moves iter s = simp (and_then_assoc, and_then-if, and_then-if_outcome)

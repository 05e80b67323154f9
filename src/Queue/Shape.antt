-- ===== src/Queue/Shape.antt =====
-- What a well-formed queue of task2/2.2 looks like on the heap.
use osi.Base.{ℕ, ◌≡◌, ◌≤◌, length, int_max}
use osi.Chain
use osi.Chain.{Heap, head_ptr, last_ptr, Linked}
use osi.Queue.Store.{Queue}

abbrev pub Cells : Type 0
Cells = Chain.Cells ℕ

-- The representation invariant: the pointers, the counter and the bound agree with the nodes.
pub record IsQueue (h : Heap ℕ) (q : Queue) (xs : Cells) : Type 0 where
  pub first : q.first ≡ head_ptr xs
  pub last : q.last ≡ last_ptr q.last xs
  pub linked : Linked h xs
  pub count : q.count ≡ length xs
  pub room : length xs ≤ q.max_count
  pub small : q.max_count ≤ int_max

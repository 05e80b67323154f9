-- ===== src/Queue/Sync/Refines.antt =====
-- The calls of task2/2.2/sync/queue.c against the abstract queue.
use osi.Base.{
  ℕ, ◌+◌, ◌≤◌, ◌≡◌, refl, ◌≢◌, ◌∙◌, ap, true, none, inl, inr, List, [], ◌∷◌, arith, ◌==◌,
  Bool-cases, length, int_max,
}
use osi.Chain.{null}
use osi.Machine.{Returns, returns, Returns-and_then, Returns-mono}
use osi.Queue.Store.{State}
use osi.Queue.Spec.{Fifo, empty, add, get, get_from, tried_add, tried_get}
use osi.Queue.Ends.{Represents, enqueue-push, dequeue-left}
use osi.Queue.Calls.{
  answer, assert-passes, assert_nonneg, full_test, has_room, Represents-tried_add,
  Represents-tried_get, Represents-empty, empty_test, is_empty, drained, drain-drained, null_test,
}
use osi.Queue.Sync.{Lock, queue_init, queue_add, queue_get, queue_destroy}

module _ (s : State Lock) (f : Fifo) (r : Represents s.heap s.queue f) where
  -- On a heap that represents a bounded queue, of the version without locks, and if malloc answers
  -- an unused address that is not NULL, queue_add returns, answers 0 or 1 as the abstract add does,
  -- and leaves a heap that represents what add leaves.
  pub sync_add-refines :
      (fresh v : ℕ)
      → fresh ≢ null
      → s.heap fresh ≡ none
      → Returns
          (λ a t. (a ≡ (add v f).0) × Represents t.heap t.queue (add v f).1)
          (queue_add fresh v s)
  unfolding queue_add add
  sync_add-refines fresh v ne unused = elim (Bool-cases (length f.items == f.cap)) [
    | inl full ↦
        rw (assert-passes s.heap s.queue f r, full_test s.heap s.queue f r, full)
          (returns (refl, Represents-tried_add s.heap s.queue f r))
    | inr room ↦
        let r' = Represents-tried_add s.heap s.queue f r in
        rw
          (assert-passes s.heap s.queue f r, full_test s.heap s.queue f r, room, null_test fresh ne)
          (Returns-and_then
            (enqueue-push _ (tried_add f) r' fresh v (has_room s.heap s.queue f r room) ne unused)
            λ _ t (held, after). returns (refl, after))
  ]

  -- `queue_get` where the items are known by their shape
  get_from-refines :
      (val : ℕ) (items : List ℕ)
      → f.items ≡ items
      → Returns
          (λ a t.
            (a ≡ answer val (get_from items f).0) × Represents t.heap t.queue (get_from items f).1)
          (queue_get val s)
  unfolding queue_get
  get_from-refines val [] e =
      rw (assert_nonneg s.heap s.queue f r, empty_test s.heap s.queue f r ∙ ap is_empty e)
        (returns (refl, Represents-tried_get s.heap s.queue f r))
  get_from-refines val (v ∷ rest) e =
      let r' = Represents-tried_get s.heap s.queue f r in
      rw (assert_nonneg s.heap s.queue f r, empty_test s.heap s.queue f r ∙ ap is_empty e)
        (Returns-and_then (dequeue-left _ (tried_get f) r' v rest e)
          λ _ t (same, held, after). rw same (returns (refl, after)))

  -- On a heap that represents a bounded queue, of the version without locks, queue_get returns,
  -- answers the first value or 0 as the abstract get does, and leaves a heap that represents what
  -- get leaves.
  pub sync_get-refines :
      (val : ℕ)
      → Returns
          (λ a t. (a ≡ answer val (get f).0) × Represents t.heap t.queue (get f).1)
          (queue_get val s)
  unfolding get
  sync_get-refines val = get_from-refines val f.items refl

-- On a heap that represents a bounded queue, of the version without locks, the loop of
-- queue_destroy ends within one more test than there are items: every item has been taken out and
-- counted, and first is NULL.
pub sync_destroy-drained :
    (s : State Lock) (f : Fifo)
    → Represents s.heap s.queue f
    → Returns
        (λ _ t. Represents t.heap t.queue (drained f.items f) × (t.queue.first ≡ null))
        (queue_destroy (length f.items + 1) s)
unfolding queue_destroy get
sync_destroy-drained s f r =
    Returns-mono
      (drain-drained (λ _. Unit {0}) queue_get
        (λ s f r _ val.
          Returns-mono (sync_get-refines s f r val) (λ _ t (same, after). (same, after, tt)))
        (length f.items + 1) s f f.items r tt refl (omega arith))
      (λ _ t (after, over, _). (after, over))

-- If malloc and pthread_create succeed and max_count is a non-negative int, queue_init of the sync
-- version leaves a heap that represents the empty queue with that bound.
pub sync_init-empty :
    (s : State Lock) (max_count : ℕ)
    → max_count ≤ int_max
    → Returns (λ _ t. Represents t.heap t.queue (empty max_count)) (queue_init true 0 max_count s)
unfolding queue_init
sync_init-empty s max_count small = returns (Represents-empty s.heap s.queue max_count small)

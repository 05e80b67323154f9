-- ===== src/Queue/Sync/Race.antt =====
-- The two threads of task2/2.2/sync in the middle of their calls: nothing keeps them apart.
use osi.Base.{ℕ, ◌≡◌, refl, ◌≢◌, ◌∙◌, sym, false, none, [], ◌∷◌, arith, ◌==◌, le_int-le, inc_long}
use osi.Chain.{Ptr, null}
use osi.Machine.{stop, fault, Returns, returns}
use osi.Queue.Store.{State, append_last, load}
use osi.Queue.Shape.{IsQueue}
use osi.Queue.Ends.{dequeue-cells}
use osi.Queue.Sync.{Lock, queue_get}

-- The last node has been freed.
append_last-freed :
    (s : State Lock) (new : Ptr) → s.heap s.queue.last ≡ none → append_last new s ≡ stop fault
unfolding append_last load
append_last-freed s new gone = ground arith

-- In the version without locks, at a queue of one node: a writer that tests first sees that it is
-- not NULL; queue_get of the reader then answers the value and frees the node, and the lines of the
-- writer behind its test go through the freed node.
pub sync_get-dangles :
    (s : State Lock) (p v val new : ℕ)
    → IsQueue s.heap s.queue ((p, v) ∷ [])
    → (s.queue.first ≢ null)
      × Returns (λ a t. (a ≡ (1, v)) × (append_last new t ≡ stop fault)) (queue_get val s)
unfolding queue_get
sync_get-dangles s p v val new is =
    let s' : State Lock = record s {
      queue = record s.queue { get_attempts = inc_long s.queue.get_attempts };
    } in
    let is' : IsQueue s'.heap s'.queue ((p, v) ∷ []) = record {
      first = is.first;
      last = is.last;
      linked = is.linked;
      count = is.count;
      room = is.room;
      small = is.small;
    } in
    let one : (s.queue.count == 0) ≡ false = ground (arith, is.count) in
    (
      λ e. is.linked.0 (sym is.first ∙ e),
      rw
          (
            le_int-le 0 s.queue.count (omega arith) (omega (arith, is.count, is.room, is.small)),
            one,
            dequeue-cells s' p v [] is',
          )
          (returns (refl, append_last-freed _ new (ground (arith, is.first, is.last)))),
    )

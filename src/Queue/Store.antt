-- ===== src/Queue/Store.antt =====
-- The shared part of the five versions of `queue_t` in task2/2.2: the nodes on the heap, the record
-- of the queue, and the commands that read and write them. `L` is the type of the version's lock.
use osi.Base.{ℕ, Option, none, some, ◌==◌, if◌then◌else◌, inc_int, dec_int, inc_long}
use osi.Chain
use osi.Chain.{Ptr, null, write}
use osi.Machine.{fault, ok, stop, Cmd, pure, ◌>>=◌, ◌>>◌, modify, read}

-- `qnode_t`
abbrev pub Node : Type 0
Node = Chain.Node ℕ

abbrev pub Heap : Type 0
Heap = Chain.Heap ℕ

-- `queue_t` without the lock and the monitor's thread id
pub record Queue : Type 0 where
  pub first : Ptr
  pub last : Ptr
  pub count : ℕ
  pub max_count : ℕ
  pub add_attempts : ℕ
  pub get_attempts : ℕ
  pub add_count : ℕ
  pub get_count : ℕ

pub record State (L : Type 0) : Type 0 where
  pub heap : Heap
  pub queue : Queue
  pub lock : L

module _ {L : Type 0} where
  abbrev pub set_queue : (Queue → Queue) → Cmd (State L) (Unit {0})
  set_queue f = modify λ s. record s { queue = f s.queue }

  abbrev pub get_queue : Cmd (State L) Queue
  get_queue = read λ s. s.queue

  -- `*p`, undefined at NULL and where no node is allocated
  unfoldable pub load : Ptr → Cmd (State L) Node
  load p s =
      if p == null then stop fault else elim (s.heap p) [ none ↦ stop fault | some n ↦ ok n s ]

  abbrev pub store : Ptr → Option Node → Cmd (State L) (Unit {0})
  store p c = modify λ s. record s { heap = write s.heap p c }

  -- `p->next = q`
  unfoldable pub set_next : Ptr → Ptr → Cmd (State L) (Unit {0})
  set_next p q = load p >>= λ n. store p (some (record n { next = q }))

  unfoldable pub free : Ptr → Cmd (State L) (Unit {0})
  free p = load p >> store p none

  -- `malloc` of a node, which answered `fresh`, and the two assignments to its fields.
  unfoldable pub new_node : (fresh : Ptr) (val : ℕ) → Cmd (State L) (Unit {0})
  new_node fresh val = store fresh (some (record { val = val; next = null }))

  -- `q->last->next = new; q->last = q->last->next;`
  unfoldable pub append_last : Ptr → Cmd (State L) (Unit {0})
  unfolding load set_next
  append_last new = do
    q ← get_queue
    set_next q.last new
    n ← load q.last
    set_queue (λ q. record q { last = n.next })

  -- `if (!q->first) q->first = q->last = new; else` the two lines above
  unfoldable pub link_last : Ptr → Cmd (State L) (Unit {0})
  unfolding append_last
  link_last new = do
    q ← get_queue
    if q.first == null
        then set_queue (λ q. record q { first = new; last = new })
        else append_last new

  -- `q->count++; q->add_count++;`
  unfoldable pub count_add : Cmd (State L) (Unit {0})
  count_add = do
    set_queue (λ q. record q { count = inc_int q.count })
    set_queue (λ q. record q { add_count = inc_long q.add_count })

  -- `tmp = q->first; *val = tmp->val; q->first = q->first->next; free(tmp);`
  unfoldable pub unlink_first : Cmd (State L) ℕ
  unfolding load free
  unlink_first = do
    q ← get_queue
    n ← load q.first
    m ← load q.first
    set_queue (λ q. record q { first = m.next })
    free q.first
    pure n.val

  -- `q->count--; q->get_count++;`
  unfoldable pub count_get : Cmd (State L) (Unit {0})
  count_get = do
    set_queue (λ q. record q { count = dec_int q.count })
    set_queue (λ q. record q { get_count = inc_long q.get_count })

  -- What all versions of `queue_add` do to the queue once they know that there is room.
  unfoldable pub enqueue : (fresh : Ptr) (val : ℕ) → Cmd (State L) (Unit {0})
  unfolding new_node link_last count_add
  enqueue fresh val = do new_node fresh val; link_last fresh; count_add

  -- What all versions of `queue_get` do once they know that the queue is not empty.
  unfoldable pub dequeue : Cmd (State L) ℕ
  unfolding unlink_first count_get
  dequeue = do v ← unlink_first; count_get; pure v

  abbrev pub attempt_add : Cmd (State L) (Unit {0})
  attempt_add = set_queue λ q. record q { add_attempts = inc_long q.add_attempts }

  abbrev pub attempt_get : Cmd (State L) (Unit {0})
  attempt_get = set_queue λ q. record q { get_attempts = inc_long q.get_attempts }

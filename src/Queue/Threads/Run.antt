-- ===== src/Queue/Threads/Run.antt =====
-- Interleavings of the reader and the writer of queue-threads.c in task2/2.2, call by call.
use osi.Base.{
  ℕ, ◌≡◌, ◌≢◌, ap, sym, Bool, true, false, none, List, [], ◌∷◌, ◌++◌, ◌==◌, ==_self, if◌then◌else◌,
  length, inc_int,
}
use mathlib.Core.Path.{subst}
use osi.Chain.{null}
use osi.Machine.{Cmd, ok, pure, Returns, returns, Returns-and_then, Returns-mono, Returns-ok}
use osi.Queue.Store.{State}
use osi.Queue.Spec.{Fifo, add, get, get_from, push, left, tried_add, tried_get}
use osi.Queue.Ends.{Represents}
use osi.Queue.Calls.{answer, minus_one}
use osi.Queue.Threads.{Reader, received, reader_turn, writer_turn}

-- What the threads need of a version of the queue: its two calls, and when its lock is open.
pub record FifoQueue (L : Type 0) : Type 1 where
  pub Open : L → Type 0
  pub queue_add : (fresh val : ℕ) → Cmd (State L) ℕ
  pub queue_get : (val : ℕ) → Cmd (State L) (ℕ × ℕ)
  pub add-refines :
      (s : State L) (f : Fifo) (fresh v : ℕ)
      → Represents s.heap s.queue f
      → Open s.lock
      → fresh ≢ null
      → s.heap fresh ≡ none
      → Returns
          (λ a t. (a ≡ (add v f).0) × Represents t.heap t.queue (add v f).1 × Open t.lock)
          (queue_add fresh v s)
  pub get-refines :
      (s : State L) (f : Fifo) (val : ℕ)
      → Represents s.heap s.queue f
      → Open s.lock
      → Returns
          (λ a t. (a ≡ answer val (get f).0) × Represents t.heap t.queue (get f).1 × Open t.lock)
          (queue_get val s)

-- The values from `e` on, one after the other, up to the one before `i`.
abbrev pub Consecutive : ℕ → List ℕ → ℕ → Type 0
Consecutive e [] i = e ≡ i
Consecutive e (v ∷ vs) i = (v ≡ e) × Consecutive (inc_int e) vs i

Consecutive-snoc :
    (e : ℕ) (vs : List ℕ) (i : ℕ) → Consecutive e vs i → Consecutive e (vs ++ i ∷ []) (inc_int i)
Consecutive-snoc e [] i c = (sym c, ap inc_int c)
Consecutive-snoc e (v ∷ vs) i (same, c) = (same, Consecutive-snoc (inc_int e) vs i c)

module _ {L : Type 0} (queue : FifoQueue L) where
  open queue use {Open, queue_add, queue_get, add-refines, get-refines}

  pub record System : Type 0 where
    pub state : State L
    pub reader : Reader
    pub i : ℕ

  -- One of the threads makes a turn. `malloc` gives the writer an unused address.
  pub data Step (a b : System) : Type 0 where
    reads : reader_turn queue_get a.reader a.state ≡ ok b.reader b.state → b.i ≡ a.i → Step a b
    writes :
        (fresh : ℕ)
        → fresh ≢ null
        → a.state.heap fresh ≡ none
        → writer_turn queue_add fresh a.i a.state ≡ ok b.i b.state
        → b.reader ≡ a.reader
        → Step a b

  pub data Reach (a : System) : System → Type 0 where
    here : Reach a a
    next : {b c : System} → Reach a b → Step b c → Reach a c

  -- Nothing has been printed, and the queue holds what has been written and not yet read.
  pub record InOrder (a : System) : Type 0 where
    pub fifo : Fifo
    pub represents : Represents a.state.heap a.state.queue fifo
    pub is_open : Open a.state.lock
    pub values : Consecutive a.reader.expected fifo.items a.i
    pub silent : a.reader.errors ≡ []

  -- What a turn of the reader leaves, and one of the writer
  Reads : ℕ → Reader → State L → Type 0
  Reads i r t =
      (g : Fifo) × Represents t.heap t.queue g
      × Open t.lock
      × Consecutive r.expected g.items i
      × (r.errors ≡ [])

  -- behind the answer of `queue_get`
  after_get :
      (r : Reader) (i : ℕ) (f : Fifo) (items : List ℕ)
      → Consecutive r.expected f.items i
      → Consecutive r.expected items i
      → r.errors ≡ []
      → (a : ℕ × ℕ) (t : State L)
      → (a ≡ answer minus_one (get_from items f).0)
        × Represents t.heap t.queue (get_from items f).1
        × Open t.lock
      → Returns (Reads i) ((if a.0 == 0 then pure r else pure (received r a.1)) t)
  unfolding Reads
  after_get r i f [] c _ silent a t (same, rep, o) =
      rw same (returns (tried_get f, rep, o, c, silent))
  after_get r i f (v ∷ rest) _ (same_v, c) silent a t (same, rep, o) = rw same (
      returns (
        left rest (tried_get f),
        rep,
        o,
        subst (λ e. Consecutive (inc_int e) rest i) (sym same_v) c,
        rw (same_v, ==_self r.expected) silent,
      ))

  reader_turn-Reads :
      (s : State L) (r : Reader) (i : ℕ) (f : Fifo)
      → Represents s.heap s.queue f
      → Open s.lock
      → Consecutive r.expected f.items i
      → r.errors ≡ []
      → Returns (Reads i) (reader_turn queue_get r s)
  unfolding reader_turn get
  reader_turn-Reads s r i f rep o c silent =
      Returns-and_then (get-refines s f minus_one rep o) (after_get r i f f.items c c silent)

  abbrev added : Bool → ℕ → Fifo → ℕ × Fifo
  added b v f = if b then (0, tried_add f) else (1, push v (tried_add f))

  -- behind the answer of `queue_add`
  after_add :
      (r : Reader) (i : ℕ) (f : Fifo) (b : Bool)
      → Consecutive r.expected f.items i
      → r.errors ≡ []
      → (a : ℕ) (t : State L)
      → (a ≡ (added b i f).0) × Represents t.heap t.queue (added b i f).1 × Open t.lock
      → Returns (λ j u. Reads j r u) ((if a == 0 then pure i else pure (inc_int i)) t)
  unfolding Reads
  after_add r i f true c silent a t (same, rep, o) =
      rw same (returns (tried_add f, rep, o, c, silent))
  after_add r i f false c silent a t (same, rep, o) =
      rw same
        (returns (push i (tried_add f), rep, o, Consecutive-snoc r.expected f.items i c, silent))

  writer_turn-Reads :
      (s : State L) (r : Reader) (i : ℕ) (f : Fifo) (fresh : ℕ)
      → Represents s.heap s.queue f
      → Open s.lock
      → Consecutive r.expected f.items i
      → r.errors ≡ []
      → fresh ≢ null
      → s.heap fresh ≡ none
      → Returns (λ j t. Reads j r t) (writer_turn queue_add fresh i s)
  unfolding writer_turn add
  writer_turn-Reads s r i f fresh rep o c silent ne unused =
      Returns-and_then (add-refines s f fresh i rep o ne unused)
        (after_add r i f (length f.items == f.cap) c silent)

  Reads-InOrder : (a : System) → Reads a.i a.reader a.state → InOrder a
  unfolding Reads
  Reads-InOrder a (g, rep, o, c, silent) = record {
    fifo = g;
    represents = rep;
    is_open = o;
    values = c;
    silent = silent;
  }

  Step-InOrder : {a b : System} → Step a b → InOrder a → InOrder b
  Step-InOrder {a} {b} (reads e same) q = Reads-InOrder b (
      subst (λ i. Reads i b.reader b.state) (sym same)
        (Returns-ok _
          (reader_turn-Reads a.state a.reader a.i q.fifo q.represents q.is_open q.values q.silent)
          e))
  Step-InOrder {a} {b} (writes fresh ne unused e same) q = Reads-InOrder b (
      subst (λ r. Reads b.i r b.state) (sym same)
        (Returns-ok _
          (writer_turn-Reads a.state a.reader a.i q.fifo fresh q.represents q.is_open q.values
            q.silent ne unused)
          e))

  pub Reach-InOrder : {a b : System} → InOrder a → Reach a b → InOrder b
  Reach-InOrder q here = q
  Reach-InOrder q (next r st) = Step-InOrder st (Reach-InOrder q r)

  -- The state after a turn still holds a queue, with its lock open.
  abbrev pub IsSound : State L → Type 0
  IsSound t = (g : Fifo) × Represents t.heap t.queue g × Open t.lock

  -- For any version whose calls refine the abstract queue and keep the lock open: if the reader has
  -- printed nothing and the queue holds the values from the expected one up to the one before the i
  -- of the writer, then after any interleaving of turns of the reader and the writer the reader has
  -- printed nothing, and a next turn of either, where malloc answers an unused address that is not
  -- NULL, returns and leaves a queue with its lock open.
  pub reader-never_errs :
      (a b : System) (fresh : ℕ)
      → InOrder a
      → Reach a b
      → fresh ≢ null
      → b.state.heap fresh ≡ none
      → (b.reader.errors ≡ [])
        × Returns (λ _ t. IsSound t) (reader_turn queue_get b.reader b.state)
        × Returns (λ _ t. IsSound t) (writer_turn queue_add fresh b.i b.state)
  unfolding Reads
  reader-never_errs a b fresh start r ne unused =
      let q = Reach-InOrder start r in
      (
        q.silent,
        Returns-mono
            (reader_turn-Reads b.state b.reader b.i q.fifo q.represents q.is_open q.values q.silent)
            λ _ t (g, rep, o, _, _). (g, rep, o),
        Returns-mono
            (writer_turn-Reads b.state b.reader b.i q.fifo fresh q.represents q.is_open q.values
              q.silent ne unused)
            λ _ t (g, rep, o, _, _). (g, rep, o),
      )

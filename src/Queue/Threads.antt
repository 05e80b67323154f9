-- ===== src/Queue/Threads.antt =====
-- The reader and the writer of queue-threads.c in task2/2.2, one turn of their loops at a time, over
-- any queue with `queue_add` and `queue_get`.
pub mod Run
pub mod Main
use osi.Base.{ℕ, Option, none, some, List, [], ◌∷◌, ◌++◌, ◌==◌, if◌then◌else◌, inc_int}
use osi.Machine.{Cmd, pure, ◌>>=◌, ◌>>◌}
use osi.Queue.Store.{State}
use osi.Queue.Calls.{minus_one}

-- The local variable of `reader`, and what it has printed: each value that was not the expected one.
pub record Reader : Type 0 where
  pub expected : ℕ
  pub errors : List (ℕ × ℕ)

-- behind a successful `queue_get`
abbrev pub received : Reader → ℕ → Reader
received r val = record {
  expected = inc_int val;
  errors = if r.expected == val then r.errors else r.errors ++ (val, r.expected) ∷ [];
}

module _ {L : Type 0} where
  unfoldable pub reader_turn :
      (queue_get : ℕ → Cmd (State L) (ℕ × ℕ)) → Reader → Cmd (State L) Reader
  reader_turn queue_get r = do
    (ok, val) ← queue_get minus_one
    if ok == 0 then pure r else pure (received r val)

  -- The new value of `i`
  unfoldable pub writer_turn :
      (queue_add : ℕ → ℕ → Cmd (State L) ℕ) → (fresh i : ℕ) → Cmd (State L) ℕ
  writer_turn queue_add fresh i = do
    ok ← queue_add fresh i
    if ok == 0 then pure i else pure (inc_int i)

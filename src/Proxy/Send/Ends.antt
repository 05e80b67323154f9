-- ===== src/Proxy/Send/Ends.antt =====
-- How `send_cached_content` of task3/src/main.c ends: with all of a full entry sent, and in one
-- order of events with less.
use osi.Base.{ℕ, suc, ◌≡◌, true, false, List, ◌++◌, ◌==◌, arith, ==_self, if◌then◌else◌}
use osi.Proxy.Libraries.{Vectors}
use osi.Proxy.Http.{vector_push_str}
use osi.Proxy.Http.Receive.{contents-vector_push_str}
use osi.Proxy.Cache.{Entry}
use osi.Proxy.Slice.{TakesSome}
use osi.Proxy.Send.{Others, Writes, Sent, finished, unlock, wait_content, send_loop, after_wait}

module _ (vectors : Vectors) where
  open vectors use {contents, vector_size, size-contents}

  -- The other threads do `change` at the moment `at`, and nothing else.
  abbrev pub once : (at : ℕ) → (Entry vectors → Entry vectors) → Others vectors
  once at change k e = if k == at then change e else e

  -- The last of the answer arrives, and the entry is marked as full.
  abbrev pub fill : List ℕ → Entry vectors → Entry vectors
  fill more e = record e {
    content = vector_push_str vectors e.content more;
    is_full_content = true;
  }

  never_now : (k : ℕ) → (k == suc k) ≡ false
  never_now k = ground arith

  never_after : (k : ℕ) → (suc k == k) ≡ false
  never_after k = ground arith

  -- If the last bytes of an answer arrive and the entry is marked as full between the line of the
  -- loop that reads the size and the one that takes the mutex, a client that has sent all bytes up
  -- to then leaves the loop: the last bytes are in the entry and never sent.
  pub send_loop-truncates :
      (writes : Writes vectors) (fuel k : ℕ) (e : Entry vectors) (sent more : List ℕ)
      → send_loop vectors
            (once (suc k) (fill more))
            writes
            (suc fuel)
            k
            (vector_size e.content)
            e
            sent
          ≡ finished (suc (suc (suc k))) (unlock vectors (fill more e)) sent
        × (contents (fill more e).content ≡ contents e.content ++ more)
  unfolding send_loop wait_content after_wait
  send_loop-truncates writes fuel k e sent more = (
    rw (never_now k, ==_self (suc k), ==_self (vector_size e.content))
        (rw (==_self (vector_size e.content), never_after (suc k))),
    contents-vector_push_str vectors e.content more,
  )

  -- Nothing is done by other threads.
  abbrev pub alone : Others vectors
  alone k e = e

  module _ (writes : Writes vectors) (takes : TakesSome writes) where
    -- The loop ends at some moment with the whole content sent.
    abbrev Delivers : Entry vectors → Sent vectors → Type 0
    Delivers e r = (last : ℕ) × (r ≡ finished last (unlock vectors e) (contents e.content))

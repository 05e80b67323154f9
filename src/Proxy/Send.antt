-- ===== src/Proxy/Send.antt =====
-- `send_cached_content` of task3/src/main.c: the thread of a client sends what the entry holds, and
-- waits for more. Other threads change the entry while this one does not hold what protects it.
pub mod Prefix
pub mod Ends
use osi.Base.{
  ℕ, zero, suc, ◌+◌, ◌-◌, ◌≡◌, Bool, true, false, Option, none, some, List, [], ◌∷◌, ◌++◌, ◌==◌,
  ◌&&◌, not, if◌then◌else◌,
}
use osi.Proxy.Libraries.{Vectors}
use osi.Proxy.Slice.{slice}
use osi.Proxy.Cache.{Entry, inc_ref, dec_ref}

module _ (vectors : Vectors) where
  open vectors use {contents, vector_size}

  -- `others k` is what the other threads do to the entry at the `k`-th moment at which they can.
  abbrev pub Others : Type 0
  Others = ℕ → Entry vectors → Entry vectors

  -- What `write` answers for so many bytes: how many it has taken, or none for -1
  abbrev pub Writes : Type 0
  Writes = ℕ → (wanted : ℕ) → Option ℕ

  -- How the function goes, with the entry at that moment and the bytes that the client has got: the
  -- loop has ended before the moment `k`, the function has returned from its beginning or its
  -- middle, the fuel is used up; or it has returned at its end and left the entry, or has taken the
  -- pair out of the table and freed the entry, which was as here when the mutex was given back.
  pub data Sent : Type 0 where
    finished : (k : ℕ) → Entry vectors → List ℕ → Sent
    left_early : Entry vectors → List ℕ → Sent
    sending : Entry vectors → List ℕ → Sent
    returned : Entry vectors → List ℕ → Sent
    destroyed : Entry vectors → List ℕ → Sent

  -- How the inner loop ends: with `to_write`, with the return, or not within the fuel.
  pub data Waited : Type 0 where
    woken : (to_write k : ℕ) → Entry vectors → Waited
    gave_up : Entry vectors → Waited
    asleep : Entry vectors → Waited

  abbrev pub lock : Entry vectors → Entry vectors
  lock e = record e { mutex = true }

  abbrev pub unlock : Entry vectors → Entry vectors
  unlock e = record e { mutex = false }

  -- The inner loop: `pthread_cond_wait` gives the mutex up and has it again behind the wait.
  unfoldable pub wait_content :
      Others → (fuel k written_counter to_write : ℕ) → Entry vectors → Waited
  wait_content others zero k written_counter to_write e = asleep e
  wait_content others (suc fuel) k written_counter to_write e =
      let e' = lock (others k (unlock e)) in
      let rest = wait_content others fuel (suc k) written_counter (vector_size e'.content) e' in
      if (written_counter == to_write) && not e.is_full_content
      then (if e'.is_corresponds_to_cache_size then rest else gave_up e')
      else woken to_write k e

  -- The loop again, from a moment, with what has been written and sent
  abbrev pub Loop : Type 0
  Loop = (k written_counter : ℕ) → Entry vectors → List ℕ → Sent

  -- Behind the `write`
  unfoldable pub after_write :
      Loop → (k written_counter : ℕ) → Entry vectors → List ℕ → (written : Option ℕ) → Sent
  after_write loop k written_counter e sent none = finished k e sent
  after_write loop k written_counter e sent (some zero) = finished k e sent
  after_write loop k written_counter e sent (some (suc n)) =
      loop k (written_counter + suc n) e
        (sent ++ slice written_counter (suc n) (contents e.content))

  -- Behind the inner loop. Other threads come behind the mutex, and before the write.
  unfoldable pub after_wait :
      Loop → Others → Writes → (written_counter : ℕ) → List ℕ → Waited → Sent
  unfolding after_write
  after_wait loop others writes written_counter sent (asleep e) = sending e sent
  after_wait loop others writes written_counter sent (gave_up e) = left_early e sent
  after_wait loop others writes written_counter sent (woken to_write k e) =
      let tested = others k (unlock e) in
      if (written_counter == to_write) && tested.is_full_content
      then finished (suc k) tested sent
      else after_write loop (suc (suc k)) written_counter (others (suc k) tested) sent
          (writes k (to_write - written_counter))

  -- The outer loop. Other threads come before the size is read, and between that and the mutex.
  unfoldable pub send_loop :
      Others → Writes → (fuel k written_counter : ℕ) → Entry vectors → List ℕ → Sent
  unfolding wait_content after_wait
  send_loop others writes zero k written_counter e sent = sending e sent
  send_loop others writes (suc fuel) k written_counter e sent =
      let sized = others k e in
      let to_write = vector_size sized.content in
      let locked = lock (others (suc k) sized) in
      after_wait (send_loop others writes fuel) others writes written_counter sent
        (wait_content others (suc fuel) (suc (suc k)) written_counter to_write locked)

  -- The reference given back, with the mutex held: whether it was the last one decides whether the
  -- entry is freed.
  abbrev pub given_back : Entry vectors → Entry vectors
  given_back e = record e { ref_counter = dec_ref e.ref_counter; mutex = false }

  -- The lines behind the loop. Other threads come before the mutex. The table, from which the pair of
  -- a destroyed entry is taken, is in the state of Proxy.References.
  unfoldable pub give_back : Others → Sent → Sent
  give_back others (finished k e sent) =
      let e' = given_back (others k e) in
      if e'.ref_counter == 0 then destroyed e' sent else returned e' sent
  give_back others r = r

  unfoldable pub send_cached_content : Others → Writes → (fuel : ℕ) → Entry vectors → Sent
  unfolding send_loop give_back
  send_cached_content others writes fuel e =
      if e.is_corresponds_to_cache_size
      then give_back others
          (send_loop others writes fuel 0 0 (record e { ref_counter = inc_ref e.ref_counter }) [])
      else left_early e []

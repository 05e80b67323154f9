-- ===== src/Proxy/References.antt =====
-- How the threads of task3 count the references to an entry: the garbage collector of
-- task3/src/garbage_collector.c, and the beginnings and ends of the handlers of task3/src/main.c.
-- Each command is what one thread does to an entry while it holds its mutex, but `collect` and
-- `release`, which destroy the pair when they have given the mutex back. The lock of the table,
-- which `release` does not take, is not in the state.
pub mod Rules
pub mod Steps
pub mod Moves
pub mod Races
pub mod Hazards
use osi.Base.{ℕ, zero, suc, ◌≡◌, Bool, true, false, Option, none, some, ◌==◌, if◌then◌else◌}
use osi.Machine.{Cmd, ok, stop, no_fuel, pure, ◌>>=◌, ◌>>◌, modify}
use osi.Proxy.Libraries.{Vectors, HashMaps}
use osi.Proxy.Cache.{
  Ptr, Entry, Pair, key, Proxy, inc_ref, dec_ref, load, store, update, mutex_lock, mutex_unlock,
  destroy_pair, write,
}

module _ (vectors : Vectors) (maps : HashMaps (Pair vectors) (key vectors)) where
  open maps use {hashmap_delete}

  -- `hashmap_delete(cache->cache, pair)`
  unfoldable pub delete : Pair vectors → Cmd (Proxy vectors maps) (Unit {0})
  delete pair = modify λ s. record s { table = hashmap_delete s.table (key vectors pair) }

  -- `pthread_mutex_unlock(&pair->entry->mutex)`, and whether `destroy_pair` comes next
  unfoldable pub unlocked : (due : Bool) → Pair vectors → Cmd (Proxy vectors maps) Bool
  unfolding mutex_unlock
  unlocked due pair = do mutex_unlock vectors maps pair.entry; pure due

  -- `destroy_pair` where it is due: the mutex has been given back before.
  unfoldable pub destroy_if : (due : Bool) → Pair vectors → Cmd (Proxy vectors maps) (Unit {0})
  unfolding destroy_pair
  destroy_if due pair = if due then destroy_pair vectors maps pair else pure tt

  -- the body of the loop of `iterate_over_map` up to its unlock
  unfoldable pub collect_locked : Pair vectors → Cmd (Proxy vectors maps) Bool
  unfolding load update mutex_lock unlocked
  collect_locked pair = do
    mutex_lock vectors maps pair.entry
    e ← load vectors maps pair.entry
    if e.is_released_by_gb then unlocked false pair else do
      update vectors maps pair.entry (λ e. record e { ref_counter = dec_ref e.ref_counter })
      update vectors maps pair.entry (λ e. record e { is_released_by_gb = true })
      e ← load vectors maps pair.entry
      if e.ref_counter == 0 then (do delete pair; unlocked true pair) else unlocked false pair

  -- the body of the loop of `iterate_over_map`
  unfoldable pub collect : Pair vectors → Cmd (Proxy vectors maps) (Unit {0})
  unfolding collect_locked destroy_if
  collect pair = do due ← collect_locked pair; destroy_if due pair

  -- `hashmap_iter` gives the items of the table from an index on, as long as there are any.
  unfoldable pub iterate_over_map :
      (iter : ℕ → Proxy vectors maps → Option (Pair vectors × ℕ)) (fuel i : ℕ)
      → Cmd (Proxy vectors maps) (Unit {0})
  unfolding collect
  iterate_over_map iter zero i = λ _. stop no_fuel
  iterate_over_map iter (suc fuel) i = λ s. elim (iter i s) [
    | none ↦ ok tt s
    | some (pair, j) ↦ (collect pair >> iterate_over_map iter fuel j) s
  ]

  -- the first lines of `server_handler` and of `send_cached_content`
  unfoldable pub acquire : Pair vectors → Cmd (Proxy vectors maps) (Unit {0})
  unfolding update mutex_lock mutex_unlock
  acquire pair = do
    mutex_lock vectors maps pair.entry
    update vectors maps pair.entry (λ e. record e { ref_counter = inc_ref e.ref_counter })
    mutex_unlock vectors maps pair.entry

  -- the last lines of `send_cached_content` up to their unlock
  unfoldable pub release_locked : Pair vectors → Cmd (Proxy vectors maps) Bool
  unfolding load update mutex_lock unlocked
  release_locked pair = do
    mutex_lock vectors maps pair.entry
    update vectors maps pair.entry (λ e. record e { ref_counter = dec_ref e.ref_counter })
    e ← load vectors maps pair.entry
    if e.ref_counter == 0 then (do delete pair; unlocked true pair) else unlocked false pair

  -- the last lines of `send_cached_content`
  unfoldable pub release : Pair vectors → Cmd (Proxy vectors maps) (Unit {0})
  unfolding release_locked destroy_if
  release pair = do due ← release_locked pair; destroy_if due pair

  -- the lines of `server_handler` behind a `read` that has failed or met the end of the stream
  unfoldable pub server_gives_up : Pair vectors → Cmd (Proxy vectors maps) (Unit {0})
  unfolding update mutex_lock mutex_unlock
  server_gives_up pair = do
    mutex_lock vectors maps pair.entry
    update vectors maps pair.entry (λ e. record e { ref_counter = dec_ref e.ref_counter })
    mutex_unlock vectors maps pair.entry

  -- the last lines of `server_handler`
  unfoldable pub server_release : Pair vectors → Cmd (Proxy vectors maps) (Unit {0})
  unfolding update mutex_lock mutex_unlock
  server_release pair = do
    mutex_lock vectors maps pair.entry
    update vectors maps pair.entry (λ e. record e { is_full_content = true })
    update vectors maps pair.entry (λ e. record e { ref_counter = dec_ref e.ref_counter })
    mutex_unlock vectors maps pair.entry

-- ===== src/Proxy/References/Rules.antt =====
-- What each command of the threads of task3 does to the entry that it works on: the state behind
-- it, on every branch.
use osi.Base.{◌≡◌, refl, true, false, Option, none, some, ◌==◌, Bool-cases, inl, inr, if◌then◌else◌}
use osi.Machine.{ok}
use osi.Proxy.Libraries.{Vectors, HashMaps}
use osi.Proxy.Cache.{Entry, Pair, key, Proxy, inc_ref, dec_ref}
use osi.Proxy.Cache.Memory.{put, load-put, update-put, unlock-put, lock_lem, destroy-put}
use osi.Proxy.References.{
  delete, collect, collect_locked, acquire, release_locked, server_release, server_gives_up,
  unlocked, destroy_if,
}

module _ (vectors : Vectors) (maps : HashMaps (Pair vectors) (key vectors)) where
  open maps use {hashmap_delete}

  -- the state without the pair in the table and without its entry
  abbrev pub without : Pair vectors → Proxy vectors maps → Proxy vectors maps
  without pair s =
      put vectors maps pair.entry none
        (record s { table = hashmap_delete s.table (key vectors pair) })

  delete-put :
      (s : Proxy vectors maps) (pair : Pair vectors) (c : Option (Entry vectors))
      → delete vectors maps pair (put vectors maps pair.entry c s)
        ≡ ok tt (
            put vectors maps pair.entry c
              (record s { table = hashmap_delete s.table (key vectors pair) }))
  unfolding delete put
  delete-put s pair c = refl

  module _ (s : Proxy vectors maps) (pair : Pair vectors) (e : Entry vectors)
      (there : s.entries pair.entry ≡ some e) (free : e.mutex ≡ false) where
    abbrev into : Entry vectors → Proxy vectors maps
    into c = put vectors maps pair.entry (some c) s

    pub acquire_lem :
        acquire vectors maps pair s
        ≡ ok tt (into (record e { ref_counter = inc_ref e.ref_counter; mutex = false }))
    unfolding acquire
    acquire_lem = rw (
      lock_lem vectors maps s pair.entry e there free,
      update-put vectors maps s pair.entry,
      unlock-put vectors maps s pair.entry,
    )

    -- The pair has left the table, and the entry is as given.
    abbrev pub untabled : Entry vectors → Proxy vectors maps
    untabled c =
        put vectors maps pair.entry (some c)
          (record s { table = hashmap_delete s.table (key vectors pair) })

    -- the entry behind the unlock of `release` and of the collector
    abbrev pub left : Entry vectors
    left = record e { ref_counter = dec_ref e.ref_counter; mutex = false }

    abbrev pub marked : Entry vectors
    marked = record e {
      ref_counter = dec_ref e.ref_counter;
      is_released_by_gb = true;
      mutex = false;
    }

    pub collect_locked_lem : collect_locked vectors maps pair s ≡ (
        if e.is_released_by_gb
        then ok false (into (record e { mutex = false }))
        else (if dec_ref e.ref_counter == 0
            then ok true (untabled marked)
            else ok false (into marked)))
    unfolding collect_locked unlocked
    collect_locked_lem = elim (Bool-cases e.is_released_by_gb) [
      | inl old ↦ rw (
        lock_lem vectors maps s pair.entry e there free,
        load-put vectors maps s pair.entry,
        old,
        unlock-put vectors maps s pair.entry,
      )
      | inr new ↦ elim (Bool-cases (dec_ref e.ref_counter == 0)) [
        | inl last ↦ rw (
          lock_lem vectors maps s pair.entry e there free,
          load-put vectors maps s pair.entry,
          new,
          update-put vectors maps s pair.entry,
          update-put vectors maps s pair.entry,
          load-put vectors maps s pair.entry,
          last,
          delete-put s pair,
          unlock-put vectors maps _ pair.entry,
        )
        | inr more ↦ rw (
          lock_lem vectors maps s pair.entry e there free,
          load-put vectors maps s pair.entry,
          new,
          update-put vectors maps s pair.entry,
          update-put vectors maps s pair.entry,
          load-put vectors maps s pair.entry,
          more,
          unlock-put vectors maps s pair.entry,
        )
      ]
    ]

    -- If the entry is there and its mutex is free, the collector changes nothing where it has been
    -- before; else it marks the entry and takes one reference back, and if that was the last, the
    -- pair leaves the table and the entry is freed.
    pub collect_lem :
        collect vectors maps pair s
        ≡ ok tt (
            if e.is_released_by_gb
            then into (record e { mutex = false })
            else (if dec_ref e.ref_counter == 0 then without pair s else into marked))
    unfolding collect destroy_if
    collect_lem = elim (Bool-cases e.is_released_by_gb) [
      | inl old ↦ rw (collect_locked_lem, old)
      | inr new ↦ elim (Bool-cases (dec_ref e.ref_counter == 0)) [
        | inl last ↦ rw (collect_locked_lem, new, last) (destroy-put vectors maps _ pair _)
        | inr more ↦ rw (collect_locked_lem, new, more)
      ]
    ]

    pub release_locked_lem :
        release_locked vectors maps pair s
        ≡ (if dec_ref e.ref_counter == 0 then ok true (untabled left) else ok false (into left))
    unfolding release_locked unlocked
    release_locked_lem = elim (Bool-cases (dec_ref e.ref_counter == 0)) [
      | inl last ↦ rw (
        lock_lem vectors maps s pair.entry e there free,
        update-put vectors maps s pair.entry,
        load-put vectors maps s pair.entry,
        last,
        delete-put s pair,
        unlock-put vectors maps _ pair.entry,
      )
      | inr more ↦ rw (
        lock_lem vectors maps s pair.entry e there free,
        update-put vectors maps s pair.entry,
        load-put vectors maps s pair.entry,
        more,
        unlock-put vectors maps s pair.entry,
      )
    ]

    pub server_gives_up_lem : server_gives_up vectors maps pair s ≡ ok tt (into left)
    unfolding server_gives_up
    server_gives_up_lem = rw (
      lock_lem vectors maps s pair.entry e there free,
      update-put vectors maps s pair.entry,
      unlock-put vectors maps s pair.entry,
    )

    pub server_release_lem :
        server_release vectors maps pair s
        ≡ ok tt (
            into (record e {
              is_full_content = true;
              ref_counter = dec_ref e.ref_counter;
              mutex = false;
            }))
    unfolding server_release
    server_release_lem = rw (
      lock_lem vectors maps s pair.entry e there free,
      update-put vectors maps s pair.entry,
      update-put vectors maps s pair.entry,
      unlock-put vectors maps s pair.entry,
    )

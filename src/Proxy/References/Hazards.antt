-- ===== src/Proxy/References/Hazards.antt =====
-- Two runs of the threads of task3 in which the counting of the references does not help: a client
-- that has found an entry and not yet counted itself, and a fetching thread that is the last user.
use osi.Base.{ℕ, ◌≡◌, refl, ◌∙◌, ap, true, false, some, ◌==◌, arith}
use osi.Machine.{ok, stop, fault, ◌>>◌}
use osi.Proxy.Libraries.{Vectors, HashMaps}
use osi.Proxy.Cache.{
  Ptr, Entry, Pair, key, Proxy, dec_ref, hashmap_get_or_set, create_vector_handler_from_str,
}
use osi.Proxy.Cache.Memory.{put, put-put, entries-put, dec_ref-pred}
use osi.Proxy.References.{collect, acquire, server_release}
use osi.Proxy.References.Rules.{without, collect_lem, server_release_lem}
use osi.Proxy.References.Races.{acquire-freed}

module _ (vectors : Vectors) (maps : HashMaps (Pair vectors) (key vectors)) where
  -- If the table finds the pair for a URL and only the cache holds a reference to its entry, then
  -- hashmap_get_or_set hands the pair out without counting it, and the collector followed by the
  -- first lines of send_cached_content locks the mutex of a freed entry.
  pub lookup-collect-acquire :
      (s : Proxy vectors maps) (fresh : Ptr) (url : vectors.Vec) (pair : Pair vectors)
      (e : Entry vectors)
      → maps.hashmap_get s.table (create_vector_handler_from_str vectors url) ≡ some pair
      → s.entries pair.entry ≡ some e
      → e.mutex ≡ false
      → e.is_released_by_gb ≡ false
      → e.ref_counter ≡ 1
      → (hashmap_get_or_set vectors maps fresh url s ≡ ok (some pair) s)
        × ((collect vectors maps pair >> acquire vectors maps pair) s ≡ stop fault)
  unfolding hashmap_get_or_set
  lookup-collect-acquire s fresh url pair e found there free new one = (
    rw found,
    rw (collect_lem vectors maps s pair e there free, new, one_left)
        (acquire-freed vectors maps (without vectors maps pair s) pair
          (entries-put vectors maps _ _ _)),
  )
    where
      one_left : (dec_ref e.ref_counter == 0) ≡ true
      one_left = ground (arith, ap dec_ref one, dec_ref-pred 0 (omega arith))

  -- If the collector has taken the reference of the cache back and the fetching thread holds the
  -- last one, the end of server_handler leaves the entry with the counter 0 and the pair in the
  -- table, and the collector then changes nothing.
  pub server_release-leak :
      (s : Proxy vectors maps) (pair : Pair vectors) (e : Entry vectors)
      → s.entries pair.entry ≡ some e
      → e.mutex ≡ false
      → e.is_released_by_gb ≡ true
      → e.ref_counter ≡ 1
      → (t : Proxy vectors maps) × (server_release vectors maps pair s ≡ ok tt t)
        × (t.entries pair.entry
            ≡ some (record e { is_full_content = true; ref_counter = 0; mutex = false }))
        × (t.table ≡ s.table)
        × (collect vectors maps pair t ≡ ok tt t)
  unfolding put
  server_release-leak s pair e there free old one =
      let last = record e {
        is_full_content = true;
        ref_counter = dec_ref e.ref_counter;
        mutex = false;
      } in
      (
        put vectors maps pair.entry (some last) s,
        server_release_lem vectors maps s pair e there free,
        entries-put vectors maps pair.entry (some last) s
            ∙ ap
                (λ (n : ℕ).
                  some (record e { is_full_content = true; ref_counter = n; mutex = false }))
                (ap dec_ref one ∙ dec_ref-pred 0 (omega arith)),
        refl,
        collect_lem vectors maps (put vectors maps pair.entry (some last) s) pair last
              (entries-put vectors maps pair.entry (some last) s) refl
            ∙ rw old (ap (ok tt) (put-put vectors maps pair.entry _ _ s)),
      )

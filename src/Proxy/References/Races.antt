-- ===== src/Proxy/References/Races.antt =====
-- Interleavings of the threads of task3 that use one entry: whether an entry in use is there.
use osi.Base.{◌+◌, ◌≡◌, refl, ◌∙◌, ap, sym, true, false, none, some, ◌==◌, arith}
use osi.Machine.{ok, Outcome, stop, fault}
use osi.Proxy.Libraries.{Vectors, HashMaps}
use osi.Proxy.Cache.{Entry, Pair, key, Proxy, inc_ref, dec_ref}
use osi.Proxy.Cache.Memory.{put, entries-put, lock-freed, destroy_lem, dec_ref-pred}
use osi.Proxy.References.{collect_locked, acquire}
use osi.Proxy.References.Rules.{left, untabled, acquire_lem, release_locked_lem}
use osi.Proxy.References.Steps.{
  System, users, Step, client_enters, server_enters, client_leaves, server_leaves, server_fails,
  collects, destroys, Reach, here, next, cache_ref, Alive, Doomed, Gone, Inv, alive, doomed, gone,
}
use osi.Proxy.References.Moves.{
  enters, client_leaves-Inv, server_leaves-Inv, server_fails-Inv, collects-Inv, collects-doomed,
  destroys-doomed,
}

module _ (vectors : Vectors) (maps : HashMaps (Pair vectors) (key vectors)) where
  stopped :
      {A : Type 0} {x : A} {t : Proxy vectors maps}
      → ◌≡◌ {A = Outcome (Proxy vectors maps) A} (ok x t) (stop fault)
      → ⊥
  stopped e = cc

  pub acquire-freed :
      (s : Proxy vectors maps) (pair : Pair vectors)
      → s.entries pair.entry ≡ none
      → acquire vectors maps pair s ≡ stop fault
  unfolding acquire
  acquire-freed s pair freed = rw (lock-freed vectors maps s pair.entry freed)

  collect_locked-freed :
      (s : Proxy vectors maps) (pair : Pair vectors)
      → s.entries pair.entry ≡ none
      → collect_locked vectors maps pair s ≡ stop fault
  unfolding collect_locked
  collect_locked-freed s pair freed = rw (lock-freed vectors maps s pair.entry freed)

  module _ {pair : Pair vectors} {a b : System vectors maps} where
    Step-alive :
        (e : Entry vectors)
        → Alive vectors maps pair a e
        → Step vectors maps pair a b
        → Inv vectors maps pair b
    Step-alive e i (client_enters ran few c v d l) =
        enters vectors maps pair a b e i ran few (omega arith) d
    Step-alive e i (server_enters ran few c v d l) =
        enters vectors maps pair a b e i ran few (omega arith) d
    Step-alive e i (client_leaves due ran c v d l) =
        client_leaves-Inv vectors maps pair a b e i due ran (omega arith) d
    Step-alive e i (server_leaves ran c v d l) =
        server_leaves-Inv vectors maps pair a b e i ran (omega arith) d
    Step-alive e i (server_fails ran c v d l) =
        server_fails-Inv vectors maps pair a b e i ran (omega arith) d
    Step-alive e i (collects due ran c v d l) =
        collects-Inv vectors maps pair a b e i due ran (omega arith) d
    Step-alive e i (destroys ran c v d l) = absurd (omega (arith, i.quiet))

    -- A thread that counts itself now is late.
    Step-doomed :
        (e : Entry vectors)
        → Doomed vectors maps pair a e
        → Step vectors maps pair a b
        → b.late ≡ 0
        → Inv vectors maps pair b
    Step-doomed e i (client_enters ran few c v d l) in_time = absurd (omega (arith, i.one))
    Step-doomed e i (server_enters ran few c v d l) in_time = absurd (omega (arith, i.one))
    Step-doomed e i (client_leaves due ran c v d l) in_time = absurd (omega (arith, i.nobody))
    Step-doomed e i (server_leaves ran c v d l) in_time = absurd (omega (arith, i.nobody))
    Step-doomed e i (server_fails ran c v d l) in_time = absurd (omega (arith, i.nobody))
    Step-doomed e i (collects due ran c v d l) in_time =
        collects-doomed vectors maps pair a b e i due ran (omega arith) d
    Step-doomed e i (destroys ran c v d l) in_time =
        destroys-doomed vectors maps pair a b e i ran (omega arith) d

    Step-gone : Gone vectors maps pair a → Step vectors maps pair a b → Inv vectors maps pair b
    Step-gone i (client_enters ran few c v d l) =
        absurd (stopped (sym ran ∙ acquire-freed a.proxy pair i.freed))
    Step-gone i (server_enters ran few c v d l) =
        absurd (stopped (sym ran ∙ acquire-freed a.proxy pair i.freed))
    Step-gone i (client_leaves due ran c v d l) = absurd (omega (arith, i.nobody))
    Step-gone i (server_leaves ran c v d l) = absurd (omega (arith, i.nobody))
    Step-gone i (server_fails ran c v d l) = absurd (omega (arith, i.nobody))
    Step-gone i (collects due ran c v d l) =
        absurd (stopped (sym ran ∙ collect_locked-freed a.proxy pair i.freed))
    Step-gone i (destroys ran c v d l) = absurd (omega (arith, i.none_dying))

    Step-late : Step vectors maps pair a b → b.late ≡ 0 → a.late ≡ 0
    Step-late (client_enters ran few c v d l) in_time = omega arith
    Step-late (server_enters ran few c v d l) in_time = omega arith
    Step-late (client_leaves due ran c v d l) in_time = omega arith
    Step-late (server_leaves ran c v d l) in_time = omega arith
    Step-late (server_fails ran c v d l) in_time = omega arith
    Step-late (collects due ran c v d l) in_time = omega arith
    Step-late (destroys ran c v d l) in_time = omega arith

    pub Step-Inv :
        Step vectors maps pair a b → b.late ≡ 0 → Inv vectors maps pair a → Inv vectors maps pair b
    Step-Inv st in_time (alive e i) = Step-alive e i st
    Step-Inv st in_time (doomed e i) = Step-doomed e i st in_time
    Step-Inv st in_time (gone i) = Step-gone i st

  pub Reach-Inv :
      {pair : Pair vectors} {a b : System vectors maps}
      → Inv vectors maps pair a
      → Reach vectors maps pair a b
      → b.late ≡ 0
      → Inv vectors maps pair b
  Reach-Inv i here in_time = i
  Reach-Inv i (next r st) in_time = Step-Inv st in_time (Reach-Inv i r (Step-late st in_time))

  -- If the collector has taken the reference of the cache back and one client is the last user,
  -- then there is a run in which a client that counts itself between the unlock of that one and its
  -- destroy_pair is left with an entry that has been freed.
  pub late_user-loses_entry :
      (pair : Pair vectors) (a : System vectors maps) (e : Entry vectors)
      → Alive vectors maps pair a e
      → e.is_released_by_gb ≡ true
      → a.clients ≡ 1
      → a.servers ≡ 0
      → (b : System vectors maps) × Reach vectors maps pair a b
        × (users vectors maps b ≡ 1)
        × (b.proxy.entries pair.entry ≡ none)
  late_user-loses_entry pair a e i old one none_fetches =
      let last : (dec_ref e.ref_counter == 0) ≡ true =
        ground (arith, ap dec_ref (i.counted ∙ counts_one), dec_ref-pred 0 (omega arith)) in
      let p1 = untabled vectors maps a.proxy pair e i.there i.free l in
      let there1 = entries-put vectors maps pair.entry (some l) _ in
      let p2 = put vectors maps pair.entry (some l2) p1 in
      let p3 = put vectors maps pair.entry none p2 in
      let s1 : System vectors maps = record a { proxy = p1; clients = 0; dying = 1 } in
      let s2 : System vectors maps = record s1 { proxy = p2; clients = 1; late = a.late + 1 } in
      let s3 : System vectors maps = record s2 { proxy = p3; dying = 0 } in
      let r1 : Reach vectors maps pair a s1 = next here (
        client_leaves true (release_locked_lem vectors maps a.proxy pair e i.there i.free ∙ rw last)
          one refl (omega (arith, i.quiet)) refl) in
      let r2 : Reach vectors maps pair a s2 = next r1 (
        client_enters (acquire_lem vectors maps p1 pair l there1 refl) (omega (arith, none_fetches))
          refl refl refl refl) in
      let r3 : Reach vectors maps pair a s3 = next r2 (
        destroys
          (destroy_lem vectors maps p2 pair l2 (entries-put vectors maps pair.entry (some l2) p1))
          refl refl refl refl) in
      (s3, r3, omega (arith, none_fetches), entries-put vectors maps pair.entry none p2)
    where
      l : Entry vectors
      l = left vectors maps a.proxy pair e i.there i.free

      l2 : Entry vectors
      l2 = record l { ref_counter = inc_ref l.ref_counter; mutex = false }

      counts_one : users vectors maps a + cache_ref vectors maps e ≡ 0 + 1
      counts_one = ground (arith, one, none_fetches, old)

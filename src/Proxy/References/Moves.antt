-- ===== src/Proxy/References/Moves.antt =====
-- What each step of the threads of task3 on one entry keeps of the count of its references.
use osi.Base.{
  ◌+◌, ◌^◌, ◌≡◌, ◌<◌, refl, ◌∙◌, ap, sym, Bool, true, false, none, some, ◌==◌, Bool-cases, inl, inr,
  arith,
}
use osi.Machine.{ok, state_of_ok}
use osi.Proxy.Libraries.{Vectors, HashMaps}
use osi.Proxy.Cache.{Entry, Pair, key, Proxy, inc_ref, dec_ref, destroy_pair}
use osi.Proxy.Cache.Memory.{put, entries-put, destroy_lem, dec_ref-pred, inc_ref-suc}
use osi.Proxy.References.{collect_locked, acquire, release_locked, server_release, server_gives_up}
use osi.Proxy.References.Rules.{
  left, marked, untabled, acquire_lem, collect_locked_lem, release_locked_lem, server_release_lem,
  server_gives_up_lem,
}
use osi.Proxy.References.Steps.{
  System, users, one_if, cache_ref, Alive, Doomed, Inv, alive, doomed, gone,
}

answer_of_ok : {S A : Type 0} {a b : A} {s t : S} → ok a s ≡ ok b t → a ≡ b
answer_of_ok e = cc

module _ (vectors : Vectors) (maps : HashMaps (Pair vectors) (key vectors)) where
  module _ (pair : Pair vectors) (a b : System vectors maps) where
    -- the entry behind a step that has left the state `put p (some c) s`
    at_put :
        (s : Proxy vectors maps) (c : Entry vectors)
        → b.proxy ≡ put vectors maps pair.entry (some c) s
        → b.proxy.entries pair.entry ≡ some c
    at_put s c same =
        ap (λ (s : Proxy vectors maps). s.entries pair.entry) same ∙ entries-put vectors maps _ _ _

    freed_now :
        (e : Entry vectors)
        → a.proxy.entries pair.entry ≡ some e
        → destroy_pair vectors maps pair a.proxy ≡ ok tt b.proxy
        → b.proxy.entries pair.entry ≡ none
    freed_now e there ran =
        ap (λ (s : Proxy vectors maps). s.entries pair.entry)
          (state_of_ok (sym ran ∙ destroy_lem vectors maps a.proxy pair e there))
        ∙ entries-put vectors maps _ _ _

    module _ (e : Entry vectors) (i : Alive vectors maps pair a e) where
      still_alive :
          (c : Entry vectors)
          → b.proxy ≡ put vectors maps pair.entry (some c) a.proxy
          → c.mutex ≡ false
          → c.ref_counter ≡ users vectors maps b + cache_ref vectors maps c
          → users vectors maps b + 1 < 2 ^ 64
          → b.dying ≡ 0
          → Inv vectors maps pair b
      still_alive c same free counted few quiet = alive c (record {
        there = at_put a.proxy c same;
        free = free;
        counted = counted;
        few = few;
        quiet = quiet;
      })

      pub enters :
          acquire vectors maps pair a.proxy ≡ ok tt b.proxy
          → users vectors maps a + 2 < 2 ^ 64
          → users vectors maps b ≡ users vectors maps a + 1
          → b.dying ≡ a.dying
          → Inv vectors maps pair b
      enters ran few more same =
          still_alive (record e { ref_counter = inc_ref e.ref_counter; mutex = false })
            (state_of_ok (sym ran ∙ acquire_lem vectors maps a.proxy pair e i.there i.free)) refl
            (ground (arith, i.counted, more, few, inc_ref-suc e.ref_counter)) (omega arith)
            (same ∙ i.quiet)

      -- the counter when one user has left
      one_less :
          users vectors maps a ≡ users vectors maps b + 1
          → dec_ref e.ref_counter ≡ users vectors maps b + cache_ref vectors maps e
      one_less less =
          ap dec_ref (i.counted ∙ shift)
          ∙ dec_ref-pred (users vectors maps b + cache_ref vectors maps e) (ground (arith, i.few))
        where
          shift :
              users vectors maps a + cache_ref vectors maps e
              ≡ users vectors maps b + cache_ref vectors maps e + 1
          shift = omega (arith, less)

      -- The last reference has been given back behind the step.
      now_doomed :
          (c : Entry vectors)
          → b.proxy ≡ untabled vectors maps a.proxy pair e i.there i.free c
          → c.mutex ≡ false
          → c.is_released_by_gb ≡ true
          → users vectors maps b ≡ 0
          → b.dying ≡ a.dying + 1
          → Inv vectors maps pair b
      now_doomed c same free old nobody more = doomed c (record {
        there = at_put _ c same;
        free = free;
        old = old;
        nobody = nobody;
        one = omega (arith, more, i.quiet);
      })

      pub client_leaves-Inv :
          (due : Bool)
          → release_locked vectors maps pair a.proxy ≡ ok due b.proxy
          → users vectors maps a ≡ users vectors maps b + 1
          → b.dying ≡ a.dying + one_if vectors maps due
          → Inv vectors maps pair b
      client_leaves-Inv due ran less dying =
          let after = sym ran ∙ release_locked_lem vectors maps a.proxy pair e i.there i.free in
          let down = one_less less in
          elim (Bool-cases (dec_ref e.ref_counter == 0)) [
            | inl last ↦
                now_doomed (left vectors maps a.proxy pair e i.there i.free)
                  (state_of_ok (rw last at after)) refl (ground (arith, down))
                  (ground (arith, down))
                  (dying
                    ∙ ap (λ d. a.dying + one_if vectors maps d) (answer_of_ok (rw last at after)))
            | inr more ↦
                still_alive (left vectors maps a.proxy pair e i.there i.free)
                  (state_of_ok (rw more at after)) refl down (omega (arith, i.few))
                  (dying
                    ∙ ap (λ d. a.dying + one_if vectors maps d) (answer_of_ok (rw more at after))
                    ∙ omega (arith, i.quiet))
          ]

      pub server_leaves-Inv :
          server_release vectors maps pair a.proxy ≡ ok tt b.proxy
          → users vectors maps a ≡ users vectors maps b + 1
          → b.dying ≡ a.dying
          → Inv vectors maps pair b
      server_leaves-Inv ran less same =
          still_alive
            (record e {
              is_full_content = true;
              ref_counter = dec_ref e.ref_counter;
              mutex = false;
            })
            (state_of_ok (sym ran ∙ server_release_lem vectors maps a.proxy pair e i.there i.free))
            refl (one_less less) (omega (arith, i.few)) (same ∙ i.quiet)

      pub server_fails-Inv :
          server_gives_up vectors maps pair a.proxy ≡ ok tt b.proxy
          → users vectors maps a ≡ users vectors maps b + 1
          → b.dying ≡ a.dying
          → Inv vectors maps pair b
      server_fails-Inv ran less same =
          still_alive (left vectors maps a.proxy pair e i.there i.free)
            (state_of_ok (sym ran ∙ server_gives_up_lem vectors maps a.proxy pair e i.there i.free))
            refl (one_less less) (omega (arith, i.few)) (same ∙ i.quiet)

      pub collects-Inv :
          (due : Bool)
          → collect_locked vectors maps pair a.proxy ≡ ok due b.proxy
          → users vectors maps b ≡ users vectors maps a
          → b.dying ≡ a.dying + one_if vectors maps due
          → Inv vectors maps pair b
      collects-Inv due ran same dying =
          let after = sym ran ∙ collect_locked_lem vectors maps a.proxy pair e i.there i.free in
          elim (Bool-cases e.is_released_by_gb) [
            | inl old ↦
                still_alive (record e { is_released_by_gb = true; mutex = false })
                  (state_of_ok (rw old at after)) refl (ground (arith, i.counted, same, old))
                  (omega (arith, i.few))
                  (dying
                    ∙ ap (λ d. a.dying + one_if vectors maps d) (answer_of_ok (rw old at after))
                    ∙ omega (arith, i.quiet))
            | inr new ↦
                let down : dec_ref e.ref_counter ≡ users vectors maps b =
                  ap dec_ref (ground (arith, i.counted, same))
                  ∙ dec_ref-pred (users vectors maps b) (omega (arith, i.few, same)) in
                elim (Bool-cases (dec_ref e.ref_counter == 0)) [
                  | inl last ↦
                      now_doomed (marked vectors maps a.proxy pair e i.there i.free)
                        (state_of_ok (rw (new, last) at after)) refl refl (ground (arith, down))
                        (dying
                          ∙ ap (λ d. a.dying + one_if vectors maps d)
                              (answer_of_ok (rw (new, last) at after)))
                  | inr more ↦
                      still_alive (marked vectors maps a.proxy pair e i.there i.free)
                        (state_of_ok (rw (new, more) at after)) refl (omega (arith, down))
                        (omega (arith, i.few))
                        (dying
                          ∙ ap (λ d. a.dying + one_if vectors maps d)
                              (answer_of_ok (rw (new, more) at after))
                          ∙ omega (arith, i.quiet))
                ]
          ]

    module _ (e : Entry vectors) (i : Doomed vectors maps pair a e) where
      -- The collector has been at the entry before.
      pub collects-doomed :
          (due : Bool)
          → collect_locked vectors maps pair a.proxy ≡ ok due b.proxy
          → users vectors maps b ≡ users vectors maps a
          → b.dying ≡ a.dying + one_if vectors maps due
          → Inv vectors maps pair b
      collects-doomed due ran same dying =
          let after = sym ran ∙ collect_locked_lem vectors maps a.proxy pair e i.there i.free in
          let c = record e { is_released_by_gb = true; mutex = false } in
          doomed c (record {
            there = at_put a.proxy c (state_of_ok (rw i.old at after));
            free = refl;
            old = refl;
            nobody = same ∙ i.nobody;
            one =
                dying
                ∙ ap (λ d. a.dying + one_if vectors maps d) (answer_of_ok (rw i.old at after))
                ∙ omega (arith, i.one);
          })

      pub destroys-doomed :
          destroy_pair vectors maps pair a.proxy ≡ ok tt b.proxy
          → users vectors maps b ≡ users vectors maps a
          → a.dying ≡ b.dying + 1
          → Inv vectors maps pair b
      destroys-doomed ran same less = gone (record {
        freed = freed_now e i.there ran;
        nobody = same ∙ i.nobody;
        none_dying = omega (arith, less, i.one);
      })

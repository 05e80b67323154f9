-- ===== src/Proxy/Cache/Memory.antt =====
-- The commands on one entry of the cache of task3, as equations on the state.
use osi.Base.{ℕ, ◌+◌, ◌^◌, ◌<◌, ◌≡◌, ◌∙◌, ap, true, false, Option, none, some, arith, fun_ext}
use osi.Machine.{ok, stop, fault, blocked}
use osi.Proxy.Libraries.{Vectors, HashMaps}
use osi.Proxy.Cache.{
  Ptr, Entry, Pair, key, Proxy, inc_ref, dec_ref, load, update, mutex_lock, mutex_unlock,
  destroy_pair, write,
}

pub dec_ref-pred : (n : ℕ) → n + 1 < 2 ^ 64 → dec_ref (n + 1) ≡ n
unfolding dec_ref
dec_ref-pred n h = omega arith

pub inc_ref-suc : (n : ℕ) → n + 1 < 2 ^ 64 → inc_ref n ≡ n + 1
unfolding inc_ref
inc_ref-suc n h = omega arith

module _ (vectors : Vectors) (maps : HashMaps (Pair vectors) (key vectors)) where
  -- the state with `c` at the address `p`
  unfoldable pub put : Ptr → Option (Entry vectors) → Proxy vectors maps → Proxy vectors maps
  put p c s = record s { entries = write vectors maps s.entries p c }

  pub put-put :
      (p : Ptr) (c d : Option (Entry vectors)) (s : Proxy vectors maps)
      → put p c (put p d s) ≡ put p c s
  unfolding put
  put-put p c d s =
      ap (λ (h : Ptr → Option (Entry vectors)). record s { entries = h })
        (fun_ext λ q. ground arith)

  pub entries-put :
      (p : Ptr) (c : Option (Entry vectors)) (s : Proxy vectors maps) → (put p c s).entries p ≡ c
  unfolding put
  entries-put p c s = ground arith

  module _ (s : Proxy vectors maps) (p : Ptr) (e : Entry vectors)
      (there : s.entries p ≡ some e) where
    pub load_lem : load vectors maps p s ≡ ok e s
    unfolding load
    load_lem = rw there

    pub update_lem :
        (f : Entry vectors → Entry vectors)
        → update vectors maps p f s ≡ ok tt (put p (some (f e)) s)
    unfolding update put
    update_lem f = rw load_lem

    pub unlock_lem :
        mutex_unlock vectors maps p s ≡ ok tt (put p (some (record e { mutex = false })) s)
    unfolding mutex_unlock
    unlock_lem = update_lem (λ e. record e { mutex = false })

    pub lock_lem :
        e.mutex ≡ false
        → mutex_lock vectors maps p s ≡ ok tt (put p (some (record e { mutex = true })) s)
    unfolding mutex_lock put
    lock_lem free = rw (load_lem, free)

    pub lock-held : e.mutex ≡ true → mutex_lock vectors maps p s ≡ stop blocked
    unfolding mutex_lock
    lock-held held = rw (load_lem, held)

  pub lock-freed :
      (s : Proxy vectors maps) (p : Ptr)
      → s.entries p ≡ none
      → mutex_lock vectors maps p s ≡ stop fault
  unfolding mutex_lock load
  lock-freed s p gone = rw gone

  module _ (s : Proxy vectors maps) (p : Ptr) (e : Entry vectors) where
    pub load-put : load vectors maps p (put p (some e) s) ≡ ok e (put p (some e) s)
    load-put = load_lem (put p (some e) s) p e (entries-put p _ s)

    pub update-put :
        (f : Entry vectors → Entry vectors)
        → update vectors maps p f (put p (some e) s) ≡ ok tt (put p (some (f e)) s)
    update-put f =
        update_lem (put p (some e) s) p e (entries-put p _ s) f ∙ ap (ok tt) (put-put p _ _ s)

    pub unlock-put :
        mutex_unlock vectors maps p (put p (some e) s)
        ≡ ok tt (put p (some (record e { mutex = false })) s)
    unlock-put =
        unlock_lem (put p (some e) s) p e (entries-put p _ s) ∙ ap (ok tt) (put-put p _ _ s)

  pub destroy_lem :
      (s : Proxy vectors maps) (pair : Pair vectors) (e : Entry vectors)
      → s.entries pair.entry ≡ some e
      → destroy_pair vectors maps pair s ≡ ok tt (put pair.entry none s)
  unfolding destroy_pair put
  destroy_lem s pair e there = rw (load_lem s pair.entry e there)

  pub destroy-put :
      (s : Proxy vectors maps) (pair : Pair vectors) (e : Entry vectors)
      → destroy_pair vectors maps pair (put pair.entry (some e) s) ≡ ok tt (put pair.entry none s)
  unfolding destroy_pair put
  destroy-put s pair e =
      rw (load-put s pair.entry e) (ap (ok tt) (put-put pair.entry none (some e) s))

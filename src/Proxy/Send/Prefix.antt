-- ===== src/Proxy/Send/Prefix.antt =====
-- What a client of task3/src/main.c has got from `send_cached_content`, at any time.
use osi.Base.{
  ℕ, zero, suc, ◌+◌, ◌-◌, ◌≤◌, ◌≡◌, refl, ◌∙◌, ap, sym, Bool, true, false, Option, none, some, List,
  [], ◌++◌, ◌==◌, ◌&&◌, not, arith, if◌then◌else◌, length, length-append,
}
use mathlib.Core.List.{append_assoc, append-nil}
use osi.Proxy.Libraries.{Vectors}
use osi.Proxy.Cache.{Entry, dec_ref}
use osi.Proxy.Slice.{Prefix, Prefix-append, Prefix-slice, length-Prefix, length-slice}
use osi.Proxy.Send.{
  Others, Writes, Sent, finished, left_early, sending, returned, destroyed, give_back, given_back,
  Waited, woken, gave_up, asleep, lock, unlock, wait_content, send_loop, send_cached_content, Loop,
  after_wait, after_write,
}

module _ (vectors : Vectors) where
  open vectors use {contents, vector_size, size-contents}

  -- `e'` has the content of `e`, and perhaps more behind it.
  abbrev pub Grown : Entry vectors → Entry vectors → Type 0
  Grown e e' = (more : List ℕ) × (contents e'.content ≡ contents e.content ++ more)

  -- The client has got the first bytes of the entry.
  abbrev pub HasPrefix : List ℕ → Entry vectors → Type 0
  HasPrefix sent e = Prefix sent (contents e.content)

  abbrev pub AllPrefix : Sent vectors → Type 0
  AllPrefix (finished k e sent) = HasPrefix sent e
  AllPrefix (returned e sent) = HasPrefix sent e
  AllPrefix (destroyed e sent) = HasPrefix sent e
  AllPrefix (left_early e sent) = HasPrefix sent e
  AllPrefix (sending e sent) = HasPrefix sent e

  Grown-trans : (e f g : Entry vectors) → Grown e f → Grown f g → Grown e g
  Grown-trans e f g (m, p) (n, q) =
      (m ++ n, q ∙ ap (λ (l : List ℕ). l ++ n) p ∙ append_assoc (contents e.content) m n)

  HasPrefix-Grown :
      (sent : List ℕ) (e f : Entry vectors) → HasPrefix sent e → Grown e f → HasPrefix sent f
  HasPrefix-Grown sent e f p (m, q) = rw q (Prefix-append sent (contents e.content) m p)

  size-le-Grown : (e f : Entry vectors) → Grown e f → vector_size e.content ≤ vector_size f.content
  size-le-Grown e f (m, q) = omega (
    arith,
    size-contents e.content,
    size-contents f.content,
    ap (λ (l : List ℕ). length l) q,
    length-append (contents e.content) m,
  )

  -- The other threads only add to the content.
  abbrev pub OnlyGrow : Others vectors → Type 0
  OnlyGrow others = (k : ℕ) (e : Entry vectors) → Grown e (others k e)

  -- `write` takes no more than it is given.
  abbrev pub TakeAtMost : Writes vectors → Type 0
  TakeAtMost writes = (k wanted n : ℕ) → writes k wanted ≡ some n → n ≤ wanted

  -- how the entry is behind the inner loop
  abbrev WaitedFor : Entry vectors → Waited vectors → Type 0
  WaitedFor e (woken to_write k e') = Grown e e' × (to_write ≤ vector_size e'.content)
  WaitedFor e (gave_up e') = Grown e e'
  WaitedFor e (asleep e') = Grown e e'

  WaitedFor-trans :
      (e f : Entry vectors) (w : Waited vectors) → Grown e f → WaitedFor f w → WaitedFor e w
  WaitedFor-trans e f (woken to_write k e') g (h, le) = (Grown-trans e f e' g h, le)
  WaitedFor-trans e f (gave_up e') g h = Grown-trans e f e' g h
  WaitedFor-trans e f (asleep e') g h = Grown-trans e f e' g h

  WaitedFor-if :
      (e : Entry vectors) (b : Bool) (v w : Waited vectors)
      → WaitedFor e v
      → WaitedFor e w
      → WaitedFor e (if b then v else w)
  WaitedFor-if e true v w p q = p
  WaitedFor-if e false v w p q = q

  -- a write of `suc n` bytes
  module _ (others : Others vectors) (grow : OnlyGrow others) where
    wait_content-WaitedFor :
        (fuel k written_counter to_write : ℕ) (e : Entry vectors)
        → to_write ≤ vector_size e.content
        → WaitedFor e (wait_content vectors others fuel k written_counter to_write e)
    unfolding wait_content
    wait_content-WaitedFor zero k written_counter to_write e le =
        ([], sym (append-nil (contents e.content)))
    wait_content-WaitedFor (suc fuel) k written_counter to_write e le =
        let e' = lock vectors (others k (unlock vectors e)) in
        WaitedFor-if e ((written_counter == to_write) && not e.is_full_content) _ _
          (WaitedFor-if e e'.is_corresponds_to_cache_size _ _
            (WaitedFor-trans e e' _ (grow k (unlock vectors e)) (
              wait_content-WaitedFor fuel (suc k) written_counter (vector_size e'.content) e'
                (omega arith)))
            (grow k (unlock vectors e)))
          (([], sym (append-nil (contents e.content))), le)

    module _ (writes : Writes vectors) (at_most : TakeAtMost writes) where
      AllPrefix-if :
          (b : Bool) (v w : Sent vectors)
          → AllPrefix v
          → AllPrefix w
          → AllPrefix (if b then v else w)
      AllPrefix-if true v w p q = p
      AllPrefix-if false v w p q = q

      module _ (loop : Loop vectors)
          (keeps : (k written_counter : ℕ) (e : Entry vectors) (sent : List ℕ)
            → HasPrefix sent e
            → length sent ≡ written_counter
            → AllPrefix (loop k written_counter e sent)) where
        after_write-AllPrefix :
            (k written_counter wanted : ℕ) (e : Entry vectors) (sent : List ℕ)
            → HasPrefix sent e
            → length sent ≡ written_counter
            → written_counter + wanted ≤ vector_size e.content
            → (answer : Option ℕ) → ((n : ℕ) → answer ≡ some n → n ≤ wanted)
            → AllPrefix (after_write vectors loop k written_counter e sent answer)
        unfolding after_write
        after_write-AllPrefix k written_counter wanted e sent p same room none few = p
        after_write-AllPrefix k written_counter wanted e sent p same room (some zero) few = p
        after_write-AllPrefix k written_counter wanted e sent p same room (some (suc n)) few =
            rw (← same) (
              keeps k _ e _ (Prefix-slice sent (contents e.content) (suc n) p) (
                length-slice sent (contents e.content) (suc n) p
                  (omega (arith, few (suc n) refl, room, same, size-contents e.content))))

        after_wait-AllPrefix :
            (written_counter : ℕ) (sent : List ℕ) (e : Entry vectors)
            → HasPrefix sent e
            → length sent ≡ written_counter
            → (w : Waited vectors) → WaitedFor e w
            → AllPrefix (after_wait vectors loop others writes written_counter sent w)
        unfolding after_wait
        after_wait-AllPrefix written_counter sent e p same (asleep e') g =
            HasPrefix-Grown sent e e' p g
        after_wait-AllPrefix written_counter sent e p same (gave_up e') g =
            HasPrefix-Grown sent e e' p g
        after_wait-AllPrefix written_counter sent e p same (woken to_write k e') (g, le) =
            let tested = others k (unlock vectors e') in
            let now =
              HasPrefix-Grown sent e' tested (HasPrefix-Grown sent e e' p g)
                (grow k (unlock vectors e')) in
            let ready =
              HasPrefix-Grown sent tested (others (suc k) tested) now (grow (suc k) tested) in
            AllPrefix-if ((written_counter == to_write) && tested.is_full_content) _ _ now (
              after_write-AllPrefix (suc (suc k)) written_counter (to_write - written_counter)
                (others (suc k) tested) sent ready same
                (omega (
                  arith,
                  le,
                  same,
                  size-le-Grown e' tested (grow k (unlock vectors e')),
                  size-le-Grown tested (others (suc k) tested) (grow (suc k) tested),
                  size-contents (others (suc k) tested).content,
                  length-Prefix sent (contents (others (suc k) tested).content) ready,
                ))
                (writes k (to_write - written_counter)) (at_most k (to_write - written_counter)))

      send_loop-AllPrefix :
          (fuel k written_counter : ℕ) (e : Entry vectors) (sent : List ℕ)
          → HasPrefix sent e
          → length sent ≡ written_counter
          → AllPrefix (send_loop vectors others writes fuel k written_counter e sent)
      unfolding send_loop
      send_loop-AllPrefix zero k written_counter e sent p same = p
      send_loop-AllPrefix (suc fuel) k written_counter e sent p same =
          let sized = others k e in
          let locked = lock vectors (others (suc k) sized) in
          after_wait-AllPrefix (send_loop vectors others writes fuel) (send_loop-AllPrefix fuel)
            written_counter sent locked
            (HasPrefix-Grown sent sized locked (HasPrefix-Grown sent e sized p (grow k e))
              (grow (suc k) sized))
            same
            (wait_content vectors others (suc fuel) (suc (suc k)) written_counter
              (vector_size sized.content) locked)
            (wait_content-WaitedFor (suc fuel) (suc (suc k)) written_counter
              (vector_size sized.content) locked (size-le-Grown sized locked (grow (suc k) sized)))

      give_back-AllPrefix :
          (r : Sent vectors) → AllPrefix r → AllPrefix (give_back vectors others r)
      unfolding give_back
      give_back-AllPrefix (finished k e sent) p =
          let after = HasPrefix-Grown sent e (others k e) p (grow k e) in
          AllPrefix-if (dec_ref (others k e).ref_counter == 0)
            (destroyed (given_back vectors (others k e)) sent)
            (returned (given_back vectors (others k e)) sent) after after
      give_back-AllPrefix (left_early e sent) p = p
      give_back-AllPrefix (sending e sent) p = p
      give_back-AllPrefix (returned e sent) p = p
      give_back-AllPrefix (destroyed e sent) p = p

      -- If the other threads only add to the content of the entry and write takes no more than it
      -- is given, then at any time, and however send_cached_content has ended, what the client has
      -- got is a prefix of the content of the entry.
      pub send_cached_content-AllPrefix :
          (fuel : ℕ) (e : Entry vectors)
          → AllPrefix (send_cached_content vectors others writes fuel e)
      unfolding send_cached_content
      send_cached_content-AllPrefix fuel e =
          AllPrefix-if e.is_corresponds_to_cache_size _ _
            (give_back-AllPrefix _
              (send_loop-AllPrefix fuel 0 0 _ [] (contents e.content, refl) refl))
            (contents e.content, refl)

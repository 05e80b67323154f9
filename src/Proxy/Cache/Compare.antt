-- ===== src/Proxy/Cache/Compare.antt =====
-- How task3/src/cache.c compares the keys of its table.
use Prim.Native.Nat.{Ordering}
use osi.Base.{ℕ, ◌≡◌, refl, false, none, some, List, [], ◌∷◌, ◌++◌, arith}
use osi.Proxy.Libraries.{Vectors}
use osi.Proxy.Http.Host.{contains}
use osi.Proxy.Cache.{Pair, strcmp, my_compare}

strcmp-unterminated : (s : List ℕ) → contains 0 s ≡ false → strcmp s s ≡ none
unfolding strcmp
strcmp-unterminated [] e = refl
strcmp-unterminated (c ∷ cs) e = ground (arith, strcmp-unterminated cs)

strcmp-terminated :
    (a b junk junk' : List ℕ)
    → contains 0 a ≡ false
    → contains 0 b ≡ false
    → strcmp (a ++ 0 ∷ junk) (b ++ 0 ∷ junk') ≡ some Ordering.eq
    → a ≡ b
unfolding strcmp
strcmp-terminated [] [] junk junk' ea eb h = refl
strcmp-terminated [] (d ∷ ds) junk junk' ea eb h = ground arith
strcmp-terminated (c ∷ cs) [] junk junk' ea eb h = ground arith
strcmp-terminated (c ∷ cs) (d ∷ ds) junk junk' ea eb h =
    ground (arith, strcmp-terminated cs ds junk junk')

module _ (vectors : Vectors) where
  open vectors use {Vec, contents, contents-create}

  -- For two pairs with the same URL and no 0 byte in it, my_compare reads behind the end of the
  -- vectors.
  pub my_compare-unterminated :
      (a b : Pair vectors)
      → contents a.url ≡ contents b.url
      → contains 0 (contents a.url) ≡ false
      → my_compare vectors a b ≡ none
  unfolding my_compare
  my_compare-unterminated a b same no_zero =
      rw (← same) (strcmp-unterminated (contents a.url) no_zero)

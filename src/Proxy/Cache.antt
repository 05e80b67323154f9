-- ===== src/Proxy/Cache.antt =====
-- task3/src/cache.c: the entries of the cache, and the pairs of a URL and an entry in its table.
pub mod Compare
pub mod Memory
use osi.Base.{
  ℕ, ◌+◌, ◌-◌, ◌%◌, ◌^◌, ◌≡◌, Bool, true, false, Option, none, some, List, [], ◌∷◌, ◌==◌,
  if◌then◌else◌,
}
use Prim.Native.Nat.{compare, Ordering}
use osi.Machine.{Cmd, ok, stop, fault, blocked, pure, ◌>>=◌, ◌>>◌, modify}
use osi.Proxy.Libraries.{Vectors, HashMaps}
use osi.Proxy.Http.{vector_push_str}

abbrev pub Ptr : Type 0
Ptr = ℕ

-- `uint64_t`: a decrement of 0 wraps around.
unfoldable pub inc_ref : ℕ → ℕ
inc_ref n = (n + 1) % 2 ^ 64

unfoldable pub dec_ref : ℕ → ℕ
dec_ref n = (n + 2 ^ 64 - 1) % 2 ^ 64

-- `strcmp` on the bytes that are allocated at two pointers; `none` is a read behind their end.
unfoldable pub strcmp : List ℕ → List ℕ → Option Ordering
strcmp [] b = none
strcmp (c ∷ cs) [] = none
strcmp (c ∷ cs) (d ∷ ds) =
    if c == d then (if c == 0 then some Ordering.eq else strcmp cs ds) else some (compare c d)

module _ (vectors : Vectors) where
  open vectors use {Vec, vector_create, vector_copy, contents}

  -- `Entry`. The flags are assigned 0 and 1 only; `mutex` says whether the entry's mutex is held.
  pub record Entry : Type 0 where
    pub url : Vec
    pub content : Vec
    pub curr_size : ℕ
    pub is_full_content : Bool
    pub is_released_by_gb : Bool
    pub is_corresponds_to_cache_size : Bool
    pub ref_counter : ℕ
    pub mutex : Bool

  -- `Pair_t`, with the address of its entry
  pub record Pair : Type 0 where
    pub url : Vec
    pub entry : Ptr

  abbrev pub key : Pair → Vec
  key p = p.url

  unfoldable pub my_compare : Pair → Pair → Option Ordering
  unfolding strcmp
  my_compare a b = strcmp (contents a.url) (contents b.url)

  unfoldable pub my_hash :
      (hashmap_sip : List ℕ → (size seed0 seed1 : ℕ) → ℕ) → Pair → (seed0 seed1 : ℕ) → ℕ
  my_hash hashmap_sip pair seed0 seed1 =
      hashmap_sip (contents pair.url) (vectors.vector_size pair.url) seed0 seed1

  unfoldable pub create_vector_handler_from_str : Vec → Vec
  unfolding vector_push_str
  create_vector_handler_from_str str = vector_push_str vectors vector_create (contents str)

  unfoldable pub create_entry : Vec → Entry
  create_entry url = record {
    url = vector_copy url;
    content = vector_create;
    curr_size = 0;
    is_full_content = false;
    is_corresponds_to_cache_size = true;
    ref_counter = 1;
    is_released_by_gb = false;
    mutex = false;
  }

  module _ (maps : HashMaps Pair key) where
    open maps use {Map, hashmap_get, hashmap_set, hashmap_delete}

    -- The entries on the heap and the table of the cache.
    pub record Proxy : Type 0 where
      pub entries : Ptr → Option Entry
      pub table : Map

    unfoldable pub create_cache : (Ptr → Option Entry) → Proxy
    create_cache entries = record { entries = entries; table = maps.hashmap_new }

    abbrev pub write : (Ptr → Option Entry) → Ptr → Option Entry → Ptr → Option Entry
    write h p c a = if p == a then c else h a

    abbrev found : Option Entry → Cmd Proxy Entry
    found none s = stop fault
    found (some e) s = ok e s

    -- `pair->entry` read: undefined where the entry has been freed
    unfoldable pub load : Ptr → Cmd Proxy Entry
    load p s = found (s.entries p) s

    abbrev pub store : Ptr → Option Entry → Cmd Proxy (Unit {0})
    store p c = modify λ s. record s { entries = write s.entries p c }

    -- A change of one field, where the entry is still there.
    unfoldable pub update : Ptr → (Entry → Entry) → Cmd Proxy (Unit {0})
    unfolding load
    update p f = do e ← load p; store p (some (f e))

    unfoldable pub mutex_lock : Ptr → Cmd Proxy (Unit {0})
    unfolding load
    mutex_lock p = do
      e ← load p
      if e.mutex then (λ _. stop blocked) else store p (some (record e { mutex = true }))

    unfoldable pub mutex_unlock : Ptr → Cmd Proxy (Unit {0})
    unfolding update
    mutex_unlock p = update p (λ e. record e { mutex = false })

    -- `destroy_pair`, whose `destroy_entry` frees the entry
    unfoldable pub destroy_pair : Pair → Cmd Proxy (Unit {0})
    unfolding load
    destroy_pair pair = do _ ← load pair.entry; store pair.entry none

    unfoldable pub create_pair : (fresh : Ptr) (url : Vec) → Cmd Proxy Pair
    unfolding create_entry create_vector_handler_from_str
    create_pair fresh url = do
      store fresh (some (create_entry url))
      pure (record { url = create_vector_handler_from_str url; entry = fresh })

    abbrev get_or_set : Ptr → Vec → Option Pair → Cmd Proxy (Option Pair)
    get_or_set fresh url (some pair) = pure (some pair)
    get_or_set fresh url none = do
      pair ← create_pair fresh url
      modify (λ s. record s { table = hashmap_set s.table pair })
      pure none

    -- task3/src/main.c: the pair that the table has for the URL, or a new one and NULL.
    unfoldable pub hashmap_get_or_set : (fresh : Ptr) (url : Vec) → Cmd Proxy (Option Pair)
    unfolding create_pair create_vector_handler_from_str
    hashmap_get_or_set fresh url = do
      pair_cached ← (λ s. ok (hashmap_get s.table (create_vector_handler_from_str url)) s)
      get_or_set fresh url pair_cached

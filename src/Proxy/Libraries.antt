-- ===== src/Proxy/Libraries.antt =====
-- The libraries that the proxy of task3 links to and this repository does not hold: the growing
-- vector of c-vector and the HTTP parser llhttp, as far as the proxy uses them.
use osi.Base.{
  ℕ, ◌≡◌, refl, Bool, true, false, Option, none, some, List, [], ◌∷◌, ◌++◌, ◌&&◌, ◌==◌,
  if◌then◌else◌, length,
}

-- A vector of bytes: `contents` is what its owner reads through the pointer.
pub record Vectors : Type 1 where
  pub Vec : Type 0
  pub vector_create : Vec
  pub vector_add : Vec → ℕ → Vec
  pub vector_size : Vec → ℕ
  pub vector_copy : Vec → Vec
  pub contents : Vec → List ℕ
  pub contents-create : contents vector_create ≡ []
  pub contents-add : (v : Vec) (c : ℕ) → contents (vector_add v c) ≡ contents v ++ c ∷ []
  pub contents-copy : (v : Vec) → contents (vector_copy v) ≡ contents v
  pub size-contents : (v : Vec) → vector_size v ≡ length (contents v)

abbrev same_text : List ℕ → List ℕ → Bool
same_text [] [] = true
same_text (c ∷ cs) (d ∷ ds) = (c == d) && same_text cs ds
same_text _ _ = false

-- The hash table of hashmap.c, for items of type `Item` with a key each. It calls my_hash and
-- my_compare of cache.c, and my_compare reads behind the end of keys that have no 0 byte, so that
-- nothing is assumed of what a lookup finds.
pub record HashMaps {K : Type 0} (Item : Type 0) (key : Item → K) : Type 1 where
  pub Map : Type 0
  pub hashmap_new : Map
  pub hashmap_get : Map → K → Option Item
  pub hashmap_set : Map → Item → Map
  pub hashmap_delete : Map → K → Map

-- What llhttp reports through the callbacks that the proxy sets.
pub data Event : Type 0 where
  url_part : List ℕ → Event
  url_complete message_complete : Event
  method_complete : (method : ℕ) → Event
  version_complete : (major minor : ℕ) → Event

-- `execute` runs the parser over some bytes: its new state, the callbacks in order, and the error.
pub record Llhttp : Type 1 where
  pub Parser : Type 0
  pub init : (http_type : ℕ) → Parser
  pub next : Parser → List ℕ → Parser
  pub events : Parser → List ℕ → List Event
  pub errno : Parser → List ℕ → ℕ
  pub hpe_ok : ℕ
  pub http_get : ℕ

-- The vectors can be lists.
abbrev pub list_vectors : Vectors
list_vectors = record {
  Vec = List ℕ;
  vector_create = [];
  vector_add = λ v c. v ++ c ∷ [];
  vector_size = λ v. length v;
  vector_copy = λ v. v;
  contents = λ v. v;
  contents-create = refl;
  contents-add = λ v c. refl;
  contents-copy = λ v. refl;
  size-contents = λ v. refl;
}

-- The table can be the list of what was set and deleted, the last first, with keys that are equal
-- byte by byte.
module _ {Item : Type 0} (key : Item → List ℕ) where
  abbrev latest : List (List ℕ × Option Item) → List ℕ → Option Item
  latest [] k = none
  latest ((j, x) ∷ m) k = if same_text j k then x else latest m k

  abbrev pub list_maps : HashMaps Item key
  list_maps = record {
    Map = List (List ℕ × Option Item);
    hashmap_new = [];
    hashmap_get = latest;
    hashmap_set = λ m x. (key x, some x) ∷ m;
    hashmap_delete = λ m j. (j, none) ∷ m;
  }

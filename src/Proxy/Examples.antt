-- ===== src/Proxy/Examples.antt =====
-- The theorems about the proxy of task3 with lists for vectors and for the table, and with a parser
-- that takes every piece of input for a whole request.
use osi.Base.{
  ℕ, inl, ◌++◌, ◌≡◌, ◌+◌, refl, true, false, none, some, List, [], ◌∷◌, ◌==◌, arith, if◌then◌else◌,
}
use osi.Machine.{ok, stop, fault, ◌>>◌}
use osi.Proxy.Libraries.{
  HashMaps, Llhttp, Event, list_vectors, list_maps, url_part, url_complete, message_complete,
  method_complete, version_complete,
}
use osi.Proxy.Http.{
  scheme, ParserRes, got, not_parsed, callbacks, receive_parsed_request, http_parse_host_name,
  waiting,
}
use osi.Proxy.Http.Receive.{
  bytes_of, url_of, receive-Collects, receive-Sound, receive-end_of_stream, Collects, Sound,
  end_of_stream,
}
use osi.Proxy.Http.Host.{host_name-of_callbacks, host_name-absolute, Holds}
use osi.Proxy.Cache.{
  my_compare, Entry, Pair, key, Proxy, create_entry, hashmap_get_or_set,
  create_vector_handler_from_str, inc_ref,
}
use osi.Proxy.Cache.Compare.{my_compare-unterminated}
use osi.Proxy.Cache.Memory.{put}
use osi.Proxy.References.{acquire, server_release, collect}
use osi.Proxy.References.Steps.{System, Reach, next}
use osi.Proxy.References.Races.{late_user-loses_entry}
use osi.Proxy.References.Hazards.{lookup-collect-acquire, server_release-leak}
use osi.Proxy.Fetch.{server_handler}
use osi.Proxy.Fetch.Answers.{Leaves, server_handler-Leaves}

abbrev events_of : List ℕ → List Event
events_of [] = []
events_of (c ∷ cs) =
    url_part (c ∷ cs)
    ∷ url_complete
    ∷ method_complete 1
    ∷ version_complete 1 0
    ∷ message_complete
    ∷ []

-- It refuses nothing.
abbrev whole : Llhttp
whole = record {
  Parser = ℕ;
  init = λ t. t;
  next = λ p bytes. p;
  events = λ p bytes. events_of bytes;
  errno = λ p bytes. 0;
  hpe_ok = 0;
  http_get = 1;
}

abbrev start : ParserRes list_vectors
start = record {
  parse_state_msg = not_parsed;
  parse_state_url = not_parsed;
  parse_state_method = not_parsed;
  parse_state_version = not_parsed;
  method = 0;
  minor_version = 0;
  major_version = 0;
  full_msg = [];
  url = [];
}

-- host_name
host_name-of_callbacks_example :
    http_parse_host_name list_vectors
      (callbacks list_vectors (url_part (b'h' ∷ []) ∷ []) start).url
      []
    ≡ none
unfolding url_of
host_name-of_callbacks_example =
    host_name-of_callbacks list_vectors [] start (url_part (b'h' ∷ []) ∷ []) refl refl (inl refl)

-- http://a/b
host_name-absolute_example : Holds list_vectors [] (b'a' ∷ []) (
    http_parse_host_name list_vectors
      (callbacks list_vectors (url_part (scheme ++ (b'a' ∷ b'/' ∷ b'b' ∷ [])) ∷ []) start).url
      [])
unfolding url_of
host_name-absolute_example =
    host_name-absolute list_vectors [] start (url_part (scheme ++ (b'a' ∷ b'/' ∷ b'b' ∷ [])) ∷ [])
      (b'a' ∷ []) (b'b' ∷ []) refl refl refl refl

-- the receive loop
receive-Collects_example :
    Collects list_vectors whole
      (1 ∷ 2 ∷ 3 ∷ [])
      (receive_parsed_request list_vectors whole 0 start (got (1 ∷ 2 ∷ []) ∷ got (3 ∷ []) ∷ []))
unfolding bytes_of
receive-Collects_example =
    receive-Collects list_vectors whole 0 start (got (1 ∷ 2 ∷ []) ∷ got (3 ∷ []) ∷ [])

receive-Sound_example :
    Sound list_vectors whole
      (got (1 ∷ 2 ∷ []) ∷ [])
      (receive_parsed_request list_vectors whole 0 start (got (1 ∷ 2 ∷ []) ∷ []))
receive-Sound_example =
    receive-Sound list_vectors whole 0 start (got (1 ∷ 2 ∷ []) ∷ []) (λ e. cc, λ e. cc)

receive-end_of_stream_example :
    receive_parsed_request list_vectors whole 0 start (end_of_stream list_vectors whole 3)
    ≡ waiting start
receive-end_of_stream_example =
    receive-end_of_stream list_vectors whole 0 start refl refl refl refl (λ e. cc, λ e. cc) 3

-- the cache
abbrev Item : Type 0
Item = Pair list_vectors

abbrev maps : HashMaps Item (key list_vectors)
maps = list_maps (key list_vectors)

my_compare-unterminated_example :
    my_compare list_vectors
      (record { url = b'a' ∷ []; entry = 1 })
      (record { url = b'a' ∷ []; entry = 2 })
    ≡ none
my_compare-unterminated_example =
    my_compare-unterminated list_vectors (record { url = b'a' ∷ []; entry = 1 })
      (record { url = b'a' ∷ []; entry = 2 }) refl refl

abbrev page : Item
page = record { url = b'a' ∷ 0 ∷ []; entry = 5 }

abbrev cached : Entry list_vectors
cached = create_entry list_vectors (b'a' ∷ 0 ∷ [])

abbrev state : Entry list_vectors → Proxy list_vectors maps
state e = record {
  entries = λ p. if 5 == p then some e else none;
  table = (b'a' ∷ 0 ∷ [], some page) ∷ [];
}

abbrev e1 : Entry list_vectors
e1 = record {
  url = b'a' ∷ 0 ∷ [];
  content = [];
  curr_size = 0;
  is_full_content = false;
  is_released_by_gb = false;
  is_corresponds_to_cache_size = true;
  ref_counter = 1;
  mutex = false;
}

-- The same entry behind the collector, still in use.
abbrev e2 : Entry list_vectors
e2 = record e1 { is_released_by_gb = true }

lookup-collect-acquire_example :
    (hashmap_get_or_set list_vectors maps 9 (b'a' ∷ 0 ∷ []) (state e1) ≡ ok (some page) (state e1))
    × ((collect list_vectors maps page >> acquire list_vectors maps page) (state e1) ≡ stop fault)
unfolding create_vector_handler_from_str
lookup-collect-acquire_example =
    lookup-collect-acquire list_vectors maps (state e1) 9 (b'a' ∷ 0 ∷ []) page e1 refl refl refl
      refl refl

server_release-leak_example :
    (t : Proxy list_vectors maps) × (server_release list_vectors maps page (state e2) ≡ ok tt t)
    × (t.entries 5 ≡ some (record e2 { is_full_content = true; ref_counter = 0; mutex = false }))
    × (t.table ≡ (state e2).table)
    × (collect list_vectors maps page t ≡ ok tt t)
server_release-leak_example =
    server_release-leak list_vectors maps (state e2) page e2 refl refl refl refl

-- A client enters, and the collector runs while it reads.
abbrev sys : ℕ → Proxy list_vectors maps → System list_vectors maps
sys n p = record { proxy = p; clients = n; servers = 0; dying = 0; late = 0 }

abbrev e3 : Entry list_vectors
e3 = record e1 { ref_counter = inc_ref 1; mutex = false }

abbrev entered : Proxy list_vectors maps
entered = put list_vectors maps 5 (some e3) (state e1)

late_user-loses_entry_example :
    (b : System list_vectors maps) × Reach list_vectors maps page (sys 1 (state e2)) b
    × (b.clients + b.servers ≡ 1)
    × (b.proxy.entries 5 ≡ none)
late_user-loses_entry_example =
    late_user-loses_entry list_vectors maps page (sys 1 (state e2)) e2
      (record { there = refl; free = refl; counted = refl; few = omega arith; quiet = refl }) refl
      refl refl

server_handler-Leaves_example :
    Leaves list_vectors whole e1 1
      (1 ∷ 2 ∷ [])
      (server_handler list_vectors whole 0 start e1 (got (1 ∷ 2 ∷ []) ∷ []))
unfolding bytes_of
server_handler-Leaves_example =
    server_handler-Leaves list_vectors whole 0 start e1 (got (1 ∷ 2 ∷ []) ∷ []) ((omega arith, tt))
      (omega arith)

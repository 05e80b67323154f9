-- ===== src/Proxy/Client/Abandoned.antt =====
-- A request of task3 whose server cannot be reached, and the next request of the same URL.
use osi.Base.{
  ℕ, zero, suc, ◌≡◌, refl, ap, Bool, true, false, none, some, List, [], ◌++◌, ◌==◌, length, arith,
  ◌∙◌, ==_self,
}
use osi.Machine.{ok, Returns, Returns-and_then, returns}
use osi.Proxy.Libraries.{Vectors, Llhttp, HashMaps}
use osi.Proxy.Http.{
  ParserRes, Read, returned, success_parse, http_parse_host_name, receive_parsed_request,
  init_parser,
}
use osi.Proxy.Cache.{
  Entry, Pair, key, Proxy, create_entry, create_vector_handler_from_str, inc_ref, Ptr,
  hashmap_get_or_set, create_pair,
}
use osi.Proxy.Sockets.{Opened, connect_via_host_name}
use osi.Proxy.Send.{
  Writes, sending, asleep, wait_content, send_loop, send_cached_content, after_wait, give_back,
}
use osi.Proxy.Send.Ends.{alone}
use osi.Proxy.Client.{World, no_server, from_cache, client_handler, requested, serve, dial, send_to}

module _ (vectors : Vectors) where
  open vectors use {contents, vector_size, size-contents, contents-create}

  -- the test of the inner loop on an entry without content
  nothing_sent : (0 == vector_size vectors.vector_create) ≡ true
  nothing_sent =
      ground
        (arith, size-contents vectors.vector_create, ap (λ (l : List ℕ). length l) contents-create)

  -- A new entry that so many threads use
  abbrev used : vectors.Vec → ℕ → (mutex : Bool) → Entry vectors
  used url n mutex = record {
    url = vectors.vector_copy url;
    content = vectors.vector_create;
    curr_size = 0;
    is_full_content = false;
    is_corresponds_to_cache_size = true;
    ref_counter = n;
    is_released_by_gb = false;
    mutex = mutex;
  }

  wait_content-asleep :
      (fuel k : ℕ) (url : vectors.Vec) (n : ℕ)
      → wait_content vectors
          (alone vectors)
          fuel
          k
          0
          (vector_size vectors.vector_create)
          (used url n true)
        ≡ asleep (used url n true)
  unfolding wait_content
  wait_content-asleep zero k url n = refl
  wait_content-asleep (suc fuel) k url n = rw nothing_sent (wait_content-asleep fuel (suc k) url n)

  -- A client that is told to serve from a new entry that no thread fills gets nothing and waits:
  -- for any fuel the run of send_cached_content has not ended.
  pub send_cached_content-starves :
      (writes : Writes vectors) (fuel : ℕ) (url : vectors.Vec)
      → send_cached_content vectors (alone vectors) writes (suc fuel) (create_entry vectors url)
        ≡ sending (used url (inc_ref 1) true) []
  unfolding send_cached_content create_entry send_loop after_wait give_back
  send_cached_content-starves writes fuel url =
      ap
        (λ w. give_back vectors (alone vectors) (
          after_wait vectors (send_loop vectors (alone vectors) writes fuel) (alone vectors) writes
            0 [] w))
        (wait_content-asleep (suc fuel) 2 url (inc_ref 1))

  module _ (llhttp : Llhttp) (maps : HashMaps (Pair vectors) (key vectors)) where
    -- The pair that a lookup without success creates
    abbrev pub created : Ptr → vectors.Vec → Pair vectors
    created fresh url = record { url = create_vector_handler_from_str vectors url; entry = fresh }

    get_or_set-misses :
        (s : Proxy vectors maps) (fresh : Ptr) (url : vectors.Vec)
        → maps.hashmap_get s.table (create_vector_handler_from_str vectors url) ≡ none
        → Returns
            (λ answer t.
              (answer ≡ none)
              × (t.entries fresh ≡ some (create_entry vectors url))
              × (t.table ≡ maps.hashmap_set s.table (created fresh url)))
            (hashmap_get_or_set vectors maps fresh url s)
    unfolding hashmap_get_or_set create_pair
    get_or_set-misses s fresh url missing = rw missing (returns (refl, rw (==_self fresh), refl))

    get_or_set-finds :
        (s : Proxy vectors maps) (fresh : Ptr) (url : vectors.Vec) (pair : Pair vectors)
        → maps.hashmap_get s.table (create_vector_handler_from_str vectors url) ≡ some pair
        → hashmap_get_or_set vectors maps fresh url s ≡ ok (some pair) s
    unfolding hashmap_get_or_set
    get_or_set-finds s fresh url pair found = rw found

    -- If the table has nothing for the URL of a request that parses and would find the new pair
    -- once it is set, and if the memory of the URL gives a host name and connect_via_host_name
    -- answers -1, client_handler returns and leaves the new, empty entry of the URL in the table;
    -- the handler of the next same request, whatever the network answers then, is told to serve
    -- from that entry.
    pub client_handler-abandons :
        (w w' : World vectors llhttp maps) (parser : llhttp.Parser) (p_res res : ParserRes vectors)
        (reads unread : List Read) (host_name : vectors.Vec) (opened : Opened)
        (s : Proxy vectors maps)
        → receive_parsed_request vectors llhttp parser (init_parser vectors none none p_res) reads
          ≡ returned success_parse res unread
        → maps.hashmap_get s.table (create_vector_handler_from_str vectors res.url) ≡ none
        → maps.hashmap_get
            (maps.hashmap_set s.table (created w.fresh res.url))
            (create_vector_handler_from_str vectors res.url)
          ≡ some (created w.fresh res.url)
        → http_parse_host_name vectors (contents res.url ++ w.behind) vectors.vector_create
          ≡ some host_name
        → connect_via_host_name (w.getaddrinfo (contents host_name)) ≡ some opened
        → opened.fd ≡ none
        → Returns
            (λ answer t.
              (answer ≡ no_server)
              × (t.entries w.fresh ≡ some (create_entry vectors res.url))
              × (client_handler vectors llhttp maps w' parser p_res reads t
                  ≡ ok (from_cache (created w.fresh res.url)) t))
            (client_handler vectors llhttp maps w parser p_res reads s)
    unfolding client_handler requested serve dial send_to
    client_handler-abandons w w' parser p_res res reads unread host_name opened s got_it missing
          finds named dialled refused =
        rw got_it (
          Returns-and_then (get_or_set-misses s w.fresh res.url missing)
            λ answer t (nothing, put_in, table).
              let again : maps.hashmap_get t.table (create_vector_handler_from_str vectors res.url)
                  ≡ some (created w.fresh res.url) =
                ap
                  (λ (m : maps.Map).
                    maps.hashmap_get m (create_vector_handler_from_str vectors res.url))
                  table
                ∙ finds in
              rw (nothing, named, dialled, refused)
                (returns {s = t} (
                  refl,
                  put_in,
                  rw (get_or_set-finds t w'.fresh res.url (created w.fresh res.url) again),
                )))

-- ===== src/Proxy/Client/Examples.antt =====
-- The theorems about the thread of a client of task3, with lists for vectors and for the table.
use osi.Base.{
  ℕ, ◌≡◌, refl, true, false, none, some, List, [], ◌∷◌, ◌++◌, ◌==◌, arith, if◌then◌else◌,
}
use osi.Machine.{Returns, ok}
use osi.Proxy.Libraries.{HashMaps, Llhttp, list_vectors, list_maps, url_part, message_complete}
use osi.Proxy.Http.{
  ParserRes, got, not_parsed, msg_parsed, init_parser, receive_parsed_request, http_parse_host_name,
}
use osi.Proxy.Cache.{Entry, Pair, key, Proxy, create_entry, create_vector_handler_from_str}
use osi.Proxy.Sockets.{
  Address, Returned, Dialled, first_connection, last_socket, connect_via_host_name,
  connect_via_host_name-Dialled,
}
use osi.Proxy.Send.{Writes, finished, unlock, send_loop, send_cached_content}
use osi.Proxy.Send.Prefix.{AllPrefix, send_cached_content-AllPrefix}
use osi.Proxy.Send.Ends.{once, fill, send_loop-truncates}
use osi.Proxy.Client.{World, no_server, from_cache, client_handler}
use osi.Proxy.Client.Abandoned.{client_handler-abandons}

-- The second of three addresses answers.
abbrev addresses : List Address
addresses =
    record { socket = some 4; connects = false }
    ∷ record { socket = some 5; connects = true }
    ∷ record { socket = none; connects = false }
    ∷ []

connect_via_host_name-Dialled_example :
    Returned
      (λ o. Dialled [] (first_connection addresses) (last_socket none addresses) o)
      (connect_via_host_name (some addresses))
connect_via_host_name-Dialled_example = connect_via_host_name-Dialled addresses

-- An entry with the three bytes of its content
abbrev stored : Entry list_vectors
stored = record {
  url = b'a' ∷ 0 ∷ [];
  content = 1 ∷ 2 ∷ 3 ∷ [];
  curr_size = 0;
  is_full_content = true;
  is_released_by_gb = false;
  is_corresponds_to_cache_size = true;
  ref_counter = 1;
  mutex = false;
}

abbrev growing : Entry list_vectors
growing = record stored { is_full_content = false }

-- `write` takes one byte at a time.
abbrev one_by_one : Writes list_vectors
one_by_one k wanted = if wanted == 0 then none else some 1

send_cached_content-AllPrefix_example : AllPrefix list_vectors (
    send_cached_content list_vectors
      (λ k e. record e { content = e.content ++ 7 ∷ [] })
      one_by_one
      5
      growing)
send_cached_content-AllPrefix_example =
    send_cached_content-AllPrefix list_vectors (λ k e. record e { content = e.content ++ 7 ∷ [] })
      (λ k e. (7 ∷ [], refl)) one_by_one (λ k wanted n e. ground arith) 5 growing

-- The client has sent all three bytes, and two more arrive.
send_loop-truncates_example :
    send_loop list_vectors
        (once list_vectors 9 (fill list_vectors (4 ∷ 5 ∷ [])))
        one_by_one
        6
        8
        3
        growing
        (1 ∷ 2 ∷ 3 ∷ [])
      ≡ finished 11 (unlock list_vectors (fill list_vectors (4 ∷ 5 ∷ []) growing)) (1 ∷ 2 ∷ 3 ∷ [])
    × ((fill list_vectors (4 ∷ 5 ∷ []) growing).content ≡ growing.content ++ 4 ∷ 5 ∷ [])
send_loop-truncates_example =
    send_loop-truncates list_vectors one_by_one 5 8 growing (1 ∷ 2 ∷ 3 ∷ []) (4 ∷ 5 ∷ [])

-- A parser that takes the second piece of input for the rest of the URL, and the request is over.
abbrev url_only : Llhttp
url_only = record {
  Parser = ℕ;
  init = λ t. t;
  next = λ p bytes. p;
  events = λ p bytes. url_part bytes ∷ message_complete ∷ [];
  errno = λ p bytes. 0;
  hpe_ok = 0;
  http_get = 1;
}

abbrev start : ParserRes list_vectors
start = record {
  parse_state_msg = not_parsed;
  parse_state_url = not_parsed;
  parse_state_method = not_parsed;
  parse_state_version = not_parsed;
  method = 0;
  minor_version = 0;
  major_version = 0;
  full_msg = [];
  url = [];
}

abbrev maps : HashMaps (Pair list_vectors) (key list_vectors)
maps = list_maps (key list_vectors)

abbrev no_cache : Proxy list_vectors maps
no_cache = record { entries = λ _. none; table = [] }

-- No host has an address, and a 0 byte lies behind the URL.
abbrev unreachable : World list_vectors url_only maps
unreachable = record {
  fresh = 5;
  behind = 0 ∷ [];
  getaddrinfo = λ host. some [];
  writes = one_by_one;
  fuel = 9;
}

client_handler-abandons_example :
    Returns
      (λ answer t.
        (answer ≡ no_server)
        × (t.entries 5 ≡ some (create_entry list_vectors (b'h' ∷ [])))
        × (client_handler list_vectors url_only maps unreachable 0 start (got (b'h' ∷ []) ∷ []) t
            ≡ ok
                (from_cache (record {
                  url = create_vector_handler_from_str list_vectors (b'h' ∷ []);
                  entry = 5;
                }))
                t))
      (client_handler list_vectors url_only maps unreachable 0 start
        (got (b'h' ∷ []) ∷ [])
        no_cache)
unfolding receive_parsed_request init_parser http_parse_host_name connect_via_host_name
    create_vector_handler_from_str
client_handler-abandons_example =
    client_handler-abandons list_vectors url_only maps unreachable unreachable 0 start
      (record start { parse_state_msg = msg_parsed; full_msg = b'h' ∷ []; url = b'h' ∷ [] })
      (got (b'h' ∷ []) ∷ []) [] (b'h' ∷ 0 ∷ []) (record { fd = none; open_fds = [] }) no_cache refl
      refl refl refl refl refl

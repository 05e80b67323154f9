-- ===== src/Proxy/Client.antt =====
-- `client_handler` of task3/src/main.c: the thread that serves one client, from its request to the
-- call of `send_cached_content`.
pub mod Abandoned
pub mod Request
mod Examples
use osi.Base.{
  ℕ, zero, suc, ◌+◌, ◌-◌, ◌≡◌, Bool, true, false, Option, none, some, List, [], ◌∷◌, ◌++◌, ◌==◌,
  if◌then◌else◌,
}
use osi.Machine.{Cmd, Stop, fault, blocked, no_fuel, stop, pure, ok, ◌>>=◌}
use osi.Proxy.Libraries.{Vectors, Llhttp, HashMaps}
use osi.Proxy.Http.{
  ParserRes, Read, Received, returned, waiting, undefined, init_parser, receive_parsed_request,
  http_parse_host_name, success_parse,
}
use osi.Proxy.Cache.{Ptr, Pair, key, Proxy, hashmap_get_or_set, create_vector_handler_from_str}
use osi.Proxy.Sockets.{Address, Opened, connect_via_host_name}
use osi.Proxy.Slice.{slice}

-- How the loop that sends the request goes, with the bytes that the server has got: all are sent,
-- `write` has answered -1, or the fuel is used up.
pub data Requested : Type 0 where
  sent_all : List ℕ → Requested
  broken : List ℕ → Requested
  requesting : List ℕ → Requested

abbrev RequestLoop : Type 0
RequestLoop = (k written_counter : ℕ) → List ℕ → Requested

-- Behind the `write`
unfoldable pub after_request :
    RequestLoop
    → (k written_counter : ℕ) → (full_msg sent : List ℕ) → (written : Option ℕ) → Requested
after_request loop k written_counter full_msg sent none = broken sent
after_request loop k written_counter full_msg sent (some n) =
    loop k (written_counter + n) (sent ++ slice written_counter n full_msg)

-- The `k`-th call of `write` with so many bytes answers `writes k wanted`.
unfoldable pub send_request :
    (writes : ℕ → (wanted : ℕ) → Option ℕ)
    → (full_msg : List ℕ) → (to_write fuel k written_counter : ℕ) → List ℕ
    → Requested
unfolding after_request
send_request writes full_msg to_write zero k written_counter sent = requesting sent
send_request writes full_msg to_write (suc fuel) k written_counter sent =
    let next =
      after_request (send_request writes full_msg to_write fuel) (suc k) written_counter full_msg
        sent (writes k (to_write - written_counter)) in
    if written_counter == to_write then sent_all sent else next

module _ (vectors : Vectors) where
  open vectors use {vector_create, vector_size, contents}

  -- Where the thread ends, or goes on with `send_cached_content`: of the pair that the table had,
  -- or of the pair of the new request, which `server_handler` fills from the socket.
  pub data Served : Type 0 where
    bad_request : Served
    from_cache : Pair vectors → Served
    no_server : Served
    not_sent : Served
    fetched : (server_fd : ℕ) → Option (Pair vectors) → Served

  module _ (llhttp : Llhttp) (maps : HashMaps (Pair vectors) (key vectors)) where
    open llhttp use {Parser}
    open maps use {hashmap_get}

    -- What the libraries and the operating system answer: the address of a new entry, the bytes in
    -- memory behind the URL, the addresses of a host, the answers of `write` to the server.
    pub record World : Type 0 where
      pub fresh : Ptr
      pub behind : List ℕ
      pub getaddrinfo : List ℕ → Option (List Address)
      pub writes : ℕ → (wanted : ℕ) → Option ℕ
      pub fuel : ℕ

    -- The lines behind the request that has been sent
    unfoldable pub start_fetch :
        (server_fd : ℕ) → ParserRes vectors → Requested → Cmd (Proxy vectors maps) Served
    unfolding create_vector_handler_from_str
    start_fetch server_fd res (requesting sent) = λ _. stop no_fuel
    start_fetch server_fd res (broken sent) = pure not_sent
    start_fetch server_fd res (sent_all sent) = do
      pair ← (λ s. ok (hashmap_get s.table (create_vector_handler_from_str vectors res.url)) s)
      pure (fetched server_fd pair)

    -- The connection is made, or -1, or `connect_via_host_name` has not returned.
    unfoldable pub send_to :
        World → ParserRes vectors → Option Opened → Cmd (Proxy vectors maps) Served
    unfolding start_fetch send_request
    send_to w res none = λ _. stop fault
    send_to w res (some o) = elim o.fd [
      | none ↦ pure no_server
      | some server_fd ↦
          start_fetch server_fd res
            (send_request w.writes (contents res.full_msg) (vector_size res.full_msg) w.fuel 0 0 [])
    ]

    -- With the host name, or without one where a read has left the memory of the URL
    unfoldable pub dial :
        World → ParserRes vectors → Option vectors.Vec → Cmd (Proxy vectors maps) Served
    unfolding send_to connect_via_host_name
    dial w res none = λ _. stop fault
    dial w res (some host_name) =
        send_to w res (connect_via_host_name (w.getaddrinfo (contents host_name)))

    unfoldable pub serve :
        World → ParserRes vectors → Option (Pair vectors) → Cmd (Proxy vectors maps) Served
    unfolding dial http_parse_host_name
    serve w res (some pair_cached) = pure (from_cache pair_cached)
    serve w res none =
        dial w res (http_parse_host_name vectors (contents res.url ++ w.behind) vector_create)

    -- Behind the return of `receive_parsed_request`
    unfoldable pub requested : World → Received vectors llhttp → Cmd (Proxy vectors maps) Served
    unfolding hashmap_get_or_set serve
    requested w (waiting res) = λ _. stop blocked
    requested w undefined = λ _. stop fault
    requested w (returned code res unread) =
        if code == success_parse
        then (do
          pair_cached ← hashmap_get_or_set vectors maps w.fresh res.url
          serve w res pair_cached)
        else pure bad_request

    unfoldable pub client_handler :
        World → Parser → ParserRes vectors → List Read → Cmd (Proxy vectors maps) Served
    unfolding receive_parsed_request init_parser requested
    client_handler w parser p_res reads =
        requested w
          (receive_parsed_request vectors llhttp parser (init_parser vectors none none p_res) reads)

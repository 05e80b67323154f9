-- ===== src/Proxy/Http.antt =====
-- task3/src/http_parser.c: the callbacks of the HTTP parser, the receive loop and its checks.
pub mod Receive
pub mod Host
use osi.Base.{
  ℕ, zero, suc, ◌-◌, ◌≡◌, Bool, true, false, Option, none, some, List, [], ◌∷◌, ◌++◌, ◌&&◌, ◌||◌,
  not, ◌==◌, if◌then◌else◌, drop,
}
use osi.Proxy.Libraries.{
  Vectors, Llhttp, Event, url_part, url_complete, message_complete, method_complete,
  version_complete,
}

pub data ParseState : Type 0 where
  not_parsed msg_parsed url_parsed method_parsed version_parsed : ParseState

-- `==` at the one state with which the code compares each field
abbrev pub is_msg_parsed : ParseState → Bool
is_msg_parsed msg_parsed = true
is_msg_parsed _ = false

abbrev pub is_method_parsed : ParseState → Bool
is_method_parsed method_parsed = true
is_method_parsed _ = false

abbrev pub is_version_parsed : ParseState → Bool
is_version_parsed version_parsed = true
is_version_parsed _ = false

abbrev pub parse_error : ℕ
parse_error = 2

abbrev pub success_parse : ℕ
success_parse = 0

-- One answer of `read` on a socket: some bytes, none at the end of the stream, or -1.
pub data Read : Type 0 where
  got : List ℕ → Read
  failed : Read

module _ (vectors : Vectors) where
  open vectors use {Vec, vector_create, vector_add}

  pub record ParserRes : Type 0 where
    pub parse_state_msg : ParseState
    pub parse_state_url : ParseState
    pub parse_state_method : ParseState
    pub parse_state_version : ParseState
    pub method : ℕ
    pub minor_version : ℕ
    pub major_version : ℕ
    pub full_msg : Vec
    pub url : Vec

  unfoldable pub vector_push_str : Vec → List ℕ → Vec
  vector_push_str v [] = v
  vector_push_str v (c ∷ cs) = vector_push_str (vector_add v c) cs

  unfoldable pub on_url_complete : ParserRes → ParserRes
  on_url_complete r = record r { parse_state_url = url_parsed }

  unfoldable pub on_message_complete : ParserRes → ParserRes
  on_message_complete r = record r { parse_state_msg = msg_parsed }

  unfoldable pub on_method_complete : (method : ℕ) → ParserRes → ParserRes
  on_method_complete method r = record r { parse_state_method = method_parsed; method = method }

  unfoldable pub on_version_complete : (major minor : ℕ) → ParserRes → ParserRes
  on_version_complete major minor r = record r {
    parse_state_version = version_parsed;
    major_version = major;
    minor_version = minor;
  }

  unfoldable pub on_url : List ℕ → ParserRes → ParserRes
  unfolding vector_push_str
  on_url part r = record r { url = vector_push_str r.url part }

  -- `full_msg` or `url` is NULL where the caller wants a new vector.
  unfoldable pub init_parser : (full_msg url : Option Vec) → ParserRes → ParserRes
  init_parser full_msg url r = record r {
    full_msg = elim full_msg [ none ↦ vector_create | some v ↦ v ];
    url = elim url [ none ↦ vector_create | some v ↦ v ];
    parse_state_msg = not_parsed;
    parse_state_method = not_parsed;
    parse_state_version = not_parsed;
    parse_state_url = not_parsed;
  }

  -- llhttp calls the callback of each event.
  unfoldable pub callback : Event → ParserRes → ParserRes
  unfolding on_url on_url_complete on_message_complete on_method_complete on_version_complete
  callback (url_part part) r = on_url part r
  callback url_complete r = on_url_complete r
  callback message_complete r = on_message_complete r
  callback (method_complete method) r = on_method_complete method r
  callback (version_complete major minor) r = on_version_complete major minor r

  unfoldable pub callbacks : List Event → ParserRes → ParserRes
  unfolding callback
  callbacks [] r = r
  callbacks (e ∷ es) r = callbacks es (callback e r)

  unfoldable pub is_version_acceptable : ParserRes → Bool
  is_version_acceptable r = (r.minor_version == 0 || r.minor_version == 1) && (r.major_version == 1)

  module _ (llhttp : Llhttp) where
    open llhttp use {Parser, next, events, errno, hpe_ok, http_get}

    unfoldable pub is_method_acceptable : ParserRes → Bool
    is_method_acceptable r = r.method == http_get

    -- The parser's new state, the results, and what the function returns. NULL is `none`.
    unfoldable pub parse_http :
        Option Parser → Option (List ℕ) → ParserRes → Option Parser × ParserRes × ℕ
    unfolding callbacks
    parse_http (some p) (some bytes) r = (
      some (next p bytes),
      callbacks (events p bytes) r,
      if errno p bytes == hpe_ok then 0 else 1,
    )
    parse_http none bytes r = (none, r, 1)
    parse_http p bytes r = (p, r, 1)

    -- How a call of `receive_parsed_request` goes on the answers of `read` so far: it has returned
    -- a code and left the other answers unread, it waits for more, or it has passed -1 as the
    -- length of the data, which is undefined.
    pub data Received : Type 0 where
      returned : (code : ℕ) (res : ParserRes) (unread : List Read) → Received
      waiting : ParserRes → Received
      undefined : Received

    -- The three checks behind a `read`, in order: whether the function returns `PARSE_ERROR`.
    unfoldable pub rejects : (parsed : ℕ) → ParserRes → Bool
    unfolding is_version_acceptable is_method_acceptable
    rejects parsed r =
        not (parsed == 0)
        || (is_version_parsed r.parse_state_version && not (is_version_acceptable r)
            || (is_method_parsed r.parse_state_method && not (is_method_acceptable r)))

    unfoldable pub receive_parsed_request : Parser → ParserRes → List Read → Received
    unfolding parse_http rejects vector_push_str
    receive_parsed_request p r [] =
        if is_msg_parsed r.parse_state_msg then returned success_parse r [] else waiting r
    receive_parsed_request p r (failed ∷ reads) =
        if is_msg_parsed r.parse_state_msg
        then returned success_parse r (failed ∷ reads)
        else undefined
    receive_parsed_request p r (got bytes ∷ reads) =
        let pushed = record r { full_msg = vector_push_str r.full_msg bytes } in
        let res = parse_http (some p) (some bytes) pushed in
        let go_on = receive_parsed_request (next p bytes) res.1 reads in
        if is_msg_parsed r.parse_state_msg
        then returned success_parse r (got bytes ∷ reads)
        else (if rejects res.2 res.1 then returned parse_error res.1 reads else go_on)

-- Text in memory: the bytes that are allocated at a pointer, read one by one as far as the answer
-- needs. `none` stands for a read behind their end, which is undefined.
-- Whether `needle` stands at the pointer: it is compared up to the first byte that differs.
unfoldable pub stands_at : (needle s : List ℕ) → Option Bool
stands_at [] s = some true
stands_at (c ∷ cs) [] = none
stands_at (c ∷ cs) (d ∷ s) = let rest = stands_at cs s in if c == d then rest else some false

-- The string at a place where the needle stands, or what the further places give
abbrev place : Option Bool → List ℕ → Option (Option (List ℕ)) → Option (Option (List ℕ))
place none s rest = none
place (some true) s rest = some (some s)
place (some false) s rest = rest

-- `strstr`: the string from the first place on at which `needle` stands, before the 0, or NULL
unfoldable pub strstr : (s needle : List ℕ) → Option (Option (List ℕ))
unfolding stands_at
strstr [] needle = none
strstr (c ∷ cs) needle =
    let rest = if c == 0 then some none else strstr cs needle in
    place (stands_at needle (c ∷ cs)) (c ∷ cs) rest

abbrev pub slash : ℕ
slash = b'/'

-- "http://"
abbrev pub scheme : List ℕ
scheme = b'h' ∷ b't' ∷ b't' ∷ b'p' ∷ b':' ∷ b'/' ∷ b'/' ∷ []

abbrev one_more : Option (Option ℕ) → Option (Option ℕ)
one_more (some (some n)) = some (some (suc n))
one_more r = r

-- `strchr` of a slash: how many bytes are before it, or NULL where the 0 comes first
unfoldable pub strchr_slash : List ℕ → Option (Option ℕ)
strchr_slash [] = none
strchr_slash (c ∷ cs) =
    let rest = one_more (strchr_slash cs) in
    if c == slash then some (some 0) else (if c == 0 then some none else rest)

-- `ptr == end`
abbrev at_end : Option ℕ → Bool
at_end none = false
at_end (some n) = n == 0

-- `++ptr`
abbrev one_less : Option ℕ → Option ℕ
one_less none = none
one_less (some n) = some (n - 1)

module _ (vectors : Vectors) where
  open vectors use {Vec, vector_add}

  -- The loop from `ptr` on: `to_end` is how far `end` is, or none where `end` is NULL.
  unfoldable pub add_host : (to_end : Option ℕ) → (ptr : List ℕ) → Vec → Option Vec
  add_host to_end [] host_name = if at_end to_end then some host_name else none
  add_host to_end (c ∷ cs) host_name =
      let rest = add_host (one_less to_end) cs (vector_add host_name c) in
      if at_end to_end || (c == 0) then some host_name else rest

  -- `vector_add(host_name, '\0')`
  abbrev add_zero : Option Vec → Option Vec
  add_zero none = none
  add_zero (some host_name) = some (vector_add host_name 0)

  abbrev add_up_to : Option (Option ℕ) → (start : List ℕ) → Vec → Option Vec
  add_up_to none start host_name = none
  add_up_to (some end) start host_name = add_zero (add_host end start host_name)

  -- From `start` on
  unfoldable pub add_from : (start : List ℕ) → Vec → Option Vec
  unfolding strchr_slash add_host
  add_from start host_name = add_up_to (strchr_slash start) start host_name

  abbrev add_behind : Option (Option (List ℕ)) → (url : List ℕ) → Vec → Option Vec
  add_behind none url host_name = none
  add_behind (some none) url host_name = add_from url host_name
  add_behind (some (some start)) url host_name = add_from (drop 7 start) host_name

  -- `url` is all that is allocated at the pointer.
  unfoldable pub http_parse_host_name : (url : List ℕ) → Vec → Option Vec
  unfolding strstr add_from
  http_parse_host_name url host_name = add_behind (strstr url scheme) url host_name

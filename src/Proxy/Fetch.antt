-- ===== src/Proxy/Fetch.antt =====
-- `server_handler` of task3/src/main.c: the thread that reads the answer of a server into an entry.
pub mod Answers
use osi.Base.{
  ℕ, zero, suc, ◌+◌, ◌*◌, ◌≡◌, Bool, true, false, Option, none, some, List, [], ◌∷◌, ◌==◌, leb,
  length, if◌then◌else◌,
}
use osi.Proxy.Libraries.{Vectors, Llhttp}
use osi.Proxy.Http.{
  ParserRes, Read, got, failed, is_msg_parsed, init_parser, parse_http, vector_push_str,
}
use osi.Proxy.Cache.{Entry, inc_ref, dec_ref}

-- `BUFFER_SIZE` and `MAX_CACHE_ENTRY_CAPCITY`
abbrev pub buffer_size : ℕ
buffer_size = 4096 * 10

abbrev pub max_cache_entry_capacity : ℕ
max_cache_entry_capacity = 4096 * 40

module _ (vectors : Vectors) (llhttp : Llhttp) where
  open llhttp use {Parser, next}

  -- How the thread goes on the answers of `read`, with those that it has not used: it has marked
  -- the entry as full, it has met the end of the stream or an error of `read`, the parser has
  -- refused the answer, or it waits for more.
  pub data Fetched : Type 0 where
    full : Entry vectors → List Read → Fetched
    closed : Entry vectors → List Read → Fetched
    unparsed : Entry vectors → List Read → Fetched
    fetching : Entry vectors → Fetched

  -- the lines behind the loop
  unfoldable pub finish : Entry vectors → Entry vectors
  finish e = record e { is_full_content = true; ref_counter = dec_ref e.ref_counter }

  unfoldable pub give_up : Entry vectors → Entry vectors
  give_up e = record e { ref_counter = dec_ref e.ref_counter }

  unfoldable pub server_loop :
      (rec_counter : ℕ) → Parser → ParserRes vectors → Entry vectors → List Read → Fetched
  unfolding finish give_up parse_http vector_push_str
  server_loop rec_counter p r e [] =
      if is_msg_parsed r.parse_state_msg then full (finish e) [] else fetching e
  server_loop rec_counter p r e (failed ∷ reads) =
      if is_msg_parsed r.parse_state_msg
      then full (finish e) (failed ∷ reads)
      else closed (give_up e) reads
  server_loop rec_counter p r e (got [] ∷ reads) =
      if is_msg_parsed r.parse_state_msg
      then full (finish e) (got [] ∷ reads)
      else closed (give_up e) reads
  server_loop rec_counter p r e (got (c ∷ cs) ∷ reads) =
      let e' = record e { content = vector_push_str vectors e.content (c ∷ cs) } in
      let res = parse_http vectors llhttp (some p) (some (c ∷ cs)) r in
      let go_on = server_loop rec_counter (next p (c ∷ cs)) res.1 e' reads in
      if is_msg_parsed r.parse_state_msg
      then full (finish e) (got (c ∷ cs) ∷ reads)
      else (if leb max_cache_entry_capacity (rec_counter + length (c ∷ cs))
          then full (finish (record e { is_corresponds_to_cache_size = false })) reads
          else (if res.2 == 0 then go_on else unparsed e' reads))

  unfoldable pub server_handler : Parser → ParserRes vectors → Entry vectors → List Read → Fetched
  unfolding server_loop init_parser
  server_handler p r e reads =
      server_loop 0 p (init_parser vectors (some e.content) none r)
        (record e { ref_counter = inc_ref e.ref_counter }) reads

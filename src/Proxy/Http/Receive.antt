-- ===== src/Proxy/Http/Receive.antt =====
-- What `receive_parsed_request` of task3/src/http_parser.c accepts, what it collects, and what it
-- does when the client has closed the connection.
use osi.Base.{
  ℕ, zero, suc, ◌≡◌, refl, ◌∙◌, sym, ap, Bool, true, false, List, [], ◌∷◌, ◌++◌, arith, ◌==◌,
  ==_self, Bool-cases, inl, inr, ◌⊎◌, if◌then◌else◌,
}
use mathlib.Core.Path.{subst}
use mathlib.Core.List.{append_assoc, append-nil}
use osi.Proxy.Libraries.{
  Vectors, Llhttp, Event, url_part, url_complete, message_complete, method_complete,
  version_complete,
}
use osi.Proxy.Http.{
  Read, got, failed, ParserRes, is_msg_parsed, is_version_parsed, is_method_parsed, vector_push_str,
  callback, callbacks, is_version_acceptable, is_method_acceptable, parse_http, rejects, Received,
  returned, waiting, undefined, receive_parsed_request, success_parse, parse_error,
}

-- The bytes of a list of answers of `read`.
unfoldable pub bytes_of : List Read → List ℕ
bytes_of [] = []
bytes_of (got bytes ∷ reads) = bytes ++ bytes_of reads
bytes_of (failed ∷ reads) = bytes_of reads

-- The parts of the URL among the events.
unfoldable pub url_of : List Event → List ℕ
url_of [] = []
url_of (url_part part ∷ es) = part ++ url_of es
url_of (url_complete ∷ es) = url_of es
url_of (message_complete ∷ es) = url_of es
url_of (method_complete m ∷ es) = url_of es
url_of (version_complete a b ∷ es) = url_of es

module _ (vectors : Vectors) where
  open vectors use {Vec, contents, contents-add}

  pub contents-vector_push_str :
      (v : Vec) (cs : List ℕ) → contents (vector_push_str vectors v cs) ≡ contents v ++ cs
  unfolding vector_push_str
  contents-vector_push_str v [] = sym (append-nil (contents v))
  contents-vector_push_str v (c ∷ cs) =
      contents-vector_push_str (vectors.vector_add v c) cs
      ∙ ap (λ (l : List ℕ). l ++ cs) (contents-add v c)
      ∙ append_assoc (contents v) (c ∷ []) cs

  full_msg-callback :
      (e : Event) (r : ParserRes vectors) → (callback vectors e r).full_msg ≡ r.full_msg
  unfolding callback
  full_msg-callback (url_part part) r = refl
  full_msg-callback url_complete r = refl
  full_msg-callback message_complete r = refl
  full_msg-callback (method_complete m) r = refl
  full_msg-callback (version_complete a b) r = refl

  full_msg-callbacks :
      (es : List Event) (r : ParserRes vectors) → (callbacks vectors es r).full_msg ≡ r.full_msg
  unfolding callbacks
  full_msg-callbacks [] r = refl
  full_msg-callbacks (e ∷ es) r =
      full_msg-callbacks es (callback vectors e r) ∙ full_msg-callback e r

  url-callback :
      (e : Event) (r : ParserRes vectors)
      → contents (callback vectors e r).url ≡ contents r.url ++ url_of (e ∷ [])
  unfolding callback url_of
  url-callback (url_part part) r =
      contents-vector_push_str r.url part
      ∙ ap (λ (l : List ℕ). contents r.url ++ l) (sym (append-nil part))
  url-callback url_complete r = sym (append-nil _)
  url-callback message_complete r = sym (append-nil _)
  url-callback (method_complete m) r = sym (append-nil _)
  url-callback (version_complete a b) r = sym (append-nil _)

  url_of-cons : (e : Event) (es : List Event) → url_of (e ∷ []) ++ url_of es ≡ url_of (e ∷ es)
  unfolding url_of
  url_of-cons (url_part part) es = ap (λ (l : List ℕ). l ++ url_of es) (append-nil part)
  url_of-cons url_complete es = refl
  url_of-cons message_complete es = refl
  url_of-cons (method_complete m) es = refl
  url_of-cons (version_complete a b) es = refl

  pub url-callbacks :
      (es : List Event) (r : ParserRes vectors)
      → contents (callbacks vectors es r).url ≡ contents r.url ++ url_of es
  unfolding callbacks url_of
  url-callbacks [] r = sym (append-nil _)
  url-callbacks (e ∷ es) r =
      url-callbacks es (callback vectors e r)
      ∙ ap (λ (l : List ℕ). l ++ url_of es) (url-callback e r)
      ∙ append_assoc (contents r.url) (url_of (e ∷ [])) (url_of es)
      ∙ ap (λ (l : List ℕ). contents r.url ++ l) (url_of-cons e es)

  module _ (llhttp : Llhttp) where
    open llhttp use {Parser, next, events, errno, hpe_ok, http_get}

    -- What the checks behind each `read` let pass.
    abbrev pub Accepted : ParserRes vectors → Type 0
    Accepted r =
        (is_version_parsed r.parse_state_version ≡ true → is_version_acceptable vectors r ≡ true)
        × (is_method_parsed r.parse_state_method ≡ true
            → is_method_acceptable vectors llhttp r ≡ true)

    rejects-Accepted :
        (code : ℕ) (r : ParserRes vectors) → rejects vectors llhttp code r ≡ false → Accepted r
    unfolding rejects
    rejects-Accepted code r e = (λ v. ground arith, λ m. ground arith)

    rejects_of_Accepted : (r : ParserRes vectors) → Accepted r → rejects vectors llhttp 0 r ≡ false
    unfolding rejects
    rejects_of_Accepted r a = ground (arith, a)

    -- The state behind one `read` and its `llhttp_execute`.
    abbrev after_read : Parser → List ℕ → ParserRes vectors → ParserRes vectors
    after_read p bytes r =
        callbacks vectors (events p bytes)
          (record r { full_msg = vector_push_str vectors r.full_msg bytes })

    abbrev parsed : Parser → List ℕ → ℕ
    parsed p bytes = if errno p bytes == hpe_ok then 0 else 1

    full_msg-after_read :
        (p : Parser) (bytes : List ℕ) (r : ParserRes vectors)
        → contents (after_read p bytes r).full_msg ≡ contents r.full_msg ++ bytes
    full_msg-after_read p bytes r =
        ap contents (full_msg-callbacks (events p bytes) _)
        ∙ contents-vector_push_str r.full_msg bytes

    -- Every byte that was read, in order, is in `full_msg` or still unread.
    abbrev pub Collects : List ℕ → Received vectors llhttp → Type 0
    Collects total (returned code res unread) = contents res.full_msg ++ bytes_of unread ≡ total
    Collects total (waiting res) = contents res.full_msg ≡ total
    Collects total undefined = Unit

    receive-Collects_read :
        (p : Parser) (r : ParserRes vectors) (bytes : List ℕ) (reads : List Read)
        → Collects
            (contents (after_read p bytes r).full_msg ++ bytes_of reads)
            (receive_parsed_request vectors llhttp (next p bytes) (after_read p bytes r) reads)
        → Collects (contents r.full_msg ++ (bytes ++ bytes_of reads)) (
            if rejects vectors llhttp (parsed p bytes) (after_read p bytes r)
            then returned parse_error (after_read p bytes r) reads
            else receive_parsed_request vectors llhttp (next p bytes) (after_read p bytes r) reads)
    receive-Collects_read p r bytes reads rest =
        let grown =
          ap (λ (l : List ℕ). l ++ bytes_of reads) (full_msg-after_read p bytes r)
          ∙ append_assoc (contents r.full_msg) bytes (bytes_of reads) in
        elim (Bool-cases (rejects vectors llhttp (parsed p bytes) (after_read p bytes r))) [
          | inl bad ↦ rw bad grown
          | inr good ↦ rw good (
              subst
                (λ total. Collects total (
                  receive_parsed_request vectors llhttp (next p bytes) (after_read p bytes r)
                    reads))
                grown rest)
        ]

    -- For any answers of read, the bytes that receive_parsed_request has put into full_msg,
    -- followed by those of the answers that it left unread, are full_msg as it was and all bytes in
    -- order, unless a read has failed.
    pub receive-Collects :
        (p : Parser) (r : ParserRes vectors) (reads : List Read)
        → Collects
            (contents r.full_msg ++ bytes_of reads)
            (receive_parsed_request vectors llhttp p r reads)
    unfolding receive_parsed_request bytes_of parse_http
    receive-Collects p r [] = elim (Bool-cases (is_msg_parsed r.parse_state_msg)) [
      | inl done ↦ rw done
      | inr more ↦ rw more (sym (append-nil _))
    ]
    receive-Collects p r (failed ∷ reads) = elim (Bool-cases (is_msg_parsed r.parse_state_msg)) [
      | inl done ↦ rw done
      | inr more ↦ rw more tt
    ]
    receive-Collects p r (got bytes ∷ reads) = elim (Bool-cases (is_msg_parsed r.parse_state_msg)) [
      | inl done ↦ rw done
      | inr more ↦ rw more (
          receive-Collects_read p r bytes reads
            (receive-Collects (next p bytes) (after_read p bytes r) reads))
    ]

    abbrev has_failed : List Read → Bool
    has_failed [] = false
    has_failed (failed ∷ reads) = true
    has_failed (got bytes ∷ reads) = has_failed reads

    -- A return is a success behind a complete message that all checks let pass, or the parse error.
    -- A length of -1 is passed on only behind a `read` that has failed.
    abbrev pub Sound : List Read → Received vectors llhttp → Type 0
    Sound reads (returned code res unread) =
        ((code ≡ success_parse) × (is_msg_parsed res.parse_state_msg ≡ true) × Accepted res)
        ⊎ (code ≡ parse_error)
    Sound reads (waiting res) = is_msg_parsed res.parse_state_msg ≡ false
    Sound reads undefined = has_failed reads ≡ true

    -- If the results at the start pass the checks, receive_parsed_request on any answers of read
    -- returns success only with a complete message whose parsed version and method the checks
    -- accept, or the parse error; it waits only while the message is not complete, and passes on -1
    -- as a length only if a read has failed.
    pub receive-Sound :
        (p : Parser) (r : ParserRes vectors) (reads : List Read)
        → Accepted r
        → Sound reads (receive_parsed_request vectors llhttp p r reads)
    unfolding receive_parsed_request parse_http
    receive-Sound p r [] ok_so_far = elim (Bool-cases (is_msg_parsed r.parse_state_msg)) [
      | inl done ↦ rw done (inl (refl, done, ok_so_far))
      | inr more ↦ rw more more
    ]
    receive-Sound p r (failed ∷ reads) ok_so_far =
        elim (Bool-cases (is_msg_parsed r.parse_state_msg)) [
          | inl done ↦ rw done (inl (refl, done, ok_so_far))
          | inr more ↦ rw more refl
        ]
    receive-Sound p r (got bytes ∷ reads) ok_so_far =
        elim (Bool-cases (is_msg_parsed r.parse_state_msg)) [
          | inl done ↦ rw done (inl (refl, done, ok_so_far))
          | inr more ↦
              rw more
                (elim (Bool-cases
                  (rejects vectors llhttp (parsed p bytes) (after_read p bytes r))) [
                    | inl bad ↦ rw bad (inr refl)
                    | inr good ↦ rw good (
                        receive-Sound (next p bytes) (after_read p bytes r) reads
                          (rejects-Accepted (parsed p bytes) (after_read p bytes r) good))
                  ])
        ]

    -- `n` times the answer of `read` at the end of the stream
    abbrev pub end_of_stream : ℕ → List Read
    end_of_stream zero = []
    end_of_stream (suc n) = got [] ∷ end_of_stream n

    -- If the message is not complete, the results pass the checks, and the parser does nothing on
    -- no bytes, then after any number of reads at the end of the stream receive_parsed_request has
    -- not returned and has changed nothing.
    pub receive-end_of_stream :
        (p : Parser) (r : ParserRes vectors)
        → (next p [] ≡ p)
        → (events p [] ≡ [])
        → (errno p [] ≡ hpe_ok)
        → is_msg_parsed r.parse_state_msg ≡ false
        → Accepted r
        → (n : ℕ) → receive_parsed_request vectors llhttp p r (end_of_stream n) ≡ waiting r
    unfolding receive_parsed_request parse_http vector_push_str callbacks
    receive-end_of_stream p r same silent fine more ok_so_far zero = rw more
    receive-end_of_stream p r same silent fine more ok_so_far (suc n) =
        rw (more, fine, silent, same, rejects_of_Accepted r ok_so_far, ==_self hpe_ok)
          (receive-end_of_stream p r same silent fine more ok_so_far n)

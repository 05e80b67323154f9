-- ===== src/Proxy/Http/Host.antt =====
-- What `http_parse_host_name` of task3/src/http_parser.c takes for the name of the host.
use osi.Base.{
  ℕ, ◌-◌, ◌≡◌, refl, ◌∙◌, ap, Bool, true, false, length, inl, inr, ◌⊎◌, Bool-cases, Option, none,
  some, List, [], ◌∷◌, ◌++◌, arith, ◌==◌, ◌||◌,
}
use mathlib.Core.List.{append_assoc}
use osi.Proxy.Libraries.{Vectors, Event}
use osi.Proxy.Http.{
  ParserRes, strstr, stands_at, strchr_slash, add_host, add_from, slash, scheme,
  http_parse_host_name, callbacks, vector_push_str,
}
use osi.Proxy.Http.Receive.{url_of, url-callbacks, contents-vector_push_str}

abbrev pub contains : ℕ → List ℕ → Bool
contains a [] = false
contains a (c ∷ cs) = (c == a) || contains a cs

-- A needle with a byte that the string does not have stands nowhere.
stands_at-without :
    (c : ℕ) (needle s : List ℕ)
    → contains c needle ≡ true
    → contains c s ≡ false
    → (stands_at needle s ≡ none) ⊎ (stands_at needle s ≡ some false)
unfolding stands_at
stands_at-without c [] s has lacks = absurd (ground arith)
stands_at-without c (x ∷ xs) [] has lacks = inl refl
stands_at-without c (x ∷ xs) (d ∷ s) has lacks = elim (Bool-cases (x == d)) [
  | inl same ↦ rw same (stands_at-without c xs s (ground arith) (ground arith))
  | inr other ↦ inr (rw other)
]

strstr-unterminated :
    (c : ℕ) (needle s : List ℕ)
    → contains c needle ≡ true
    → contains c s ≡ false
    → contains 0 s ≡ false
    → strstr s needle ≡ none
unfolding strstr
strstr-unterminated c needle [] has lacks no_zero = refl
strstr-unterminated c needle (d ∷ s) has lacks no_zero =
    elim (stands_at-without c needle (d ∷ s) has lacks) [
      | inl over ↦ rw over
      | inr other ↦
          rw other
            (ground (arith, strstr-unterminated c needle s has (ground arith) (ground arith)))
    ]

strchr_slash-found :
    (host path : List ℕ)
    → contains 0 host ≡ false
    → contains slash host ≡ false
    → strchr_slash (host ++ slash ∷ path) ≡ some (some (length host))
unfolding strchr_slash
strchr_slash-found [] path no_zero no_slash = refl
strchr_slash-found (c ∷ cs) path no_zero no_slash =
    rw (strchr_slash-found cs path (ground arith) (ground arith)) (ground arith)

strchr_slash-unterminated :
    (s : List ℕ) → contains 0 s ≡ false → contains slash s ≡ false → strchr_slash s ≡ none
unfolding strchr_slash
strchr_slash-unterminated [] no_zero no_slash = refl
strchr_slash-unterminated (c ∷ cs) no_zero no_slash =
    rw (strchr_slash-unterminated cs (ground arith) (ground arith)) (ground arith)

module _ (vectors : Vectors) where
  open vectors use {Vec, contents, contents-add}

  -- what `host_name` holds when the function has added `name` and the 0 byte
  abbrev pub Holds : Vec → List ℕ → Option Vec → Type 0
  Holds v name r = (w : Vec) × (r ≡ some w) × (contents w ≡ contents v ++ (name ++ 0 ∷ []))

  add_host-found :
      (host path : List ℕ) (v : Vec) (n : ℕ)
      → n ≡ length host
      → contains 0 host ≡ false
      → add_host vectors (some n) (host ++ slash ∷ path) v ≡ some (vector_push_str vectors v host)
  unfolding add_host vector_push_str
  add_host-found [] path v n e no_zero = rw e refl
  add_host-found (c ∷ cs) path v n e no_zero =
      rw goes_on
        (add_host-found cs path (vectors.vector_add v c) (n - 1) (omega (arith, e)) (ground arith))
    where
      goes_on : ((n == 0) || (c == 0)) ≡ false
      goes_on = ground (arith, e)

  -- the vector that the callbacks have filled, if it was empty
  filled :
      (r : ParserRes vectors) (es : List Event)
      → contents r.url ≡ []
      → contents (callbacks vectors es r).url ≡ url_of es
  filled r es empty = url-callbacks vectors es r ∙ ap (λ (l : List ℕ). l ++ url_of es) empty

  -- If url was empty and the parser reports a URL of the form http://host/path, with no 0 byte and
  -- no slash in host, http_parse_host_name adds host and a 0 byte, whatever path is and whatever
  -- lies behind the URL.
  pub host_name-absolute :
      (v : Vec) (r : ParserRes vectors) (es : List Event) (host path : List ℕ)
      → contents r.url ≡ []
      → url_of es ≡ scheme ++ (host ++ slash ∷ path)
      → contains 0 host ≡ false
      → contains slash host ≡ false
      → Holds v host (http_parse_host_name vectors (contents (callbacks vectors es r).url) v)
  unfolding http_parse_host_name strstr stands_at add_from
  host_name-absolute v r es host path empty form no_zero no_slash =
      rw
        (
          filled r es empty ∙ form,
          strchr_slash-found host path no_zero no_slash,
          add_host-found host path v (length host) refl no_zero,
        )
        (
          _,
          refl,
          contents-add _ 0
              ∙ ap (λ (l : List ℕ). l ++ 0 ∷ []) (contents-vector_push_str vectors v host)
              ∙ append_assoc (contents v) host (0 ∷ []),
        )

  -- a URL in which nothing ends the search for the scheme, or the one for the slash
  abbrev pub EndsNowhere : List ℕ → Type 0
  EndsNowhere url =
      (contains b':' url ≡ false)
      ⊎ ((host : List ℕ) × (url ≡ scheme ++ host) × (contains slash host ≡ false))

  -- If url was empty and the parser reports a URL without a 0 byte that has no colon, or is
  -- http://host with no slash in host, http_parse_host_name reads behind the end of the vector that
  -- the callbacks have filled.
  pub host_name-of_callbacks :
      (v : Vec) (r : ParserRes vectors) (es : List Event)
      → contents r.url ≡ []
      → contains 0 (url_of es) ≡ false
      → EndsNowhere (url_of es)
      → http_parse_host_name vectors (contents (callbacks vectors es r).url) v ≡ none
  unfolding http_parse_host_name strstr stands_at add_from
  host_name-of_callbacks v r es empty no_zero (inl no_colon) =
      rw (filled r es empty, strstr-unterminated b':' scheme (url_of es) refl no_colon no_zero)
  host_name-of_callbacks v r es empty no_zero (inr (host, form, no_slash)) =
      rw (filled r es empty ∙ form, strchr_slash-unterminated host (rw form at no_zero) no_slash)

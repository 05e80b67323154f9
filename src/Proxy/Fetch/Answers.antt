-- ===== src/Proxy/Fetch/Answers.antt =====
-- What `server_handler` of task3/src/main.c leaves in the entry, on every way out.
use osi.Base.{
  ℕ, ◌+◌, ◌^◌, ◌≤◌, ◌<◌, ◌≡◌, refl, ◌∙◌, ap, true, false, List, [], ◌∷◌, ◌++◌, ◌==◌, leb, length,
  arith, Bool-cases, inl, inr, if◌then◌else◌,
}
use mathlib.Core.List.{append_assoc}
use osi.Proxy.Libraries.{Vectors, Llhttp}
use osi.Proxy.Http.{
  ParserRes, Read, got, failed, is_msg_parsed, parse_http, vector_push_str, callbacks,
}
use osi.Proxy.Http.Receive.{bytes_of, contents-vector_push_str}
use osi.Proxy.Cache.{Entry, dec_ref}
use osi.Proxy.Cache.Memory.{inc_ref-suc, dec_ref-pred}
use osi.Proxy.Fetch.{
  buffer_size, max_cache_entry_capacity, Fetched, full, closed, unparsed, fetching, finish, give_up,
  server_loop, server_handler,
}

-- `read` never gives more than the buffer holds.
abbrev pub Fits : List Read → Type 0
Fits [] = Unit
Fits (got bytes ∷ reads) = (length bytes ≤ buffer_size) × Fits reads
Fits (failed ∷ reads) = Fits reads

module _ (vectors : Vectors) (llhttp : Llhttp) where
  open vectors use {contents}

  -- An entry that has taken in bytes, so that with the bytes `unread` there are `total`.
  abbrev Took : Entry vectors → List ℕ → List Read → Entry vectors → Type 0
  Took e total unread d =
      (contents d.content ++ bytes_of unread ≡ total)
      × (d.is_corresponds_to_cache_size ≡ e.is_corresponds_to_cache_size)

  -- The ways out: `n` is the counter of references before the thread counted itself.
  abbrev pub Leaves : Entry vectors → ℕ → List ℕ → Fetched vectors llhttp → Type 0
  Leaves e n total (full d unread) =
      Took e total unread d × (d.is_full_content ≡ true) × (d.ref_counter ≡ n)
  Leaves e n total (closed d unread) =
      Took e total unread d × (d.is_full_content ≡ e.is_full_content) × (d.ref_counter ≡ n)
  Leaves e n total (unparsed d unread) =
      Took e total unread d × (d.is_full_content ≡ e.is_full_content) × (d.ref_counter ≡ n + 1)
  Leaves e n total (fetching d) =
      Took e total [] d × (d.is_full_content ≡ e.is_full_content) × (d.ref_counter ≡ n + 1)

  -- the size test of the loop, whose `rec_counter` stays 0
  small_test :
      (c : ℕ) (cs : List ℕ)
      → length (c ∷ cs) ≤ buffer_size
      → leb max_cache_entry_capacity (0 + length (c ∷ cs)) ≡ false
  small_test c cs h = ground arith

  abbrev grown : List ℕ → Entry vectors → Entry vectors
  grown bytes d = record d { content = vector_push_str vectors d.content bytes }

  abbrev parsed : llhttp.Parser → List ℕ → ℕ
  parsed p bytes = if llhttp.errno p bytes == llhttp.hpe_ok then 0 else 1

  abbrev after : llhttp.Parser → List ℕ → ParserRes vectors → ParserRes vectors
  after p bytes r = callbacks vectors (llhttp.events p bytes) r

  Took-grown :
      (e d : Entry vectors) (total bytes : List ℕ) (reads : List Read)
      → Took e total (got bytes ∷ reads) d
      → Took e total reads (grown bytes d)
  unfolding bytes_of
  Took-grown e d total bytes reads took = (
    ap (λ (l : List ℕ). l ++ bytes_of reads) (contents-vector_push_str vectors d.content bytes)
        ∙ append_assoc (contents d.content) bytes (bytes_of reads)
        ∙ took.0,
    took.1,
  )

  server_loop-Leaves :
      (p : llhttp.Parser) (r : ParserRes vectors) (e d : Entry vectors) (n : ℕ) (total : List ℕ)
      (reads : List Read)
      → Fits reads
      → n + 1 < 2 ^ 64
      → d.ref_counter ≡ n + 1
      → d.is_full_content ≡ e.is_full_content
      → Took e total reads d
      → Leaves e n total (server_loop vectors llhttp 0 p r d reads)
  unfolding server_loop bytes_of parse_http finish give_up
  server_loop-Leaves p r e d n total [] fits few count kept took =
      let down = ap dec_ref count ∙ dec_ref-pred n few in
      elim (Bool-cases (is_msg_parsed r.parse_state_msg)) [
        | inl done ↦ rw done (took, refl, down)
        | inr more ↦ rw more (took, kept, count)
      ]
  server_loop-Leaves p r e d n total (failed ∷ reads) fits few count kept took =
      let down = ap dec_ref count ∙ dec_ref-pred n few in
      elim (Bool-cases (is_msg_parsed r.parse_state_msg)) [
        | inl done ↦ rw done (took, refl, down)
        | inr more ↦ rw more (took, kept, down)
      ]
  server_loop-Leaves p r e d n total (got [] ∷ reads) fits few count kept took =
      let down = ap dec_ref count ∙ dec_ref-pred n few in
      elim (Bool-cases (is_msg_parsed r.parse_state_msg)) [
        | inl done ↦ rw done (took, refl, down)
        | inr more ↦ rw more (took, kept, down)
      ]
  server_loop-Leaves p r e d n total (got (c ∷ cs) ∷ reads) fits few count kept took =
      let down = ap dec_ref count ∙ dec_ref-pred n few in
      elim (Bool-cases (is_msg_parsed r.parse_state_msg)) [
        | inl done ↦ rw done (took, refl, down)
        | inr more ↦
            rw (more, small_test c cs fits.0)
              (elim (Bool-cases (parsed p (c ∷ cs) == 0)) [
                | inl good ↦ rw good (
                    server_loop-Leaves (llhttp.next p (c ∷ cs)) (after p (c ∷ cs) r) e
                      (grown (c ∷ cs) d) n total reads fits.1 few count kept
                      (Took-grown e d total (c ∷ cs) reads took))
                | inr bad ↦ rw bad (Took-grown e d total (c ∷ cs) reads took, kept, count)
              ])
      ]

  -- If no read gives more than the buffer holds and the counter does not overflow, then on every
  -- way out of server_handler the content and the unread bytes are the old content and all bytes,
  -- and is_corresponds_to_cache_size is unchanged; the counter is the old one when the loop ends or
  -- read fails, but one higher when the parser refuses the answer; is_full_content is set only in
  -- the first case.
  pub server_handler-Leaves :
      (p : llhttp.Parser) (r : ParserRes vectors) (e : Entry vectors) (reads : List Read)
      → Fits reads
      → e.ref_counter + 1 < 2 ^ 64
      → Leaves e e.ref_counter
          (contents e.content ++ bytes_of reads)
          (server_handler vectors llhttp p r e reads)
  unfolding server_handler
  server_handler-Leaves p r e reads fits few =
      server_loop-Leaves p _ e _ e.ref_counter _ reads fits few (inc_ref-suc e.ref_counter few) refl
        (refl, refl)

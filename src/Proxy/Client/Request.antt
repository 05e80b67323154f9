-- ===== src/Proxy/Client/Request.antt =====
-- The loop of task3/src/main.c that sends the request of a client to the server.
use osi.Base.{
  ℕ, zero, suc, ◌+◌, ◌-◌, ◌<◌, ◌≡◌, refl, ◌∙◌, ap, sym, true, false, Option, List, [], ◌∷◌, ◌==◌,
  arith, length, length-append,
}
use mathlib.Core.List.{append-nil}
use osi.Proxy.Slice.{Prefix, Prefix-slice, length-slice, TakesSome}
use osi.Proxy.Client.{sent_all, send_request, after_request}

module _ (writes : ℕ → (wanted : ℕ) → Option ℕ) (takes : TakesSome writes) (full_msg : List ℕ) where
  -- With all the fuel it needs, the loop sends what is left.
  send_request-rest :
      (fuel k : ℕ) (sent : List ℕ)
      → Prefix sent full_msg
      → length full_msg < fuel + length sent
      → send_request writes full_msg (length full_msg) fuel k (length sent) sent ≡ sent_all full_msg
  unfolding send_request after_request
  send_request-rest zero k sent (rest, p) enough =
      absurd (omega (arith, ap (λ (l : List ℕ). length l) p, length-append sent rest))
  send_request-rest (suc fuel) k sent ([], p) enough =
      let test : (length sent == length full_msg) ≡ true =
        ground (arith, ap (λ (l : List ℕ). length l) (p ∙ append-nil sent)) in
      rw test (ap (λ (l : List ℕ). sent_all l) (sym (p ∙ append-nil sent)))
  send_request-rest (suc fuel) k sent (c ∷ rest, p) enough =
      let size : length full_msg ≡ length sent + suc (length rest) =
        ap (λ (l : List ℕ). length l) p ∙ length-append sent (c ∷ rest) in
      let test : (length sent == length full_msg) ≡ false = ground (arith, size) in
      let write = takes k (length full_msg - length sent) (omega (arith, size)) in
      let long =
        length-slice sent full_msg (suc write.0) (c ∷ rest, p) (omega (arith, size, write.2)) in
      rw (test, write.1)
        (rw (← long) (
          send_request-rest fuel (suc k) _ (Prefix-slice sent full_msg (suc write.0) (c ∷ rest, p))
            (omega (arith, enough, long))))

  -- If write takes at least one byte and no more than it is given, the loop of client_handler that
  -- sends the request ends, within a round for each byte and one more, and the server has got the
  -- request byte for byte.
  pub send_request-sends :
      send_request writes full_msg (length full_msg) (suc (length full_msg)) 0 0 []
      ≡ sent_all full_msg
  send_request-sends = send_request-rest (suc (length full_msg)) 0 [] (full_msg, refl) (omega arith)

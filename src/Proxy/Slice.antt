-- ===== src/Proxy/Slice.antt =====
-- The loops of task3/src/main.c around `write`: what one call takes, as a part of all bytes.
use osi.Base.{
  ℕ, zero, suc, ◌+◌, ◌≤◌, ◌<◌, Option, some, ◌≡◌, refl, ◌∙◌, ap, sym, List, [], ◌∷◌, ◌++◌, arith,
  take, drop, length, length-append, take-append-drop,
}
use mathlib.Core.List.{append_assoc}

-- The bytes from `written_counter` on, at most `n` of them
abbrev pub slice : (written_counter n : ℕ) → List ℕ → List ℕ
slice written_counter n bytes = take n (drop written_counter bytes)

drop-append : (xs ys : List ℕ) → drop (length xs) (xs ++ ys) ≡ ys
drop-append [] ys = refl
drop-append (x ∷ xs) ys = drop-append xs ys

length-take-of_le : (n : ℕ) (xs : List ℕ) → n ≤ length xs → length (take n xs) ≡ n
length-take-of_le zero xs h = refl
length-take-of_le (suc n) [] h = absurd (omega arith)
length-take-of_le (suc n) (x ∷ xs) h = ap suc (length-take-of_le n xs (omega arith))

-- `sent` is the beginning of `bytes`.
abbrev pub Prefix : (sent bytes : List ℕ) → Type 0
Prefix sent bytes = (rest : List ℕ) × (bytes ≡ sent ++ rest)

pub length-Prefix : (sent bytes : List ℕ) → Prefix sent bytes → length sent ≤ length bytes
length-Prefix sent bytes (rest, p) =
    omega (arith, ap (λ (l : List ℕ). length l) p, length-append sent rest)

pub Prefix-append : (sent bytes more : List ℕ) → Prefix sent bytes → Prefix sent (bytes ++ more)
Prefix-append sent bytes more (rest, p) =
    (rest ++ more, ap (λ (l : List ℕ). l ++ more) p ∙ append_assoc sent rest more)

-- A call that takes `n` bytes behind `sent`
module _ (sent bytes : List ℕ) (n : ℕ) where
  pub Prefix-slice : Prefix sent bytes → Prefix (sent ++ slice (length sent) n bytes) bytes
  Prefix-slice (rest, p) = (
    drop n rest,
    p
        ∙ ap (λ (l : List ℕ). sent ++ l) (sym (take-append-drop n rest))
        ∙ sym (append_assoc sent (take n rest) (drop n rest))
        ∙ ap (λ (l : List ℕ). (sent ++ take n l) ++ drop n rest)
            (sym (ap (λ (l : List ℕ). drop (length sent) l) p ∙ drop-append sent rest)),
  )

  pub length-slice :
      Prefix sent bytes
      → length sent + n ≤ length bytes
      → length (sent ++ slice (length sent) n bytes) ≡ length sent + n
  length-slice (rest, p) le =
      let same : drop (length sent) bytes ≡ rest =
        ap (λ (l : List ℕ). drop (length sent) l) p ∙ drop-append sent rest in
      length-append sent _
      ∙ ap (λ (m : ℕ). length sent + m)
          (ap (λ (l : List ℕ). length (take n l)) same
            ∙ length-take-of_le n rest
                (omega (arith, ap (λ (l : List ℕ). length l) p, length-append sent rest)))

-- `write` takes at least one byte where it has any, and no more than it has.
abbrev pub TakesSome : (ℕ → (wanted : ℕ) → Option ℕ) → Type 0
TakesSome writes =
    (k wanted : ℕ) → 0 < wanted → (n : ℕ) × (writes k wanted ≡ some (suc n)) × (suc n ≤ wanted)

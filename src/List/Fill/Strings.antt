-- ===== src/List/Fill/Strings.antt =====
-- The strings that `fill_list` of task2/2.3 cuts out of its array.
use osi.Base.{
  ℕ, zero, suc, ◌≤◌, ◌<◌, ◌≡◌, refl, List, [], ◌∷◌, ◌==◌, length, arith, Bool-cases, inl, inr,
}
use osi.List.Fill.{set_at, text}

pub length-set_at : (i c : ℕ) (arr : List ℕ) → length (set_at i c arr) ≡ length arr
unfolding set_at
length-set_at i c [] = refl
length-set_at zero c (d ∷ arr) = omega arith
length-set_at (suc i) c (d ∷ arr) = omega (arith, length-set_at i c arr)

-- A 0 written within the string ends it there.
pub length-ended :
    (i : ℕ) (arr : List ℕ)
    → i < length arr
    → i ≤ length (text arr)
    → length (text (set_at i 0 arr)) ≡ i
unfolding set_at text
length-ended i [] lt le = absurd (omega arith)
length-ended zero (d ∷ arr) lt le = refl
length-ended (suc i) (d ∷ arr) lt le = elim (Bool-cases (d == 0)) [
  | inl e ↦ absurd (ground arith)
  | inr e ↦ ground (arith, length-ended i arr)
]

-- With a 1 there in its place, the string reaches further.
pub length-resumed :
    (i m : ℕ) (arr : List ℕ)
    → i < length arr
    → i ≤ length (text arr)
    → m ≤ length (text arr)
    → (suc i ≤ length (text (set_at i 1 (set_at i 0 arr))))
      × (m ≤ length (text (set_at i 1 (set_at i 0 arr))))
unfolding set_at text
length-resumed i m [] lt le reach = absurd (omega arith)
length-resumed zero m (d ∷ arr) lt le reach = elim (Bool-cases (d == 0)) [
  | inl e ↦ (omega arith, ground arith)
  | inr e ↦ (omega arith, ground arith)
]
length-resumed (suc i) zero (d ∷ arr) lt le reach = elim (Bool-cases (d == 0)) [
  | inl e ↦ absurd (ground arith)
  | inr e ↦ (ground (arith, length-resumed i 0 arr), omega arith)
]
length-resumed (suc i) (suc m) (d ∷ arr) lt le reach = elim (Bool-cases (d == 0)) [
  | inl e ↦ absurd (ground arith)
  | inr e ↦ (ground (arith, length-resumed i m arr), ground (arith, length-resumed i m arr))
]

-- ===== src/List/Concurrent/Progress.antt =====
-- Threads of task2/2.3/mutex that all wait for the lock of a node.
use osi.Base.{
  ℕ, zero, suc, ◌+◌, ◌≤◌, ◌<◌, ◌≡◌, refl, true, false, List, [], ◌∷◌, ◌==◌, ==_iff, arith,
  Bool-cases, inl, inr, length,
}
use mathlib.Core.Path.{subst}
use osi.Chain.{Ptr}
use osi.Machine.{ok, stop, blocked}
use osi.List.Store.{State}
use osi.List.Mutex.{Mutex, node_lock}
use osi.List.Threads.Steps.{Work, Pc, starts, locked, moved, leaves, advance}
use osi.List.Concurrent.Family.{total, total-somebody, holds, is_at, zero_or_pos}
use osi.List.Concurrent.Ring.{mem, after, Nodes, mem-after, around}
use osi.List.Concurrent.Invariant.{count, Places, Inv}
use osi.List.Concurrent.Moves.{lock-free, unlock-at, take_next-free}

abbrev sum : (Ptr → ℕ) → List Ptr → ℕ
sum f [] = 0
sum f (q ∷ xs) = f q + sum f xs

sum-add : (f g : Ptr → ℕ) (xs : List Ptr) → sum (λ q. f q + g q) xs ≡ sum f xs + sum g xs
sum-add f g [] = omega arith
sum-add f g (q ∷ xs) = omega (arith, sum-add f g xs)

sum-zero : (xs : List Ptr) → sum (λ q. 0) xs ≡ 0
sum-zero [] = refl
sum-zero (q ∷ xs) = omega (arith, sum-zero xs)

sum-is_at : (p : Ptr) (xs : List Ptr) → mem p xs ≡ false → sum (λ q. is_at p q) xs ≡ 0
sum-is_at p [] m = refl
sum-is_at p (q ∷ xs) m = ground (arith, sum-is_at p xs)

sum-is_at_le : (p : Ptr) (xs : List Ptr) → Nodes xs → sum (λ q. is_at p q) xs ≤ 1
sum-is_at_le p [] d = omega arith
sum-is_at_le p (q ∷ xs) d = elim (Bool-cases (p == q)) [
  | inl e ↦ let m : mem p xs ≡ false = rw ((==_iff p q).0 e) d.1 in ground (arith, sum-is_at p xs m)
  | inr e ↦ ground (arith, sum-is_at_le p xs d.2)
]

length-le-sum :
    (f : Ptr → ℕ) (xs : List Ptr) → ((q : Ptr) → mem q xs ≡ true → 0 < f q) → length xs ≤ sum f xs
length-le-sum f [] all = omega arith
length-le-sum f (q ∷ xs) all =
    omega (arith, all q (ground arith), length-le-sum f xs (λ r m. all r (ground arith)))

not_blocked : {A : Type 0} {a : A} {s : State Mutex} → ¬ (ok a s ≡ stop blocked)
not_blocked e = cc

module _ (n : ℕ) (xs : List Ptr) (distinct : Nodes xs) (s : State Mutex) (pc : ℕ → Pc)
    (inv : Inv n xs s pc) where
  -- A thread that waits for a lock somebody holds
  abbrev pub IsStuck : Pc → Type 0
  IsStuck (starts p) = 0 < count n xs p pc
  IsStuck (locked p) = 0 < count n xs (after xs p) pc
  IsStuck _ = ⊥

  pub blocked-IsStuck :
      (op : Work) (c : Pc)
      → ((r : Ptr) → 0 < holds r c → count n xs r pc ≡ 1)
      → Places n xs c
      → advance node_lock op c s ≡ stop blocked
      → IsStuck c
  unfolding advance
  blocked-IsStuck op (starts p) once place e = elim (zero_or_pos (count n xs p pc)) [
    | inl nobody ↦
        let goes_on = lock-free n xs distinct s pc inv p place nobody in
        absurd (not_blocked (rw goes_on at e))
    | inr it ↦ it
  ]
  blocked-IsStuck op (locked p) once place e = elim (zero_or_pos (count n xs (after xs p) pc)) [
    | inl nobody ↦
        let (list, same, goes_on) = take_next-free n xs distinct s pc inv p place op nobody in
        absurd (not_blocked (rw goes_on at e))
    | inr it ↦ it
  ]
  blocked-IsStuck op (moved h p) once place e =
      let m : mem p xs ≡ true = rw place.1 (mem-after xs h place.0) in
      not_blocked (rw (unlock-at n xs distinct s pc inv p m (once p (ground arith))) at e)
  blocked-IsStuck op (leaves h p) once place e =
      not_blocked (rw (unlock-at n xs distinct s pc inv h place.0 (once h (ground arith))) at e)

  module _ (stuck : (i : ℕ) → i < n → IsStuck (pc i)) where
    -- A node that is held is held by a thread that waits for the next one.
    closed : (p : Ptr) → mem p xs ≡ true → 0 < count n xs p pc → 0 < count n xs (after xs p) pc
    closed p m held =
        let (i, lt, some_here) = total-somebody (holds p) n pc held in
        by_pc (pc i) (stuck i lt) some_here
      where
        by_pc : (c : Pc) → IsStuck c → 0 < holds p c → 0 < count n xs (after xs p) pc
        by_pc (starts r) h some_here = absurd (omega arith)
        by_pc (locked r) h some_here =
            let same : r ≡ p = ground (arith, ==_iff r p) in
            subst (λ x. 0 < count n xs (after xs x) pc) same h
        by_pc (moved r r') h some_here = absurd h
        by_pc (leaves r r') h some_here = absurd h

    sum-stuck : (c : Pc) → IsStuck c → sum (λ q. holds q c) xs ≤ 1
    sum-stuck (starts p) h = omega (arith, sum-zero xs)
    sum-stuck (locked p) h = sum-is_at_le p xs distinct
    sum-stuck (moved h p) e = absurd e
    sum-stuck (leaves h p) e = absurd e

    sum-total : (m : ℕ) → m ≤ n → sum (λ q. total (holds q) m pc) xs ≤ m
    sum-total zero le = omega (arith, sum-zero xs)
    sum-total (suc m) le = omega (
      arith,
      sum-add (λ q. holds q (pc m)) (λ q. total (holds q) m pc) xs,
      sum-stuck (pc m) (stuck m (omega arith)),
      sum-total m (omega arith),
    )

    some_held :
        (c : Pc) → IsStuck c → Places n xs c → (p : Ptr) × (mem p xs ≡ true) × (0 < count n xs p pc)
    some_held (starts p) h place = (p, place, h)
    some_held (locked p) h place = (after xs p, mem-after xs p place, h)
    some_held (moved h p) e place = absurd e
    some_held (leaves h p) e place = absurd e

    pub all_stuck : 0 < n → length xs ≤ n
    all_stuck some_thread =
        let (p, m, held) = some_held (pc 0) (stuck 0 some_thread) (inv.places 0) in
        let every = around (λ q. 0 < count n xs q pc) xs distinct closed p m held in
        omega (arith, length-le-sum (λ q. count n xs q pc) xs every, sum-total n (omega arith))

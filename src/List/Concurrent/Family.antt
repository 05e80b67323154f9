-- ===== src/List/Concurrent/Family.antt =====
-- Sums over the threads of task2/2.3.
use osi.Base.{
  ℕ, zero, suc, ◌+◌, ◌≤◌, ◌<◌, ◌≡◌, ◌≢◌, refl, ◌==◌, arith, if◌then◌else◌, Bool-cases, ◌⊎◌, inl,
  inr,
}
use osi.Chain.{Ptr}
use osi.List.Threads.Steps.{Pc, starts, locked, moved, leaves}
use osi.List.Concurrent.{update}

abbrev pub total : (Pc → ℕ) → (n : ℕ) → (ℕ → Pc) → ℕ
total f zero pc = 0
total f (suc n) pc = f (pc n) + total f n pc

total-above :
    (f : Pc → ℕ) (n : ℕ) (pc : ℕ → Pc) (i : ℕ) (p : Pc)
    → n ≤ i
    → total f n (update pc i p) ≡ total f n pc
total-above f zero pc i p le = refl
total-above f (suc n) pc i p le = ground (arith, total-above f n pc i p)

pub total-update :
    (f : Pc → ℕ) (n : ℕ) (pc : ℕ → Pc) (i : ℕ) (p : Pc)
    → i < n
    → total f n (update pc i p) + f (pc i) ≡ total f n pc + f p
total-update f zero pc i p lt = absurd (omega arith)
total-update f (suc n) pc i p lt = elim (Bool-cases (i == n)) [
  | inl last ↦ ground (arith, total-above f n pc i p)
  | inr before ↦ ground (arith, total-update f n pc i p)
]

pub le-total : (f : Pc → ℕ) (n : ℕ) (pc : ℕ → Pc) (i : ℕ) → i < n → f (pc i) ≤ total f n pc
le-total f zero pc i lt = absurd (omega arith)
le-total f (suc n) pc i lt = elim (Bool-cases (i == n)) [
  | inl last ↦ ground arith
  | inr before ↦ ground (arith, le-total f n pc i)
]

pub two-total :
    (f : Pc → ℕ) (n : ℕ) (pc : ℕ → Pc) (i j : ℕ)
    → i < n
    → j < n
    → i ≢ j
    → f (pc i) + f (pc j) ≤ total f n pc
two-total f zero pc i j i_lt j_lt ne = absurd (omega arith)
two-total f (suc n) pc i j i_lt j_lt ne = elim (Bool-cases (i == n)) [
  | inl e ↦ ground (arith, le-total f n pc j)
  | inr e ↦ elim (Bool-cases (j == n)) [
    | inl e' ↦ ground (arith, le-total f n pc i)
    | inr e' ↦ ground (arith, two-total f n pc i j)
  ]
]

pub zero_or_pos : (m : ℕ) → (m ≡ 0) ⊎ (0 < m)
zero_or_pos zero = inl refl
zero_or_pos (suc m) = inr (omega arith)

-- Somebody contributes to a sum that is not 0.
pub total-somebody :
    (f : Pc → ℕ) (n : ℕ) (pc : ℕ → Pc) → 0 < total f n pc → (i : ℕ) × (i < n) × (0 < f (pc i))
total-somebody f zero pc pos = absurd (omega arith)
total-somebody f (suc n) pc pos = elim (zero_or_pos (f (pc n))) [
  | inl none_here ↦
      let (i, lt, some_pos) = total-somebody f n pc (omega (arith, pos, none_here)) in
      (i, omega (arith, lt), some_pos)
  | inr some_here ↦ (n, omega arith, some_here)
]

-- How many locks of the node at `q` a thread holds
abbrev pub is_at : Ptr → Ptr → ℕ
is_at p q = if p == q then 1 else 0

abbrev pub holds : Ptr → Pc → ℕ
holds q (starts iter) = 0
holds q (locked iter) = is_at iter q
holds q (moved mutex iter) = is_at mutex q + is_at iter q
holds q (leaves mutex iter) = is_at mutex q

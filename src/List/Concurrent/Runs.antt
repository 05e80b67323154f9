-- ===== src/List/Concurrent/Runs.antt =====
-- Any order of the steps of the threads on a list of task2/2.3/mutex.
use osi.Base.{ℕ, ◌<◌, ◌≡◌, refl, ap, true, List, arith, inl, inr}
use mathlib.Core.Path.{subst}
use osi.Chain.{Ptr}
use osi.Machine.{ok}
use osi.List.Store.{State}
use osi.List.Mutex.{Mutex, node_lock}
use osi.List.Threads.Steps.{Work, Pc, starts, locked, moved, leaves, advance}
use osi.List.Concurrent.{System, update, Step, picks, Reach, here, next}
use osi.List.Concurrent.Family.{le-total, holds, zero_or_pos}
use osi.List.Concurrent.Ring.{mem, after, Nodes, mem-after}
use osi.List.Concurrent.Invariant.{count, Places, Inv, relocked-Inv}
use osi.List.Concurrent.Moves.{
  Fair, goes, waits, item_at, lock-held, lock-free, unlock-at, take_next-free, take_next-held,
}

module _ (n : ℕ) (xs : List Ptr) (distinct : Nodes xs) where
  -- What a step leaves
  abbrev Leaves : (ℕ → Pc) → ℕ → Pc → State Mutex → Type 0
  Leaves pc i p t = Inv n xs t (update pc i p)

  module _ (s : State Mutex) (pc : ℕ → Pc) (inv : Inv n xs s pc) (i : ℕ) (lt : i < n) where
    -- the locks of a thread at `c`
    pub held_once : (c : Pc) (r : Ptr) → pc i ≡ c → 0 < holds r c → count n xs r pc ≡ 1
    held_once c r at some_here =
        omega (arith, inv.once r, le-total (holds r) n pc i lt, ap (λ (x : Pc). holds r x) at)

    advance-at :
        (op : Work) (c : Pc)
        → pc i ≡ c
        → Places n xs c
        → Fair (Leaves pc i) (advance node_lock op c s)
    unfolding advance
    advance-at op (starts p) at place = elim (zero_or_pos (count n xs p pc)) [
      | inl nobody ↦ rw (lock-free n xs distinct s pc inv p place nobody) (
          goes (
            relocked-Inv n xs s pc i p (item_at n xs distinct s pc inv p place) (starts p)
              (locked p) s.list 0 1 inv lt at nobody (omega arith) refl (λ r. ground arith) place))
      | inr somebody ↦ rw (lock-held n xs distinct s pc inv p place somebody) waits
    ]
    advance-at op (locked p) at place = elim (zero_or_pos (count n xs (after xs p) pc)) [
      | inl nobody ↦
          let (list, same, e) = take_next-free n xs distinct s pc inv p place op nobody in
          rw e (
            goes (
              relocked-Inv n xs s pc i (after xs p)
                (item_at n xs distinct s pc inv (after xs p) (mem-after xs p place)) (locked p)
                (moved p (after xs p)) list 0 1 inv lt at nobody (omega arith) same
                (λ r. ground arith) (place, refl)))
      | inr somebody ↦ rw (take_next-held n xs distinct s pc inv p place op somebody) waits
    ]
    advance-at op (moved h p) at place =
        let m : mem p xs ≡ true = rw place.1 (mem-after xs h place.0) in
        rw (unlock-at n xs distinct s pc inv p m (held_once (moved h p) p at (ground arith))) (
          goes (
            relocked-Inv n xs s pc i p (item_at n xs distinct s pc inv p m) (moved h p) (leaves h p)
              s.list 1 0 inv lt at (held_once (moved h p) p at (ground arith)) (omega arith) refl
              (λ r. ground arith) (place.0, m)))
    advance-at op (leaves h p) at place =
        rw (unlock-at n xs distinct s pc inv h place.0 (held_once (leaves h p) h at (ground arith)))
          (goes (
            relocked-Inv n xs s pc i h (item_at n xs distinct s pc inv h place.0) (leaves h p)
              (starts p) s.list 1 0 inv lt at (held_once (leaves h p) h at (ground arith))
              (omega arith) refl (λ r. ground arith) place.1))

    pub advance-Fair : (op : Work) → Fair (Leaves pc i) (advance node_lock op (pc i) s)
    advance-Fair op = advance-at op (pc i) refl (inv.places i)

  -- the result of a fair step
  of_Fair : {P : Pc → State Mutex → Type 0} {p : Pc} {t : State Mutex} → Fair P (ok p t) → P p t
  of_Fair (goes h) = h

  pub Step-Inv :
      (ops : ℕ → Work) {a b : System}
      → Step n ops a b
      → Inv n xs a.state a.pc
      → Inv n xs b.state b.pc
  Step-Inv ops {a} (picks i {t} {p} lt e) inv =
      of_Fair {P = Leaves a.pc i}
        (subst (λ o. Fair (Leaves a.pc i) o) e (advance-Fair a.state a.pc inv i lt (ops i)))

  pub Reach-Inv :
      (ops : ℕ → Work) {a b : System}
      → Inv n xs a.state a.pc
      → Reach n ops a b
      → Inv n xs b.state b.pc
  Reach-Inv ops inv here = inv
  Reach-Inv ops inv (next r st) = Step-Inv ops st (Reach-Inv ops inv r)

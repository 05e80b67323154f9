-- ===== src/List/Fill.antt =====
-- `fill_list` of list-threads.c in task2/2.3, which fills a list with strings of growing length.
pub mod Strings
pub mod Fills
use osi.Base.{
  ℕ, zero, suc, ◌%◌, ◌≡◌, refl, true, false, List, [], ◌∷◌, ◌==◌, if◌then◌else◌, inc_int, le_int,
  length, arith, zeros,
}
use osi.Chain
use osi.Chain.{Ptr}
use osi.Machine.{Cmd, ok, stop, no_fuel, pure, ◌>>=◌}
use osi.List.Store.{Item, State, list_add_last}
use osi.List.Ends.{assert-passes}
use osi.List.Laws.{IsList}

-- `arr[i] = c`
unfoldable pub set_at : (i c : ℕ) → List ℕ → List ℕ
set_at i c [] = []
set_at zero c (d ∷ arr) = c ∷ arr
set_at (suc i) c (d ∷ arr) = d ∷ set_at i c arr

-- `char arr[100] = {1}`
abbrev pub first_arr : List ℕ
first_arr = 1 ∷ zeros 99

-- The string in an array: the bytes before the first 0
unfoldable pub text : List ℕ → List ℕ
text [] = []
text (c ∷ arr) = if c == 0 then [] else c ∷ text arr

module _ {L : Type 0} where
  -- The loop, at its `k`-th call of list_add_last, in which malloc answers `fresh k`
  unfoldable pub fill_list :
      (unlocked : L) (fresh : ℕ → Ptr) (junk size fuel k i : ℕ) (arr : List ℕ)
      → Cmd (State L) (Unit {0})
  unfolding set_at text list_add_last
  fill_list unlocked fresh junk size zero k i arr = λ _. stop no_fuel
  fill_list unlocked fresh junk size (suc fuel) k i arr =
      let ended = set_at (i % 100) 0 arr in
      if le_int size i then pure tt else (do
        added ← list_add_last unlocked (fresh k) junk (text ended)
        if added == 0
            then fill_list unlocked fresh junk size fuel (suc k) i ended
            else fill_list unlocked fresh junk size fuel (suc k) (inc_int i)
                (set_at (i % 100) 1 ended))

  add_last-full :
      (s : State L) (xs : Chain.Cells (Item L)) (unlocked : L) (fresh junk : ℕ) (str : List ℕ)
      → IsList s.heap s.list xs
      → length xs ≡ s.list.max_count
      → list_add_last unlocked fresh junk str s ≡ ok 0 s
  unfolding list_add_last
  add_last-full s xs unlocked fresh junk str is full =
      let test : (s.list.count == s.list.max_count) ≡ true = ground (arith, is.count, full) in
      rw ((assert-passes s xs is).0, test)

  -- At a list that is full, fill_list does not end if it has more to add.
  fill_list-stuck :
      (s : State L) (xs : Chain.Cells (Item L)) (unlocked : L) (fresh : ℕ → Ptr)
      (junk size fuel k i : ℕ) (arr : List ℕ)
      → IsList s.heap s.list xs
      → length xs ≡ s.list.max_count
      → le_int size i ≡ false
      → fill_list unlocked fresh junk size fuel k i arr s ≡ stop no_fuel
  unfolding fill_list
  fill_list-stuck s xs unlocked fresh junk size zero k i arr is full more = refl
  fill_list-stuck s xs unlocked fresh junk size (suc fuel) k i arr is full more =
      rw (more, add_last-full s xs unlocked (fresh k) junk (text (set_at (i % 100) 0 arr)) is full)
        (fill_list-stuck s xs unlocked fresh junk size fuel (suc k) i (set_at (i % 100) 0 arr) is
          full more)

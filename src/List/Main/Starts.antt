-- ===== src/List/Main/Starts.antt =====
-- What `main` of list-threads.c in task2/2.3 leaves for its threads.
use osi.Base.{
  int_max, ◌≤◌, ℕ, ◌≤◌, ◌<◌, ◌≡◌, ◌≢◌, refl, ◌∙◌, ap, false, none, [], ◌∷◌, ◌++◌, ◌==◌, length,
  arith, Bool-cases, inl, inr,
}
use osi.Chain
use osi.Chain.{Ptr, null}
use osi.Machine.{Returns, returns, Returns-and_then, Returns-mono}
use osi.List.Store.{Item, State, list_init}
use osi.List.Laws.{IsList}
use osi.List.Fill.Fills.{Filled, fill_list-Filled}
use osi.List.Threads.{is_more, is_less, is_equal}
use osi.List.Main.{
  list_size, compares, swaps, started_if, start_swaps, start_threads, launch, main, Launched,
}

start_threads-loses_errors :
    (pthread_create : ℕ → ℕ)
    → ((k : ℕ) → 2 ≤ k → pthread_create k ≡ 0)
    → start_threads pthread_create ≡ record {
      answer = none;
      started =
          started_if (pthread_create 0) (compares is_more)
          ++ started_if (pthread_create 1) (compares is_less)
          ++ compares is_equal ∷ swaps ∷ swaps ∷ swaps ∷ [];
    }
unfolding start_threads start_swaps
start_threads-loses_errors pthread_create zero_on =
    rw
      (
        zero_on 2 (omega arith),
        zero_on 3 (omega arith),
        zero_on 4 (omega arith),
        zero_on 5 (omega arith),
      )
      (elim (Bool-cases (pthread_create 0 == 0)) [
        | inl e ↦ elim (Bool-cases (pthread_create 1 == 0)) [
          | inl e' ↦ rw (e, e') refl
          | inr e' ↦ rw (e, e') refl
        ]
        | inr e ↦ elim (Bool-cases (pthread_create 1 == 0)) [
          | inl e' ↦ rw (e, e') refl
          | inr e' ↦ rw (e, e') refl
        ]
      ])

module _ {L : Type 0} (size : ℕ) (small : size ≤ int_max) where
  list_init-IsList :
      (allocated : Ptr) (s : State L)
      → allocated ≢ null
      → Returns
          (λ _ t. IsList t.heap t.list [] × (t.list.max_count ≡ size) × (t.heap ≡ s.heap))
          (list_init allocated 0 size s)
  unfolding list_init
  list_init-IsList allocated s ne =
      let test : (allocated == null) ≡ false = ground arith in
      rw test (
        returns (
          record {
            first = refl;
            last = refl;
            linked = tt;
            count = refl;
            room = omega arith;
            small = small;
          },
          refl,
          refl,
        ))

  module _ (allocated : Ptr) (unlocked : L) (fresh : ℕ → Ptr) (junk : ℕ) (pthread_create : ℕ → ℕ)
      (fuel : ℕ) (s : State L) (ne : allocated ≢ null)
      (apart : (j k : ℕ) → j < k → k < size → fresh j ≢ fresh k)
      (free : (j : ℕ) → j < size → (fresh j ≢ null) × (s.heap (fresh j) ≡ none))
      (enough : size < fuel) where
    -- the list that is left
    abbrev pub Left : Launched → State L → Type 0
    Left r t =
        (r ≡ start_threads pthread_create)
        × ((cells : Chain.Cells (Item L)) × IsList t.heap t.list cells
            × (length cells ≡ size)
            × Filled unlocked 0 cells)

    pub launch-Left :
        Returns Left (launch size allocated 0 unlocked fresh junk pthread_create fuel s)
    unfolding launch
    launch-Left = Returns-and_then (list_init-IsList allocated s ne) λ _ t (is, room, same).
        Returns-and_then
          (fill_list-Filled unlocked fresh junk size small apart fuel t is (omega (arith, room))
            enough
            (λ j from below. (
              (free j below).0,
              ap (λ (h : Chain.Heap (Item L)). h (fresh j)) same ∙ (free j below).1,
            )))
          λ _ u filled. returns (refl, filled)

module _ {L : Type 0} where
  -- If malloc answers addresses that are not NULL, for the nodes different unused ones, the thread
  -- of the monitor starts, and pthread_create fails at most for the first two threads of main, main
  -- ends by pthread_exit, whatever it answered for these two, and leaves a well-formed list of
  -- 100000 nodes with new locks, whose strings have 0, 1, up to 99 bytes, and again from 0; it has
  -- started those of the first two threads that did not fail, and the four others.
  pub main-starts :
      (allocated : Ptr) (unlocked : L) (fresh : ℕ → Ptr) (junk : ℕ) (pthread_create : ℕ → ℕ)
      (fuel : ℕ) (s : State L)
      → allocated ≢ null
      → ((j k : ℕ) → j < k → k < list_size → fresh j ≢ fresh k)
      → ((j : ℕ) → j < list_size → (fresh j ≢ null) × (s.heap (fresh j) ≡ none))
      → ((k : ℕ) → 2 ≤ k → pthread_create k ≡ 0)
      → list_size < fuel
      → Returns
          (λ r t.
            (r.answer ≡ none)
            × (r.started
                ≡ started_if (pthread_create 0) (compares is_more)
                  ++ started_if (pthread_create 1) (compares is_less)
                  ++ compares is_equal ∷ swaps ∷ swaps ∷ swaps ∷ [])
            × ((cells : Chain.Cells (Item L)) × IsList t.heap t.list cells
                × (length cells ≡ list_size)
                × Filled unlocked 0 cells))
          (main allocated 0 unlocked fresh junk pthread_create fuel s)
  unfolding main
  main-starts allocated unlocked fresh junk pthread_create fuel s ne apart free zero_on enough =
      Returns-mono
        (launch-Left list_size (omega arith) allocated unlocked fresh junk pthread_create fuel s ne
          apart free enough)
        (λ r t (same, filled).
          rw (same, start_threads-loses_errors pthread_create zero_on) (refl, refl, filled))

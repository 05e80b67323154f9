-- ===== src/List/Spinlock/Launch.antt =====
-- `fill_list` and `main` of list-threads.c in task2/2.3/spinlock.
use osi.Base.{ℕ, false}
use osi.Chain.{Ptr}
use osi.Machine.{Cmd}
use osi.List.Fill
use osi.List.Main
use osi.List.Main.{Launched}
use osi.List.Spinlock.{State}

-- from the start, with the array of fill_list as it is initialised
unfoldable pub fill_list : (fresh : ℕ → Ptr) (junk size fuel : ℕ) → Cmd State (Unit {0})
unfolding Fill.fill_list
fill_list fresh junk size fuel =
    Fill.fill_list (record { held = false }) fresh junk size fuel 0 0 Fill.first_arr

unfoldable pub main :
    (allocated : Ptr) (err : ℕ) (fresh : ℕ → Ptr) (junk : ℕ) (pthread_create : ℕ → ℕ) (fuel : ℕ)
    → Cmd State Launched
unfolding Main.main
main allocated err = Main.main allocated err (record { held = false })

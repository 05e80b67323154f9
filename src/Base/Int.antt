-- ===== src/Base/Int.antt =====
-- The C types `int` and `long` as bit patterns of 32 and 64 bits. A pattern with its highest bit
-- set stands for a negative number; the order of `int` is that of the patterns shifted by `2 ^ 31`.
use Prim.Native.Nat.{ℕ, suc, ◌+◌, ◌-◌, ◌%◌, ◌^◌, ◌≤◌, ◌<◌}
use mathlib.Core.Path.{◌≡◌}
use mathlib.Core.Bool.{Bool, true, false}
use native.Mathlib.Omega.{arith}
use osi.Base.Tests.{leb}

abbrev pub int_mod : ℕ
int_mod = 2 ^ 32

abbrev pub int_max : ℕ
int_max = 2 ^ 31 - 1

unfoldable pub inc_int : ℕ → ℕ
inc_int n = (n + 1) % int_mod

unfoldable pub dec_int : ℕ → ℕ
dec_int n = (n + int_mod - 1) % int_mod

unfoldable pub le_int : ℕ → ℕ → Bool
le_int a b = leb ((a + 2 ^ 31) % int_mod) ((b + 2 ^ 31) % int_mod)

-- `long`: statistics only ever count up.
unfoldable pub inc_long : ℕ → ℕ
inc_long n = (n + 1) % 2 ^ 64

unfoldable pub sub_long : ℕ → ℕ → ℕ
sub_long m n = (m + 2 ^ 64 - n) % 2 ^ 64

pub inc_int-suc : (n : ℕ) → n < int_max → inc_int n ≡ n + 1
unfolding inc_int
inc_int-suc n h = omega arith

pub dec_int-suc : (n : ℕ) → n < int_max → dec_int (suc n) ≡ n
unfolding dec_int
dec_int-suc n h = omega arith

pub le_int-le : (a b : ℕ) → a ≤ b → b ≤ int_max → le_int a b ≡ true
unfolding le_int
le_int-le a b h k = ground arith

pub le_int-gt : (a b : ℕ) → a < b → b ≤ int_max → le_int b a ≡ false
unfolding le_int
le_int-gt a b h k = ground arith

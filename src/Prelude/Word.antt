-- ===== src/Prelude/Word.antt =====
-- Unsigned words of 64 bits: sums and differences wrap around.
use Prim.Native.Nat.{ℕ, ◌+◌, ◌-◌, ◌%◌, ◌^◌, ◌<◌}
use mathlib.Core.Path.{◌≡◌}
use native.Mathlib.Nat.{mod-eq_of_lt}

abbrev pub wrap64 : ℕ → ℕ
wrap64 n = n % 2 ^ 64

abbrev pub sub64 : ℕ → ℕ → ℕ
sub64 a b = wrap64 ((a + 2 ^ 64) - wrap64 b)

pub wrap64-small : (n : ℕ) → n < 2 ^ 64 → wrap64 n ≡ n
wrap64-small n h = mod-eq_of_lt h

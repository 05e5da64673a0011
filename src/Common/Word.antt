-- ===== src/Common/Word.antt =====
-- Go's uint64 arithmetic, with the wrap-around written out. `uint64_max` is math.MaxUint64.
use Prim.Native.Nat.{ℕ, ◌+◌, ◌-◌, ◌*◌, ◌%◌, ◌≤◌}
use mathlib.Core.Path.{◌≡◌}
use native.Mathlib.Omega.{arith}

abbrev pub uint64_max : ℕ
uint64_max = 18446744073709551615

-- a + b
unfoldable pub add64 : ℕ → ℕ → ℕ
add64 a b = (a + b) % 18446744073709551616

-- a - b. Native subtraction stops at 0, so the modulus is added first.
unfoldable pub sub64 : ℕ → ℕ → ℕ
sub64 a b = (a + 18446744073709551616 - b) % 18446744073709551616

-- a * b
unfoldable pub mul64 : ℕ → ℕ → ℕ
mul64 a b = (a * b) % 18446744073709551616

pub add64-eq-add : (a b : ℕ) → a + b ≤ uint64_max → add64 a b ≡ a + b
unfolding add64
add64-eq-add a b h = omega arith

pub sub64-eq-sub : (a b : ℕ) → b ≤ a → a ≤ uint64_max → sub64 a b ≡ a - b
unfolding sub64
sub64-eq-sub a b h k = omega arith

pub add64-le-max : (a b : ℕ) → add64 a b ≤ uint64_max
unfolding add64
add64-le-max a b = omega arith

pub sub64-le-max : (a b : ℕ) → sub64 a b ≤ uint64_max
unfolding sub64
sub64-le-max a b = omega arith

-- ===== src/Base/Size.antt =====
-- `size_t`: 64-bit unsigned arithmetic with its wrap-around.
use Prim.Native.Nat.{ℕ, ◌+◌, ◌-◌, ◌%◌, ◌^◌, ◌≤◌, ◌<◌}
use mathlib.Core.Path.{◌≡◌}
use native.Mathlib.Omega.{arith}

abbrev pub IsSize : ℕ → Type 0
IsSize n = n < 2 ^ 64

unfoldable pub add_size : ℕ → ℕ → ℕ
add_size a b = (a + b) % 2 ^ 64

unfoldable pub sub_size : ℕ → ℕ → ℕ
sub_size a b = (a + 2 ^ 64 - b) % 2 ^ 64

pub add_size-eq-add : (a b : ℕ) → IsSize (a + b) → add_size a b ≡ a + b
unfolding add_size
add_size-eq-add a b h = omega arith

pub sub_size-eq-sub : (a b : ℕ) → IsSize a → b ≤ a → sub_size a b ≡ a - b
unfolding sub_size
sub_size-eq-sub a b h le = omega arith

-- ===== src/Base/Words.antt =====
-- `std::size_t` and `std::uintptr_t`: 64-bit words with their wrap-around.
use Prim.Native.Nat.{ℕ, ◌+◌, ◌-◌, ◌^◌, ◌%◌, ◌<◌, ◌≤◌}
use mathlib.Core.Path.{◌≡◌}
use native.Mathlib.Omega.{arith}

abbrev pub size_mod : ℕ
size_mod = 2 ^ 64

-- `std::numeric_limits<std::size_t>::max()`.
abbrev pub size_max : ℕ
size_max = 2 ^ 64 - 1

abbrev pub add_word : ℕ → ℕ → ℕ
add_word a b = (a + b) % size_mod

abbrev pub sub_word : ℕ → ℕ → ℕ
sub_word a b = (a + size_mod - b) % size_mod

pub sub_word_le : (a b : ℕ) → b ≤ a → a < size_mod → sub_word a b ≡ a - b
sub_word_le a b h k = omega arith

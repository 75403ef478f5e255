-- ===== src/Base/Bits.antt =====
-- Facts about `bit_and` at variables, from the digit recursion that it stands for.
use Prim.Native.Nat.{
  ℕ, zero, suc, ◌+◌, ◌-◌, ◌*◌, ◌/◌, ◌%◌, ◌^◌, ◌≤◌, ◌<◌, min, bit_and, digits, bit_and-bitwise,
}
use mathlib.Core.Path.{◌≡◌, refl}
use mathlib.Core.Logic.{◌⊎◌, ◌↔◌, inl, inr, ◌≢◌}
use mathlib.Core.Bool.{Bool, true, not, ◌&&◌}
use fixed_size_memory_pool.Base.Tests.{◌==◌, ==_iff, ==_ne, Bool-cases}
use fixed_size_memory_pool.Base.Words.{size_mod, sub_word, sub_word_le}
use native.Mathlib.Omega.{arith}
use native.Mathlib.Nat.{two-pow-succ, one-le-pow}
use native.Mathlib.Decide.{dec_lt}

-- The conjunction with `fuel` digits read, and what one round of it gives.
abbrev conj : ℕ → ℕ → ℕ → ℕ
conj fuel a b = digits (λ _. zero) min fuel a b

-- More fuel than `a` has digits changes nothing.
conj_stable : (b a f g : ℕ) → a ≤ g → a ≤ f → conj f a b ≡ conj g a b
conj_stable b zero zero zero more enough = refl
conj_stable b zero zero (suc g) more enough = refl
conj_stable b zero (suc f) zero more enough = refl
conj_stable b zero (suc f) (suc g) more enough = refl
conj_stable b (suc a) zero g more enough = absurd (omega arith)
conj_stable b (suc a) (suc f) zero more enough = absurd (omega arith)
conj_stable b (suc a) (suc f) (suc g) more enough =
    let halved = conj_stable (b / 2) (suc a / 2) f g (omega arith) (omega arith) in
    omega (arith, halved)

zero-bit_and : (b : ℕ) → bit_and 0 b ≡ 0
zero-bit_and b = bit_and-bitwise 0 b

-- One digit of the conjunction.
pub bit_and_digit : (a b : ℕ) → bit_and a b ≡ 2 * bit_and (a / 2) (b / 2) + min (a % 2) (b % 2)
bit_and_digit zero b = omega (arith, zero-bit_and b, zero-bit_and (b / 2))
bit_and_digit (suc a) b =
    let unrolled = bit_and-bitwise (suc a) b in
    let folded = bit_and-bitwise (suc a / 2) (b / 2) in
    let same = conj_stable (b / 2) (suc a / 2) a (suc a / 2) (omega arith) (omega arith) in
    omega (arith, unrolled, folded, same)

bit_and_self_below : (n a : ℕ) → a ≤ n → bit_and a a ≡ a
bit_and_self_below n zero h = zero-bit_and 0
bit_and_self_below zero (suc a) h = absurd (omega arith)
bit_and_self_below (suc n) (suc a) h =
    omega (arith, bit_and_digit (suc a) (suc a), bit_and_self_below n (suc a / 2) (omega arith))

pub bit_and_self : (a : ℕ) → bit_and a a ≡ a
bit_and_self a = bit_and_self_below a a (omega arith)

-- The test `value != 0 && (value & (value - 1)) == 0` finds the powers of two, and only those.
abbrev pub IsPowerOfTwo : ℕ → Type 0
IsPowerOfTwo a = (k : ℕ) × (a ≡ 2 ^ k)

twice-IsPowerOfTwo : (a b : ℕ) → a ≡ 2 * b → IsPowerOfTwo b → IsPowerOfTwo a
twice-IsPowerOfTwo a b e (k, p) = (suc k, omega (arith, two-pow-succ k))

-- The same, with the halves and the last digits named.
bit_and_halves :
    (a b p q r s : ℕ)
    → a ≡ 2 * p + r
    → b ≡ 2 * q + s
    → r < 2
    → s < 2
    → bit_and a b ≡ 2 * bit_and p q + min r s
bit_and_halves a b p q r s ea eb hr hs =
    let pa : a / 2 ≡ p = omega arith in
    let pb : b / 2 ≡ q = omega arith in
    let ra : a % 2 ≡ r = omega arith in
    let rb : b % 2 ≡ s = omega arith in rw (bit_and_digit a b, pa, pb, ra, rb)

IsPowerOfTwo-below : (n a : ℕ) → a ≤ n → a ≢ 0 → bit_and a (a - 1) ≡ 0 → IsPowerOfTwo a
IsPowerOfTwo-below zero a le ne h = absurd (ne (omega arith))
IsPowerOfTwo-below (suc n) a le ne h = elim (dec_lt 0 (a % 2)) [
  | yes odd ↦
      let half = bit_and_halves a (a - 1) (a / 2) (a / 2) 1 0 (omega arith) (omega arith) in
      (0, omega (arith, half (omega arith) (omega arith), bit_and_self (a / 2)))
  | no even ↦
      let half = bit_and_halves a (a - 1) (a / 2) (a / 2 - 1) 0 1 (omega arith) (omega arith) in
      twice-IsPowerOfTwo a (a / 2) (omega arith) (
        IsPowerOfTwo-below n (a / 2) (omega arith) (omega arith)
          (omega (arith, half (omega arith) (omega arith))))
]

pub IsPowerOfTwo-of_bits : (a : ℕ) → a ≢ 0 → bit_and a (a - 1) ≡ 0 → IsPowerOfTwo a
IsPowerOfTwo-of_bits a = IsPowerOfTwo-below a a (omega arith)

pub pow-pos : (k : ℕ) → 0 < 2 ^ k
pow-pos k = one-le-pow k 2 (omega arith)

pub bits_of_pow : (k : ℕ) → bit_and (2 ^ k) (2 ^ k - 1) ≡ 0
bits_of_pow zero = omega (arith, bit_and_digit 1 0, zero-bit_and 0)
bits_of_pow (suc k) = omega (
  arith,
  bit_and_halves (2 ^ suc k) (2 ^ suc k - 1) (2 ^ k) (2 ^ k - 1) 0 1 (omega (arith, two-pow-succ k))
      (omega (arith, two-pow-succ k, pow-pos k)) (omega arith) (omega arith),
  bits_of_pow k,
)

-- A mask of `d` ones keeps a number of at most `d` digits.
bit_and_ones : (d x : ℕ) → x < 2 ^ d → bit_and x (2 ^ d - 1) ≡ x
bit_and_ones zero zero h = zero-bit_and 0
bit_and_ones zero (suc x) h = absurd (omega arith)
bit_and_ones (suc d) x h = omega (
  arith,
  bit_and_halves x (2 ^ suc d - 1) (x / 2) (2 ^ d - 1) (x % 2) 1 (omega arith)
      (omega (arith, two-pow-succ d, pow-pos d)) (omega arith) (omega arith),
  bit_and_ones d (x / 2) (omega (arith, two-pow-succ d)),
)

-- `bool is_power_of_two(std::size_t)`, as three of the source files define it.
unfoldable pub is_power_of_two : ℕ → Bool
is_power_of_two value = not (value == 0) && (bit_and value (sub_word value 1) == 0)

bits_of_power : {a : ℕ} → a < size_mod → IsPowerOfTwo a → (0 < a) × (bit_and a (sub_word a 1) ≡ 0)
bits_of_power {a} fits (k, e) =
    let positive : 0 < a = omega (arith, pow-pos k) in
    let less : sub_word a 1 ≡ a - 1 = sub_word_le a 1 positive fits in
    (positive, rw (less, e) (bits_of_pow k))

power_of_bits : (a : ℕ) → a < size_mod → 0 < a → bit_and a (sub_word a 1) ≡ 0 → IsPowerOfTwo a
power_of_bits a fits positive bits =
    let less : sub_word a 1 ≡ a - 1 = sub_word_le a 1 positive fits in
    IsPowerOfTwo-of_bits a (omega arith) (rw less at bits)

-- The two tests, and what they say of a word.
pub power_cases :
    (a : ℕ)
    → a < size_mod
    → (IsPowerOfTwo a × (0 < a) × (bit_and a (sub_word a 1) ≡ 0))
      ⊎ (¬ IsPowerOfTwo a × ((a ≡ 0) ⊎ (bit_and a (sub_word a 1) ≢ 0)))
power_cases a fits = elim (dec_lt 0 a) [
  | yes positive ↦ elim (Bool-cases (bit_and a (sub_word a 1) == 0)) [
    | inl bits ↦
        let zero_bits = (==_iff _ 0).0 bits in
        inl (power_of_bits a fits positive zero_bits, positive, zero_bits)
    | inr bits ↦ inr (λ p. ==_ne _ 0 bits (bits_of_power fits p).1, inr (==_ne _ 0 bits))
  ]
  | no empty ↦ inr (λ p. empty (bits_of_power fits p).0, inl (omega arith))
]

pub is_power_of_two_iff : (a : ℕ) → a < size_mod → (is_power_of_two a ≡ true) ↔ IsPowerOfTwo a
unfolding is_power_of_two
is_power_of_two_iff a fits = elim (power_cases a fits) [
  | inl (p, positive, bits) ↦ (λ _. p, λ _. ground arith)
  | inr (np, why) ↦ (λ e. absurd (ground arith), λ p. absurd (np p))
]

mul-pow-suc : (q k : ℕ) → q * 2 ^ suc k ≡ 2 * (q * 2 ^ k)
mul-pow-suc q k = grind (arith, two-pow-succ k)

pub pow-add : (k d : ℕ) → 2 ^ (k + d) ≡ 2 ^ d * 2 ^ k
pow-add zero d = let width : 0 + d ≡ d = omega arith in rw width (omega arith)
pow-add (suc k) d =
    let width : suc k + d ≡ suc (k + d) = omega arith in
    rw width (omega (arith, two-pow-succ (k + d), pow-add k d, mul-pow-suc (2 ^ d) k))

-- The mask `~(2 ^ k - 1)` of a word of `k + d` bits clears the low `k` bits.
pub bit_and_high :
    (k d q r : ℕ)
    → r < 2 ^ k
    → q < 2 ^ d
    → bit_and (q * 2 ^ k + r) (2 ^ (k + d) - 2 ^ k) ≡ q * 2 ^ k
bit_and_high zero d q zero fits below =
    let plain : q * 2 ^ 0 + 0 ≡ q = omega arith in
    let width : 0 + d ≡ d = omega arith in rw (plain, width) (omega (arith, bit_and_ones d q below))
bit_and_high zero d q (suc r) fits below = absurd (omega arith)
bit_and_high (suc k) d q r fits below =
    let width : suc k + d ≡ suc (k + d) = omega arith in
    rw width (
      omega (
        arith,
        bit_and_halves (q * 2 ^ suc k + r) (2 ^ suc (k + d) - 2 ^ suc k) (q * 2 ^ k + r / 2)
            (2 ^ (k + d) - 2 ^ k) (r % 2) 0 (omega (arith, mul-pow-suc q k))
            (omega (arith, two-pow-succ k, two-pow-succ (k + d))) (omega arith) (omega arith),
        bit_and_high k d q (r / 2) (omega (arith, two-pow-succ k)) below,
        mul-pow-suc q k,
      ))

-- ===== src/Layout/Rounding.antt =====
-- `validate_alignment` and `round_up` of src/detail/block_layout.cpp against unbounded arithmetic.
use native.Mathlib.Nat.{
  pow-le-pow_right, div-add-mod', mod-lt, div-mul-le_self, le-div_iff_mul-le, div-lt_iff_lt-mul,
  lt-div-mul-add,
}
use native.Mathlib.Decide.{dec_lt}
use fixed_size_memory_pool.Base.{
  ℕ, ◌+◌, ◌-◌, ◌*◌, ◌/◌, ◌%◌, ◌^◌, ◌≤◌, ◌<◌, ◌≡◌, refl, ◌⊎◌, inl, inr, bit_and, ltb, ◌==◌,
  if◌then◌else◌, ok, err, invalid_argument, length_error, size_mod, size_max, ne→==, lt→ltb, le→ltb,
  sub_word, add_word, arith, false, ap,
}
use fixed_size_memory_pool.Base.Bits.{IsPowerOfTwo, power_cases, pow-pos, pow-add, bit_and_high}
use fixed_size_memory_pool.Layout.{validate_alignment, round_up}

-- A power of two that a word can hold.
pub record IsAlignment (a : ℕ) : Type 0 where
  pub power : IsPowerOfTwo a
  pub fits : a < size_mod

pub IsAlignment-pos : {a : ℕ} → IsAlignment a → 0 < a
IsAlignment-pos v = omega (arith, v.power.1, pow-pos v.power.0)

pub IsAlignment-ne : {a : ℕ} → IsAlignment a → (a == 0) ≡ false
IsAlignment-ne v = ne→== _ 0 (omega (arith, IsAlignment-pos v))

-- The test accepts the powers of two, and throws on every other word.
pub validate_alignment_cases :
    (a : ℕ)
    → a < size_mod
    → (IsPowerOfTwo a × (validate_alignment a ≡ ok tt))
      ⊎ (¬ IsPowerOfTwo a × (validate_alignment a ≡ err invalid_argument))
unfolding validate_alignment
validate_alignment_cases a fits = elim (power_cases a fits) [
  | inl (p, positive, bits) ↦ inl (p, ground arith)
  | inr (np, inl empty) ↦ inr (np, ground arith)
  | inr (np, inr bits) ↦ inr (np, ground arith)
]

pub validate_alignment-ok : {a : ℕ} → IsAlignment a → validate_alignment a ≡ ok tt
validate_alignment-ok {a} v = elim (validate_alignment_cases a v.fits) [
  | inl (_, e) ↦ e
  | inr (np, _) ↦ absurd (np v.power)
]

-- The least multiple of `a` that is at least `s`, for a positive `a`.
pub round_to : ℕ → ℕ → ℕ
round_to s a = (s + (a - 1)) / a * a

-- The bits that `k` leaves of a word.
word_split : (k : ℕ) → 2 ^ k < size_mod → (d : ℕ) × (k + d ≡ 64)
word_split k fits = elim (dec_lt k 64) [
  | yes below ↦ (64 - k, omega arith)
  | no above ↦
      absurd (omega (arith, pow-le-pow_right {n = 2} (omega arith) {i = 64} {j = k} (omega arith)))
]

mask_pow :
    (k d x : ℕ) → k + d ≡ 64 → x < size_mod → bit_and x (size_mod - 2 ^ k) ≡ x / 2 ^ k * 2 ^ k
mask_pow k d x width fits =
    let word : 2 ^ (k + d) ≡ size_mod = ap (λ n. 2 ^ n) width in
    let few : x / 2 ^ k < 2 ^ d =
      (div-lt_iff_lt-mul {k = 2 ^ k} {x = x} {y = 2 ^ d} (pow-pos k)).1
        (omega (arith, pow-add k d)) in
    let masked = bit_and_high k d (x / 2 ^ k) (x % 2 ^ k) (mod-lt x (pow-pos k)) few in
    rw (div-add-mod' x (2 ^ k), word) at masked

-- `x & ~(a - 1)` is the greatest multiple of `a` up to `x`.
pub mask_lem : (a x : ℕ) → IsAlignment a → x < size_mod → bit_and x (size_mod - a) ≡ x / a * a
mask_lem a x v fits =
    let (d, width) = word_split v.power.0 (omega (arith, v.power.1, v.fits)) in
    rw v.power.1 (mask_pow v.power.0 d x width fits)

-- Past the end of the word, rounding up leaves the word too.
round_to_overflow : (a x : ℕ) → IsAlignment a → size_mod ≤ x → size_mod ≤ x / a * a
round_to_overflow a x v over =
    let (d, width) = word_split v.power.0 (omega (arith, v.power.1, v.fits)) in
    let word : 2 ^ (v.power.0 + d) ≡ size_mod = ap (λ n. 2 ^ n) width in
    let whole : 2 ^ d * a ≡ size_mod = rw v.power.1 (omega (arith, pow-add v.power.0 d)) in
    let many : 2 ^ d ≤ x / a =
      (le-div_iff_mul-le {k = a} {x = 2 ^ d} {y = x} (IsAlignment-pos v)).1 (omega arith) in
    let product : 2 ^ d * a ≤ x / a * a = grind arith in omega arith

round_up_test :
    (s a : ℕ)
    → s < size_mod
    → 0 < a
    → a < size_mod
    → ltb (sub_word size_max (sub_word a 1)) s ≡ ltb size_max (s + (a - 1))
round_up_test s a fits positive small = ground arith

-- Rounding up throws exactly when the rounded size does not fit a word.
pub round_up-round_to :
    (s a : ℕ)
    → s < size_mod
    → IsAlignment a
    → round_up s a ≡ (if ltb size_max (round_to s a) then err length_error else ok (round_to s a))
unfolding round_up round_to
round_up-round_to s a fits v =
    let x = s + (a - 1) in
    let positive = IsAlignment-pos v in
    rw (validate_alignment-ok v, round_up_test s a fits positive v.fits)
      (elim (dec_lt size_max x) [
        | yes over ↦
            let past = round_to_overflow a x v (omega arith) in
            rw (lt→ltb _ _ over, lt→ltb size_max (x / a * a) (omega arith)) refl
        | no within ↦
            let under = div-mul-le_self x a in
            let sum : sub_word (add_word s a) 1 ≡ x = omega arith in
            let mask : size_max - sub_word a 1 ≡ size_mod - a = omega arith in
            rw
              (
                le→ltb size_max x (omega arith),
                le→ltb size_max (x / a * a) (omega arith),
                sum,
                mask,
              )
              (ap ok (mask_lem a x v (omega arith)))
      ])

-- What `round_to` gives: the least multiple that is not below.
pub round_to_lower : (s a : ℕ) → 0 < a → s ≤ round_to s a
unfolding round_to
round_to_lower s a positive = omega (arith, lt-div-mul-add {a = s + (a - 1)} {b = a} positive)

pub round_to_upper : (s a : ℕ) → 0 < a → round_to s a < s + a
unfolding round_to
round_to_upper s a positive = omega (arith, div-mul-le_self (s + (a - 1)) a)

pub round_to_multiple : (s a : ℕ) → (q : ℕ) × (round_to s a ≡ q * a)
unfolding round_to
round_to_multiple s a = ((s + (a - 1)) / a, refl)

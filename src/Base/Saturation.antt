-- ===== src/Base/Saturation.antt =====
-- A product that saturates at a limit, as the growth policies compute it.
use native.Mathlib.Nat.{div-lt_iff_lt-mul}
use native.Mathlib.Decide.{dec_lt}
use fixed_size_memory_pool.Base.Tests.{ltb, leb, ◌==◌, if◌then◌else◌, min_of}
use fixed_size_memory_pool.Base.Words.{size_mod, size_max}
use Prim.Native.Nat.{ℕ, zero, suc, ◌*◌, ◌/◌, ◌%◌, ◌≤◌, ◌<◌}
use mathlib.Core.Path.{◌≡◌}
use mathlib.Core.Bool.{not, ◌&&◌}
use native.Mathlib.Omega.{arith}

-- A maximum of zero stands for no maximum but that of the word.
abbrev pub growth_limit : ℕ → ℕ
growth_limit maximum = if maximum == 0 then size_max else maximum

-- The nested tests of the source, with the quotient and the product that they use.
abbrev pub saturated : (current quotient product maximum : ℕ) → ℕ
saturated current quotient product maximum =
    if not (maximum == 0) && leb maximum current
    then maximum
    else if ltb quotient current
    then if not (maximum == 0) then maximum else size_max
    else if not (maximum == 0)
    then min_of (product % size_mod) maximum
    else (product % size_mod)

saturated_over :
    (current quotient product maximum : ℕ)
    → maximum < size_mod
    → current ≤ product
    → quotient < current
    → size_max < product
    → saturated current quotient product maximum ≡ min_of product (growth_limit maximum)
saturated_over current quotient product maximum word grows small large = ground arith

saturated_within :
    (current quotient product maximum : ℕ)
    → maximum < size_mod
    → current ≤ product
    → current ≤ quotient
    → product ≤ size_max
    → saturated current quotient product maximum ≡ min_of product (growth_limit maximum)
saturated_within current quotient product maximum word grows small fits = ground arith

le-mul_pos : (a b : ℕ) → 0 < b → a ≤ a * b
le-mul_pos a zero h = absurd (omega arith)
le-mul_pos a (suc b) h = omega arith

-- The source's tests compute the least of the exact product and the limit.
pub saturated-min :
    (current factor maximum : ℕ)
    → 0 < factor
    → maximum < size_mod
    → saturated current (size_max / factor) (current * factor) maximum
      ≡ min_of (current * factor) (growth_limit maximum)
saturated-min current factor maximum positive word =
    let test = div-lt_iff_lt-mul {k = factor} {x = size_max} {y = current} positive in
    let grows = le-mul_pos current factor positive in
    elim (dec_lt size_max (current * factor)) [
      | yes over ↦ saturated_over current _ _ maximum word grows (test.1 over) over
      | no within ↦
          saturated_within current _ _ maximum word grows (not_below _ _ (λ p. within (test.0 p)))
            (omega arith)
    ]
  where
    not_below : (a b : ℕ) → ¬ (a < b) → b ≤ a
    not_below a b h = omega arith

-- ===== src/Base/Results.antt =====
-- The exceptions that the library throws (pool_errors.hpp and the standard ones), and the
-- results of calls that may throw.
use mathlib.Core.Bool.{Bool, true, false, false≢true}
use mathlib.Core.Path.{◌≡◌, refl, ap}
use mathlib.Core.Logic.{◌≢◌, ◌⊎◌, inl, inr}

-- `terminate` stands for a call of `std::terminate`, which no handler catches.
pub data Error : Type 0 where
  invalid_argument length_error out_of_range logic_error bad_alloc : Error
  invalid_pool_pointer double_free memory_corruption allocation_mismatch : Error
  terminate : Error

pub data Result {ℓ} (A : Type ℓ) : Type ℓ where
  ok : A → Result A
  err : Error → Result A

infixl 5 ◌>>=◌ ◌>>◌
-- An exception skips what follows.
abbrev pub ◌>>=◌ {ℓ κ} : {T : Type ℓ} {U : Type κ} → Result T → (T → Result U) → Result U
err thrown >>= rest = err thrown
ok value >>= rest = rest value

abbrev pub ◌>>◌ {ℓ} : {U : Type ℓ} → Result (Unit {0}) → Result U → Result U
first >> rest = first >>= λ _. rest

-- `if (test) throw e;`
abbrev pub throw_if : Bool → Error → Result (Unit {0})
throw_if false e = ok tt
throw_if true e = err e

pub ok-inj {ℓ} : {A : Type ℓ} {a b : A} → ok a ≡ ok b → a ≡ b
ok-inj {a} h = ap (λ (r : Result _). elim r [ ok x ↦ x | err _ ↦ a ]) h

abbrev is_ok {ℓ} : {A : Type ℓ} → Result A → Bool
is_ok (ok _) = true
is_ok (err _) = false

pub err≢ok {ℓ} : {A : Type ℓ} (e : Error) (a : A) → err e ≢ ok a
err≢ok e a h = false≢true (ap is_ok h)

-- What a result says of the parts that it was computed from.
pub then-ok {ℓ} :
    {U : Type ℓ} (first : Result (Unit {0})) (second : Result U) (u : U)
    → (first >> second) ≡ ok u
    → (first ≡ ok tt) × (second ≡ ok u)
then-ok (ok tt) second u h = (refl, h)
then-ok (err e) second u h = absurd (err≢ok e u h)

pub throw_if-ok {ℓ} :
    {U : Type ℓ} (test : Bool) (e : Error) (rest : Result U) (u : U)
    → (throw_if test e >> rest) ≡ ok u
    → (test ≡ false) × (rest ≡ ok u)
throw_if-ok false e rest u h = (refl, h)
throw_if-ok true e rest u h = absurd (err≢ok e u h)

pub Result-cases {ℓ} :
    {A : Type ℓ} (r : Result A) → ((e : Error) × (r ≡ err e)) ⊎ ((a : A) × (r ≡ ok a))
Result-cases (err e) = inl (e, refl)
Result-cases (ok a) = inr (a, refl)

pub err-inj {ℓ} : {A : Type ℓ} {d e : Error} → ◌≡◌ {A = Result A} (err d) (err e) → d ≡ e
err-inj {d} h = ap (λ (r : Result _). elim r [ ok _ ↦ d | err x ↦ x ]) h

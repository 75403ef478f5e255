-- ===== src/SizeClass/Selection.antt =====
-- Which class a request is routed to.
use fixed_size_memory_pool.Base.{
  ℕ, zero, suc, ◌+◌, ◌-◌, ◌*◌, ◌^◌, ◌<◌, ◌≤◌, ◌≡◌, refl, sym, ap, ◌∙◌, ◌||◌, not, true, false,
  Bool-cases, inl, inr, leb, ltb, ◌==◌, if◌then◌else◌, if_true, if_false, ==_iff, ==_ne, subst,
  size_mod, Below, throw_if-ok, then-ok, ok-inj, max_of, List, [], ◌∷◌, length, get_or, Option,
  none, some, ok, arith,
}
use fixed_size_memory_pool.Base.Bits.{
  is_power_of_two, is_power_of_two_iff, IsPowerOfTwo, pow-add, pow-pos,
}
use native.Mathlib.Nat.{two-pow-succ}
use native.Mathlib.Decide.{dec_le}
use fixed_size_memory_pool.SizeClass.{construct, validate_classes, lower_bound, select}

-- Powers of two of at least a pointer's size, strictly ascending above `previous`.
abbrev pub IsAscending : ℕ → List ℕ → Type 0
IsAscending previous [] = Unit {0}
IsAscending previous (c ∷ rest) = IsPowerOfTwo c × (8 ≤ c) × (previous < c) × IsAscending c rest

-- A block of the class can hold the request, and its size is a multiple of the alignment.
abbrev pub Serves : (size alignment class_size : ℕ) → Type 0
Serves size alignment class_size = (size ≤ class_size) × ((q : ℕ) × (class_size ≡ q * alignment))

lower_bound-before :
    (classes : List ℕ) (required i : ℕ)
    → i < lower_bound classes required
    → get_or classes i 0 < required
unfolding lower_bound
lower_bound-before [] required i h = omega (arith, h)
lower_bound-before (c ∷ rest) required zero h = ground arith
lower_bound-before (c ∷ rest) required (suc i) h = lower_bound-before rest required i (ground arith)

lower_bound-le : (classes : List ℕ) (required : ℕ) → lower_bound classes required ≤ length classes
unfolding lower_bound
lower_bound-le [] required = ground arith
lower_bound-le (c ∷ rest) required = ground (arith, lower_bound-le rest required)

lower_bound-skip :
    (c : ℕ) (rest : List ℕ) (required : ℕ)
    → ltb c required ≡ true
    → lower_bound (c ∷ rest) required ≡ suc (lower_bound rest required)
unfolding lower_bound
lower_bound-skip c rest required low = if_true _ _ low

lower_bound-stop :
    (c : ℕ) (rest : List ℕ) (required : ℕ)
    → ltb c required ≡ false
    → lower_bound (c ∷ rest) required ≡ 0
unfolding lower_bound
lower_bound-stop c rest required high = if_false _ _ high

lower_bound-at :
    (classes : List ℕ) (required : ℕ)
    → lower_bound classes required < length classes
    → required ≤ get_or classes (lower_bound classes required) 0
lower_bound-at [] required h = absurd (omega (arith, h))
lower_bound-at (c ∷ rest) required h = elim (Bool-cases (ltb c required)) [
  | inl low ↦
      let skipped = lower_bound-skip c rest required low in
      rw skipped (lower_bound-at rest required (omega (arith, skipped, h)))
  | inr high ↦ rw (lower_bound-stop c rest required high) (ground (arith, high))
]

ascending_class :
    (previous : ℕ) (classes : List ℕ) (i : ℕ)
    → IsAscending previous classes
    → i < length classes
    → IsPowerOfTwo (get_or classes i 0) × (8 ≤ get_or classes i 0)
ascending_class previous [] i a h = absurd (omega arith)
ascending_class previous (c ∷ rest) zero a h = (a.0, a.1)
ascending_class previous (c ∷ rest) (suc i) a h = ascending_class c rest i a.3 (ground arith)

exponent : (k j : ℕ) → k ≤ j → k + (j - k) ≡ j
exponent k j h = omega arith

power_quotient : (a c k d : ℕ) → a ≡ 2 ^ k → c ≡ 2 ^ (k + d) → c ≡ 2 ^ d * a
power_quotient a c k d ka kc = kc ∙ pow-add k d ∙ ap (λ n. 2 ^ d * n) (sym ka)

no_smaller : (a c k j : ℕ) → a ≡ 2 ^ k → c ≡ 2 ^ j → a ≤ c → j < k → ⊥
no_smaller a c k j ka jc h less =
    let (d, e) : (d : ℕ) × (k ≡ suc j + d) = (k - suc j, omega arith) in
    let split = ap (λ n. 2 ^ n) e ∙ pow-add (suc j) d in
    let rest = pow-pos d in
    let whole : 2 ^ suc j ≤ 2 ^ d * 2 ^ suc j = grind arith in
    omega (arith, two-pow-succ j, pow-pos j)

power_divides : (a c : ℕ) → IsPowerOfTwo a → IsPowerOfTwo c → a ≤ c → (q : ℕ) × (c ≡ q * a)
power_divides a c (k, ka) (j, jc) h = elim (dec_le k j) [
  | yes below ↦ (
    2 ^ (j - k),
    power_quotient a c k (j - k) ka (jc ∙ sym (ap (λ n. 2 ^ n) (exponent k j below))),
  )
  | no above ↦ absurd (no_smaller a c k j ka jc h (omega arith))
]

pub Routed : List ℕ → (size alignment : ℕ) → Option ℕ → Type 0
Routed classes size alignment none =
    (j : ℕ) → j < length classes → ¬ Serves size alignment (get_or classes j 0)
Routed classes size alignment (some i) =
    (i < length classes)
    × Serves size alignment (get_or classes i 0)
    × ((j : ℕ) → j < i → ¬ Serves size alignment (get_or classes j 0))

module _ (classes : List ℕ) (size alignment : ℕ) (ascending : IsAscending 0 classes)
    (power : IsPowerOfTwo alignment) where
  abbrev required : ℕ
  required = max_of (max_of size 1) alignment

  too_small :
      (j : ℕ)
      → j < length classes
      → get_or classes j 0 < required
      → ¬ Serves size alignment (get_or classes j 0)
  too_small j inside small (fits, (zero, exact)) =
      let positive = ascending_class 0 classes j ascending inside in absurd (omega arith)
  too_small j inside small (fits, (suc q, exact)) =
      let positive = ascending_class 0 classes j ascending inside in
      let large : alignment ≤ get_or classes j 0 = grind arith in absurd (ground arith)

  large_enough :
      (j : ℕ)
      → j < length classes
      → required ≤ get_or classes j 0
      → Serves size alignment (get_or classes j 0)
  large_enough j inside large =
      let shape = ascending_class 0 classes j ascending inside in
      (ground arith, power_divides alignment (get_or classes j 0) power shape.0 (ground arith))

  route_lem :
      (selected : ℕ)
      → selected ≡ lower_bound classes required
      → Routed classes size alignment (if selected == length classes then none else some selected)
  unfolding Routed
  route_lem selected at = elim (Bool-cases (selected == length classes)) [
    | inl last ↦
        let all : selected ≡ length classes = (==_iff _ _).0 last in
        subst (Routed classes size alignment) (sym (if_true _ _ last))
          (λ j inside. too_small j inside (lower_bound-before classes required j (omega arith)))
    | inr found ↦
        let other = ==_ne _ _ found in
        let within = lower_bound-le classes required in
        let inside : lower_bound classes required < length classes = omega (arith, other) in
        subst (Routed classes size alignment) (sym (if_false _ _ found)) (
          omega (arith, inside),
          rw at (
              large_enough (lower_bound classes required) inside
                (lower_bound-at classes required inside)),
          λ j before.
              too_small j (omega (arith, inside))
                (lower_bound-before classes required j (omega arith)),
        )
  ]

  -- With ascending power-of-two classes and a power-of-two alignment, `select` returns the first
  -- class that holds the size and is a multiple of the alignment, and nothing if there is none.
  pub select_lem :
      alignment < size_mod
      → (answer : Option ℕ) × (select classes size alignment ≡ ok answer)
        × Routed classes size alignment answer
  unfolding select
  select_lem fits =
      let accepted = (is_power_of_two_iff alignment fits).1 power in
      (
        if lower_bound classes required == length classes
            then none
            else some (lower_bound classes required),
        rw accepted refl,
        route_lem (lower_bound classes required) refl,
      )

-- Only ascending powers of two of at least a pointer's size pass the loop of the constructor.
validate-IsAscending :
    (previous : ℕ) (classes : List ℕ)
    → Below size_mod classes
    → validate_classes classes previous ≡ ok tt
    → IsAscending previous classes
unfolding validate_classes
validate-IsAscending previous [] below h = tt
validate-IsAscending previous (c ∷ rest) below h =
    let (shape, h1) = throw_if-ok (not (is_power_of_two c) || ltb c 8) _ _ _ h in
    let (order, h2) = throw_if-ok (leb c previous) _ _ _ h1 in
    (
      (is_power_of_two_iff c below.0).0 (ground arith),
      ground arith,
      ground arith,
      validate-IsAscending c rest below.1 h2,
    )

-- The constructor keeps the list it was given, and accepts only a non-empty list of powers of two
-- of at least 8 in strictly ascending order.
pub construct-IsAscending :
    (classes kept : List ℕ)
    → Below size_mod classes
    → construct classes ≡ ok kept
    → (kept ≡ classes) × (0 < length classes) × IsAscending 0 classes
unfolding construct
construct-IsAscending classes kept below h =
    let (some_class, h1) = throw_if-ok (length classes == 0) _ _ _ h in
    let (checked, h2) = then-ok (validate_classes classes 0) _ kept h1 in
    (sym (ok-inj h2), ground arith, validate-IsAscending 0 classes below checked)

-- ===== src/Layout/Ideal.antt =====
-- `make_block_layout` of src/detail/block_layout.cpp against the same dimensions in unbounded
-- arithmetic, and what those dimensions give.
use native.Mathlib.Nat.{div-lt_iff_lt-mul}
use native.Mathlib.Decide.{dec_lt}
use fixed_size_memory_pool.Base.{
  ℕ, ◌+◌, ◌*◌, ◌/◌, ◌≤◌, ◌<◌, ◌≡◌, refl, max, Bool, true, false, ltb, ap, if◌then◌else◌, Result, ok,
  err, length_error, ◌>>=◌, size_mod, size_max, arith, lt→ltb, le→ltb, ne→==,
}
use fixed_size_memory_pool.Layout.{
  BlockLayout, checked_add, checked_multiply, guarded_offset, guarded_stride, make_block_layout,
}
use fixed_size_memory_pool.Layout.Rounding.{
  IsAlignment, IsAlignment-pos, validate_alignment-ok, round_to, round_up-round_to, round_to_lower,
}

-- A result, if the number `n` fits a word.
abbrev pub capped {ℓ} : {A : Type ℓ} → ℕ → A → Result A
capped n x = if ltb size_max n then err length_error else ok x

-- A step whose number is at most that of the whole leaves the decision to the whole.
capped_step :
    {A : Type 0} (n whole : ℕ) (x : A) (f : ℕ → Result A)
    → n ≤ whole
    → (n ≤ size_max → f n ≡ capped whole x)
    → (capped n n >>= f) ≡ capped whole x
capped_step n whole x f le next = elim (dec_lt size_max n) [
  | yes over ↦ rw (lt→ltb size_max n over, lt→ltb size_max whole (omega arith)) refl
  | no within ↦ rw (le→ltb size_max n (omega arith)) (next (omega arith))
]

capped_done : {A : Type 0} (n : ℕ) (x : A) → n ≤ size_max → ok x ≡ capped n x
capped_done n x fits = rw (le→ltb size_max n fits)

pub checked_add-capped :
    (l r : ℕ) → l < size_mod → r < size_mod → checked_add l r ≡ capped (l + r) (l + r)
unfolding checked_add
checked_add-capped l r hl hr = ground arith

le_of_not-lt : (a b : ℕ) → ¬ (a < b) → b ≤ a
le_of_not-lt a b h = omega arith

pub checked_multiply-capped :
    (l r : ℕ) → l < size_mod → r < size_mod → checked_multiply l r ≡ capped (l * r) (l * r)
unfolding checked_multiply
checked_multiply-capped l r hl hr = elim (dec_lt 0 r) [
  | yes positive ↦
      let test = div-lt_iff_lt-mul {k = r} {x = size_max} {y = l} positive in
      let tested = ne→== r 0 (omega arith) in
      elim (dec_lt size_max (l * r)) [
        | yes over ↦ rw (tested, lt→ltb _ _ (test.1 over), lt→ltb _ _ over) refl
        | no within ↦
            let safe : l ≤ size_max / r = le_of_not-lt _ _ (λ p. within (test.0 p)) in
            rw (tested, le→ltb (size_max / r) l safe, le→ltb size_max (l * r) (omega arith))
              (ap ok (omega arith))
      ]
  | no empty ↦
      let zero_factor : r ≡ 0 = omega arith in
      let product : l * r ≡ 0 = rw zero_factor (omega arith) in ground (arith, product)
]

module _ (size count requested : ℕ) (guarded : Bool) (node_size node_alignment guard_size : ℕ) where
  -- The dimensions in unbounded arithmetic.
  unfoldable pub ideal_layout : BlockLayout
  ideal_layout =
      let a = max requested node_alignment in
      let block = round_to (max size node_size) a in
      let offset = if guarded then round_to (max guard_size node_size) a else 0 in
      let stride = if guarded then round_to (offset + block + guard_size) a else block in
      record {
        block_size = block;
        block_count = count;
        alignment = a;
        payload_offset = offset;
        block_stride = stride;
        storage_size = stride * count;
      }

-- A product with a positive number is no smaller.
le-mul : (a b : ℕ) → 0 < b → a ≤ a * b
le-mul a b h = grind arith

pub max-IsAlignment : {a b : ℕ} → IsAlignment a → IsAlignment b → IsAlignment (max a b)
max-IsAlignment {a} {b} v w = elim (dec_lt a b) [
  | yes less ↦ let e : max a b ≡ b = omega arith in rw e w
  | no more ↦ let e : max a b ≡ a = omega arith in rw e v
]

make_unguarded :
    (size count requested node_size node_alignment guard_size : ℕ)
    → size < size_mod
    → node_size < size_mod
    → count < size_mod
    → 0 < count
    → IsAlignment requested
    → IsAlignment node_alignment
    → let ideal = ideal_layout size count requested false node_size node_alignment guard_size in
      make_block_layout size count requested false node_size node_alignment guard_size
      ≡ capped ideal.storage_size ideal
unfolding make_block_layout guarded_offset guarded_stride ideal_layout
make_unguarded size count requested node_size node_alignment guard_size hs hn hc pos vr vn =
    let va = max-IsAlignment vr vn in
    let a = max requested node_alignment in
    let block = round_to (max size node_size) a in
    rw
      (
        ne→== count 0 (omega arith),
        validate_alignment-ok vr,
        round_up-round_to (max size node_size) a (omega arith) va,
      )
      (capped_step block (block * count) _ _ (le-mul block count pos) (λ fits.
        rw (checked_multiply-capped block count (omega arith) hc)
          (capped_step (block * count) (block * count) _ _ (omega arith) (capped_done _ _))))

guarded_stride-capped :
    (offset block guard_size a : ℕ)
    → offset < size_mod
    → block < size_mod
    → guard_size < size_mod
    → IsAlignment a
    → let stride = round_to (offset + block + guard_size) a in
      guarded_stride true offset block guard_size a ≡ capped stride stride
unfolding guarded_stride
guarded_stride-capped offset block guard_size a ho hb hg va =
    let payload_end = offset + block in
    let stride = round_to (payload_end + guard_size) a in
    let up = round_to_lower (payload_end + guard_size) a (IsAlignment-pos va) in
    rw (checked_add-capped offset block ho hb) (
      capped_step payload_end stride _ _ (omega arith) (λ f1.
        rw (checked_add-capped payload_end guard_size (omega arith) hg) (
          capped_step (payload_end + guard_size) stride _ _ up
            (λ f2. round_up-round_to (payload_end + guard_size) a (omega arith) va))))

make_guarded :
    (size count requested node_size node_alignment guard_size : ℕ)
    → size < size_mod
    → guard_size < size_mod
    → node_size < size_mod
    → count < size_mod
    → 0 < count
    → IsAlignment requested
    → IsAlignment node_alignment
    → let ideal = ideal_layout size count requested true node_size node_alignment guard_size in
      make_block_layout size count requested true node_size node_alignment guard_size
      ≡ capped ideal.storage_size ideal
unfolding make_block_layout guarded_offset ideal_layout
make_guarded size count requested node_size node_alignment guard_size hs hg hn hc pos vr vn =
    let va = max-IsAlignment vr vn in
    let a = max requested node_alignment in
    let block = round_to (max size node_size) a in
    let offset = round_to (max guard_size node_size) a in
    let payload_end = offset + block in
    let stride = round_to (payload_end + guard_size) a in
    let whole = stride * count in
    let last = le-mul stride count pos in
    let up = round_to_lower (payload_end + guard_size) a (IsAlignment-pos va) in
    rw
      (
        ne→== count 0 (omega arith),
        validate_alignment-ok vr,
        round_up-round_to (max size node_size) a (omega arith) va,
      )
      (capped_step block whole _ _ (omega arith) (λ f1.
        rw (round_up-round_to (max guard_size node_size) a (omega arith) va) (
          capped_step offset whole _ _ (omega arith) (λ f2.
            rw (guarded_stride-capped offset block guard_size a (omega arith) (omega arith) hg va) (
              capped_step stride whole _ _ last (λ f3.
                rw (checked_multiply-capped stride count (omega arith) hc)
                  (capped_step whole whole _ _ (omega arith) (capped_done _ _))))))))

-- Given a block to make and alignments that are powers of two, the layout is the one that unbounded
-- arithmetic gives, and `length_error` is thrown exactly when its storage size does not fit a word:
-- no intermediate overflow goes unnoticed, and none is reported needlessly.
pub make_block_layout-ideal_layout :
    (size count requested : ℕ) (guarded : Bool) (node_size node_alignment guard_size : ℕ)
    → size < size_mod
    → guard_size < size_mod
    → node_size < size_mod
    → count < size_mod
    → 0 < count
    → IsAlignment requested
    → IsAlignment node_alignment
    → let ideal = ideal_layout size count requested guarded node_size node_alignment guard_size in
      make_block_layout size count requested guarded node_size node_alignment guard_size
      ≡ (if ltb size_max ideal.storage_size then err length_error else ok ideal)
make_block_layout-ideal_layout size count requested true node_size node_alignment guard_size hs hg =
    make_guarded size count requested node_size node_alignment guard_size hs hg
make_block_layout-ideal_layout size count requested false node_size node_alignment guard_size hs
      hg =
    make_unguarded size count requested node_size node_alignment guard_size hs

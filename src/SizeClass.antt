-- ===== src/SizeClass.antt =====
-- src/size_class_selector.cpp: the size classes, and the one that serves a request.
-- A `SizeClassSelector` is its list of class sizes.
pub mod Selection
mod Examples
use fixed_size_memory_pool.Base.{
  ℕ, suc, ◌||◌, not, leb, ltb, ◌==◌, if◌then◌else◌, max_of, List, [], ◌∷◌, length, get_or, Option,
  none, some, Result, ok, err, invalid_argument, out_of_range, ◌>>=◌, ◌>>◌, throw_if,
}
use fixed_size_memory_pool.Base.Bits.{is_power_of_two}

abbrev pub pointer_size : ℕ
pointer_size = 8

-- The loop of the constructor.
unfoldable pub validate_classes : List ℕ → ℕ → Result (Unit {0})
validate_classes [] previous = ok tt
validate_classes (class_size ∷ rest) previous =
    let checked = validate_classes rest class_size in
    do
      throw_if (not (is_power_of_two class_size) || ltb class_size pointer_size) invalid_argument
      throw_if (leb class_size previous) invalid_argument
      checked

-- `SizeClassSelector::SizeClassSelector`.
unfoldable pub construct : List ℕ → Result (List ℕ)
construct size_classes = do
  throw_if (length size_classes == 0) invalid_argument
  validate_classes size_classes 0
  ok size_classes

abbrev pub default_size_classes : List ℕ
default_size_classes = 8 ∷ 16 ∷ 32 ∷ 64 ∷ 128 ∷ 256 ∷ 512 ∷ 1024 ∷ 2048 ∷ 4096 ∷ []

-- The position that `std::lower_bound` finds in an ascending list.
unfoldable pub lower_bound : List ℕ → ℕ → ℕ
lower_bound [] required = 0
lower_bound (class_size ∷ rest) required =
    let later = lower_bound rest required in if ltb class_size required then suc later else 0

unfoldable pub select : List ℕ → ℕ → ℕ → Result (Option ℕ)
select size_classes size alignment =
    if not (is_power_of_two alignment)
    then err invalid_argument
    else (let selected = lower_bound size_classes (max_of (max_of size 1) alignment) in
        ok (if selected == length size_classes then none else some selected))

unfoldable pub class_size : List ℕ → ℕ → Result ℕ
class_size size_classes index = do
  throw_if (leb (length size_classes) index) out_of_range
  ok (get_or size_classes index 0)

unfoldable pub class_count : List ℕ → ℕ
class_count size_classes = length size_classes

-- The constructor rules out the empty list, whose `back()` would be undefined.
unfoldable pub maximum_size_class : List ℕ → ℕ
maximum_size_class [] = 0
maximum_size_class (only ∷ []) = only
maximum_size_class (_ ∷ second ∷ rest) = maximum_size_class (second ∷ rest)

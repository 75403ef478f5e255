-- ===== src/SizeClass/Examples.antt =====
-- The selector on the classes of 8, 16 and 32 bytes.
use fixed_size_memory_pool.Base.{
  ℕ, ◌<◌, ◌≡◌, refl, arith, List, [], ◌∷◌, length, Option, none, some, ok,
}
use fixed_size_memory_pool.Base.Bits.{is_power_of_two}
use fixed_size_memory_pool.SizeClass.{construct, validate_classes, select, lower_bound}
use fixed_size_memory_pool.SizeClass.Selection.{
  IsAscending, Routed, select_lem, construct-IsAscending,
}

abbrev classes : List ℕ
classes = 8 ∷ 16 ∷ 32 ∷ []

classes-IsAscending : IsAscending 0 classes
classes-IsAscending = (
  (3, refl),
  omega arith,
  omega arith,
  ((4, refl), omega arith, omega arith, ((5, refl), omega arith, omega arith, tt)),
)

classes_made : construct classes ≡ ok classes
unfolding construct validate_classes is_power_of_two
classes_made = refl

-- 24 bytes at a multiple of 16 take the class of 32, and 33 bytes take none.
selects : (select classes 24 16 ≡ ok (some 2)) × (select classes 33 8 ≡ ok none)
unfolding select lower_bound is_power_of_two
selects = (refl, refl)

select_lem_example :
    (answer : Option ℕ) × (select classes 24 16 ≡ ok answer) × Routed classes 24 16 answer
select_lem_example = select_lem classes 24 16 classes-IsAscending (4, refl) (omega arith)

construct-IsAscending_example : (classes ≡ classes) × (0 < length classes) × IsAscending 0 classes
construct-IsAscending_example =
    construct-IsAscending classes classes (omega arith, (omega arith, (omega arith, tt)))
      classes_made

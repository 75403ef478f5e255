-- ===== src/Diagnostics/Examples.antt =====
-- The check on a table of three blocks, of which the middle one is in use.
use fixed_size_memory_pool.Base.{
  ℕ, ◌<◌, ◌≡◌, refl, List, [], ◌∷◌, length, get_or, has, Distinct, Below, ok,
}
use fixed_size_memory_pool.Diagnostics.{
  BlockState, free, allocated, is_free, validate_free_blocks, mark_seen, compare_states,
}
use fixed_size_memory_pool.Diagnostics.Validation.{validate_free_blocks-agree}

abbrev free_list : List ℕ
free_list = 2 ∷ 0 ∷ []

abbrev table : List BlockState
table = free ∷ allocated ∷ free ∷ []

table_valid : validate_free_blocks table free_list 2 ≡ ok tt
unfolding validate_free_blocks mark_seen compare_states
table_valid = refl

validate_free_blocks-agree_example :
    (length free_list ≡ 2)
    × Distinct free_list
    × Below (length table) free_list
    × ((i : ℕ) → i < length table → is_free (get_or table i free) ≡ has i free_list)
validate_free_blocks-agree_example = validate_free_blocks-agree table free_list 2 table_valid

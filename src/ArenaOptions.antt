-- ===== src/ArenaOptions.antt =====
-- include/memory_pool/arena_options.hpp and arena_statistics.hpp with the functions of
-- src/monotonic_arena.cpp on the options: their validation and the size of the next chunk.
pub mod Growth
mod Examples
use fixed_size_memory_pool.Base.{
  ℕ, zero, suc, ◌+◌, ◌-◌, ◌*◌, ◌/◌, ◌%◌, Bool, true, false, not, ◌&&◌, ◌||◌, ltb, leb, ◌==◌,
  if◌then◌else◌, max_of, min_of, Option, none, some, List, [], ◌∷◌, ◌++◌, length, get_elem?, set,
  Result, ok, err, invalid_argument, logic_error, add_word, sub_word, size_mod, size_max, ◌>>=◌,
  ◌>>◌, throw_if,
}
use fixed_size_memory_pool.Base.Bits.{is_power_of_two}

pub data ArenaGrowthMode : Type 0 where
  fixed geometric : ArenaGrowthMode

pub record ArenaGrowthPolicy : Type 0 where
  pub mode : ArenaGrowthMode
  pub factor : ℕ
  pub maximum_chunk_size : ℕ

pub data ArenaResetPolicy : Type 0 where
  retain_all_chunks retain_initial_chunk : ArenaResetPolicy

pub record MonotonicArenaOptions : Type 0 where
  pub initial_chunk_size : ℕ
  pub initial_alignment : ℕ
  pub growth : ArenaGrowthPolicy
  pub reset_policy : ArenaResetPolicy

pub record ArenaStatistics : Type 0 where
  pub allocation_requests : ℕ
  pub successful_allocations : ℕ
  pub failed_allocations : ℕ
  pub requested_bytes : ℕ
  pub current_used_bytes : ℕ
  pub peak_used_bytes : ℕ
  pub padding_bytes : ℕ
  pub current_reserved_bytes : ℕ
  pub peak_reserved_bytes : ℕ
  pub current_chunks : ℕ
  pub peak_chunks : ℕ
  pub chunk_allocations : ℕ
  pub chunk_releases : ℕ
  pub reset_calls : ℕ
  pub object_constructions : ℕ
  pub construction_failures : ℕ
  pub destructor_calls : ℕ

abbrev pub is_geometric : ArenaGrowthMode → Bool
is_geometric fixed = false
is_geometric geometric = true

abbrev pub retains_all : ArenaResetPolicy → Bool
retains_all retain_all_chunks = true
retains_all retain_initial_chunk = false

-- `alignof(std::max_align_t)`.
abbrev pub max_align : ℕ
max_align = 16

unfoldable pub validate_options : MonotonicArenaOptions → Result MonotonicArenaOptions
validate_options options = do
  throw_if (options.initial_chunk_size == 0) invalid_argument
  throw_if (not (is_power_of_two options.initial_alignment)) invalid_argument
  throw_if (is_geometric options.growth.mode && ltb options.growth.factor 2) invalid_argument
  throw_if
      (not (options.growth.maximum_chunk_size == 0)
        && ltb options.growth.maximum_chunk_size options.initial_chunk_size)
      invalid_argument
  ok (record options { initial_alignment = max_of options.initial_alignment max_align })

unfoldable pub calculate_next_chunk_size : MonotonicArenaOptions → ℕ → ℕ
calculate_next_chunk_size options current_size =
    let maximum = options.growth.maximum_chunk_size in
    let factor = options.growth.factor in
    if not (is_geometric options.growth.mode)
    then options.initial_chunk_size
    else if not (maximum == 0) && leb maximum current_size
    then maximum
    else if ltb (size_max / factor) current_size
    then if not (maximum == 0) then maximum else size_max
    else (let next = current_size * factor % size_mod in
        if not (maximum == 0) then min_of next maximum else next)

abbrev pub no_statistics : ArenaStatistics
no_statistics = record {
  allocation_requests = 0;
  successful_allocations = 0;
  failed_allocations = 0;
  requested_bytes = 0;
  current_used_bytes = 0;
  peak_used_bytes = 0;
  padding_bytes = 0;
  current_reserved_bytes = 0;
  peak_reserved_bytes = 0;
  current_chunks = 0;
  peak_chunks = 0;
  chunk_allocations = 0;
  chunk_releases = 0;
  reset_calls = 0;
  object_constructions = 0;
  construction_failures = 0;
  destructor_calls = 0;
}

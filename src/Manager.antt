-- ===== src/Manager.antt =====
-- src/chunk_manager.cpp and include/memory_pool/chunk_policies.hpp: the chunks of a growing pool,
-- how many blocks the next one gets, and which empty ones are given back. A `MemoryChunk&` or
-- `MemoryChunk*` into the vector is a position in the list. The allocations of the vector itself
-- are taken to succeed.
pub mod Growth
pub mod Reclamation
pub mod Arrangement
pub mod Service
pub mod Returns
pub mod Upkeep
pub mod Expansion
mod Examples
use fixed_size_memory_pool.Base.{
  ℕ, zero, suc, ◌*◌, ◌/◌, ◌%◌, Bool, true, false, not, ◌&&◌, ◌||◌, ltb, leb, ◌==◌, if◌then◌else◌,
  min_of, Option, none, some, List, [], ◌∷◌, ◌++◌, length, get_elem?, set, remove_at, Result, ok,
  err, invalid_argument, invalid_pool_pointer, add_word, sub_word, size_mod, size_max, ◌>>=◌, ◌>>◌,
  throw_if,
}
use fixed_size_memory_pool.Memory.{Ptr, null, Memory}
use fixed_size_memory_pool.Provider.{Provider, Operators, World, or_default}
use fixed_size_memory_pool.Chunk.{Chunk}
use fixed_size_memory_pool.Chunk

pub data GrowthMode : Type 0 where
  fixed geometric : GrowthMode

pub record GrowthPolicy : Type 0 where
  pub mode : GrowthMode
  pub factor : ℕ
  pub maximum_blocks_per_chunk : ℕ

pub record ChunkManagerOptions : Type 0 where
  pub block_size : ℕ
  pub initial_blocks : ℕ
  pub alignment : ℕ
  pub growth : GrowthPolicy
  pub spare_empty_chunks : ℕ

pub record Manager (S : Type 0) : Type 0 where
  pub options : ChunkManagerOptions
  pub provider : Provider S
  pub chunks : List Chunk
  pub block_size : ℕ
  pub alignment : ℕ
  pub next_growth_blocks : ℕ

abbrev pub is_geometric : GrowthMode → Bool
is_geometric fixed = false
is_geometric geometric = true

unfoldable pub calculate_next_growth : ChunkManagerOptions → ℕ → ℕ
calculate_next_growth options current_blocks =
    let maximum = options.growth.maximum_blocks_per_chunk in
    let factor = options.growth.factor in
    if not (is_geometric options.growth.mode)
    then options.initial_blocks
    else if not (maximum == 0) && leb maximum current_blocks
    then maximum
    else if ltb (size_max / factor) current_blocks
    then if not (maximum == 0) then maximum else size_max
    else (let next = current_blocks * factor % size_mod in
        if not (maximum == 0) then min_of next maximum else next)

-- The tests of the constructor.
unfoldable pub validate_options : ChunkManagerOptions → Result (Unit {0})
validate_options options = do
  throw_if (options.initial_blocks == 0) invalid_argument
  throw_if (is_geometric options.growth.mode && ltb options.growth.factor 2) invalid_argument
  throw_if
      (not (options.growth.maximum_blocks_per_chunk == 0)
        && ltb options.growth.maximum_blocks_per_chunk options.initial_blocks)
      invalid_argument

-- The first chunk with a free block serves the request.
unfoldable pub allocate_from : Memory → List Chunk → List Chunk × Ptr
allocate_from m [] = ([], null)
allocate_from m (chunk ∷ rest) =
    let (later, p) = allocate_from m rest in
    if not (Chunk.available chunk == 0)
    then (let (taken, q) = Chunk.allocate m chunk in (taken ∷ rest, q))
    else (chunk ∷ later, p)

-- The chunk that owns a pointer, with its position.
unfoldable pub find_chunk : List Chunk → Ptr → Option (ℕ × Chunk)
find_chunk [] p = none
find_chunk (chunk ∷ rest) p =
    let later = find_chunk rest p in
    if Chunk.owns chunk p
    then some (0, chunk)
    else elim later [ none ↦ none | some (i, found) ↦ some (suc i, found) ]

unfoldable pub count_empty : List Chunk → ℕ
count_empty [] = 0
count_empty (chunk ∷ rest) =
    let later = count_empty rest in if Chunk.empty chunk then suc later else later

unfoldable pub sum_blocks : (Chunk → ℕ) → List Chunk → ℕ
sum_blocks blocks [] = 0
sum_blocks blocks (chunk ∷ rest) = add_word (blocks chunk) (sum_blocks blocks rest)

module _ {S : Type 0} where
  -- The manager with its new chunk, whose position is the result.
  unfoldable pub add_chunk : Manager S → Chunk → Manager S × ℕ
  add_chunk manager chunk = (
    record manager {
      chunks = manager.chunks ++ (chunk ∷ []);
      next_growth_blocks = calculate_next_growth manager.options manager.next_growth_blocks;
    },
    length manager.chunks,
  )

  unfoldable pub grow : Manager S → World S → World S × Manager S × Result ℕ
  grow manager w =
      let (after, answer) =
        Chunk.construct (some manager.provider) manager.options.block_size
          manager.next_growth_blocks manager.options.alignment w in
      elim answer [
        | err e ↦ (after, manager, err e)
        | ok chunk ↦ let (grown, position) = add_chunk manager chunk in (after, grown, ok position)
      ]

  -- The dimensions that the first chunk gives to the manager.
  unfoldable pub adopt : Manager S → ℕ → Result (Manager S)
  adopt manager position = elim (get_elem? manager.chunks position) [
    | none ↦ err invalid_argument
    | some chunk ↦
        ok (record manager { block_size = chunk.block_size; alignment = chunk.alignment })
  ]

  -- `ChunkManager::ChunkManager`.
  unfoldable pub construct :
      Operators S
      → ChunkManagerOptions
      → Option (Provider S)
      → World S
      → World S × Result (Manager S)
  construct operators options provider w = elim (validate_options options) [
    | err e ↦ (w, err e)
    | ok _ ↦
        let (after, grown, answer) =
          grow
            (record {
              options = options;
              provider = or_default operators provider;
              chunks = [];
              block_size = 0;
              alignment = 0;
              next_growth_blocks = options.initial_blocks;
            })
            w in
        (after, answer >>= adopt grown)
  ]

  unfoldable pub try_allocate : Memory → Manager S → Manager S × Ptr
  try_allocate m manager =
      let (chunks, p) = allocate_from m manager.chunks in (record manager { chunks = chunks }, p)

  -- The chunk at the position has just changed to the one given.
  unfoldable pub reclaim_if_allowed : Manager S → ℕ → Chunk → World S → World S × Manager S
  reclaim_if_allowed manager position chunk w =
      if not (Chunk.empty chunk)
      then (w, manager)
      else if leb (count_empty manager.chunks) manager.options.spare_empty_chunks
      then (w, manager)
      else (
        Chunk.destroy manager.provider chunk w,
        record manager { chunks = remove_at manager.chunks position },
      )

  unfoldable pub deallocate_in :
      Manager S → ℕ → Chunk → Ptr → World S → World S × Manager S × Result (Unit {0})
  deallocate_in manager position chunk p w = elim (Chunk.deallocate w.memory chunk p) [
    | err e ↦ (w, manager, err e)
    | ok (memory, changed) ↦
        let (after, left) =
          reclaim_if_allowed (record manager { chunks = set manager.chunks position changed })
            position changed (record w { memory = memory }) in
        (after, left, ok tt)
  ]

  unfoldable pub deallocate : Manager S → Ptr → World S → World S × Manager S × Result (Unit {0})
  deallocate manager p w =
      if p == null then (w, manager, ok tt) else elim (find_chunk manager.chunks p) [
        | none ↦ (w, manager, err invalid_pool_pointer)
        | some (position, chunk) ↦ deallocate_in manager position chunk p w
      ]

  unfoldable pub destroy_chunks : Provider S → List Chunk → World S → World S
  destroy_chunks provider [] w = w
  destroy_chunks provider (chunk ∷ rest) w =
      destroy_chunks provider rest (Chunk.destroy provider chunk w)

  -- `~ChunkManager`.
  unfoldable pub destroy : Manager S → World S → World S
  destroy manager w = destroy_chunks manager.provider manager.chunks w

  unfoldable pub chunk_count : Manager S → ℕ
  chunk_count manager = length manager.chunks

  unfoldable pub capacity : Manager S → ℕ
  capacity manager = sum_blocks (λ c. c.block_count) manager.chunks

  unfoldable pub available : Manager S → ℕ
  available manager = sum_blocks Chunk.available manager.chunks

  unfoldable pub in_use : Manager S → ℕ
  in_use manager = sub_word (capacity manager) (available manager)

-- ===== src/Arena.antt =====
-- src/monotonic_arena.cpp: an arena that hands out memory in ascending order and takes it all back
-- at once. A reference or pointer to a chunk is its position in the list of chunks; the destructors
-- are kept newest first.
pub mod Reset
pub mod Objects
pub mod Rollback
mod Examples
use fixed_size_memory_pool.Base.{
  ℕ, zero, suc, ◌+◌, ◌-◌, ◌*◌, ◌/◌, ◌%◌, Bool, true, false, not, ◌&&◌, ◌||◌, ltb, leb, ◌==◌,
  if◌then◌else◌, max_of, min_of, Option, none, some, List, [], ◌∷◌, ◌++◌, length, get_elem?, set,
  Result, ok, err, invalid_argument, logic_error, add_word, sub_word, size_mod, size_max, ◌>>=◌,
  ◌>>◌, throw_if,
}
use fixed_size_memory_pool.Base.Bits.{is_power_of_two}
use fixed_size_memory_pool.Memory.{Ptr, null}
use fixed_size_memory_pool.Provider.{Provider, Operators, or_default}
use fixed_size_memory_pool.ArenaOptions.{
  MonotonicArenaOptions, ArenaStatistics, no_statistics, validate_options,
  calculate_next_chunk_size,
}
use fixed_size_memory_pool.ArenaChunk.{
  ArenaChunk, ArenaAllocation, try_allocate, rewind, chunk_owns,
}

-- `chunk` is the position of the chunk, or none for a null pointer.
pub record LastAllocation : Type 0 where
  pub chunk : Option ℕ
  pub pointer : Ptr
  pub previous_offset : ℕ
  pub consumed_bytes : ℕ

abbrev pub no_allocation : LastAllocation
no_allocation = record { chunk = none; pointer = null; previous_offset = 0; consumed_bytes = 0 }

pub record Arena (S D : Type 0) : Type 0 where
  pub options : MonotonicArenaOptions
  pub provider : Provider S
  pub chunks : List ArenaChunk
  pub destructors : List (Ptr × D)
  pub current_chunk : ℕ
  pub next_chunk_size : ℕ
  pub last_allocation : LastAllocation
  pub statistics : ArenaStatistics

-- The first chunk, from the position `skip` on, that has room, with what the allocation makes of it.
unfoldable pub find_room :
    (skip : ℕ) → List ArenaChunk → ℕ → ℕ → Option (ℕ × ArenaChunk × ArenaAllocation)
find_room skip [] size alignment = none
find_room (suc skip) (chunk ∷ rest) size alignment = elim (find_room skip rest size alignment) [
  | none ↦ none
  | some (i, changed, allocation) ↦ some (suc i, changed, allocation)
]
find_room zero (chunk ∷ rest) size alignment = elim (try_allocate chunk size alignment) [
  | some (changed, allocation) ↦ some (0, changed, allocation)
  | none ↦ elim (find_room zero rest size alignment) [
    | none ↦ none
    | some (i, changed, allocation) ↦ some (suc i, changed, allocation)
  ]
]

module _ {S D : Type 0} where
  unfoldable pub push_chunk : Arena S D → ArenaChunk → Arena S D × ℕ
  push_chunk arena chunk =
      let chunks = arena.chunks ++ (chunk ∷ []) in
      let s = arena.statistics in
      let reserved = add_word s.current_reserved_bytes chunk.capacity in
      (
        record arena {
          chunks = chunks;
          statistics = record s {
            chunk_allocations = add_word s.chunk_allocations 1;
            current_chunks = length chunks;
            peak_chunks = max_of s.peak_chunks (length chunks);
            current_reserved_bytes = reserved;
            peak_reserved_bytes = max_of s.peak_reserved_bytes reserved;
          };
        },
        length arena.chunks,
      )

  unfoldable pub add_chunk : Arena S D → ℕ → ℕ → S → S × Arena S D × Result ℕ
  add_chunk arena capacity alignment heap =
      let (after, answer) = arena.provider.allocate heap capacity alignment in
      elim answer [
        | err e ↦ (after, arena, err e)
        | ok storage ↦
            let (grown, position) = push_chunk arena (record {
              storage = storage;
              capacity = capacity;
              alignment = alignment;
              offset = 0;
            }) in
            (after, grown, ok position)
      ]

  unfoldable pub record_allocation : Arena S D → ℕ → ArenaAllocation → ℕ → Arena S D
  record_allocation arena position allocation requested_size =
      let s = arena.statistics in
      let used = add_word s.current_used_bytes allocation.consumed_bytes in
      record arena {
        statistics = record s {
          successful_allocations = add_word s.successful_allocations 1;
          requested_bytes = add_word s.requested_bytes requested_size;
          current_used_bytes = used;
          peak_used_bytes = max_of s.peak_used_bytes used;
          padding_bytes =
              add_word s.padding_bytes (sub_word allocation.consumed_bytes requested_size);
        };
        last_allocation = record {
          chunk = some position;
          pointer = allocation.pointer;
          previous_offset = allocation.previous_offset;
          consumed_bytes = allocation.consumed_bytes;
        };
      }

  abbrev count_failure : Arena S D → Arena S D
  count_failure arena = record arena {
    statistics = record arena.statistics {
      failed_allocations = add_word arena.statistics.failed_allocations 1;
    };
  }

  -- An allocation at a position becomes part of the arena.
  unfoldable pub commit : Arena S D → ℕ → ArenaChunk → ArenaAllocation → ℕ → Arena S D
  commit arena position changed allocation request_size =
      record_allocation
        (record arena { chunks = set arena.chunks position changed; current_chunk = position })
        position allocation request_size

  -- The new chunk at the position serves the request that it was made for.
  unfoldable pub serve_new : Arena S D → ℕ → ℕ → ℕ → Arena S D × Result Ptr
  serve_new arena position request_size alignment =
      let moved = record arena {
        current_chunk = position;
        next_chunk_size = calculate_next_chunk_size arena.options arena.next_chunk_size;
      } in
      elim (get_elem? moved.chunks position) [
        | none ↦ (count_failure moved, err logic_error)
        | some chunk ↦ elim (try_allocate chunk request_size alignment) [
          | none ↦ (count_failure moved, err logic_error)
          | some (changed, allocation) ↦
              (commit moved position changed allocation request_size, ok allocation.pointer)
        ]
      ]

  unfoldable pub allocate_new : Arena S D → ℕ → ℕ → S → S × Arena S D × Result Ptr
  allocate_new arena request_size alignment heap =
      let (after, grown, answer) =
        add_chunk arena (max_of arena.next_chunk_size request_size)
          (max_of arena.options.initial_alignment alignment) heap in
      elim answer [
        | err e ↦ (after, count_failure grown, err e)
        | ok position ↦
            let (served, pointer) = serve_new grown position request_size alignment in
            (after, served, pointer)
      ]

  -- `Impl::allocate`.
  unfoldable pub allocate : Arena S D → ℕ → ℕ → S → S × Arena S D × Result Ptr
  allocate arena size alignment heap =
      let counted = record arena {
        statistics = record arena.statistics {
          allocation_requests = add_word arena.statistics.allocation_requests 1;
        };
      } in
      if not (is_power_of_two alignment)
      then (heap, count_failure counted, err invalid_argument)
      else (let request_size = max_of size 1 in
          elim (find_room counted.current_chunk counted.chunks request_size alignment) [
            | some (position, changed, allocation) ↦ (
              heap,
              commit counted position changed allocation request_size,
              ok allocation.pointer,
            )
            | none ↦ allocate_new counted request_size alignment heap
          ])

  -- `MonotonicArena::MonotonicArena`.
  unfoldable pub construct :
      Operators S → MonotonicArenaOptions → Option (Provider S) → S → S × Result (Arena S D)
  construct operators requested provider heap = elim (validate_options requested) [
    | err e ↦ (heap, err e)
    | ok options ↦
        let (after, arena, answer) =
          add_chunk
            (record {
              options = options;
              provider = or_default operators provider;
              chunks = [];
              destructors = [];
              current_chunk = 0;
              next_chunk_size = calculate_next_chunk_size options options.initial_chunk_size;
              last_allocation = no_allocation;
              statistics = no_statistics;
            })
            options.initial_chunk_size options.initial_alignment heap in
        (after, answer >>= λ _. ok arena)
  ]

  unfoldable pub rewind_last : Arena S D → ℕ → ArenaChunk → Arena S D
  rewind_last arena position chunk = record arena {
    chunks = set arena.chunks position (rewind chunk arena.last_allocation.previous_offset);
    statistics = record arena.statistics {
      current_used_bytes =
          sub_word arena.statistics.current_used_bytes arena.last_allocation.consumed_bytes;
    };
    last_allocation = no_allocation;
  }

  unfoldable pub rollback_last : Arena S D → Ptr → Arena S D
  rollback_last arena pointer =
      let counted = record arena {
        statistics = record arena.statistics {
          construction_failures = add_word arena.statistics.construction_failures 1;
        };
      } in
      elim arena.last_allocation.chunk [
        | none ↦ counted
        | some position ↦
            if not (arena.last_allocation.pointer == pointer)
            then counted
            else elim (get_elem? arena.chunks position) [
              | none ↦ counted
              | some chunk ↦ rewind_last counted position chunk
            ]
      ]

  unfoldable pub note_object_construction : Arena S D → Arena S D
  note_object_construction arena = record arena {
    statistics = record arena.statistics {
      object_constructions = add_word arena.statistics.object_constructions 1;
    };
  }

  unfoldable pub register_destructor : Arena S D → Ptr → D → Arena S D
  register_destructor arena object destructor = record arena {
    destructors = (object, destructor) ∷ arena.destructors;
  }

  unfoldable pub owns : Arena S D → Ptr → Bool
  owns arena pointer = any_owns arena.chunks
    where
      any_owns : List ArenaChunk → Bool
      any_owns [] = false
      any_owns (chunk ∷ rest) = chunk_owns chunk pointer || any_owns rest

-- ===== src/ThreadCache.antt =====
-- src/detail/thread_cache_state.cpp: the part of a thread-cached allocator that its threads share,
-- and what an operation does to the bins of the thread that calls it. The central allocator is a
-- record of operations; an operation of one thread is one step here, and `thread` is the number
-- that `current_thread_id` gives the caller. The last element of a bin is the head of its list.
pub mod Allocate
pub mod Deallocate
pub mod Records
pub mod Bin
pub mod Flush
pub mod Draining
pub mod Options
pub mod Capacity
pub mod Batch
pub mod Usage
pub mod Filling
pub mod Serving
pub mod Returning
pub mod Slots
pub mod Threads
pub mod Release
use fixed_size_memory_pool.Base.{
  ℕ, zero, suc, ◌+◌, ◌-◌, ◌/◌, ◌%◌, Bool, true, false, not, ◌&&◌, ◌||◌, ◌==◌, ltb, if◌then◌else◌,
  max_of, is_some, Option, none, some, List, [], ◌∷◌, length, get_or, set, Result, ok, err, Error,
  invalid_pool_pointer, double_free, logic_error, bad_alloc, allocation_mismatch, size_max,
  add_word, sub_word,
}
use fixed_size_memory_pool.Base.Maps.{lookup, insert, erase, assign}
use fixed_size_memory_pool.Memory.{Ptr, null}
use fixed_size_memory_pool.SizeClass
use fixed_size_memory_pool.SizeClass.{select, class_size}
use fixed_size_memory_pool.ThreadCacheOptions.{
  ThreadCacheOptions, ThreadCacheStatistics, note_live_allocation, note_cached, note_hit,
  note_local,
}

-- What the shared part asks of the central allocator, which it calls under one mutex.
pub record Central (C : Type 0) : Type 0 where
  pub allocate : C → ℕ → ℕ → C × Result Ptr
  pub deallocate : C → Ptr → C × Result (Unit {0})
  pub deallocate_sized : C → Ptr → ℕ → ℕ → C × Result (Unit {0})

pub record AllocationRecord : Type 0 where
  pub class_index : ℕ
  pub requested_size : ℕ
  pub alignment : ℕ
  pub owner_thread : ℕ
  pub active : Bool

abbrev pub shard_count : ℕ
shard_count = 64

-- `static_cast<std::size_t>(-1)`.
abbrev pub fallback_class : ℕ
fallback_class = size_max

abbrev pub Shard : Type 0
Shard = List (Ptr × AllocationRecord)

abbrev pub Bins : Type 0
Bins = List (List Ptr)

pub record ThreadCacheState (C : Type 0) : Type 0 where
  pub cache_options : ThreadCacheOptions
  pub selector : List ℕ
  pub central : C
  pub shards : ℕ → Shard
  pub statistics : ThreadCacheStatistics

abbrev pub drop_cached : ThreadCacheStatistics → ThreadCacheStatistics
drop_cached t = record t { cached_blocks = sub_word t.cached_blocks 1 }

abbrev pub note_flush : ℕ → ThreadCacheStatistics → ThreadCacheStatistics
note_flush released t =
    if released == 0 then t else record t { batch_flushes = add_word t.batch_flushes 1 }

abbrev pub normalized_size : ℕ → ℕ
normalized_size size = max_of size 1

unfoldable pub shard_for : Ptr → ℕ
shard_for pointer = pointer / 16 % shard_count

module _ {C : Type 0} where
  unfoldable pub find_record : ThreadCacheState C → Ptr → Option AllocationRecord
  find_record s pointer = lookup pointer (s.shards (shard_for pointer))

  -- The state after a change to the shard of a pointer.
  unfoldable pub with_shard : ThreadCacheState C → Ptr → (Shard → Shard) → ThreadCacheState C
  with_shard s pointer change = record s {
    shards = λ i. if i == shard_for pointer then change (s.shards i) else s.shards i;
  }

  abbrev pub tally :
      ThreadCacheState C → (ThreadCacheStatistics → ThreadCacheStatistics) → ThreadCacheState C
  tally s change = record s { statistics = change s.statistics }

  unfoldable pub validate_sized_deallocation :
      ThreadCacheState C → AllocationRecord → ℕ → ℕ → Result (Unit {0})
  validate_sized_deallocation s r size alignment =
      if r.class_index == fallback_class
      then if not (r.requested_size == normalized_size size) || not (r.alignment == alignment)
        then err allocation_mismatch
        else ok tt
      else elim (select s.selector (normalized_size size) alignment) [
        | err e ↦ err e
        | ok selected ↦ elim selected [
          | none ↦ err allocation_mismatch
          | some index ↦ if not (index == r.class_index) then err allocation_mismatch else ok tt
        ]
      ]

  unfoldable pub owns : ThreadCacheState C → Ptr → Bool
  owns s pointer = if pointer == null then false else is_some (find_record s pointer)

  unfoldable pub owning_size_class : ThreadCacheState C → Ptr → Result (Option ℕ)
  owning_size_class s pointer = if pointer == null then ok none else elim (find_record s pointer) [
    | none ↦ ok none
    | some r ↦
        if r.class_index == fallback_class
        then ok none
        else elim (class_size s.selector r.class_index) [ err e ↦ err e | ok size ↦ ok (some size) ]
  ]

  -- `central_allocate` after the call of the central allocator.
  unfoldable pub count_allocation :
      ThreadCacheState C → C × Result Ptr → ThreadCacheState C × Result Ptr
  count_allocation s (central, err e) = (record s { central = central }, err e)
  count_allocation s (central, ok pointer) = (
    record s {
      central = central;
      statistics = record s.statistics {
        central_allocations = add_word s.statistics.central_allocations 1;
      };
    },
    ok pointer,
  )

  -- `central_deallocate` after the call of the central allocator, whichever it is.
  unfoldable pub count_central :
      ThreadCacheState C → C × Result (Unit {0}) → ThreadCacheState C × Result (Unit {0})
  count_central s (central, err e) = (record s { central = central }, err e)
  count_central s (central, ok _) = (
    record s {
      central = central;
      statistics = record s.statistics {
        central_deallocations = add_word s.statistics.central_deallocations 1;
      };
    },
    ok tt,
  )

  -- The erasure of a block's record after the central allocator was given the block.
  unfoldable pub erase_released :
      Ptr → ThreadCacheState C × Result (Unit {0}) → ThreadCacheState C × Result (Unit {0})
  erase_released pointer (after, err e) = (after, err e)
  erase_released pointer (after, ok _) = (with_shard after pointer (erase pointer), ok tt)

  unfoldable pub finish_flush :
      ThreadCacheState C × List Ptr × ℕ × Result (Unit {0})
      → ThreadCacheState C × List Ptr × Result ℕ
  finish_flush (after, left, released, err e) = (after, left, err e)
  finish_flush (after, left, released, ok _) =
      (tally after (note_flush released), left, ok released)

  -- A round of the loop of `flush_bins`, with the rounds to come.
  unfoldable pub next_bin :
      (ThreadCacheState C → ℕ → ThreadCacheState C × Bins × Result ℕ)
      → Bins
      → ThreadCacheState C × List Ptr × Result ℕ
      → ThreadCacheState C × Bins × Result ℕ
  next_bin rest bins (after, left, err e) = (after, left ∷ bins, err e)
  next_bin rest bins (after, left, ok n) =
      let (last, others, total) = rest after n in (last, left ∷ others, total)

module _ {C : Type 0} (ops : Central C) where
  unfoldable pub central_allocate : ThreadCacheState C → ℕ → ℕ → ThreadCacheState C × Result Ptr
  central_allocate s size alignment = count_allocation s (ops.allocate s.central size alignment)

  unfoldable pub central_deallocate :
      ThreadCacheState C → Ptr → ThreadCacheState C × Result (Unit {0})
  central_deallocate s pointer = count_central s (ops.deallocate s.central pointer)

  unfoldable pub central_deallocate_sized :
      ThreadCacheState C → Ptr → ℕ → ℕ → ThreadCacheState C × Result (Unit {0})
  central_deallocate_sized s pointer size alignment =
      count_central s (ops.deallocate_sized s.central pointer size alignment)

  -- The check and the erasure of one round of the loop of `flush_bin`.
  unfoldable pub flush_one : ThreadCacheState C → Ptr → ThreadCacheState C × Result (Unit {0})
  flush_one s pointer = elim (find_record s pointer) [
    | none ↦ (s, err logic_error)
    | some r ↦
        if r.active
        then (s, err logic_error)
        else erase_released pointer (central_deallocate s pointer)
  ]

  -- The loop of `flush_bin`: the state, the rest of the bin, the number of blocks released, and
  -- the exception that ended the loop, if one did.
  unfoldable pub flush_loop :
      ThreadCacheState C
      → List Ptr
      → (target_size released : ℕ) → ThreadCacheState C × List Ptr × ℕ × Result (Unit {0})
  flush_loop s [] target_size released = (s, [], released, ok tt)
  flush_loop s (pointer ∷ bin) target_size released =
      if not (ltb target_size (length (pointer ∷ bin)))
      then (s, pointer ∷ bin, released, ok tt)
      else (let (after, answer) = flush_one s pointer in
          elim answer [
            | err e ↦ (after, pointer ∷ bin, released, err e)
            | ok _ ↦ flush_loop (tally after drop_cached) bin target_size (released + 1)
          ])

  unfoldable pub flush_bin :
      ThreadCacheState C → List Ptr → ℕ → ThreadCacheState C × List Ptr × Result ℕ
  flush_bin s bin target_size = finish_flush (flush_loop s bin target_size 0)

  -- `flush_bins`, with the count of the bins before.
  unfoldable pub flush_bins : ThreadCacheState C → Bins → ℕ → ThreadCacheState C × Bins × Result ℕ
  flush_bins s [] released = (s, [], ok released)
  flush_bins s (bin ∷ bins) released =
      next_bin (λ after n. flush_bins after bins (released + n)) bins (flush_bin s bin 0)

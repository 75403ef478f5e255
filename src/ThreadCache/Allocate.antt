-- ===== src/ThreadCache/Allocate.antt =====
-- `allocate` of src/detail/thread_cache_state.cpp. Whether the map of a shard finds the memory for a
-- new entry is a parameter.
use fixed_size_memory_pool.Base.{
  ℕ, zero, suc, ◌-◌, Bool, true, false, not, ◌==◌, if◌then◌else◌, is_some, none, some, List, [],
  ◌∷◌, get_or, set, Result, ok, err, Error, logic_error, bad_alloc, add_word,
}
use fixed_size_memory_pool.Base.Maps.{insert, assign}
use fixed_size_memory_pool.Memory.{Ptr, null}
use fixed_size_memory_pool.SizeClass.{select}
use fixed_size_memory_pool.ThreadCacheOptions.{
  ThreadCacheStatistics, note_live_allocation, note_cached, note_hit,
}
use fixed_size_memory_pool.ThreadCache.{
  Central, AllocationRecord, ThreadCacheState, Shard, Bins, fallback_class, normalized_size,
  shard_for, find_record, with_shard, tally, central_allocate, central_deallocate_sized,
}

-- How the body of a `try` ends: with a value, with an exception that its handler has dealt with, or
-- with one that the handler itself throws.
pub data Tried : Type 0 where
  done : Ptr → Tried
  caught : Error → Tried
  escaped : Error → Tried

abbrev pub note_request : ThreadCacheStatistics → ThreadCacheStatistics
note_request t = record t { allocation_requests = add_word t.allocation_requests 1 }

abbrev pub note_refill : ThreadCacheStatistics → ThreadCacheStatistics
note_refill t = record t { batch_refills = add_word t.batch_refills 1 }

abbrev pub request_record : (class_index size alignment thread : ℕ) → AllocationRecord
request_record class_index size alignment thread = record {
  class_index = class_index;
  requested_size = size;
  alignment = alignment;
  owner_thread = thread;
  active = true;
}

module _ {C : Type 0} where
  -- A block of the thread's own bin, already popped.
  unfoldable pub reuse : ThreadCacheState C → Ptr → ℕ → ℕ → ℕ → ThreadCacheState C × Result Ptr
  reuse s pointer thread size alignment = elim (find_record s pointer) [
    | none ↦ (s, err logic_error)
    | some r ↦
        if r.active
        then (s, err logic_error)
        else (let taken = record r {
          requested_size = size;
          alignment = alignment;
          owner_thread = thread;
          active = true;
        } in
            (tally (with_shard s pointer (assign pointer taken)) note_hit, ok pointer))
  ]

  -- The exception of the handler takes the place of the one that it handles.
  unfoldable pub rethrown :
      Error → ThreadCacheState C × Result (Unit {0}) → ThreadCacheState C × Tried
  rethrown e (after, err e') = (after, escaped e')
  rethrown e (after, ok _) = (after, caught e)

  unfoldable pub undone :
      Error → ThreadCacheState C × Result (Unit {0}) → ThreadCacheState C × Result Ptr
  undone e (after, err e') = (after, err e')
  undone e (after, ok _) = (after, err e)

  -- A round of the refill after the first, with the rounds to come.
  unfoldable pub next_round :
      (ThreadCacheState C → List Ptr → ThreadCacheState C × List Ptr × Result (Unit {0}))
      → List Ptr
      → ThreadCacheState C × Tried
      → ThreadCacheState C × List Ptr × Result (Unit {0})
  next_round rest bin (after, caught e) = (after, bin, ok tt)
  next_round rest bin (after, escaped e) = (after, bin, err e)
  next_round rest bin (after, done pointer) = rest (tally after note_cached) (pointer ∷ bin)

  unfoldable pub refilled :
      Ptr
      → ThreadCacheState C × List Ptr × Result (Unit {0})
      → ThreadCacheState C × List Ptr × Result Ptr
  refilled first (after, filled, err e) = (after, filled, err e)
  refilled first (after, filled, ok _) = (tally after note_live_allocation, filled, ok first)

module _ {C : Type 0} (ops : Central C) (can_insert : Shard → Ptr → Bool) where
  unfoldable pub record_allocation :
      ThreadCacheState C → Ptr → AllocationRecord → ThreadCacheState C × Result (Unit {0})
  record_allocation s pointer r =
      if not (can_insert (s.shards (shard_for pointer)) pointer)
      then (s, err bad_alloc)
      else if is_some (find_record s pointer)
      then (s, err logic_error)
      else (with_shard s pointer (insert pointer r), ok tt)

  -- The handler: a pointer that is not null goes back to the central allocator.
  unfoldable pub undo_central :
      ThreadCacheState C → Ptr → ℕ → ℕ → Error → ThreadCacheState C × Tried
  undo_central s pointer size alignment e =
      if pointer == null
      then (s, caught e)
      else rethrown e (central_deallocate_sized ops s pointer size alignment)

  unfoldable pub recorded :
      AllocationRecord → Ptr → ThreadCacheState C × Result (Unit {0}) → ThreadCacheState C × Tried
  recorded r pointer (after, err e) = undo_central after pointer r.requested_size r.alignment e
  recorded r pointer (after, ok _) = (after, done pointer)

  unfoldable pub acquired :
      AllocationRecord → ThreadCacheState C × Result Ptr → ThreadCacheState C × Tried
  acquired r (after, err e) = (after, caught e)
  acquired r (after, ok pointer) = recorded r pointer (record_allocation after pointer r)

  -- The `try` of a round of the refill: a block of the central allocator, and its record.
  unfoldable pub acquire_recorded :
      ThreadCacheState C → AllocationRecord → ThreadCacheState C × Tried
  acquire_recorded s r = acquired r (central_allocate ops s r.requested_size r.alignment)

  -- The branch without a size class. Its handler does not test the pointer, which the central
  -- allocator has returned without an exception.
  unfoldable pub recorded_uncached :
      AllocationRecord
      → Ptr
      → ThreadCacheState C × Result (Unit {0})
      → ThreadCacheState C × Result Ptr
  recorded_uncached r pointer (after, err e) =
      undone e (central_deallocate_sized ops after pointer r.requested_size r.alignment)
  recorded_uncached r pointer (after, ok _) = (tally after note_live_allocation, ok pointer)

  unfoldable pub acquired_uncached :
      AllocationRecord → ThreadCacheState C × Result Ptr → ThreadCacheState C × Result Ptr
  acquired_uncached r (after, err e) = (after, err e)
  acquired_uncached r (after, ok pointer) =
      recorded_uncached r pointer (record_allocation after pointer r)

  unfoldable pub allocate_uncached :
      ThreadCacheState C → AllocationRecord → ThreadCacheState C × Result Ptr
  allocate_uncached s r = acquired_uncached r (central_allocate ops s r.requested_size r.alignment)

  -- The rounds of the refill after the first; a failure that is dealt with ends them.
  unfoldable pub refill_rest :
      (rounds : ℕ)
      → ThreadCacheState C
      → List Ptr
      → AllocationRecord
      → ThreadCacheState C × List Ptr × Result (Unit {0})
  refill_rest zero s bin r = (s, bin, ok tt)
  refill_rest (suc rounds) s bin r =
      next_round (λ after filled. refill_rest rounds after filled r) bin (acquire_recorded s r)

  unfoldable pub continue_refill :
      List Ptr
      → AllocationRecord
      → ThreadCacheState C × Tried
      → ThreadCacheState C × List Ptr × Result Ptr
  continue_refill bin r (after, caught e) = (after, bin, err e)
  continue_refill bin r (after, escaped e) = (after, bin, err e)
  continue_refill bin r (after, done first) =
      refilled first
        (refill_rest (after.cache_options.refill_batch - 1) after bin (record r { active = false }))

  -- `refill_batch` is at least one, so the first round takes place.
  unfoldable pub refill :
      ThreadCacheState C → List Ptr → AllocationRecord → ThreadCacheState C × List Ptr × Result Ptr
  refill s bin r =
      continue_refill bin r (acquire_recorded (tally s note_refill) (record r { active = true }))

  unfoldable pub allocate_cached :
      ThreadCacheState C → List Ptr → AllocationRecord → ThreadCacheState C × List Ptr × Result Ptr
  allocate_cached s [] r = refill s [] r
  allocate_cached s (pointer ∷ bin) r =
      let (after, answer) = reuse s pointer r.owner_thread r.requested_size r.alignment in
      (after, bin, answer)

  unfoldable pub allocate :
      ThreadCacheState C → (thread : ℕ) → Bins → ℕ → ℕ → ThreadCacheState C × Bins × Result Ptr
  allocate s thread bins size alignment =
      let requested = tally s note_request in
      let request_size = normalized_size size in
      elim (select s.selector request_size alignment) [
        | err e ↦ (requested, bins, err e)
        | ok selected ↦ elim selected [
          | none ↦
              let (after, answer) =
                allocate_uncached requested
                  (request_record fallback_class request_size alignment thread) in
              (after, bins, answer)
          | some index ↦
              let (after, bin, answer) =
                allocate_cached requested (get_or bins index [])
                  (request_record index request_size alignment thread) in
              (after, set bins index bin, answer)
        ]
      ]

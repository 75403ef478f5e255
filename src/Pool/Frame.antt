-- ===== src/Pool/Frame.antt =====
-- The parts of the invariant that the counters, the lists and the states of a pool leave alone.
use mathlib.Core.Bool.{false≢true}
use fixed_size_memory_pool.Base.{
  ℕ, ◌+◌, ◌<◌, ◌≤◌, ◌≡◌, ◌≢◌, refl, inl, inr, List, has, arith, Bool, true, false, ◌||◌,
  if◌then◌else◌, Option, sym, ◌∙◌, Bool-cases,
}
use fixed_size_memory_pool.Memory.{Ptr, Memory}
use fixed_size_memory_pool.FreeList.Region.{block_apart}
use fixed_size_memory_pool.FreeList.Chain.{IsFreeList, OnlyBlock}
use fixed_size_memory_pool.Guard.{canaries_are_valid, prepare_allocated_memory}
use fixed_size_memory_pool.Guard.Detection.{canaries-same, prepare-valid}
use fixed_size_memory_pool.Statistics.{
  PoolStatistics, record_allocation_request, record_failed_allocation, record_successful_allocation,
}
use fixed_size_memory_pool.Diagnostics.{BlockState}
use fixed_size_memory_pool.Pool.{
  Pool, PoolOptions, DiagnosticMode, disabled, enabled, is_enabled, count_request, count_success,
  count_failure,
}
use fixed_size_memory_pool.Pool.Addresses.{IsGeometry, payload}
use fixed_size_memory_pool.Pool.Invariant.{IsPool, Tracks, no_options}

-- A pool with a new list, new counters and new states, on the same storage.
pub IsPool-with :
    {m : Memory} {list : List ℕ} (p : Pool) (head free_blocks : ℕ) (s : PoolStatistics)
    (table : Option (List BlockState))
    → IsGeometry p
    → p.fast_path ≡ no_options p.options
    → IsFreeList p.storage p.block_stride p.block_count m head free_blocks list
    → Tracks p.options.diagnostics table p.block_count list
    → (p.options.guard_bytes ≡ true
        → (i : ℕ) → i < p.block_count
        → has i list ≡ false
        → canaries_are_valid m (payload p i) p.block_size ≡ true)
    → IsPool m
        (record p {
          free_head = head;
          free_blocks = free_blocks;
          statistics = s;
          diagnostic_state = table;
        })
        list
IsPool-with p head free_blocks s table g fast chained tracks intact = record {
  geometry = record {
    region = g.region;
    whole = g.whole;
    holds_node = g.holds_node;
    front_guard = g.front_guard;
    back_guard = g.back_guard;
    unguarded = g.unguarded;
  };
  free_list = chained;
  fast = fast;
  tracks = tracks;
  intact = intact;
}

pub valid_of_guards :
    (m : Memory) (raw : Ptr) (offset size : ℕ) (poison guard : Bool)
    → guard ≡ true
    → (if guard then 8 else 0) ≤ offset
    → canaries_are_valid
        (if poison || guard then prepare_allocated_memory m raw offset size poison guard else m)
        (raw + offset)
        size
      ≡ true
valid_of_guards m raw offset size true true guarded room = prepare-valid m raw offset size true room
valid_of_guards m raw offset size false true guarded room =
    prepare-valid m raw offset size false room
valid_of_guards m raw offset size true false guarded room = absurd (false≢true guarded)
valid_of_guards m raw offset size false false guarded room = absurd (false≢true guarded)

-- The counters are not part of the invariant.
pub IsPool-statistics :
    {m : Memory} {p : Pool} {list : List ℕ} (s : PoolStatistics)
    → IsPool m p list
    → IsPool m (record p { statistics = s }) list
IsPool-statistics {p} s v =
    IsPool-with p p.free_head p.free_blocks s p.diagnostic_state v.geometry v.fast v.free_list
      v.tracks v.intact

pub count_request-statistics :
    (p : Pool) → (s : PoolStatistics) × (count_request p ≡ record p { statistics = s })
unfolding count_request
count_request-statistics p = elim (Bool-cases p.options.collect_statistics) [
  | inl on ↦ (record_allocation_request p.statistics p.block_size, rw on refl)
  | inr off ↦ (p.statistics, rw off refl)
]

pub count_success-statistics :
    (p : Pool) → (s : PoolStatistics) × (count_success p ≡ record p { statistics = s })
unfolding count_success
count_success-statistics p = elim (Bool-cases p.options.collect_statistics) [
  | inl on ↦ (record_successful_allocation p.statistics, rw on refl)
  | inr off ↦ (p.statistics, rw off refl)
]

pub count_failure-statistics :
    (p : Pool) → (s : PoolStatistics) × (count_failure p ≡ record p { statistics = s })
unfolding count_failure
count_failure-statistics p = elim (Bool-cases p.options.collect_statistics) [
  | inl on ↦ (record_failed_allocation p.statistics, rw on refl)
  | inr off ↦ (p.statistics, rw off refl)
]

pub no_options_parts :
    (o : PoolOptions)
    → no_options o ≡ true
    → (is_enabled o.diagnostics ≡ false)
      × (o.poison_memory ≡ false)
      × (o.guard_bytes ≡ false)
      × (o.collect_statistics ≡ false)
no_options_parts o plain = ground arith

-- Without diagnostics any list is tracked.
pub Tracks-disabled :
    (mode : DiagnosticMode) (table : Option (List BlockState)) (count : ℕ) (old new : List ℕ)
    → is_enabled mode ≡ false
    → Tracks mode table count old
    → Tracks mode table count new
Tracks-disabled disabled table count old new off t = t
Tracks-disabled enabled table count old new off t = absurd (false≢true (sym off))

-- A change inside one block leaves the guards of the other live blocks.
pub kept_guards :
    {m : Memory} {p : Pool} {list : List ℕ}
    → IsPool m p list
    → (m' : Memory) (i j : ℕ) → OnlyBlock p.storage p.block_stride i m m'
    → p.options.guard_bytes ≡ true
    → j ≢ i
    → j < p.block_count
    → has j list ≡ false
    → canaries_are_valid m' (payload p j) p.block_size ≡ true
kept_guards {m} {p} {list} v m' i j only guarded other inside live =
    let apart = block_apart v.geometry.region j i other in
    let before = v.intact guarded j inside live in
    let front : 8 ≤ p.payload_offset = rw guarded at (v.geometry.front_guard) in
    let back : p.payload_offset + p.block_size + 8 ≤ p.block_stride =
      rw guarded at (v.geometry.back_guard) in
    canaries-same m m' (payload p j) p.block_size
      (λ a lo hi. only a (omega arith), λ a lo hi. only a (omega arith))
    ∙ before

-- ===== src/Pool.antt =====
-- src/fixed_size_memory_pool.cpp and include/memory_pool/fixed_size_memory_pool.hpp: the fixed pool
-- with its optional guards, poison, statistics and diagnostics. An operation that may throw after
-- it has written returns the memory and the pool that the exception leaves behind.
pub mod Construction
pub mod Addresses
pub mod Invariant
pub mod Frame
pub mod Allocation
pub mod Branches
pub mod Deallocation
pub mod DoubleFree
pub mod Integrity
pub mod Objects
mod Examples
use Prim.Native.Nat.{◌≤◌}
use fixed_size_memory_pool.Base.{
  ℕ, zero, suc, ◌+◌, ◌-◌, ◌/◌, ◌%◌, Bool, true, false, not, ◌&&◌, ◌||◌, ltb, leb, ◌==◌,
  if◌then◌else◌, Option, none, some, List, [], ◌∷◌, is_some, Result, ok, err, invalid_argument,
  invalid_pool_pointer, logic_error, memory_corruption, double_free, bad_alloc, terminate, ◌>>=◌,
  ◌>>◌, throw_if, add_word, sub_word,
}
use fixed_size_memory_pool.Memory.{Ptr, null, Memory, load_word, store_word}
use fixed_size_memory_pool.Provider.{Operators, World}
use fixed_size_memory_pool.Layout.{BlockLayout, make_block_layout}
use fixed_size_memory_pool.FreeList.{free_node_size, free_node_alignment, initialize_free_list}
use fixed_size_memory_pool.Guard.{
  guard_size, prepare_allocated_memory, validate_and_prepare_freed_memory,
}
use fixed_size_memory_pool.Diagnostics.{
  BlockState, initial_states, try_mark_allocated, mark_free, validate_free_blocks,
}
use fixed_size_memory_pool.Diagnostics
use fixed_size_memory_pool.Statistics.{
  PoolStatistics, no_statistics, record_allocation_request, record_successful_allocation,
  record_failed_allocation, record_deallocation,
}

pub data DiagnosticMode : Type 0 where
  disabled enabled : DiagnosticMode

abbrev pub is_enabled : DiagnosticMode → Bool
is_enabled disabled = false
is_enabled enabled = true

-- `leak_handler` says whether a handler is set.
pub record PoolOptions : Type 0 where
  pub diagnostics : DiagnosticMode
  pub poison_memory : Bool
  pub guard_bytes : Bool
  pub collect_statistics : Bool
  pub leak_handler : Bool

pub record Pool : Type 0 where
  pub storage : Ptr
  pub free_head : Ptr
  pub block_size : ℕ
  pub block_count : ℕ
  pub alignment : ℕ
  pub payload_offset : ℕ
  pub block_stride : ℕ
  pub storage_size : ℕ
  pub free_blocks : ℕ
  pub options : PoolOptions
  pub fast_path : Bool
  pub statistics : PoolStatistics
  pub diagnostic_state : Option (List BlockState)

unfoldable pub raw_block_index : Pool → Ptr → ℕ
raw_block_index p pointer = sub_word pointer p.storage / p.block_stride

unfoldable pub payload_from_raw_block : Pool → Ptr → Ptr
payload_from_raw_block p raw_block = raw_block + p.payload_offset

unfoldable pub raw_block_from_payload : Pool → Ptr → Ptr
raw_block_from_payload p payload = payload - p.payload_offset

-- `begin + storage_size` wraps as the source's sum does.
unfoldable pub owns : Pool → Ptr → Bool
owns p pointer = leb p.storage pointer && ltb pointer (add_word p.storage p.storage_size)

unfoldable pub is_block_start : Pool → Ptr → Bool
is_block_start p pointer =
    if (pointer == null) || not (owns p pointer)
    then false
    else (let offset = sub_word pointer p.storage in
        leb p.payload_offset offset
        && (sub_word offset p.payload_offset % p.block_stride == 0)
        && ltb (sub_word offset p.payload_offset / p.block_stride) p.block_count)

unfoldable pub block_index : Pool → Ptr → Result ℕ
block_index p pointer = do
  throw_if (not (is_block_start p pointer)) invalid_pool_pointer
  ok (sub_word (sub_word pointer p.storage) p.payload_offset / p.block_stride)

-- The states after `try_mark_allocated`, which are not kept if it fails.
unfoldable pub mark_allocated : Option (List BlockState) → ℕ → Result (Option (List BlockState))
mark_allocated none index = ok none
mark_allocated (some states) index =
    let (marked, done) = try_mark_allocated states index in
    if done then ok (some marked) else err terminate

-- The list pop that both paths of `allocate` share.
unfoldable pub pop : Memory → Pool → Pool
pop m p = record p { free_head = load_word m p.free_head; free_blocks = sub_word p.free_blocks 1 }

unfoldable pub count_success : Pool → Pool
count_success p =
    if p.options.collect_statistics
    then record p { statistics = record_successful_allocation p.statistics }
    else p

unfoldable pub allocate_block : Memory → Pool → Result (Memory × Pool × Ptr)
allocate_block m p =
    let node = p.free_head in
    let popped = pop m p in
    do
      states ← mark_allocated p.diagnostic_state (raw_block_index p node)
      ok (
        if p.options.poison_memory || p.options.guard_bytes
            then prepare_allocated_memory m node p.payload_offset p.block_size
                p.options.poison_memory p.options.guard_bytes
            else m,
        count_success (record popped { diagnostic_state = states }),
        payload_from_raw_block p node,
      )

unfoldable pub count_request : Pool → Pool
count_request p =
    if p.options.collect_statistics
    then record p { statistics = record_allocation_request p.statistics p.block_size }
    else p

unfoldable pub count_failure : Pool → Pool
count_failure p =
    if p.options.collect_statistics
    then record p { statistics = record_failed_allocation p.statistics }
    else p

-- The only error is the call of `std::terminate`.
unfoldable pub allocate : Memory → Pool → Result (Memory × Pool × Ptr)
allocate m p =
    if p.fast_path
    then if p.free_head == null then ok (m, p, null) else ok (m, pop m p, p.free_head)
    else if p.free_head == null
    then ok (m, count_failure (count_request p), null)
    else allocate_block m (count_request p)

-- The list push that both paths of `deallocate` share.
unfoldable pub push : Memory → Pool → Ptr → Memory × Pool
push m p raw_block = (
  store_word m raw_block p.free_head,
  record p { free_head = raw_block; free_blocks = add_word p.free_blocks 1 },
)

unfoldable pub unmark : Option (List BlockState) → ℕ → Result (Option (List BlockState))
unmark none index = ok none
unmark (some states) index = do freed ← mark_free states index; ok (some freed)

unfoldable pub count_deallocation : Pool → Pool
count_deallocation p =
    if p.options.collect_statistics
    then record p { statistics = record_deallocation p.statistics }
    else p

-- `mark_free` and what follows it, on the memory that the guard check left.
unfoldable pub finish_deallocate : Memory → Pool → Ptr → ℕ → Memory × Pool × Result (Unit {0})
finish_deallocate m p raw_block index = elim (unmark p.diagnostic_state index) [
  | err e ↦ (m, p, err e)
  | ok states ↦
      let (linked, freed) =
        push m (count_deallocation (record p { diagnostic_state = states })) raw_block in
      (linked, freed, ok tt)
]

unfoldable pub deallocate_block : Memory → Pool → Ptr → ℕ → Memory × Pool × Result (Unit {0})
deallocate_block m p raw_block index =
    elim (if p.options.poison_memory || p.options.guard_bytes
      then validate_and_prepare_freed_memory m raw_block p.payload_offset p.block_size
          p.options.poison_memory p.options.guard_bytes
      else ok m) [
        | err e ↦ (m, p, err e)
        | ok checked ↦ finish_deallocate checked p raw_block index
      ]

unfoldable pub deallocate : Memory → Pool → Ptr → Memory × Pool × Result (Unit {0})
deallocate m p pointer = if pointer == null then (m, p, ok tt) else elim (block_index p pointer) [
  | err e ↦ (m, p, err e)
  | ok index ↦
      let raw_block = raw_block_from_payload p pointer in
      if p.fast_path
      then (let (linked, freed) = push m p raw_block in (linked, freed, ok tt))
      else deallocate_block m p raw_block index
]

unfoldable pub available : Pool → ℕ
available p = p.free_blocks

unfoldable pub in_use : Pool → ℕ
in_use p = sub_word p.block_count p.free_blocks

-- ===== src/Pool/Construction.antt =====
-- The constructor and the destructor of src/fixed_size_memory_pool.cpp.
use fixed_size_memory_pool.Base.{
  ℕ, not, ◌&&◌, ◌==◌, if◌then◌else◌, Option, none, some, is_some, Result, ok, err, sub_word,
}
use fixed_size_memory_pool.Memory.{Ptr, Memory}
use fixed_size_memory_pool.Provider.{Operators, World}
use fixed_size_memory_pool.Layout.{BlockLayout, make_block_layout}
use fixed_size_memory_pool.FreeList.{free_node_size, free_node_alignment, initialize_free_list}
use fixed_size_memory_pool.Guard.{guard_size}
use fixed_size_memory_pool.Diagnostics.{initial_states}
use fixed_size_memory_pool.Statistics.{no_statistics}
use fixed_size_memory_pool.Pool.{Pool, PoolOptions, is_enabled}

-- The constructor once the storage is there.
unfoldable pub build : PoolOptions → BlockLayout → Ptr → Memory → Memory × Pool
build options l storage m =
    let (linked, head) = initialize_free_list storage l.block_stride l.block_count m in
    (
      linked,
      record {
        storage = storage;
        free_head = head;
        block_size = l.block_size;
        block_count = l.block_count;
        alignment = l.alignment;
        payload_offset = l.payload_offset;
        block_stride = l.block_stride;
        storage_size = l.storage_size;
        free_blocks = l.block_count;
        options = options;
        fast_path =
            not (is_enabled options.diagnostics)
            && not options.poison_memory
            && not options.guard_bytes
            && not options.collect_statistics;
        statistics = record no_statistics { reserved_bytes = l.storage_size };
        diagnostic_state =
            if is_enabled options.diagnostics then some (initial_states l.block_count) else none;
      },
    )

module _ {S : Type 0} (operators : Operators S) where
  unfoldable pub acquire : PoolOptions → BlockLayout → World S → World S × Result Pool
  acquire options l w =
      let (heap, answer) = operators.new_aligned w.heap l.storage_size l.alignment in
      elim answer [
        | err e ↦ (record w { heap = heap }, err e)
        | ok storage ↦
            let (linked, pool) = build options l storage w.memory in
            (record { heap = heap; memory = linked }, ok pool)
      ]

  -- `FixedSizeMemoryPool::FixedSizeMemoryPool`.
  unfoldable pub construct : ℕ → ℕ → ℕ → PoolOptions → World S → World S × Result Pool
  construct block_size block_count alignment options w =
      elim (make_block_layout block_size block_count alignment options.guard_bytes free_node_size
        free_node_alignment guard_size) [ err e ↦ (w, err e) | ok l ↦ acquire options l w ]

  -- The destructor, with the argument of the call of the leak handler, if it is made.
  unfoldable pub destroy_pool : Pool → World S → World S × Option ℕ
  destroy_pool p w = (
    record w { heap = operators.delete_aligned w.heap p.storage p.alignment },
    if is_some p.diagnostic_state && p.options.leak_handler && not (p.free_blocks == p.block_count)
        then some (sub_word p.block_count p.free_blocks)
        else none,
  )

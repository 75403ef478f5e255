-- ===== src/Pool/Examples.antt =====
-- The theorems on fixed pools at pools of two blocks of 16 bytes at address 64.
use fixed_size_memory_pool.Base.{
  ℕ, ◌*◌, ◌≡◌, inl, refl, [], ◌∷◌, true, false, Bool, arith, ok, err, invalid_pool_pointer,
  double_free, memory_corruption, none, sym,
}
use fixed_size_memory_pool.Memory.{Memory, null, load_bytes, fill}
use fixed_size_memory_pool.Layout.{
  BlockLayout, make_block_layout, round_up, validate_alignment, checked_add, checked_multiply,
  guarded_offset, guarded_stride,
}
use fixed_size_memory_pool.Layout.Geometry.{IsLayout, make_block_layout-IsLayout}
use fixed_size_memory_pool.Layout.Rounding.{IsAlignment}
use fixed_size_memory_pool.Statistics.{no_statistics}
use mathlib.Core.Bool.{false≢true}
use fixed_size_memory_pool.Guard.{freed_pattern}
use fixed_size_memory_pool.Pool.{
  Pool, PoolOptions, DiagnosticMode, disabled, enabled, allocate, deallocate,
}
use fixed_size_memory_pool.Pool.Construction.{build}
use fixed_size_memory_pool.Pool.Addresses.{IsGeometry}
use fixed_size_memory_pool.Pool.Invariant.{IsPool, build-IsPool}
use fixed_size_memory_pool.Pool.Allocation.{Allocated, allocate_lem, allocate_exhausted}
use fixed_size_memory_pool.Pool.Deallocation.{
  Deallocated, deallocate_lem, deallocate_foreign, deallocate_corrupted,
}
use fixed_size_memory_pool.Pool.DoubleFree.{deallocate_twice, deallocate_twice_poisoned}

abbrev options : DiagnosticMode → (poison guard : Bool) → PoolOptions
options mode poison guard = record {
  diagnostics = mode;
  poison_memory = poison;
  guard_bytes = guard;
  collect_statistics = true;
  leak_handler = false;
}

abbrev plain_layout : BlockLayout
plain_layout = record {
  block_size = 16;
  block_count = 2;
  alignment = 16;
  payload_offset = 0;
  block_stride = 16;
  storage_size = 32;
}

abbrev blank : Memory
blank _ = 0

eight-IsAlignment : IsAlignment 8
eight-IsAlignment = record { power = (3, refl); fits = omega arith }

plain_layout_made : make_block_layout 16 2 16 false 8 8 8 ≡ ok plain_layout
unfolding make_block_layout round_up validate_alignment checked_add checked_multiply guarded_offset
    guarded_stride
plain_layout_made = refl

plain_layout-IsLayout : IsLayout 16 2 16 false 8 8 8 plain_layout
plain_layout-IsLayout =
    make_block_layout-IsLayout 16 2 16 false 8 8 8 (omega arith) (omega arith) (omega arith)
      (omega arith) (omega arith) eight-IsAlignment plain_layout plain_layout_made

abbrev poisoning : Pool
poisoning = (build (options enabled true false) plain_layout 64 blank).1

abbrev poisoning_memory : Memory
poisoning_memory = (build (options enabled true false) plain_layout 64 blank).0

poisoning-IsPool : IsPool poisoning_memory poisoning (0 ∷ 1 ∷ [])
poisoning-IsPool =
    build-IsPool 16 2 16 (options enabled true false) plain_layout 64 blank plain_layout-IsLayout
      (omega arith) (omega arith)

allocate_lem_example : Allocated poisoning_memory poisoning 0 (1 ∷ [])
allocate_lem_example = allocate_lem poisoning_memory poisoning 0 (1 ∷ []) poisoning-IsPool

deallocate_foreign_example :
    deallocate poisoning_memory poisoning 65
    ≡ (poisoning_memory, poisoning, err invalid_pool_pointer)
unfolding build
deallocate_foreign_example =
    deallocate_foreign poisoning_memory poisoning (0 ∷ 1 ∷ []) 65 poisoning-IsPool (omega arith)
      (λ i inside at. absurd (omega (arith, at)))

deallocate_twice_poisoned_example :
    (deallocate poisoning_memory poisoning 64
      ≡ (fill 16 poisoning_memory 64 freed_pattern, poisoning, err double_free))
    × ¬ IsPool (fill 16 poisoning_memory 64 freed_pattern) poisoning (0 ∷ 1 ∷ [])
unfolding build
deallocate_twice_poisoned_example =
    deallocate_twice_poisoned {i = 0} poisoning-IsPool (omega arith) refl refl refl refl
      (omega arith)

abbrev watched : Pool
watched = (build (options enabled false false) plain_layout 64 blank).1

abbrev watched_memory : Memory
watched_memory = (build (options enabled false false) plain_layout 64 blank).0

watched-IsPool : IsPool watched_memory watched (0 ∷ 1 ∷ [])
watched-IsPool =
    build-IsPool 16 2 16 (options enabled false false) plain_layout 64 blank plain_layout-IsLayout
      (omega arith) (omega arith)

deallocate_twice_example :
    deallocate watched_memory watched 64 ≡ (watched_memory, watched, err double_free)
unfolding build
deallocate_twice_example = deallocate_twice {i = 0} watched-IsPool (omega arith) refl refl refl refl

build-IsPool_example : IsPool poisoning_memory poisoning (0 ∷ 1 ∷ [])
build-IsPool_example =
    build-IsPool 16 2 16 (options enabled true false) plain_layout 64 blank plain_layout-IsLayout
      (omega arith) (omega arith)

-- A pool all of whose blocks are in use.
abbrev full : (guard : Bool) → (offset stride : ℕ) → Pool
full guard offset stride = record {
  storage = 64;
  free_head = 0;
  block_size = 16;
  block_count = 2;
  alignment = 16;
  payload_offset = offset;
  block_stride = stride;
  storage_size = stride * 2;
  free_blocks = 0;
  options = options disabled true guard;
  fast_path = false;
  statistics = no_statistics;
  diagnostic_state = none;
}

full-IsPool : IsPool blank (full false 0 16) []
full-IsPool = record {
  geometry = record {
    region = record { positive = omega arith; node_fits = omega arith; fits = omega arith };
    whole = refl;
    holds_node = omega arith;
    front_guard = omega arith;
    back_guard = omega arith;
    unguarded = λ _. refl;
  };
  free_list = record { chain = refl; distinct = tt; counted = refl };
  fast = refl;
  tracks = refl;
  intact = λ guarded. absurd (false≢true guarded);
}

guarded-IsGeometry : IsGeometry (full true 16 48)
guarded-IsGeometry = record {
  region = record { positive = omega arith; node_fits = omega arith; fits = omega arith };
  whole = refl;
  holds_node = omega arith;
  front_guard = omega arith;
  back_guard = omega arith;
  unguarded = λ plain. absurd (false≢true (sym plain));
}

allocate_exhausted_example :
    (p' : Pool) × (allocate blank (full false 0 16) ≡ ok (blank, p', null)) × IsPool blank p' []
allocate_exhausted_example = allocate_exhausted blank (full false 0 16) full-IsPool

deallocate_lem_example :
    Deallocated blank (full false 0 16) 1 [] (deallocate blank (full false 0 16) 80)
deallocate_lem_example = deallocate_lem {i = 1} full-IsPool (omega arith) refl

deallocate_corrupted_example :
    deallocate blank (full true 16 48) 80 ≡ (blank, full true 16 48, err memory_corruption)
unfolding load_bytes
deallocate_corrupted_example =
    deallocate_corrupted blank (full true 16 48) 0 guarded-IsGeometry refl (omega arith) refl
      (inl (omega arith))

-- ===== src/Arena/Examples.antt =====
-- An arena with two objects, whose destructors write their numbers down.
use fixed_size_memory_pool.Base.{ℕ, arith, ◌≡◌, refl, List, [], ◌∷◌, err, bad_alloc}
use fixed_size_memory_pool.Memory.{Ptr}
use fixed_size_memory_pool.ArenaOptions.{geometric, retain_initial_chunk, no_statistics}
use fixed_size_memory_pool.ArenaChunk.{ArenaChunk, ArenaAllocation, try_allocate, bump}
use fixed_size_memory_pool.ArenaChunk.Bounds.{IsArenaChunk}
use fixed_size_memory_pool.Arena.{Arena, no_allocation, commit, rollback_last}
use fixed_size_memory_pool.Arena.Rollback.{rolled_back, rollback_last-commit}
use fixed_size_memory_pool.Arena.Reset.{
  reset, register_all, destroyed_in_reverse, reset-register_all,
}

abbrev arena : Arena ℕ ℕ
arena = record {
  options = record {
    initial_chunk_size = 64;
    initial_alignment = 16;
    growth = record { mode = geometric; factor = 2; maximum_chunk_size = 0 };
    reset_policy = retain_initial_chunk;
  };
  provider = record {
    allocate = λ s bytes alignment. (s, err bad_alloc);
    deallocate = λ s p bytes alignment. s;
  };
  chunks = record { storage = 64; capacity = 64; alignment = 16; offset = 16 } ∷ [];
  destructors = [];
  current_chunk = 0;
  next_chunk_size = 128;
  last_allocation = no_allocation;
  statistics = no_statistics;
}

abbrev note : ℕ → Ptr → List ℕ → List ℕ
note number object log = number ∷ log

reset-register_all_example :
    (reset note (register_all note arena ((64, 1) ∷ (72, 2) ∷ [])) [] 0).0
    ≡ destroyed_in_reverse note ((64, 1) ∷ (72, 2) ∷ []) []
reset-register_all_example = reset-register_all note arena ((64, 1) ∷ (72, 2) ∷ []) [] 0 refl

abbrev chunk : ArenaChunk
chunk = record { storage = 64; capacity = 64; alignment = 16; offset = 16 }

abbrev longer : ArenaChunk
longer = record { storage = 64; capacity = 64; alignment = 16; offset = 24 }

abbrev eight_bytes : ArenaAllocation
eight_bytes = record { pointer = 80; previous_offset = 16; consumed_bytes = 8 }

chunk-IsArenaChunk : IsArenaChunk chunk
chunk-IsArenaChunk = record { room = omega arith; fits = omega arith }

rollback_last-commit_example :
    rollback_last (commit arena 0 longer eight_bytes 8) 80 ≡ rolled_back arena 0 eight_bytes 8
unfolding try_allocate bump
rollback_last-commit_example =
    rollback_last-commit arena 0 chunk longer eight_bytes 8 8 refl chunk-IsArenaChunk (omega arith)
      refl (omega arith)

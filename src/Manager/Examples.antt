-- ===== src/Manager/Examples.antt =====
-- The manager's theorems at a manager whose only chunk has one of its two blocks in use.
use fixed_size_memory_pool.Base.{
  ok, ok-inj, err≢ok, ltb, ltb→lt, if◌then◌else◌, if_true, if_false, Bool-cases, inl, inr, sym, ◌∙◌,
  ℕ, zero, suc, ◌*◌, ◌≤◌, ◌≡◌, refl, arith, [], ◌∷◌, err, bad_alloc, min_of, max_of,
}
use fixed_size_memory_pool.Base.Saturation.{growth_limit}
use fixed_size_memory_pool.Provider.{Provider, World}
use fixed_size_memory_pool.Memory.{load_bytes}
use fixed_size_memory_pool.Chunk.{Chunk}
use fixed_size_memory_pool.Chunk.Invariant.{IsChunk, StatesAgree}
use fixed_size_memory_pool.Manager.Arrangement.{IsArranged}
use fixed_size_memory_pool.Manager.Expansion.{IsFresh, grow-keeps}
use fixed_size_memory_pool.Manager.Service.{Served, try_allocate-serves}
use fixed_size_memory_pool.Manager.Upkeep.{deallocate-keeps}
use fixed_size_memory_pool.Manager.{
  Manager, ChunkManagerOptions, geometric, calculate_next_growth, deallocate, try_allocate, grow,
}
use fixed_size_memory_pool.Manager.Growth.{calculate_next_growth-geometric}
use fixed_size_memory_pool.Manager.Reclamation.{empties, deallocate-le}

abbrev doubling : ChunkManagerOptions
doubling = record {
  block_size = 16;
  initial_blocks = 2;
  alignment = 16;
  growth = record { mode = geometric; factor = 2; maximum_blocks_per_chunk = 6 };
  spare_empty_chunks = 0;
}

-- A provider without storage.
abbrev empty_provider : Provider ℕ
empty_provider = record {
  allocate = λ s bytes alignment. (s, err bad_alloc);
  deallocate = λ s p bytes alignment. s;
}

abbrev half_full : Chunk
half_full = record {
  storage = 64;
  free_head = 80;
  states = 1 ∷ 0 ∷ [];
  block_size = 16;
  block_count = 2;
  alignment = 16;
  block_stride = 16;
  storage_size = 32;
  free_blocks = 1;
}

abbrev manager : Manager ℕ
manager = record {
  options = doubling;
  provider = empty_provider;
  chunks = half_full ∷ [];
  block_size = 16;
  alignment = 16;
  next_growth_blocks = 4;
}

abbrev world : World ℕ
world = record { heap = 0; memory = λ _. 0 }

calculate_next_growth-geometric_example :
    calculate_next_growth doubling 4 ≡ min_of (4 * 2) (growth_limit 6)
calculate_next_growth-geometric_example =
    calculate_next_growth-geometric doubling 4 refl (omega arith) (omega arith)

deallocate-le_example : empties (deallocate manager 64 world).1 ≤ max_of (empties manager) 0
deallocate-le_example = deallocate-le manager 64 world

half_full-IsChunk : IsChunk world.memory half_full (1 ∷ [])
unfolding load_bytes
half_full-IsChunk = record {
  region = record { positive = omega arith; node_fits = omega arith; fits = omega arith };
  whole = refl;
  list = record { chain = (refl, omega arith, refl); distinct = (refl, tt); counted = refl };
  tracked = refl;
  agree = agreed;
}
  where
    agreed : StatesAgree (1 ∷ 0 ∷ []) 2 (1 ∷ [])
    agreed zero h = refl
    agreed (suc zero) h = refl
    agreed (suc (suc i)) h = absurd (omega (arith, h))

manager-IsArranged : IsArranged world.memory manager.chunks
manager-IsArranged = ((1 ∷ [], half_full-IsChunk), tt, tt)

try_allocate-serves_example :
    Served world.memory manager.chunks
      ((try_allocate world.memory manager).0.chunks, (try_allocate world.memory manager).1)
try_allocate-serves_example = try_allocate-serves world.memory manager manager-IsArranged

deallocate-keeps_example :
    IsArranged ((deallocate manager 64 world).0.memory) ((deallocate manager 64 world).1.chunks)
deallocate-keeps_example = deallocate-keeps manager 64 world manager-IsArranged (omega arith)

-- A provider that hands out storage above all the chunks.
abbrev high_provider : Provider ℕ
high_provider = record {
  allocate = λ s bytes alignment. (s, if ltb bytes 4096 then ok 1024 else err bad_alloc);
  deallocate = λ s p bytes alignment. s;
}

abbrev growing_manager : Manager ℕ
growing_manager = record manager { provider = high_provider }

high_provider-IsFresh : IsFresh high_provider 0 (half_full ∷ [])
high_provider-IsFresh bytes alignment storage given = elim (Bool-cases (ltb bytes 4096)) [
  | inl small ↦
      let same = ok-inj (sym (if_true _ _ small) ∙ given) in
      let few = ltb→lt _ _ small in
      (omega (arith, same), omega (arith, same, few), (inr (omega (arith, same)), tt))
  | inr large ↦ absurd (err≢ok _ _ (sym (if_false _ _ large) ∙ given))
]

grow-keeps_example :
    IsArranged ((grow growing_manager world).0.memory) ((grow growing_manager world).1.chunks)
grow-keeps_example =
    grow-keeps growing_manager world manager-IsArranged high_provider-IsFresh (omega arith)
      (omega arith) (omega arith)

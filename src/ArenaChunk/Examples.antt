-- ===== src/ArenaChunk/Examples.antt =====
-- An arena chunk of 64 bytes at address 64, three of them used.
use fixed_size_memory_pool.Base.{◌≡◌, ◌⊎◌, refl, arith, none, some}
use fixed_size_memory_pool.ArenaChunk.{ArenaChunk, ArenaAllocation, try_allocate, bump}
use fixed_size_memory_pool.ArenaChunk.Bounds.{IsPlaced, try_allocate_lem}

abbrev used_three : ArenaChunk
used_three = record { storage = 64; capacity = 64; alignment = 16; offset = 3 }

-- Eight bytes at a multiple of 8 start at offset 8.
padded :
    try_allocate used_three 8 8
    ≡ some (
      record used_three { offset = 16 },
      record { pointer = 72; previous_offset = 3; consumed_bytes = 13 },
    )
unfolding try_allocate bump
padded = refl

try_allocate_lem_example :
    (try_allocate used_three 8 8 ≡ none)
    ⊎ ((changed : ArenaChunk) × (allocation : ArenaAllocation) × (try_allocate used_three 8 8
          ≡ some (changed, allocation))
        × IsPlaced used_three 8 8 changed allocation)
try_allocate_lem_example =
    try_allocate_lem used_three 8 8 (record { room = omega arith; fits = omega arith })
      (omega arith)

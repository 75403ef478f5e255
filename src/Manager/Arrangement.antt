-- ===== src/Manager/Arrangement.antt =====
-- The chunks of src/chunk_manager.cpp together: each one well formed, and no two with common storage.
use fixed_size_memory_pool.Base.{ℕ, ◌+◌, ◌≤◌, ◌≡◌, ◌⊎◌, inl, inr, refl, arith, List, [], ◌∷◌}
use fixed_size_memory_pool.Memory.{Ptr, Memory}
use fixed_size_memory_pool.Chunk.{Chunk, allocate, release}
use fixed_size_memory_pool.Chunk.Reach.{WellFormed}

-- The storages of two chunks do not meet.
abbrev pub Apart : Chunk → Chunk → Type 0
Apart c d = (c.storage + c.storage_size ≤ d.storage) ⊎ (d.storage + d.storage_size ≤ c.storage)

abbrev pub ApartFrom : Chunk → List Chunk → Type 0
ApartFrom c [] = Unit {0}
ApartFrom c (d ∷ rest) = Apart c d × ApartFrom c rest

abbrev pub IsArranged : Memory → List Chunk → Type 0
IsArranged m [] = Unit {0}
IsArranged m (c ∷ rest) = WellFormed m c × ApartFrom c rest × IsArranged m rest

-- The free blocks of all chunks.
abbrev pub spare : List Chunk → ℕ
spare [] = 0
spare (c ∷ rest) = c.free_blocks + spare rest

-- Two records of one chunk, which has changed but not moved.
abbrev pub SamePlace : Chunk → Chunk → Type 0
SamePlace c d = (d.storage ≡ c.storage) × (d.storage_size ≡ c.storage_size)

pub Apart-moved : (c c' d d' : Chunk) → SamePlace c c' → SamePlace d d' → Apart c d → Apart c' d'
Apart-moved c c' d d' (at, size) (at', size') (inl h) = inl (omega arith)
Apart-moved c c' d d' (at, size) (at', size') (inr h) = inr (omega arith)

pub ApartFrom-moved :
    (c c' : Chunk) (rest : List Chunk) → SamePlace c c' → ApartFrom c rest → ApartFrom c' rest
ApartFrom-moved c c' [] same apart = tt
ApartFrom-moved c c' (d ∷ rest) same (here, later) =
    (Apart-moved c c' d d same (refl, refl) here, ApartFrom-moved c c' rest same later)

pub allocate-SamePlace : (m : Memory) (c : Chunk) → SamePlace c (allocate m c).0
unfolding allocate
allocate-SamePlace m c = (ground arith, ground arith)

pub release-SamePlace : (m : Memory) (c : Chunk) (p : Ptr) → SamePlace c (release m c p).1
unfolding release
release-SamePlace m c p = (refl, refl)

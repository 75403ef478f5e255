-- ===== src/Chunk/Reach.antt =====
-- Any use of one chunk: allocations, returns of arbitrary pointers that do not throw, and writes of
-- the program to its live blocks.
use fixed_size_memory_pool.Base.{
  ap, sym, ◌∙◌, ℕ, ◌<◌, ◌≡◌, ◌≢◌, refl, inl, inr, List, [], ◌∷◌, has, arith, size_mod, Bool-cases,
  get_or, ok, err, invalid_pool_pointer, double_free, ◌⊎◌,
}
use mathlib.Core.Path.{subst₂}
use native.Mathlib.Decide.{ℕ_discrete}
use fixed_size_memory_pool.Memory.{Ptr, null, Memory}
use fixed_size_memory_pool.Layout.{BlockLayout}
use fixed_size_memory_pool.FreeList.Region.{block_apart}
use fixed_size_memory_pool.FreeList.Chain.{OnlyBlock, indices}
use fixed_size_memory_pool.Chunk.{
  Chunk, build, allocate, release, deallocate, is_block_start, block_index,
}
use fixed_size_memory_pool.Chunk.Invariant.{IsChunk, IsStorage, build-IsChunk}
use fixed_size_memory_pool.Chunk.Ownership.{block, block_of_start}
use fixed_size_memory_pool.Chunk.Operations.{
  deallocate-null, allocate_exhausted, allocate_lem, deallocate_foreign, deallocate_twice,
  deallocate_lem, write-IsChunk,
}

pub data Step (m : Memory) (c : Chunk) : Memory → Chunk → Type 0 where
  take : Step m c m (allocate m c).0
  give :
      {m' : Memory} {c' : Chunk} (p : Ptr)
      → p < size_mod
      → deallocate m c p ≡ ok (m', c')
      → Step m c m' c'
  write :
      {m' : Memory} (i : ℕ)
      → i < c.block_count
      → get_or c.states i 0 ≡ 1
      → OnlyBlock c.storage c.block_stride i m m'
      → Step m c m' c

pub data Reach (m : Memory) (c : Chunk) : Memory → Chunk → Type 0 where
  here : Reach m c m c
  next :
      {m' m'' : Memory} {c' c'' : Chunk} → Reach m c m' c' → Step m' c' m'' c'' → Reach m c m'' c''

one_ne_zero : ◌≡◌ {A = ℕ} 1 0 → ⊥
one_ne_zero e = omega arith

abbrev pub WellFormed : Memory → Chunk → Type 0
WellFormed m c = (free : List ℕ) × IsChunk m c free

allocate-WellFormed :
    (m : Memory) (c : Chunk) (free : List ℕ) → IsChunk m c free → WellFormed m (allocate m c).0
allocate-WellFormed m c [] v = rw (allocate_exhausted v) ([], v)
allocate-WellFormed m c (i ∷ free) v = (free, (allocate_lem v).1)

-- Whatever pointer is returned, `deallocate` throws or leaves a well-formed chunk.
pub deallocate-WellFormed :
    (m : Memory) (c : Chunk) (free : List ℕ) (p : Ptr)
    → IsChunk m c free
    → p < size_mod
    → (deallocate m c p ≡ err invalid_pool_pointer)
      ⊎ (deallocate m c p ≡ err double_free)
      ⊎ ((m' : Memory) × (c' : Chunk) × (deallocate m c p ≡ ok (m', c')) × WellFormed m' c')
deallocate-WellFormed m c free p v fits = elim (ℕ_discrete p null) [
  | yes nothing ↦
      inr (inr (m, c, ap (deallocate m c) nothing ∙ deallocate-null {m = m} {c = c}, (free, v)))
  | no some_pointer ↦ elim (Bool-cases (is_block_start c p)) [
    | inr foreign ↦ inl (deallocate_foreign v p some_pointer foreign)
    | inl start ↦
        let (at, inside) = block_of_start v p fits start in
        elim (Bool-cases (has (block_index c p) free)) [
          | inl member ↦
              inr
                (inl (ap (deallocate m c) at ∙ deallocate_twice v (block_index c p) inside member))
          | inr live ↦
              let (accepted, kept) = deallocate_lem v (block_index c p) inside live in
              let freed = release m c (block c (block_index c p)) in
              inr (
                inr (
                  freed.0,
                  freed.1,
                  ap (deallocate m c) at ∙ accepted,
                  (block_index c p ∷ free, kept),
                ))
        ]
  ]
]

write-WellFormed :
    (m m' : Memory) (c : Chunk) (free : List ℕ) (i : ℕ)
    → IsChunk m c free
    → i < c.block_count
    → get_or c.states i 0 ≡ 1
    → OnlyBlock c.storage c.block_stride i m m'
    → WellFormed m' c
write-WellFormed m m' c free i v inside live only = (
  free,
  write-IsChunk m' v λ j member a lo hi.
      let state = v.agree i inside in
      let other : i ≢ j = λ e. absurd (one_ne_zero (sym live ∙ state ∙ rw (e, member) refl)) in
      let apart = block_apart v.region i j other in
      let node = v.region.node_fits in only a (omega arith),
)

give-WellFormed :
    (m m' : Memory) (c c' : Chunk) (free : List ℕ) (p : Ptr)
    → IsChunk m c free
    → p < size_mod
    → deallocate m c p ≡ ok (m', c')
    → WellFormed m' c'
give-WellFormed m m' c c' free p v fits e = elim (deallocate-WellFormed m c free p v fits) [
  | inl thrown ↦ absurd (cc)
  | inr (inl thrown) ↦ absurd (cc)
  | inr (inr (m'', c'', returned, kept)) ↦
      let same_memory : m'' ≡ m' = cc in
      let same_chunk : c'' ≡ c' = cc in subst₂ WellFormed same_memory same_chunk kept
]

pub Step-WellFormed :
    {m m' : Memory} {c c' : Chunk} → Step m c m' c' → WellFormed m c → WellFormed m' c'
Step-WellFormed {m} {c} take (free, v) = allocate-WellFormed m c free v
Step-WellFormed {m} {m'} {c} {c'} (give p fits e) (free, v) =
    give-WellFormed m m' c c' free p v fits e
Step-WellFormed {m} {m'} {c} (write i inside live only) (free, v) =
    write-WellFormed m m' c free i v inside live only

Reach-WellFormed :
    {m : Memory} {c : Chunk} {m' : Memory} {c' : Chunk}
    → Reach m c m' c'
    → WellFormed m c
    → WellFormed m' c'
Reach-WellFormed here v = v
Reach-WellFormed (next r st) v = Step-WellFormed st (Reach-WellFormed r v)

-- After any history of allocations, accepted returns and writes to live blocks, the links in
-- memory, the counter and the state bytes of a constructed chunk still describe one list of free
-- blocks.
pub Reach-build :
    (l : BlockLayout) (storage : Ptr) (m m' : Memory) (c' : Chunk)
    → IsStorage l storage
    → Reach (build l storage m).0 (build l storage m).1 m' c'
    → (free : List ℕ) × IsChunk m' c' free
Reach-build l storage m m' c' v r =
    Reach-WellFormed r (indices l.block_count [], build-IsChunk l storage m v)

-- ===== src/Manager/Service.antt =====
-- `try_allocate` of src/chunk_manager.cpp over all the chunks.
use fixed_size_memory_pool.Base.{
  ℕ, suc, ◌+◌, ◌<◌, ◌≡◌, ◌≢◌, inl, inr, refl, sym, ap, subst, ◌∙◌, arith, List, [], ◌∷◌, Bool, true,
  false, not, ◌||◌, ◌==◌, ==_iff, ==_ne, ne→==, if◌then◌else◌, if_true, if_false, Bool-cases,
}
use fixed_size_memory_pool.Memory.{Ptr, null, Memory}
use fixed_size_memory_pool.Chunk.{Chunk, allocate, available, owns}
use fixed_size_memory_pool.Chunk.Invariant.{IsChunk}
use fixed_size_memory_pool.Chunk.Reach.{WellFormed}
use fixed_size_memory_pool.Chunk.Ownership.{owns-block}
use fixed_size_memory_pool.Chunk.Operations.{allocate_lem}
use fixed_size_memory_pool.FreeList.Region.{block_bounds}
use fixed_size_memory_pool.Manager.{Manager, allocate_from, try_allocate}
use fixed_size_memory_pool.Manager.Arrangement.{
  ApartFrom, IsArranged, spare, Apart-moved, ApartFrom-moved, allocate-SamePlace,
}

ne_of_lt : {a : ℕ} → 0 < a → 0 ≢ a
ne_of_lt h e = omega (arith, h, e)

-- A chunk with a free block serves a request with one of its blocks.
serving :
    (m : Memory) (c : Chunk) (free : List ℕ)
    → IsChunk m c free
    → (available c == 0) ≡ false
    → WellFormed m (allocate m c).0
      × ((allocate m c).1 ≢ null)
      × (owns c (allocate m c).1 ≡ true)
      × (suc ((allocate m c).0.free_blocks) ≡ c.free_blocks)
unfolding available
serving m c [] v some_free = absurd (==_ne _ _ some_free v.list.counted)
serving m c (i ∷ free) v some_free =
    let (at, taken) = allocate_lem v in
    let inside = v.list.chain.1 in
    let bounds = block_bounds v.region i inside in
    (
      (free, taken),
      λ nothing. absurd (ne_of_lt bounds.0 (sym nothing ∙ at)),
      ap (owns c) at ∙ owns-block v i inside,
      ap suc taken.list.counted ∙ sym v.list.counted,
    )

-- Whether a pointer lies in the storage of one of the chunks.
abbrev pub owned : List Chunk → Ptr → Bool
owned [] p = false
owned (c ∷ rest) p = owns c p || owned rest p

-- What a request to the chunks leaves and returns.
abbrev pub Served : Memory → List Chunk → List Chunk × Ptr → Type 0
Served m chunks (left, p) =
    IsArranged m left
    × (spare left + (if p == null then 0 else 1) ≡ spare chunks)
    × ((p == null) ≡ (spare chunks == 0))
    × ((p == null) ≡ not (owned chunks p))

owns_null : (c : Chunk) (p : Ptr) → (p == null) ≡ true → owns c p ≡ false
unfolding owns
owns_null c p nothing = if_true _ _ nothing

-- A chunk that was passed over does not own what a later one handed out.
passed :
    (c : Chunk) (rest : List Chunk) (p : Ptr)
    → (p == null) ≡ not (owned rest p)
    → (p == null) ≡ not (owns c p || owned rest p)
passed c rest p h = elim (Bool-cases (p == null)) [
  | inl nothing ↦ h ∙ ap (λ b. not (b || owned rest p)) (sym (owns_null c p nothing))
  | inr proper ↦ some_owner (owns c p) (owned rest p) (p == null) proper h
]
  where
    some_owner : (a b nothing : Bool) → nothing ≡ false → nothing ≡ not b → nothing ≡ not (a || b)
    some_owner a b nothing proper e = ground arith

counting :
    (k n j : ℕ) (p : Ptr)
    → (p == null) ≡ false
    → suc k ≡ n
    → k + j + (if p == null then 0 else 1) ≡ n + j
counting k n j p proper fewer = ground arith

nothing_left : (k j : ℕ) → k ≡ 0 → (j == 0) ≡ ((k + j) == 0)
nothing_left k j none_here = ground arith

some_left : (k n j : ℕ) → suc k ≡ n → ((n + j) == 0) ≡ false
some_left k n j fewer = ground arith

ApartFrom-allocate_from :
    (m : Memory) (c : Chunk) (chunks : List Chunk)
    → ApartFrom c chunks
    → ApartFrom c (allocate_from m chunks).0
unfolding allocate_from
ApartFrom-allocate_from m c [] apart = tt
ApartFrom-allocate_from m c (d ∷ rest) (here, later) = elim (Bool-cases (available d == 0)) [
  | inl full ↦
      subst (λ (z : List Chunk × Ptr). ApartFrom c z.0) (sym (if_false _ _ (ap not full)))
        (here, ApartFrom-allocate_from m c rest later)
  | inr open_block ↦
      subst (λ (z : List Chunk × Ptr). ApartFrom c z.0) (sym (if_true _ _ (ap not open_block)))
        (Apart-moved c c d (allocate m d).0 (refl, refl) (allocate-SamePlace m d) here, later)
]

allocate_from-Served :
    (m : Memory) (chunks : List Chunk)
    → IsArranged m chunks
    → Served m chunks (allocate_from m chunks)
unfolding allocate_from available
allocate_from-Served m [] arranged = (tt, refl, refl, refl)
allocate_from-Served m (c ∷ rest) ((free, v), apart, later) = elim (Bool-cases (available c == 0)) [
  | inl full ↦ subst (Served m (c ∷ rest)) (sym (if_false _ _ (ap not full))) (
    ((free, v), ApartFrom-allocate_from m c rest apart, (allocate_from-Served m rest later).0),
    omega (arith, (==_iff _ _).0 full, (allocate_from-Served m rest later).1),
    (allocate_from-Served m rest later).2 ∙ nothing_left _ _ ((==_iff _ _).0 full),
    passed c rest _ ((allocate_from-Served m rest later).3),
  )
  | inr open_block ↦ subst (Served m (c ∷ rest)) (sym (if_true _ _ (ap not open_block))) (
      let (taken, proper, mine, fewer) = serving m c free v open_block in
      (
        (taken, ApartFrom-moved c (allocate m c).0 rest (allocate-SamePlace m c) apart, later),
        counting _ _ _ _ (ne→== _ _ proper) fewer,
        ne→== _ _ proper ∙ sym (some_left _ _ _ fewer),
        ne→== _ _ proper ∙ ap (λ b. not (b || owned rest (allocate m c).1)) (sym mine),
      ))
]

-- A request to a manager whose chunks are well formed and apart leaves them so. It returns null
-- exactly if no chunk has a free block, and a pointer into one of the chunks otherwise, and
-- the chunks have one free block less exactly if it returns a pointer.
pub try_allocate-serves :
    {S : Type 0} (m : Memory) (manager : Manager S)
    → IsArranged m manager.chunks
    → Served m manager.chunks ((try_allocate m manager).0.chunks, (try_allocate m manager).1)
unfolding try_allocate
try_allocate-serves m manager arranged = allocate_from-Served m manager.chunks arranged

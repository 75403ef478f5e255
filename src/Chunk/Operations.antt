-- ===== src/Chunk/Operations.antt =====
-- What `allocate` and `deallocate` of src/memory_chunk.cpp do to a well-formed chunk.
use native.Mathlib.Decide.{ℕ_discrete}
use fixed_size_memory_pool.Base.{
  ap, sym, ◌∙◌, ℕ, suc, ◌+◌, ◌<◌, ◌≡◌, refl, ◌≢◌, List, [], ◌∷◌, has, true, false, arith, ne→==,
  ◌==◌, get_or, set, get_or-set_self, get_or-set_ne, length, length-set, ok, err,
  invalid_pool_pointer, double_free, add_word,
}
use fixed_size_memory_pool.Memory.{Ptr, null, Memory}
use fixed_size_memory_pool.Memory.Laws.{SameBytes, load_bytes-same}
use fixed_size_memory_pool.FreeList.Region.{block_bounds, count_fits}
use fixed_size_memory_pool.FreeList.Chain.{IsFreeList-push, IsFreeList-same, IsFreeList-le}
use fixed_size_memory_pool.Chunk.{
  Chunk, allocate, release, deallocate, is_block_start, block_index, in_use, available,
}
use fixed_size_memory_pool.Chunk.Invariant.{IsChunk, StatesAgree}
use fixed_size_memory_pool.Chunk.Ownership.{block, block_index-block, is_block_start-block}

StatesAgree-take :
    (states : List ℕ) (count i : ℕ) (free : List ℕ)
    → length states ≡ count
    → i < count
    → has i free ≡ false
    → StatesAgree states count (i ∷ free)
    → StatesAgree (set states i 1) count free
StatesAgree-take states count i free size inside out agree j h = elim (ℕ_discrete j i) [
  | yes same ↦ ground (arith, get_or-set_self {A = ℕ} states i 1 0)
  | no other ↦ ground (arith, agree j h, get_or-set_ne {A = ℕ} states i j 1 0)
]

StatesAgree-return :
    (states : List ℕ) (count i : ℕ) (free : List ℕ)
    → length states ≡ count
    → i < count
    → StatesAgree states count free
    → StatesAgree (set states i 0) count (i ∷ free)
StatesAgree-return states count i free size inside agree j h = elim (ℕ_discrete j i) [
  | yes same ↦ ground (arith, get_or-set_self {A = ℕ} states i 0 0)
  | no other ↦ ground (arith, agree j h, get_or-set_ne {A = ℕ} states i j 0 0)
]

module _ {m : Memory} {c : Chunk} where
  -- On a chunk with no free block `allocate` returns null and changes nothing.
  pub allocate_exhausted : IsChunk m c [] → allocate m c ≡ (c, null)
  unfolding allocate
  allocate_exhausted v = rw (v.list.chain, allocate) refl

  -- Otherwise it returns the first free block and takes it out of the list.
  pub allocate_lem :
      {i : ℕ} {free : List ℕ}
      → IsChunk m c (i ∷ free)
      → ((allocate m c).1 ≡ block c i) × IsChunk m (allocate m c).0 free
  unfolding allocate
  allocate_lem {i} {free} v =
      let (at, inside, rest) = v.list.chain in
      let found : (c.free_head == 0) ≡ false =
        ne→== c.free_head 0 (omega (arith, block_bounds v.region i inside)) in
      let index : block_index c c.free_head ≡ i =
        ap (block_index c) at ∙ block_index-block v i inside in
      let few = IsFreeList-le _ _ _ m c.free_head c.free_blocks (i ∷ free) v.list in
      rw (found, index)
        (
          at,
          record {
            region = v.region;
            whole = v.whole;
            list = record {
              chain = rest;
              distinct = v.list.distinct.1;
              counted = omega (arith, v.list.counted, count_fits v.region);
            };
            tracked = length-set c.states i 1 ∙ v.tracked;
            agree =
                StatesAgree-take c.states c.block_count i free v.tracked inside v.list.distinct.0
                  v.agree;
          },
        )

  -- Returning null changes nothing.
  pub deallocate-null : deallocate m c null ≡ ok (m, c)
  unfolding deallocate
  deallocate-null = refl

  module _ {free : List ℕ} (v : IsChunk m c free) where
    -- Returning what is not the start of a block throws `InvalidPoolPointer`.
    pub deallocate_foreign :
        (p : Ptr)
        → p ≢ null
        → is_block_start c p ≡ false
        → deallocate m c p ≡ err invalid_pool_pointer
    unfolding deallocate
    deallocate_foreign p some_pointer foreign = rw (ne→== p 0 some_pointer, foreign) refl

    -- Returning a free block throws `DoubleFreeError`.
    pub deallocate_twice :
        (i : ℕ)
        → i < c.block_count
        → has i free ≡ true
        → deallocate m c (block c i) ≡ err double_free
    unfolding deallocate
    deallocate_twice i inside member =
        let start = is_block_start-block v i inside in
        let index = block_index-block v i inside in
        let state : get_or c.states i 0 ≡ 0 = ground (arith, v.agree i inside) in
        rw
          (ne→== (block c i) 0 (omega (arith, block_bounds v.region i inside)), start, index, state)
          refl

    -- Returning a live block puts it in front of the free list.
    pub deallocate_lem :
        (i : ℕ)
        → i < c.block_count
        → has i free ≡ false
        → (deallocate m c (block c i) ≡ ok (release m c (block c i)))
          × IsChunk (release m c (block c i)).0 (release m c (block c i)).1 (i ∷ free)
    unfolding deallocate release
    deallocate_lem i inside live = (accepted, kept)
      where
        open v use {region, whole, list, tracked, agree}

        state : get_or c.states i 0 ≡ 1
        state = ground (arith, agree i inside)

        accepted : deallocate m c (block c i) ≡ ok (release m c (block c i))
        accepted =
            rw
              (
                ne→== (block c i) 0 (omega (arith, block_bounds region i inside)),
                is_block_start-block v i inside,
                block_index-block v i inside,
                state,
              )
              refl

        bumped : add_word c.free_blocks 1 ≡ suc c.free_blocks
        bumped = omega (
          arith,
          count_fits region,
          IsFreeList-le c.storage c.block_stride c.block_count m c.free_head c.free_blocks free
              list,
        )

        kept : IsChunk (release m c (block c i)).0 (release m c (block c i)).1 (i ∷ free)
        kept = rw (block_index-block v i inside) (record {
          region = region;
          whole = whole;
          list =
              rw bumped
                (IsFreeList-push region m c.free_head c.free_blocks i free live inside list);
          tracked = length-set c.states i 0 ∙ tracked;
          agree = StatesAgree-return c.states c.block_count i free tracked inside agree;
        })

  -- What the program writes outside of the free blocks leaves the chunk well formed.
  pub write-IsChunk :
      {free : List ℕ} (m' : Memory)
      → IsChunk m c free
      → ((i : ℕ) → has i free ≡ true → SameBytes 8 (block c i) m m')
      → IsChunk m' c free
  write-IsChunk {free} m' v spared = record {
    region = v.region;
    whole = v.whole;
    list =
        IsFreeList-same v.region m m' c.free_head c.free_blocks free
          (λ i member. load_bytes-same 8 (block c i) m m' (spared i member)) v.list;
    tracked = v.tracked;
    agree = v.agree;
  }

  -- Every block is counted as available or in use.
  pub available-in_use :
      {free : List ℕ}
      → IsChunk m c free
      → (available c ≡ length free) × (available c + in_use c ≡ c.block_count)
  unfolding available in_use
  available-in_use {free} v =
      let few =
        IsFreeList-le c.storage c.block_stride c.block_count m c.free_head c.free_blocks free
          v.list in
      (v.list.counted, omega (arith, count_fits v.region))

-- The operations do not move the blocks.
pub block-allocate : (m : Memory) (c : Chunk) (i : ℕ) → block (allocate m c).0 i ≡ block c i
unfolding allocate
block-allocate m c i = ground arith

pub block_count-allocate : (m : Memory) (c : Chunk) → (allocate m c).0.block_count ≡ c.block_count
unfolding allocate
block_count-allocate m c = ground arith

pub block-release :
    (m : Memory) (c : Chunk) (p : Ptr) (i : ℕ) → block (release m c p).1 i ≡ block c i
unfolding release
block-release m c p i = refl

-- A block that was returned is the next one handed out, and returning it leaves the list as it was
-- before it was taken.
pub deallocate-allocate :
    (m : Memory) (c : Chunk) (i : ℕ) (free : List ℕ)
    → IsChunk m c (i ∷ free)
    → let (taken, p) = allocate m c in
      (deallocate m taken p ≡ ok (release m taken p))
      × IsChunk (release m taken p).0 (release m taken p).1 (i ∷ free)
      × ((allocate (release m taken p).0 (release m taken p).1).1 ≡ p)
deallocate-allocate m c i free v =
    let taken = (allocate m c).0 in
    let (at, took) = allocate_lem v in
    let inside : i < taken.block_count = rw (block_count-allocate m c) (v.list.chain.1) in
    let here : (allocate m c).1 ≡ block taken i = at ∙ sym (block-allocate m c i) in
    let (accepted, back) = deallocate_lem took i inside v.list.distinct.0 in
    let again = (allocate_lem back).0 ∙ block-release m taken (block taken i) i in
    rw here (accepted, back, again)

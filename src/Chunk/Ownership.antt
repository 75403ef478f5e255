-- ===== src/Chunk/Ownership.antt =====
-- Which pointers a chunk takes for its own, and which for the starts of its blocks.
use native.Mathlib.Nat.{mul-mod_left}
use fixed_size_memory_pool.Base.{
  ℕ, ◌+◌, ◌*◌, ◌%◌, ◌<◌, ◌≤◌, ◌≡◌, ◌↔◌, inl, inr, List, true, arith, size_mod, Bool-cases, ==_iff,
}
use fixed_size_memory_pool.Memory.{Ptr, Memory}
use fixed_size_memory_pool.FreeList.{block_at}
use fixed_size_memory_pool.FreeList.Region.{
  block_bounds, block_end, block_offset, block_index_lem, block_of_offset,
}
use fixed_size_memory_pool.Chunk.{Chunk, owns, is_block_start, block_index}
use fixed_size_memory_pool.Chunk.Invariant.{IsChunk}

abbrev pub block : Chunk → ℕ → Ptr
block c i = block_at c.storage c.block_stride i

module _ {m : Memory} {c : Chunk} {free : List ℕ} (v : IsChunk m c free) where
  -- `owns` accepts exactly the addresses of the chunk's storage.
  pub owns_iff :
      (p : Ptr)
      → p < size_mod
      → (owns c p ≡ true) ↔ ((c.storage ≤ p) × (p < c.storage + c.storage_size))
  unfolding owns
  owns_iff p fits =
      let positive = v.region.positive in
      let top = v.region.fits in
      let whole = v.whole in (λ h. (ground arith, ground arith), λ (lo, hi). ground arith)

  pub block_index-block : (i : ℕ) → i < c.block_count → block_index c (block c i) ≡ i
  unfolding block_index
  block_index-block i h = block_index_lem v.region i h

  pub owns-block : (i : ℕ) → i < c.block_count → owns c (block c i) ≡ true
  owns-block i h =
      let end = block_end v.region i h in
      let node = v.region.node_fits in
      let whole = v.whole in
      (owns_iff (block c i) (block_bounds v.region i h).1).1 (omega arith, omega arith)

  pub is_block_start-block : (i : ℕ) → i < c.block_count → is_block_start c (block c i) ≡ true
  unfolding is_block_start
  is_block_start-block i h =
      let whole : i * c.block_stride % c.block_stride ≡ 0 = mul-mod_left i c.block_stride in
      rw (owns-block i h, block_offset v.region i h, whole)

  pub block_of_start :
      (p : Ptr)
      → p < size_mod
      → is_block_start c p ≡ true
      → (p ≡ block c (block_index c p)) × (block_index c p < c.block_count)
  unfolding is_block_start block_index
  block_of_start p fits h = elim (Bool-cases (owns c p)) [
    | inr foreign ↦ absurd (cc (rw foreign at h))
    | inl mine ↦
        let bounds = (owns_iff p fits).0 mine in
        let whole = v.whole in
        block_of_offset v.region p bounds.0 (omega arith) ((==_iff _ 0).0 (rw mine at h))
  ]

  -- `is_block_start` accepts exactly the starts of the chunk's blocks.
  pub is_block_start_iff :
      (p : Ptr)
      → p < size_mod
      → (is_block_start c p ≡ true) ↔ ((i : ℕ) × (i < c.block_count) × (p ≡ block c i))
  is_block_start_iff p fits = (
    λ h. let (at, inside) = block_of_start p fits h in (block_index c p, inside, at),
    λ (i, inside, at). rw at (is_block_start-block i inside),
  )

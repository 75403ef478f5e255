-- ===== src/Manager/Returns.antt =====
-- `deallocate` of src/chunk_manager.cpp over all the chunks: what it writes lies in one of them.
use fixed_size_memory_pool.Base.{
  ℕ, ◌+◌, ◌≤◌, ◌<◌, ◌≡◌, inl, inr, sym, subst, ◌∙◌, arith, List, [], ◌∷◌, has, Below, true, false,
  not, ◌==◌, if_false, size_mod, ok, invalid_pool_pointer, double_free, ok-inj, throw_if-ok, get_or,
}
use fixed_size_memory_pool.Memory.{Ptr, null, Memory}
use fixed_size_memory_pool.Memory.Laws.{Outside, store_bytes-Outside}
use fixed_size_memory_pool.Chunk.{Chunk, release, deallocate, is_block_start, block_index}
use fixed_size_memory_pool.Chunk.Reach.{WellFormed, give, Step-WellFormed}
use fixed_size_memory_pool.Chunk.Ownership.{block, block_of_start}
use fixed_size_memory_pool.Chunk.Operations.{write-IsChunk}
use fixed_size_memory_pool.FreeList.Chain.{Chain-Below}
use fixed_size_memory_pool.FreeList.Region.{block_end}
use fixed_size_memory_pool.Manager.Arrangement.{
  Apart, ApartFrom, IsArranged, SamePlace, release-SamePlace,
}

-- The memory changes at most in the storage of a chunk.
abbrev pub OnlyIn : Chunk → Memory → Memory → Type 0
OnlyIn c m m' = (a : Ptr) → Outside c.storage_size c.storage a → m' a ≡ m a

-- A return that is accepted is a release of the start of a block.
accepted_lem :
    (m : Memory) (c : Chunk) (p : Ptr) (u : Memory × Chunk)
    → (p == null) ≡ false
    → deallocate m c p ≡ ok u
    → (is_block_start c p ≡ true) × (release m c p ≡ u)
unfolding deallocate
accepted_lem m c p u proper h =
    let (started, rest) =
      throw_if-ok (not (is_block_start c p)) invalid_pool_pointer _ u
        (sym (if_false _ _ proper) ∙ h) in
    let (_, released) =
      throw_if-ok (get_or c.states (block_index c p) 0 == 0) double_free _ u rest in
    (ground arith, ok-inj released)

Below-has : (n j : ℕ) (free : List ℕ) → Below n free → has j free ≡ true → j < n
Below-has n j [] b h = ground arith
Below-has n j (i ∷ free) b h = ground (arith, Below-has n j free b.1)

-- A chunk elsewhere does not notice.
pub elsewhere-WellFormed :
    (m m' : Memory) (c d : Chunk) → Apart c d → OnlyIn c m m' → WellFormed m d → WellFormed m' d
elsewhere-WellFormed m m' c d apart only (free, v) = (free, write-IsChunk m' v spared)
  where
    spared :
        (i : ℕ) → has i free ≡ true → (a : Ptr) → block d i ≤ a → a < block d i + 8 → m' a ≡ m a
    spared i member a lo hi =
        let inside =
          Below-has d.block_count i free
            (Chain-Below d.storage d.block_stride d.block_count m free d.free_head v.list.chain)
            member in
        let end = block_end v.region i inside in
        only a (elim apart [
          | inl h ↦ inr (omega arith)
          | inr h ↦ inl (omega (arith, v.whole, v.region.node_fits))
        ])

pub elsewhere-IsArranged :
    (m m' : Memory) (c : Chunk) (rest : List Chunk)
    → ApartFrom c rest
    → OnlyIn c m m'
    → IsArranged m rest
    → IsArranged m' rest
elsewhere-IsArranged m m' c [] apart only arranged = tt
elsewhere-IsArranged m m' c (d ∷ rest) (here, later) only (formed, others, arranged) = (
  elsewhere-WellFormed m m' c d here only formed,
  others,
  elsewhere-IsArranged m m' c rest later only arranged,
)

module _ (m m' : Memory) (c c' : Chunk) (p : Ptr) (proper : (p == null) ≡ false)
    (fits : p < size_mod) (took : deallocate m c p ≡ ok (m', c')) where
  pub took-SamePlace : SamePlace c c'
  took-SamePlace =
      subst (λ (u : Memory × Chunk). SamePlace c u.1) (accepted_lem m c p (m', c') proper took).1
        (release-SamePlace m c p)

  pub took-WellFormed : WellFormed m c → WellFormed m' c'
  took-WellFormed formed = Step-WellFormed (give p fits took) formed

  pub took-OnlyIn : WellFormed m c → OnlyIn c m m'
  unfolding release
  took-OnlyIn (free, v) =
      let (started, released) = accepted_lem m c p (m', c') proper took in
      let (at, inside) = block_of_start v p fits started in
      let end = block_end v.region (block_index c p) inside in
      let reach : p + c.block_stride ≤ c.storage + c.storage_size =
        omega (arith, at, end, v.whole) in
      subst (λ (u : Memory × Chunk). OnlyIn c m u.0) released
        (λ a out.
          store_bytes-Outside 8 m p c.free_head a (omega (arith, v.region.node_fits, at, reach)))

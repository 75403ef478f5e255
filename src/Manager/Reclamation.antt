-- ===== src/Manager/Reclamation.antt =====
-- How many empty chunks a deallocation leaves.
use fixed_size_memory_pool.Base.{
  ℕ, zero, suc, ◌≤◌, ◌≡◌, arith, false, leb, ◌==◌, max_of, List, [], ◌∷◌, set, remove_at,
  Bool-cases, Option-cases, Result-cases, inl, inr,
}
use fixed_size_memory_pool.Memory.{Ptr, null}
use fixed_size_memory_pool.Provider.{World}
use fixed_size_memory_pool.Chunk.{Chunk, empty}
use fixed_size_memory_pool.Chunk
use fixed_size_memory_pool.Manager.{
  Manager, count_empty, reclaim_if_allowed, deallocate, deallocate_in, find_chunk,
}

-- A chunk that changes adds at most one empty chunk, and removing it, if it is empty, takes it off.
count_empty-set :
    (chunks : List Chunk) (i : ℕ) (c : Chunk)
    → count_empty (set chunks i c) ≤ suc (count_empty chunks)
unfolding count_empty
count_empty-set [] i c = ground arith
count_empty-set (x ∷ rest) zero c = ground arith
count_empty-set (x ∷ rest) (suc i) c = ground (arith, count_empty-set rest i c)

count_empty-set_nonempty :
    (chunks : List Chunk) (i : ℕ) (c : Chunk)
    → empty c ≡ false
    → count_empty (set chunks i c) ≤ count_empty chunks
unfolding count_empty
count_empty-set_nonempty [] i c h = ground arith
count_empty-set_nonempty (x ∷ rest) zero c h = ground (arith, h)
count_empty-set_nonempty (x ∷ rest) (suc i) c h =
    ground (arith, count_empty-set_nonempty rest i c h)

count_empty-remove :
    (chunks : List Chunk) (i : ℕ) (c : Chunk)
    → count_empty (remove_at (set chunks i c) i) ≤ count_empty chunks
unfolding count_empty
count_empty-remove [] i c = ground arith
count_empty-remove (x ∷ rest) zero c = ground arith
count_empty-remove (x ∷ rest) (suc i) c = ground (arith, count_empty-remove rest i c)

module _ {S : Type 0} where
  abbrev pub empties : Manager S → ℕ
  empties manager = count_empty manager.chunks

  reclaim-le :
      (manager : Manager S) (i : ℕ) (c : Chunk) (w : World S)
      → empties (reclaim_if_allowed (record manager { chunks = set manager.chunks i c }) i c w).1
        ≤ max_of (empties manager) manager.options.spare_empty_chunks
  unfolding reclaim_if_allowed
  reclaim-le manager i c w = elim (Bool-cases (empty c)) [
    | inr busy ↦ rw busy (ground (arith, count_empty-set_nonempty manager.chunks i c busy))
    | inl idle ↦
        elim (Bool-cases
          (leb (count_empty (set manager.chunks i c)) manager.options.spare_empty_chunks)) [
            | inl few ↦ rw (idle, few) (ground (arith, few))
            | inr many ↦ rw (idle, many) (ground (arith, count_empty-remove manager.chunks i c))
          ]
  ]

  deallocate_in-le :
      (manager : Manager S) (i : ℕ) (c : Chunk) (p : Ptr) (w : World S)
      → empties (deallocate_in manager i c p w).1
        ≤ max_of (empties manager) manager.options.spare_empty_chunks
  unfolding deallocate_in count_empty
  deallocate_in-le manager i c p w = elim (Result-cases (Chunk.deallocate w.memory c p)) [
    | inl (e, thrown) ↦ rw (deallocate_in, thrown) (ground arith)
    | inr ((memory, changed), done) ↦
        rw (deallocate_in, done) (reclaim-le manager i changed (record w { memory = memory }))
  ]

  -- However a deallocation ends, it leaves at most as many empty chunks as there were before, or
  -- as many as the reclamation policy keeps in reserve.
  pub deallocate-le :
      (manager : Manager S) (p : Ptr) (w : World S)
      → empties (deallocate manager p w).1
        ≤ max_of (empties manager) manager.options.spare_empty_chunks
  unfolding deallocate count_empty
  deallocate-le manager p w = elim (Bool-cases (p == null)) [
    | inl nothing ↦ rw (deallocate, nothing) (ground arith)
    | inr some_pointer ↦ elim (Option-cases (find_chunk manager.chunks p)) [
      | inl foreign ↦ rw (deallocate, some_pointer, foreign) (ground arith)
      | inr ((i, c), found) ↦
          rw (deallocate, some_pointer, found) (deallocate_in-le manager i c p w)
    ]
  ]

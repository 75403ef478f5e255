-- ===== src/ChunkPool/Examples.antt =====
-- The heap fallback over a provider that hands out addresses in ascending order.
use fixed_size_memory_pool.Base.{
  ℕ, ◌+◌, ◌≡◌, ◌∙◌, refl, ap, sym, true, false, Bool-cases, if◌then◌else◌, if_true, if_false, inl,
  inr, List, [], ◌∷◌, ◌++◌, has, Result, ok, err, err≢ok, ok-inj, Error, bad_alloc,
}
use fixed_size_memory_pool.Memory.{Ptr}
use fixed_size_memory_pool.Provider.{Provider, World}
use fixed_size_memory_pool.Manager.{Manager, fixed}
use fixed_size_memory_pool.ChunkPool.{erase, allocate_fallback, deallocate_fallback, give_back_all}
use fixed_size_memory_pool.ChunkPool.Fallback.{deallocate_fallback-allocate}
use fixed_size_memory_pool.ChunkPool.Leaks.{IsLedger, start, allocates, Reach-no_leak}

abbrev ascending : Provider ℕ
ascending = record {
  allocate = λ s bytes alignment. (s + bytes, ok s);
  deallocate = λ s p bytes alignment. p;
}

abbrev manager : Manager ℕ
manager = record {
  options = record {
    block_size = 16;
    initial_blocks = 2;
    alignment = 16;
    growth = record { mode = fixed; factor = 2; maximum_blocks_per_chunk = 0 };
    spare_empty_chunks = 1;
  };
  provider = ascending;
  chunks = [];
  block_size = 16;
  alignment = 16;
  next_growth_blocks = 2;
}

abbrev world : World ℕ
world = record { heap = 64; memory = λ _. 0 }

deallocate_fallback-allocate_example :
    (allocate_fallback (λ _ _. true) [] manager world
      ≡ (record world { heap = 80 }, 64 ∷ [], manager, ok 64))
    × (deallocate_fallback (64 ∷ []) 64 manager (record world { heap = 80 }) ≡ (world, [], true))
deallocate_fallback-allocate_example =
    deallocate_fallback-allocate (λ _ _. true) manager [] world 80 64 refl refl refl

-- A heap with room for one block, which is the list of its live blocks.
abbrev ask_single : List Ptr → List Ptr × Result Ptr
ask_single s = if has 64 s then (s, err bad_alloc) else (64 ∷ s, ok 64)

abbrev single : Provider (List Ptr)
single = record {
  allocate = λ s bytes alignment. ask_single s;
  deallocate = λ s p bytes alignment. erase p s;
}

abbrev single_manager : Manager (List Ptr)
single_manager = record {
  options = manager.options;
  provider = single;
  chunks = [];
  block_size = 16;
  alignment = 16;
  next_growth_blocks = 2;
}

single-handed :
    (s after : List Ptr) (p : Ptr)
    → ask_single s ≡ (after, ok p)
    → (after ≡ p ∷ s) × (has p s ≡ false)
single-handed s after p asked = elim (Bool-cases (has 64 s)) [
  | inl full ↦ absurd (
      err≢ok bad_alloc p (ap (λ (x : List Ptr × Result Ptr). x.1) (sym (if_true _ _ full) ∙ asked)))
  | inr room ↦
      let same = sym (if_false _ _ room) ∙ asked in
      let at = ok-inj (ap (λ (x : List Ptr × Result Ptr). x.1) same) in
      (
        sym (ap (λ (x : List Ptr × Result Ptr). x.0) same) ∙ ap (λ q. q ∷ s) at,
        ap (λ q. has q s) (sym at) ∙ room,
      )
]

single-refused : (s after : List Ptr) (e : Error) → ask_single s ≡ (after, err e) → after ≡ s
single-refused s after e asked = elim (Bool-cases (has 64 s)) [
  | inl full ↦ sym (ap (λ (x : List Ptr × Result Ptr). x.0) (sym (if_true _ _ full) ∙ asked))
  | inr room ↦ absurd (
      err≢ok e 64 (sym (ap (λ (x : List Ptr × Result Ptr). x.1) (sym (if_false _ _ room) ∙ asked))))
]

single-IsLedger : IsLedger single_manager (λ s. s)
single-IsLedger = record {
  handed = single-handed;
  refused = single-refused;
  taken = λ s p member. refl;
}

abbrev fresh_world : World (List Ptr)
fresh_world = record { heap = []; memory = λ _. 0 }

-- After one block, and a request that the heap refuses.
Reach-no_leak_example :
    let (w, allocations, _, _) = allocate_fallback (λ _ _. true) [] single_manager fresh_world in
    let (last, left, _, _) = allocate_fallback (λ _ _. true) allocations single_manager w in
    (last.heap ≡ left ++ []) × ((give_back_all left single_manager last).heap ≡ [])
Reach-no_leak_example =
    Reach-no_leak (λ _ _. true) single_manager (λ s. s) single-IsLedger []
      (allocates (allocates (start fresh_world refl)))

-- ===== src/MemoryResource/RoundTrip.antt =====
-- The memory resource of src/pool_memory_resource.cpp over its upstream, and a large block on its way
-- from there and back.
use fixed_size_memory_pool.Base.{
  ℕ, Bool, false, ◌≡◌, ◌∙◌, refl, ap, sym, ◌==◌, none, some, List, [], ◌>>=◌, ok, err, err≢ok,
  ok-inj, either_branch, Result, Result-cases, inl, inr,
}
use fixed_size_memory_pool.Memory.{Ptr, null}
use fixed_size_memory_pool.Provider.{Provider, Operators, World, or_default}
use fixed_size_memory_pool.SizeClass
use fixed_size_memory_pool.SizeClass.{select}
use fixed_size_memory_pool.SegregatedOptions.{SegregatedAllocatorOptions, normalize_size}
use fixed_size_memory_pool.Segregated.{Segregated, GrowingChunkPool, Fallbacks, owning_class}
use fixed_size_memory_pool.Segregated.Construction
use fixed_size_memory_pool.Segregated.Construction.{construct_pools, assembled}
use fixed_size_memory_pool.Segregated.Fallback.{deallocate-allocate_fallback}
use fixed_size_memory_pool.Segregated.Origin.{allocate-From, deallocate_sized-From, allocate-answer}
use fixed_size_memory_pool.MemoryResource.{
  Upstream, PoolMemoryResource, validate_upstream, upstream_provider, construct, do_allocate,
  do_deallocate,
}

module _ {S : Type 0} where
  assembled-provider :
      (provider : Provider S) (selector : _) (answer : Result (List (GrowingChunkPool S)))
      (a : Segregated S)
      → (answer >>= λ pools. ok (assembled provider selector pools)) ≡ ok a
      → a.provider ≡ provider
  assembled-provider provider selector (err e) a h = absurd (err≢ok e a h)
  assembled-provider provider selector (ok pools) a h =
      ap (λ (x : Segregated S). x.provider) (sym (ok-inj h))

  abbrev Makes : Provider S → World S × Result (Segregated S) → Type 0
  Makes provider x = (a : Segregated S) → x.1 ≡ ok a → a.provider ≡ provider

  -- The allocator is constructed with the provider that it is given.
  construct-Makes :
      (operators : Operators S) (options : SegregatedAllocatorOptions) (provider : Provider S)
      (w : World S)
      → Makes provider (Construction.construct operators options (some provider) w)
  unfolding Construction.construct or_default
  construct-Makes operators options provider w =
      elim (Result-cases (SizeClass.construct options.size_classes)) [
        | inl (e, refused) ↦ rw (Construction.construct, refused) (λ a h. absurd (err≢ok e a h))
        | inr (selector, found) ↦
            rw (Construction.construct, found)
              (either_branch (Makes provider) (options.initial_blocks_per_class == 0) _ _
                (λ a h. absurd (err≢ok _ a h))
                (λ a h.
                  assembled-provider provider selector
                    ((construct_pools operators options provider selector [] w).1) a h))
      ]

  wrapped-provider :
      (upstream : Upstream S) (provider : Provider S) (answer : Result (Segregated S))
      (r : PoolMemoryResource S)
      → ((a : Segregated S) → answer ≡ ok a → a.provider ≡ provider)
      → (answer >>= λ a. ok (record { upstream = upstream; allocator = a })) ≡ ok r
      → r.allocator.provider ≡ provider
  wrapped-provider upstream provider (err e) r from h = absurd (err≢ok e r h)
  wrapped-provider upstream provider (ok a) r from h =
      ap (λ (x : PoolMemoryResource S). x.allocator.provider) (sym (ok-inj h)) ∙ from a refl

  module _ (can_insert : Fallbacks → Ptr → Bool) (upstream : Upstream S) where
    -- A resource that was constructed over the upstream and has been used since.
    pub data Reach : PoolMemoryResource S → Type 0 where
      constructed :
          {r : PoolMemoryResource S} (operators : Operators S)
          (options : SegregatedAllocatorOptions) (w : World S)
          → (construct operators options (some upstream) w).1 ≡ ok r
          → Reach r
      allocates :
          {r : PoolMemoryResource S} (bytes alignment : ℕ) (w : World S)
          → Reach r
          → Reach ((do_allocate can_insert r bytes alignment w).1)
      deallocates :
          {r : PoolMemoryResource S} (pointer : Ptr) (bytes alignment : ℕ) (w : World S)
          → Reach r
          → Reach ((do_deallocate r pointer bytes alignment w).1)

    Reach-provider :
        {r : PoolMemoryResource S} → Reach r → r.allocator.provider ≡ upstream_provider upstream
    unfolding construct do_allocate do_deallocate validate_upstream
    Reach-provider {r} (constructed operators options w made) =
        wrapped-provider upstream (upstream_provider upstream) _ r
          (construct-Makes operators options (upstream_provider upstream) w) made
    Reach-provider (allocates {r} bytes alignment w before) =
        allocate-From can_insert r.allocator bytes alignment w ∙ Reach-provider before
    Reach-provider (deallocates {r} pointer bytes alignment w before) =
        deallocate_sized-From r.allocator pointer bytes alignment w ∙ Reach-provider before

    -- A block that is too large for every size class, in a resource that was constructed over an
    -- upstream resource and used in any way since: it is the upstream's answer to a request of the
    -- size (at least one byte) and the alignment that were asked for, and its deallocation with
    -- these succeeds and passes the block back to the same upstream with them. No pool owns the
    -- block, which is not null.
    pub do_deallocate-do_allocate :
        (r : PoolMemoryResource S) (bytes alignment : ℕ) (w : World S) (p : Ptr)
        → Reach r
        → select r.allocator.selector (normalize_size bytes) alignment ≡ ok none
        → (do_allocate can_insert r bytes alignment w).2 ≡ ok p
        → owning_class r.allocator.pools p ≡ none
        → (p == null) ≡ false
        → (let (after, served, _) = do_allocate can_insert r bytes alignment w in
            (upstream.allocate w.heap (normalize_size bytes) alignment ≡ (after.heap, ok p))
            × ((do_deallocate served p bytes alignment after).2 ≡ ok tt)
            × ((do_deallocate served p bytes alignment after).0.heap
                ≡ upstream.deallocate after.heap p (normalize_size bytes) alignment))
    unfolding do_allocate do_deallocate upstream_provider
    do_deallocate-do_allocate r bytes alignment w p reach large served foreign proper =
        let over = Reach-provider reach in
        let (returned, well, _, _, sized) =
          deallocate-allocate_fallback can_insert r.allocator bytes alignment w p p large served
            foreign proper in
        (
          ap (λ (provider : Provider S). provider.allocate w.heap (normalize_size bytes) alignment)
                (sym over)
              ∙ allocate-answer can_insert r.allocator bytes alignment w p large served,
          ap (λ (z : World S × Segregated S × Result (Unit {0})). z.2) sized ∙ well,
          ap (λ (z : World S × Segregated S × Result (Unit {0})). z.0.heap) sized
              ∙ returned
              ∙ ap
                  (λ (provider : Provider S).
                    provider.deallocate ((do_allocate can_insert r bytes alignment w).0.heap) p
                      (normalize_size bytes) alignment)
                  over,
        )

-- ===== src/Segregated/Origin.antt =====
-- The provider of src/segregated_allocator.cpp: no operation replaces it, and a block without a size
-- class is one that it answered with.
use fixed_size_memory_pool.Base.{
  ◌≡◌, ◌∙◌, refl, ap, sym, ℕ, Bool, not, ◌||◌, ◌==◌, either_branch, inl, inr, none, Option-cases,
  get_elem?, is_some, Result, Result-cases, ok, err, ok-inj,
}
use fixed_size_memory_pool.Base.Maps.{lookup}
use fixed_size_memory_pool.Memory.{Ptr, null}
use fixed_size_memory_pool.Provider.{Provider, World}
use fixed_size_memory_pool.SizeClass.{select}
use fixed_size_memory_pool.ChunkPool
use fixed_size_memory_pool.ChunkPool.{grow_on_exhaustion}
use fixed_size_memory_pool.SegregatedOptions.{normalize_size}
use fixed_size_memory_pool.Segregated.{
  Segregated, GrowingChunkPool, Fallbacks, counted, fail, serve, pooled, asked, allocate_pooled,
  record_fallback, provided, allocate_fallback, allocate_class, allocate, owning_class, check_class,
  deallocate_pooled, deallocate_fallback, deallocate, deallocate_sized,
}
use fixed_size_memory_pool.Segregated.Fallback.{allocate-large, fail≢ok}

module _ {S : Type 0} where
  -- The allocator that an operation leaves has the provider.
  abbrev From {ℓ} : {A : Type ℓ} → Provider S → World S × Segregated S × A → Type 0
  From provider x = x.1.provider ≡ provider

  pooled-From :
      (a : Segregated S) (index requested : ℕ) (x : World S × GrowingChunkPool S × Result Ptr)
      → From a.provider (pooled a index requested x)
  unfolding pooled serve fail
  pooled-From a index requested (after, changed, err e) = refl
  pooled-From a index requested (after, changed, ok p) = refl

  allocate_class-From :
      (a : Segregated S) (index requested : ℕ) (w : World S)
      → From a.provider (allocate_class a index requested w)
  unfolding allocate_class allocate_pooled fail
  allocate_class-From a index requested w = elim (Option-cases (get_elem? a.pools index)) [
    | inl gone ↦ rw (allocate_class, gone) refl
    | inr (pool, there) ↦ rw (allocate_class, there) (pooled-From (asked a index) index requested _)
  ]

  module _ (can_insert : Fallbacks → Ptr → Bool) where
    record_fallback-From :
        (a : Segregated S) (p : Ptr) (requested alignment : ℕ) (w : World S)
        → From a.provider (record_fallback can_insert a p requested alignment w)
    unfolding record_fallback fail
    record_fallback-From a p requested alignment w =
        either_branch (From a.provider) (not (can_insert a.fallback_allocations p)) _ _ refl (
          either_branch (From a.provider) (is_some (lookup p a.fallback_allocations)) _ _ refl refl)

    provided-From :
        (a : Segregated S) (requested alignment : ℕ) (w : World S) (x : S × Result Ptr)
        → From a.provider (provided can_insert a requested alignment w x)
    unfolding provided fail
    provided-From a requested alignment w (heap, err e) = refl
    provided-From a requested alignment w (heap, ok p) =
        record_fallback-From a p requested alignment _

    pub allocate-From :
        (a : Segregated S) (size alignment : ℕ) (w : World S)
        → From a.provider (allocate can_insert a size alignment w)
    unfolding allocate allocate_fallback fail
    allocate-From a size alignment w =
        elim (Result-cases (select a.selector (normalize_size size) alignment)) [
          | inl (e, refused) ↦ rw (allocate, refused) refl
          | inr (selected, found) ↦ elim (Option-cases selected) [
            | inl large ↦
                rw (allocate, found, large)
                  (provided-From (counted a) (normalize_size size) alignment w _)
            | inr (index, small) ↦
                rw (allocate, found, small)
                  (allocate_class-From (counted a) index (normalize_size size) w)
          ]
        ]

    record_fallback-answer :
        (a : Segregated S) (q p : Ptr) (requested alignment : ℕ) (w : World S)
        → (record_fallback can_insert a q requested alignment w).2 ≡ ok p
        → (q ≡ p) × ((record_fallback can_insert a q requested alignment w).0 ≡ w)
    unfolding record_fallback
    record_fallback-answer a q p requested alignment w =
        either_branch Answers (not (can_insert a.fallback_allocations q)) _ _ (failing _ _) (
          either_branch Answers (is_some (lookup q a.fallback_allocations)) _ _ (failing _ _)
            (λ h. (ok-inj h, refl)))
      where
        Answers : World S × Segregated S × Result Ptr → Type 0
        Answers x = x.2 ≡ ok p → (q ≡ p) × (x.0 ≡ w)

        failing : (w' : World S) (e : _) → Answers (fail w' a e)
        failing w' e h = absurd (fail≢ok can_insert w' a e p h)

    provided-answer :
        (a : Segregated S) (p : Ptr) (requested alignment : ℕ) (w : World S) (x : S × Result Ptr)
        → (provided can_insert a requested alignment w x).2 ≡ ok p
        → x ≡ ((provided can_insert a requested alignment w x).0.heap, ok p)
    unfolding provided
    provided-answer a p requested alignment w (heap, err e) h =
        absurd (fail≢ok can_insert _ a e p h)
    provided-answer a p requested alignment w (heap, ok q) h =
        let (same, kept) = record_fallback-answer a q p requested alignment _ h in
        ap (λ i. (heap, ok i)) same ∙ ap (λ (v : World S). (v.heap, ok p)) (sym kept)

    -- The block of a request without a size class is the provider's answer to the request.
    pub allocate-answer :
        (a : Segregated S) (size alignment : ℕ) (w : World S) (p : Ptr)
        → select a.selector (normalize_size size) alignment ≡ ok none
        → (allocate can_insert a size alignment w).2 ≡ ok p
        → a.provider.allocate w.heap (normalize_size size) alignment
          ≡ ((allocate can_insert a size alignment w).0.heap, ok p)
    unfolding allocate_fallback
    allocate-answer a size alignment w p large h =
        let route = allocate-large can_insert a size alignment w large in
        provided-answer (counted a) p (normalize_size size) alignment w _
          (ap (λ (z : World S × Segregated S × Result Ptr). z.2) (sym route) ∙ h)
        ∙ ap (λ (z : World S × Segregated S × Result Ptr). (z.0.heap, ok p)) (sym route)

  deallocate_pooled-From :
      (a : Segregated S) (index : ℕ) (pool : GrowingChunkPool S) (p : Ptr) (w : World S)
      → From a.provider (deallocate_pooled a index pool p w)
  unfolding deallocate_pooled
  deallocate_pooled-From a index pool p w =
      elim (Result-cases (ChunkPool.deallocate grow_on_exhaustion pool p w).2) [
        | inl (e, refused) ↦ rw (deallocate_pooled, refused) refl
        | inr (_, taken) ↦ rw (deallocate_pooled, taken) refl
      ]

  deallocate-From : (a : Segregated S) (p : Ptr) (w : World S) → From a.provider (deallocate a p w)
  unfolding deallocate deallocate_fallback
  deallocate-From a p w =
      either_branch (From a.provider) (p == null) _ _ refl
        (elim (Option-cases (owning_class a.pools p)) [
          | inr ((index, pool), owned) ↦ rw owned (deallocate_pooled-From a index pool p w)
          | inl foreign ↦ elim (Option-cases (lookup p a.fallback_allocations)) [
            | inl unknown ↦ rw (foreign, unknown) refl
            | inr (f, known) ↦ rw (foreign, known) refl
          ]
        ])

  pub deallocate_sized-From :
      (a : Segregated S) (p : Ptr) (size alignment : ℕ) (w : World S)
      → From a.provider (deallocate_sized a p size alignment w)
  unfolding deallocate_sized
  deallocate_sized-From a p size alignment w =
      either_branch (From a.provider) (p == null) _ _ refl
        (elim (Option-cases (owning_class a.pools p)) [
          | inr ((index, pool), owned) ↦
              elim (Result-cases (check_class a.selector size alignment index)) [
                | inl (e, refused) ↦ rw (owned, refused) refl
                | inr (_, right) ↦ rw (owned, right) (deallocate-From a p w)
              ]
          | inl foreign ↦ elim (Option-cases (lookup p a.fallback_allocations)) [
            | inl unknown ↦ rw (foreign, unknown) refl
            | inr (f, known) ↦
                rw (foreign, known)
                  (either_branch (From a.provider)
                    (not (f.size == normalize_size size) || not (f.alignment == alignment)) _ _ refl
                    (deallocate-From a p w))
          ]
        ])

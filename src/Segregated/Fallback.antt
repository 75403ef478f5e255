-- ===== src/Segregated/Fallback.antt =====
-- A request without a size class of src/segregated_allocator.cpp and its return.
use fixed_size_memory_pool.Base.{
  ◌≡◌, ◌≢◌, ◌∙◌, refl, ap, sym, subst, ℕ, Bool, false, not, ◌||◌, ◌==◌, ==_self, ==_iff, Bool-cases,
  if_true, if_false, inl, inr, arith, none, some, Option-cases, is_some, Result, ok, err, err≢ok,
  ok-inj, Error,
}
use fixed_size_memory_pool.Base.Maps.{lookup, insert, erase, lookup-insert, lookup-erase}
use fixed_size_memory_pool.Memory.{Ptr, null}
use fixed_size_memory_pool.Provider.{World}
use fixed_size_memory_pool.SizeClass.{select}
use fixed_size_memory_pool.SegregatedOptions.{normalize_size, FallbackAllocation}
use fixed_size_memory_pool.Segregated.{
  Segregated, Fallbacks, counted, fail, return_storage, record_fallback, provided,
  allocate_fallback, allocate, owning_class, deallocate_fallback, deallocate, deallocate_sized,
}

module _ {S : Type 0} (can_insert : Fallbacks → Ptr → Bool) where
  -- The allocator after a recorded block: one entry more.
  abbrev Placed : Segregated S → FallbackAllocation → Ptr → Segregated S → Type 0
  Placed a f p a' =
      (lookup p a.fallback_allocations ≡ none)
      × (a'.fallback_allocations ≡ insert p f a.fallback_allocations)
      × (a'.pools ≡ a.pools)
      × (a'.provider ≡ a.provider)

  pub fail≢ok : (w : World S) (a : Segregated S) (e : Error) (p : Ptr) → (fail w a e).2 ≢ ok p
  unfolding fail
  fail≢ok w a e p h = err≢ok e p h

  record_fallback-Placed :
      (a : Segregated S) (q p : Ptr) (requested alignment : ℕ) (w : World S)
      → (record_fallback can_insert a q requested alignment w).2 ≡ ok p
      → Placed a
          (record { size = requested; alignment = alignment })
          p
          ((record_fallback can_insert a q requested alignment w).1)
  unfolding record_fallback
  record_fallback-Placed a q p requested alignment w h =
      elim (Bool-cases (can_insert a.fallback_allocations q)) [
        | inr full ↦ absurd (fail≢ok _ a _ p (along (sym (if_true _ _ (ap not full))) h))
        | inl room ↦ elim (Option-cases (lookup q a.fallback_allocations)) [
          | inr (f, known) ↦ absurd (
              fail≢ok _ a _ p
                (along (sym (if_false _ _ (ap not room) ∙ if_true _ _ (ap is_some known))) h))
          | inl unknown ↦
              let placed = if_false _ _ (ap not room) ∙ if_false _ _ (ap is_some unknown) in
              let same = ok-inj (along (sym placed) h) in
              subst
                (λ (z : World S × Segregated S × Result Ptr).
                  Placed a (record { size = requested; alignment = alignment }) p z.1)
                (sym placed)
                (
                  ap (λ i. lookup i a.fallback_allocations) (sym same) ∙ unknown,
                  ap
                      (λ i.
                        insert i (record { size = requested; alignment = alignment })
                          a.fallback_allocations)
                      same,
                  refl,
                  refl,
                )
        ]
      ]
    where
      along : {x y : World S × Segregated S × Result Ptr} → x ≡ y → y.2 ≡ ok p → x.2 ≡ ok p
      along e g = subst (λ (z : World S × Segregated S × Result Ptr). z.2 ≡ ok p) (sym e) g

  provided-Placed :
      (a : Segregated S) (p : Ptr) (requested alignment : ℕ) (w : World S) (x : S × Result Ptr)
      → (provided can_insert a requested alignment w x).2 ≡ ok p
      → Placed a
          (record { size = requested; alignment = alignment })
          p
          ((provided can_insert a requested alignment w x).1)
  unfolding provided
  provided-Placed a p requested alignment w (heap, err e) h = absurd (fail≢ok _ a e p h)
  provided-Placed a p requested alignment w (heap, ok q) h =
      record_fallback-Placed a q p requested alignment _ h

  pub allocate-large :
      (a : Segregated S) (size alignment : ℕ) (w : World S)
      → select a.selector (normalize_size size) alignment ≡ ok none
      → allocate can_insert a size alignment w
        ≡ allocate_fallback can_insert (counted a) (normalize_size size) alignment w
  unfolding allocate
  allocate-large a size alignment w large = rw (allocate, large) refl

  allocate-Placed :
      (a : Segregated S) (size alignment : ℕ) (w : World S) (p : Ptr)
      → select a.selector (normalize_size size) alignment ≡ ok none
      → (allocate can_insert a size alignment w).2 ≡ ok p
      → Placed
          (counted a)
          (record { size = normalize_size size; alignment = alignment })
          p
          ((allocate can_insert a size alignment w).1)
  unfolding allocate_fallback
  allocate-Placed a size alignment w p large h =
      subst
        (λ (z : World S × Segregated S × Result Ptr).
          Placed (counted a) (record { size = normalize_size size; alignment = alignment }) p z.1)
        (sym (allocate-large a size alignment w large))
        (provided-Placed (counted a) p (normalize_size size) alignment w _ (
          subst (λ (z : World S × Segregated S × Result Ptr). z.2 ≡ ok p)
            (allocate-large a size alignment w large) h))

matching : (n m k : ℕ) → n ≡ m → (not (n == m) || not (k == k)) ≡ false
matching n m k same = ground arith

module _ {S : Type 0} (a : Segregated S) (p : Ptr) (f : FallbackAllocation) (w : World S) where
  module _ (proper : (p == null) ≡ false) (foreign : owning_class a.pools p ≡ none)
      (known : lookup p a.fallback_allocations ≡ some f) where
    deallocate-known : deallocate a p w ≡ deallocate_fallback a p f w
    unfolding deallocate
    deallocate-known = if_false _ _ proper ∙ rw foreign (rw known refl)

    deallocate_sized-known :
        (size : ℕ)
        → f.size ≡ normalize_size size
        → deallocate_sized a p size f.alignment w ≡ deallocate a p w
    unfolding deallocate_sized
    deallocate_sized-known size same =
        if_false _ _ proper
        ∙ rw foreign
            (rw known (if_false _ _ (matching f.size (normalize_size size) f.alignment same)))

-- The map after the entry of a recorded block is erased, at any pointer.
erased :
    (p q : Ptr) (f : FallbackAllocation) (m n : Fallbacks)
    → lookup p m ≡ none
    → n ≡ insert p f m
    → lookup q (erase p n) ≡ lookup q m
erased p q f m n unknown placed = lookup-erase p q n ∙ elim (Bool-cases (p == q)) [
  | inl same ↦ if_true _ _ same ∙ sym unknown ∙ ap (λ i. lookup i m) ((==_iff _ _).0 same)
  | inr differ ↦
      if_false _ _ differ ∙ ap (lookup q) placed ∙ lookup-insert p q f m ∙ if_false _ _ differ
]

module _ {S : Type 0} (can_insert : Fallbacks → Ptr → Bool) where
  -- A block that an allocation without a size class returned goes back to the provider: the return
  -- succeeds, the provider gets the block with the size (at least one byte) and the alignment of
  -- the request, the map has the entries of before the request, the pools are as before, and the
  -- sized return with the same size and alignment does the same. No pool owns the block, which is
  -- not null.
  pub deallocate-allocate_fallback :
      (a : Segregated S) (size alignment : ℕ) (w : World S) (p q : Ptr)
      → select a.selector (normalize_size size) alignment ≡ ok none
      → (allocate can_insert a size alignment w).2 ≡ ok p
      → owning_class a.pools p ≡ none
      → (p == null) ≡ false
      → (let (after, served, _) = allocate can_insert a size alignment w in
          ((deallocate served p after).0.heap
            ≡ a.provider.deallocate after.heap p (normalize_size size) alignment)
          × ((deallocate served p after).2 ≡ ok tt)
          × (lookup q (deallocate served p after).1.fallback_allocations
              ≡ lookup q a.fallback_allocations)
          × ((deallocate served p after).1.pools ≡ a.pools)
          × (deallocate_sized served p size alignment after ≡ deallocate served p after))
  unfolding deallocate_fallback return_storage
  deallocate-allocate_fallback a size alignment w p q large served foreign proper = (
    ap (λ (z : World S × Segregated S × Result (Unit {0})). z.0.heap) returned
        ∙ ap
            (λ provider.
              provider.deallocate ((allocate can_insert a size alignment w).0.heap) p
                (normalize_size size) alignment)
            placed.3,
    ap (λ (z : World S × Segregated S × Result (Unit {0})). z.2) returned,
    ap (λ (z : World S × Segregated S × Result (Unit {0})). lookup q z.1.fallback_allocations)
          returned
        ∙ erased p q f a.fallback_allocations
            ((allocate can_insert a size alignment w).1.fallback_allocations) placed.0 placed.1,
    ap (λ (z : World S × Segregated S × Result (Unit {0})). z.1.pools) returned ∙ placed.2,
    deallocate_sized-known ((allocate can_insert a size alignment w).1) p f
        ((allocate can_insert a size alignment w).0) proper unowned known size refl,
  )
    where
      f : FallbackAllocation
      f = record { size = normalize_size size; alignment = alignment }

      placed : Placed can_insert (counted a) f p ((allocate can_insert a size alignment w).1)
      placed = allocate-Placed can_insert a size alignment w p large served

      unowned : owning_class ((allocate can_insert a size alignment w).1.pools) p ≡ none
      unowned = ap (λ pools. owning_class pools p) placed.2 ∙ foreign

      known : lookup p ((allocate can_insert a size alignment w).1.fallback_allocations) ≡ some f
      known =
          ap (lookup p) placed.1
          ∙ lookup-insert p p f a.fallback_allocations
          ∙ if_true _ _ (==_self p)

      returned :
          deallocate
            ((allocate can_insert a size alignment w).1)
            p
            ((allocate can_insert a size alignment w).0)
          ≡ deallocate_fallback
              ((allocate can_insert a size alignment w).1)
              p
              f
              ((allocate can_insert a size alignment w).0)
      returned =
          deallocate-known ((allocate can_insert a size alignment w).1) p f
            ((allocate can_insert a size alignment w).0) proper unowned known

-- ===== src/ThreadCached/Steps.antt =====
-- Every interleaving of the operations of the threads of src/thread_cached_allocator.cpp.
use fixed_size_memory_pool.Base.{
  ◌≡◌, refl, sym, subst, ℕ, Bool, ◌==◌, if_true, if_false, Bool-cases, inl, inr, [], Option, none,
  some, Option-cases, Result, ok, err,
}
use fixed_size_memory_pool.Base.Maps.{lookup, assign}
use fixed_size_memory_pool.Memory.{Ptr, null}
use fixed_size_memory_pool.ThreadCache.{Central, ThreadCacheState, Shard, Bins, flush_bins}
use fixed_size_memory_pool.ThreadCache.Slots.{AreBins, AllSound}
use fixed_size_memory_pool.ThreadCache.Threads.{allocate-AllSound}
use fixed_size_memory_pool.ThreadCache.Returning.{deallocate-AllSound}
use fixed_size_memory_pool.ThreadCache.Release.{flush_bins-AllSound}
use fixed_size_memory_pool.ThreadCached.{
  Registry, get, released, release, leave_thread, allocate, deallocate,
}
use fixed_size_memory_pool.ThreadCached.Threads.{
  System, bins_in, bins_of, after_call, IsConsistent, AreBins-nil, AreBins-assign, AreBins-erase,
  get-AreBins, IsConsistent-call,
}

module _ {C : Type 0} (ops : Central C) (can_insert : Shard → Ptr → Bool) (expired : ℕ → Bool)
    (id : ℕ) where
  abbrev pub thread_allocates : System C → (thread size alignment : ℕ) → System C
  thread_allocates m t size alignment =
      let (shared, caches, _) =
        allocate ops can_insert expired id t m.shared (m.registries t) size alignment in
      after_call m t shared caches

  abbrev pub thread_returns : System C → (thread : ℕ) → Ptr → Option (ℕ × ℕ) → System C
  thread_returns m t pointer supplied =
      let (shared, caches, _) =
        deallocate ops can_insert expired id t m.shared (m.registries t) pointer supplied in
      after_call m t shared caches

  abbrev pub thread_releases : System C → (thread : ℕ) → System C
  thread_releases m t =
      let (shared, caches, _) = release ops (m.registries t) id m.shared in
      after_call m t shared caches

  -- The registry goes with its thread.
  abbrev pub thread_leaves : System C → (thread : ℕ) → System C
  thread_leaves m t = after_call m t (leave_thread ops (m.registries t) id m.shared) []

  -- An operation of a thread on this allocator, or on another, which changes only other entries of
  -- the thread's registry.
  pub data Step (m : System C) : System C → Type 0 where
    allocates : (thread size alignment : ℕ) → Step m (thread_allocates m thread size alignment)
    returns :
        (thread : ℕ) (pointer : Ptr) (supplied : Option (ℕ × ℕ))
        → Step m (thread_returns m thread pointer supplied)
    releases : (thread : ℕ) → Step m (thread_releases m thread)
    leaves : (thread : ℕ) → Step m (thread_leaves m thread)
    elsewhere :
        (thread : ℕ) (caches : Registry)
        → lookup id caches ≡ lookup id (m.registries thread)
        → Step m (after_call m thread m.shared caches)

  pub data Reach (m : System C) : System C → Type 0 where
    start : Reach m m
    later : {n o : System C} → Reach m n → Step n o → Reach m o

  module _ (m : System C) (consistent : IsConsistent id m) (t : ℕ) where
    held : AreBins m.shared t ((get expired (m.registries t) id m.shared).1)
    held = get-AreBins expired m.shared t id (m.registries t) (consistent t)

    -- A call that writes the bins back to the registry.
    written :
        (s : ThreadCacheState C) (bins : Bins) (caches : Registry)
        → AllSound t m.shared s bins
        → IsConsistent id (after_call m t s (assign id bins caches))
    written s bins caches sound =
        IsConsistent-call id m t s bins _ consistent sound
          (AreBins-assign s t id caches bins sound.0)

    allocates-IsConsistent :
        (size alignment : ℕ) → IsConsistent id (thread_allocates m t size alignment)
    unfolding allocate
    allocates-IsConsistent size alignment =
        written _ _ _ (allocate-AllSound ops can_insert t m.shared _ size alignment held)

    returns-IsConsistent :
        (p : Ptr) (supplied : Option (ℕ × ℕ)) → IsConsistent id (thread_returns m t p supplied)
    unfolding deallocate
    returns-IsConsistent p supplied = elim (Bool-cases (p == null)) [
      | inl at_null ↦ along (if_true _ _ at_null) idle
      | inr proper ↦
          along (if_false _ _ proper)
            (written _ _ _ (deallocate-AllSound ops t m.shared _ p supplied held))
    ]
      where
        along :
            {x y : ThreadCacheState C × Registry × Result (Unit {0})}
            → x ≡ y
            → IsConsistent id (after_call m t y.0 y.1)
            → IsConsistent id (after_call m t x.0 x.1)
        along e h =
            subst
              (λ (z : ThreadCacheState C × Registry × Result (Unit {0})).
                IsConsistent id (after_call m t z.0 z.1))
              (sym e) h

        idle : IsConsistent id (after_call m t m.shared (m.registries t))
        idle =
            IsConsistent-call id m t m.shared (bins_of id (m.registries t)) (m.registries t)
              consistent (consistent t, λ t' c other q h. h) (consistent t)

    flushed :
        (bins : Bins)
        → lookup id (m.registries t) ≡ some bins
        → AllSound t m.shared
            (flush_bins ops m.shared bins 0).0
            ((flush_bins ops m.shared bins 0).1)
    flushed bins there =
        flush_bins-AllSound ops t m.shared bins 0
          (subst (λ o. AreBins m.shared t (bins_in o)) there (consistent t))

    released-IsConsistent :
        (x : ThreadCacheState C × Bins × Result ℕ)
        → AllSound t m.shared x.0 x.1
        → IsConsistent id
            (after_call m t (released (m.registries t) id x).0 ((released (m.registries t) id x).1))
    unfolding released
    released-IsConsistent (s, left, err e) sound = written s left (m.registries t) sound
    released-IsConsistent (s, left, ok n) sound =
        IsConsistent-call id m t s left _ consistent sound (AreBins-erase s t id (m.registries t))

    elsewhere-IsConsistent :
        (caches : Registry)
        → lookup id caches ≡ lookup id (m.registries t)
        → IsConsistent id (after_call m t m.shared caches)
    elsewhere-IsConsistent caches same =
        IsConsistent-call id m t m.shared (bins_of id (m.registries t)) caches consistent
          (consistent t, λ t' c other q h. h)
          (subst (λ o. AreBins m.shared t (bins_in o)) (sym same) (consistent t))

    releases-IsConsistent : IsConsistent id (thread_releases m t)
    unfolding release
    releases-IsConsistent = elim (Option-cases (lookup id (m.registries t))) [
      | inl none_there ↦ rw (release, none_there) (elsewhere-IsConsistent (m.registries t) refl)
      | inr (bins, there) ↦ rw (release, there) (released-IsConsistent _ (flushed bins there))
    ]

    leaving :
        (s : ThreadCacheState C) (bins : Bins)
        → AllSound t m.shared s bins
        → IsConsistent id (after_call m t s [])
    unfolding lookup
    leaving s bins (are, spares) =
        IsConsistent-call id m t s [] [] consistent (AreBins-nil s t, spares) (AreBins-nil s t)

    leaves-IsConsistent : IsConsistent id (thread_leaves m t)
    unfolding leave_thread
    leaves-IsConsistent = elim (Option-cases (lookup id (m.registries t))) [
      | inl none_there ↦
          along (rw (leave_thread, none_there) refl)
            (leaving m.shared [] (AreBins-nil m.shared t, λ t' c other q h. h))
      | inr (bins, there) ↦ along (rw (leave_thread, there) refl) (leaving _ _ (flushed bins there))
    ]
      where
        along :
            {s : ThreadCacheState C}
            → leave_thread ops (m.registries t) id m.shared ≡ s
            → IsConsistent id (after_call m t s [])
            → IsConsistent id (thread_leaves m t)
        along e h =
            subst (λ (s : ThreadCacheState C). IsConsistent id (after_call m t s [])) (sym e) h

  Step-IsConsistent : {m n : System C} → IsConsistent id m → Step m n → IsConsistent id n
  Step-IsConsistent {m} consistent (allocates t size alignment) =
      allocates-IsConsistent m consistent t size alignment
  Step-IsConsistent {m} consistent (returns t p supplied) =
      returns-IsConsistent m consistent t p supplied
  Step-IsConsistent {m} consistent (releases t) = releases-IsConsistent m consistent t
  Step-IsConsistent {m} consistent (leaves t) = leaves-IsConsistent m consistent t
  Step-IsConsistent {m} consistent (elsewhere t caches same) =
      elsewhere-IsConsistent m consistent t caches same

  -- No thread has an entry of the allocator yet.
  abbrev pub IsFresh : System C → Type 0
  IsFresh m = (t : ℕ) → lookup id (m.registries t) ≡ none

  IsFresh-IsConsistent : (m : System C) → IsFresh m → IsConsistent id m
  IsFresh-IsConsistent m fresh t =
      subst (λ o. AreBins m.shared t (bins_in o)) (sym (fresh t)) (AreBins-nil m.shared t)

  -- Whatever the central allocator does, and in whatever order the threads allocate, return,
  -- release and end: a block in a bin of a thread has a record that is inactive and names that
  -- thread and that class, and no bin holds a block twice. The system starts before any thread has
  -- a cache of the allocator.
  pub Reach-IsConsistent : {m n : System C} → IsFresh m → Reach m n → IsConsistent id n
  Reach-IsConsistent {m} fresh start = IsFresh-IsConsistent m fresh
  Reach-IsConsistent fresh (later reach step) =
      Step-IsConsistent (Reach-IsConsistent fresh reach) step

-- ===== src/ThreadCache/Filling.antt =====
-- The allocations of src/detail/thread_cache_state.cpp against the bins and the records.
use fixed_size_memory_pool.Base.{
  ◌≡◌, ◌∙◌, refl, ap, sym, subst, ℕ, zero, suc, Bool, true, not, ◌==◌, Bool-cases, if_true,
  if_false, inl, inr, List, ◌∷◌, none, some, is_some, Option-cases, Result, ok, err, Error,
}
use fixed_size_memory_pool.Memory.{Ptr, null}
use fixed_size_memory_pool.ThreadCacheOptions.{note_cached}
use fixed_size_memory_pool.ThreadCache.{
  Central, AllocationRecord, ThreadCacheState, Shard, find_record, shard_for, tally,
  count_allocation, central_allocate, central_deallocate_sized,
}
use fixed_size_memory_pool.ThreadCache.Allocate.{
  Tried, done, caught, escaped, record_allocation, rethrown, undone, undo_central, recorded,
  acquired, acquire_recorded, next_round, refill_rest,
}
use fixed_size_memory_pool.ThreadCache.Records.{Change, Same, Change-Same, insert-Change}
use fixed_size_memory_pool.ThreadCache.Bin.{
  cached_by, IsBin, Sound, Sound-Same, Sound-trans, Sound-push, Sound-tally,
}
use fixed_size_memory_pool.ThreadCache.Flush.{count_central-Same}

module _ {C : Type 0} where
  pub Same-trans : (s m t : ThreadCacheState C) → Same s m → Same m t → Same s t
  Same-trans s m t first second q = second q ∙ first q

  count_allocation-Same :
      (s : ThreadCacheState C) (x : C × Result Ptr) → Same s (count_allocation s x).0
  unfolding find_record count_allocation
  count_allocation-Same s (central, err e) q = refl
  count_allocation-Same s (central, ok pointer) q = refl

  -- A new record stands at a pointer that had none; nothing has changed if none was made.
  abbrev pub Recorded :
      ThreadCacheState C → Ptr → AllocationRecord → ThreadCacheState C × Result (Unit {0}) → Type 0
  Recorded s p r (after, ok _) = (find_record s p ≡ none) × Change s after p (some r)
  Recorded s p r (after, err _) = Same s after

  abbrev pub Acquired : ThreadCacheState C → AllocationRecord → ThreadCacheState C × Tried → Type 0
  Acquired s r (after, done p) = (find_record s p ≡ none) × Change s after p (some r)
  Acquired s r (after, caught _) = Same s after
  Acquired s r (after, escaped _) = Same s after

  pub Acquired-Same :
      (s m : ThreadCacheState C) (r : AllocationRecord) (x : ThreadCacheState C × Tried)
      → Same s m
      → Acquired m r x
      → Acquired s r x
  Acquired-Same s m r (after, done p) same (unknown, change) =
      (sym (same p) ∙ unknown, Change-Same s m after p (some r) same change)
  Acquired-Same s m r (after, caught _) same rest = Same-trans s m after same rest
  Acquired-Same s m r (after, escaped _) same rest = Same-trans s m after same rest

  rethrown-Acquired :
      (s : ThreadCacheState C) (r : AllocationRecord) (e : Error)
      (x : ThreadCacheState C × Result (Unit {0}))
      → Same s x.0
      → Acquired s r (rethrown e x)
  unfolding rethrown
  rethrown-Acquired s r e (after, err e') same = same
  rethrown-Acquired s r e (after, ok _) same = same

  pub undone-Same :
      (s : ThreadCacheState C) (e : Error) (x : ThreadCacheState C × Result (Unit {0}))
      → Same s x.0
      → Same s (undone e x).0
  unfolding undone
  undone-Same s e (after, err e') same = same
  undone-Same s e (after, ok _) same = same

module _ {C : Type 0} (ops : Central C) (can_insert : Shard → Ptr → Bool) where
  pub record_allocation-Recorded :
      (s : ThreadCacheState C) (p : Ptr) (r : AllocationRecord)
      → Recorded s p r (record_allocation ops can_insert s p r)
  unfolding record_allocation
  record_allocation-Recorded s p r = elim (Bool-cases (can_insert (s.shards (shard_for p)) p)) [
    | inr full ↦ subst (Recorded s p r) (sym (if_true _ _ (ap not full))) (λ q. refl)
    | inl room ↦ elim (Option-cases (find_record s p)) [
      | inl unknown ↦
          subst (Recorded s p r)
            (sym (if_false _ _ (ap not room) ∙ if_false _ _ (ap is_some unknown)))
            (unknown, insert-Change s p r)
      | inr (old, known) ↦
          subst (Recorded s p r) (sym (if_false _ _ (ap not room) ∙ if_true _ _ (ap is_some known)))
            (λ q. refl)
    ]
  ]

  pub central_allocate-Same :
      (s : ThreadCacheState C) (size alignment : ℕ)
      → Same s (central_allocate ops s size alignment).0
  unfolding central_allocate
  central_allocate-Same s size alignment = count_allocation-Same s _

  pub central_deallocate_sized-Same :
      (s : ThreadCacheState C) (p : Ptr) (size alignment : ℕ)
      → Same s (central_deallocate_sized ops s p size alignment).0
  unfolding central_deallocate_sized
  central_deallocate_sized-Same s p size alignment = count_central-Same ops s _

  undo_central-Acquired :
      (s : ThreadCacheState C) (r : AllocationRecord) (p : Ptr) (size alignment : ℕ) (e : Error)
      → Acquired s r (undo_central ops can_insert s p size alignment e)
  unfolding undo_central
  undo_central-Acquired s r p size alignment e = elim (Bool-cases (p == null)) [
    | inl at_null ↦ subst (Acquired s r) (sym (if_true _ _ at_null)) (λ q. refl)
    | inr proper ↦
        subst (Acquired s r) (sym (if_false _ _ proper))
          (rethrown-Acquired s r e _ (central_deallocate_sized-Same s p size alignment))
  ]

  recorded-Acquired :
      (s : ThreadCacheState C) (r : AllocationRecord) (p : Ptr)
      (x : ThreadCacheState C × Result (Unit {0}))
      → Recorded s p r x
      → Acquired s r (recorded ops can_insert r p x)
  unfolding recorded
  recorded-Acquired s r p (after, err e) same =
      Acquired-Same s after r _ same
        (undo_central-Acquired after r p r.requested_size r.alignment e)
  recorded-Acquired s r p (after, ok _) change = change

  acquired-Acquired :
      (s : ThreadCacheState C) (r : AllocationRecord) (x : ThreadCacheState C × Result Ptr)
      → Same s x.0
      → Acquired s r (acquired ops can_insert r x)
  unfolding acquired
  acquired-Acquired s r (after, err e) same = same
  acquired-Acquired s r (after, ok p) same =
      Acquired-Same s after r _ same
        (recorded-Acquired after r p _ (record_allocation-Recorded after p r))

  pub acquire_recorded-Acquired :
      (s : ThreadCacheState C) (r : AllocationRecord)
      → Acquired s r (acquire_recorded ops can_insert s r)
  unfolding acquire_recorded
  acquire_recorded-Acquired s r = acquired-Acquired s r _ (central_allocate-Same s _ _)

  -- A round of the refill, if the rounds to come are sound.
  next_round-Sound :
      (t c : ℕ) (s : ThreadCacheState C) (bin : List Ptr) (r : AllocationRecord)
      (rest : ThreadCacheState C → List Ptr → ThreadCacheState C × List Ptr × Result (Unit {0}))
      (x : ThreadCacheState C × Tried)
      → ((m : ThreadCacheState C) (filled : List Ptr)
          → IsBin m t c filled
          → Sound t c m (rest m filled).0 ((rest m filled).1))
      → cached_by t c (some r) ≡ true
      → IsBin s t c bin
      → Acquired s r x
      → Sound t c s (next_round rest bin x).0 ((next_round rest bin x).1)
  unfolding next_round
  next_round-Sound t c s bin r rest (after, caught e) later idle is_bin same =
      Sound-Same t c s after bin is_bin same
  next_round-Sound t c s bin r rest (after, escaped e) later idle is_bin same =
      Sound-Same t c s after bin is_bin same
  next_round-Sound t c s bin r rest (after, done p) later idle is_bin (unknown, change) =
      Sound-trans t c s _ _ (p ∷ bin) _ pushed (later _ (p ∷ bin) pushed.0)
    where
      pushed : Sound t c s (tally after note_cached) (p ∷ bin)
      pushed = Sound-tally t c s after (p ∷ bin) note_cached (
          Sound-push t c s after p (some r) bin is_bin change
            (λ t' c'. ap (cached_by t' c') unknown) idle)

  pub refill_rest-Sound :
      (t c : ℕ) (r : AllocationRecord) (rounds : ℕ) (s : ThreadCacheState C) (bin : List Ptr)
      → cached_by t c (some r) ≡ true
      → IsBin s t c bin
      → Sound t c s
          (refill_rest ops can_insert rounds s bin r).0
          ((refill_rest ops can_insert rounds s bin r).1)
  unfolding refill_rest
  refill_rest-Sound t c r zero s bin idle is_bin = Sound-Same t c s s bin is_bin (λ q. refl)
  refill_rest-Sound t c r (suc rounds) s bin idle is_bin =
      next_round-Sound t c s bin r (λ m filled. refill_rest ops can_insert rounds m filled r) _
        (λ m filled. refill_rest-Sound t c r rounds m filled idle) idle is_bin
        (acquire_recorded-Acquired s r)

-- ===== src/ThreadCache/Returning.antt =====
-- The returns of blocks of src/detail/thread_cache_state.cpp against the bins and the records.
use fixed_size_memory_pool.Base.{
  ◌≡◌, ◌∙◌, refl, ap, sym, subst, ℕ, Bool, true, false, not, ◌||◌, ◌==◌, ltb, Bool-cases, if_true,
  if_false, inl, inr, arith, List, [], ◌∷◌, length, get_or, Option, none, some, Option-cases,
  Result, Result-cases, ok, err, Error, invalid_pool_pointer, double_free,
}
use fixed_size_memory_pool.Base.Maps.{assign, erase}
use fixed_size_memory_pool.Memory.{Ptr}
use fixed_size_memory_pool.ThreadCacheOptions.{note_local}
use fixed_size_memory_pool.ThreadCache.{
  Central, AllocationRecord, ThreadCacheState, Bins, fallback_class, find_record, with_shard, tally,
  central_deallocate_sized,
}
use fixed_size_memory_pool.ThreadCache.Deallocate.{
  return_central, erase_central, deallocate_central, deallocate_local, deallocate_active,
  deallocate, push_cached, note_return, note_central, accepted,
}
use fixed_size_memory_pool.ThreadCache.Records.{
  Same, Change-Same, assign-Change, erase-Change, tally-Same,
}
use fixed_size_memory_pool.ThreadCache.Bin.{
  cached_by, active_record, active-uncached, IsBin, Sound, Sound-Same, Sound-trans, Sound-Change,
  Sound-push, Sound-tally,
}
use fixed_size_memory_pool.ThreadCache.Flush.{
  count_central-Same, central_deallocate-Same, flush_bin-Sound,
}
use fixed_size_memory_pool.ThreadCache.Slots.{
  AreBins, AllSound, AllSound-set, AllSound-every, AllSound-Same, AreBins-Same,
}

module _ {C : Type 0} (ops : Central C) where
  return_central-Same :
      (s : ThreadCacheState C) (p : Ptr) (supplied : Option (ℕ × ℕ))
      → Same s (return_central ops s p supplied).0
  unfolding return_central central_deallocate_sized
  return_central-Same s p none = central_deallocate-Same ops s p
  return_central-Same s p (some (size, alignment)) = count_central-Same ops s _

  push_cached-Sound :
      (t c : ℕ) (s : ThreadCacheState C) (bin : List Ptr) (p : Ptr)
      → IsBin s t c (p ∷ bin)
      → Sound t c s (push_cached ops s bin p).0 ((push_cached ops s bin p).1)
  unfolding push_cached
  push_cached-Sound t c s bin p is_bin =
      elim (Bool-cases (ltb s.cache_options.high_watermark (length (p ∷ bin)))) [
        | inl full ↦
            subst (λ (x : ThreadCacheState C × List Ptr × Result (Unit {0})). Sound t c s x.0 x.1)
              (sym (if_true _ _ full)) (flush_bin-Sound ops t c s (p ∷ bin) _ is_bin)
        | inr room ↦
            subst (λ (x : ThreadCacheState C × List Ptr × Result (Unit {0})). Sound t c s x.0 x.1)
              (sym (if_false _ _ room)) (Sound-Same t c s s (p ∷ bin) is_bin (λ q. refl))
      ]

  module _ (s : ThreadCacheState C) (p : Ptr) (r : AllocationRecord)
      (there : find_record s p ≡ some r) (live : r.active ≡ true) where
    uncached : (t c : ℕ) → cached_by t c (find_record s p) ≡ false
    uncached t c = active-uncached t c _ (ap active_record there ∙ live)

    deallocate_local-AllSound :
        (t : ℕ) (bins : Bins)
        → AreBins s t bins
        → (r.owner_thread == t) ≡ true
        → AllSound t s (deallocate_local ops s bins p r).0 ((deallocate_local ops s bins p r).1)
    unfolding deallocate_local
    deallocate_local-AllSound t bins are_bins ours =
        AllSound-set t r.class_index s _ bins _ are_bins (
          Sound-trans t r.class_index s _ _ (p ∷ get_or bins r.class_index []) _ pushed
            (push_cached-Sound t r.class_index _ (get_or bins r.class_index []) p pushed.0))
      where
        pushed :
            Sound t r.class_index s
              (tally (with_shard s p (assign p (record r { active = false }))) note_local)
              (p ∷ get_or bins r.class_index [])
        pushed =
            Sound-tally t r.class_index s (with_shard s p (assign p (record r { active = false })))
              (p ∷ get_or bins r.class_index []) note_local
              (Sound-push t r.class_index s
                (with_shard s p (assign p (record r { active = false }))) p
                (some (record r { active = false })) (get_or bins r.class_index [])
                (are_bins r.class_index) (assign-Change s p r (record r { active = false }) there)
                uncached (ground (arith, ours)))

    erase_central-Sound :
        (t c : ℕ) (bin : List Ptr) (remote : Bool) (x : ThreadCacheState C × Result (Unit {0}))
        → IsBin s t c bin
        → Same s x.0
        → Sound t c s (erase_central p remote x).0 bin
    unfolding erase_central
    erase_central-Sound t c bin remote (after, err e) is_bin same =
        Sound-Same t c s after bin is_bin same
    erase_central-Sound t c bin remote (after, ok _) is_bin same =
        Sound-tally t c s (with_shard after p (erase p)) bin (note_central remote) (
          Sound-Change t c s _ p none bin is_bin
            (Change-Same s after _ p none same (erase-Change after p)) uncached)

    deallocate_central-AllSound :
        (t : ℕ) (bins : Bins) (supplied : Option (ℕ × ℕ)) (remote : Bool)
        → AreBins s t bins
        → AllSound t s (deallocate_central ops s p supplied remote).0 bins
    unfolding deallocate_central
    deallocate_central-AllSound t bins supplied remote are_bins =
        AllSound-every t s _ bins are_bins (λ c bin is_bin.
          erase_central-Sound t c bin remote _ is_bin (return_central-Same s p supplied))

    deallocate_active-AllSound :
        (t : ℕ) (bins : Bins) (supplied : Option (ℕ × ℕ))
        → AreBins s t bins
        → AllSound t s
            (deallocate_active ops s t bins p supplied r).0
            ((deallocate_active ops s t bins p supplied r).1)
    unfolding deallocate_active
    deallocate_active-AllSound t bins supplied are_bins =
        elim (Bool-cases (not (r.owner_thread == t) || (r.class_index == fallback_class))) [
          | inl away ↦
              along (if_true _ _ away)
                (deallocate_central-AllSound t bins supplied (not (r.owner_thread == t)) are_bins)
          | inr home ↦
              along (if_false _ _ home)
                (deallocate_local-AllSound t bins are_bins (ground (arith, home)))
        ]
      where
        along :
            {x y : ThreadCacheState C × Bins × Result (Unit {0})}
            → x ≡ y
            → AllSound t s y.0 y.1
            → AllSound t s x.0 x.1
        along e h =
            subst (λ (z : ThreadCacheState C × Bins × Result (Unit {0})). AllSound t s z.0 z.1)
              (sym e) h

  -- The four ways through `deallocate`.
  module _ (s : ThreadCacheState C) (t : ℕ) (bins : Bins) (p : Ptr)
      (supplied : Option (ℕ × ℕ)) where
    pub deallocate-unknown :
        find_record s p ≡ none
        → deallocate ops s t bins p supplied ≡ (tally s note_return, bins, err invalid_pool_pointer)
    unfolding deallocate
    deallocate-unknown there = rw (deallocate, there) refl

    pub deallocate-idle :
        (r : AllocationRecord)
        → find_record s p ≡ some r
        → r.active ≡ false
        → deallocate ops s t bins p supplied ≡ (tally s note_return, bins, err double_free)
    unfolding deallocate
    deallocate-idle r there idle = rw (deallocate, there) (if_true _ _ (ap not idle))

    pub deallocate-mismatch :
        (r : AllocationRecord) (e : Error)
        → find_record s p ≡ some r
        → r.active ≡ true
        → accepted s r supplied ≡ err e
        → deallocate ops s t bins p supplied ≡ (tally s note_return, bins, err e)
    unfolding deallocate
    deallocate-mismatch r e there live refused =
        rw (deallocate, there) (if_false _ _ (ap not live) ∙ rw refused refl)

    pub deallocate-accepted :
        (r : AllocationRecord)
        → find_record s p ≡ some r
        → r.active ≡ true
        → accepted s r supplied ≡ ok tt
        → deallocate ops s t bins p supplied
          ≡ deallocate_active ops (tally s note_return) t bins p supplied r
    unfolding deallocate
    deallocate-accepted r there live right =
        rw (deallocate, there) (if_false _ _ (ap not live) ∙ rw right refl)

  -- A return by a thread keeps its bins right, and spares the blocks of the other threads.
  pub deallocate-AllSound :
      (t : ℕ) (s : ThreadCacheState C) (bins : Bins) (p : Ptr) (supplied : Option (ℕ × ℕ))
      → AreBins s t bins
      → AllSound t s (deallocate ops s t bins p supplied).0 ((deallocate ops s t bins p supplied).1)
  deallocate-AllSound t s bins p supplied are_bins = elim (Option-cases (find_record s p)) [
    | inl unknown ↦ along (deallocate-unknown s t bins p supplied unknown) counted
    | inr (r, there) ↦ elim (Bool-cases r.active) [
      | inr idle ↦ along (deallocate-idle s t bins p supplied r there idle) counted
      | inl live ↦ elim (Result-cases (accepted s r supplied)) [
        | inl (e, refused) ↦
            along (deallocate-mismatch s t bins p supplied r e there live refused) counted
        | inr (_, right) ↦ along (deallocate-accepted s t bins p supplied r there live right) (
            AllSound-Same t s (tally s note_return) _ _ (tally-Same s note_return) (
              deallocate_active-AllSound (tally s note_return) p r
                (tally-Same s note_return p ∙ there) live t bins supplied
                (AreBins-Same t s _ bins (tally-Same s note_return) are_bins)))
      ]
    ]
  ]
    where
      along :
          {x y : ThreadCacheState C × Bins × Result (Unit {0})}
          → x ≡ y
          → AllSound t s y.0 y.1
          → AllSound t s x.0 x.1
      along e h =
          subst (λ (z : ThreadCacheState C × Bins × Result (Unit {0})). AllSound t s z.0 z.1)
            (sym e) h

      counted : AllSound t s (tally s note_return) bins
      counted =
          AllSound-every t s _ bins are_bins
            (λ c bin is_bin. Sound-Same t c s _ bin is_bin (tally-Same s note_return))

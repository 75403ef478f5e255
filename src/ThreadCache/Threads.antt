-- ===== src/ThreadCache/Threads.antt =====
-- The threads of src/detail/thread_cache_state.cpp, each with its bins: any interleaving of their
-- operations on one shared state, whole operation by whole operation.
use fixed_size_memory_pool.Base.{
  ◌≡◌, ◌∙◌, refl, ap, sym, subst, ℕ, Bool, inl, inr, arith, [], get_or, set, none, some,
  Option-cases, Result, Result-cases, ok, err,
}
use fixed_size_memory_pool.Memory.{Ptr}
use fixed_size_memory_pool.SizeClass.{select}
use fixed_size_memory_pool.ThreadCache.{
  Central, ThreadCacheState, Shard, Bins, fallback_class, normalized_size, tally,
}
use fixed_size_memory_pool.ThreadCache.Allocate.{
  allocate, allocate_uncached, allocate_cached, note_request, request_record,
}
use fixed_size_memory_pool.ThreadCache.Records.{tally-Same}
use fixed_size_memory_pool.ThreadCache.Bin.{Sound-Same}
use fixed_size_memory_pool.ThreadCache.Serving.{allocate_cached-Sound, allocate_uncached-Sound}
use fixed_size_memory_pool.ThreadCache.Slots.{
  AreBins, AllSound, AllSound-set, AllSound-every, AllSound-Same, AreBins-Same,
}

module _ {C : Type 0} (ops : Central C) (can_insert : Shard → Ptr → Bool) where
  -- The three ways through `allocate`.
  module _ (s : ThreadCacheState C) (t : ℕ) (bins : Bins) (size alignment : ℕ) where
    pub allocate-refused :
        (e : _)
        → select s.selector (normalized_size size) alignment ≡ err e
        → allocate ops can_insert s t bins size alignment ≡ (tally s note_request, bins, err e)
    unfolding allocate
    allocate-refused e refused = rw (allocate, refused) refl

    pub allocate-large :
        select s.selector (normalized_size size) alignment ≡ ok none
        → allocate ops can_insert s t bins size alignment ≡ (
            let (after, answer) =
              allocate_uncached ops can_insert
                (tally s note_request)
                (request_record fallback_class (normalized_size size) alignment t) in
            (after, bins, answer))
    unfolding allocate
    allocate-large large = rw (allocate, large) refl

    pub allocate-small :
        (c : ℕ)
        → select s.selector (normalized_size size) alignment ≡ ok (some c)
        → allocate ops can_insert s t bins size alignment ≡ (
            let (after, bin, answer) =
              allocate_cached ops can_insert
                (tally s note_request)
                (get_or bins c [])
                (request_record c (normalized_size size) alignment t) in
            (after, set bins c bin, answer))
    unfolding allocate
    allocate-small c small = rw (allocate, small) refl

  -- An allocation by a thread keeps its bins right, and spares the blocks of the other threads.
  pub allocate-AllSound :
      (t : ℕ) (s : ThreadCacheState C) (bins : Bins) (size alignment : ℕ)
      → AreBins s t bins
      → AllSound t s
          (allocate ops can_insert s t bins size alignment).0
          ((allocate ops can_insert s t bins size alignment).1)
  allocate-AllSound t s bins size alignment are_bins =
      elim (Result-cases (select s.selector (normalized_size size) alignment)) [
        | inl (e, refused) ↦ along (allocate-refused s t bins size alignment e refused) (
            AllSound-every t s _ bins are_bins
              (λ c bin is_bin. Sound-Same t c s _ bin is_bin (tally-Same s note_request)))
        | inr (selected, found) ↦ elim (Option-cases selected) [
          | inl large ↦ along (allocate-large s t bins size alignment (found ∙ ap ok large)) (
              after_note _ bins (
                AllSound-every t _ _ bins noted
                  (λ c bin is_bin. allocate_uncached-Sound ops can_insert t c _ bin _ is_bin)))
          | inr (c, small) ↦
              along (allocate-small s t bins size alignment c (found ∙ ap ok small)) (
                after_note _ _ (
                  AllSound-set t c _ _ bins _ noted (
                    allocate_cached-Sound ops can_insert t c _ (get_or bins c []) _ (ground arith)
                      (noted c))))
        ]
      ]
    where
      along :
          {x y : ThreadCacheState C × Bins × Result Ptr}
          → x ≡ y
          → AllSound t s y.0 y.1
          → AllSound t s x.0 x.1
      along e h =
          subst (λ (z : ThreadCacheState C × Bins × Result Ptr). AllSound t s z.0 z.1) (sym e) h

      noted : AreBins (tally s note_request) t bins
      noted = AreBins-Same t s _ bins (tally-Same s note_request) are_bins

      after_note :
          (m : ThreadCacheState C) (rest : Bins)
          → AllSound t (tally s note_request) m rest
          → AllSound t s m rest
      after_note m rest = AllSound-Same t s _ m rest (tally-Same s note_request)

-- ===== src/ThreadCache/Flush.antt =====
-- The flush of a bin of src/detail/thread_cache_state.cpp.
use fixed_size_memory_pool.Base.{
  ◌≡◌, ◌∙◌, refl, ap, sym, subst, ℕ, ◌+◌, true, false, not, ltb, if_true, if_false, Bool-cases,
  none, inl, inr, List, [], ◌∷◌, length, Result, Result-cases, ok, err, Error,
}
use fixed_size_memory_pool.Memory.{Ptr}
use fixed_size_memory_pool.ThreadCache.{
  Central, ThreadCacheState, find_record, tally, count_central, central_deallocate, erase_released,
  flush_one, flush_loop, flush_bin, finish_flush, drop_cached, note_flush,
}
use fixed_size_memory_pool.ThreadCache.Records.{Same, Change-Same, erase-Change}
use fixed_size_memory_pool.ThreadCache.Bin.{
  cached_by, cached_by-record, has_head, IsBin, Sound, Sound-Same, Sound-trans, Sound-pop,
  Sound-tally,
}

module _ {C : Type 0} (ops : Central C) where
  pub count_central-Same :
      (s : ThreadCacheState C) (x : C × Result (Unit {0})) → Same s (count_central s x).0
  unfolding find_record count_central
  count_central-Same s (central, err e) q = refl
  count_central-Same s (central, ok _) q = refl

  pub central_deallocate-Same :
      (s : ThreadCacheState C) (p : Ptr) → Same s (central_deallocate ops s p).0
  unfolding central_deallocate
  central_deallocate-Same s p = count_central-Same s _

  pub flush_one-cached :
      (t c : ℕ) (s : ThreadCacheState C) (p : Ptr)
      → cached_by t c (find_record s p) ≡ true
      → flush_one ops s p ≡ erase_released p (central_deallocate ops s p)
  unfolding flush_one
  flush_one-cached t c s p h =
      let (r, there, idle, _, _) = cached_by-record t c _ h in
      rw (flush_one, there) (if_false _ _ idle)

  -- A round that succeeds takes the head off the bin; one that fails changes no record.
  erase_released-Sound :
      (t c : ℕ) (s : ThreadCacheState C) (p : Ptr) (bin : List Ptr)
      (x : ThreadCacheState C × Result (Unit {0}))
      → IsBin s t c (p ∷ bin)
      → Same s x.0
      → Sound t c s
          (erase_released p x).0
          (elim (erase_released p x).1 [ err _ ↦ p ∷ bin | ok _ ↦ bin ])
  unfolding erase_released
  erase_released-Sound t c s p bin (after, err e) is_bin same =
      Sound-Same t c s after (p ∷ bin) is_bin same
  erase_released-Sound t c s p bin (after, ok _) is_bin same =
      Sound-pop t c s _ p none bin is_bin (Change-Same s after _ p none same (erase-Change after p))

  -- A round on a cached block.
  pub flush_one-Sound :
      (t c : ℕ) (s : ThreadCacheState C) (p : Ptr) (bin : List Ptr)
      → IsBin s t c (p ∷ bin)
      → Sound t c s
          (flush_one ops s p).0
          (elim ((flush_one ops s p).1) [ err _ ↦ p ∷ bin | ok _ ↦ bin ])
  flush_one-Sound t c s p bin is_bin =
      subst (λ x. Sound t c s x.0 (elim x.1 [ err _ ↦ p ∷ bin | ok _ ↦ bin ]))
        (sym (flush_one-cached t c s p (is_bin.0 p (has_head p bin))))
        (erase_released-Sound t c s p bin _ is_bin (central_deallocate-Same s p))

  pub flush_one-next :
      (t c : ℕ) (s : ThreadCacheState C) (p : Ptr) (bin : List Ptr)
      → IsBin s t c (p ∷ bin)
      → (flush_one ops s p).1 ≡ ok tt
      → Sound t c s (tally ((flush_one ops s p).0) drop_cached) bin
  flush_one-next t c s p bin is_bin went = Sound-tally t c s _ bin drop_cached (
      subst (λ r. Sound t c s (flush_one ops s p).0 (elim r [ err _ ↦ p ∷ bin | ok _ ↦ bin ])) went
        (flush_one-Sound t c s p bin is_bin))

  -- The three ways on from the test of the loop.
  pub flush_loop-done :
      (s : ThreadCacheState C) (p : Ptr) (bin : List Ptr) (target released : ℕ)
      → ltb target (length (p ∷ bin)) ≡ false
      → flush_loop ops s (p ∷ bin) target released ≡ (s, p ∷ bin, released, ok tt)
  unfolding flush_loop
  flush_loop-done s p bin target released h = if_true _ _ (ap not h)

  pub flush_loop-failed :
      (s : ThreadCacheState C) (p : Ptr) (bin : List Ptr) (target released : ℕ) (e : Error)
      → ltb target (length (p ∷ bin)) ≡ true
      → (flush_one ops s p).1 ≡ err e
      → flush_loop ops s (p ∷ bin) target released
        ≡ ((flush_one ops s p).0, p ∷ bin, released, err e)
  unfolding flush_loop
  flush_loop-failed s p bin target released e h failed = if_false _ _ (ap not h) ∙ rw failed refl

  pub flush_loop-next :
      (s : ThreadCacheState C) (p : Ptr) (bin : List Ptr) (target released : ℕ)
      → ltb target (length (p ∷ bin)) ≡ true
      → (flush_one ops s p).1 ≡ ok tt
      → flush_loop ops s (p ∷ bin) target released
        ≡ flush_loop ops (tally ((flush_one ops s p).0) drop_cached) bin target (released + 1)
  unfolding flush_loop
  flush_loop-next s p bin target released h went = if_false _ _ (ap not h) ∙ rw went refl

  pub flush_loop-Sound :
      (t c : ℕ) (s : ThreadCacheState C) (bin : List Ptr) (target released : ℕ)
      → IsBin s t c bin
      → Sound t c s
          (flush_loop ops s bin target released).0
          ((flush_loop ops s bin target released).1)
  unfolding flush_loop
  flush_loop-Sound t c s [] target released is_bin = Sound-Same t c s s [] is_bin (λ q. refl)
  flush_loop-Sound t c s (p ∷ bin) target released is_bin =
      elim (Bool-cases (ltb target (length (p ∷ bin)))) [
        | inr short ↦
            along (flush_loop-done s p bin target released short)
              (Sound-Same t c s s (p ∷ bin) is_bin (λ q. refl))
        | inl long ↦ elim (Result-cases ((flush_one ops s p).1)) [
          | inl (e, failed) ↦
              along (flush_loop-failed s p bin target released e long failed) (failing failed)
          | inr (_, went) ↦ along (flush_loop-next s p bin target released long went) (
              Sound-trans t c s _ _ bin _ (flush_one-next t c s p bin is_bin went) (
                flush_loop-Sound t c (tally ((flush_one ops s p).0) drop_cached) bin target
                  (released + 1) ((flush_one-next t c s p bin is_bin went).0)))
        ]
      ]
    where
      along :
          {x y : ThreadCacheState C × List Ptr × ℕ × Result (Unit {0})}
          → x ≡ y
          → Sound t c s y.0 y.1
          → Sound t c s x.0 x.1
      along e h = subst (λ x. Sound t c s x.0 x.1) (sym e) h

      failing :
          {e : Error} → (flush_one ops s p).1 ≡ err e → Sound t c s (flush_one ops s p).0 (p ∷ bin)
      failing failed =
          subst (λ r. Sound t c s (flush_one ops s p).0 (elim r [ err _ ↦ p ∷ bin | ok _ ↦ bin ]))
            failed (flush_one-Sound t c s p bin is_bin)

  finish_flush-Sound :
      (t c : ℕ) (s : ThreadCacheState C) (x : ThreadCacheState C × List Ptr × ℕ × Result (Unit {0}))
      → Sound t c s x.0 x.1
      → Sound t c s (finish_flush x).0 ((finish_flush x).1)
  unfolding finish_flush
  finish_flush-Sound t c s (after, left, released, err e) sound = sound
  finish_flush-Sound t c s (after, left, released, ok _) sound =
      Sound-tally t c s after left (note_flush released) sound

  pub flush_bin-Sound :
      (t c : ℕ) (s : ThreadCacheState C) (bin : List Ptr) (target : ℕ)
      → IsBin s t c bin
      → Sound t c s (flush_bin ops s bin target).0 ((flush_bin ops s bin target).1)
  unfolding flush_bin
  flush_bin-Sound t c s bin target is_bin =
      finish_flush-Sound t c s _ (flush_loop-Sound t c s bin target 0 is_bin)

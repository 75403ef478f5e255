-- ===== src/ThreadCache/Draining.antt =====
-- What a flush of src/detail/thread_cache_state.cpp leaves in a bin, and why it can fail.
use fixed_size_memory_pool.Base.{
  ◌≡◌, ◌∙◌, refl, ap, sym, subst, ℕ, ◌+◌, min, true, ltb, ltb→lt, ltb→le, Bool-cases, inl, inr,
  arith, List, [], ◌∷◌, length, has, Result, Result-cases, ok, err, Error, ◌⊎◌, ◌<◌, err≢ok,
  err-inj,
}
use fixed_size_memory_pool.Memory.{Ptr}
use fixed_size_memory_pool.ThreadCache.{
  Central, ThreadCacheState, tally, count_central, central_deallocate, erase_released, flush_one,
  flush_loop, flush_bin, finish_flush, drop_cached,
}
use fixed_size_memory_pool.ThreadCache.Bin.{IsBin, has_head}
use fixed_size_memory_pool.ThreadCache.Flush.{
  flush_one-cached, flush_one-next, flush_loop-done, flush_loop-failed, flush_loop-next,
}

module _ {C : Type 0} (ops : Central C) where
  count_central-answer :
      (s : ThreadCacheState C) (x : C × Result (Unit {0})) → (count_central s x).1 ≡ x.1
  unfolding count_central
  count_central-answer s (central, err e) = refl
  count_central-answer s (central, ok _) = refl

  erase_released-answer :
      (p : Ptr) (x : ThreadCacheState C × Result (Unit {0})) → (erase_released p x).1 ≡ x.1
  unfolding erase_released
  erase_released-answer p (after, err e) = refl
  erase_released-answer p (after, ok _) = refl

  -- A round on a cached block fails as the central allocator does, and only then.
  flush_one-answer :
      (t c : ℕ) (s : ThreadCacheState C) (p : Ptr) (bin : List Ptr)
      → IsBin s t c (p ∷ bin)
      → (flush_one ops s p).1 ≡ (ops.deallocate s.central p).1
  unfolding central_deallocate
  flush_one-answer t c s p bin is_bin =
      ap (λ x. x.1) (flush_one-cached ops t c s p (is_bin.0 p (has_head p bin)))
      ∙ erase_released-answer p _
      ∙ count_central-answer s _

  -- The central allocator did not take a block of a list.
  abbrev pub Refused : List Ptr → Error → Type 0
  Refused bin e =
      (central : C) × (p : Ptr) × (has p bin ≡ true) × ((ops.deallocate central p).1 ≡ err e)

  abbrev Drained :
      List Ptr
      → (target released : ℕ) → ThreadCacheState C × List Ptr × ℕ × Result (Unit {0})
      → Type 0
  Drained bin target released (after, left, n, answer) =
      ((e : Error) × (answer ≡ err e) × Refused bin e)
      ⊎ ((answer ≡ ok tt)
          × (length left ≡ min (length bin) target)
          × (n + length left ≡ released + length bin))

  Refused-cons : (q : Ptr) (bin : List Ptr) (e : Error) → Refused bin e → Refused (q ∷ bin) e
  Refused-cons q bin e (central, p, member, refused) = (central, p, ground arith, refused)

  flush_loop-Drained :
      (t c : ℕ) (s : ThreadCacheState C) (bin : List Ptr) (target released : ℕ)
      → IsBin s t c bin
      → Drained bin target released (flush_loop ops s bin target released)
  unfolding flush_loop
  flush_loop-Drained t c s [] target released is_bin = inr (refl, omega arith, omega arith)
  flush_loop-Drained t c s (p ∷ bin) target released is_bin =
      elim (Bool-cases (ltb target (length (p ∷ bin)))) [
        | inr short ↦
            along (flush_loop-done ops s p bin target released short)
              (inr (refl, omega (arith, ltb→le _ _ short), omega arith))
        | inl long ↦ elim (Result-cases ((flush_one ops s p).1)) [
          | inl (e, failed) ↦ along (flush_loop-failed ops s p bin target released e long failed) (
              inl (
                e,
                refl,
                (s.central, p, has_head p bin, sym (flush_one-answer t c s p bin is_bin) ∙ failed),
              ))
          | inr (_, went) ↦ along (flush_loop-next ops s p bin target released long went) (
              later
                (flush_loop ops (tally ((flush_one ops s p).0) drop_cached) bin target
                  (released + 1))
                (ltb→lt _ _ long)
                (flush_loop-Drained t c (tally ((flush_one ops s p).0) drop_cached) bin target
                  (released + 1) ((flush_one-next ops t c s p bin is_bin went).0)))
        ]
      ]
    where
      along :
          {x y : ThreadCacheState C × List Ptr × ℕ × Result (Unit {0})}
          → x ≡ y
          → Drained (p ∷ bin) target released y
          → Drained (p ∷ bin) target released x
      along e h = subst (λ x. Drained (p ∷ bin) target released x) (sym e) h

      later :
          (x : ThreadCacheState C × List Ptr × ℕ × Result (Unit {0}))
          → target < length (p ∷ bin)
          → Drained bin target (released + 1) x
          → Drained (p ∷ bin) target released x
      later x long (inl (e, failed, refused)) = inl (e, failed, Refused-cons p bin e refused)
      later x long (inr (went, short, count)) =
          inr (went, omega (arith, short, long), omega (arith, count))

  abbrev pub Drains : List Ptr → (target : ℕ) → ThreadCacheState C × List Ptr × Result ℕ → Type 0
  Drains bin target (after, left, answer) =
      ((e : Error) × (answer ≡ err e) × Refused bin e)
      ⊎ ((n : ℕ) × (answer ≡ ok n)
          × (length left ≡ min (length bin) target)
          × (n + length left ≡ length bin))

  finish_flush-Drains :
      (bin : List Ptr) (target : ℕ) (x : ThreadCacheState C × List Ptr × ℕ × Result (Unit {0}))
      → Drained bin target 0 x
      → Drains bin target (finish_flush x)
  unfolding finish_flush
  finish_flush-Drains bin target (after, left, n, err e) (inl (d, failed, refused)) =
      inl (d, ap err (err-inj failed), refused)
  finish_flush-Drains bin target (after, left, n, err e) (inr (went, _, _)) =
      absurd (err≢ok e tt went)
  finish_flush-Drains bin target (after, left, n, ok _) (inl (d, failed, refused)) =
      absurd (err≢ok d tt (sym failed))
  finish_flush-Drains bin target (after, left, n, ok _) (inr (went, short, count)) =
      inr (n, refl, short, omega (arith, count))

  -- A flush of a bin that agrees with the records ends with an exception that the central allocator
  -- threw on a block of the bin, or without one: then the bin keeps as many blocks as the target
  -- allows, and the number returned is that of the blocks that left.
  pub flush_bin-Drains :
      (t c : ℕ) (s : ThreadCacheState C) (bin : List Ptr) (target : ℕ)
      → IsBin s t c bin
      → Drains bin target (flush_bin ops s bin target)
  unfolding flush_bin
  flush_bin-Drains t c s bin target is_bin =
      finish_flush-Drains bin target _ (flush_loop-Drained t c s bin target 0 is_bin)

-- ===== src/ThreadCache/Capacity.antt =====
-- How long the bins of src/detail/thread_cache_state.cpp become: `cache_capacity`, which the registry
-- reserves for a bin, is one more than the high watermark.
use fixed_size_memory_pool.Base.{
  ◌≡◌, refl, sym, subst, ℕ, zero, suc, ◌+◌, ◌≤◌, ltb, ltb→le, Bool-cases, if_true, if_false, inl,
  inr, ◌⊎◌, arith, List, [], ◌∷◌, length, get_or, set, Result, Result-cases, ok, err,
}
use fixed_size_memory_pool.Memory.{Ptr}
use fixed_size_memory_pool.ThreadCacheOptions.{ThreadCacheOptions}
use fixed_size_memory_pool.ThreadCache.{
  Central, ThreadCacheState, Bins, tally, flush_one, flush_loop, flush_bin, flush_bins, next_bin,
  finish_flush, drop_cached,
}
use fixed_size_memory_pool.ThreadCache.Deallocate.{push_cached}
use fixed_size_memory_pool.ThreadCache.Flush.{flush_loop-done, flush_loop-failed, flush_loop-next}
use fixed_size_memory_pool.ThreadCache.Slots.{get_or-set_cases}

-- How many exceptions an answer is.
abbrev pub thrown {ℓ} : {A : Type ℓ} → Result A → ℕ
thrown (ok _) = 0
thrown (err _) = 1

abbrev pub Within : ℕ → Bins → Type 0
Within bound bins = (c : ℕ) → length (get_or bins c []) ≤ bound

pub Within-set :
    (bound : ℕ) (bins : Bins) (c : ℕ) (bin : List Ptr)
    → Within bound bins
    → length bin ≤ bound
    → Within bound (set bins c bin)
Within-set bound bins c bin within few i = elim (get_or-set_cases bins c bin i) [
  | inl (_, e) ↦ subst (λ (b : List Ptr). length b ≤ bound) (sym e) few
  | inr (inl e) ↦ subst (λ (b : List Ptr). length b ≤ bound) (sym e) (omega arith)
  | inr (inr (_, e)) ↦ subst (λ (b : List Ptr). length b ≤ bound) (sym e) (within i)
]

Within-cons :
    (bound : ℕ) (bin : List Ptr) (bins : Bins)
    → length bin ≤ bound
    → Within bound bins
    → Within bound (bin ∷ bins)
Within-cons bound bin bins few within zero = few
Within-cons bound bin bins few within (suc c) = within c

module _ {C : Type 0} (ops : Central C) where
  -- A flush that throws leaves no more than there was, and one that does not at most the target.
  abbrev Shortened {ℓ} : {A : Type ℓ} → List Ptr → (target : ℕ) → List Ptr → Result A → Type 0
  Shortened bin target left answer =
      (length left ≤ length bin) × ((thrown answer ≡ 1) ⊎ (length left ≤ target))

  flush_loop-Shortened :
      (s : ThreadCacheState C) (bin : List Ptr) (target released : ℕ)
      → Shortened bin target
          ((flush_loop ops s bin target released).1)
          ((flush_loop ops s bin target released).3)
  unfolding flush_loop
  flush_loop-Shortened s [] target released = (omega arith, inr (omega arith))
  flush_loop-Shortened s (p ∷ bin) target released =
      elim (Bool-cases (ltb target (length (p ∷ bin)))) [
        | inr short ↦
            along (flush_loop-done ops s p bin target released short)
              (omega arith, inr (ltb→le _ _ short))
        | inl long ↦ elim (Result-cases ((flush_one ops s p).1)) [
          | inl (e, failed) ↦
              along (flush_loop-failed ops s p bin target released e long failed)
                (omega arith, inl refl)
          | inr (_, went) ↦
              let (shorter, ended) =
                flush_loop-Shortened (tally ((flush_one ops s p).0) drop_cached) bin target
                  (released + 1) in
              along (flush_loop-next ops s p bin target released long went)
                (omega (arith, shorter), ended)
        ]
      ]
    where
      along :
          {x y : ThreadCacheState C × List Ptr × ℕ × Result (Unit {0})}
          → x ≡ y
          → Shortened (p ∷ bin) target y.1 y.3
          → Shortened (p ∷ bin) target x.1 x.3
      along e h =
          subst
            (λ (z : ThreadCacheState C × List Ptr × ℕ × Result (Unit {0})).
              Shortened (p ∷ bin) target z.1 z.3)
            (sym e) h

  finish_flush-Shortened :
      (bin : List Ptr) (target : ℕ) (x : ThreadCacheState C × List Ptr × ℕ × Result (Unit {0}))
      → Shortened bin target x.1 x.3
      → Shortened bin target ((finish_flush x).1) ((finish_flush x).2)
  unfolding finish_flush
  finish_flush-Shortened bin target (after, left, n, err e) short = short
  finish_flush-Shortened bin target (after, left, n, ok _) short = short

  flush_bin-Shortened :
      (s : ThreadCacheState C) (bin : List Ptr) (target : ℕ)
      → Shortened bin target ((flush_bin ops s bin target).1) ((flush_bin ops s bin target).2)
  unfolding flush_bin
  flush_bin-Shortened s bin target =
      finish_flush-Shortened bin target _ (flush_loop-Shortened s bin target 0)

  next_bin-Within :
      (bound : ℕ) (bins : Bins)
      (rest : ThreadCacheState C → ℕ → ThreadCacheState C × Bins × Result ℕ)
      (x : ThreadCacheState C × List Ptr × Result ℕ)
      → ((m : ThreadCacheState C) (n : ℕ) → Within bound ((rest m n).1))
      → Within bound bins
      → length x.1 ≤ bound
      → Within bound ((next_bin rest bins x).1)
  unfolding next_bin
  next_bin-Within bound bins rest (after, left, err e) later within few =
      Within-cons bound left bins few within
  next_bin-Within bound bins rest (after, left, ok n) later within few =
      Within-cons bound left _ few (later after n)

  pub flush_bins-Within :
      (bound : ℕ) (s : ThreadCacheState C) (bins : Bins) (released : ℕ)
      → Within bound bins
      → Within bound ((flush_bins ops s bins released).1)
  unfolding flush_bins
  flush_bins-Within bound s [] released within = within
  flush_bins-Within bound s (bin ∷ bins) released within =
      next_bin-Within bound bins _ _
        (λ m n. flush_bins-Within bound m bins (released + n) (λ c. within (suc c)))
        (λ c. within (suc c)) (omega (arith, (flush_bin-Shortened s bin 0).0, within zero))

  flushed-length :
      (low high k : ℕ) (bin : List Ptr) (x : ThreadCacheState C × List Ptr × Result ℕ)
      → low ≤ high
      → length bin ≤ suc (high + k)
      → Shortened bin low x.1 x.2
      → length x.1
        ≤ high
          + (k + thrown (elim x.2 as (λ _. Result (Unit {0})) [ err e ↦ err e | ok _ ↦ ok tt ]))
  flushed-length low high k bin (after, left, err e) ordered few (shorter, ended) = omega arith
  flushed-length low high k bin (after, left, ok n) ordered few (shorter, inl never) = omega arith
  flushed-length low high k bin (after, left, ok n) ordered few (shorter, inr short) = omega arith

  -- A push adds a block above the high watermark only if the flush that follows it throws.
  pub push_cached-length :
      (options : ThreadCacheOptions) (k : ℕ) (s : ThreadCacheState C) (bin : List Ptr) (p : Ptr)
      → s.cache_options ≡ options
      → options.low_watermark ≤ options.high_watermark
      → length bin ≤ options.high_watermark + k
      → length ((push_cached ops s bin p).1)
        ≤ options.high_watermark + (k + thrown ((push_cached ops s bin p).2))
  unfolding push_cached
  push_cached-length options k s bin p same ordered few =
      subst
        (λ (o : ThreadCacheOptions).
          length ((push_cached ops s bin p).1)
          ≤ o.high_watermark + (k + thrown ((push_cached ops s bin p).2)))
        same
        (elim (Bool-cases (ltb s.cache_options.high_watermark (length (p ∷ bin)))) [
          | inl full ↦ along (if_true _ _ full) (
              flushed-length s.cache_options.low_watermark s.cache_options.high_watermark k
                (p ∷ bin) (flush_bin ops s (p ∷ bin) s.cache_options.low_watermark) ours.0
                (omega (arith, ours.1)) (flush_bin-Shortened s (p ∷ bin) _))
          | inr room ↦ along (if_false _ _ room) (omega (arith, ltb→le _ _ room))
        ])
    where
      ours :
          (s.cache_options.low_watermark ≤ s.cache_options.high_watermark)
          × (length bin ≤ s.cache_options.high_watermark + k)
      ours =
          subst
            (λ (o : ThreadCacheOptions).
              (o.low_watermark ≤ o.high_watermark) × (length bin ≤ o.high_watermark + k))
            (sym same) (ordered, few)

      along :
          {x y : ThreadCacheState C × List Ptr × Result (Unit {0})}
          → x ≡ y
          → length y.1 ≤ s.cache_options.high_watermark + (k + thrown y.2)
          → length x.1 ≤ s.cache_options.high_watermark + (k + thrown x.2)
      along e h =
          subst
            (λ (z : ThreadCacheState C × List Ptr × Result (Unit {0})).
              length z.1 ≤ s.cache_options.high_watermark + (k + thrown z.2))
            (sym e) h

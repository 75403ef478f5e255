-- ===== src/ThreadCache/Release.antt =====
-- `flush_bins` of src/detail/thread_cache_state.cpp against the bins and the records.
use fixed_size_memory_pool.Base.{
  ◌≡◌, subst, ℕ, zero, suc, ◌+◌, true, false, ◌&&◌, ◌==◌, leb, arith, List, [], ◌∷◌, get_or, Result,
  ok, err,
}
use fixed_size_memory_pool.Memory.{Ptr}
use fixed_size_memory_pool.ThreadCache.{
  Central, ThreadCacheState, Bins, find_record, flush_bins, next_bin,
}
use fixed_size_memory_pool.ThreadCache.Bin.{cached_by, IsBin, Sound}
use fixed_size_memory_pool.ThreadCache.Flush.{flush_bin-Sound}
use fixed_size_memory_pool.ThreadCache.Slots.{AreBins, AllSound, Keeps-IsBin}

module _ {C : Type 0} where
  -- The bins of a thread from one class on.
  abbrev AreFrom : ThreadCacheState C → (thread first : ℕ) → Bins → Type 0
  AreFrom s t k bins = (i : ℕ) → IsBin s t (k + i) (get_or bins i [])

  -- The blocks of other threads and of smaller classes are cached as before.
  abbrev SparesFrom : (thread first : ℕ) → ThreadCacheState C → ThreadCacheState C → Type 0
  SparesFrom t k s s' =
      (t' c : ℕ)
      → ((t' == t) && leb k c) ≡ false
      → (p : Ptr) → cached_by t' c (find_record s p) ≡ true
      → cached_by t' c (find_record s' p) ≡ true

  abbrev SoundFrom : (thread first : ℕ) → ThreadCacheState C → ThreadCacheState C → Bins → Type 0
  SoundFrom t k s s' bins = AreFrom s' t k bins × SparesFrom t k s s'

  -- One more bin before the rest.
  AreFrom-cons :
      (t k : ℕ) (s : ThreadCacheState C) (bin : List Ptr) (bins : Bins)
      → IsBin s t k bin
      → AreFrom s t (k + 1) bins
      → AreFrom s t k (bin ∷ bins)
  AreFrom-cons t k s bin bins first rest zero = subst (λ c. IsBin s t c bin) (omega arith) first
  AreFrom-cons t k s bin bins first rest (suc i) =
      subst (λ c. IsBin s t c (get_or bins i [])) (omega arith) (rest i)

  next_bin-Sound :
      (t k : ℕ) (s : ThreadCacheState C) (bins : Bins)
      (rest : ThreadCacheState C → ℕ → ThreadCacheState C × Bins × Result ℕ)
      (x : ThreadCacheState C × List Ptr × Result ℕ)
      → ((m : ThreadCacheState C) (n : ℕ)
          → AreFrom m t (k + 1) bins
          → SoundFrom t (k + 1) m (rest m n).0 ((rest m n).1))
      → AreFrom s t (k + 1) bins
      → Sound t k s x.0 x.1
      → SoundFrom t k s (next_bin rest bins x).0 ((next_bin rest bins x).1)
  unfolding next_bin
  next_bin-Sound t k s bins rest (after, left, err e) later are (is_bin, keeps) = (
    AreFrom-cons t k after left bins is_bin
        (λ i. Keeps-IsBin t k t (k + 1 + i) s after _ (ground arith) keeps (are i)),
    λ t' c out. keeps t' c (ground (arith, out)),
  )
  next_bin-Sound t k s bins rest (after, left, ok n) later are ((cached, distinct), keeps) = (
    AreFrom-cons t k _ left _
        ((λ p member. (later after n behind).1 t k (ground arith) p (cached p member)), distinct)
        ((later after n behind).0),
    λ t' c out p h.
        (later after n behind).1 t' c (ground (arith, out)) p
          (keeps t' c (ground (arith, out)) p h),
  )
    where
      behind : AreFrom after t (k + 1) bins
      behind i = Keeps-IsBin t k t (k + 1 + i) s after _ (ground arith) keeps (are i)

module _ {C : Type 0} (ops : Central C) where
  flush_bins-SoundFrom :
      (t k : ℕ) (s : ThreadCacheState C) (bins : Bins) (released : ℕ)
      → AreFrom s t k bins
      → SoundFrom t k s (flush_bins ops s bins released).0 ((flush_bins ops s bins released).1)
  unfolding flush_bins
  flush_bins-SoundFrom t k s [] released are = (are, λ t' c out p h. h)
  flush_bins-SoundFrom t k s (bin ∷ bins) released are =
      next_bin-Sound t k s bins (λ m n. flush_bins ops m bins (released + n)) _
        (λ m n behind. flush_bins-SoundFrom t (k + 1) m bins (released + n) behind)
        (λ i. subst (λ c. IsBin s t c (get_or bins i [])) (omega arith) (are (suc i)))
        (flush_bin-Sound ops t k s bin 0 (subst (λ c. IsBin s t c bin) (omega arith) (are 0)))

  -- The flush of all bins keeps them right, and spares the blocks of the other threads.
  pub flush_bins-AllSound :
      (t : ℕ) (s : ThreadCacheState C) (bins : Bins) (released : ℕ)
      → AreBins s t bins
      → AllSound t s (flush_bins ops s bins released).0 ((flush_bins ops s bins released).1)
  flush_bins-AllSound t s bins released are = (
    λ c.
        subst
          (λ i.
            IsBin (flush_bins ops s bins released).0 t i
              (get_or ((flush_bins ops s bins released).1) c []))
          (omega arith) (whole.0 c),
    λ t' c other. whole.1 t' c (ground (arith, other)),
  )
    where
      whole :
          SoundFrom t 0 s (flush_bins ops s bins released).0 ((flush_bins ops s bins released).1)
      whole =
          flush_bins-SoundFrom t 0 s bins released
            (λ i. subst (λ c. IsBin s t c (get_or bins i [])) (omega arith) (are i))

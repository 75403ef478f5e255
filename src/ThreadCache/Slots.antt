-- ===== src/ThreadCache/Slots.antt =====
-- All the bins of one thread against the records of src/detail/thread_cache_state.cpp.
use mathlib.Core.Bool.{false≢true}
use fixed_size_memory_pool.Base.{
  ◌≡◌, ◌∙◌, refl, ap, sym, subst, ℕ, zero, suc, true, false, ◌&&◌, ◌==◌, inl, inr, arith, ◌⊎◌, List,
  [], ◌∷◌, get_or, set,
}
use fixed_size_memory_pool.Memory.{Ptr}
use fixed_size_memory_pool.ThreadCache.{ThreadCacheState, Bins, find_record}
use fixed_size_memory_pool.ThreadCache.Records.{Same}
use fixed_size_memory_pool.ThreadCache.Bin.{cached_by, IsBin, Keeps, Sound}

-- A bin after a write to one bin: the new one, an empty one that is out of range, or as before.
pub get_or-set_cases :
    (bins : Bins) (c : ℕ) (bin : List Ptr) (i : ℕ)
    → ((i ≡ c) × (get_or (set bins c bin) i [] ≡ bin))
      ⊎ (get_or (set bins c bin) i [] ≡ [])
      ⊎ (((i == c) ≡ false) × (get_or (set bins c bin) i [] ≡ get_or bins i []))
get_or-set_cases [] c bin i = inr (inl refl)
get_or-set_cases (b ∷ bins) zero bin zero = inl (refl, refl)
get_or-set_cases (b ∷ bins) zero bin (suc i) = inr (inr (ground arith, refl))
get_or-set_cases (b ∷ bins) (suc c) bin zero = inr (inr (ground arith, refl))
get_or-set_cases (b ∷ bins) (suc c) bin (suc i) = elim (get_or-set_cases bins c bin i) [
  | inl (same, e) ↦ inl (ap suc same, e)
  | inr (inl e) ↦ inr (inl e)
  | inr (inr (differ, e)) ↦ inr (inr (ground (arith, differ), e))
]

module _ {C : Type 0} where
  abbrev pub AreBins : ThreadCacheState C → (thread : ℕ) → Bins → Type 0
  AreBins s t bins = (c : ℕ) → IsBin s t c (get_or bins c [])

  -- The blocks of the other threads are cached as before.
  abbrev pub Spares : (thread : ℕ) → ThreadCacheState C → ThreadCacheState C → Type 0
  Spares t s s' =
      (t' c : ℕ)
      → (t' == t) ≡ false
      → (p : Ptr) → cached_by t' c (find_record s p) ≡ true
      → cached_by t' c (find_record s' p) ≡ true

  abbrev pub AllSound : (thread : ℕ) → ThreadCacheState C → ThreadCacheState C → Bins → Type 0
  AllSound t s s' bins = AreBins s' t bins × Spares t s s'

  pub IsBin-empty : (s : ThreadCacheState C) (t c : ℕ) → IsBin s t c []
  IsBin-empty s t c = ((λ p member. absurd (false≢true member)), tt)

  pub Keeps-IsBin :
      (t c t' c' : ℕ) (s s' : ThreadCacheState C) (bin : List Ptr)
      → ((t' == t) && (c' == c)) ≡ false
      → Keeps t c s s'
      → IsBin s t' c' bin
      → IsBin s' t' c' bin
  Keeps-IsBin t c t' c' s s' bin apart keeps (cached, distinct) =
      ((λ p member. keeps t' c' apart p (cached p member)), distinct)

  -- A sound step on one bin is one on the bins of its thread.
  pub AllSound-set :
      (t c : ℕ) (s s' : ThreadCacheState C) (bins : Bins) (bin : List Ptr)
      → AreBins s t bins
      → Sound t c s s' bin
      → AllSound t s s' (set bins c bin)
  AllSound-set t c s s' bins bin are_bins (is_bin, keeps) = (
    λ i. elim (get_or-set_cases bins c bin i) [
      | inl (same, e) ↦
          subst (IsBin s' t i) (sym e) (subst (λ j. IsBin s' t j bin) (sym same) is_bin)
      | inr (inl e) ↦ subst (IsBin s' t i) (sym e) (IsBin-empty s' t i)
      | inr (inr (differ, e)) ↦
          subst (IsBin s' t i) (sym e)
            (Keeps-IsBin t c t i s s' _ (ground (arith, differ)) keeps (are_bins i))
    ],
    λ t' c' other. keeps t' c' (ground (arith, other)),
  )

  -- A step that is sound for every bin, and writes to none.
  pub AllSound-every :
      (t : ℕ) (s s' : ThreadCacheState C) (bins : Bins)
      → AreBins s t bins
      → ((c : ℕ) (bin : List Ptr) → IsBin s t c bin → Sound t c s s' bin)
      → AllSound t s s' bins
  AllSound-every t s s' bins are_bins sound = (
    λ c. (sound c _ (are_bins c)).0,
    λ t' c' other. (sound c' [] (IsBin-empty s t c')).1 t' c' (ground (arith, other)),
  )

  pub AllSound-Same :
      (t : ℕ) (s m s' : ThreadCacheState C) (bins : Bins)
      → Same s m
      → AllSound t m s' bins
      → AllSound t s s' bins
  AllSound-Same t s m s' bins same (are_bins, spares) =
      (are_bins, λ t' c other p h. spares t' c other p (ap (cached_by t' c) (same p) ∙ h))

  pub AreBins-Same :
      (t : ℕ) (s m : ThreadCacheState C) (bins : Bins)
      → Same s m
      → AreBins s t bins
      → AreBins m t bins
  AreBins-Same t s m bins same are_bins c =
      ((λ p member. ap (cached_by t c) (same p) ∙ (are_bins c).0 p member), (are_bins c).1)

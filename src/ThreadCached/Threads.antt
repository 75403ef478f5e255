-- ===== src/ThreadCached/Threads.antt =====
-- The threads that use one allocator of src/thread_cached_allocator.cpp. Each operation of a thread is
-- one step, and the steps of the threads come in any order.
use fixed_size_memory_pool.Base.{
  ◌≡◌, ◌∙◌, refl, ap, sym, subst, ℕ, Bool, not, ◌==◌, ==_iff, ==_self, if◌then◌else◌, if_true,
  if_false, Bool-cases, inl, inr, List, [], get_or, replicate, Option, none, some, Option-cases,
  is_some, zero, suc,
}
use fixed_size_memory_pool.Base.Maps.{lookup, erase, assign, lookup-assign, lookup-erase}
use fixed_size_memory_pool.Memory.{Ptr}
use fixed_size_memory_pool.ThreadCache.{ThreadCacheState, Bins}
use fixed_size_memory_pool.ThreadCache.Bin.{IsBin}
use fixed_size_memory_pool.ThreadCache.Slots.{AreBins, AllSound, IsBin-empty}
use fixed_size_memory_pool.ThreadCached.{Registry, get, empty_bins}

pub record System (C : Type 0) : Type 0 where
  pub shared : ThreadCacheState C
  pub registries : ℕ → Registry

-- The bins of an allocator in a registry.
abbrev pub bins_in : Option Bins → Bins
bins_in none = []
bins_in (some bins) = bins

abbrev pub bins_of : (id : ℕ) → Registry → Bins
bins_of id caches = bins_in (lookup id caches)

get_or-replicate_nil : (n i : ℕ) → get_or (replicate {A = List Ptr} n []) i [] ≡ []
get_or-replicate_nil zero i = refl
get_or-replicate_nil (suc n) zero = refl
get_or-replicate_nil (suc n) (suc i) = get_or-replicate_nil n i

-- A write through the iterator of an entry, if it is there.
bins_of-assign :
    (id : ℕ) (caches : Registry) (bins : Bins)
    → bins_of id (assign id bins caches)
      ≡ bins_in (if is_some (lookup id caches) then some bins else none)
bins_of-assign id caches bins =
    ap bins_in (lookup-assign id id bins caches ∙ if_true _ _ (==_self id))

bins_of-erase : (id : ℕ) (caches : Registry) → bins_of id (erase id caches) ≡ []
bins_of-erase id caches = ap bins_in (lookup-erase id id caches ∙ if_true _ _ (==_self id))

module _ {C : Type 0} where
  -- What one thread leaves of the shared part and of its registry.
  abbrev pub after_call : System C → (thread : ℕ) → ThreadCacheState C → Registry → System C
  after_call m thread shared caches = record {
    shared = shared;
    registries = λ t. if t == thread then caches else m.registries t;
  }

  -- Every block in a bin of a thread is recorded as cached there.
  abbrev pub IsConsistent : (id : ℕ) → System C → Type 0
  IsConsistent id m = (t : ℕ) → AreBins m.shared t (bins_of id (m.registries t))

  pub AreBins-nil : (s : ThreadCacheState C) (t : ℕ) → AreBins s t []
  AreBins-nil s t c = IsBin-empty s t c

  AreBins-empty : (s m : ThreadCacheState C) (t : ℕ) → AreBins s t (empty_bins m)
  AreBins-empty s m t c = subst (IsBin s t c) (sym (get_or-replicate_nil _ c)) (IsBin-empty s t c)

  pub AreBins-assign :
      (s : ThreadCacheState C) (t id : ℕ) (caches : Registry) (bins : Bins)
      → AreBins s t bins
      → AreBins s t (bins_of id (assign id bins caches))
  AreBins-assign s t id caches bins are =
      subst (AreBins s t) (sym (bins_of-assign id caches bins))
        (elim (Bool-cases (is_some (lookup id caches))) [
          | inl there ↦ subst (λ o. AreBins s t (bins_in o)) (sym (if_true _ _ there)) are
          | inr gone ↦
              subst (λ o. AreBins s t (bins_in o)) (sym (if_false _ _ gone)) (AreBins-nil s t)
        ])

  pub AreBins-erase :
      (s : ThreadCacheState C) (t id : ℕ) (caches : Registry)
      → AreBins s t (bins_of id (erase id caches))
  AreBins-erase s t id caches =
      subst (AreBins s t) (sym (bins_of-erase id caches)) (AreBins-nil s t)

  pub get-AreBins :
      (expired : ℕ → Bool) (s : ThreadCacheState C) (t id : ℕ) (caches : Registry)
      → AreBins s t (bins_of id caches)
      → AreBins s t ((get expired caches id s).1)
  unfolding get
  get-AreBins expired s t id caches are = elim (Option-cases (lookup id caches)) [
    | inl fresh ↦ rw (get, fresh) (AreBins-empty s s t)
    | inr (bins, there) ↦ elim (Bool-cases (expired id)) [
      | inl gone ↦
          rw (get, there)
            (subst (λ (x : Registry × Bins). AreBins s t x.1) (sym (if_false _ _ (ap not gone)))
              (AreBins-empty s s t))
      | inr alive ↦
          rw (get, there)
            (subst (λ (x : Registry × Bins). AreBins s t x.1) (sym (if_true _ _ (ap not alive)))
              (subst (λ o. AreBins s t (bins_in o)) there are))
    ]
  ]

  -- A sound call leaves a consistent system.
  pub IsConsistent-call :
      (id : ℕ) (m : System C) (t : ℕ) (s : ThreadCacheState C) (bins : Bins) (caches : Registry)
      → IsConsistent id m
      → AllSound t m.shared s bins
      → AreBins s t (bins_of id caches)
      → IsConsistent id (after_call m t s caches)
  IsConsistent-call id m t s bins caches consistent (are, spares) kept t' =
      elim (Bool-cases (t' == t)) [
        | inl same ↦
            subst (λ c. AreBins s t' (bins_of id c)) (sym (if_true _ _ same))
              (subst (λ i. AreBins s i (bins_of id caches)) (sym ((==_iff _ _).0 same)) kept)
        | inr other ↦
            subst (λ c. AreBins s t' (bins_of id c)) (sym (if_false _ _ other))
              (λ c. (
                (λ p member. spares t' c other p ((consistent t' c).0 p member)),
                (consistent t' c).1,
              ))
      ]

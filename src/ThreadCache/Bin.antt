-- ===== src/ThreadCache/Bin.antt =====
-- The bins of the threads against the records of src/detail/thread_cache_state.cpp.
use mathlib.Core.Bool.{false≢true}
use fixed_size_memory_pool.Base.{
  ◌≡◌, ◌∙◌, refl, ap, sym, ℕ, Bool, true, false, not, ◌&&◌, ◌==◌, ==_iff, ne→==, if_true, if_false,
  Bool-cases, Option, none, some, inl, inr, arith, subst, List, ◌∷◌, has, Distinct,
}
use fixed_size_memory_pool.Memory.{Ptr}
use fixed_size_memory_pool.ThreadCache.{AllocationRecord, ThreadCacheState, find_record, tally}
use fixed_size_memory_pool.ThreadCache.Records.{Change, Same, tally-Same}
use fixed_size_memory_pool.ThreadCacheOptions.{ThreadCacheStatistics}

-- What the record of a block in a thread's bin for a class says.
abbrev pub cached_by : (thread class_index : ℕ) → Option AllocationRecord → Bool
cached_by thread class_index none = false
cached_by thread class_index (some r) =
    not r.active && (r.owner_thread == thread) && (r.class_index == class_index)

abbrev pub active_record : Option AllocationRecord → Bool
active_record none = false
active_record (some r) = r.active

-- One block is cached in one bin only.
pub cached_by_unique :
    (t c t' c' : ℕ) (x : Option AllocationRecord)
    → cached_by t c x ≡ true
    → cached_by t' c' x ≡ true
    → (t' ≡ t) × (c' ≡ c)
cached_by_unique t c t' c' none h h' = ground arith
cached_by_unique t c t' c' (some r) h h' = ground arith

-- The record of a cached block.
pub cached_by-record :
    (t c : ℕ) (x : Option AllocationRecord)
    → cached_by t c x ≡ true
    → (r : AllocationRecord) × (x ≡ some r)
      × (r.active ≡ false)
      × (r.owner_thread ≡ t)
      × (r.class_index ≡ c)
cached_by-record t c none h = absurd (false≢true h)
cached_by-record t c (some r) h = (r, refl, ground arith, ground arith, ground arith)

pub active-uncached :
    (t c : ℕ) (x : Option AllocationRecord) → active_record x ≡ true → cached_by t c x ≡ false
active-uncached t c none h = ground arith
active-uncached t c (some r) h = ground arith

has_differ : (p q : Ptr) (bin : List Ptr) → has p bin ≡ false → has q bin ≡ true → (p == q) ≡ false
has_differ p q bin absent member =
    ne→== p q (λ same. false≢true (sym absent ∙ ap (λ i. has i bin) same ∙ member))

has_tail :
    (p q : Ptr) (bin : List Ptr) → (p == q) ≡ false → has q (p ∷ bin) ≡ true → has q bin ≡ true
has_tail p q bin differ member = ground arith

has_cons : (p q : Ptr) (bin : List Ptr) → has q bin ≡ true → has q (p ∷ bin) ≡ true
has_cons p q bin member = ground arith

pub has_head : (p : Ptr) (bin : List Ptr) → has p (p ∷ bin) ≡ true
has_head p bin = ground arith

cached_elsewhere :
    (t c t' c' : ℕ) (x : Option AllocationRecord)
    → ((t' == t) && (c' == c)) ≡ false
    → cached_by t c x ≡ true
    → cached_by t' c' x ≡ false
cached_elsewhere t c t' c' none apart h = ground arith
cached_elsewhere t c t' c' (some r) apart h = ground arith

module _ {C : Type 0} where
  -- Every block of a bin has a record that says so, and none stands there twice.
  abbrev pub IsBin : ThreadCacheState C → (thread class_index : ℕ) → List Ptr → Type 0
  IsBin s t c bin =
      ((p : Ptr) → has p bin ≡ true → cached_by t c (find_record s p) ≡ true) × Distinct bin

  -- The blocks in all bins but one are cached as before.
  abbrev pub Keeps : (thread class_index : ℕ) → ThreadCacheState C → ThreadCacheState C → Type 0
  Keeps t c s s' =
      (t' c' : ℕ)
      → ((t' == t) && (c' == c)) ≡ false
      → (p : Ptr) → cached_by t' c' (find_record s p) ≡ true
      → cached_by t' c' (find_record s' p) ≡ true

  -- What a step on one bin must establish.
  abbrev pub Sound :
      (thread class_index : ℕ) → ThreadCacheState C → ThreadCacheState C → List Ptr → Type 0
  Sound t c s s' bin = IsBin s' t c bin × Keeps t c s s'

  pub Sound-Same :
      (t c : ℕ) (s s' : ThreadCacheState C) (bin : List Ptr)
      → IsBin s t c bin
      → Same s s'
      → Sound t c s s' bin
  Sound-Same t c s s' bin (cached, distinct) same = (
    (λ p member. ap (cached_by t c) (same p) ∙ cached p member, distinct),
    λ t' c' apart p h. ap (cached_by t' c') (same p) ∙ h,
  )

  pub Sound-trans :
      (t c : ℕ) (s m s' : ThreadCacheState C) (bin bin' : List Ptr)
      → Sound t c s m bin
      → Sound t c m s' bin'
      → Sound t c s s' bin'
  Sound-trans t c s m s' bin bin' (i, k) (i', k') =
      (i', λ t' c' apart p h. k' t' c' apart p (k t' c' apart p h))

  -- The counters say nothing of the bins.
  pub Sound-tally :
      (t c : ℕ) (s s' : ThreadCacheState C) (bin : List Ptr)
      (change : ThreadCacheStatistics → ThreadCacheStatistics)
      → Sound t c s s' bin
      → Sound t c s (tally s' change) bin
  Sound-tally t c s s' bin change sound =
      Sound-trans t c s s' _ bin bin sound (Sound-Same t c s' _ bin sound.0 (tally-Same s' change))

  -- A change at one pointer that no other bin holds.
  Keeps-Change :
      (t c : ℕ) (s s' : ThreadCacheState C) (p : Ptr) (x : Option AllocationRecord)
      → Change s s' p x
      → ((t' c' : ℕ) → ((t' == t) && (c' == c)) ≡ false → cached_by t' c' (find_record s p) ≡ false)
      → Keeps t c s s'
  Keeps-Change t c s s' p x change free t' c' apart q h = elim (Bool-cases (p == q)) [
    | inl same ↦ absurd (
        false≢true (
          sym (free t' c' apart)
          ∙ subst (λ i. cached_by t' c' (find_record s i) ≡ true) (sym ((==_iff _ _).0 same)) h))
    | inr differ ↦ ap (cached_by t' c') (change q ∙ if_false _ _ differ) ∙ h
  ]

  IsBin-Change :
      (t c : ℕ) (s s' : ThreadCacheState C) (p : Ptr) (x : Option AllocationRecord) (bin : List Ptr)
      → Change s s' p x
      → has p bin ≡ false
      → IsBin s t c bin
      → IsBin s' t c bin
  IsBin-Change t c s s' p x bin change absent (cached, distinct) = (
    λ q member.
        ap (cached_by t c) (change q ∙ if_false _ _ (has_differ p q bin absent member))
        ∙ cached q member,
    distinct,
  )

  -- A block whose record is active is not in the bin.
  pub uncached-absent :
      (t c : ℕ) (s : ThreadCacheState C) (bin : List Ptr) (p : Ptr)
      → IsBin s t c bin
      → cached_by t c (find_record s p) ≡ false
      → has p bin ≡ false
  uncached-absent t c s bin p (cached, distinct) out = elim (Bool-cases (has p bin)) [
    | inl member ↦ absurd (false≢true (sym out ∙ cached p member))
    | inr absent ↦ absent
  ]

  -- A change at a pointer that no bin holds, either before or after.
  pub Sound-Change :
      (t c : ℕ) (s s' : ThreadCacheState C) (p : Ptr) (x : Option AllocationRecord) (bin : List Ptr)
      → IsBin s t c bin
      → Change s s' p x
      → ((t' c' : ℕ) → cached_by t' c' (find_record s p) ≡ false)
      → Sound t c s s' bin
  Sound-Change t c s s' p x bin is_bin change free = (
    IsBin-Change t c s s' p x bin change (uncached-absent t c s bin p is_bin (free t c)) is_bin,
    Keeps-Change t c s s' p x change (λ t' c' apart. free t' c'),
  )

  -- A pointer that no bin holds, and whose new record is that of a cached block, joins the bin.
  pub Sound-push :
      (t c : ℕ) (s s' : ThreadCacheState C) (p : Ptr) (x : Option AllocationRecord) (bin : List Ptr)
      → IsBin s t c bin
      → Change s s' p x
      → ((t' c' : ℕ) → cached_by t' c' (find_record s p) ≡ false)
      → cached_by t c x ≡ true
      → Sound t c s s' (p ∷ bin)
  Sound-push t c s s' p x bin is_bin change free joins = (
    (
      λ q member. elim (Bool-cases (p == q)) [
        | inl same ↦ ap (cached_by t c) (change q ∙ if_true _ _ same) ∙ joins
        | inr differ ↦ changed.0.0 q (has_tail p q bin differ member)
      ],
      (uncached-absent t c s bin p is_bin (free t c), changed.0.1),
    ),
    changed.1,
  )
    where
      changed : Sound t c s s' bin
      changed = Sound-Change t c s s' p x bin is_bin change free

  -- The head of the bin leaves it.
  pub Sound-pop :
      (t c : ℕ) (s s' : ThreadCacheState C) (p : Ptr) (x : Option AllocationRecord) (bin : List Ptr)
      → IsBin s t c (p ∷ bin)
      → Change s s' p x
      → Sound t c s s' bin
  Sound-pop t c s s' p x bin (cached, (absent, distinct)) change = (
    IsBin-Change t c s s' p x bin change absent
        ((λ q member. cached q (has_cons p q bin member)), distinct),
    Keeps-Change t c s s' p x change
        (λ t' c' apart. cached_elsewhere t c t' c' _ apart (cached p (has_head p bin))),
  )

-- ===== src/ThreadCached/Promises.antt =====
-- What the callers of src/thread_cached_allocator.cpp can rely on in every reachable system.
use fixed_size_memory_pool.Base.{
  ◌≡◌, ◌∙◌, ap, sym, subst, ℕ, Bool, true, false, not, ◌==◌, if_true, if_false, List, [], ◌∷◌,
  get_or, set, has, Option, some, Result, ok, err, double_free,
}
use fixed_size_memory_pool.Base.Maps.{lookup}
use fixed_size_memory_pool.Memory.{Ptr, null}
use fixed_size_memory_pool.SizeClass.{select}
use fixed_size_memory_pool.ThreadCache.{
  Central, ThreadCacheState, Shard, Bins, find_record, tally, normalized_size,
}
use fixed_size_memory_pool.ThreadCache.Allocate
use fixed_size_memory_pool.ThreadCache.Allocate.{
  note_request, request_record, allocate_cached, reuse,
}
use fixed_size_memory_pool.ThreadCache.Deallocate.{note_return}
use fixed_size_memory_pool.ThreadCache.Records.{tally-Same}
use fixed_size_memory_pool.ThreadCache.Bin.{cached_by, cached_by-record, cached_by_unique, has_head}
use fixed_size_memory_pool.ThreadCache.Serving.{reuse-hit}
use fixed_size_memory_pool.ThreadCache.Threads.{allocate-small}
use fixed_size_memory_pool.ThreadCache.Returning.{deallocate-idle}
use fixed_size_memory_pool.ThreadCached.{Registry, get, allocate, deallocate}
use fixed_size_memory_pool.ThreadCached.Threads.{System, bins_in, bins_of}
use fixed_size_memory_pool.ThreadCached.Steps.{IsFresh, Reach, Reach-IsConsistent}

module _ {C : Type 0} where
  get-alive :
      (expired : ℕ → Bool) (caches : Registry) (id : ℕ) (s : ThreadCacheState C) (bins : Bins)
      → expired id ≡ false
      → lookup id caches ≡ some bins
      → get expired caches id s ≡ (caches, bins)
  unfolding get
  get-alive expired caches id s bins alive entry = rw (get, entry) (if_true _ _ (ap not alive))

  hit :
      (ops : Central C) (can_insert : Shard → Ptr → Bool) (s : ThreadCacheState C)
      (t c size alignment : ℕ) (p : Ptr) (bins : Bins) (rest : List Ptr)
      → get_or bins c [] ≡ p ∷ rest
      → select s.selector (normalized_size size) alignment ≡ ok (some c)
      → cached_by t c (find_record s p) ≡ true
      → ((Allocate.allocate ops can_insert s t bins size alignment).2 ≡ ok p)
        × ((Allocate.allocate ops can_insert s t bins size alignment).0.central ≡ s.central)
  unfolding allocate_cached
  hit ops can_insert s t c size alignment p bins rest head small h = (
    ap (λ (x : ThreadCacheState C × Bins × Result Ptr). x.2) served
        ∙ ap
            (λ bin.
              (allocate_cached ops can_insert (tally s note_request) bin
                (request_record c (normalized_size size) alignment t)).2)
            head
        ∙ taken.0,
    ap (λ (x : ThreadCacheState C × Bins × Result Ptr). x.0.central) served
        ∙ ap
            (λ bin.
              (allocate_cached ops can_insert (tally s note_request) bin
                (request_record c (normalized_size size) alignment t)).0.central)
            head
        ∙ taken.1,
  )
    where
      served : Allocate.allocate ops can_insert s t bins size alignment ≡ (
          let (after, bin, answer) =
            allocate_cached ops can_insert
              (tally s note_request)
              (get_or bins c [])
              (request_record c (normalized_size size) alignment t) in
          (after, set bins c bin, answer))
      served = allocate-small ops can_insert s t bins size alignment c small

      taken :
          ((reuse (tally s note_request) p t (normalized_size size) alignment).1 ≡ ok p)
          × ((reuse (tally s note_request) p t (normalized_size size) alignment).0.central
              ≡ s.central)
      taken =
          reuse-hit t c (tally s note_request) p t _ _
            (ap (cached_by t c) (tally-Same s note_request p) ∙ h)

module _ {C : Type 0} (ops : Central C) (can_insert : Shard → Ptr → Bool) (expired : ℕ → Bool)
    (id : ℕ) where
  -- Whether a block stands in a thread's bin for a class.
  abbrev pub holds : System C → (thread class_index : ℕ) → Ptr → Bool
  holds m t c p = has p (get_or (bins_of id (m.registries t)) c [])

  -- In every system that is reachable from one in which no thread has a cache of the allocator,
  -- a block stands in the bins of one thread for one class only.
  pub cached_once :
      {m n : System C}
      → IsFresh ops can_insert expired id m
      → Reach ops can_insert expired id m n
      → (t c t' c' : ℕ) (p : Ptr) → holds n t c p ≡ true
      → holds n t' c' p ≡ true
      → (t' ≡ t) × (c' ≡ c)
  cached_once {n} fresh reach t c t' c' p here there =
      let consistent = Reach-IsConsistent ops can_insert expired id fresh reach in
      cached_by_unique t c t' c' (find_record n.shared p) ((consistent t c).0 p here)
        ((consistent t' c').0 p there)

  -- In every system that is reachable from one in which no thread has a cache of the allocator, a
  -- block, not null, that stands in any thread's bin is not taken back again: whichever thread
  -- returns it, with a size and an alignment or without, gets a double-free exception, and the
  -- shared part changes only in its counter of requests.
  pub deallocate-cached :
      {m n : System C}
      → IsFresh ops can_insert expired id m
      → Reach ops can_insert expired id m n
      → (t c thread : ℕ) (p : Ptr) (supplied : Option (ℕ × ℕ)) → holds n t c p ≡ true
      → (p == null) ≡ false
      → ((deallocate ops can_insert expired id thread n.shared (n.registries thread) p supplied).0
          ≡ tally n.shared note_return)
        × ((deallocate ops can_insert expired id thread n.shared (n.registries thread) p supplied).2
            ≡ err double_free)
  unfolding deallocate
  deallocate-cached {n} fresh reach t c thread p supplied here proper =
      let consistent = Reach-IsConsistent ops can_insert expired id fresh reach in
      let (r, there, idle, _, _) = cached_by-record t c _ ((consistent t c).0 p here) in
      let refused =
        deallocate-idle ops n.shared thread ((get expired (n.registries thread) id n.shared).1) p
          supplied r there idle in
      (
        ap (λ (x : ThreadCacheState C × Registry × Result (Unit {0})). x.0) (if_false _ _ proper)
            ∙ ap (λ (x : ThreadCacheState C × Bins × Result (Unit {0})). x.0) refused,
        ap (λ (x : ThreadCacheState C × Registry × Result (Unit {0})). x.2) (if_false _ _ proper)
            ∙ ap (λ (x : ThreadCacheState C × Bins × Result (Unit {0})). x.2) refused,
      )

  -- In every system that is reachable from one in which no thread has a cache of the allocator, an
  -- allocation by a thread with an entry that has not expired, whose bin for the selected class is
  -- not empty, returns the block at the head of the bin and leaves the central allocator as it is.
  pub allocate-cached :
      {m n : System C}
      → IsFresh ops can_insert expired id m
      → Reach ops can_insert expired id m n
      → (t c size alignment : ℕ) (p : Ptr) (bins : Bins) (rest : List Ptr) → expired id ≡ false
      → lookup id (n.registries t) ≡ some bins
      → get_or bins c [] ≡ p ∷ rest
      → select n.shared.selector (normalized_size size) alignment ≡ ok (some c)
      → ((allocate ops can_insert expired id t n.shared (n.registries t) size alignment).2 ≡ ok p)
        × ((allocate ops can_insert expired id t n.shared (n.registries t) size alignment).0.central
            ≡ n.shared.central)
  unfolding allocate
  allocate-cached {n} fresh reach t c size alignment p bins rest alive entry head small =
      subst
        (λ (g : Registry × Bins).
          ((Allocate.allocate ops can_insert n.shared t g.1 size alignment).2 ≡ ok p)
          × ((Allocate.allocate ops can_insert n.shared t g.1 size alignment).0.central
              ≡ n.shared.central))
        (sym (get-alive expired (n.registries t) id n.shared bins alive entry))
        (hit ops can_insert n.shared t c size alignment p bins rest head small (
          (Reach-IsConsistent ops can_insert expired id fresh reach t c).0 p (
            subst (λ o. has p (get_or (bins_in o) c []) ≡ true) (sym entry)
              (ap (has p) head ∙ has_head p rest))))

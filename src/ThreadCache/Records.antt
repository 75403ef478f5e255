-- ===== src/ThreadCache/Records.antt =====
-- What the functions on the shards of src/detail/thread_cache_state.cpp do to the records.
use fixed_size_memory_pool.Base.{
  ◌≡◌, ◌∙◌, refl, ap, false, ◌==◌, ==_iff, ==_ne, ne→==, if◌then◌else◌, if_true, if_false, is_some,
  Bool-cases, Option, none, some, inl, inr, sym, subst,
}
use fixed_size_memory_pool.Base.Maps.{
  lookup, insert, erase, assign, lookup-insert, lookup-erase, lookup-assign,
}
use fixed_size_memory_pool.Memory.{Ptr}
use fixed_size_memory_pool.ThreadCache.{
  AllocationRecord, ThreadCacheState, Shard, shard_for, find_record, with_shard, tally,
}
use fixed_size_memory_pool.ThreadCacheOptions.{ThreadCacheStatistics}

shards_apart : (p q : Ptr) → (shard_for q == shard_for p) ≡ false → (p == q) ≡ false
shards_apart p q apart = ne→== p q (λ same. ==_ne _ _ apart (ap shard_for (sym same)))

module _ {C : Type 0} where
  -- The records are those of another state, but for one pointer.
  abbrev pub Change :
      ThreadCacheState C → ThreadCacheState C → Ptr → Option AllocationRecord → Type 0
  Change s t p x = (q : Ptr) → find_record t q ≡ (if p == q then x else find_record s q)

  abbrev pub Same : ThreadCacheState C → ThreadCacheState C → Type 0
  Same s t = (q : Ptr) → find_record t q ≡ find_record s q

  pub tally-Same :
      (s : ThreadCacheState C) (change : ThreadCacheStatistics → ThreadCacheStatistics)
      → Same s (tally s change)
  unfolding find_record
  tally-Same s change q = refl

  pub Change-Same :
      (s m t : ThreadCacheState C) (p : Ptr) (x : Option AllocationRecord)
      → Same s m
      → Change m t p x
      → Change s t p x
  Change-Same s m t p x same change q = change q ∙ ap (λ o. if p == q then x else o) (same q)

  -- The change of a shard at one pointer is a change of the records at that pointer.
  module _ (s : ThreadCacheState C) (p : Ptr) (change : Shard → Shard)
      (x : Option AllocationRecord) where
    pub with_shard-Change :
        ((j : Ptr)
          → lookup j (change (s.shards (shard_for p)))
            ≡ (if p == j then x else lookup j (s.shards (shard_for p))))
        → Change s (with_shard s p change) p x
    unfolding find_record with_shard
    with_shard-Change at q = elim (Bool-cases (shard_for q == shard_for p)) [
      | inl shared ↦
          ap (lookup q) (if_true _ _ shared)
          ∙ subst
              (λ i. lookup q (change (s.shards i)) ≡ (if p == q then x else lookup q (s.shards i)))
              (sym ((==_iff _ _).0 shared)) (at q)
      | inr apart ↦ ap (lookup q) (if_false _ _ apart) ∙ sym (if_false _ _ (shards_apart p q apart))
    ]

  -- A new record of a pointer, one less, and a write to one that is there.
  pub insert-Change :
      (s : ThreadCacheState C) (p : Ptr) (r : AllocationRecord)
      → Change s (with_shard s p (insert p r)) p (some r)
  insert-Change s p r = with_shard-Change s p (insert p r) (some r) (λ j. lookup-insert p j r _)

  pub erase-Change : (s : ThreadCacheState C) (p : Ptr) → Change s (with_shard s p (erase p)) p none
  erase-Change s p = with_shard-Change s p (erase p) none (λ j. lookup-erase p j _)

  pub assign-Change :
      (s : ThreadCacheState C) (p : Ptr) (r r' : AllocationRecord)
      → find_record s p ≡ some r
      → Change s (with_shard s p (assign p r')) p (some r')
  unfolding find_record
  assign-Change s p r r' there =
      with_shard-Change s p (assign p r') (some r') (λ j. lookup-assign p j r' _ ∙ written j)
    where
      m : Shard
      m = s.shards (shard_for p)

      written :
          (j : Ptr)
          → (if p == j then (if is_some (lookup j m) then some r' else none) else lookup j m)
            ≡ (if p == j then some r' else lookup j m)
      written j = elim (Bool-cases (p == j)) [
        | inl same ↦
            if_true _ _ same
            ∙ if_true _ _
                (ap (λ i. is_some (lookup i m)) (sym ((==_iff _ _).0 same)) ∙ ap is_some there)
            ∙ sym (if_true _ _ same)
        | inr differ ↦ if_false _ _ differ ∙ sym (if_false _ _ differ)
      ]

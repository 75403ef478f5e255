-- ===== src/Arena/Rollback.antt =====
-- `rollback_last` of src/monotonic_arena.cpp, which `create` calls when a constructor throws.
use mathlib.Core.Bool.{false≢true}
use fixed_size_memory_pool.Base.{
  ℕ, zero, suc, ◌-◌, ◌<◌, ◌≡◌, ◌≢◌, refl, sym, ap, subst, ◌∙◌, arith, inl, inr, not, ==_self,
  if_false, List, [], ◌∷◌, get_elem?, set, Option, none, some, is_some, size_mod, max_of, add_word,
  sub_word,
}
use fixed_size_memory_pool.ArenaChunk.{ArenaChunk, ArenaAllocation, try_allocate}
use fixed_size_memory_pool.ArenaChunk.Bounds.{IsArenaChunk, IsPlaced, try_allocate_lem}
use fixed_size_memory_pool.Arena.{
  Arena, commit, record_allocation, rollback_last, rewind_last, no_allocation,
}

none≢some {ℓ} : {A : Type ℓ} {a : A} → none ≢ some a
none≢some h = false≢true (ap is_some h)

some-inj {ℓ} : {A : Type ℓ} {a b : A} → some a ≡ some b → a ≡ b
some-inj {a} h = ap (λ (o : Option _). elim o [ none ↦ a | some x ↦ x ]) h

get_elem?-set :
    (chunks : List ArenaChunk) (i : ℕ) (c d : ArenaChunk)
    → get_elem? chunks i ≡ some c
    → get_elem? (set chunks i d) i ≡ some d
get_elem?-set [] i c d h = absurd (none≢some h)
get_elem?-set (x ∷ rest) zero c d h = refl
get_elem?-set (x ∷ rest) (suc i) c d h = get_elem?-set rest i c d h

set-set :
    (chunks : List ArenaChunk) (i : ℕ) (c d : ArenaChunk)
    → get_elem? chunks i ≡ some c
    → set (set chunks i d) i c ≡ chunks
set-set [] i c d h = refl
set-set (x ∷ rest) zero c d h = ap (λ y. y ∷ rest) (sym (some-inj h))
set-set (x ∷ rest) (suc i) c d h = ap (λ later. x ∷ later) (set-set rest i c d h)

given-IsPlaced :
    (chunk : ArenaChunk) (size alignment : ℕ) (changed : ArenaChunk) (allocation : ArenaAllocation)
    → IsArenaChunk chunk
    → 0 < alignment
    → try_allocate chunk size alignment ≡ some (changed, allocation)
    → IsPlaced chunk size alignment changed allocation
given-IsPlaced chunk size alignment changed allocation v positive given =
    elim (try_allocate_lem chunk size alignment v positive) [
      | inl refused ↦ absurd (none≢some (sym refused ∙ given))
      | inr (c, a, found, placed) ↦
          subst (λ (x : ArenaChunk × ArenaAllocation). IsPlaced chunk size alignment x.0 x.1)
            (some-inj (sym found ∙ given)) placed
    ]

counted_back :
    (used consumed : ℕ)
    → used < size_mod
    → consumed < size_mod
    → sub_word (add_word used consumed) consumed ≡ used
counted_back used consumed hu hc = omega arith

-- The arena after an allocation that was rolled back: only the position of the current chunk, which
-- is the one that served, and five counters differ from before, and there is no last allocation.
abbrev pub rolled_back :
    {S D : Type 0} → Arena S D → ℕ → ArenaAllocation → (requested_size : ℕ) → Arena S D
rolled_back arena position allocation requested_size =
    let s = arena.statistics in
    record arena {
      current_chunk = position;
      last_allocation = no_allocation;
      statistics = record s {
        successful_allocations = add_word s.successful_allocations 1;
        requested_bytes = add_word s.requested_bytes requested_size;
        peak_used_bytes =
            max_of s.peak_used_bytes (add_word s.current_used_bytes allocation.consumed_bytes);
        padding_bytes =
            add_word s.padding_bytes (sub_word allocation.consumed_bytes requested_size);
        construction_failures = add_word s.construction_failures 1;
      };
    }

-- An allocation in a chunk of the arena and its rollback, as states of the whole arena: the chunks,
-- the bytes in use, the destructors and the size of the next chunk are as before, the chunk that
-- served is the current one, there is no last allocation to roll back, the allocation stays counted
-- as a success with its bytes, its padding and its peak, and a construction failure is counted. The
-- chunk is well formed, the alignment is not zero, and the number of bytes in use is a machine word.
pub rollback_last-commit :
    {S D : Type 0} (arena : Arena S D) (position : ℕ) (chunk changed : ArenaChunk)
    (allocation : ArenaAllocation) (size alignment : ℕ)
    → get_elem? arena.chunks position ≡ some chunk
    → IsArenaChunk chunk
    → 0 < alignment
    → try_allocate chunk size alignment ≡ some (changed, allocation)
    → arena.statistics.current_used_bytes < size_mod
    → rollback_last (commit arena position changed allocation size) allocation.pointer
      ≡ rolled_back arena position allocation size
unfolding commit record_allocation rollback_last rewind_last
rollback_last-commit {S} {D} arena position chunk changed allocation size alignment at v positive
      given word =
    let placed = given-IsPlaced chunk size alignment changed allocation v positive given in
    let held = get_elem?-set arena.chunks position chunk changed at in
    let less : changed.offset - chunk.offset < size_mod =
      omega (arith, placed.well_formed.room, placed.well_formed.fits) in
    let restored =
      counted_back arena.statistics.current_used_bytes allocation.consumed_bytes word
        (subst (λ n. n < size_mod) (sym placed.consumed) less) in
    if_false _ _ (ap not (==_self allocation.pointer))
    ∙ rw (held, placed.undone, set-set arena.chunks position chunk changed at, restored) refl

-- ===== src/ArenaChunk/Bounds.antt =====
-- Where an arena chunk puts an allocation.
use native.Mathlib.Nat.{div-add-mod', mod-lt, mod-eq_of_lt, mul-mod_left}
use native.Mathlib.Decide.{dec_lt}
use fixed_size_memory_pool.Base.{
  ℕ, suc, ◌+◌, ◌-◌, ◌*◌, ◌/◌, ◌%◌, ◌<◌, ◌≤◌, ◌≡◌, ◌⊎◌, refl, arith, le→leb, ltb, leb, ◌||◌, Option,
  none, some, true, Bool-cases, inl, inr, size_mod, add_word, sub_word, ◌∙◌, ap, if_true, if_false,
}
use fixed_size_memory_pool.Memory.{Ptr}
use fixed_size_memory_pool.ArenaChunk.{
  ArenaChunk, ArenaAllocation, align, bump, try_allocate, rewind,
}

pub record IsArenaChunk (chunk : ArenaChunk) : Type 0 where
  pub room : chunk.offset ≤ chunk.capacity
  pub fits : chunk.storage + chunk.capacity < size_mod

-- An allocation of `size` bytes in a chunk: aligned, behind the cursor and inside the storage,
-- with the cursor moved to its end.
pub record IsPlaced (chunk : ArenaChunk) (size alignment : ℕ) (changed : ArenaChunk)
    (allocation : ArenaAllocation) : Type 0 where
  pub aligned : (q : ℕ) × (allocation.pointer ≡ q * alignment)
  pub behind : chunk.storage + chunk.offset ≤ allocation.pointer
  pub inside : allocation.pointer + size ≤ chunk.storage + chunk.capacity
  pub cursor : chunk.storage + changed.offset ≡ allocation.pointer + size
  pub previous : allocation.previous_offset ≡ chunk.offset
  pub consumed : allocation.consumed_bytes ≡ changed.offset - chunk.offset
  pub well_formed : IsArenaChunk changed
  pub undone : rewind changed allocation.previous_offset ≡ chunk

padding_of : (p a : ℕ) → 0 < a → (q : ℕ) × (p + (a - p % a) % a ≡ q * a)
padding_of p a positive =
    let split = div-add-mod' p a in
    let rest = mod-lt p positive in
    elim (dec_lt 0 (p % a)) [
      | yes some_rest ↦
          let less : (a - p % a) % a ≡ a - p % a = mod-eq_of_lt (omega arith) in
          (suc (p / a), omega (arith, split, less, rest))
      | no none_left ↦
          let whole : a - p % a ≡ 1 * a = omega arith in
          let nothing : (a - p % a) % a ≡ 0 = rw whole (mul-mod_left 1 a) in
          (p / a, omega (arith, split, nothing))
    ]

align_lem :
    (alignment size : ℕ) (pointer : Ptr) (space : ℕ)
    → 0 < alignment
    → (align alignment size pointer space ≡ none)
      ⊎ ((a : Ptr) × (align alignment size pointer space ≡ some a)
          × ((q : ℕ) × (a ≡ q * alignment))
          × (pointer ≤ a)
          × (a + size ≤ pointer + space))
align_lem alignment size pointer space positive =
    let padding = (alignment - pointer % alignment) % alignment in
    elim (Bool-cases (leb (padding + size) space)) [
      | inl enough ↦ inr (
        pointer + padding,
        if_true _ _ enough,
        padding_of pointer alignment positive,
        ground arith,
        ground (arith, enough),
      )
      | inr short ↦ inl (if_false _ _ short)
    ]

bump_lem :
    (chunk : ArenaChunk) (size alignment : ℕ) (a : Ptr)
    → IsArenaChunk chunk
    → (q : ℕ) × (a ≡ q * alignment)
    → chunk.storage + chunk.offset ≤ a
    → a + size ≤ chunk.storage + chunk.capacity
    → IsPlaced chunk size alignment (bump chunk size a).0 (bump chunk size a).1
unfolding bump rewind
bump_lem chunk size alignment a v aligned low high =
    let fits = v.fits in
    let offset : add_word (sub_word a chunk.storage) size ≡ a - chunk.storage + size =
      omega arith in
    let later : leb chunk.offset (add_word (sub_word a chunk.storage) size) ≡ true =
      le→leb _ _ (omega (arith, offset)) in
    record {
      aligned = aligned;
      behind = low;
      inside = high;
      cursor = omega (arith, offset);
      previous = refl;
      consumed = omega (arith, offset);
      well_formed = record { room = omega (arith, offset); fits = v.fits };
      undone = if_true _ _ later;
    }

-- On a well-formed chunk and for an alignment that is not zero, `try_allocate` finds no room, or
-- places the bytes at a multiple of the alignment, past the cursor and inside the storage, moves
-- the cursor to their end, and `rewind` by the recorded offset restores the chunk.
pub try_allocate_lem :
    (chunk : ArenaChunk) (size alignment : ℕ)
    → IsArenaChunk chunk
    → 0 < alignment
    → (try_allocate chunk size alignment ≡ none)
      ⊎ ((changed : ArenaChunk) × (allocation : ArenaAllocation) × (try_allocate chunk size
              alignment
            ≡ some (changed, allocation))
          × IsPlaced chunk size alignment changed allocation)
unfolding try_allocate
try_allocate_lem chunk size alignment v positive =
    elim (Bool-cases (ltb chunk.alignment alignment || ltb chunk.capacity chunk.offset)) [
      | inl refused ↦ inl (if_true _ _ refused)
      | inr tried ↦
          let room = v.room in
          elim (align_lem alignment size (chunk.storage + chunk.offset)
            (chunk.capacity - chunk.offset) positive) [
              | inl short ↦ inl (if_false _ _ tried ∙ ap (placed chunk size) short)
              | inr (a, found, aligned, low, high) ↦ inr (
                (bump chunk size a).0,
                (bump chunk size a).1,
                if_false _ _ tried ∙ ap (placed chunk size) found,
                bump_lem chunk size alignment a v aligned low (omega arith),
              )
            ]
    ]
  where
    placed : ArenaChunk → ℕ → Option Ptr → Option (ArenaChunk × ArenaAllocation)
    placed chunk size answer = elim answer [ none ↦ none | some a ↦ some (bump chunk size a) ]

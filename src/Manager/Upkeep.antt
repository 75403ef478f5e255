-- ===== src/Manager/Upkeep.antt =====
-- A deallocation of src/chunk_manager.cpp leaves the chunks well formed and apart.
use mathlib.Core.Bool.{false≢true}
use fixed_size_memory_pool.Base.{
  ℕ, suc, zero, ◌<◌, ◌≡◌, ◌≢◌, inl, inr, refl, sym, ap, subst, ◌∙◌, List, [], ◌∷◌, false, not, ◌==◌,
  leb, if_true, if_false, Bool-cases, size_mod, set, remove_at, get_elem?, Option, none, some,
  Option-cases, Result-cases, is_some,
}
use fixed_size_memory_pool.Memory.{Ptr, null, Memory}
use fixed_size_memory_pool.Provider.{World}
use fixed_size_memory_pool.Chunk
use fixed_size_memory_pool.Chunk.{Chunk, owns, empty}
use fixed_size_memory_pool.Chunk.Reach.{WellFormed}
use fixed_size_memory_pool.Manager.{
  Manager, find_chunk, count_empty, reclaim_if_allowed, deallocate_in, deallocate,
}
use fixed_size_memory_pool.Manager.Arrangement.{
  Apart, ApartFrom, IsArranged, SamePlace, Apart-moved, ApartFrom-moved,
}
use fixed_size_memory_pool.Manager.Returns.{
  OnlyIn, elsewhere-WellFormed, elsewhere-IsArranged, took-SamePlace, took-WellFormed, took-OnlyIn,
}

some-inj {ℓ} : {A : Type ℓ} {a b : A} → some a ≡ some b → a ≡ b
some-inj {a} h = ap (λ (o : Option _). elim o [ none ↦ a | some x ↦ x ]) h

none≢some {ℓ} : {A : Type ℓ} {a : A} → none ≢ some a
none≢some h = false≢true (ap is_some h)

find_chunk-at :
    (chunks : List Chunk) (p : Ptr) (i : ℕ) (c : Chunk)
    → find_chunk chunks p ≡ some (i, c)
    → get_elem? chunks i ≡ some c
unfolding find_chunk
find_chunk-at [] p i c h = absurd (none≢some h)
find_chunk-at (x ∷ rest) p i c h = elim (Bool-cases (owns x p)) [
  | inl mine ↦ along (if_true _ _ mine) refl
  | inr other ↦ elim (Option-cases (find_chunk rest p)) [
    | inl nowhere ↦
        absurd (none≢some (sym (if_false _ _ other ∙ rw (find_chunk, nowhere) refl) ∙ h))
    | inr ((j, d), there) ↦
        along {k = suc j} {e = d} (if_false _ _ other ∙ rw (find_chunk, there) refl)
          (find_chunk-at rest p j d there)
  ]
]
  where
    along :
        {k : ℕ} {e : Chunk}
        → find_chunk (x ∷ rest) p ≡ some (k, e)
        → get_elem? (x ∷ rest) k ≡ some e
        → get_elem? (x ∷ rest) i ≡ some c
    along found at =
        subst (λ (u : ℕ × Chunk). get_elem? (x ∷ rest) u.0 ≡ some u.1) (some-inj (sym found ∙ h)) at

Apart-sym : (c d : Chunk) → Apart c d → Apart d c
Apart-sym c d (inl h) = inr h
Apart-sym c d (inr h) = inl h

ApartFrom-at :
    (x : Chunk) (rest : List Chunk) (i : ℕ) (c : Chunk)
    → ApartFrom x rest
    → get_elem? rest i ≡ some c
    → Apart x c
ApartFrom-at x [] i c apart h = absurd (none≢some h)
ApartFrom-at x (d ∷ rest) zero c (here, later) h = subst (Apart x) (some-inj h) here
ApartFrom-at x (d ∷ rest) (suc i) c (here, later) h = ApartFrom-at x rest i c later h

ApartFrom-set :
    (x : Chunk) (rest : List Chunk) (i : ℕ) (c c' : Chunk)
    → SamePlace c c'
    → get_elem? rest i ≡ some c
    → ApartFrom x rest
    → ApartFrom x (set rest i c')
ApartFrom-set x [] i c c' same h apart = tt
ApartFrom-set x (d ∷ rest) zero c c' same h (here, later) =
    (Apart-moved x x c c' (refl, refl) same (subst (Apart x) (some-inj h) here), later)
ApartFrom-set x (d ∷ rest) (suc i) c c' same h (here, later) =
    (here, ApartFrom-set x rest i c c' same h later)

ApartFrom-remove :
    (x : Chunk) (rest : List Chunk) (i : ℕ) → ApartFrom x rest → ApartFrom x (remove_at rest i)
ApartFrom-remove x [] i apart = tt
ApartFrom-remove x (d ∷ rest) zero (here, later) = later
ApartFrom-remove x (d ∷ rest) (suc i) (here, later) = (here, ApartFrom-remove x rest i later)

-- A chunk out of the list.
IsArranged-remove :
    (m : Memory) (chunks : List Chunk) (i : ℕ)
    → IsArranged m chunks
    → IsArranged m (remove_at chunks i)
IsArranged-remove m [] i arranged = tt
IsArranged-remove m (d ∷ rest) zero (formed, apart, later) = later
IsArranged-remove m (d ∷ rest) (suc i) (formed, apart, later) =
    (formed, ApartFrom-remove d rest i apart, IsArranged-remove m rest i later)

WellFormed-at :
    (m : Memory) (chunks : List Chunk) (i : ℕ) (c : Chunk)
    → IsArranged m chunks
    → get_elem? chunks i ≡ some c
    → WellFormed m c
WellFormed-at m [] i c arranged h = absurd (none≢some h)
WellFormed-at m (d ∷ rest) zero c (v, apart, later) h = subst (WellFormed m) (some-inj h) v
WellFormed-at m (d ∷ rest) (suc i) c (v, apart, later) h = WellFormed-at m rest i c later h

-- A chunk that has changed within its storage.
IsArranged-set :
    (m m' : Memory) (c c' : Chunk)
    → SamePlace c c'
    → (WellFormed m c → WellFormed m' c')
    → (WellFormed m c → OnlyIn c m m')
    → (chunks : List Chunk) (i : ℕ) → get_elem? chunks i ≡ some c
    → IsArranged m chunks
    → IsArranged m' (set chunks i c')
IsArranged-set m m' c c' same formed only [] i h arranged = tt
IsArranged-set m m' c c' same formed only (d ∷ rest) zero h (v, apart, later) =
    let v' = subst (WellFormed m) (some-inj h) v in
    let apart' = subst (λ x. ApartFrom x rest) (some-inj h) apart in
    (
      formed v',
      ApartFrom-moved c c' rest same apart',
      elsewhere-IsArranged m m' c rest apart' (only v') later,
    )
IsArranged-set m m' c c' same formed only (d ∷ rest) (suc i) h (v, apart, later) = (
  elsewhere-WellFormed m m' c d (Apart-sym d c (ApartFrom-at d rest i c apart h))
      (only (WellFormed-at m rest i c later h)) v,
  ApartFrom-set d rest i c c' same h apart,
  IsArranged-set m m' c c' same formed only rest i h later,
)

remove_at-set :
    (chunks : List Chunk) (i : ℕ) (c : Chunk) → remove_at (set chunks i c) i ≡ remove_at chunks i
remove_at-set [] i c = refl
remove_at-set (d ∷ rest) zero c = refl
remove_at-set (d ∷ rest) (suc i) c = ap (λ later. d ∷ later) (remove_at-set rest i c)

module _ {S : Type 0} where
  -- What a deallocation leaves of the memory and the chunks.
  abbrev pub Kept : World S × Manager S → Type 0
  Kept (w, manager) = IsArranged w.memory manager.chunks

  reclaim-Kept :
      (manager : Manager S) (i : ℕ) (c : Chunk) (w : World S)
      → Kept (w, manager)
      → Kept (reclaim_if_allowed manager i c w)
  unfolding reclaim_if_allowed Chunk.destroy
  reclaim-Kept manager i c w kept = elim (Bool-cases (empty c)) [
    | inr busy ↦ subst Kept (sym (if_true _ _ (ap not busy))) kept
    | inl idle ↦
        elim (Bool-cases (leb (count_empty manager.chunks) manager.options.spare_empty_chunks)) [
          | inl few ↦ subst Kept (sym (if_false _ _ (ap not idle) ∙ if_true _ _ few)) kept
          | inr many ↦
              subst Kept (sym (if_false _ _ (ap not idle) ∙ if_false _ _ many))
                (IsArranged-remove w.memory manager.chunks i kept)
        ]
  ]

  deallocate_in-Kept :
      (manager : Manager S) (i : ℕ) (c : Chunk) (p : Ptr) (w : World S)
      → (p == null) ≡ false
      → p < size_mod
      → get_elem? manager.chunks i ≡ some c
      → Kept (w, manager)
      → Kept ((deallocate_in manager i c p w).0, (deallocate_in manager i c p w).1)
  unfolding deallocate_in
  deallocate_in-Kept manager i c p w proper fits at kept =
      elim (Result-cases (Chunk.deallocate w.memory c p)) [
        | inl (e, thrown) ↦ rw (deallocate_in, thrown) kept
        | inr ((memory, changed), took) ↦
            rw (deallocate_in, took)
              (reclaim-Kept (record manager { chunks = set manager.chunks i changed }) i changed
                (record w { memory = memory })
                (IsArranged-set w.memory memory c changed
                  (took-SamePlace w.memory memory c changed p proper fits took)
                  (took-WellFormed w.memory memory c changed p proper fits took)
                  (took-OnlyIn w.memory memory c changed p proper fits took) manager.chunks i at
                  kept))
      ]

  -- Whatever pointer is returned to a manager whose chunks are well formed and apart, with or
  -- without an exception, and whether or not an empty chunk goes back to the provider: the
  -- chunks that are left are well formed and apart.
  pub deallocate-keeps :
      (manager : Manager S) (p : Ptr) (w : World S)
      → IsArranged w.memory manager.chunks
      → p < size_mod
      → IsArranged ((deallocate manager p w).0.memory) ((deallocate manager p w).1.chunks)
  unfolding deallocate
  deallocate-keeps manager p w kept fits = elim (Bool-cases (p == null)) [
    | inl nothing ↦ rw (deallocate, nothing) kept
    | inr proper ↦ elim (Option-cases (find_chunk manager.chunks p)) [
      | inl foreign ↦ rw (deallocate, proper, foreign) kept
      | inr ((i, c), found) ↦
          rw (deallocate, proper, found)
            (deallocate_in-Kept manager i c p w proper fits
              (find_chunk-at manager.chunks p i c found) kept)
    ]
  ]

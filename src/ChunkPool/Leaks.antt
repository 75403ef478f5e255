-- ===== src/ChunkPool/Leaks.antt =====
-- The blocks that the heap fallback of include/memory_pool/exhaustion_policies.hpp holds, against those
-- that the provider has handed out.
use mathlib.Core.Bool.{false≢true}
use fixed_size_memory_pool.Base.{
  ◌≡◌, ◌∙◌, refl, ap, sym, subst, Bool, true, false, not, ◌==◌, ==_self, Bool-cases, if_true,
  if_false, inl, inr, arith, List, [], ◌∷◌, ◌++◌, has, Result, ok, err, Error,
}
use fixed_size_memory_pool.Memory.{Ptr, Memory}
use fixed_size_memory_pool.Provider.{World}
use fixed_size_memory_pool.Manager.{Manager}
use fixed_size_memory_pool.ChunkPool.{
  erase, allocate_fallback, record_fallback, deallocate_fallback, give_back, give_back_all,
}

-- What a provider promises on requests of one size and alignment: a block that it hands out is live
-- and was not, a request that it refuses leaves the live blocks as they are, and the return of a
-- live block with that size and alignment takes the block away.
pub record IsLedger {S : Type 0} (manager : Manager S) (live : S → List Ptr) : Type 0 where
  pub handed :
      (s after : S) (p : Ptr)
      → manager.provider.allocate s manager.block_size manager.alignment ≡ (after, ok p)
      → (live after ≡ p ∷ live s) × (has p (live s) ≡ false)
  pub refused :
      (s after : S) (e : Error)
      → manager.provider.allocate s manager.block_size manager.alignment ≡ (after, err e)
      → live after ≡ live s
  pub taken :
      (s : S) (p : Ptr)
      → has p (live s) ≡ true
      → live (manager.provider.deallocate s p manager.block_size manager.alignment)
        ≡ erase p (live s)

has-left : (p : Ptr) (xs ys : List Ptr) → has p xs ≡ true → has p (xs ++ ys) ≡ true
has-left p [] ys h = absurd (false≢true h)
has-left p (x ∷ xs) ys h = ground (arith, has-left p xs ys)

has_not-left : (p : Ptr) (xs ys : List Ptr) → has p (xs ++ ys) ≡ false → has p xs ≡ false
has_not-left p [] ys h = refl
has_not-left p (x ∷ xs) ys h = ground (arith, has_not-left p xs ys)

erase-append :
    (p : Ptr) (xs ys : List Ptr) → has p xs ≡ true → erase p (xs ++ ys) ≡ erase p xs ++ ys
erase-append p [] ys h = absurd (false≢true h)
erase-append p (x ∷ xs) ys h = elim (Bool-cases (p == x)) [
  | inl same ↦ if_true _ _ same ∙ ap (λ zs. zs ++ ys) (sym (if_true _ _ same))
  | inr differ ↦
      if_false _ _ differ
      ∙ ap (λ zs. x ∷ zs) (erase-append p xs ys (ground (arith, differ, h)))
      ∙ ap (λ zs. zs ++ ys) (sym (if_false _ _ differ))
]

module _ {S : Type 0} (can_insert : List Ptr → Ptr → Bool) (manager : Manager S)
    (live : S → List Ptr) (ledger : IsLedger manager live) (others : List Ptr) where
  -- The live blocks are those of the set, and blocks that have another owner.
  abbrev Held : List Ptr → World S → Type 0
  Held allocations w = live w.heap ≡ allocations ++ others

  give_back-live :
      (p : Ptr) (w : World S) (blocks : List Ptr)
      → live w.heap ≡ blocks
      → has p blocks ≡ true
      → live (give_back manager p w).heap ≡ erase p blocks
  unfolding give_back
  give_back-live p w blocks held member =
      ledger.taken w.heap p (ap (has p) held ∙ member) ∙ ap (erase p) held

  record_fallback-Held :
      (allocations : List Ptr) (p : Ptr) (w : World S)
      → live w.heap ≡ p ∷ (allocations ++ others)
      → has p (allocations ++ others) ≡ false
      → Held
          ((record_fallback can_insert allocations manager p w).1)
          (record_fallback can_insert allocations manager p w).0
  unfolding record_fallback
  record_fallback-Held allocations p w held fresh = elim (Bool-cases (can_insert allocations p)) [
    | inl room ↦
        subst (λ (x : World S × List Ptr × Manager S × Result Ptr). Held x.1 x.0)
          (sym (if_true _ _ room))
          (held
            ∙ ap (λ xs. xs ++ others)
                (sym (if_false _ _ (has_not-left p allocations others fresh))))
    | inr full ↦
        subst (λ (x : World S × List Ptr × Manager S × Result Ptr). Held x.1 x.0)
          (sym (if_false _ _ full))
          (give_back-live p w (p ∷ (allocations ++ others)) held (ground arith)
            ∙ if_true _ _ (==_self p))
  ]

  answered-Held :
      (allocations : List Ptr) (w : World S) (answer : S × Result Ptr)
      → Held allocations w
      → manager.provider.allocate w.heap manager.block_size manager.alignment ≡ answer
      → (let x = elim answer.1 as (λ _. World S × List Ptr × Manager S × Result Ptr) [
        | err e ↦ (record w { heap = answer.0 }, allocations, manager, err e)
        | ok p ↦ record_fallback can_insert allocations manager p (record w { heap = answer.0 })
      ] in
          Held x.1 x.0)
  answered-Held allocations w (heap, err e) held asked = ledger.refused w.heap heap e asked ∙ held
  answered-Held allocations w (heap, ok p) held asked =
      let (handed, fresh) = ledger.handed w.heap heap p asked in
      record_fallback-Held allocations p (record w { heap = heap })
        (handed ∙ ap (λ xs. p ∷ xs) held) (ap (has p) (sym held) ∙ fresh)

  allocate_fallback-Held :
      (allocations : List Ptr) (w : World S)
      → Held allocations w
      → Held
          ((allocate_fallback can_insert allocations manager w).1)
          (allocate_fallback can_insert allocations manager w).0
  unfolding allocate_fallback
  allocate_fallback-Held allocations w held = answered-Held allocations w _ held refl

  deallocate_fallback-Held :
      (allocations : List Ptr) (p : Ptr) (w : World S)
      → Held allocations w
      → Held
          ((deallocate_fallback allocations p manager w).1)
          (deallocate_fallback allocations p manager w).0
  unfolding deallocate_fallback
  deallocate_fallback-Held allocations p w held = elim (Bool-cases (has p allocations)) [
    | inl member ↦
        subst (λ (x : World S × List Ptr × Bool). Held x.1 x.0) (sym (if_false _ _ (ap not member)))
          (give_back-live p w (allocations ++ others) held (has-left p allocations others member)
            ∙ erase-append p allocations others member)
    | inr stranger ↦
        subst (λ (x : World S × List Ptr × Bool). Held x.1 x.0)
          (sym (if_true _ _ (ap not stranger))) held
  ]

  give_back_all-live :
      (allocations : List Ptr) (w : World S)
      → Held allocations w
      → live (give_back_all allocations manager w).heap ≡ others
  unfolding give_back_all
  give_back_all-live [] w held = held
  give_back_all-live (p ∷ rest) w held =
      give_back_all-live rest (give_back manager p w)
        (give_back-live p w (p ∷ (rest ++ others)) held (ground arith) ∙ if_true _ _ (==_self p))

  -- The uses of a policy: requests that the chunks could not serve, returns of any pointer, and
  -- writes to memory in between.
  pub data Reach : List Ptr → World S → Type 0 where
    start : (w : World S) → live w.heap ≡ others → Reach [] w
    allocates :
        {allocations : List Ptr} {w : World S}
        → Reach allocations w
        → Reach
            ((allocate_fallback can_insert allocations manager w).1)
            (allocate_fallback can_insert allocations manager w).0
    returns :
        {allocations : List Ptr} {w : World S} (pointer : Ptr)
        → Reach allocations w
        → Reach
            ((deallocate_fallback allocations pointer manager w).1)
            (deallocate_fallback allocations pointer manager w).0
    writes :
        {allocations : List Ptr} {w : World S} (memory : Memory)
        → Reach allocations w
        → Reach allocations (record w { memory = memory })

  Reach-Held : {allocations : List Ptr} {w : World S} → Reach allocations w → Held allocations w
  Reach-Held (start w held) = held
  Reach-Held (allocates before) = allocate_fallback-Held _ _ (Reach-Held before)
  Reach-Held (returns p before) = deallocate_fallback-Held _ p _ (Reach-Held before)
  Reach-Held (writes memory before) = Reach-Held before

  -- The heap fallback leaks nothing, whether the provider refuses a request, the set cannot record a
  -- block, or a pointer that is returned is not one of its blocks: at any time the blocks that are
  -- live at the provider are those of the set and those that were live at the start, and after
  -- `release_all` they are those that were live at the start. The provider keeps its promises, and
  -- nobody else uses it meanwhile.
  pub Reach-no_leak :
      {allocations : List Ptr} {w : World S}
      → Reach allocations w
      → (live w.heap ≡ allocations ++ others)
        × (live (give_back_all allocations manager w).heap ≡ others)
  Reach-no_leak {allocations} {w} reach =
      (Reach-Held reach, give_back_all-live allocations w (Reach-Held reach))

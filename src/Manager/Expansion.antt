-- ===== src/Manager/Expansion.antt =====
-- `grow` of src/chunk_manager.cpp: a new chunk in storage that no chunk has.
use native.Mathlib.Nat.{mul-suc}
use fixed_size_memory_pool.Base.{
  ℕ, suc, zero, ◌+◌, ◌*◌, ◌≤◌, ◌<◌, ◌≡◌, ◌⊎◌, inl, inr, refl, sym, subst, ◌∙◌, arith, List, [], ◌∷◌,
  ◌++◌, false, some, size_mod, Result, Result-cases, ok, err,
}
use fixed_size_memory_pool.Memory.{Ptr, Memory, store_word}
use fixed_size_memory_pool.Memory.Laws.{Outside, store_bytes-Outside}
use fixed_size_memory_pool.Provider.{Provider, World}
use fixed_size_memory_pool.Layout.{BlockLayout, make_block_layout}
use fixed_size_memory_pool.Layout.Geometry.{make_block_layout-IsLayout}
use fixed_size_memory_pool.FreeList.{
  block_at, link_blocks, initialize_free_list, free_node_size, free_node_alignment,
}
use fixed_size_memory_pool.Chunk
use fixed_size_memory_pool.Chunk.{Chunk, build, acquire}
use fixed_size_memory_pool.Chunk.Invariant.{build-IsChunk}
use fixed_size_memory_pool.Chunk.Reach.{WellFormed}
use fixed_size_memory_pool.Manager.{Manager, grow, add_chunk}
use fixed_size_memory_pool.Manager.Arrangement.{Apart, ApartFrom, IsArranged}
use fixed_size_memory_pool.Manager.Returns.{OnlyIn, elsewhere-IsArranged}

-- The links of a new free list lie in its storage.
link_blocks-only :
    (storage stride n : ℕ) (m : Memory) (head a : Ptr)
    → 8 ≤ stride
    → Outside (stride * n) storage a
    → (link_blocks storage stride n m head).0 a ≡ m a
unfolding link_blocks
link_blocks-only storage stride zero m head a node out = refl
link_blocks-only storage stride (suc n) m head a node out =
    let size = mul-suc stride n in
    link_blocks-only storage stride n (store_word m (block_at storage stride n) head)
      (block_at storage stride n) a node (omega (arith, size, out))
    ∙ store_bytes-Outside 8 m (block_at storage stride n) head a (omega (arith, size, out))

build-OnlyIn :
    (l : BlockLayout) (storage : Ptr) (m : Memory)
    → 8 ≤ l.block_stride
    → l.storage_size ≡ l.block_stride * l.block_count
    → OnlyIn (build l storage m).1 m (build l storage m).0
unfolding build initialize_free_list
build-OnlyIn l storage m node whole a out =
    link_blocks-only storage l.block_stride l.block_count m _ a node (omega (arith, whole, out))

-- Storage that none of the chunks has a part of.
abbrev pub Clear : Ptr → (bytes : ℕ) → List Chunk → Type 0
Clear storage bytes [] = Unit {0}
Clear storage bytes (d ∷ rest) =
    ((storage + bytes ≤ d.storage) ⊎ (d.storage + d.storage_size ≤ storage))
    × Clear storage bytes rest

build-ApartFrom :
    (l : BlockLayout) (storage : Ptr) (m : Memory) (chunks : List Chunk)
    → Clear storage l.storage_size chunks
    → ApartFrom (build l storage m).1 chunks
unfolding build
build-ApartFrom l storage m [] clear = tt
build-ApartFrom l storage m (d ∷ rest) (here, later) =
    (here, build-ApartFrom l storage m rest later)

Apart-swap : (c d : Chunk) → Apart c d → Apart d c
Apart-swap c d (inl h) = inr h
Apart-swap c d (inr h) = inl h

ApartFrom-append :
    (d c : Chunk) (rest : List Chunk)
    → Apart d c
    → ApartFrom d rest
    → ApartFrom d (rest ++ (c ∷ []))
ApartFrom-append d c [] here apart = (here, tt)
ApartFrom-append d c (x ∷ rest) here (first, later) = (first, ApartFrom-append d c rest here later)

IsArranged-append :
    (m : Memory) (c : Chunk) (chunks : List Chunk)
    → WellFormed m c
    → ApartFrom c chunks
    → IsArranged m chunks
    → IsArranged m (chunks ++ (c ∷ []))
IsArranged-append m c [] formed apart arranged = (formed, tt, tt)
IsArranged-append m c (d ∷ rest) formed (here, later) (well, others, arranged) = (
  well,
  ApartFrom-append d c rest (Apart-swap c d here) others,
  IsArranged-append m c rest formed later arranged,
)

module _ {S : Type 0} where
  -- What the provider promises: storage that is not null, ends below the top of the address space
  -- and is no part of what it has handed out to the chunks.
  abbrev pub IsFresh : Provider S → S → List Chunk → Type 0
  IsFresh provider heap chunks =
      (bytes alignment : ℕ) (storage : Ptr)
      → (provider.allocate heap bytes alignment).1 ≡ ok storage
      → (0 < storage) × (storage + bytes < size_mod) × Clear storage bytes chunks

  -- A new chunk that is fit to join the others, or none.
  abbrev Fit : World S → List Chunk → World S → Result Chunk → Type 0
  Fit w chunks after (err e) = after.memory ≡ w.memory
  Fit w chunks after (ok c) =
      WellFormed after.memory c × ApartFrom c chunks × IsArranged after.memory chunks

  module _ (manager : Manager S) (w : World S) (arranged : IsArranged w.memory manager.chunks)
      (fresh : IsFresh manager.provider w.heap manager.chunks) where
    acquire-Fit :
        (l : BlockLayout)
        → 8 ≤ l.block_stride
        → l.storage_size ≡ l.block_stride * l.block_count
        → Fit w manager.chunks (acquire manager.provider l w).0 ((acquire manager.provider l w).1)
    unfolding acquire
    acquire-Fit l node whole =
        elim (Result-cases ((manager.provider.allocate w.heap l.storage_size l.alignment).1)) [
          | inl (e, refused) ↦ rw (acquire, refused) refl
          | inr (storage, given) ↦
              let (positive, fits, clear) = fresh l.storage_size l.alignment storage given in
              let apart = build-ApartFrom l storage w.memory manager.chunks clear in
              rw (acquire, given)
                (
                  (
                    _,
                    build-IsChunk l storage w.memory (record {
                      node_fits = node;
                      whole = whole;
                      positive = positive;
                      fits = fits;
                    }),
                  ),
                  apart,
                  elsewhere-IsArranged w.memory _ (build l storage w.memory).1 manager.chunks apart
                      (build-OnlyIn l storage w.memory node whole) arranged,
                )
        ]

    construct-Fit :
        (block_size block_count alignment : ℕ)
        → block_size < size_mod
        → block_count < size_mod
        → alignment < size_mod
        → Fit w manager.chunks
            (Chunk.construct (some manager.provider) block_size block_count alignment w).0
            ((Chunk.construct (some manager.provider) block_size block_count alignment w).1)
    unfolding Chunk.construct
    construct-Fit block_size block_count alignment hs hc ha =
        elim (Result-cases (
          make_block_layout block_size block_count alignment false free_node_size
            free_node_alignment 0)) [
              | inl (e, refused) ↦ rw (Chunk.construct, refused) refl
              | inr (l, made) ↦
                  let v =
                    make_block_layout-IsLayout block_size block_count alignment false free_node_size
                      free_node_alignment 0 hs (omega arith) (omega arith) hc ha
                      (record { power = (3, refl); fits = omega arith }) l made in
                  rw (Chunk.construct, made)
                    (acquire-Fit l (omega (arith, v.holds_node, v.back_guard)) v.storage)
            ]

  -- A chunk that `grow` adds to a manager whose chunks are well formed and apart leaves them so, and
  -- a failure to add one leaves them as they were. The storage that the provider hands out is
  -- fresh, and the dimensions asked for are machine words.
  pub grow-keeps :
      (manager : Manager S) (w : World S)
      → IsArranged w.memory manager.chunks
      → IsFresh manager.provider w.heap manager.chunks
      → manager.options.block_size < size_mod
      → manager.next_growth_blocks < size_mod
      → manager.options.alignment < size_mod
      → IsArranged ((grow manager w).0.memory) ((grow manager w).1.chunks)
  unfolding grow add_chunk
  grow-keeps manager w arranged fresh hs hc ha =
      let after : World S =
        (Chunk.construct (some manager.provider) manager.options.block_size
          manager.next_growth_blocks manager.options.alignment w).0 in
      let made =
        construct-Fit manager w arranged fresh manager.options.block_size manager.next_growth_blocks
          manager.options.alignment hs hc ha in
      elim (Result-cases (
        (Chunk.construct (some manager.provider) manager.options.block_size
          manager.next_growth_blocks manager.options.alignment w).1)) [
            | inl (e, failed) ↦
                rw (grow, failed)
                  (subst (λ m. IsArranged m manager.chunks)
                    (sym (subst (Fit w manager.chunks after) failed made)) arranged)
            | inr (c, built) ↦
                let (formed, apart, kept) = subst (Fit w manager.chunks after) built made in
                rw (grow, built) (IsArranged-append _ c manager.chunks formed apart kept)
          ]

-- ===== src/FreeList/Chain.antt =====
-- The list that the links in memory spell out, as the indices of the free blocks.
use mathlib.Core.Bool.{false≢true}
use native.Mathlib.Decide.{ℕ_discrete}
use fixed_size_memory_pool.Base.{
  ap, sym, ◌∙◌, ◌⊎◌, inl, inr, ℕ, zero, suc, ◌+◌, ◌<◌, ◌≤◌, ◌≡◌, refl, ◌≢◌, arith, List, [], ◌∷◌,
  true, false, ◌||◌, ltb, has, Distinct, Below, length-le_of_Below, length, size_mod,
}
use fixed_size_memory_pool.Memory.{Ptr, null, Memory, store_word, load_word}
use fixed_size_memory_pool.Memory.Laws.{
  load_bytes-store_bytes, load_bytes-same, store_bytes-Outside, Outside,
}
use fixed_size_memory_pool.FreeList.{block_at, link_blocks, initialize_free_list}
use fixed_size_memory_pool.FreeList.Region.{IsRegion, block_apart, block_bounds}

-- From `head` the links lead through the blocks `free`, in order, to null.
abbrev pub Chain : (storage stride count : ℕ) → Memory → List ℕ → Ptr → Type 0
Chain storage stride count m [] head = head ≡ null
Chain storage stride count m (i ∷ free) head =
    (head ≡ block_at storage stride i)
    × (i < count)
    × Chain storage stride count m free (load_word m head)

-- A list head, the number of free blocks, and the list that they stand for.
pub record IsFreeList (storage stride count : ℕ) (m : Memory) (head : Ptr) (free_blocks : ℕ)
    (free : List ℕ) : Type 0 where
  pub chain : Chain storage stride count m free head
  pub distinct : Distinct free
  pub counted : free_blocks ≡ length free

-- Two memories with the same links at the blocks of a list.
abbrev pub SameLinks : (storage stride : ℕ) → List ℕ → Memory → Memory → Type 0
SameLinks storage stride free m m' =
    (i : ℕ)
    → has i free ≡ true
    → load_word m' (block_at storage stride i) ≡ load_word m (block_at storage stride i)

-- The memory changes at most inside one block.
abbrev pub OnlyBlock : (storage stride : ℕ) → ℕ → Memory → Memory → Type 0
OnlyBlock storage stride i m m' =
    (a : Ptr) → Outside stride (block_at storage stride i) a → m' a ≡ m a

-- The indices below `n`, in front of others.
abbrev pub indices : ℕ → List ℕ → List ℕ
indices zero free = free
indices (suc n) free = indices n (n ∷ free)

module _ {storage stride count : ℕ} (r : IsRegion storage stride count) where
  pub Chain-same :
      (m m' : Memory) (free : List ℕ) (head : Ptr)
      → SameLinks storage stride free m m'
      → Chain storage stride count m free head
      → Chain storage stride count m' free head
  Chain-same m m' [] head same c = c
  Chain-same m m' (i ∷ free) head same (at, inside, rest) =
      let next : load_word m' head ≡ load_word m head = rw at (same i (ground arith)) in
      (
        at,
        inside,
        rw next (Chain-same m m' free (load_word m head) (λ j h. same j (ground arith)) rest),
      )

  -- A change inside one block leaves the links of the others.
  pub SameLinks-inside :
      (m m' : Memory) (free : List ℕ) (i : ℕ)
      → has i free ≡ false
      → OnlyBlock storage stride i m m'
      → SameLinks storage stride free m m'
  SameLinks-inside m m' free i out only j member =
      let other : i ≢ j = λ e. cc in
      let apart = block_apart r i j other in
      load_bytes-same 8 (block_at storage stride j) m m'
        (λ a lo hi. only a (omega (arith, r.node_fits)))

  pub OnlyBlock-store :
      (m : Memory) (i v : ℕ)
      → OnlyBlock storage stride i m (store_word m (block_at storage stride i) v)
  OnlyBlock-store m i v a out =
      store_bytes-Outside 8 m (block_at storage stride i) v a (omega (arith, r.node_fits))

  Chain-head :
      (m : Memory) (free : List ℕ) (head : Ptr)
      → Chain storage stride count m free head
      → head < size_mod
  Chain-head m [] head c = omega arith
  Chain-head m (i ∷ free) head c = omega (arith, block_bounds r i c.1)

  -- Linking a block in front.
  pub Chain-push :
      (m : Memory) (free : List ℕ) (head i : ℕ)
      → has i free ≡ false
      → i < count
      → Chain storage stride count m free head
      → Chain storage stride count
          (store_word m (block_at storage stride i) head)
          (i ∷ free)
          (block_at storage stride i)
  Chain-push m free head i out inside c =
      let block = block_at storage stride i in
      let link = load_bytes-store_bytes 8 m block head (Chain-head m free head c) in
      (
        refl,
        inside,
        rw link (
            Chain-same m (store_word m block head) free head
              (SameLinks-inside m (store_word m block head) free i out (OnlyBlock-store m i head))
              c),
      )

  -- The loop keeps the invariant: the blocks from `n` on are linked already, as `free` says.
  link_blocks-IsFreeList :
      (n : ℕ) (m : Memory) (head free_blocks : ℕ) (free : List ℕ)
      → n ≤ count
      → ((i : ℕ) → i < n → has i free ≡ false)
      → IsFreeList storage stride count m head free_blocks free
      → let linked = link_blocks storage stride n m head in
        IsFreeList storage stride count linked.0 linked.1 (n + free_blocks) (indices n free)
  unfolding link_blocks
  link_blocks-IsFreeList zero m head free_blocks free le above v = record {
    chain = v.chain;
    distinct = v.distinct;
    counted = omega (arith, v.counted);
  }
  link_blocks-IsFreeList (suc n) m head free_blocks free le above v =
      let pushed = Chain-push m free head n (above n (omega arith)) (omega arith) v.chain in
      let sum : suc n + free_blocks ≡ n + suc free_blocks = omega arith in
      rw sum (
        link_blocks-IsFreeList n (store_word m (block_at storage stride n) head)
          (block_at storage stride n) (suc free_blocks) (n ∷ free) (omega arith)
          (λ i h. ground (arith, above i))
          (record {
            chain = pushed;
            distinct = (above n (omega arith), v.distinct);
            counted = omega (arith, v.counted);
          }))

  -- After the constructor's loop the list holds every block, block zero first.
  pub initialize_free_list-IsFreeList :
      (m : Memory)
      → let linked = initialize_free_list storage stride count m in
        IsFreeList storage stride count linked.0 linked.1 count (indices count [])
  unfolding initialize_free_list
  initialize_free_list-IsFreeList m =
      let whole : count + 0 ≡ count = omega arith in
      rw whole at (
        link_blocks-IsFreeList count m null 0 [] (omega arith) (λ i h. refl)
          (record { chain = refl; distinct = tt; counted = refl }))

  -- Putting a block back.
  pub IsFreeList-push :
      (m : Memory) (head free_blocks i : ℕ) (free : List ℕ)
      → has i free ≡ false
      → i < count
      → IsFreeList storage stride count m head free_blocks free
      → IsFreeList storage stride count
          (store_word m (block_at storage stride i) head)
          (block_at storage stride i)
          (suc free_blocks)
          (i ∷ free)
  IsFreeList-push m head free_blocks i free out inside v = record {
    chain = Chain-push m free head i out inside v.chain;
    distinct = (out, v.distinct);
    counted = omega (arith, v.counted);
  }

  pub IsFreeList-same :
      (m m' : Memory) (head free_blocks : ℕ) (free : List ℕ)
      → SameLinks storage stride free m m'
      → IsFreeList storage stride count m head free_blocks free
      → IsFreeList storage stride count m' head free_blocks free
  IsFreeList-same m m' head free_blocks free same v = record {
    chain = Chain-same m m' free head same v.chain;
    distinct = v.distinct;
    counted = v.counted;
  }

  pub Chain-null : (m : Memory) (free : List ℕ) → Chain storage stride count m free null → free ≡ []
  Chain-null m [] c = refl
  Chain-null m (i ∷ free) c = absurd (omega (arith, block_bounds r i c.1))

pub has-indices : (n i : ℕ) (free : List ℕ) → has i (indices n free) ≡ (ltb i n || has i free)
has-indices zero i free = ground arith
has-indices (suc n) i free = ground (arith, has-indices n i (n ∷ free))

pub length-indices : (n : ℕ) (free : List ℕ) → length (indices n free) ≡ n + length free
length-indices zero free = omega arith
length-indices (suc n) free = omega (arith, length-indices n (n ∷ free))

module _ (storage stride count : ℕ) where
  pub Chain-Below :
      (m : Memory) (free : List ℕ) (head : Ptr)
      → Chain storage stride count m free head
      → Below count free
  Chain-Below m [] head c = tt
  Chain-Below m (i ∷ free) head c = (c.1, Chain-Below m free (load_word m head) c.2)

  -- A free list holds each block once, so it is no longer than there are blocks.
  pub IsFreeList-le :
      (m : Memory) (head free_blocks : ℕ) (free : List ℕ)
      → IsFreeList storage stride count m head free_blocks free
      → free_blocks ≤ count
  IsFreeList-le m head free_blocks free v =
      omega (
        arith,
        v.counted,
        length-le_of_Below count free v.distinct (Chain-Below m free head v.chain),
      )

  -- Every link of the list is null or the start of a block.
  pub Chain-link :
      (m : Memory) (free : List ℕ) (head i : ℕ)
      → Chain storage stride count m free head
      → has i free ≡ true
      → (load_word m (block_at storage stride i) ≡ null)
        ⊎ ((j : ℕ) × (j < count)
            × (load_word m (block_at storage stride i) ≡ block_at storage stride j))
  Chain-link m [] head i c member = absurd (false≢true member)
  Chain-link m (k ∷ free) head i c member = elim (ℕ_discrete i k) [
    | no other ↦ Chain-link m free (load_word m head) i c.2 (ground arith)
    | yes same ↦
        let here : load_word m (block_at storage stride i) ≡ load_word m head =
          ap (λ n. load_word m (block_at storage stride n)) same ∙ ap (load_word m) (sym c.0) in
        next_link free (load_word m head) here c.2
  ]
    where
      next_link :
          (rest : List ℕ) (next : Ptr)
          → load_word m (block_at storage stride i) ≡ next
          → Chain storage stride count m rest next
          → (load_word m (block_at storage stride i) ≡ null)
            ⊎ ((j : ℕ) × (j < count)
                × (load_word m (block_at storage stride i) ≡ block_at storage stride j))
      next_link [] next e d = inl (e ∙ d)
      next_link (j ∷ rest) next e d = inr (j, d.1, e ∙ d.0)

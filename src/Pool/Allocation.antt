-- ===== src/Pool/Allocation.antt =====
-- `allocate` of src/fixed_size_memory_pool.cpp on a well-formed pool.
use mathlib.Core.Bool.{false≢true}
use native.Mathlib.Decide.{ℕ_discrete}
use fixed_size_memory_pool.Base.{
  ℕ, ◌+◌, ◌<◌, ◌≡◌, refl, inl, inr, List, [], ◌∷◌, has, arith, true, false, ◌||◌, ◌==◌,
  if◌then◌else◌, ok, sym, ◌∙◌, ap, Bool-cases, sub_word, ne→==, ==_iff,
}
use fixed_size_memory_pool.Memory.{Ptr, null, Memory, load_word}
use fixed_size_memory_pool.FreeList.Region.{block_bounds, count_fits}
use fixed_size_memory_pool.FreeList.Chain.{
  IsFreeList, IsFreeList-same, IsFreeList-le, SameLinks-inside, OnlyBlock,
}
use fixed_size_memory_pool.Guard.{canaries_are_valid, prepare_allocated_memory}
use fixed_size_memory_pool.Guard.Detection.{prepare-same}
use fixed_size_memory_pool.Pool.{
  Pool, allocate, allocate_block, pop, count_request, count_failure, raw_block_index,
  payload_from_raw_block,
}
use fixed_size_memory_pool.Pool.Addresses.{payload, raw_block, raw_block_index-raw_block}
use fixed_size_memory_pool.Pool.Frame.{
  kept_guards, IsPool-with, IsPool-statistics, valid_of_guards, count_request-statistics,
  count_success-statistics, count_failure-statistics, no_options_parts, Tracks-disabled,
}
use fixed_size_memory_pool.Pool.Invariant.{IsPool, mark_allocated-Tracks}

-- The memory and the pool after the call, the block handed out, and what else the call leaves alone.
abbrev pub Allocated : Memory → Pool → ℕ → List ℕ → Type 0
Allocated m p i list =
    (m' : Memory) × (p' : Pool) × (allocate m p ≡ ok (m', p', payload p i))
    × IsPool m' p' list
    × OnlyBlock p.storage p.block_stride i m m'

module _ {m : Memory} {p : Pool} {i : ℕ} {list : List ℕ} (v : IsPool m p (i ∷ list)) where
  -- The list after the pop, over any memory that differs in the popped block only.
  pop-IsFreeList :
      (m' : Memory)
      → OnlyBlock p.storage p.block_stride i m m'
      → IsFreeList p.storage p.block_stride p.block_count m'
          (load_word m p.free_head)
          (sub_word p.free_blocks 1)
          list
  pop-IsFreeList m' only =
      let few =
        IsFreeList-le p.storage p.block_stride p.block_count m p.free_head p.free_blocks (i ∷ list)
          v.free_list in
      let popped : IsFreeList p.storage p.block_stride p.block_count m (load_word m p.free_head)
          (sub_word p.free_blocks 1) list =
        record {
          chain = v.free_list.chain.2;
          distinct = v.free_list.distinct.1;
          counted = omega (arith, v.free_list.counted, count_fits v.geometry.region);
        } in
      IsFreeList-same v.geometry.region m m' (load_word m p.free_head) (sub_word p.free_blocks 1)
        list (SameLinks-inside v.geometry.region m m' list i v.free_list.distinct.0 only) popped

  guards :
      (m' : Memory)
      → OnlyBlock p.storage p.block_stride i m m'
      → (p.options.guard_bytes ≡ true → canaries_are_valid m' (payload p i) p.block_size ≡ true)
      → p.options.guard_bytes ≡ true
      → (j : ℕ) → j < p.block_count
      → has j list ≡ false
      → canaries_are_valid m' (payload p j) p.block_size ≡ true
  guards m' only valid guarded j inside live = elim (ℕ_discrete j i) [
    | yes same ↦ ap (λ k. canaries_are_valid m' (payload p k) p.block_size) same ∙ valid guarded
    | no other ↦ kept_guards v m' i j only guarded other inside (ground arith)
  ]

  inside : i < p.block_count
  inside = v.free_list.chain.1

  prepared : Memory
  prepared =
      if p.options.poison_memory || p.options.guard_bytes
      then prepare_allocated_memory m (raw_block p i) p.payload_offset p.block_size
          p.options.poison_memory p.options.guard_bytes
      else m

  prepared-OnlyBlock : OnlyBlock p.storage p.block_stride i m prepared
  unfolding prepared
  prepared-OnlyBlock a out = elim (Bool-cases (p.options.poison_memory || p.options.guard_bytes)) [
    | inl on ↦ rw on (
        prepare-same m (raw_block p i) p.payload_offset p.block_size p.options.poison_memory
          p.options.guard_bytes p.block_stride v.geometry.front_guard v.geometry.back_guard a out)
    | inr off ↦ rw off refl
  ]

  prepared-valid :
      p.options.guard_bytes ≡ true → canaries_are_valid prepared (payload p i) p.block_size ≡ true
  unfolding prepared
  prepared-valid guarded =
      valid_of_guards m (raw_block p i) p.payload_offset p.block_size p.options.poison_memory
        p.options.guard_bytes guarded v.geometry.front_guard

  -- The slow path, past the test for an empty list.
  allocate_block_lem :
      (m' : Memory) × (p' : Pool) × (allocate_block m p ≡ ok (m', p', payload p i))
      × IsPool m' p' list
      × OnlyBlock p.storage p.block_stride i m m'
  unfolding allocate_block payload_from_raw_block prepared pop
  allocate_block_lem =
      let out = v.free_list.distinct.0 in
      let (table, marked, tracks) =
        mark_allocated-Tracks p.block_count i list inside out p.options.diagnostics
          p.diagnostic_state v.tracks in
      let index =
        ap (raw_block_index p) v.free_list.chain.0
        ∙ raw_block_index-raw_block v.geometry i inside in
      let taken = record p {
        free_head = load_word m p.free_head;
        free_blocks = sub_word p.free_blocks 1;
        diagnostic_state = table;
      } in
      let (s, counted) = count_success-statistics taken in
      (
        prepared,
        record taken { statistics = s },
        rw (index, marked, counted)
            (ap
              (λ (q : Ptr). ok (
                if p.options.poison_memory || p.options.guard_bytes
                    then prepare_allocated_memory m q p.payload_offset p.block_size
                        p.options.poison_memory p.options.guard_bytes
                    else m,
                record taken { statistics = s },
                q + p.payload_offset,
              ))
              v.free_list.chain.0),
        IsPool-with p (load_word m p.free_head) (sub_word p.free_blocks 1) s table v.geometry v.fast
            (pop-IsFreeList prepared prepared-OnlyBlock) tracks
            (guards prepared prepared-OnlyBlock prepared-valid),
        prepared-OnlyBlock,
      )

allocate_fast :
    (m : Memory) (p : Pool)
    → p.fast_path ≡ true
    → (p.free_head == null) ≡ false
    → allocate m p ≡ ok (m, pop m p, p.free_head)
unfolding allocate
allocate_fast m p quick found = rw (quick, found) refl

allocate_fast_none :
    (m : Memory) (p : Pool)
    → p.fast_path ≡ true
    → (p.free_head == null) ≡ true
    → allocate m p ≡ ok (m, p, null)
unfolding allocate
allocate_fast_none m p quick gone = rw (quick, gone) refl

allocate_slow_none :
    (m : Memory) (p : Pool)
    → p.fast_path ≡ false
    → (p.free_head == null) ≡ true
    → allocate m p ≡ ok (m, count_failure (count_request p), null)
unfolding allocate
allocate_slow_none m p slow gone = rw (slow, gone) refl

allocate_slow :
    (m : Memory) (p : Pool)
    → p.fast_path ≡ false
    → (p.free_head == null) ≡ false
    → allocate m p ≡ allocate_block m (count_request p)
unfolding allocate
allocate_slow m p slow found = rw (slow, found) refl

allocate_fast_lem :
    (m : Memory) (p : Pool) (i : ℕ) (list : List ℕ)
    → IsPool m p (i ∷ list)
    → p.fast_path ≡ true
    → (p.free_head == null) ≡ false
    → Allocated m p i list
unfolding pop
allocate_fast_lem m p i list v quick found =
    let (mode, poison, guard, counted) = no_options_parts p.options (sym v.fast ∙ quick) in
    let no_offset = v.geometry.unguarded guard in
    let same : p.free_head ≡ payload p i = omega (arith, v.free_list.chain.0) in
    (
      m,
      pop m p,
      allocate_fast m p quick found ∙ ap (λ (q : Ptr). ok (m, pop m p, q)) same,
      IsPool-with p (load_word m p.free_head) (sub_word p.free_blocks 1) p.statistics
          p.diagnostic_state v.geometry v.fast (pop-IsFreeList v m (λ a out. refl))
          (Tracks-disabled p.options.diagnostics p.diagnostic_state p.block_count (i ∷ list) list
            mode v.tracks)
          (λ guarded. absurd (false≢true (sym guard ∙ guarded))),
      λ a out. refl,
    )

-- On a pool with a free block, `allocate` returns the payload of the first one, takes it out of the
-- list, writes inside that block only, and does not terminate the program.
pub allocate_lem :
    (m : Memory) (p : Pool) (i : ℕ) (list : List ℕ) → IsPool m p (i ∷ list) → Allocated m p i list
allocate_lem m p i list v =
    let bounds = block_bounds v.geometry.region i v.free_list.chain.1 in
    let found : (p.free_head == null) ≡ false =
      ne→== p.free_head 0 (omega (arith, bounds, v.free_list.chain.0)) in
    elim (Bool-cases p.fast_path) [
      | inl quick ↦ allocate_fast_lem m p i list v quick found
      | inr slow ↦
          let (s, counted) = count_request-statistics p in
          let (m', p', e, kept, only) = allocate_block_lem (IsPool-statistics s v) in
          (m', p', allocate_slow m p slow found ∙ ap (allocate_block m) counted ∙ e, kept, only)
    ]

-- On an exhausted pool `allocate` returns null, writes nothing and leaves the pool exhausted.
pub allocate_exhausted :
    (m : Memory) (p : Pool)
    → IsPool m p []
    → (p' : Pool) × (allocate m p ≡ ok (m, p', null)) × IsPool m p' []
allocate_exhausted m p v =
    let gone : (p.free_head == null) ≡ true = (==_iff _ 0).1 v.free_list.chain in
    elim (Bool-cases p.fast_path) [
      | inl quick ↦ (p, allocate_fast_none m p quick gone, v)
      | inr slow ↦
          let (s, counted) = count_request-statistics p in
          let (s', failed) = count_failure-statistics (record p { statistics = s }) in
          (
            record p { statistics = s' },
            allocate_slow_none m p slow gone
                ∙ ap (λ (q : Pool). ok (m, q, null)) (ap count_failure counted ∙ failed),
            IsPool-statistics s' v,
          )
    ]

-- ===== src/Pool/Deallocation.antt =====
-- `deallocate` of src/fixed_size_memory_pool.cpp on a well-formed pool.
use fixed_size_memory_pool.Base.{
  ℕ, suc, ◌+◌, ◌-◌, ◌<◌, ◌≡◌, ◌≢◌, refl, inl, inr, ◌⊎◌, List, ◌∷◌, has, arith, Bool, true, false,
  ◌||◌, if◌then◌else◌, if_true, if_false, Result, ok, err, invalid_pool_pointer, memory_corruption,
  Option, sym, subst, ◌∙◌, ap, Bool-cases, add_word, ne→==,
}
use fixed_size_memory_pool.Memory.{Ptr, null, Memory, load_word, store_word}
use fixed_size_memory_pool.Memory.Laws.{Outside}
use fixed_size_memory_pool.FreeList.Region.{count_fits}
use fixed_size_memory_pool.FreeList.Chain.{
  IsFreeList-same, IsFreeList-le, IsFreeList-push, SameLinks-inside, OnlyBlock, OnlyBlock-store,
}
use fixed_size_memory_pool.Guard.{
  guard_size, front_canary, back_canary, validate_and_prepare_freed_memory,
}
use fixed_size_memory_pool.Guard.Detection.{validate-ok}
use fixed_size_memory_pool.Statistics.{PoolStatistics}
use fixed_size_memory_pool.Diagnostics.{BlockState}
use fixed_size_memory_pool.Pool.{
  Pool, PoolOptions, deallocate, deallocate_block, finish_deallocate, push,
}
use fixed_size_memory_pool.Pool.Addresses.{IsGeometry, payload, raw_block, block_index_cases}
use fixed_size_memory_pool.Pool.Frame.{IsPool-with, no_options_parts, Tracks-disabled, kept_guards}
use fixed_size_memory_pool.Pool.Invariant.{IsPool, Tracks, unmark-Tracks, no_options}
use fixed_size_memory_pool.Pool.Branches.{
  count_deallocation-statistics, deallocate_found, pushed, finish_deallocate_marked,
  deallocate_block_checked, deallocate_block_corrupted, check_guards_broken,
}

-- Null is ignored.
pub deallocate-null : (m : Memory) (p : Pool) → deallocate m p null ≡ (m, p, ok tt)
unfolding deallocate
deallocate-null m p = refl

-- What is not the payload of a block is refused, and nothing changes.
pub deallocate_foreign :
    (m : Memory) (p : Pool) (list : List ℕ) (a : Ptr)
    → IsPool m p list
    → a ≢ null
    → ((i : ℕ) → i < p.block_count → a ≢ payload p i)
    → deallocate m p a ≡ (m, p, err invalid_pool_pointer)
unfolding deallocate
deallocate_foreign m p list a v some_pointer foreign = elim (block_index_cases v.geometry a) [
  | inl (i, inside, at, _) ↦ absurd (foreign i inside at)
  | inr (_, refused) ↦ rw (ne→== a 0 some_pointer, refused) refl
]

abbrev pub Deallocated : Memory → Pool → ℕ → List ℕ → Memory × Pool × Result (Unit {0}) → Type 0
Deallocated m p i list r =
    (r.2 ≡ ok tt) × IsPool r.0 r.1 (i ∷ list) × OnlyBlock p.storage p.block_stride i m r.0

module _ {m : Memory} {p : Pool} {i : ℕ} {list : List ℕ} (v : IsPool m p list)
    (inside : i < p.block_count) (live : has i list ≡ false) where
  -- The push, over a memory that differs from the old one in the block only.
  push-IsPool :
      (checked : Memory) (s : PoolStatistics) (table : Option (List BlockState))
      → OnlyBlock p.storage p.block_stride i m checked
      → Tracks p.options.diagnostics table p.block_count (i ∷ list)
      → IsPool
          (store_word checked (raw_block p i) p.free_head)
          (record p {
            free_head = raw_block p i;
            free_blocks = add_word p.free_blocks 1;
            statistics = s;
            diagnostic_state = table;
          })
          (i ∷ list)
  push-IsPool checked s table only tracks =
      let region = v.geometry.region in
      let before =
        IsFreeList-same region m checked p.free_head p.free_blocks list
          (SameLinks-inside region m checked list i live only) v.free_list in
      let few =
        IsFreeList-le p.storage p.block_stride p.block_count m p.free_head p.free_blocks list
          v.free_list in
      let bumped : add_word p.free_blocks 1 ≡ suc p.free_blocks =
        omega (arith, count_fits region) in
      let linked =
        IsFreeList-push region checked p.free_head p.free_blocks i list live inside before in
      let all = λ (a : Ptr) (out : Outside p.block_stride (raw_block p i) a).
        OnlyBlock-store region checked i p.free_head a out ∙ only a out in
      IsPool-with p (raw_block p i) (add_word p.free_blocks 1) s table v.geometry v.fast
        (rw bumped linked) tracks
        (λ guarded j in_range out.
          kept_guards v (store_word checked (raw_block p i) p.free_head) i j all guarded
            (ground arith) in_range (ground arith))

  push_lem :
      (checked : Memory) (s : PoolStatistics) (table : Option (List BlockState))
      → OnlyBlock p.storage p.block_stride i m checked
      → Tracks p.options.diagnostics table p.block_count (i ∷ list)
      → Deallocated m p i list (
        (push checked (record p { statistics = s; diagnostic_state = table }) (raw_block p i)).0,
        (push checked (record p { statistics = s; diagnostic_state = table }) (raw_block p i)).1,
        ok tt,
      )
  unfolding push
  push_lem checked s table only tracks = (
    refl,
    push-IsPool checked s table only tracks,
    λ a out. OnlyBlock-store v.geometry.region checked i p.free_head a out ∙ only a out,
  )

  finish_lem :
      (checked : Memory)
      → OnlyBlock p.storage p.block_stride i m checked
      → Deallocated m p i list (finish_deallocate checked p (raw_block p i) i)
  finish_lem checked only =
      let (marked, e, tracks) =
        unmark-Tracks p.block_count i list inside live p.options.diagnostics p.diagnostic_state
          v.tracks in
      let (s, counted) = count_deallocation-statistics (record p { diagnostic_state = marked }) in
      subst (Deallocated m p i list)
        (sym (
          finish_deallocate_marked checked p (raw_block p i) i marked e
          ∙ ap (pushed checked (raw_block p i)) counted))
        (push_lem checked s marked only tracks)

  guards_ok :
      (poison guard : Bool)
      → guard ≡ p.options.guard_bytes
      → (checked : Memory) × ((if poison || guard
            then validate_and_prepare_freed_memory m
                (raw_block p i)
                p.payload_offset
                p.block_size
                poison
                guard
            else ok m)
          ≡ ok checked)
        × OnlyBlock p.storage p.block_stride i m checked
  guards_ok poison guard is =
      let room = v.geometry.back_guard in
      let (checked, e, only) =
        validate-ok m (raw_block p i) p.payload_offset p.block_size poison guard
          (λ guarded. v.intact (sym is ∙ guarded) i inside live) in
      elim (Bool-cases (poison || guard)) [
        | inl on ↦ (checked, rw on e, λ a out. only a (omega arith))
        | inr off ↦ (m, rw off refl, λ a out. refl)
      ]

  deallocate_block_lem : Deallocated m p i list (deallocate_block m p (raw_block p i) i)
  deallocate_block_lem =
      let (checked, e, only) = guards_ok p.options.poison_memory p.options.guard_bytes refl in
      subst (Deallocated m p i list)
        (sym (deallocate_block_checked m p (raw_block p i) i checked e)) (finish_lem checked only)

  -- Returning the payload of an allocated block succeeds, puts the block at the head of the list,
  -- keeps the pool well formed, and writes inside that block only.
  pub deallocate_lem : Deallocated m p i list (deallocate m p (payload p i))
  deallocate_lem = elim (Bool-cases p.fast_path) [
    | inl quick ↦
        let (mode, poison, guard, counted) = no_options_parts p.options (sym v.fast ∙ quick) in
        let tracks =
          Tracks-disabled p.options.diagnostics p.diagnostic_state p.block_count list (i ∷ list)
            mode v.tracks in
        subst (Deallocated m p i list)
          (sym (deallocate_found m p i v.geometry inside ∙ if_true _ _ quick))
          (push_lem m p.statistics p.diagnostic_state (λ a out. refl) tracks)
    | inr slow ↦
        subst (Deallocated m p i list)
          (sym (deallocate_found m p i v.geometry inside ∙ if_false _ _ slow)) deallocate_block_lem
  ]

options_guarded : (o : PoolOptions) → o.guard_bytes ≡ true → no_options o ≡ false
options_guarded o guarded = ground arith

-- With guards on, returning a payload one of whose guard words was overwritten throws, whatever the
-- other options, and leaves the memory and the pool as they were.
pub deallocate_corrupted :
    (m : Memory) (p : Pool) (i : ℕ)
    → IsGeometry p
    → p.fast_path ≡ no_options p.options
    → i < p.block_count
    → p.options.guard_bytes ≡ true
    → (load_word m (payload p i - guard_size) ≢ front_canary)
      ⊎ (load_word m (payload p i + p.block_size) ≢ back_canary)
    → deallocate m p (payload p i) ≡ (m, p, err memory_corruption)
deallocate_corrupted m p i g fast inside guarded broken =
    let slow : p.fast_path ≡ false = fast ∙ options_guarded p.options guarded in
    deallocate_found m p i g inside
    ∙ if_false _ _ slow
    ∙ deallocate_block_corrupted m p (raw_block p i) i memory_corruption
        (check_guards_broken m p (raw_block p i) guarded broken)

-- ===== src/Pool/Invariant.antt =====
-- The well-formed fixed pools, and that the constructor makes one.
use native.Mathlib.Decide.{ℕ_discrete}
use fixed_size_memory_pool.Base.{
  ℕ, ◌+◌, ◌<◌, ◌≡◌, refl, List, [], ◌∷◌, has, length, get_or, set, replicate, arith, size_mod, Bool,
  true, false, not, ◌&&◌, if◌then◌else◌, get_or-replicate, length-replicate, get_or-set_self,
  get_or-set_ne, length-set, ok, err, Option, none, some, double_free, sym, ◌∙◌,
}
use mathlib.Core.Bool.{false≢true}
use fixed_size_memory_pool.Memory.{Ptr, Memory}
use fixed_size_memory_pool.Layout.{BlockLayout}
use fixed_size_memory_pool.Layout.Geometry.{IsLayout}
use fixed_size_memory_pool.FreeList.Region.{IsRegion}
use fixed_size_memory_pool.FreeList.Chain.{
  IsFreeList, indices, has-indices, initialize_free_list-IsFreeList,
}
use fixed_size_memory_pool.Guard.{canaries_are_valid}
use fixed_size_memory_pool.Diagnostics.{BlockState, initial_states, try_mark_allocated, mark_free}
use fixed_size_memory_pool.Pool.{
  Pool, PoolOptions, DiagnosticMode, disabled, enabled, is_enabled, mark_allocated, unmark,
}
use fixed_size_memory_pool.Pool.Construction.{build}
use fixed_size_memory_pool.Pool.Addresses.{IsGeometry, payload}

abbrev pub BlockStatesAgree : List BlockState → ℕ → List ℕ → Type 0
BlockStatesAgree states count list =
    (i : ℕ)
    → i < count
    → get_or states i BlockState.free
      ≡ (if has i list then BlockState.free else BlockState.allocated)

-- The state table exists exactly in diagnostic mode, and marks the blocks of the list as free.
abbrev pub Tracks : DiagnosticMode → Option (List BlockState) → ℕ → List ℕ → Type 0
Tracks disabled table count list = table ≡ none
Tracks enabled table count list =
    (states : List BlockState) × (table ≡ some states)
    × (length states ≡ count)
    × BlockStatesAgree states count list

abbrev pub no_options : PoolOptions → Bool
no_options o =
    not (is_enabled o.diagnostics)
    && not o.poison_memory
    && not o.guard_bytes
    && not o.collect_statistics

pub record IsPool (m : Memory) (p : Pool) (list : List ℕ) : Type 0 where
  pub geometry : IsGeometry p
  pub free_list : IsFreeList p.storage p.block_stride p.block_count m p.free_head p.free_blocks list
  pub fast : p.fast_path ≡ no_options p.options
  pub tracks : Tracks p.options.diagnostics p.diagnostic_state p.block_count list
  pub intact :
      p.options.guard_bytes ≡ true
      → (i : ℕ) → i < p.block_count
      → has i list ≡ false
      → canaries_are_valid m (payload p i) p.block_size ≡ true

module _ (count i : ℕ) (list : List ℕ) (inside : i < count) (out : has i list ≡ false) where
  set-allocated :
      (states : List BlockState)
      → length states ≡ count
      → BlockStatesAgree states count (i ∷ list)
      → BlockStatesAgree (set states i BlockState.allocated) count list
  set-allocated states size agree j h = elim (ℕ_discrete j i) [
    | yes same ↦ ground (arith, get_or-set_self states i BlockState.allocated BlockState.free)
    | no other ↦
        ground (arith, agree j h, get_or-set_ne states i j BlockState.allocated BlockState.free)
  ]

  set-free :
      (states : List BlockState)
      → length states ≡ count
      → BlockStatesAgree states count list
      → BlockStatesAgree (set states i BlockState.free) count (i ∷ list)
  set-free states size agree j h = elim (ℕ_discrete j i) [
    | yes same ↦ ground (arith, get_or-set_self states i BlockState.free BlockState.free)
    | no other ↦ ground (arith, agree j h, get_or-set_ne states i j BlockState.free BlockState.free)
  ]

  -- Taking a free block marks it and does not terminate the program.
  pub mark_allocated-Tracks :
      (mode : DiagnosticMode) (table : Option (List BlockState))
      → Tracks mode table count (i ∷ list)
      → (marked : Option (List BlockState)) × (mark_allocated table i ≡ ok marked)
        × Tracks mode marked count list
  unfolding mark_allocated try_mark_allocated
  mark_allocated-Tracks disabled table t = (none, rw t refl, refl)
  mark_allocated-Tracks enabled table (states, is, size, agree) =
      let state : get_or states i BlockState.free ≡ BlockState.free =
        ground (arith, agree i inside) in
      (
        some (set states i BlockState.allocated),
        rw (is, mark_allocated, state) refl,
        (
          set states i BlockState.allocated,
          refl,
          length-set states i BlockState.allocated ∙ size,
          set-allocated states size agree,
        ),
      )

  pub unmark-Tracks :
      (mode : DiagnosticMode) (table : Option (List BlockState))
      → Tracks mode table count list
      → (marked : Option (List BlockState)) × (unmark table i ≡ ok marked)
        × Tracks mode marked count (i ∷ list)
  unfolding unmark mark_free
  unmark-Tracks disabled table t = (none, rw t refl, refl)
  unmark-Tracks enabled table (states, is, size, agree) =
      let state : get_or states i BlockState.free ≡ BlockState.allocated =
        ground (arith, agree i inside) in
      (
        some (set states i BlockState.free),
        rw (is, unmark, state) refl,
        (
          set states i BlockState.free,
          refl,
          length-set states i BlockState.free ∙ size,
          set-free states size agree,
        ),
      )

-- Returning a free block is refused where the states are kept.
pub unmark_twice :
    (count i : ℕ) (list : List ℕ) (table : Option (List BlockState))
    → i < count
    → has i list ≡ true
    → Tracks enabled table count list
    → unmark table i ≡ err double_free
unfolding unmark mark_free
unmark_twice count i list table inside member (states, is, size, agree) =
    let state : get_or states i BlockState.free ≡ BlockState.free =
      ground (arith, agree i inside) in
    rw (is, unmark, state) refl

build-Tracks :
    (mode : DiagnosticMode) (count : ℕ)
    → Tracks mode
        (if is_enabled mode then some (initial_states count) else none)
        count
        (indices count [])
unfolding initial_states
build-Tracks disabled count = refl
build-Tracks enabled count = (
  replicate count BlockState.free,
  refl,
  length-replicate count BlockState.free,
  λ i h.
      ground
        (arith, has-indices count i [], get_or-replicate count i BlockState.free BlockState.free),
)

-- A pool that is built on a layout of the constructor's, at an address that is not null, with its
-- storage below the top of the address space, is well formed, and all its blocks are free.
pub build-IsPool :
    (size count requested : ℕ) (options : PoolOptions) (l : BlockLayout) (storage : Ptr)
    (m : Memory)
    → IsLayout size count requested options.guard_bytes 8 8 8 l
    → 0 < storage
    → storage + l.storage_size < size_mod
    → IsPool (build options l storage m).0 (build options l storage m).1 (indices l.block_count [])
unfolding build
build-IsPool size count requested options l storage m v positive fits =
    let whole = v.storage in
    let node = v.holds_node in
    let back = v.back_guard in
    let region : IsRegion storage l.block_stride l.block_count = record {
      positive = positive;
      node_fits = omega arith;
      fits = omega arith;
    } in
    record {
      geometry = record {
        region = region;
        whole = v.storage;
        holds_node = v.holds_node;
        front_guard = v.front_guard;
        back_guard = v.back_guard;
        unguarded = v.unguarded;
      };
      free_list = initialize_free_list-IsFreeList region m;
      fast = refl;
      tracks = build-Tracks options.diagnostics l.block_count;
      intact = λ _ i inside live.
          absurd (false≢true (sym live ∙ ground (arith, has-indices l.block_count i [])));
    }

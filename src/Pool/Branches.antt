-- ===== src/Pool/Branches.antt =====
-- `deallocate` of src/fixed_size_memory_pool.cpp, one equation for each branch.
use fixed_size_memory_pool.Base.{
  ℕ, ◌+◌, ◌-◌, ◌<◌, ◌≡◌, ◌≢◌, refl, inl, inr, ◌⊎◌, List, arith, Bool, true, ◌||◌, if◌then◌else◌,
  if_true, or_true, Error, Result, ok, err, memory_corruption, Option, ◌∙◌, ap, Bool-cases, ne→==,
}
use fixed_size_memory_pool.Memory.{Ptr, Memory, load_word}
use fixed_size_memory_pool.Guard.{
  guard_size, front_canary, back_canary, validate_and_prepare_freed_memory,
}
use fixed_size_memory_pool.Guard.Detection.{validate-corrupted}
use fixed_size_memory_pool.Statistics.{PoolStatistics, record_deallocation}
use fixed_size_memory_pool.Diagnostics.{BlockState}
use fixed_size_memory_pool.Pool.{
  Pool, deallocate, deallocate_block, finish_deallocate, push, unmark, count_deallocation,
}
use fixed_size_memory_pool.Pool.Addresses.{
  IsGeometry, payload, raw_block, block_index-payload, payload_bounds, raw_block_from_payload_lem,
}

pub count_deallocation-statistics :
    (p : Pool) → (s : PoolStatistics) × (count_deallocation p ≡ record p { statistics = s })
unfolding count_deallocation
count_deallocation-statistics p = elim (Bool-cases p.options.collect_statistics) [
  | inl on ↦ (record_deallocation p.statistics, rw on refl)
  | inr off ↦ (p.statistics, rw off refl)
]

-- The two paths, past the checks of the pointer.
pub deallocate_found :
    (m : Memory) (p : Pool) (i : ℕ)
    → IsGeometry p
    → i < p.block_count
    → deallocate m p (payload p i) ≡ (
        if p.fast_path
        then ((push m p (raw_block p i)).0, (push m p (raw_block p i)).1, ok tt)
        else deallocate_block m p (raw_block p i) i)
unfolding deallocate
deallocate_found m p i g inside =
    let bounds = payload_bounds g i inside in
    rw
      (
        ne→== (payload p i) 0 (omega arith),
        block_index-payload g i inside,
        raw_block_from_payload_lem g i,
      )
      refl

abbrev pub pushed : Memory → Ptr → Pool → Memory × Pool × Result (Unit {0})
pushed m raw p = ((push m p raw).0, (push m p raw).1, ok tt)

pub finish_deallocate_marked :
    (m : Memory) (p : Pool) (raw : Ptr) (i : ℕ) (marked : Option (List BlockState))
    → unmark p.diagnostic_state i ≡ ok marked
    → finish_deallocate m p raw i
      ≡ pushed m raw (count_deallocation (record p { diagnostic_state = marked }))
unfolding finish_deallocate
finish_deallocate_marked m p raw i marked e = rw (finish_deallocate, e) refl

pub finish_deallocate_refused :
    (m : Memory) (p : Pool) (raw : Ptr) (i : ℕ) (e : Error)
    → unmark p.diagnostic_state i ≡ err e
    → finish_deallocate m p raw i ≡ (m, p, err e)
unfolding finish_deallocate
finish_deallocate_refused m p raw i e h = rw (finish_deallocate, h) refl

abbrev pub check_guards : Memory → Pool → Ptr → Result Memory
check_guards m p raw =
    if p.options.poison_memory || p.options.guard_bytes
    then validate_and_prepare_freed_memory m raw p.payload_offset p.block_size
        p.options.poison_memory p.options.guard_bytes
    else ok m

pub deallocate_block_checked :
    (m : Memory) (p : Pool) (raw : Ptr) (i : ℕ) (checked : Memory)
    → check_guards m p raw ≡ ok checked
    → deallocate_block m p raw i ≡ finish_deallocate checked p raw i
unfolding deallocate_block
deallocate_block_checked m p raw i checked e =
    ap
      (λ (r : Result Memory). elim r [ err x ↦ (m, p, err x) | ok c ↦ finish_deallocate c p raw i ])
      e

pub deallocate_block_corrupted :
    (m : Memory) (p : Pool) (raw : Ptr) (i : ℕ) (x : Error)
    → check_guards m p raw ≡ err x
    → deallocate_block m p raw i ≡ (m, p, err x)
unfolding deallocate_block
deallocate_block_corrupted m p raw i x e =
    ap
      (λ (r : Result Memory). elim r [ err x ↦ (m, p, err x) | ok c ↦ finish_deallocate c p raw i ])
      e

pub check_guards_broken :
    (m : Memory) (p : Pool) (raw : Ptr)
    → p.options.guard_bytes ≡ true
    → (load_word m (raw + p.payload_offset - guard_size) ≢ front_canary)
      ⊎ (load_word m (raw + p.payload_offset + p.block_size) ≢ back_canary)
    → check_guards m p raw ≡ err memory_corruption
check_guards_broken m p raw guarded broken =
    ap
      (λ (g : Bool).
        if p.options.poison_memory || g
        then validate_and_prepare_freed_memory m raw p.payload_offset p.block_size
            p.options.poison_memory g
        else ok m)
      guarded
    ∙ if_true _ _ (or_true p.options.poison_memory)
    ∙ validate-corrupted m raw p.payload_offset p.block_size p.options.poison_memory broken

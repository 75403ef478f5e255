-- ===== src/Pool/DoubleFree.antt =====
-- `deallocate` of src/fixed_size_memory_pool.cpp on a block that is already free.
use fixed_size_memory_pool.Base.{
  ℕ, ◌+◌, ◌*◌, ◌<◌, ◌≤◌, ◌≡◌, refl, ap, subst, ◌∙◌, inl, inr, List, has, arith, Bool, true, false,
  ◌||◌, if◌then◌else◌, if_false, ok, err, double_free,
}
use fixed_size_memory_pool.Memory.{Memory, load_word, load_bytes, fill}
use fixed_size_memory_pool.Memory.Laws.{fill-inside, load_bytes-same}
use fixed_size_memory_pool.FreeList.Region.{block_end}
use fixed_size_memory_pool.FreeList.Chain.{Chain-link}
use fixed_size_memory_pool.Guard.{freed_pattern, validate_and_prepare_freed_memory}
use fixed_size_memory_pool.Pool.{Pool, PoolOptions, enabled, deallocate}
use fixed_size_memory_pool.Pool.Addresses.{payload, raw_block}
use fixed_size_memory_pool.Pool.Invariant.{IsPool, Tracks, unmark_twice, no_options}
use fixed_size_memory_pool.Pool.Branches.{
  deallocate_found, finish_deallocate_refused, check_guards, deallocate_block_checked,
}

abbrev freed_word : ℕ
freed_word = 0xDDDDDDDDDDDDDDDD

options_enabled : (o : PoolOptions) → o.diagnostics ≡ enabled → no_options o ≡ false
options_enabled o on = rw on refl

module _ {m : Memory} {p : Pool} {i : ℕ} {list : List ℕ} (v : IsPool m p list)
    (inside : i < p.block_count) (member : has i list ≡ true)
    (diagnosed : p.options.diagnostics ≡ enabled) (unguarded : p.options.guard_bytes ≡ false) where
  deallocate_checked :
      (m' : Memory)
      → check_guards m p (raw_block p i) ≡ ok m'
      → deallocate m p (payload p i) ≡ (m', p, err double_free)
  deallocate_checked m' checked =
      let slow : p.fast_path ≡ false = v.fast ∙ options_enabled p.options diagnosed in
      let tracked =
        subst (λ mode. Tracks mode p.diagnostic_state p.block_count list) diagnosed v.tracks in
      deallocate_found m p i v.geometry inside
      ∙ if_false _ _ slow
      ∙ deallocate_block_checked m p (raw_block p i) i m' checked
      ∙ finish_deallocate_refused m' p (raw_block p i) i double_free
          (unmark_twice p.block_count i list p.diagnostic_state inside member tracked)

  abbrev pub poisoned : Memory
  poisoned = fill p.block_size m (payload p i) freed_pattern

  guards_poison : p.options.poison_memory ≡ true → check_guards m p (raw_block p i) ≡ ok poisoned
  unfolding validate_and_prepare_freed_memory
  guards_poison poison =
      ap
        (λ (b : Bool).
          if b || p.options.guard_bytes
          then validate_and_prepare_freed_memory m (raw_block p i) p.payload_offset p.block_size b
              p.options.guard_bytes
          else ok m)
        poison
      ∙ ap
          (λ (g : Bool).
            validate_and_prepare_freed_memory m (raw_block p i) p.payload_offset p.block_size true
              g)
          unguarded

  guards_plain : p.options.poison_memory ≡ false → check_guards m p (raw_block p i) ≡ ok m
  guards_plain plain =
      ap
        (λ (b : Bool).
          if b || p.options.guard_bytes
          then validate_and_prepare_freed_memory m (raw_block p i) p.payload_offset p.block_size b
              p.options.guard_bytes
          else ok m)
        plain
      ∙ ap
          (λ (g : Bool).
            if false || g
            then validate_and_prepare_freed_memory m (raw_block p i) p.payload_offset p.block_size
                false g
            else ok m)
          unguarded

  -- In diagnostic mode and without guards or poison, returning a free block throws DoubleFreeError
  -- and leaves the memory and the pool as they were.
  pub deallocate_twice :
      p.options.poison_memory ≡ false → deallocate m p (payload p i) ≡ (m, p, err double_free)
  deallocate_twice plain = deallocate_checked m (guards_plain plain)

  poisoned_link : load_word poisoned (raw_block p i) ≡ freed_word
  unfolding load_bytes
  poisoned_link =
      let node = v.geometry.holds_node in
      let offset = v.geometry.unguarded unguarded in
      load_bytes-same 8 (raw_block p i) (λ _. freed_pattern) poisoned
        (λ a lo hi.
          fill-inside p.block_size m (payload p i) freed_pattern a (omega (arith, offset))
            (omega (arith, offset, node)))

  link_in_storage :
      (m' : Memory)
      → IsPool m' p list
      → load_word m' (raw_block p i) ≡ freed_word
      → p.storage + p.block_stride * p.block_count ≤ freed_word
      → ⊥
  link_in_storage m' w link low =
      elim (Chain-link p.storage p.block_stride p.block_count m' list p.free_head i
        w.free_list.chain member) [
          | inl last ↦ absurd (omega (arith, last, link))
          | inr (j, below, next) ↦
              let end = block_end v.geometry.region j below in
              let node = v.geometry.holds_node in
              let back = v.geometry.back_guard in absurd (omega (arith, next, link))
        ]

  -- In diagnostic mode, with poison and without guards, returning a free block throws
  -- DoubleFreeError, but only after the poison has overwritten the link inside the block: no
  -- pool in a storage below 0xDDDDDDDDDDDDDDDD is well formed afterwards with its list of free
  -- blocks.
  pub deallocate_twice_poisoned :
      p.options.poison_memory ≡ true
      → p.storage + p.block_stride * p.block_count ≤ freed_word
      → (deallocate m p (payload p i) ≡ (poisoned, p, err double_free)) × ¬ IsPool poisoned p list
  deallocate_twice_poisoned poison low = (
    deallocate_checked poisoned (guards_poison poison),
    λ w. link_in_storage poisoned w poisoned_link low,
  )

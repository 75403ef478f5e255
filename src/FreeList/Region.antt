-- ===== src/FreeList/Region.antt =====
-- A run of equal blocks in memory: the addresses of different blocks, and the index of an address.
use native.Mathlib.Nat.{mul-div_cancel, div-add-mod', mul-le-mul_right, div-lt_iff_lt-mul}
use native.Mathlib.Decide.{dec_lt}
use fixed_size_memory_pool.Base.{
  ℕ, suc, ◌+◌, ◌-◌, ◌*◌, ◌/◌, ◌%◌, ◌≤◌, ◌<◌, ◌≡◌, ◌≢◌, ◌⊎◌, inl, inr, arith, size_mod, sub_word,
}
use fixed_size_memory_pool.FreeList.{block_at}

-- Storage that is not null, ends below the top of the address space, and has blocks that hold a node.
pub record IsRegion (storage stride count : ℕ) : Type 0 where
  pub positive : 0 < storage
  pub node_fits : 8 ≤ stride
  pub fits : storage + stride * count < size_mod

stride_step : (i j stride : ℕ) → i < j → i * stride + stride ≤ j * stride
stride_step i j stride h = omega (arith, mul-le-mul_right {m = suc i} {n = j} stride h)

module _ {storage stride count : ℕ} (r : IsRegion storage stride count) where
  -- Different blocks do not overlap.
  pub block_apart :
      (i j : ℕ)
      → i ≢ j
      → (block_at storage stride i + stride ≤ block_at storage stride j)
        ⊎ (block_at storage stride j + stride ≤ block_at storage stride i)
  block_apart i j h = elim (dec_lt i j) [
    | yes p ↦ inl (omega (arith, stride_step i j stride p))
    | no p ↦ inr (omega (arith, stride_step j i stride (omega arith)))
  ]

  pub block_end :
      (i : ℕ) → i < count → block_at storage stride i + stride ≤ storage + stride * count
  block_end i h = omega (arith, stride_step i count stride h)

  pub block_bounds :
      (i : ℕ) → i < count → (0 < block_at storage stride i) × (block_at storage stride i < size_mod)
  block_bounds i h = (omega (arith, r.positive), omega (arith, block_end i h, r.fits, r.node_fits))

  pub block_offset : (i : ℕ) → i < count → sub_word (block_at storage stride i) storage ≡ i * stride
  block_offset i h = omega (arith, block_end i h, r.fits)

  pub block_index_lem :
      (i : ℕ) → i < count → sub_word (block_at storage stride i) storage / stride ≡ i
  block_index_lem i h =
      rw (block_offset i h) (mul-div_cancel i {n = stride} (omega (arith, r.node_fits)))

  -- An address in the storage, at a multiple of the stride, is the start of a block.
  pub block_of_offset :
      (p : ℕ)
      → storage ≤ p
      → p < storage + stride * count
      → sub_word p storage % stride ≡ 0
      → (p ≡ block_at storage stride (sub_word p storage / stride))
        × (sub_word p storage / stride < count)
  block_of_offset p lo hi whole =
      let offset : sub_word p storage ≡ p - storage = omega (arith, r.fits) in
      let split = div-add-mod' (sub_word p storage) stride in
      let inside =
        div-lt_iff_lt-mul {k = stride} {x = sub_word p storage} {y = count}
          (omega (arith, r.node_fits)) in
      (omega arith, inside.1 (omega arith))

  -- A node takes eight bytes, so a counter of blocks never wraps.
  pub count_fits : 8 * count < size_mod
  count_fits = omega (arith, mul-le-mul_right {m = 8} {n = stride} count r.node_fits, r.fits)

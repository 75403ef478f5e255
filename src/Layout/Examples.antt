-- ===== src/Layout/Examples.antt =====
-- The layout theorems at 24-byte blocks with guards, and tests of the defaults.
use fixed_size_memory_pool.Base.{
  ◌≡◌, inl, refl, true, arith, ok, err, invalid_argument, length_error, size_max, ltb,
  if◌then◌else◌,
}
use fixed_size_memory_pool.Layout.{
  BlockLayout, make_block_layout, round_up, validate_alignment, checked_add, checked_multiply,
  guarded_offset, guarded_stride,
}
use fixed_size_memory_pool.Layout.Rounding.{IsAlignment}
use fixed_size_memory_pool.Layout.Ideal.{ideal_layout, make_block_layout-ideal_layout}
use fixed_size_memory_pool.Layout.Geometry.{
  IsLayout, make_block_layout-IsLayout, make_block_layout_refused,
}

sixteen-IsAlignment : IsAlignment 16
sixteen-IsAlignment = record { power = (4, refl); fits = omega arith }

eight-IsAlignment : IsAlignment 8
eight-IsAlignment = record { power = (3, refl); fits = omega arith }

-- 24 bytes are rounded to 32, the guards take the offset to 16 and the stride to 64.
abbrev guarded_layout : BlockLayout
guarded_layout = record {
  block_size = 32;
  block_count = 4;
  alignment = 16;
  payload_offset = 16;
  block_stride = 64;
  storage_size = 256;
}

guarded_layout_made : make_block_layout 24 4 16 true 8 8 8 ≡ ok guarded_layout
unfolding make_block_layout round_up validate_alignment checked_add checked_multiply guarded_offset
    guarded_stride
guarded_layout_made = refl

make_block_layout-ideal_layout_example :
    let ideal = ideal_layout 24 4 16 true 8 8 8 in
    make_block_layout 24 4 16 true 8 8 8
    ≡ (if ltb size_max ideal.storage_size then err length_error else ok ideal)
make_block_layout-ideal_layout_example =
    make_block_layout-ideal_layout 24 4 16 true 8 8 8 (omega arith) (omega arith) (omega arith)
      (omega arith) (omega arith) sixteen-IsAlignment eight-IsAlignment

make_block_layout-IsLayout_example : IsLayout 24 4 16 true 8 8 8 guarded_layout
make_block_layout-IsLayout_example =
    make_block_layout-IsLayout 24 4 16 true 8 8 8 (omega arith) (omega arith) (omega arith)
      (omega arith) (omega arith) eight-IsAlignment guarded_layout guarded_layout_made

make_block_layout_refused_example : make_block_layout 24 0 16 true 8 8 8 ≡ err invalid_argument
make_block_layout_refused_example =
    make_block_layout_refused 24 0 16 true 8 8 8 (omega arith) (inl refl)

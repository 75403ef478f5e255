-- ===== src/Layout/Geometry.antt =====
-- What every layout that `make_block_layout` returns gives its users: room for the payload, the
-- free-list node and the guards, aligned payloads, and a storage size that fits a word.
use fixed_size_memory_pool.Base.{
  ℕ, zero, suc, ◌+◌, ◌*◌, ◌≤◌, ◌<◌, ◌≡◌, refl, inl, inr, ◌⊎◌, max, Bool, true, false, if◌then◌else◌,
  ok, err, invalid_argument, size_mod, size_max, arith, lt→ltb, le→ltb, ne→==,
}
use mathlib.Core.Path.{subst, sym}
use mathlib.Core.Bool.{false≢true}
use native.Mathlib.Decide.{dec_lt}
use fixed_size_memory_pool.Base.Bits.{IsPowerOfTwo}
use fixed_size_memory_pool.Layout.{BlockLayout, make_block_layout}
use fixed_size_memory_pool.Layout.Rounding.{
  IsAlignment, IsAlignment-pos, round_to, round_to_lower, round_to_multiple,
  validate_alignment_cases,
}
use fixed_size_memory_pool.Layout.Ideal.{
  ideal_layout, max-IsAlignment, make_block_layout-ideal_layout,
}

abbrev pub IsMultiple : ℕ → ℕ → Type 0
IsMultiple a n = (q : ℕ) × (n ≡ q * a)

pub record IsLayout (size count requested : ℕ) (guarded : Bool)
    (node_size node_alignment guard_size : ℕ) (l : BlockLayout) : Type 0 where
  pub block_count : l.block_count ≡ count
  pub some_blocks : 0 < l.block_count
  pub alignment : IsAlignment l.alignment
  pub aligned_as_requested : requested ≤ l.alignment
  pub aligned_for_nodes : node_alignment ≤ l.alignment
  pub block_aligned : IsMultiple l.alignment l.block_size
  pub offset_aligned : IsMultiple l.alignment l.payload_offset
  pub stride_aligned : IsMultiple l.alignment l.block_stride
  pub holds_payload : size ≤ l.block_size
  pub holds_node : node_size ≤ l.block_size
  pub front_guard : (if guarded then guard_size else 0) ≤ l.payload_offset
  pub back_guard :
      l.payload_offset + l.block_size + (if guarded then guard_size else 0) ≤ l.block_stride
  pub unguarded : guarded ≡ false → l.payload_offset ≡ 0
  pub storage : l.storage_size ≡ l.block_stride * l.block_count
  pub storage_fits : l.storage_size < size_mod

ideal_layout-IsLayout :
    (size count requested : ℕ) (guarded : Bool) (node_size node_alignment guard_size : ℕ)
    → 0 < count
    → IsAlignment requested
    → IsAlignment node_alignment
    → let ideal = ideal_layout size count requested guarded node_size node_alignment guard_size in
      ideal.storage_size < size_mod
      → IsLayout size count requested guarded node_size node_alignment guard_size ideal
unfolding ideal_layout
ideal_layout-IsLayout size count requested true node_size node_alignment guard_size pos vr vn fits =
    let va = max-IsAlignment vr vn in
    let a = max requested node_alignment in
    let positive = IsAlignment-pos va in
    let offset = round_to (max guard_size node_size) a in
    let block = round_to (max size node_size) a in
    let low_block = round_to_lower (max size node_size) a positive in
    let low_offset = round_to_lower (max guard_size node_size) a positive in
    let low_stride = round_to_lower (offset + block + guard_size) a positive in
    record {
      block_count = refl;
      some_blocks = pos;
      alignment = va;
      aligned_as_requested = omega arith;
      aligned_for_nodes = omega arith;
      block_aligned = round_to_multiple (max size node_size) a;
      offset_aligned = round_to_multiple (max guard_size node_size) a;
      stride_aligned = round_to_multiple (offset + block + guard_size) a;
      holds_payload = omega arith;
      holds_node = omega arith;
      front_guard = omega arith;
      back_guard = omega arith;
      unguarded = λ e. absurd (false≢true (sym e));
      storage = refl;
      storage_fits = fits;
    }
ideal_layout-IsLayout size count requested false node_size node_alignment guard_size pos vr vn
      fits =
    let va = max-IsAlignment vr vn in
    let a = max requested node_alignment in
    let positive = IsAlignment-pos va in
    let low_block = round_to_lower (max size node_size) a positive in
    record {
      block_count = refl;
      some_blocks = pos;
      alignment = va;
      aligned_as_requested = omega arith;
      aligned_for_nodes = omega arith;
      block_aligned = round_to_multiple (max size node_size) a;
      offset_aligned = (0, omega arith);
      stride_aligned = round_to_multiple (max size node_size) a;
      holds_payload = omega arith;
      holds_node = omega arith;
      front_guard = omega arith;
      back_guard = omega arith;
      unguarded = λ e. refl;
      storage = refl;
      storage_fits = fits;
    }

-- No blocks, or an alignment that is no power of two, is refused before any other computation,
-- with `invalid_argument`.
pub make_block_layout_refused :
    (size count requested : ℕ) (guarded : Bool) (node_size node_alignment guard_size : ℕ)
    → requested < size_mod
    → (count ≡ 0) ⊎ ¬ IsPowerOfTwo requested
    → make_block_layout size count requested guarded node_size node_alignment guard_size
      ≡ err invalid_argument
unfolding make_block_layout
make_block_layout_refused size zero requested guarded node_size node_alignment guard_size fits bad =
    refl
make_block_layout_refused size (suc count) requested guarded node_size node_alignment guard_size
      fits (inl bad) =
    absurd (omega arith)
make_block_layout_refused size (suc count) requested guarded node_size node_alignment guard_size
      fits (inr bad) =
    elim (validate_alignment_cases requested fits) [
      | inl (p, _) ↦ absurd (bad p)
      | inr (_, e) ↦ rw (e, ne→== (suc count) 0 (omega arith)) refl
    ]

-- A returned layout has blocks that hold the payload and the free-list node, room for both guards,
-- block size, payload offset and stride that are multiples of a power-of-two alignment, and a storage
-- size that is stride times count without wrap-around.
pub make_block_layout-IsLayout :
    (size count requested : ℕ) (guarded : Bool) (node_size node_alignment guard_size : ℕ)
    → size < size_mod
    → guard_size < size_mod
    → node_size < size_mod
    → count < size_mod
    → requested < size_mod
    → IsAlignment node_alignment
    → (l : BlockLayout)
    → make_block_layout size count requested guarded node_size node_alignment guard_size ≡ ok l
    → IsLayout size count requested guarded node_size node_alignment guard_size l
make_block_layout-IsLayout size count requested guarded node_size node_alignment guard_size hs hg hn
      hc hr vn l e =
    elim (validate_alignment_cases requested hr) [
      | inr (bad, _) ↦
          let refused =
            make_block_layout_refused size count requested guarded node_size node_alignment
              guard_size hr (inr bad) in
          absurd (cc refused)
      | inl (p, _) ↦ elim (dec_lt 0 count) [
        | no empty ↦
            let refused =
              make_block_layout_refused size count requested guarded node_size node_alignment
                guard_size hr (inl (omega arith)) in
            absurd (cc refused)
        | yes pos ↦
            let vr : IsAlignment requested = record { power = p; fits = hr } in
            let ideal =
              ideal_layout size count requested guarded node_size node_alignment guard_size in
            let made =
              make_block_layout-ideal_layout size count requested guarded node_size node_alignment
                guard_size hs hg hn hc pos vr vn in
            elim (dec_lt size_max ideal.storage_size) [
              | yes over ↦
                  let thrown = rw (lt→ltb size_max ideal.storage_size over) at made in
                  absurd (cc thrown)
              | no within ↦
                  let small = le→ltb size_max ideal.storage_size (omega arith) in
                  let built = rw small at made in
                  let same : ideal ≡ l = cc built in
                  subst (IsLayout size count requested guarded node_size node_alignment guard_size)
                    same
                    (ideal_layout-IsLayout size count requested guarded node_size node_alignment
                      guard_size pos vr vn (omega arith))
            ]
      ]
    ]

-- ===== src/Pool/Addresses.antt =====
-- Payload addresses of a fixed pool, and the pointers that its checks accept.
use native.Mathlib.Nat.{div-add-mod', mul-mod_left, mul-div_cancel}
use mathlib.Core.Bool.{false≢true}
use fixed_size_memory_pool.Base.{
  ◌||◌, ℕ, ◌+◌, ◌-◌, ◌*◌, ◌/◌, ◌%◌, ◌≤◌, ◌<◌, ◌≡◌, ◌≢◌, ◌⊎◌, refl, inl, inr, Bool, true, false,
  ◌&&◌, not, ltb, leb, ◌==◌, if◌then◌else◌, arith, sub_word, add_word, Bool-cases, ne→==, lt→ltb,
  le→leb, ltb→lt, leb→le, ==_iff, ok, err, invalid_pool_pointer, sym, ◌∙◌, ap,
}
use fixed_size_memory_pool.Memory.{Ptr, null}
use fixed_size_memory_pool.FreeList.{block_at}
use fixed_size_memory_pool.FreeList.Region.{IsRegion, block_end, block_index_lem}
use fixed_size_memory_pool.Pool.{
  Pool, owns, is_block_start, block_index, raw_block_index, raw_block_from_payload,
}

abbrev pub guard_room : Pool → ℕ
guard_room p = if p.options.guard_bytes then 8 else 0

-- The dimensions of a constructed pool fit together.
pub record IsGeometry (p : Pool) : Type 0 where
  pub region : IsRegion p.storage p.block_stride p.block_count
  pub whole : p.storage_size ≡ p.block_stride * p.block_count
  pub holds_node : 8 ≤ p.block_size
  pub front_guard : guard_room p ≤ p.payload_offset
  pub back_guard : p.payload_offset + p.block_size + guard_room p ≤ p.block_stride
  pub unguarded : p.options.guard_bytes ≡ false → p.payload_offset ≡ 0

abbrev pub raw_block : Pool → ℕ → Ptr
raw_block p i = block_at p.storage p.block_stride i

abbrev pub payload : Pool → ℕ → Ptr
payload p i = raw_block p i + p.payload_offset

start_tests :
    (x y z b c : Bool)
    → (if x || not y then false else (z && b && c)) ≡ true
    → (y ≡ true) × (z ≡ true) × (b ≡ true) × (c ≡ true)
start_tests x y z b c h = ground arith

module _ {p : Pool} (g : IsGeometry p) where
  pub owns_inside :
      (a : Ptr) → p.storage ≤ a → a < p.storage + p.block_stride * p.block_count → owns p a ≡ true
  unfolding owns
  owns_inside a lo hi =
      let top = g.region.fits in
      let whole = g.whole in
      rw (le→leb p.storage a lo, lt→ltb a (add_word p.storage p.storage_size) (omega arith))

  pub inside_of_owns :
      (a : Ptr)
      → owns p a ≡ true
      → (p.storage ≤ a) × (a < p.storage + p.block_stride * p.block_count)
  unfolding owns
  inside_of_owns a h =
      let top = g.region.fits in let whole = g.whole in (ground arith, ground arith)

  pub payload_bounds :
      (i : ℕ)
      → i < p.block_count
      → (0 < payload p i)
        × (payload p i + p.block_size ≤ p.storage + p.block_stride * p.block_count)
  payload_bounds i h =
      let end = block_end g.region i h in
      let positive = g.region.positive in let room = g.back_guard in (omega arith, omega arith)

  pub payload_offset_lem :
      (i : ℕ)
      → i < p.block_count
      → sub_word (payload p i) p.storage ≡ i * p.block_stride + p.payload_offset
  payload_offset_lem i h = let bounds = payload_bounds i h in let top = g.region.fits in omega arith

  payload_start :
      (i : ℕ)
      → i < p.block_count
      → sub_word (sub_word (payload p i) p.storage) p.payload_offset ≡ i * p.block_stride
  payload_start i h =
      let bounds = payload_bounds i h in
      let top = g.region.fits in rw (payload_offset_lem i h) (omega arith)

  pub is_block_start-payload : (i : ℕ) → i < p.block_count → is_block_start p (payload p i) ≡ true
  unfolding is_block_start
  is_block_start-payload i h =
      let bounds = payload_bounds i h in
      let node = g.holds_node in
      let stride : 0 < p.block_stride = omega (arith, g.region.node_fits) in
      let below : leb p.payload_offset (sub_word (payload p i) p.storage) ≡ true =
        le→leb _ _ (omega (arith, payload_offset_lem i h)) in
      rw (
        ne→== (payload p i) 0 (omega arith),
        owns_inside (payload p i) (omega arith) (omega arith),
        below,
        payload_start i h,
        mul-mod_left i p.block_stride,
        mul-div_cancel i {n = p.block_stride} stride,
        lt→ltb i p.block_count h,
      )

  pub block_index-payload : (i : ℕ) → i < p.block_count → block_index p (payload p i) ≡ ok i
  unfolding block_index
  block_index-payload i h =
      let stride : 0 < p.block_stride = omega (arith, g.region.node_fits) in
      rw
        (
          is_block_start-payload i h,
          payload_start i h,
          mul-div_cancel i {n = p.block_stride} stride,
        )
        refl

  pub raw_block_index-raw_block :
      (i : ℕ) → i < p.block_count → raw_block_index p (raw_block p i) ≡ i
  unfolding raw_block_index
  raw_block_index-raw_block i h = block_index_lem g.region i h

  pub payload_of_start :
      (a : Ptr) → is_block_start p a ≡ true → (i : ℕ) × (i < p.block_count) × (a ≡ payload p i)
  unfolding is_block_start
  payload_of_start a h =
      let rest = sub_word (sub_word a p.storage) p.payload_offset in
      let (mine, above, whole, below) =
        start_tests (a == null) (owns p a) (leb p.payload_offset (sub_word a p.storage))
          (rest % p.block_stride == 0) (ltb (rest / p.block_stride) p.block_count) h in
      let inside = inside_of_owns a mine in
      let top = g.region.fits in
      let offset : sub_word a p.storage ≡ a - p.storage = omega arith in
      let high : p.payload_offset ≤ sub_word a p.storage = leb→le _ _ above in
      let start : rest ≡ a - p.storage - p.payload_offset = omega arith in
      let split = div-add-mod' rest p.block_stride in
      let exact : rest % p.block_stride ≡ 0 = (==_iff _ 0).0 whole in
      (rest / p.block_stride, ltb→lt _ _ below, omega arith)

  -- `block_index` finds the block of a payload address, and throws on every other pointer.
  pub block_index_cases :
      (a : Ptr)
      → ((i : ℕ) × (i < p.block_count) × (a ≡ payload p i) × (block_index p a ≡ ok i))
        ⊎ (((i : ℕ) → i < p.block_count → a ≢ payload p i)
            × (block_index p a ≡ err invalid_pool_pointer))
  unfolding block_index
  block_index_cases a = elim (Bool-cases (is_block_start p a)) [
    | inl start ↦
        let (i, inside, at) = payload_of_start a start in
        inl (i, inside, at, ap (block_index p) at ∙ block_index-payload i inside)
    | inr foreign ↦ inr (
      λ i inside at.
          false≢true (sym foreign ∙ ap (is_block_start p) at ∙ is_block_start-payload i inside),
      rw foreign refl,
    )
  ]

  pub raw_block_from_payload_lem : (i : ℕ) → raw_block_from_payload p (payload p i) ≡ raw_block p i
  unfolding raw_block_from_payload
  raw_block_from_payload_lem i = omega arith

-- ===== src/Guard/Detection.antt =====
-- What the canaries detect.
use fixed_size_memory_pool.Base.{
  ◌∙◌, ℕ, ◌+◌, ◌-◌, ◌≤◌, ◌≡◌, ◌≢◌, ◌⊎◌, inl, inr, refl, arith, Bool, true, false, ok, err,
  memory_corruption, ne→==, if◌then◌else◌,
}
use fixed_size_memory_pool.Memory.{Ptr, Memory, store_word, load_word, fill}
use fixed_size_memory_pool.Memory.Laws.{
  SameBytes, load_bytes-same, load_bytes-store_bytes, load_bytes-store_bytes_apart,
  store_bytes-Outside, fill-Outside, Outside,
}
use fixed_size_memory_pool.Guard.{
  guard_size, front_canary, back_canary, allocated_pattern, freed_pattern, write_canaries,
  canaries_are_valid, prepare_allocated_memory, validate_and_prepare_freed_memory,
}

-- The canaries that were written are found valid.
pub write_canaries-valid :
    (m : Memory) (payload : Ptr) (block_size : ℕ)
    → guard_size ≤ payload
    → canaries_are_valid (write_canaries m payload block_size) payload block_size ≡ true
unfolding canaries_are_valid write_canaries
write_canaries-valid m payload block_size room =
    let front = store_word m (payload - guard_size) front_canary in
    let back = load_bytes-store_bytes 8 front (payload + block_size) back_canary (omega arith) in
    let kept =
      load_bytes-store_bytes_apart 8 8 front (payload + block_size) (payload - guard_size)
        back_canary (omega arith) in
    let first = load_bytes-store_bytes 8 m (payload - guard_size) front_canary (omega arith) in
    rw (back, kept, first)

-- The bytes of a payload and of both its guards, and of the payload alone.
abbrev pub SameGuards : Ptr → ℕ → Memory → Memory → Type 0
SameGuards payload block_size m m' =
    SameBytes guard_size (payload - guard_size) m m'
    × SameBytes guard_size (payload + block_size) m m'

pub canaries-same :
    (m m' : Memory) (payload : Ptr) (block_size : ℕ)
    → SameGuards payload block_size m m'
    → canaries_are_valid m' payload block_size ≡ canaries_are_valid m payload block_size
unfolding canaries_are_valid
canaries-same m m' payload block_size (front, back) = rw (
  load_bytes-same 8 (payload - guard_size) m m' front,
  load_bytes-same 8 (payload + block_size) m m' back,
)

poison-same :
    (m : Memory) (payload : Ptr) (block_size : ℕ) (poison_memory : Bool) (pattern_byte : ℕ)
    (a : Ptr)
    → Outside block_size payload a
    → (if poison_memory then fill block_size m payload pattern_byte else m) a ≡ m a
poison-same m payload block_size true pattern_byte a out =
    fill-Outside block_size m payload pattern_byte a out
poison-same m payload block_size false pattern_byte a out = refl

module _ (m : Memory) (raw_block : Ptr) (payload_offset block_size : ℕ) (poison_memory : Bool) where
  -- Preparing a block writes inside it.
  pub prepare-same :
      (guard_bytes : Bool) (stride : ℕ)
      → (if guard_bytes then 8 else 0) ≤ payload_offset
      → payload_offset + block_size + (if guard_bytes then 8 else 0) ≤ stride
      → (a : Ptr) → Outside stride raw_block a
      → prepare_allocated_memory m raw_block payload_offset block_size poison_memory guard_bytes a
        ≡ m a
  unfolding prepare_allocated_memory write_canaries
  prepare-same true stride front back a out =
      let payload = raw_block + payload_offset in
      store_bytes-Outside 8 _ (payload + block_size) back_canary a (omega arith)
      ∙ store_bytes-Outside 8 _ (payload - guard_size) front_canary a (omega arith)
      ∙ poison-same m payload block_size poison_memory allocated_pattern a (omega arith)
  prepare-same false stride front back a out =
      poison-same m (raw_block + payload_offset) block_size poison_memory allocated_pattern a
        (omega arith)

  -- A prepared block has valid canaries.
  pub prepare-valid :
      8 ≤ payload_offset
      → canaries_are_valid
          (prepare_allocated_memory m raw_block payload_offset block_size poison_memory true)
          (raw_block + payload_offset)
          block_size
        ≡ true
  unfolding prepare_allocated_memory
  prepare-valid room = write_canaries-valid _ (raw_block + payload_offset) block_size (omega arith)

  -- Where the canaries are valid, or there are none, the check passes and writes in the payload only.
  pub validate-ok :
      (guard_bytes : Bool)
      → (guard_bytes ≡ true → canaries_are_valid m (raw_block + payload_offset) block_size ≡ true)
      → (m' : Memory) × (validate_and_prepare_freed_memory m raw_block payload_offset block_size
            poison_memory guard_bytes
          ≡ ok m')
        × ((a : Ptr) → Outside block_size (raw_block + payload_offset) a → m' a ≡ m a)
  unfolding validate_and_prepare_freed_memory
  validate-ok true valid = (
    if poison_memory then fill block_size m (raw_block + payload_offset) freed_pattern else m,
    rw (valid refl) refl,
    poison-same m (raw_block + payload_offset) block_size poison_memory freed_pattern,
  )
  validate-ok false valid = (
    if poison_memory then fill block_size m (raw_block + payload_offset) freed_pattern else m,
    refl,
    poison-same m (raw_block + payload_offset) block_size poison_memory freed_pattern,
  )

  -- Where a guard word is not what was written, the check throws, whatever the poison setting.
  pub validate-corrupted :
      (load_word m (raw_block + payload_offset - guard_size) ≢ front_canary)
        ⊎ (load_word m (raw_block + payload_offset + block_size) ≢ back_canary)
      → validate_and_prepare_freed_memory m raw_block payload_offset block_size poison_memory true
        ≡ err memory_corruption
  unfolding validate_and_prepare_freed_memory canaries_are_valid
  validate-corrupted (inl front) = rw (ne→== _ _ front) refl
  validate-corrupted (inr back) = ground (arith, ne→== _ _ back)

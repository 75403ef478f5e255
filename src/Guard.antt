-- ===== src/Guard.antt =====
-- src/detail/memory_guard.cpp: canaries around a payload, and poison patterns inside it.
pub mod Detection
use fixed_size_memory_pool.Base.{
  ℕ, ◌+◌, ◌-◌, Bool, not, ◌&&◌, ◌==◌, if◌then◌else◌, Result, ok, err, memory_corruption,
}
use fixed_size_memory_pool.Memory.{Ptr, Memory, store_word, load_word, fill}

abbrev pub guard_size : ℕ
guard_size = 8

abbrev pub front_canary : ℕ
front_canary = 0xA110CA7EA110CA7E

abbrev pub back_canary : ℕ
back_canary = 0xB10CCAFEB10CCAFE

abbrev pub allocated_pattern : ℕ
allocated_pattern = 0xCD

abbrev pub freed_pattern : ℕ
freed_pattern = 0xDD

-- The payload lies at least `guard_size` bytes into its block, so `-` does not stop at 0.
unfoldable pub write_canaries : Memory → Ptr → ℕ → Memory
write_canaries m payload block_size =
    store_word (store_word m (payload - guard_size) front_canary) (payload + block_size) back_canary

unfoldable pub canaries_are_valid : Memory → Ptr → ℕ → Bool
canaries_are_valid m payload block_size =
    (load_word m (payload - guard_size) == front_canary)
    && (load_word m (payload + block_size) == back_canary)

unfoldable pub prepare_allocated_memory :
    Memory
    → (raw_block : Ptr) → (payload_offset block_size : ℕ) → (poison_memory guard_bytes : Bool)
    → Memory
prepare_allocated_memory m raw_block payload_offset block_size poison_memory guard_bytes =
    let payload = raw_block + payload_offset in
    let poisoned = if poison_memory then fill block_size m payload allocated_pattern else m in
    if guard_bytes then write_canaries poisoned payload block_size else poisoned

unfoldable pub validate_and_prepare_freed_memory :
    Memory
    → (raw_block : Ptr) → (payload_offset block_size : ℕ) → (poison_memory guard_bytes : Bool)
    → Result Memory
validate_and_prepare_freed_memory m raw_block payload_offset block_size poison_memory guard_bytes =
    let payload = raw_block + payload_offset in
    if guard_bytes && not (canaries_are_valid m payload block_size)
    then err memory_corruption
    else ok (if poison_memory then fill block_size m payload freed_pattern else m)

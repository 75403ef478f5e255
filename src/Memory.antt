-- ===== src/Memory.antt =====
-- Byte-addressed memory, and the object representations that the sources read and write in it:
-- little-endian words (`FreeNode::next`, the canaries, by `memcpy` or placement new) and runs of one
-- byte (`memset`). An address is a number; 0 is the null pointer.
pub mod Laws
use fixed_size_memory_pool.Base.{ℕ, zero, suc, ◌+◌, ◌*◌, ◌/◌, ◌%◌, ◌==◌, if◌then◌else◌}

abbrev pub Ptr : Type 0
Ptr = ℕ

abbrev pub null : Ptr
null = 0

abbrev pub Memory : Type 0
Memory = Ptr → ℕ

unfoldable pub write_byte : Memory → Ptr → ℕ → Memory
write_byte m p b a = if a == p then b else m a

-- The `n` low bytes of a value, lowest first.
unfoldable pub store_bytes : ℕ → Memory → Ptr → ℕ → Memory
store_bytes zero m p v = m
store_bytes (suc n) m p v = write_byte (store_bytes n m (p + 1) (v / 256)) p (v % 256)

unfoldable pub load_bytes : ℕ → Memory → Ptr → ℕ
load_bytes zero m p = 0
load_bytes (suc n) m p = m p + 256 * load_bytes n m (p + 1)

-- `memset(p, b, n)`.
unfoldable pub fill : ℕ → Memory → Ptr → ℕ → Memory
fill zero m p b = m
fill (suc n) m p b = write_byte (fill n m (p + 1) b) p b

abbrev pub store_word : Memory → Ptr → ℕ → Memory
store_word = store_bytes 8

abbrev pub load_word : Memory → Ptr → ℕ
load_word = load_bytes 8

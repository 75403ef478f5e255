-- ===== src/Memory/Laws.antt =====
-- Reads after writes: the bytes written, and those that a write leaves alone.
use native.Mathlib.Nat.{pow-suc}
use fixed_size_memory_pool.Base.{ℕ, zero, suc, ◌+◌, ◌/◌, ◌%◌, ◌^◌, ◌≤◌, ◌<◌, ◌≡◌, refl, ◌⊎◌, arith}
use fixed_size_memory_pool.Memory.{Ptr, Memory, write_byte, store_bytes, load_bytes, fill}

-- An address outside the `n` bytes at `p`.
abbrev pub Outside : ℕ → Ptr → Ptr → Type 0
Outside n p a = (a < p) ⊎ (p + n ≤ a)

-- Two memories that agree on the `n` bytes at `p`.
abbrev pub SameBytes : ℕ → Ptr → Memory → Memory → Type 0
SameBytes n p m m' = (a : Ptr) → p ≤ a → a < p + n → m' a ≡ m a

pub load_bytes-same :
    (n : ℕ) (p : Ptr) (m m' : Memory) → SameBytes n p m m' → load_bytes n m' p ≡ load_bytes n m p
unfolding load_bytes
load_bytes-same zero p m m' same = refl
load_bytes-same (suc n) p m m' same = omega (
  arith,
  same p (omega arith) (omega arith),
  load_bytes-same n (p + 1) m m' (λ a lo hi. same a (omega arith) (omega arith)),
)

pub store_bytes-Outside :
    (n : ℕ) (m : Memory) (p : Ptr) (v : ℕ) (a : Ptr) → Outside n p a → store_bytes n m p v a ≡ m a
unfolding store_bytes write_byte
store_bytes-Outside zero m p v a out = refl
store_bytes-Outside (suc n) m p v a out =
    ground (arith, store_bytes-Outside n m (p + 1) (v / 256) a (omega arith))

pub fill-Outside :
    (n : ℕ) (m : Memory) (p : Ptr) (b : ℕ) (a : Ptr) → Outside n p a → fill n m p b a ≡ m a
unfolding fill write_byte
fill-Outside zero m p b a out = refl
fill-Outside (suc n) m p b a out = ground (arith, fill-Outside n m (p + 1) b a (omega arith))

pub fill-inside :
    (n : ℕ) (m : Memory) (p : Ptr) (b : ℕ) (a : Ptr) → p ≤ a → a < p + n → fill n m p b a ≡ b
unfolding fill write_byte
fill-inside zero m p b a lo hi = absurd (omega arith)
fill-inside (suc n) m p b a lo hi = ground (arith, fill-inside n m (p + 1) b a)

write_byte_self : (m : Memory) (p : Ptr) (b : ℕ) → write_byte m p b p ≡ b
unfolding write_byte
write_byte_self m p b = ground arith

write_byte_above : (m : Memory) (p : Ptr) (b n : ℕ) → SameBytes n (p + 1) m (write_byte m p b)
unfolding write_byte
write_byte_above m p b n a lo hi = ground arith

-- What was stored is loaded again, if it fits the width.
pub load_bytes-store_bytes :
    (n : ℕ) (m : Memory) (p : Ptr) (v : ℕ) → v < 256 ^ n → load_bytes n (store_bytes n m p v) p ≡ v
unfolding load_bytes store_bytes
load_bytes-store_bytes zero m p v fits = omega arith
load_bytes-store_bytes (suc n) m p v fits =
    let tail = store_bytes n m (p + 1) (v / 256) in
    let same =
      load_bytes-same n (p + 1) tail (write_byte tail p (v % 256)) (write_byte_above tail p _ n) in
    let rest = load_bytes-store_bytes n m (p + 1) (v / 256) (omega (arith, pow-suc 256 n)) in
    ground (arith, same, rest, write_byte_self tail p (v % 256))

-- A load away from a store, or from a run that was filled, sees the old memory.
pub load_bytes-store_bytes_apart :
    (k n : ℕ) (m : Memory) (p q : Ptr) (v : ℕ)
    → (q + k ≤ p) ⊎ (p + n ≤ q)
    → load_bytes k (store_bytes n m p v) q ≡ load_bytes k m q
load_bytes-store_bytes_apart k n m p q v apart =
    load_bytes-same k q m (store_bytes n m p v)
      (λ a lo hi. store_bytes-Outside n m p v a (omega arith))

pub load_bytes-fill_apart :
    (k n : ℕ) (m : Memory) (p q : Ptr) (b : ℕ)
    → (q + k ≤ p) ⊎ (p + n ≤ q)
    → load_bytes k (fill n m p b) q ≡ load_bytes k m q
load_bytes-fill_apart k n m p q b apart =
    load_bytes-same k q m (fill n m p b) (λ a lo hi. fill-Outside n m p b a (omega arith))

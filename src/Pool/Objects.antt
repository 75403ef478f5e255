-- ===== src/Pool/Objects.antt =====
-- include/memory_pool/fixed_size_memory_pool.hpp, `create` and `destroy`, and object_pool.hpp and
-- pool_ptr.hpp over them. The type `T` is its size, its alignment and its constructor and
-- destructor, which are the caller's code and act on the memory.
use fixed_size_memory_pool.Base.{
  ℕ, ltb, ◌==◌, if◌then◌else◌, Option, none, some, Result, ok, err, Error, invalid_argument,
  bad_alloc, terminate, ◌>>=◌,
}
use fixed_size_memory_pool.Memory.{Ptr, null, Memory}
use fixed_size_memory_pool.Provider.{Operators, World}
use fixed_size_memory_pool.Pool.{Pool, PoolOptions, allocate, deallocate}
use fixed_size_memory_pool.Pool.Construction.{construct}
use fixed_size_memory_pool.Pool.Integrity.{validate_allocated_pointer}

-- `construct` may throw, and leaves the memory as it is then.
pub record ObjectType : Type 0 where
  pub size : ℕ
  pub alignment : ℕ
  pub construct : Memory → Ptr → Memory × Result (Unit {0})
  pub destruct : Memory → Ptr → Memory

-- The `catch` block: the block goes back, and the exception goes on unless another is thrown.
unfoldable pub undo_create : Memory → Pool → Ptr → Error → Memory × Pool × Result Ptr
undo_create m p pointer thrown =
    let (freed, left, answer) = deallocate m p pointer in (freed, left, answer >>= λ _. err thrown)

unfoldable pub construct_in : ObjectType → Memory → Pool → Ptr → Memory × Pool × Result Ptr
construct_in t m p pointer =
    if pointer == null
    then (m, p, err bad_alloc)
    else (let (built, outcome) = t.construct m pointer in
        elim outcome [
          | ok _ ↦ (built, p, ok pointer)
          | err thrown ↦ undo_create built p pointer thrown
        ])

-- `FixedSizeMemoryPool::create`.
unfoldable pub create : ObjectType → Memory → Pool → Memory × Pool × Result Ptr
create t m p =
    if ltb p.block_size t.size
    then (m, p, err invalid_argument)
    else if ltb p.alignment t.alignment
    then (m, p, err invalid_argument)
    else elim (allocate m p) [
      | err e ↦ (m, p, err e)
      | ok (memory, taken, pointer) ↦ construct_in t memory taken pointer
    ]

-- `FixedSizeMemoryPool::destroy`.
unfoldable pub destroy : ObjectType → Memory → Pool → Ptr → Memory × Pool × Result (Unit {0})
destroy t m p pointer =
    if pointer == null then (m, p, ok tt) else elim (validate_allocated_pointer p pointer) [
      | err e ↦ (m, p, err e)
      | ok _ ↦ deallocate (t.destruct m pointer) p pointer
    ]

-- `ObjectPool::ObjectPool`.
unfoldable pub construct_object_pool :
    {S : Type 0} → Operators S → ObjectType → ℕ → PoolOptions → World S → World S × Result Pool
construct_object_pool operators t capacity options w =
    construct operators t.size capacity t.alignment options w

-- `PoolDeleter::operator()`, which is `noexcept`: a deleter without a pool is `none`, and an
-- exception ends the program.
unfoldable pub delete : ObjectType → Memory → Option Pool → Ptr → Result (Memory × Option Pool)
delete t m none pointer = if pointer == null then ok (m, none) else err terminate
delete t m (some p) pointer =
    if pointer == null
    then ok (m, some p)
    else (let (freed, left, answer) = destroy t m p pointer in
        elim answer [ err _ ↦ err terminate | ok _ ↦ ok (freed, some left) ])

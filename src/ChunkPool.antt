-- ===== src/ChunkPool.antt =====
-- include/memory_pool/chunk_pool.hpp and include/memory_pool/exhaustion_policies.hpp: a chunk
-- manager together with what happens when its chunks are full. The template parameter is a record
-- of the policy's operations over a state of its own; `std::unordered_set<void*>` is a list
-- without duplicates, and whether it can grow is a parameter.
pub mod Fallback
pub mod Leaks
mod Examples
use fixed_size_memory_pool.Base.{
  ℕ, zero, suc, Bool, true, false, not, ◌&&◌, ◌||◌, ◌==◌, if◌then◌else◌, is_some, Option, none,
  some, List, [], ◌∷◌, length, has, get_elem?, set, Result, ok, err, bad_alloc, invalid_argument,
  invalid_pool_pointer, ◌>>=◌,
}
use fixed_size_memory_pool.Memory.{Ptr, null}
use fixed_size_memory_pool.Provider.{Provider, Operators, World}
use fixed_size_memory_pool.Chunk
use fixed_size_memory_pool.Manager.{Manager, ChunkManagerOptions, find_chunk}
use fixed_size_memory_pool.Manager

pub record ExhaustionPolicy (S P : Type 0) : Type 0 where
  pub on_exhaustion : P → Manager S → World S → World S × P × Manager S × Result Ptr
  pub owns : P → Ptr → Bool
  pub try_deallocate : P → Ptr → Manager S → World S → World S × P × Bool
  pub release_all : P → Manager S → World S → World S × P
  pub fallback_allocations : P → ℕ

abbrev pub insert : Ptr → List Ptr → List Ptr
insert pointer allocations = if has pointer allocations then allocations else pointer ∷ allocations

abbrev pub erase : Ptr → List Ptr → List Ptr
erase pointer [] = []
erase pointer (a ∷ rest) =
    let later = erase pointer rest in if pointer == a then rest else a ∷ later

module _ {S : Type 0} where
  -- The members that three of the policies have in common.
  abbrev without_fallback :
      (Manager S → World S → World S × Manager S × Result Ptr) → ExhaustionPolicy S (Unit {0})
  without_fallback exhausted = record {
    on_exhaustion =
        λ p manager w. let (after, left, answer) = exhausted manager w in (after, p, left, answer);
    owns = λ p pointer. false;
    try_deallocate = λ p pointer manager w. (w, p, false);
    release_all = λ p manager w. (w, p);
    fallback_allocations = λ p. 0;
  }

  unfoldable pub return_null_on_exhaustion : ExhaustionPolicy S (Unit {0})
  return_null_on_exhaustion = without_fallback (λ manager w. (w, manager, ok null))

  unfoldable pub throw_on_exhaustion : ExhaustionPolicy S (Unit {0})
  throw_on_exhaustion = without_fallback (λ manager w. (w, manager, err bad_alloc))

  -- `allocate` on the chunk at a position of the manager.
  unfoldable pub allocate_at : Manager S → ℕ → World S → Manager S × Result Ptr
  allocate_at manager position w = elim (get_elem? manager.chunks position) [
    | none ↦ (manager, err invalid_argument)
    | some chunk ↦
        let (taken, pointer) = Chunk.allocate w.memory chunk in
        (record manager { chunks = set manager.chunks position taken }, ok pointer)
  ]

  unfoldable pub grow_and_allocate : Manager S → World S → World S × Manager S × Result Ptr
  grow_and_allocate manager w =
      let (after, grown, answer) = Manager.grow manager w in
      elim answer [
        | err e ↦ (after, grown, err e)
        | ok position ↦
            let (served, pointer) = allocate_at grown position after in (after, served, pointer)
      ]

  unfoldable pub grow_on_exhaustion : ExhaustionPolicy S (Unit {0})
  grow_on_exhaustion = without_fallback grow_and_allocate

  unfoldable pub give_back : Manager S → Ptr → World S → World S
  give_back manager pointer w = record w {
    heap = manager.provider.deallocate w.heap pointer manager.block_size manager.alignment;
  }

  -- `can_insert` says whether the set finds the memory that its new element needs.
  unfoldable pub record_fallback :
      (can_insert : List Ptr → Ptr → Bool)
      → List Ptr
      → Manager S
      → Ptr
      → World S
      → World S × List Ptr × Manager S × Result Ptr
  record_fallback can_insert allocations manager pointer w =
      if can_insert allocations pointer
      then (w, insert pointer allocations, manager, ok pointer)
      else (give_back manager pointer w, allocations, manager, err bad_alloc)

  -- `HeapFallbackOnExhaustion::on_exhaustion`.
  unfoldable pub allocate_fallback :
      (can_insert : List Ptr → Ptr → Bool)
      → List Ptr
      → Manager S
      → World S
      → World S × List Ptr × Manager S × Result Ptr
  allocate_fallback can_insert allocations manager w =
      let (heap, answer) = manager.provider.allocate w.heap manager.block_size manager.alignment in
      elim answer [
        | err e ↦ (record w { heap = heap }, allocations, manager, err e)
        | ok pointer ↦
            record_fallback can_insert allocations manager pointer (record w { heap = heap })
      ]

  unfoldable pub deallocate_fallback :
      List Ptr → Ptr → Manager S → World S → World S × List Ptr × Bool
  deallocate_fallback allocations pointer manager w =
      if not (has pointer allocations)
      then (w, allocations, false)
      else (give_back manager pointer w, erase pointer allocations, true)

  unfoldable pub give_back_all : List Ptr → Manager S → World S → World S
  give_back_all [] manager w = w
  give_back_all (pointer ∷ rest) manager w =
      give_back_all rest manager (give_back manager pointer w)

  unfoldable pub heap_fallback_on_exhaustion :
      (can_insert : List Ptr → Ptr → Bool) → ExhaustionPolicy S (List Ptr)
  heap_fallback_on_exhaustion can_insert = record {
    on_exhaustion = allocate_fallback can_insert;
    owns = λ allocations pointer. has pointer allocations;
    try_deallocate = deallocate_fallback;
    release_all = λ allocations manager w. (give_back_all allocations manager w, []);
    fallback_allocations = length;
  }

-- `BasicChunkPool`.
pub record ChunkPool (S P : Type 0) : Type 0 where
  pub manager : Manager S
  pub policy_state : P

module _ {S P : Type 0} (policy : ExhaustionPolicy S P) where
  unfoldable pub construct :
      Operators S
      → ChunkManagerOptions
      → Option (Provider S)
      → P
      → World S
      → World S × Result (ChunkPool S P)
  construct operators options provider state w =
      let (after, answer) = Manager.construct operators options provider w in
      (after, answer >>= λ manager. ok (record { manager = manager; policy_state = state }))

  unfoldable pub exhausted : ChunkPool S P → World S → World S × ChunkPool S P × Result Ptr
  exhausted pool w =
      let (after, state, manager, answer) = policy.on_exhaustion pool.policy_state pool.manager w in
      (after, record { manager = manager; policy_state = state }, answer)

  unfoldable pub allocate : ChunkPool S P → World S → World S × ChunkPool S P × Result Ptr
  allocate pool w =
      let (manager, pointer) = Manager.try_allocate w.memory pool.manager in
      if not (pointer == null)
      then (w, record pool { manager = manager }, ok pointer)
      else exhausted (record pool { manager = manager }) w

  unfoldable pub deallocate :
      ChunkPool S P → Ptr → World S → World S × ChunkPool S P × Result (Unit {0})
  deallocate pool pointer w =
      if pointer == null
      then (w, pool, ok tt)
      else if is_some (find_chunk pool.manager.chunks pointer)
      then (let (after, manager, answer) = Manager.deallocate pool.manager pointer w in
          (after, record pool { manager = manager }, answer))
      else (let (after, state, done) =
            policy.try_deallocate pool.policy_state pointer pool.manager w in
          (
            after,
            record pool { policy_state = state },
            if not done then err invalid_pool_pointer else ok tt,
          ))

  -- `~BasicChunkPool`: the policy's allocations, then the manager.
  unfoldable pub destroy : ChunkPool S P → World S → World S
  destroy pool w =
      Manager.destroy pool.manager (policy.release_all pool.policy_state pool.manager w).0

  unfoldable pub owns : ChunkPool S P → Ptr → Bool
  owns pool pointer =
      is_some (find_chunk pool.manager.chunks pointer) || policy.owns pool.policy_state pointer

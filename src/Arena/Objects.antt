-- ===== src/Arena/Objects.antt =====
-- include/memory_pool/monotonic_arena.hpp, `create`. The type `T` is its size, its alignment and its
-- constructor and destructor, which are the caller's code; the constructor may use the arena too.
use fixed_size_memory_pool.Base.{
  ℕ, Bool, not, if◌then◌else◌, Option, none, some, Result, ok, err, Error, bad_alloc,
}
use fixed_size_memory_pool.Memory.{Ptr, Memory}
use fixed_size_memory_pool.Arena.{
  Arena, allocate, rollback_last, note_object_construction, register_destructor,
}

-- What the caller's code acts on: the provider's state, the memory and the arena.
pub record ArenaWorld (S D : Type 0) : Type 0 where
  pub heap : S
  pub memory : Memory
  pub arena : Arena S D

-- `destructor` is `none` for a type that is trivially destructible.
pub record ArenaType (S D : Type 0) : Type 0 where
  pub size : ℕ
  pub alignment : ℕ
  pub construct : ArenaWorld S D → Ptr → ArenaWorld S D × Result (Unit {0})
  pub destruct : Memory → Ptr → Memory
  pub destructor : Option D

module _ {S D : Type 0} where
  -- The end of the `catch` block.
  unfoldable pub roll_back : ArenaWorld S D → Ptr → Error → ArenaWorld S D × Result Ptr
  roll_back w storage thrown = (record w { arena = rollback_last w.arena storage }, err thrown)

  abbrev pub constructed : ArenaWorld S D → ArenaWorld S D
  constructed w = record w { arena = note_object_construction w.arena }

  -- After the constructor. Whether the list of destructors finds room for one more is a parameter.
  unfoldable pub register :
      (can_register : Arena S D → Bool)
      → ArenaType S D
      → ArenaWorld S D
      → Ptr
      → ArenaWorld S D × Result Ptr
  register can_register t w object = elim t.destructor [
    | none ↦ (constructed w, ok object)
    | some destructor ↦
        if not (can_register w.arena)
        then roll_back (record w { memory = t.destruct w.memory object }) object bad_alloc
        else (
          constructed (record w { arena = register_destructor w.arena object destructor }),
          ok object,
        )
  ]

  unfoldable pub construct_at :
      (can_register : Arena S D → Bool)
      → ArenaType S D
      → ArenaWorld S D
      → Ptr
      → ArenaWorld S D × Result Ptr
  construct_at can_register t w storage =
      let (built, outcome) = t.construct w storage in
      elim outcome [
        | err e ↦ roll_back built storage e
        | ok _ ↦ register can_register t built storage
      ]

  -- `MonotonicArena::create`.
  unfoldable pub create :
      (can_register : Arena S D → Bool)
      → ArenaType S D
      → ArenaWorld S D
      → ArenaWorld S D × Result Ptr
  create can_register t w =
      let (heap, arena, answer) = allocate w.arena t.size t.alignment w.heap in
      let after = record w { heap = heap; arena = arena } in
      elim answer [
        | err e ↦ (after, err e)
        | ok storage ↦ construct_at can_register t after storage
      ]

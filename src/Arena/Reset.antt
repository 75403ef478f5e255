-- ===== src/Arena/Reset.antt =====
-- src/monotonic_arena.cpp, the end of an arena's objects: `destroy_registered_objects`, `reset` and
-- the destructor. A registered destructor is the caller's code: `run` is its effect on what it can
-- reach, which the arena itself is not part of.
use fixed_size_memory_pool.Base.{
  ℕ, ◌≡◌, refl, ◌∙◌, ap, if◌then◌else◌, List, [], ◌∷◌, length, add_word, sub_word, Bool-cases, inl,
  inr,
}
use fixed_size_memory_pool.Memory.{Ptr}
use fixed_size_memory_pool.Provider.{Provider}
use fixed_size_memory_pool.ArenaOptions.{retains_all, calculate_next_chunk_size}
use fixed_size_memory_pool.ArenaChunk.{ArenaChunk}
use fixed_size_memory_pool.Arena.{Arena, no_allocation, register_destructor}

abbrev pub rewound : ArenaChunk → ArenaChunk
rewound chunk = record chunk { offset = 0 }

unfoldable pub reset_chunks : List ArenaChunk → List ArenaChunk
reset_chunks [] = []
reset_chunks (chunk ∷ rest) = rewound chunk ∷ reset_chunks rest

unfoldable pub total_capacity : List ArenaChunk → ℕ
total_capacity [] = 0
total_capacity (chunk ∷ rest) = add_word chunk.capacity (total_capacity rest)

module _ {S : Type 0} where
  unfoldable pub release_chunks : Provider S → List ArenaChunk → S → S
  release_chunks provider [] heap = heap
  release_chunks provider (chunk ∷ rest) heap =
      release_chunks provider rest
        (provider.deallocate heap chunk.storage chunk.capacity chunk.alignment)

module _ {D U : Type 0} (run : D → Ptr → U → U) where
  -- The loop of `destroy_registered_objects`, with its count of the calls.
  unfoldable pub destroy_all : List (Ptr × D) → ℕ → U → U × ℕ
  destroy_all [] calls u = (u, calls)
  destroy_all ((object, destructor) ∷ rest) calls u =
      destroy_all rest (add_word calls 1) (run destructor object u)

  -- Every object of a list is destroyed after those behind it.
  abbrev pub destroyed_in_reverse : List (Ptr × D) → U → U
  destroyed_in_reverse [] u = u
  destroyed_in_reverse ((object, destructor) ∷ rest) u =
      run destructor object (destroyed_in_reverse rest u)

  destroy_all_calls :
      (ds : List (Ptr × D)) (calls calls' : ℕ) (u : U)
      → (destroy_all ds calls u).0 ≡ (destroy_all ds calls' u).0
  unfolding destroy_all
  destroy_all_calls [] calls calls' u = refl
  destroy_all_calls ((object, destructor) ∷ rest) calls calls' u =
      destroy_all_calls rest (add_word calls 1) (add_word calls' 1) (run destructor object u)

module _ {S D U : Type 0} (run : D → Ptr → U → U) where
  unfoldable pub destroy_registered_objects : Arena S D → U → U × Arena S D
  destroy_registered_objects arena u =
      let (after, calls) = destroy_all run arena.destructors arena.statistics.destructor_calls u in
      (
        after,
        record arena {
          destructors = [];
          statistics = record arena.statistics { destructor_calls = calls };
        },
      )

  -- What a reset does to either kind of arena before it looks at the chunks.
  unfoldable pub restart : Arena S D → Arena S D
  restart arena = record arena {
    current_chunk = 0;
    last_allocation = no_allocation;
    statistics = record arena.statistics {
      reset_calls = add_word arena.statistics.reset_calls 1;
      current_used_bytes = 0;
    };
  }

  -- The first chunk stays, and the others go back to the provider if there are any.
  unfoldable pub keep_first : Arena S D → List ArenaChunk → S → S × Arena S D
  keep_first arena [] heap = (heap, arena)
  keep_first arena (first ∷ []) heap = (
    heap,
    record arena {
      chunks = rewound first ∷ [];
      next_chunk_size = calculate_next_chunk_size arena.options arena.options.initial_chunk_size;
    },
  )
  keep_first arena (first ∷ second ∷ rest) heap =
      let others = second ∷ rest in
      (
        release_chunks arena.provider others heap,
        record arena {
          chunks = rewound first ∷ [];
          next_chunk_size =
              calculate_next_chunk_size arena.options arena.options.initial_chunk_size;
          statistics = record arena.statistics {
            chunk_releases = add_word arena.statistics.chunk_releases (length others);
            current_reserved_bytes =
                sub_word arena.statistics.current_reserved_bytes (total_capacity others);
            current_chunks = 1;
          };
        },
      )

  unfoldable pub reset : Arena S D → U → S → U × S × Arena S D
  reset arena u heap =
      let (after, destroyed) = destroy_registered_objects arena u in
      let restarted = restart destroyed in
      if retains_all arena.options.reset_policy
      then (after, heap, record restarted { chunks = reset_chunks restarted.chunks })
      else (let (freed, kept) = keep_first restarted restarted.chunks heap in (after, freed, kept))

  -- `~Impl`: the objects, then the chunks.
  unfoldable pub destroy : Arena S D → U → S → U × S
  destroy arena u heap =
      ((destroy_registered_objects arena u).0, release_chunks arena.provider arena.chunks heap)

  -- The objects of a list, registered from its head on.
  abbrev pub register_all : Arena S D → List (Ptr × D) → Arena S D
  register_all arena [] = arena
  register_all arena ((object, destructor) ∷ rest) =
      register_all (register_destructor arena object destructor) rest

  destroy_all-register_all :
      (arena : Arena S D) (objects : List (Ptr × D)) (calls : ℕ) (u : U)
      → (destroy_all run (register_all arena objects).destructors calls u).0
        ≡ (destroy_all run arena.destructors calls (destroyed_in_reverse run objects u)).0
  unfolding destroy_all register_destructor
  destroy_all-register_all arena [] calls u = refl
  destroy_all-register_all arena ((object, destructor) ∷ rest) calls u =
      destroy_all-register_all (register_destructor arena object destructor) rest calls u
      ∙ destroy_all_calls run arena.destructors (add_word calls 1) calls
          (run destructor object (destroyed_in_reverse run rest u))

  reset-destroys :
      (arena : Arena S D) (u : U) (heap : S)
      → (reset arena u heap).0
        ≡ (destroy_all run arena.destructors arena.statistics.destructor_calls u).0
  unfolding reset destroy_registered_objects
  reset-destroys arena u heap = elim (Bool-cases (retains_all arena.options.reset_policy)) [
    | inl all ↦ rw all refl
    | inr first ↦ rw first refl
  ]

  -- On an arena without registered objects, `reset` destroys the objects that are registered next in
  -- the reverse of the order in which they were registered, under either reset policy.
  pub reset-register_all :
      (arena : Arena S D) (objects : List (Ptr × D)) (u : U) (heap : S)
      → arena.destructors ≡ []
      → (reset (register_all arena objects) u heap).0 ≡ destroyed_in_reverse run objects u
  unfolding destroy_all
  reset-register_all arena objects u heap none_yet =
      let calls = (register_all arena objects).statistics.destructor_calls in
      reset-destroys (register_all arena objects) u heap
      ∙ destroy_all-register_all arena objects calls u
      ∙ ap (λ ds. (destroy_all run ds calls (destroyed_in_reverse run objects u)).0) none_yet

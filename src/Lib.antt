-- ===== src/Lib.antt =====
-- fixed-size-memory-pool is a C++ library of allocators. This development models its sequential core
-- and the allocators for several threads above it.
--
-- How the parts fit together. A fixed pool and a memory chunk each own one backing allocation of equal
-- blocks, whose dimensions `make_block_layout` computes, and keep the free blocks on a list whose links
-- lie inside the free blocks themselves. A chunk manager owns chunks and grows and shrinks their
-- number; a chunk pool adds what happens on exhaustion. The size class selector routes requests by
-- size. A segregated allocator keeps one growing chunk pool for each size class and passes what fits no
-- class to the provider. Thread caches put bins of free blocks in front of it, one for each thread and
-- class, with records of all blocks that the threads share; the synchronized allocator puts it behind
-- a mutex, and the memory resource adapter behind the interface of std::pmr. A monotonic arena
-- hands out memory in ascending order from its own chunks.
--
-- Which file models which part:
--   Base              numbers, lists, exceptions as results, 64-bit words, powers of two
--   Memory            the byte memory of the process
--   Layout            src/detail/block_layout.cpp
--   Provider          include/memory_pool/memory_provider.hpp, src/new_delete_memory_provider.cpp
--   FreeList          initialize_free_list of src/memory_chunk.cpp and src/fixed_size_memory_pool.cpp
--   Chunk             src/memory_chunk.cpp
--   Guard             src/detail/memory_guard.cpp
--   Diagnostics       src/detail/diagnostic_state.cpp
--   Statistics        src/detail/statistics_tracker.cpp
--   Pool              src/fixed_size_memory_pool.cpp, include/memory_pool/fixed_size_memory_pool.hpp;
--                     Pool/Objects also include/memory_pool/object_pool.hpp and pool_ptr.hpp
--   SizeClass         src/size_class_selector.cpp
--   Manager           src/chunk_manager.cpp, include/memory_pool/chunk_policies.hpp
--   ChunkPool         include/memory_pool/chunk_pool.hpp, exhaustion_policies.hpp
--   ArenaOptions      include/memory_pool/arena_options.hpp, arena_statistics.hpp
--   ArenaChunk        src/detail/arena_chunk.cpp
--   Arena             src/monotonic_arena.cpp; Arena/Objects include/memory_pool/monotonic_arena.hpp
--   SegregatedOptions include/memory_pool/segregated_allocator_options.hpp and
--                     segregated_allocator_statistics.hpp
--   Segregated        src/segregated_allocator.cpp
--   ThreadCacheOptions include/memory_pool/concurrency_options.hpp, concurrency_statistics.hpp
--   ThreadCache       src/detail/thread_cache_state.cpp, thread_cache_state.hpp
--   ThreadCached      src/thread_cached_allocator.cpp; ThreadCached/Backing joins it to Segregated
--   MemoryResource    src/pool_memory_resource.cpp
--   Synchronized      include/memory_pool/synchronized_allocator.hpp
--
-- How state and operations correspond. A class is a record of its fields, a member function a function
-- from the record, and the memory where it reads or writes it, to the new record and a result; the
-- names are those of the source. A pointer is its address. Memory is a function from addresses to
-- bytes, so the free list is really read from the blocks. std::size_t is a number below 2^64 with its
-- wrap-around written out (`add_word`, `sub_word`). An exception is `err`, and an operation that may
-- throw after it has written returns the state that the exception leaves behind. `std::terminate` is
-- an error of its own. `operator new`, a memory provider, and the constructors and destructors of user
-- types are parameters. A vector is a list, and a pointer to one of its elements is a position. A
-- std::unordered_map is an association list, and whether it finds the memory for a new entry is a
-- parameter. The last element of a bin of a thread cache is the head of its list.
--
-- Threads. A step of the system of threads is one whole operation of one thread, and the steps come in
-- any order; ThreadCache needs nothing of the central allocator but that its calls, which one mutex
-- serialises, return. Relaxed counters are numbers, since each change of one is indivisible; only
-- what the loop of `update_peak` leaves when no other thread writes the same counter is modelled.
-- The upstream memory resource and the mutex of the synchronized allocator are parameters.
--
-- Bounds and fuel. Addresses of a storage are below 2^64, a pointer has eight bytes, the largest
-- fundamental alignment is 16. Loops are recursion on the list or the count that they run over. The
-- walk of `validate_integrity` recurses on the capacity less the nodes seen, and the source throws
-- when that runs out, so no fuel is added.
--
-- Not modelled: the points inside an operation of a thread cache at which another thread may run, namely
-- before and after each lock; debug_dump, which prints; failures of the allocations that std::vector
-- and std::make_unique make for the library's own bookkeeping, but for the set of the heap fallback
-- and the maps; the moves of std::unique_ptr; the tests, benchmarks and examples, which are clients.
pub mod Base
pub mod Memory
pub mod Layout
pub mod Provider
pub mod FreeList
pub mod Chunk
pub mod Guard
pub mod Diagnostics
pub mod Statistics
pub mod Pool
pub mod SizeClass
pub mod Manager
pub mod ChunkPool
pub mod ArenaOptions
pub mod ArenaChunk
pub mod Arena
pub mod SegregatedOptions
pub mod Segregated
pub mod MemoryResource
pub mod Synchronized
pub mod ThreadCacheOptions
pub mod ThreadCache
pub mod ThreadCached

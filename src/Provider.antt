-- ===== src/Provider.antt =====
-- include/memory_pool/memory_provider.hpp and src/new_delete_memory_provider.cpp: where the backing
-- storage comes from. The interface is a record of functions over a state of the provider's own;
-- `::operator new` and `::operator delete` are not in the repository and are parameters.
use fixed_size_memory_pool.Base.{
  ℕ, Bool, ltb, ◌==◌, not, if◌then◌else◌, Option, none, some, Result, err, invalid_argument,
}
use fixed_size_memory_pool.Base.Bits.{is_power_of_two}
use fixed_size_memory_pool.Memory.{Ptr, null, Memory}

-- `class IMemoryProvider`: `S` is what the provider keeps.
pub record Provider (S : Type 0) : Type 0 where
  pub allocate : S → ℕ → ℕ → S × Result Ptr
  pub deallocate : S → Ptr → ℕ → ℕ → S

-- What the code of a pool can change outside of its own fields.
pub record World (S : Type 0) : Type 0 where
  pub heap : S
  pub memory : Memory

-- `operator new` and `operator delete`, plain and with an alignment.
pub record Operators (S : Type 0) : Type 0 where
  pub new_plain : S → ℕ → S × Result Ptr
  pub new_aligned : S → ℕ → ℕ → S × Result Ptr
  pub delete_plain : S → Ptr → S
  pub delete_aligned : S → Ptr → ℕ → S
  pub default_alignment : ℕ

module _ {S : Type 0} (operators : Operators S) where
  unfoldable pub needs_extended_alignment : ℕ → Bool
  needs_extended_alignment alignment = ltb operators.default_alignment alignment

  unfoldable pub new_delete_allocate : S → ℕ → ℕ → S × Result Ptr
  new_delete_allocate s bytes alignment =
      if bytes == 0
      then (s, err invalid_argument)
      else if not (is_power_of_two alignment)
      then (s, err invalid_argument)
      else if needs_extended_alignment alignment
      then operators.new_aligned s bytes alignment
      else operators.new_plain s bytes

  unfoldable pub new_delete_deallocate : S → Ptr → ℕ → ℕ → S
  new_delete_deallocate s memory bytes alignment =
      if memory == null
      then s
      else if needs_extended_alignment alignment
      then operators.delete_aligned s memory alignment
      else operators.delete_plain s memory

  unfoldable pub new_delete_provider : Provider S
  new_delete_provider = record {
    allocate = new_delete_allocate;
    deallocate = new_delete_deallocate;
  }

  -- What a constructor keeps for a provider argument, which is `none` where the pointer is null.
  unfoldable pub or_default : Option (Provider S) → Provider S
  or_default none = new_delete_provider
  or_default (some provider) = provider

-- ===== src/MemoryArena.antt =====
-- src/memory_arena.c: the bump allocator. A pointer into the arena is its distance from the start of
-- the block. Each call holds the mutex while it reads and moves the offset.
pub mod Blocks
pub mod Sequences
mod Tests
use iq_tool.Prelude.{
  ℕ, ◌-◌, ◌*◌, ◌/◌, List, Bool, Option, none, some, ltb, ◌==◌, if◌then◌else◌, copy_at, replicate,
  add_size, sub_size,
}

-- `struct MemoryArena`, less its mutex: `memory` is NULL or the bytes of the block.
pub record MemoryArena : Type 0 where
  pub memory : Option (List ℕ)
  pub capacity : ℕ
  pub offset : ℕ

-- `MEM_ARENA_ALIGNMENT`
abbrev pub alignment : ℕ
alignment = 32

-- `mem_arena_init`: `none` is the return value false. `mutex_made` tells whether
-- `pthread_mutex_init` succeeds.
pub init : (ℕ → Option (List ℕ)) → Bool → ℕ → Option MemoryArena
init malloc mutex_made capacity =
    if capacity == 0
    then (if mutex_made then some (record { memory = none; capacity = 0; offset = 0 }) else none)
    else elim (malloc capacity) [
      | none ↦ none
      | some block ↦
          if mutex_made
          then some (record { memory = some block; capacity = capacity; offset = 0 })
          else none
    ]

-- `(size + ALIGNMENT - 1) & ~(ALIGNMENT - 1)`: the low five bits are cleared.
unfoldable pub aligned_size : ℕ → ℕ
aligned_size size = sub_size (add_size size alignment) 1 / alignment * alignment

-- The pointer (`none` is NULL) and the arena.
unfoldable pub alloc : MemoryArena → ℕ → Bool → Option ℕ × MemoryArena
alloc arena size zero_memory = elim arena.memory [
  | none ↦ (none, arena)
  | some block ↦
      if ltb (sub_size arena.capacity arena.offset) (aligned_size size) then (none, arena) else (
        some arena.offset,
        record arena {
          memory =
              some (if zero_memory then copy_at block arena.offset (replicate size 0) else block);
          offset = add_size arena.offset (aligned_size size);
        },
      )
]

pub destroy : MemoryArena → MemoryArena
destroy arena = record arena { memory = none; capacity = 0; offset = 0 }

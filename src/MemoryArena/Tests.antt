-- ===== src/MemoryArena/Tests.antt =====
-- Runs of src/memory_arena.c, and its theorems at them.
use iq_tool.Prelude.{
  ℕ, ◌+◌, ◌-◌, ◌%◌, ◌^◌, ◌≤◌, ◌≡◌, refl, List, [], ◌∷◌, Bool, true, false, some, arith, replicate,
}
use iq_tool.MemoryArena.{MemoryArena, alignment, aligned_size, alloc}
use iq_tool.MemoryArena.Blocks.{IsValid, alloc_block, alloc_wraps}
use iq_tool.MemoryArena.Sequences.{alloc_all, InOrder, alloc_all_disjoint}

abbrev arena : MemoryArena
arena = record { memory = some (replicate 128 7); capacity = 128; offset = 32 }

arena-IsValid : IsValid arena
arena-IsValid = omega arith

aligned :
    (aligned_size 0 ≡ 0) × (aligned_size 1 ≡ 32) × (aligned_size 32 ≡ 32) × (aligned_size 33 ≡ 64)
unfolding aligned_size
aligned = (refl, refl, refl, refl)

granted_second : alloc arena 40 true ≡ (some 32, (alloc arena 40 true).1)
unfolding alloc aligned_size
granted_second = refl

alloc_block_example :
    ◌≡◌ {A = ℕ} 32 32
    × (32 % alignment ≡ 0)
    × (32 + 40 ≤ (alloc arena 40 true).1.offset)
    × ((alloc arena 40 true).1.offset ≤ (alloc arena 40 true).1.capacity)
    × ((alloc arena 40 true).1.capacity ≡ arena.capacity)
alloc_block_example = alloc_block 40 true arena-IsValid (omega arith) granted_second

alloc_wraps_example :
    ((alloc arena (2 ^ 64 - 1) false).0 ≡ some arena.offset)
    × ((alloc arena (2 ^ 64 - 1) false).1.offset ≡ arena.offset)
alloc_wraps_example =
    alloc_wraps (2 ^ 64 - 1) (replicate 128 7) arena-IsValid refl (omega arith) (omega arith)

abbrev requests : List (ℕ × Bool)
requests = (5, true) ∷ (100, false) ∷ (33, false) ∷ []

alloc_all_disjoint_example :
    let (blocks, a') = alloc_all arena requests in
    InOrder arena.offset blocks a'.offset × IsValid a' × (a'.capacity ≡ arena.capacity)
alloc_all_disjoint_example = alloc_all_disjoint arena requests arena-IsValid (omega arith)

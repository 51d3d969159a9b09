-- ===== src/MemoryArena/Sequences.antt =====
-- Any sequence of requests to one arena.
use iq_tool.Prelude.{
  ℕ, ◌+◌, ◌%◌, ◌^◌, ◌≤◌, ◌<◌, ◌≡◌, refl, ap, ◌∙◌, List, [], ◌∷◌, Bool, Option, none, some, arith,
  get_or,
}
use iq_tool.MemoryArena.{MemoryArena, alignment, alloc}
use iq_tool.MemoryArena.Blocks.{
  IsValid, bytes_of, alloc-IsValid, alloc_block, alloc_null_iff, alloc_keeps, alloc-capacity,
}

-- A block is its start and its size.
abbrev granted : Option ℕ → ℕ → List (ℕ × ℕ) → List (ℕ × ℕ)
granted none size blocks = blocks
granted (some p) size blocks = (p, size) ∷ blocks

-- The blocks that a list of requests, a size and a flag each, is given, and the arena at the end.
pub alloc_all : MemoryArena → List (ℕ × Bool) → List (ℕ × ℕ) × MemoryArena
alloc_all a [] = ([], a)
alloc_all a ((size, zero_memory) ∷ requests) =
    let (p, a') = alloc a size zero_memory in
    let (blocks, a'') = alloc_all a' requests in (granted p size blocks, a'')

-- Every request is small enough for its rounding not to wrap.
abbrev pub AllSmall : List (ℕ × Bool) → Type 0
AllSmall [] = Unit
AllSmall ((size, _) ∷ requests) = (size + 31 < 2 ^ 64) × AllSmall requests

-- The blocks lie one after the other between two offsets, each on a boundary.
abbrev pub InOrder : ℕ → List (ℕ × ℕ) → ℕ → Type 0
InOrder lo [] hi = lo ≤ hi
InOrder lo ((p, size) ∷ blocks) hi = (lo ≤ p) × (p % alignment ≡ 0) × InOrder (p + size) blocks hi

InOrder-weaken :
    (lo lo' : ℕ) (blocks : List (ℕ × ℕ)) (hi : ℕ)
    → lo ≤ lo'
    → InOrder lo' blocks hi
    → InOrder lo blocks hi
InOrder-weaken lo lo' [] hi h o = omega arith
InOrder-weaken lo lo' ((p, size) ∷ blocks) hi h o = (omega arith, o.1, o.2)

-- One request, whether it is granted or not.
alloc_extends :
    (a : MemoryArena) (size : ℕ) (zero_memory : Bool) (blocks : List (ℕ × ℕ)) (hi : ℕ)
    → IsValid a
    → size + 31 < 2 ^ 64
    → InOrder (alloc a size zero_memory).1.offset blocks hi
    → InOrder a.offset (granted (alloc a size zero_memory).0 size blocks) hi
alloc_extends a size zero_memory blocks hi v h o = go (alloc a size zero_memory).0 refl
  where
    go :
        (p : Option ℕ)
        → (alloc a size zero_memory).0 ≡ p
        → InOrder a.offset (granted p size blocks) hi
    go none e =
        rw (ap (λ (t : Option ℕ × MemoryArena). t.1) ((alloc_null_iff size zero_memory v).1.0 e)) at
          o
    go (some p) e =
        let same : alloc a size zero_memory ≡ (some p, (alloc a size zero_memory).1) =
          λ i. (e i, (alloc a size zero_memory).1) in
        let (start, boundary, within, _, _) = alloc_block size zero_memory v h same in
        (
          omega (arith, start),
          boundary,
          InOrder-weaken (p + size) (alloc a size zero_memory).1.offset blocks hi within o,
        )

-- Whatever the requests, the blocks given out do not overlap: each starts on a boundary at or after
-- the end of the one before, the first at or after the old offset, and the last ends inside the arena.
pub alloc_all_disjoint :
    (a : MemoryArena) (requests : List (ℕ × Bool))
    → IsValid a
    → AllSmall requests
    → let (blocks, a') = alloc_all a requests in
      InOrder a.offset blocks a'.offset × IsValid a' × (a'.capacity ≡ a.capacity)
unfolding alloc_all
alloc_all_disjoint a [] v h = (omega arith, v, refl)
alloc_all_disjoint a ((size, zero_memory) ∷ requests) v h =
    let a' = (alloc a size zero_memory).1 in
    let (order, valid, same) =
      alloc_all_disjoint a' requests (alloc-IsValid size zero_memory v) h.1 in
    (
      alloc_extends a size zero_memory (alloc_all a' requests).0 _ v h.0 order,
      valid,
      same ∙ alloc-capacity a size zero_memory,
    )

-- No later request touches a byte below the offset that it starts from.
pub alloc_all_keeps :
    (a : MemoryArena) (requests : List (ℕ × Bool)) (i : ℕ)
    → IsValid a
    → AllSmall requests
    → i < a.offset
    → get_or (bytes_of (alloc_all a requests).1.memory) i 0 ≡ get_or (bytes_of a.memory) i 0
unfolding alloc_all
alloc_all_keeps a [] i v h hi = refl
alloc_all_keeps a ((size, zero_memory) ∷ requests) i v h hi =
    let (further, same) = alloc_keeps size zero_memory i v hi in
    alloc_all_keeps (alloc a size zero_memory).1 requests i (alloc-IsValid size zero_memory v) h.1
      (omega (arith, further))
    ∙ same

-- ===== src/MemoryArena/Blocks.antt =====
-- One allocation: where the block lies, what its bytes are, and when there is none.
use iq_tool.Prelude.{
  ℕ, ◌+◌, ◌-◌, ◌%◌, ◌^◌, ◌≤◌, ◌<◌, ◌≡◌, ◌↔◌, ◌⊎◌, refl, List, Bool, false, Option, none, some,
  arith, ltb, if◌then◌else◌, ◌&&◌, length, get_or, replicate, length-copy_at, length-replicate,
  get_or-copy_at, zero, suc, leb,
}
use iq_tool.MemoryArena.{MemoryArena, alignment, aligned_size, alloc}

abbrev pub bytes_of : Option (List ℕ) → List ℕ
bytes_of none = List.[]
bytes_of (some block) = block

-- The offset is a multiple of the alignment inside the block.
pub record IsValid (a : MemoryArena) : Type 0 where
  pub storage : length (bytes_of a.memory) ≡ a.capacity
  pub small : a.capacity ≤ 2 ^ 63
  pub inside : a.offset ≤ a.capacity
  pub on_boundary : a.offset % alignment ≡ 0

-- A size that does not wrap is rounded up to the next multiple of 32.
pub aligned_size_bounds :
    (size : ℕ)
    → size + 31 < 2 ^ 64
    → (size ≤ aligned_size size) × (aligned_size size < size + 32) × (aligned_size size % 32 ≡ 0)
unfolding aligned_size
aligned_size_bounds size h = omega arith

-- A size of the last 31 of `size_t` wraps, and is rounded to nothing.
pub aligned_size_wraps : (size : ℕ) → 2 ^ 64 ≤ size + 31 → size < 2 ^ 64 → aligned_size size ≡ 0
unfolding aligned_size
aligned_size_wraps size h k = omega arith

get_or-replicate : (n i : ℕ) → i < n → get_or {A = ℕ} (replicate n 0) i 0 ≡ 0
get_or-replicate zero i h = elim h [ ]
get_or-replicate (suc n) zero h = refl
get_or-replicate (suc n) (suc i) h = get_or-replicate n i (omega arith)

pub alloc-IsValid :
    {a : MemoryArena} (size : ℕ) (zero_memory : Bool)
    → IsValid a
    → IsValid (alloc a size zero_memory).1
unfolding alloc aligned_size
alloc-IsValid {a} size zero_memory v =
    ground (arith, length-copy_at (bytes_of a.memory) a.offset (replicate size 0))

-- The block that a call returns starts on a boundary at the old offset, ends before the new one
-- and inside the arena.
pub alloc_block :
    {a : MemoryArena} (size : ℕ) (zero_memory : Bool) {p : ℕ} {a' : MemoryArena}
    → IsValid a
    → size + 31 < 2 ^ 64
    → alloc a size zero_memory ≡ (some p, a')
    → (p ≡ a.offset)
      × (p % alignment ≡ 0)
      × (p + size ≤ a'.offset)
      × (a'.offset ≤ a'.capacity)
      × (a'.capacity ≡ a.capacity)
unfolding alloc
alloc_block {a} size zero_memory v h e = ground (arith, aligned_size_bounds size h)

-- A call returns NULL exactly when there is no memory or the rounded size is more than what is
-- left; and whenever it returns NULL the arena is as it was.
pub alloc_null_iff :
    {a : MemoryArena} (size : ℕ) (zero_memory : Bool)
    → IsValid a
    → (((alloc a size zero_memory).0 ≡ none)
        ↔ ((a.memory ≡ none) ⊎ (a.capacity - a.offset < aligned_size size)))
      × (((alloc a size zero_memory).0 ≡ none) ↔ (alloc a size zero_memory ≡ (none, a)))
unfolding alloc
alloc_null_iff {a} size zero_memory v =
    ((λ e. ground arith, λ e. ground arith), (λ e. ground arith, λ e. ground arith))

-- A call that succeeds leaves every byte outside its block alone; inside, it writes zeros if asked
-- to, and nothing otherwise.
pub alloc_bytes :
    {a : MemoryArena} (size : ℕ) (zero_memory : Bool) {p : ℕ} {a' : MemoryArena} (i : ℕ)
    → IsValid a
    → size + 31 < 2 ^ 64
    → alloc a size zero_memory ≡ (some p, a')
    → i < a.capacity
    → get_or (bytes_of a'.memory) i 0
      ≡ (if zero_memory && leb p i && ltb i (p + size) then 0 else get_or (bytes_of a.memory) i 0)
unfolding alloc
alloc_bytes {a} size zero_memory i v h e hi = ground (
  arith,
  aligned_size_bounds size h,
  get_or-copy_at (bytes_of a.memory) a.offset (replicate size 0) i 0,
  length-replicate {A = ℕ} size 0,
  get_or-replicate size (i - a.offset),
)

-- A request within 31 bytes of the end of `size_t` succeeds with a block of no bytes: the offset
-- does not move, so that the next block starts at the same place.
pub alloc_wraps :
    {a : MemoryArena} (size : ℕ) (block : List ℕ)
    → IsValid a
    → a.memory ≡ some block
    → 2 ^ 64 ≤ size + 31
    → size < 2 ^ 64
    → ((alloc a size false).0 ≡ some a.offset) × ((alloc a size false).1.offset ≡ a.offset)
unfolding alloc
alloc_wraps {a} size block v m h k = ground (arith, aligned_size_wraps size h k)

-- Granted or not, a request never moves the offset back, nor touches a byte below it.
pub alloc_keeps :
    {a : MemoryArena} (size : ℕ) (zero_memory : Bool) (i : ℕ)
    → IsValid a
    → i < a.offset
    → (a.offset ≤ (alloc a size zero_memory).1.offset)
      × (get_or (bytes_of (alloc a size zero_memory).1.memory) i 0 ≡ get_or (bytes_of a.memory) i 0)
unfolding alloc aligned_size
alloc_keeps {a} size zero_memory i v hi =
    ground (arith, get_or-copy_at (bytes_of a.memory) a.offset (replicate size 0) i 0)

pub alloc-capacity :
    (a : MemoryArena) (size : ℕ) (zero_memory : Bool)
    → (alloc a size zero_memory).1.capacity ≡ a.capacity
unfolding alloc
alloc-capacity a size zero_memory = ground arith

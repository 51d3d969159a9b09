-- ===== src/RingBuffer/Validity.antt =====
-- The representation invariant of the ring: no arithmetic wraps, and no copy leaves the block.
use iq_tool.Prelude.{
  ℕ, ◌+◌, ◌-◌, ◌%◌, ◌^◌, ◌≤◌, ◌<◌, ◌≡◌, List, some, arith, ltb, leb, if◌then◌else◌, length, take,
  drop, copy_at, length-copy_at, add_size, sub_size, min,
}
use iq_tool.Prelude.Cyclic.{index, mod-eq-index}
use iq_tool.RingBuffer.{
  RingBuffer, available_space, first_chunk, copy_in, store, write, get_size, read_awake, read,
}

-- No object is larger than half the address space.
abbrev pub max_object : ℕ
max_object = 2 ^ 63

pub record IsValid (r : RingBuffer) : Type 0 where
  pub storage : length r.buffer ≡ r.capacity
  pub small : r.capacity ≤ max_object
  pub write_in : r.write_pos < r.capacity
  pub read_in : r.read_pos < r.capacity

-- The number of bytes held, without wrapping.
pub get_size_lem :
    {r : RingBuffer}
    → IsValid r
    → get_size r ≡ (
        if leb r.read_pos r.write_pos
        then r.write_pos - r.read_pos
        else r.capacity + r.write_pos - r.read_pos)
unfolding get_size
get_size_lem v = ground arith

pub get_size-lt-capacity : {r : RingBuffer} → IsValid r → get_size r < r.capacity
get_size-lt-capacity {r} v = ground (arith, get_size_lem v)

-- The free space and the bytes held make up the capacity, less the slot that tells full from empty.
pub available_space-add-get_size :
    {r : RingBuffer} → IsValid r → available_space r + get_size r + 1 ≡ r.capacity
unfolding available_space
available_space-add-get_size {r} v = ground (arith, get_size_lem v)

pub add_size-mod :
    {r : RingBuffer} (p n : ℕ)
    → IsValid r
    → p < r.capacity
    → n ≤ r.capacity
    → add_size p n % r.capacity ≡ index r.capacity (p + n)
add_size-mod {r} p n v hp hn = rw (fits) (mod-eq-index (p + n) r.capacity (omega arith))
  where
    fits : add_size p n ≡ p + n
    fits = omega arith

-- A transfer of `n` bytes from `pos` is split at the end of the block.
pub first_chunk_lem :
    {r : RingBuffer} (pos n : ℕ)
    → IsValid r
    → pos < r.capacity
    → n ≤ r.capacity
    → (first_chunk r pos n ≡ min n (r.capacity - pos))
      × (sub_size n (first_chunk r pos n) ≡ n - (r.capacity - pos))
unfolding first_chunk
first_chunk_lem pos n v hp hn = ground arith

pub length-copy_in :
    (block : List ℕ) (pos : ℕ) (source : List ℕ) (first second : ℕ)
    → length (copy_in block pos source first second) ≡ length block
unfolding copy_in
length-copy_in block pos source first second =
    let once = copy_at block pos (take first source) in
    ground (
      arith,
      length-copy_at block pos (take first source),
      length-copy_at once 0 (take second (drop first source)),
    )

pub store-IsValid :
    {r : RingBuffer} (source : List ℕ) (n : ℕ)
    → IsValid r
    → n ≤ r.capacity
    → IsValid (store r source n)
unfolding store
store-IsValid {r} source n v h =
    let first = first_chunk r r.write_pos n in
    ground (
      arith,
      add_size-mod r.write_pos n v v.write_in,
      length-copy_in r.buffer r.write_pos source first (sub_size n first),
    )

pub advance-IsValid :
    {r : RingBuffer} (n : ℕ)
    → IsValid r
    → n ≤ r.capacity
    → IsValid (record r { read_pos = add_size r.read_pos n % r.capacity })
advance-IsValid {r} n v h = ground (arith, add_size-mod r.read_pos n v v.read_in h)

-- Every operation keeps the invariant.
pub write-IsValid : {r : RingBuffer} (source : List ℕ) → IsValid r → IsValid (write r source).1
unfolding write
write-IsValid {r} source v =
    let space = available_space r in
    let n = if ltb space (length source) then space else length source in
    ground (arith, available_space-add-get_size v, store-IsValid source n v)

pub read_awake-IsValid :
    {r : RingBuffer} (max_bytes : ℕ) → IsValid r → IsValid (read_awake r max_bytes).2
unfolding read_awake
read_awake-IsValid {r} max_bytes v =
    let n = if ltb (get_size r) max_bytes then get_size r else max_bytes in
    ground (arith, get_size-lt-capacity v, advance-IsValid n v)

pub read-IsValid :
    {r : RingBuffer} (max_bytes : ℕ) {n : ℕ} {out : List ℕ} {r' : RingBuffer}
    → IsValid r
    → read r max_bytes ≡ some (n, out, r')
    → IsValid r'
unfolding read
read-IsValid {r} max_bytes v e = ground (arith, read_awake-IsValid max_bytes v)

-- ===== src/RingBuffer.antt =====
-- src/ring_buffer.c: the byte ring between the I/O threads. Each function holds the mutex from its
-- first access to its last, so a call is one atomic step; a wait on the condition is a call that is
-- not possible yet. NULL arguments are left out: a call has a ring and a block of bytes.
pub mod Fifo
pub mod Validity
pub mod Contents
pub mod Store
pub mod Fetch
pub mod Refines
pub mod Traces
pub mod Drain
pub mod Create
mod Tests
use iq_tool.Prelude.{
  ℕ, ◌%◌, List, [], ◌++◌, Bool, true, false, ◌||◌, ◌&&◌, Option, none, some, ltb, leb, ◌==◌,
  if◌then◌else◌, length, take, drop, copy_at, add_size, sub_size,
}

-- `struct RingBuffer`, less its mutex and condition.
pub record RingBuffer : Type 0 where
  pub buffer : List ℕ
  pub capacity : ℕ
  pub write_pos : ℕ
  pub read_pos : ℕ
  pub end_of_stream : Bool
  pub shutting_down : Bool

-- `malloc` gives a block or NULL; `struct_block` tells whether the block for the struct came.
pub create : Bool → (ℕ → Option (List ℕ)) → ℕ → Option RingBuffer
create struct_block malloc capacity =
    if struct_block
    then elim (malloc capacity) [
      | none ↦ none
      | some block ↦ some (record {
        buffer = block;
        capacity = capacity;
        write_pos = 0;
        read_pos = 0;
        end_of_stream = false;
        shutting_down = false;
      })
    ]
    else none

-- `available_space` of `ring_buffer_write`
pub available_space : RingBuffer → ℕ
available_space r =
    if leb r.read_pos r.write_pos
    then sub_size (sub_size r.capacity (sub_size r.write_pos r.read_pos)) 1
    else sub_size (sub_size r.read_pos r.write_pos) 1

-- `first_chunk_size`: what fits before the end of the block, from `pos` on
pub first_chunk : RingBuffer → ℕ → ℕ → ℕ
first_chunk r pos n = if ltb r.capacity (add_size pos n) then sub_size r.capacity pos else n

-- one or two `memcpy` calls, at `pos` and at the start of the block
pub copy_in : List ℕ → ℕ → List ℕ → ℕ → ℕ → List ℕ
copy_in block pos source first second =
    let once = copy_at block pos (take first source) in
    if ltb 0 second then copy_at once 0 (take second (drop first source)) else once

-- the body of `if (bytes_to_write > 0)`
pub store : RingBuffer → List ℕ → ℕ → RingBuffer
store r source n =
    let first = first_chunk r r.write_pos n in
    record r {
      buffer = copy_in r.buffer r.write_pos source first (sub_size n first);
      write_pos = add_size r.write_pos n % r.capacity;
    }

-- The count that is returned, and the ring.
pub write : RingBuffer → List ℕ → ℕ × RingBuffer
write r source =
    let bytes = length source in
    let space = available_space r in
    let n = if ltb space bytes then space else bytes in
    if bytes == 0 then (0, r) else if ltb 0 n then (n, store r source n) else (n, r)

-- `ring_buffer_get_size`, and `available_data` of `ring_buffer_read`
unfoldable pub get_size : RingBuffer → ℕ
get_size r =
    if leb r.read_pos r.write_pos
    then sub_size r.write_pos r.read_pos
    else sub_size r.capacity (sub_size r.read_pos r.write_pos)

pub get_capacity : RingBuffer → ℕ
get_capacity r = r.capacity

-- what lands in the caller's buffer, in one or two copies
pub copy_out : List ℕ → ℕ → ℕ → ℕ → List ℕ
copy_out block pos first second =
    let once = take first (drop pos block) in
    if ltb 0 second then once ++ take second block else once

pub fetch : RingBuffer → ℕ → List ℕ
fetch r n =
    let first = first_chunk r r.read_pos n in copy_out r.buffer r.read_pos first (sub_size n first)

-- `ring_buffer_read` once its wait is over: the count, the bytes, and the ring
pub read_awake : RingBuffer → ℕ → ℕ × List ℕ × RingBuffer
read_awake r max_bytes =
    let available = get_size r in
    let n = if ltb available max_bytes then available else max_bytes in
    if r.shutting_down
    then (0, [], r)
    else if available == 0 && r.end_of_stream
    then (0, [], r)
    else if ltb 0 n
    then (n, fetch r n, record r { read_pos = add_size r.read_pos n % r.capacity })
    else (n, [], r)

-- `none`: the caller waits, and has changed nothing.
pub read : RingBuffer → ℕ → Option (ℕ × List ℕ × RingBuffer)
read r max_bytes =
    if max_bytes == 0
    then some (0, [], r)
    else if ltb 0 (get_size r) || r.shutting_down || r.end_of_stream
    then some (read_awake r max_bytes)
    else none

pub signal_end_of_stream : RingBuffer → RingBuffer
signal_end_of_stream r = record r { end_of_stream = true }

pub signal_shutdown : RingBuffer → RingBuffer
signal_shutdown r = record r { shutting_down = true }

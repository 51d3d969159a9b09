-- ===== src/RingBuffer/Refines.antt =====
-- The ring buffer is the bounded FIFO of the bytes that it holds.
use iq_tool.Prelude.{
  ℕ, ◌+◌, ◌-◌, ◌≤◌, ◌<◌, ◌≡◌, ap, List, ◌++◌, arith, ltb, if◌then◌else◌, length, take, min,
  append-nil,
}
use mathlib.Core.Option
use iq_tool.RingBuffer.{RingBuffer, store, write, get_size, read_awake, read}
use iq_tool.RingBuffer.Fifo
use iq_tool.RingBuffer.Fifo.{Fifo}
use iq_tool.RingBuffer.Validity.{IsValid, get_size-lt-capacity, available_space-add-get_size}
use iq_tool.RingBuffer.Contents.{contents, length-contents, view}
use iq_tool.RingBuffer.Store.{contents-store}
use iq_tool.RingBuffer.Fetch.{advanced, take-contents, view-advanced}

-- The number of bytes that a write takes.
taken : RingBuffer → List ℕ → ℕ
taken r source = min (length source) (r.capacity - 1 - get_size r)

write_lem :
    {r : RingBuffer} (source : List ℕ)
    → IsValid r
    → write r source ≡ (
        if ltb 0 (taken r source)
        then (taken r source, store r source (taken r source))
        else (0, r))
unfolding write taken
write_lem {r} source v = ground (arith, available_space-add-get_size v, get_size-lt-capacity v)

view-store :
    {r : RingBuffer} (source : List ℕ) (n : ℕ)
    → IsValid r
    → n ≤ length source
    → get_size r + n < r.capacity
    → view (store r source n) ≡ record (view r) { bytes = contents r ++ take n source }
unfolding store
view-store {r} source n v enough fits =
    ap (λ b. record (view r) { bytes = b }) (contents-store source n v enough fits)

-- `ring_buffer_write` accepts as many bytes as there is room for, appends exactly those, and
-- returns their number.
pub write_refines :
    {r : RingBuffer} (source : List ℕ)
    → IsValid r
    → let (n, r') = write r source in (n, view r') ≡ Fifo.put (view r) source
unfolding Fifo.put taken
write_refines {r} source v = ground (
  arith,
  write_lem source v,
  get_size-lt-capacity v,
  length-contents r,
  view-store source (taken r source) v,
  append-nil (contents r),
)

abbrev pub view_read : ℕ × List ℕ × RingBuffer → ℕ × List ℕ × Fifo
view_read (n, out, r) = (n, out, view r)

-- `ring_buffer_read` waits exactly while there is nothing to say; else it returns the oldest bytes,
-- as many as asked for or held, and removes exactly those.
pub read_refines :
    {r : RingBuffer} (max_bytes : ℕ)
    → IsValid r
    → Option.map view_read (read r max_bytes) ≡ Fifo.get (view r) max_bytes
unfolding read read_awake Fifo.get advanced
read_refines {r} max_bytes v =
    let n = min max_bytes (get_size r) in
    ground (arith, length-contents r, take-contents n v, view-advanced n v)

-- ===== src/RingBuffer/Contents.antt =====
-- What a ring holds, as a FIFO.
use iq_tool.Prelude.{ℕ, ◌-◌, ◌≡◌, List, length, length-tabulate}
use iq_tool.Prelude.Cyclic.{window}
use iq_tool.RingBuffer.{RingBuffer, get_size}
use iq_tool.RingBuffer.Fifo.{Fifo}

-- The bytes held, oldest first.
abbrev pub contents : RingBuffer → List ℕ
contents r = window r.buffer r.capacity r.read_pos (get_size r)

pub length-contents : (r : RingBuffer) → length (contents r) ≡ get_size r
length-contents r = length-tabulate _ (get_size r)

abbrev pub view : RingBuffer → Fifo
view r = record {
  bytes = contents r;
  limit = r.capacity - 1;
  closed = r.end_of_stream;
  stopped = r.shutting_down;
}

-- ===== src/RingBuffer/Fifo.antt =====
-- What the ring buffer promises: a bounded FIFO of bytes with two flags.
use iq_tool.Prelude.{
  ℕ, ◌-◌, List, [], ◌++◌, Bool, true, Option, none, some, min, ◌==◌, if◌then◌else◌, length, take,
  drop,
}

-- `room` counts the bytes that may still be accepted.
pub record Fifo : Type 0 where
  pub bytes : List ℕ
  pub limit : ℕ
  pub closed : Bool
  pub stopped : Bool

-- As much as fits is appended.
unfoldable pub put : Fifo → List ℕ → ℕ × Fifo
put q source =
    let n = min (length source) (q.limit - length q.bytes) in
    (n, record q { bytes = q.bytes ++ take n source })

-- The oldest bytes come out; an empty queue that is open has no answer yet. A queue that is
-- stopped answers that there is nothing, whatever it holds.
unfoldable pub get : Fifo → ℕ → Option (ℕ × List ℕ × Fifo)
get q n =
    let m = min n (length q.bytes) in
    if n == 0
    then some (0, [], q)
    else if q.stopped
    then some (0, [], q)
    else if length q.bytes == 0
    then (if q.closed then some (0, [], q) else none)
    else some (m, take m q.bytes, record q { bytes = drop m q.bytes })

unfoldable pub close : Fifo → Fifo
close q = record q { closed = true }

unfoldable pub stop : Fifo → Fifo
stop q = record q { stopped = true }

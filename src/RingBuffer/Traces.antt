-- ===== src/RingBuffer/Traces.antt =====
-- The ring buffer over every interleaving of its calls.
use iq_tool.Prelude.{
  ℕ, ◌+◌, ◌≡◌, ◌≢◌, ◌↔◌, sym, ap, ◌∙◌, List, [], ◌++◌, false, none, some, arith, length, take,
  take-append-drop, append-nil, append_both, append_between, min, length-take, tabulate, get_or,
  length-append,
}
use mathlib.Core.Option
use iq_tool.Prelude.Cyclic.{index}
use iq_tool.RingBuffer.{
  RingBuffer, write, read, read_awake, get_size, signal_end_of_stream, signal_shutdown,
}
use iq_tool.RingBuffer.Contents.{contents, length-contents}
use iq_tool.RingBuffer.Fifo
use iq_tool.RingBuffer.Fifo.{Fifo}
use iq_tool.RingBuffer.Validity.{IsValid, write-IsValid, read-IsValid}
use iq_tool.RingBuffer.Refines.{write_refines, read_refines, view_read}

-- A run of the ring from `r₀`: what its writers had accepted, and what its readers were given. A
-- call that waits is no step.
pub data Run (r₀ : RingBuffer) : RingBuffer → List ℕ → List ℕ → Type 0 where
  start : Run r₀ r₀ [] []
  wrote :
      {r : RingBuffer} {accepted given : List ℕ} (source : List ℕ)
      → Run r₀ r accepted given
      → Run r₀ (write r source).1 (accepted ++ take (write r source).0 source) given
  was_read :
      {r r' : RingBuffer} {accepted given : List ℕ} (max_bytes : ℕ) {n : ℕ} {out : List ℕ}
      → Run r₀ r accepted given
      → read r max_bytes ≡ some (n, out, r')
      → Run r₀ r' accepted (given ++ out)
  ended :
      {r : RingBuffer} {accepted given : List ℕ}
      → Run r₀ r accepted given
      → Run r₀ (signal_end_of_stream r) accepted given
  stopped :
      {r : RingBuffer} {accepted given : List ℕ}
      → Run r₀ r accepted given
      → Run r₀ (signal_shutdown r) accepted given

contents-write :
    {r : RingBuffer} (source : List ℕ)
    → IsValid r
    → contents (write r source).1 ≡ contents r ++ take (write r source).0 source
unfolding Fifo.put
contents-write {r} source v =
    let e = write_refines source v in
    let p = ap (λ (t : ℕ × Fifo). t.1.bytes) e in
    let q = ap (λ (t : ℕ × Fifo). t.0) e in p ∙ ap (λ n. contents r ++ take n source) (sym q)

pub contents-read :
    {r r' : RingBuffer} (max_bytes : ℕ) {n : ℕ} {out : List ℕ}
    → IsValid r
    → read r max_bytes ≡ some (n, out, r')
    → (contents r ≡ out ++ contents r') × (n ≡ length out)
unfolding Fifo.get
contents-read {r} {r'} max_bytes {n} {out} v e =
    let m = min max_bytes (length (contents r)) in
    ground (
      arith,
      read_refines max_bytes v,
      ap (Option.map view_read) e,
      take-append-drop m (contents r),
      length-take m (contents r),
    )

Run-IsValid :
    {r₀ r : RingBuffer} {accepted given : List ℕ} → IsValid r₀ → Run r₀ r accepted given → IsValid r
unfolding signal_end_of_stream signal_shutdown
Run-IsValid v start = v
Run-IsValid v (wrote source s) = write-IsValid source (Run-IsValid v s)
Run-IsValid v (was_read m s e) = read-IsValid m (Run-IsValid v s) e
Run-IsValid v (ended s) = let w = Run-IsValid v s in ground arith
Run-IsValid v (stopped s) = let w = Run-IsValid v s in ground arith

-- Whatever the order of the calls, the bytes that were held at the start followed by those that
-- writers had accepted are the bytes given to readers followed by those held at the end: none is
-- lost, doubled or reordered.
pub bytes_conserved :
    {r₀ r : RingBuffer} {accepted given : List ℕ}
    → IsValid r₀
    → Run r₀ r accepted given
    → contents r₀ ++ accepted ≡ given ++ contents r
unfolding signal_end_of_stream signal_shutdown get_size
bytes_conserved {r₀} v start = append-nil (contents r₀)
bytes_conserved {r₀} v (wrote {r = r} {accepted = a} {given = g} source s) =
    append_both (contents r₀) a g (contents r) _ _ (bytes_conserved v s)
      (contents-write source (Run-IsValid v s))
bytes_conserved {r₀} v (was_read {r = r} {accepted = a} {given = g} m s e) =
    append_between (contents r₀ ++ a) g (contents r) _ _ (bytes_conserved v s)
      ((contents-read m (Run-IsValid v s) e).0)
bytes_conserved v (ended s) = bytes_conserved v s
bytes_conserved v (stopped s) = bytes_conserved v s

pub empty_of_get_size : (r : RingBuffer) → get_size r ≡ 0 → contents r ≡ []
empty_of_get_size r e =
    ap (λ n. tabulate (λ k. get_or r.buffer (index r.capacity (r.read_pos + k)) 0) n) e

-- A reader waits exactly when it asks for something, nothing is held, and no flag is up.
pub read_waits_iff :
    (r : RingBuffer) (max_bytes : ℕ)
    → (read r max_bytes ≡ none) ↔ (
        (max_bytes ≢ 0) × (contents r ≡ []) × (r.shutting_down ≡ false) × (r.end_of_stream ≡ false))
unfolding read
read_waits_iff r max_bytes = (
  λ e. ground (arith, empty_of_get_size r),
  λ e. ground (arith, length-contents r, ap length (e.1)),
)

get_size-write :
    {r : RingBuffer} (source : List ℕ)
    → IsValid r
    → get_size (write r source).1 ≡ get_size r + (write r source).0
unfolding Fifo.put
get_size-write {r} source v = omega (
  arith,
  length-contents (write r source).1,
  length-contents r,
  ap length (contents-write source v),
  length-append (contents r) (take (write r source).0 source),
  length-take (write r source).0 source,
  ap (λ (t : ℕ × Fifo). t.0) (write_refines source v),
)

-- A write of which something is accepted ends every wait.
pub write_wakes :
    {r : RingBuffer} (max_bytes : ℕ) (source : List ℕ)
    → IsValid r
    → (write r source).0 ≢ 0
    → read (write r source).1 max_bytes ≢ none
unfolding read
write_wakes {r} max_bytes source v h = ground (arith, get_size-write source v)

-- The end of the stream and a shutdown each end every wait; after a shutdown a reader is given
-- nothing, whatever the ring holds.
pub signals_wake :
    (r : RingBuffer) (max_bytes : ℕ)
    → (read (signal_end_of_stream r) max_bytes ≢ none)
      × (read (signal_shutdown r) max_bytes ≡ some (0, [], signal_shutdown r))
unfolding read read_awake signal_end_of_stream signal_shutdown
signals_wake r max_bytes = (ground arith, ground arith)

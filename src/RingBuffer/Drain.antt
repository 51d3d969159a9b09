-- ===== src/RingBuffer/Drain.antt =====
-- A reader that empties the ring after the end of the stream, as the writer thread does.
use iq_tool.Prelude.{
  ℕ, zero, suc, ◌+◌, ◌<◌, ◌≡◌, ◌≢◌, refl, sym, ap, ◌∙◌, List, [], ◌++◌, true, false, Option, none,
  some, arith, length, min, length-append,
}
use mathlib.Core.Option
use iq_tool.RingBuffer.{RingBuffer, read, get_size}
use iq_tool.RingBuffer.Contents.{contents, length-contents}
use iq_tool.RingBuffer.Fifo
use iq_tool.RingBuffer.Fifo.{Fifo}
use iq_tool.RingBuffer.Validity.{IsValid, read-IsValid}
use iq_tool.RingBuffer.Refines.{read_refines, view_read}
use iq_tool.RingBuffer.Traces.{contents-read, empty_of_get_size, read_waits_iff}

-- What a reader collects that asks for `max_bytes` at a time until it is given nothing, and whether
-- it was given nothing before the fuel ran out (`none`: it was not).
pub drain : ℕ → RingBuffer → ℕ → Option (List ℕ)
drain zero r max_bytes = none
drain (suc fuel) r max_bytes = elim (read r max_bytes) [
  | none ↦ none
  | some (zero, out, r') ↦ some []
  | some (suc n, out, r') ↦ Option.map (λ rest. out ++ rest) (drain fuel r' max_bytes)
]

-- One read of a stream that has ended.
read-ended :
    {r r' : RingBuffer} (max_bytes : ℕ) {n : ℕ} {out : List ℕ}
    → IsValid r
    → r.end_of_stream ≡ true
    → r.shutting_down ≡ false
    → max_bytes ≢ 0
    → read r max_bytes ≡ some (n, out, r')
    → (r'.end_of_stream ≡ true)
      × (r'.shutting_down ≡ false)
      × (n ≡ min max_bytes (get_size r))
      × (get_size r ≡ n + get_size r')
unfolding Fifo.get
read-ended {r} {r'} max_bytes {n} {out} v eos alive pos e = ground (
  arith,
  read_refines max_bytes v,
  ap (Option.map view_read) e,
  length-contents r,
  length-contents r',
  ap length ((contents-read max_bytes v e).0),
  length-append out (contents r'),
  (contents-read max_bytes v e).1,
)

-- One round of `drain`, by what the read answered.
drain_round :
    (fuel : ℕ) (r : RingBuffer) (max_bytes : ℕ)
    → IsValid r
    → r.end_of_stream ≡ true
    → r.shutting_down ≡ false
    → max_bytes ≢ 0
    → ((r' : RingBuffer)
        → IsValid r'
        → r'.end_of_stream ≡ true
        → r'.shutting_down ≡ false
        → get_size r' < get_size r
        → drain fuel r' max_bytes ≡ some (contents r'))
    → (answer : Option (ℕ × List ℕ × RingBuffer)) → read r max_bytes ≡ answer
    → drain (suc fuel) r max_bytes ≡ some (contents r)
unfolding drain
drain_round fuel r max_bytes v eos alive pos rest none e =
    absurd (ground (arith, (read_waits_iff r max_bytes).0 e))
drain_round fuel r max_bytes v eos alive pos rest (some (zero, out, r')) e =
    rw (e, drain)
      (ap some (sym (empty_of_get_size r (omega (arith, read-ended max_bytes v eos alive pos e)))))
drain_round fuel r max_bytes v eos alive pos rest (some (suc n, out, r')) e =
    let (eos', alive', count, parts) = read-ended max_bytes v eos alive pos e in
    rw (e, drain)
      (ap (Option.map (λ t. out ++ t))
          (rest r' (read-IsValid max_bytes v e) eos' alive' (omega (arith, parts)))
        ∙ ap some (sym ((contents-read max_bytes v e).0)))

-- After the end of the stream, and without a shutdown, a reader is given all that is held, in
-- order, and then nothing: the fuel of one round more than there are bytes is enough.
pub drain_lem :
    (fuel : ℕ) (r : RingBuffer) (max_bytes : ℕ)
    → IsValid r
    → r.end_of_stream ≡ true
    → r.shutting_down ≡ false
    → max_bytes ≢ 0
    → get_size r < fuel
    → drain fuel r max_bytes ≡ some (contents r)
drain_lem zero r max_bytes v eos alive pos h = elim h [ ]
drain_lem (suc fuel) r max_bytes v eos alive pos h =
    drain_round fuel r max_bytes v eos alive pos
      (λ r' v' eos' alive' less. drain_lem fuel r' max_bytes v' eos' alive' pos (omega arith))
      (read r max_bytes) refl

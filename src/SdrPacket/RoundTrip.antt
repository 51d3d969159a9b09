-- ===== src/SdrPacket/RoundTrip.antt =====
-- What is written as a packet is read back.
use mathlib.Core.Option
use iq_tool.Prelude.{
  ℕ, zero, suc, refl, ◌∷◌, ◌*◌, ◌%◌, ◌^◌, ◌≤◌, ◌<◌, ◌≡◌, sym, ap, ap₂, ◌∙◌, List, [], ◌++◌, Bool,
  true, false, some, arith, length, take, drop, take-front, drop-front, append-nil, length-append,
  take_all,
}
use iq_tool.RingBuffer.{RingBuffer}
use iq_tool.RingBuffer.Contents.{contents}
use iq_tool.RingBuffer.Validity.{IsValid}
use iq_tool.Formats.{Format, format_unknown, id}
use iq_tool.SdrPacket.{flag_interleaved, flag_stream_reset, base_samples}
use iq_tool.SdrPacket.Writing.{write_interleaved_chunk}
use iq_tool.SdrPacket.Reading.{TargetChunk, Outcome, samples, reinterleave, read_packet}
use iq_tool.SdrPacket.Runs.{run, run_list, run_refines, view_run}
use iq_tool.SdrPacket.WriteLaws.{Stored, Stored-whole}
use iq_tool.SdrPacket.Packets.{interleaved_packet, reset_packet, write_interleaved_chunk-Stored}
use iq_tool.SdrPacket.Payload.{
  delivered, IsData, kept, synchronized, header_read, body_interleaved, body_reset,
  payload_interleaved,
}

mul_mono : (a b c : ℕ) → a ≤ b → a * c ≤ b * c
mul_mono a b c h = grind arith

-- A packet of up to twice the size of a chunk, at the front of the stream, is accepted. The samples
-- of the first 16384 pairs are delivered, and what the packet holds beyond them is left in front of
-- what follows it.
pub read_interleaved_packet :
    (fuel temp_size : ℕ) (target : TargetChunk) (closed : Bool)
    → (n : ℕ) (pairs : List ℕ) (format : Format) (rest : List ℕ) → IsData format
    → 0 < n
    → n ≤ base_samples * 2
    → length pairs ≡ n * target.input_bytes_per_sample_pair
    → kept n * target.input_bytes_per_sample_pair < 2 ^ 64
    → run_list
        (read_packet (suc fuel) target temp_size)
        closed
        (interleaved_packet n pairs format ++ rest)
      ≡ some (
        some (
            delivered
              (kept n)
              (take (kept n * target.input_bytes_per_sample_pair) (pairs ++ rest))
              format
              target),
        drop (kept n * target.input_bytes_per_sample_pair) (pairs ++ rest),
      )
unfolding read_packet
read_interleaved_packet fuel temp_size target closed n pairs format rest h pos small len bound =
    synchronized fuel 0 target temp_size closed _
    ∙ ap (Option.map (λ (t : Outcome × List ℕ). (some t.0, t.1))) (
        header_read target temp_size closed n flag_interleaved (id format % 256) (pairs ++ rest)
          (omega arith)
        ∙ ap (λ r. run_list r closed (pairs ++ rest))
            (body_interleaved target temp_size n format h pos small)
        ∙ payload_interleaved (record target { packet_sample_format = format }) n closed
            (pairs ++ rest) bound (omega (arith, length-append pairs rest, some_of_it)))
  where
    some_of_it :
        kept n * target.input_bytes_per_sample_pair ≤ n * target.input_bytes_per_sample_pair
    some_of_it = mul_mono (kept n) n target.input_bytes_per_sample_pair (omega arith)

pub length-reinterleave :
    (n : ℕ) (i q : List ℕ)
    → length i ≡ n * 2
    → length q ≡ n * 2
    → length (reinterleave n i q) ≡ n * 4
unfolding reinterleave
length-reinterleave zero i q li lq = refl
length-reinterleave (suc n) [] q li lq = absurd (omega arith)
length-reinterleave (suc n) (i₀ ∷ []) q li lq = absurd (omega arith)
length-reinterleave (suc n) (i₀ ∷ i₁ ∷ i) [] li lq = absurd (omega arith)
length-reinterleave (suc n) (i₀ ∷ i₁ ∷ i) (q₀ ∷ []) li lq = absurd (omega arith)
length-reinterleave (suc n) (i₀ ∷ i₁ ∷ i) (q₀ ∷ q₁ ∷ q) li lq =
    omega (arith, length-reinterleave n i q (omega arith) (omega arith))

-- A reset event is read as no samples and a raised flag, and what follows it is left.
pub read_reset_packet :
    (fuel temp_size : ℕ) (target : TargetChunk) (closed : Bool) (rest : List ℕ)
    → run_list (read_packet (suc fuel) target temp_size) closed (reset_packet ++ rest)
      ≡ some (
        some (record {
          status = samples 0;
          is_reset_event = true;
          target_chunk = record target { packet_sample_format = format_unknown };
        }),
        rest,
      )
unfolding read_packet run_list
read_reset_packet fuel temp_size target closed rest =
    synchronized fuel 0 target temp_size closed _
    ∙ ap (Option.map (λ (t : Outcome × List ℕ). (some t.0, t.1))) (
        header_read target temp_size closed 0 flag_stream_reset (id format_unknown % 256) rest
          (omega arith)
        ∙ ap (λ r. run_list r closed rest) (body_reset target temp_size))

-- A packet of at most 16384 pairs that was written to an empty ring
-- with room for it is read back, pair for pair, and the ring is empty again.
pub write_then_read :
    (fuel temp_size : ℕ) (target : TargetChunk) {r : RingBuffer}
    → (n : ℕ) (pairs : List ℕ) (format : Format) → IsValid r
    → contents r ≡ []
    → r.shutting_down ≡ false
    → IsData format
    → 0 < n
    → n ≤ base_samples
    → n * target.input_bytes_per_sample_pair < 2 ^ 64
    → length pairs ≡ n * target.input_bytes_per_sample_pair
    → (write_interleaved_chunk r n pairs target.input_bytes_per_sample_pair format).0 ≡ true
    → Option.map view_run (
        run
          (read_packet (suc fuel) target temp_size)
          (write_interleaved_chunk r n pairs target.input_bytes_per_sample_pair format).1)
      ≡ some (some (delivered n pairs format target), [])
write_then_read fuel temp_size target {r} n pairs format v empty alive h pos small bound len done =
    run_refines (read_packet (suc fuel) target temp_size) s.valid (s.stopped ∙ alive)
    ∙ ap (run_list (read_packet (suc fuel) target temp_size) r'.end_of_stream) held
    ∙ read_interleaved_packet fuel temp_size target r'.end_of_stream n pairs format [] h pos
        (omega arith) len (rw all bound)
    ∙ rw all (rw (take-front (n * b) pairs [] len) (rw (drop-front (n * b) pairs [] len)))
  where
    b : ℕ
    b = target.input_bytes_per_sample_pair

    all : kept n ≡ n
    all = omega arith

    r' : RingBuffer
    r' = (write_interleaved_chunk r n pairs b format).1

    s :
        Stored r
          (interleaved_packet n (take (n * b) pairs) format)
          (write_interleaved_chunk r n pairs b format)
    s = write_interleaved_chunk-Stored n pairs b format v bound (omega arith)

    held : contents r' ≡ interleaved_packet n pairs format ++ []
    held =
        Stored-whole (interleaved_packet n (take (n * b) pairs) format)
          (write_interleaved_chunk r n pairs b format) s done
        ∙ ap₂ (λ c t. c ++ interleaved_packet n t format) empty
            (take_all (n * b) pairs (omega arith))
        ∙ sym (append-nil (interleaved_packet n pairs format))

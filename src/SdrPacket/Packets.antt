-- ===== src/SdrPacket/Packets.antt =====
-- The packets that the writing functions put into the ring, and what is left of one for which there
-- is too little room.
use iq_tool.Prelude.{
  ℕ, ◌*◌, ◌^◌, ◌≤◌, ◌<◌, ◌≡◌, ap, ap₂, ◌∙◌, List, [], ◌∷◌, ◌++◌, arith, length, take, append-nil,
  take_all, mul_size,
}
use iq_tool.RingBuffer.{RingBuffer}
use iq_tool.RingBuffer.Validity.{IsValid}
use iq_tool.Formats.{Format, format_unknown}
use iq_tool.SdrPacket.{header_bytes, flag_interleaved, flag_stream_reset}
use iq_tool.SdrPacket.Writing.{
  write_whole, data_header, write_deinterleaved_chunk, write_interleaved_chunk, write_reset_event,
  short_size,
}
use iq_tool.SdrPacket.WriteLaws.{Stored, write_count, write_whole-Stored, write_parts-Stored_of}

-- A packet of `n` pairs, the bytes of each pair together.
abbrev pub interleaved_packet : ℕ → List ℕ → Format → List ℕ
interleaved_packet n pairs format = header_bytes (data_header n flag_interleaved format) ++ pairs

-- A packet of `n` pairs of 16-bit numbers, the two planes one after the other.
abbrev pub deinterleaved_packet : ℕ → List ℕ → List ℕ → Format → List ℕ
deinterleaved_packet n i q format = header_bytes (data_header n 0 format) ++ (i ++ q)

abbrev pub reset_packet : List ℕ
reset_packet = header_bytes (data_header 0 flag_stream_reset format_unknown)

-- A packet of pairs is written whole exactly if there is room for all of it; else its first bytes
-- are written, as many as there is room for.
pub write_interleaved_chunk-Stored :
    {r : RingBuffer} (n : ℕ) (pairs : List ℕ) (bytes_per_sample_pair : ℕ) (format : Format)
    → IsValid r
    → n * bytes_per_sample_pair < 2 ^ 64
    → n * bytes_per_sample_pair ≤ length pairs
    → Stored r
        (interleaved_packet n (take (n * bytes_per_sample_pair) pairs) format)
        (write_interleaved_chunk r n pairs bytes_per_sample_pair format)
unfolding write_interleaved_chunk
write_interleaved_chunk-Stored {r} n pairs b format v small enough =
    let header = header_bytes (data_header n flag_interleaved format) in
    let same : mul_size n b ≡ n * b = omega arith in
    rw same (
      write_parts-Stored_of (header ∷ take (n * b) pairs ∷ []) _
        (ap (λ t. header ++ t) (append-nil (take (n * b) pairs))) v)

-- On a valid ring, a packet of two planes is written whole, with the result true, exactly if there
-- is room for all of it; else its first bytes are written, as many as there is room for. The ring
-- stays valid and as open as it was.
pub write_deinterleaved_chunk-Stored :
    {r : RingBuffer} (n : ℕ) (i q : List ℕ) (format : Format)
    → IsValid r
    → n < 2 ^ 32
    → length i ≡ n * 2
    → length q ≡ n * 2
    → Stored r (deinterleaved_packet n i q format) (write_deinterleaved_chunk r n i q format)
unfolding write_deinterleaved_chunk
write_deinterleaved_chunk-Stored {r} n i q format v small hi hq =
    let header = header_bytes (data_header n 0 format) in
    write_parts-Stored_of
      (header ∷ take (mul_size n short_size) i ∷ take (mul_size n short_size) q ∷ []) _
      (ap₂ (λ s t. header ++ (s ++ t)) (take_all (mul_size n short_size) i (omega arith))
        (append-nil (take (mul_size n short_size) q)
          ∙ take_all (mul_size n short_size) q (omega arith)))
      v

-- On a valid ring, a reset event is written whole, with the result true, exactly if there is room
-- for it; else its first bytes are written, as many as there is room for.
pub write_reset_event-Stored :
    {r : RingBuffer} → IsValid r → Stored r reset_packet (write_reset_event r)
unfolding write_reset_event write_whole
write_reset_event-Stored {r} v =
    let a = write_whole-Stored reset_packet v in
    record {
      whole = ground (arith, write_count reset_packet v);
      held = a.held;
      valid = a.valid;
      limit = a.limit;
      closed = a.closed;
      stopped = a.stopped;
    }

-- ===== src/SdrPacket/Tests.antt =====
-- Runs of src/sdr_packet_serializer.c, and its theorems at them.
use mathlib.Core.Option
use iq_tool.Prelude.{
  ℕ, ◌+◌, ◌*◌, ◌/◌, ◌≡◌, refl, List, [], ◌∷◌, ◌++◌, true, false, some, arith, replicate, take, drop,
}
use iq_tool.RingBuffer.{RingBuffer, get_size}
use iq_tool.RingBuffer.Validity.{IsValid}
use iq_tool.RingBuffer.Contents.{contents}
use iq_tool.Formats.{format_unknown, cs8, id, of_id}
use iq_tool.SdrPacket.Writing.{write_interleaved_chunk, write_interleaved_chunks}
use iq_tool.SdrPacket.Reading.{
  TargetChunk, Outcome, read_packet, synchronize, read_header, read_body, is_packet_format_id_valid,
  read_interleaved_payload, clipped_samples, map_result,
}
use iq_tool.SdrPacket.Runs.{run, run_list, run_refines, view_run}
use iq_tool.SdrPacket.WriteLaws.{Stored}
use iq_tool.SdrPacket.Packets.{interleaved_packet, reset_packet, write_interleaved_chunk-Stored}
use iq_tool.SdrPacket.Transfers.{packets_of, Put, write_interleaved_chunks_lem}
use iq_tool.SdrPacket.Payload.{delivered, kept, IsData}
use iq_tool.SdrPacket.RoundTrip.{read_interleaved_packet, write_then_read}
use iq_tool.SdrPacket.Resync.{resync_misses, read_packet_total}

-- an empty ring of 64 bytes, close to the end of its block
abbrev ring : RingBuffer
ring = record {
  buffer = replicate 64 0;
  capacity = 64;
  write_pos = 60;
  read_pos = 60;
  end_of_stream = false;
  shutting_down = false;
}

ring-IsValid : IsValid ring
ring-IsValid = omega arith

abbrev target : TargetChunk
target = record {
  raw_input_data = replicate 16 0;
  packet_sample_format = format_unknown;
  input_bytes_per_sample_pair = 2;
}

abbrev pairs : List ℕ
pairs = 1 ∷ 2 ∷ 3 ∷ 4 ∷ []

cs8-IsData : IsData cs8
cs8-IsData = (λ e. cc, λ e. cc)

read_pairs :
    run_list (read_packet 1 target 64) false (interleaved_packet 2 pairs cs8 ++ 77 ∷ [])
    ≡ some (some (delivered 2 pairs cs8 target), 77 ∷ [])
unfolding run_list read_packet synchronize read_header read_body is_packet_format_id_valid id of_id
    map_result read_interleaved_payload clipped_samples
read_pairs = refl

run_refines_example :
    Option.map view_run (run (read_packet 1 target 64) ring)
    ≡ run_list (read_packet 1 target 64) false (contents ring)
run_refines_example = run_refines (read_packet 1 target 64) ring-IsValid refl

write_interleaved_chunk-Stored_example :
    Stored ring
      (interleaved_packet 2 (take (2 * 2) pairs) cs8)
      (write_interleaved_chunk ring 2 pairs 2 cs8)
write_interleaved_chunk-Stored_example =
    write_interleaved_chunk-Stored 2 pairs 2 cs8 ring-IsValid (omega arith) (omega arith)

write_interleaved_chunks_lem_example :
    Put ring
      (packets_of (4 / 2 + 1) pairs (4 / 2) 2 cs8)
      (write_interleaved_chunks ring pairs 4 2 cs8)
write_interleaved_chunks_lem_example =
    write_interleaved_chunks_lem pairs 4 2 cs8 ring-IsValid (omega arith) refl (omega arith)

read_interleaved_packet_example :
    run_list (read_packet 1 target 64) false (interleaved_packet 2 pairs cs8 ++ 77 ∷ [])
    ≡ some (
      some (delivered (kept 2) (take (kept 2 * 2) (pairs ++ 77 ∷ [])) cs8 target),
      drop (kept 2 * 2) (pairs ++ 77 ∷ []),
    )
read_interleaved_packet_example =
    read_interleaved_packet 0 64 target false 2 pairs cs8 (77 ∷ []) cs8-IsData (omega arith)
      (omega arith) refl (omega arith)

written_whole : (write_interleaved_chunk ring 2 pairs 2 cs8).0 ≡ true
unfolding get_size
written_whole = write_interleaved_chunk-Stored_example.whole

write_then_read_example :
    Option.map view_run
      (run (read_packet 1 target 64) (write_interleaved_chunk ring 2 pairs 2 cs8).1)
    ≡ some (some (delivered 2 pairs cs8 target), [])
unfolding get_size
write_then_read_example =
    write_then_read 0 64 target 2 pairs cs8 ring-IsValid refl refl cs8-IsData (omega arith)
      (omega arith) (omega arith) refl written_whole

resync_misses_example :
    run_list (read_packet 2 target 64) true (1 ∷ reset_packet)
    ≡ run_list (read_packet 1 target 64) true (drop 4 reset_packet)
resync_misses_example = resync_misses target 64 1 true 1 (drop 4 reset_packet) (omega arith)

read_packet_total_example :
    (o : Outcome) × (rest : List ℕ) × (run_list
        (read_packet 6 target 64)
        true
        (1 ∷ 2 ∷ 3 ∷ 4 ∷ 5 ∷ [])
      ≡ some (some o, rest))
read_packet_total_example = read_packet_total target 64 6 (1 ∷ 2 ∷ 3 ∷ 4 ∷ 5 ∷ []) (omega arith)

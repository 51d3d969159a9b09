-- ===== src/SdrPacket/Writing.antt =====
-- The functions that put packets into the ring. The sample arrays are lists of bytes, of which a
-- call takes as many as its count says.
use iq_tool.Prelude.{
  ℕ, zero, suc, ◌+◌, ◌-◌, ◌/◌, ◌%◌, ◌^◌, List, Bool, true, false, ltb, ◌==◌, if◌then◌else◌, length,
  take, drop, mul_size,
}
use iq_tool.RingBuffer.{RingBuffer, write}
use iq_tool.Formats.{Format, format_unknown, id}
use iq_tool.SdrPacket.{
  SdrInputChunkHeader, header_bytes, header_size, iqpk_magic, flag_interleaved, flag_stream_reset,
  base_samples,
}

-- `ring_buffer_write(buffer, bytes, n) < n` is false, and the ring afterwards.
unfoldable pub write_whole : RingBuffer → List ℕ → Bool × RingBuffer
write_whole buffer bytes =
    let (n, buffer') = write buffer bytes in (if ltb n (length bytes) then false else true, buffer')

-- One write after the other, until one is cut short.
unfoldable pub write_parts : RingBuffer → List (List ℕ) → Bool × RingBuffer
write_parts buffer List.[] = (true, buffer)
write_parts buffer (List.◌∷◌ bytes parts) =
    let (whole, buffer') = write_whole buffer bytes in
    let rest = write_parts buffer' parts in if whole then rest else (false, buffer')

-- The header that a writer fills in.
abbrev pub data_header : ℕ → ℕ → Format → SdrInputChunkHeader
data_header num_samples flags format = record {
  magic = iqpk_magic;
  num_samples = num_samples;
  flags = flags;
  format_id = id format % 256;
}

-- `sizeof(short)`
abbrev pub short_size : ℕ
short_size = 2

-- `sdr_packet_serializer_write_deinterleaved_chunk`
unfoldable pub write_deinterleaved_chunk :
    RingBuffer → ℕ → List ℕ → List ℕ → Format → Bool × RingBuffer
write_deinterleaved_chunk buffer num_samples i_data q_data format =
    let header = header_bytes (data_header num_samples 0 format) in
    let bytes_per_plane = mul_size num_samples short_size in
    write_parts buffer (
      List.◌∷◌ header
        (List.◌∷◌ (take bytes_per_plane i_data) (List.◌∷◌ (take bytes_per_plane q_data) List.[])))

-- `sdr_packet_serializer_write_interleaved_chunk`
unfoldable pub write_interleaved_chunk : RingBuffer → ℕ → List ℕ → ℕ → Format → Bool × RingBuffer
write_interleaved_chunk buffer num_samples sample_data bytes_per_sample_pair format =
    let header = header_bytes (data_header num_samples flag_interleaved format) in
    let data_bytes = mul_size num_samples bytes_per_sample_pair in
    write_parts buffer (List.◌∷◌ header (List.◌∷◌ (take data_bytes sample_data) List.[]))

-- `sdr_packet_serializer_write_reset_event`
unfoldable pub write_reset_event : RingBuffer → Bool × RingBuffer
write_reset_event buffer =
    let (n, buffer') =
      write buffer (header_bytes (data_header 0 flag_stream_reset format_unknown)) in
    (n == header_size, buffer')

-- The loop of `sdr_write_interleaved_chunks`, on the bytes from `current_buffer_pos` on: `left` is
-- `total_samples_in_transfer - samples_processed`.
unfoldable pub write_chunks : ℕ → RingBuffer → List ℕ → ℕ → ℕ → Format → RingBuffer
write_chunks zero buffer bytes left bytes_per_sample_pair format = buffer
write_chunks (suc fuel) buffer bytes left bytes_per_sample_pair format =
    let samples = if ltb base_samples left then base_samples else left in
    let (done, buffer') =
      write_interleaved_chunk buffer samples bytes bytes_per_sample_pair format in
    let rest =
      write_chunks fuel buffer' (drop (mul_size samples bytes_per_sample_pair) bytes)
        (left - samples) bytes_per_sample_pair format in
    if ltb 0 left then (if done then rest else buffer') else buffer

-- `sdr_write_interleaved_chunks`. Each round takes a sample, so the fuel is enough.
unfoldable pub write_interleaved_chunks : RingBuffer → List ℕ → ℕ → ℕ → Format → RingBuffer
write_interleaved_chunks buffer bytes length_bytes bytes_per_sample_pair format =
    let total = length_bytes / bytes_per_sample_pair % 2 ^ 32 in
    if length_bytes == 0
    then buffer
    else write_chunks (total + 1) buffer bytes total bytes_per_sample_pair format

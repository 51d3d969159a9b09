-- ===== src/SdrPacket/Reading.antt =====
-- `sdr_packet_serializer_read_packet`, as the reads that it makes: other threads may use the ring
-- between two of them.
use iq_tool.Prelude.{
  ℕ, zero, suc, ◌+◌, ◌*◌, ◌/◌, ◌%◌, List, [], ◌∷◌, ◌++◌, Bool, true, false, ◌&&◌, Option, none,
  some, ltb, ◌==◌, if◌then◌else◌, length, drop, take, copy_at, mul_size,
}
use iq_tool.Formats.{Format, format_unknown, cs24, id, of_id}
use iq_tool.SdrPacket.{iqpk_magic, base_samples, to_le32, of_bytes}

-- A computation that asks for bytes, up to so many at a time, and ends with a result.
pub data Reader (A : Type 0) : Type 0 where
  done : A → Reader A
  ask : ℕ → (List ℕ → Reader A) → Reader A

-- The fields of `SampleChunk` that the function uses. `raw_input_data` is the block of bytes.
pub record TargetChunk : Type 0 where
  pub raw_input_data : List ℕ
  pub packet_sample_format : Format
  pub input_bytes_per_sample_pair : ℕ

-- The return value: -1, or a count of samples.
pub data Status : Type 0 where
  failed : Status
  samples : ℕ → Status

pub record Outcome : Type 0 where
  pub status : Status
  pub is_reset_event : Bool
  pub target_chunk : TargetChunk

-- `_is_packet_format_id_valid`: the cases of the switch.
unfoldable pub is_packet_format_id_valid : ℕ → Bool
unfolding of_id
is_packet_format_id_valid format_id = elim (of_id format_id) [
  | none ↦ false
  | some format ↦ elim format [ cs24 ↦ false | _ ↦ true ]
]

-- `samples_to_read`, cut at the size of a chunk's buffer.
unfoldable pub clipped_samples : ℕ → ℕ
clipped_samples num_samples = if ltb base_samples num_samples then base_samples else num_samples

-- `_read_interleaved_payload`
unfoldable pub read_interleaved_payload : TargetChunk → Bool → ℕ → Reader Outcome
read_interleaved_payload target is_reset num_samples =
    let samples_to_read = clipped_samples num_samples in
    let bytes_to_read = mul_size samples_to_read target.input_bytes_per_sample_pair in
    ask bytes_to_read λ bytes.
      let target' = record target { raw_input_data = copy_at target.raw_input_data 0 bytes } in
      done (record {
        status = if ltb (length bytes) bytes_to_read then failed else samples samples_to_read;
        is_reset_event = is_reset;
        target_chunk = target';
      })

-- The loop of `_read_and_reinterleave_payload`: two bytes of each plane in turn.
unfoldable pub reinterleave : ℕ → List ℕ → List ℕ → List ℕ
reinterleave zero i q = []
reinterleave (suc n) (i₀ ∷ i₁ ∷ i) (q₀ ∷ q₁ ∷ q) = i₀ ∷ i₁ ∷ q₀ ∷ q₁ ∷ reinterleave n i q
reinterleave (suc n) _ _ = []

-- What lies from the start of a block on once these bytes are written there: where they are more than
-- the block has, the list grows by what is written behind its end.
unfoldable pub overwrite : List ℕ → List ℕ → List ℕ
overwrite block bytes = bytes ++ drop (length bytes) block

-- `_read_and_reinterleave_payload`; the two planes stand for the temporary buffer. The loop does not
-- look at the size of the chunk's buffer.
unfoldable pub read_and_reinterleave_payload : TargetChunk → Bool → ℕ → ℕ → Reader Outcome
read_and_reinterleave_payload target is_reset num_samples temp_buffer_size =
    let samples_to_read = clipped_samples num_samples in
    let bytes_per_plane = mul_size samples_to_read 2 in
    let broken : Outcome = record {
      status = failed;
      is_reset_event = is_reset;
      target_chunk = target;
    } in
    if ltb temp_buffer_size (mul_size bytes_per_plane 2)
    then done broken
    else ask bytes_per_plane λ i_plane.
      if ltb (length i_plane) bytes_per_plane
      then done broken
      else ask bytes_per_plane λ q_plane.
        if ltb (length q_plane) bytes_per_plane
        then done broken
        else done (record {
          status = samples samples_to_read;
          is_reset_event = is_reset;
          target_chunk = record target {
            raw_input_data =
                overwrite target.raw_input_data (reinterleave samples_to_read i_plane q_plane);
          };
        })

-- The result of a return before the header is accepted.
abbrev pub ended : Status → TargetChunk → Outcome
ended status target = record { status = status; is_reset_event = false; target_chunk = target }

-- From the header's last six bytes on.
unfoldable pub read_body : TargetChunk → ℕ → ℕ → ℕ → ℕ → Reader Outcome
read_body target temp_buffer_size num_samples flags format_id =
    let format : Format = elim (of_id format_id) [ none ↦ format_unknown | some format ↦ format ] in
    let is_reset = flags / 2 % 2 == 1 in
    let target' = record target { packet_sample_format = format } in
    let stop = λ (status : Status). done (
      let o : Outcome = record {
        status = status;
        is_reset_event = is_reset;
        target_chunk = target';
      } in
      o) in
    if is_packet_format_id_valid format_id
    then (if ltb 0 num_samples && id format == id format_unknown
        then stop failed
        else if ltb (base_samples * 2) num_samples
        then stop failed
        else if num_samples == 0
        then stop (samples 0)
        else if flags % 2 == 1
        then read_interleaved_payload target' is_reset num_samples
        else read_and_reinterleave_payload target' is_reset num_samples temp_buffer_size)
    else done (ended failed target)

-- After the magic number.
unfoldable pub read_header : TargetChunk → ℕ → Reader Outcome
read_header target temp_buffer_size = ask 6 λ bytes.
    if ltb (length bytes) 6
    then done (ended failed target)
    else read_body target temp_buffer_size (of_bytes (take 4 bytes))
        (of_bytes (take 1 (drop 4 bytes))) (of_bytes (take 1 (drop 5 bytes)))

unfoldable pub map_result : {A B : Type 0} → (A → B) → Reader A → Reader B
map_result f (done a) = done (f a)
map_result f (ask n next) = ask n (λ bytes. map_result f (next bytes))

-- The loop that looks for the magic number: `current_word` is what the previous round left in it.
-- `none`: the fuel ran out.
unfoldable pub synchronize : ℕ → ℕ → TargetChunk → ℕ → Reader (Option Outcome)
synchronize zero current_word target temp_buffer_size = done none
synchronize (suc fuel) current_word target temp_buffer_size =
    let end = λ (status : Status). done (some (ended status target)) in
    ask 4 λ bytes.
      let word = of_bytes (bytes ++ drop (length bytes) (to_le32 current_word)) in
      if length bytes == 0
      then end (samples 0)
      else if ltb (length bytes) 4
      then end failed
      else if word == iqpk_magic
      then map_result some (read_header target temp_buffer_size)
      else ask 1 λ byte.
        if ltb (length byte) 1
        then end (samples 0)
        else synchronize fuel (word / 256 + of_bytes byte * 16777216) target temp_buffer_size

-- `sdr_packet_serializer_read_packet`
unfoldable pub read_packet : ℕ → TargetChunk → ℕ → Reader (Option Outcome)
read_packet fuel target temp_buffer_size = synchronize fuel 0 target temp_buffer_size

-- ===== src/SdrPacket/Payload.antt =====
-- What the reading functions do with the bytes at the front of a list.
use mathlib.Core.Option
use iq_tool.Prelude.{
  ℕ, zero, suc, ◌+◌, ◌*◌, ◌/◌, ◌%◌, ◌^◌, ◌≤◌, ◌<◌, ◌≡◌, ◌≢◌, ◌⊎◌, refl, ap, ap₂, ◌∙◌, inl, inr,
  List, [], ◌∷◌, Bool, true, false, some, arith, ltb, if◌then◌else◌, length, take, drop, min,
  copy_at, length-take, length-drop, mul_size, le→ltb,
}
use iq_tool.Formats.{Format, format_unknown, cs16, cs24, id, of_id}
use iq_tool.SdrPacket.{flag_interleaved, flag_stream_reset, base_samples, of_bytes, to_le32}
use iq_tool.SdrPacket.Reading.{
  Reader, done, ask, TargetChunk, samples, Outcome, is_packet_format_id_valid, clipped_samples,
  read_interleaved_payload, reinterleave, overwrite, read_and_reinterleave_payload, read_body,
  read_header, map_result, synchronize,
}
use iq_tool.SdrPacket.Runs.{run_list, run_list_answer}

-- The result of a packet of data.
abbrev pub delivered : ℕ → List ℕ → Format → TargetChunk → Outcome
delivered n bytes format target = record {
  status = samples n;
  is_reset_event = false;
  target_chunk = record target {
    raw_input_data = copy_at target.raw_input_data 0 bytes;
    packet_sample_format = format;
  };
}

-- A format that a packet of data may have.
abbrev pub IsData : Format → Type 0
IsData format = (format ≢ format_unknown) × (format ≢ cs24)

pub run_list-map_result :
    {A B : Type 0} (f : A → B) (reader : Reader A) (closed : Bool) (bytes : List ℕ)
    → run_list (map_result f reader) closed bytes
      ≡ Option.map (λ (t : A × List ℕ). (f t.0, t.1)) (run_list reader closed bytes)
unfolding run_list map_result
run_list-map_result f (done a) closed bytes = refl
run_list-map_result f (ask n next) closed [] =
    ground (arith, run_list-map_result f (next (take n [])) closed (drop n []))
run_list-map_result f (ask n next) closed (x ∷ bytes) =
    ground (arith, run_list-map_result f (next (take n (x ∷ bytes))) closed (drop n (x ∷ bytes)))

-- At the magic number the search ends.
pub synchronized :
    (fuel word : ℕ) (target : TargetChunk) (size : ℕ) (closed : Bool) (bytes : List ℕ)
    → run_list (synchronize (suc fuel) word target size) closed (73 ∷ 81 ∷ 80 ∷ 75 ∷ bytes)
      ≡ Option.map
          (λ (t : Outcome × List ℕ). (some t.0, t.1))
          (run_list (read_header target size) closed bytes)
unfolding run_list synchronize
synchronized fuel word target size closed bytes =
    run_list-map_result some (read_header target size) closed bytes

-- The rest of the header is taken apart as it was put together.
pub header_read :
    (target : TargetChunk) (size : ℕ) (closed : Bool) (n flags format_id : ℕ) (bytes : List ℕ)
    → n < 2 ^ 32
    → run_list
        (read_header target size)
        closed
        (n % 256 ∷ n / 256 % 256 ∷ n / 65536 % 256 ∷ n / 16777216 % 256 ∷ flags ∷ format_id ∷ bytes)
      ≡ run_list (read_body target size n flags format_id) closed bytes
unfolding run_list read_header
header_read target size closed n flags format_id bytes small =
    ap (λ m. run_list (read_body target size m (flags + 0) (format_id + 0)) closed bytes) number
    ∙ ap₂ (λ f k. run_list (read_body target size n f k) closed bytes) (omega arith) (omega arith)
  where
    number : of_bytes (to_le32 n) ≡ n
    number = omega arith

pub body_interleaved :
    (target : TargetChunk) (size n : ℕ) (format : Format)
    → IsData format
    → 0 < n
    → n ≤ base_samples * 2
    → read_body target size n flag_interleaved (id format % 256)
      ≡ read_interleaved_payload (record target { packet_sample_format = format }) false n
unfolding read_body is_packet_format_id_valid id of_id
body_interleaved target size n format_unknown h pos small = absurd (h.0 refl)
body_interleaved target size n cs24 h pos small = absurd (h.1 refl)
body_interleaved target size n cs16 h pos small = ground arith
body_interleaved target size n _ h pos small = ground arith

pub body_deinterleaved :
    (target : TargetChunk) (size n : ℕ) (format : Format)
    → IsData format
    → 0 < n
    → n ≤ base_samples * 2
    → read_body target size n 0 (id format % 256)
      ≡ read_and_reinterleave_payload (record target { packet_sample_format = format }) false n size
unfolding read_body is_packet_format_id_valid id of_id
body_deinterleaved target size n format_unknown h pos small = absurd (h.0 refl)
body_deinterleaved target size n cs24 h pos small = absurd (h.1 refl)
body_deinterleaved target size n cs16 h pos small = ground arith
body_deinterleaved target size n _ h pos small = ground arith

pub body_reset :
    (target : TargetChunk) (size : ℕ)
    → read_body target size 0 flag_stream_reset (id format_unknown % 256)
      ≡ done (record {
        status = samples 0;
        is_reset_event = true;
        target_chunk = record target { packet_sample_format = format_unknown };
      })
unfolding read_body is_packet_format_id_valid id of_id
body_reset target size = refl

-- The samples that are taken from a packet of `n`.
abbrev pub kept : ℕ → ℕ
kept n = min n base_samples

-- A request for no more than there is gets its answer.
answered :
    (size : ℕ) (bytes : List ℕ) (closed : Bool)
    → size ≤ length bytes
    → (size ≡ 0) ⊎ ((length bytes ≢ 0) ⊎ (closed ≡ true))
answered zero bytes closed h = inl refl
answered (suc size) bytes closed h = inr (inl (omega arith))

-- The payload of pairs is read if it is all there.
pub payload_interleaved :
    (target : TargetChunk) (n : ℕ) (closed : Bool) (bytes : List ℕ)
    → kept n * target.input_bytes_per_sample_pair < 2 ^ 64
    → kept n * target.input_bytes_per_sample_pair ≤ length bytes
    → run_list (read_interleaved_payload target false n) closed bytes
      ≡ some (
        delivered
            (kept n)
            (take (kept n * target.input_bytes_per_sample_pair) bytes)
            target.packet_sample_format
            target,
        drop (kept n * target.input_bytes_per_sample_pair) bytes,
      )
unfolding read_interleaved_payload clipped_samples
payload_interleaved target n closed bytes small there =
    let size = kept n * target.input_bytes_per_sample_pair in
    let clip : (if ltb base_samples n then base_samples else n) ≡ kept n = ground arith in
    let same : mul_size (kept n) target.input_bytes_per_sample_pair ≡ size = omega arith in
    let full : ltb (length (take size bytes)) size ≡ false =
      le→ltb (length (take size bytes)) size (omega (arith, length-take size bytes)) in
    rw clip (
      rw same (
        run_list_answer size _ closed bytes (answered size bytes closed there)
        ∙ unfold run_list in rw full))

-- The result of a packet of two planes: the chunk's buffer, and what is written behind its end.
abbrev pub overwritten : ℕ → List ℕ → Format → TargetChunk → Outcome
overwritten n bytes format target = record {
  status = samples n;
  is_reset_event = false;
  target_chunk = record target {
    raw_input_data = overwrite target.raw_input_data bytes;
    packet_sample_format = format;
  };
}

-- The payload of two planes is read if both are there and the temporary buffer holds them.
pub payload_deinterleaved :
    (target : TargetChunk) (n temp_size : ℕ) (closed : Bool) (bytes : List ℕ)
    → kept n * 2 * 2 ≤ temp_size
    → kept n * 2 * 2 ≤ length bytes
    → run_list (read_and_reinterleave_payload target false n temp_size) closed bytes
      ≡ some (
        overwritten
            (kept n)
            (reinterleave
              (kept n)
              (take (kept n * 2) bytes)
              (take (kept n * 2) (drop (kept n * 2) bytes)))
            target.packet_sample_format
            target,
        drop (kept n * 2) (drop (kept n * 2) bytes),
      )
unfolding read_and_reinterleave_payload clipped_samples
payload_deinterleaved target n temp_size closed bytes roomy there =
    let plane = kept n * 2 in
    let clip : (if ltb base_samples n then base_samples else n) ≡ kept n = ground arith in
    let same : mul_size (kept n) 2 ≡ plane = omega arith in
    let small : ltb temp_size (mul_size plane 2) ≡ false =
      le→ltb temp_size (mul_size plane 2) (omega arith) in
    let i_full : ltb (length (take plane bytes)) plane ≡ false =
      le→ltb (length (take plane bytes)) plane (omega (arith, length-take plane bytes)) in
    let behind : plane ≤ length (drop plane bytes) = omega (arith, length-drop plane bytes) in
    let q_full : ltb (length (take plane (drop plane bytes))) plane ≡ false =
      le→ltb (length (take plane (drop plane bytes))) plane
        (omega (arith, length-take plane (drop plane bytes))) in
    rw clip (
      rw same (
        rw small (
          run_list_answer plane _ closed bytes (answered plane bytes closed (omega arith))
          ∙ rw i_full (
              run_list_answer plane _ closed (drop plane bytes)
                (answered plane (drop plane bytes) closed behind)
              ∙ unfold run_list in rw q_full))))

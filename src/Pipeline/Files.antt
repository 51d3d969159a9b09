-- ===== src/Pipeline/Files.antt =====
-- `rawfile_start_stream` of src/input_rawfile.c and `wav_start_stream` of src/input_wav.c, with what
-- `reader_thread_func` does after them. `sf_read_raw` is code outside the model: its answer is the
-- number of bytes (`none`: it is negative), and it may leave anything in the chunk. The threshold is
-- the writer's ring's capacity times a floating-point number, and an argument here.
use iq_tool.Prelude.{ℕ, ◌/◌, Bool, true, false, ◌||◌, Option, none, some, ltb, ◌==◌, if◌then◌else◌}
use iq_tool.Pipeline.Calls.{request_shutdown, handle_fatal_thread_error, put_anyway}
use iq_tool.Pipeline.Threads.{reader_end}
use iq_tool.Pipeline.{
  free_sample_chunk_queue, reader_output_queue, Act, get, put, load, store, process,
  writer_ring_size, read_flags, raise_error, finish,
}

-- How far the reader is to wait for the writer, and `input_bytes_per_sample_pair`.
pub record FileConfig : Type 0 where
  pub pacing_required : Bool
  pub writer_buffer_threshold : ℕ
  pub input_bytes_per_sample_pair : ℕ

-- The start of a round: the flags, and the wait while the writer's ring is too full.
unfoldable pub paced_round : FileConfig → (Option ℕ → Act) → Act
paced_round c with_item = read_flags λ requested error.
    let take_item = get free_sample_chunk_queue with_item in
    if requested || error
    then reader_end
    else if c.pacing_required
    then (writer_ring_size λ n. if ltb c.writer_buffer_threshold n then finish true else take_item)
    else take_item

-- An error of libsndfile.
unfoldable pub read_error : ℕ → Act
read_error x = raise_error (request_shutdown (put_anyway free_sample_chunk_queue x reader_end))

-- What the raw reader does with what `sf_read_raw` returned.
unfoldable pub rawfile_read : FileConfig → ℕ → Option ℕ → Act
rawfile_read c x none = read_error x
rawfile_read c x (some bytes_read) =
    if bytes_read == 0
    then store x (λ k. record k { is_last_chunk = true; frames_read = 0 })
        (put_anyway reader_output_queue x reader_end)
    else store x
        (λ k. record k {
          frames_read = bytes_read / c.input_bytes_per_sample_pair;
          is_last_chunk = false;
        })
        (put reader_output_queue x λ accepted.
          if accepted then finish true else put_anyway free_sample_chunk_queue x reader_end)

unfoldable pub rawfile_item : FileConfig → Option ℕ → Act
rawfile_item c none = reader_end
rawfile_item c (some x) =
    store x (λ k. record k { stream_discontinuity_event = false })
      (process x (λ answer. rawfile_read c x answer.frames))

-- A round of `rawfile_start_stream`; `formats_differ`: raw passthrough is asked for, but the input and
-- the output have different formats.
unfoldable pub rawfile_thread : Bool → FileConfig → Act
rawfile_thread formats_differ c =
    if formats_differ then handle_fatal_thread_error reader_end else paced_round c (rawfile_item c)

-- What the WAV reader does with it; the last test looks into the chunk again.
unfoldable pub wav_read : FileConfig → ℕ → Option ℕ → Act
wav_read c x none = read_error x
wav_read c x (some bytes_read) =
    let frames_read = bytes_read / c.input_bytes_per_sample_pair in
    store x (λ k. record k { frames_read = frames_read; is_last_chunk = frames_read == 0 })
      (put reader_output_queue x λ accepted.
        if accepted
        then (load x λ k. if k.is_last_chunk then reader_end else finish true)
        else put_anyway free_sample_chunk_queue x reader_end)

unfoldable pub wav_item : FileConfig → Option ℕ → Act
wav_item c none = reader_end
wav_item c (some x) =
    store x (λ k. record k { stream_discontinuity_event = false })
      (process x (λ answer. wav_read c x answer.frames))

-- A round of `wav_start_stream`
unfoldable pub wav_thread : FileConfig → Act
wav_thread c = paced_round c (wav_item c)

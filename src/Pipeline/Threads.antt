-- ===== src/Pipeline/Threads.antt =====
-- The bodies of the threads' loops in src/pipeline.c, src/utility_threads.c and
-- src/output_stdout.c. The signal processing between two accesses to the queues is
-- code outside the model, which may leave anything in the chunk that it is given.
use iq_tool.Prelude.{
  ℕ, ◌*◌, ◌%◌, ◌^◌, Bool, true, false, not, ◌&&◌, ◌||◌, Option, none, some, ltb, leb, ◌==◌,
  if◌then◌else◌, take, copy_at, mul_size,
}
use iq_tool.RingBuffer.{write, signal_end_of_stream}
use iq_tool.Pipeline.Calls.{request_shutdown, handle_fatal_thread_error, put_anyway}
use iq_tool.Pipeline.{
  QueueId, free_sample_chunk_queue, reader_output_queue, pre_processor_output_queue,
  resampler_output_queue, post_processor_output_queue, iq_optimization_data_queue, buffer_a,
  buffer_b, Act, get, poll, put, shut, load, store, process, on_writer_ring, read_flags, finish,
}

-- `IQ_CORRECTION_FFT_SIZE`, and `sizeof(complex_float_t)`
abbrev pub iq_correction_fft_size : ℕ
iq_correction_fft_size = 1024

abbrev pub complex_float_size : ℕ
complex_float_size = 8

-- The end of `reader_thread_func`: a marker for the stages if a shutdown was requested.
unfoldable pub reader_end : Act
reader_end = read_flags λ requested error.
    if requested
    then (poll free_sample_chunk_queue λ last_item. elim last_item [
      | none ↦ finish false
      | some x ↦
          store x (λ c. record c { is_last_chunk = true; frames_read = 0 })
            (put_anyway reader_output_queue x (finish false))
    ])
    else finish false

-- What the reader does with a packet that it has read into the chunk `x`; the count of frames read
-- is not kept.
unfoldable pub reader_packet : ℕ → Bool → Option ℕ → Act
reader_packet x is_reset none =
    handle_fatal_thread_error (put_anyway free_sample_chunk_queue x reader_end)
reader_packet x is_reset (some frames_read) =
    if frames_read == 0 && not is_reset
    then store x (λ c. record c { is_last_chunk = true; frames_read = 0 })
        (put_anyway reader_output_queue x reader_end)
    else store x
        (λ c. record c {
          frames_read = frames_read;
          stream_discontinuity_event = is_reset;
          is_last_chunk = false;
        })
        (put reader_output_queue x λ accepted.
          if accepted then finish true else put_anyway free_sample_chunk_queue x reader_end)

unfoldable pub reader_item : Option ℕ → Act
reader_item none = reader_end
reader_item (some x) = process x (λ answer. reader_packet x answer.is_reset answer.frames)

-- A round of `reader_thread_func` in the buffered mode.
unfoldable pub reader_thread : Act
reader_thread = read_flags λ requested error.
    if requested || error then reader_end else get free_sample_chunk_queue reader_item

-- The copy for the optimizer: a spare chunk, if there is one, gets the front of the buffer.
unfoldable pub offer_to_optimizer : Bool → ℕ → Act → Act
offer_to_optimizer iq_correction x next = load x λ c.
    if iq_correction
      && (leb iq_correction_fft_size c.frames_read && not c.stream_discontinuity_event)
    then (poll free_sample_chunk_queue λ opt_item. elim opt_item [
      | none ↦ next
      | some y ↦ load x λ c.
          let block =
            take (iq_correction_fft_size * complex_float_size) c.complex_sample_buffer_a in
          store y
            (λ d. record d { complex_sample_buffer_a = copy_at d.complex_sample_buffer_a 0 block })
            (put_anyway iq_optimization_data_queue y next)
    ])
    else next

-- The end of a round of the pre-processor.
unfoldable pub pre_processor_pass : ℕ → Act
pre_processor_pass x = load x λ c.
    if ltb 0 c.frames_read
    then (put pre_processor_output_queue x λ accepted.
        if accepted then finish true else put_anyway free_sample_chunk_queue x (finish false))
    else put_anyway free_sample_chunk_queue x (finish true)

-- A round of `pre_processor_thread_func`; `iq_correction` is `config->iq_correction.enable`, which
-- is also when the optimizer's queue exists.
unfoldable pub pre_processor_thread : Bool → Act
pre_processor_thread iq_correction = get reader_output_queue λ item. elim item [
  | none ↦ finish false
  | some x ↦ load x λ c.
      let last = put_anyway pre_processor_output_queue x (finish false) in
      if c.is_last_chunk
      then (if iq_correction then shut iq_optimization_data_queue last else last)
      else if c.stream_discontinuity_event
      then put pre_processor_output_queue x finish
      else process x λ answer. offer_to_optimizer iq_correction x (pre_processor_pass x)
]

-- The resampling of a chunk: the buffers change their places.
unfoldable pub resample : Bool → ℕ → Act → Act
resample is_passthrough x next =
    store x (λ c. record c { current_input_buffer = buffer_a; current_output_buffer = buffer_b })
      (let swap =
          store x
            (λ c. record c { current_input_buffer = buffer_b; current_output_buffer = buffer_a })
            next in
        if is_passthrough
        then store x
            (λ c. record c {
              complex_sample_buffer_b = copy_at c.complex_sample_buffer_b 0 (
                  take (mul_size (c.frames_read % 2 ^ 32) complex_float_size)
                    c.complex_sample_buffer_a);
              frames_to_write = c.frames_read % 2 ^ 32;
            })
            swap
        else process x λ answer. swap)

-- A round of `resampler_thread_func`
unfoldable pub resampler_thread : Bool → Act
resampler_thread is_passthrough = get pre_processor_output_queue λ item. elim item [
  | none ↦ finish false
  | some x ↦ load x λ c.
      if c.is_last_chunk
      then put_anyway resampler_output_queue x (finish false)
      else if c.stream_discontinuity_event
      then put resampler_output_queue x finish
      else resample is_passthrough x (
          put resampler_output_queue x λ accepted.
            if accepted then finish true else put_anyway free_sample_chunk_queue x (finish false))
]

-- The end of a round of the post-processor. `bytes_per_pair` is `output_bytes_per_sample_pair`.
unfoldable pub post_processor_pass : Bool → ℕ → ℕ → Act
post_processor_pass pacing_is_required bytes_per_pair x = load x λ c.
    let release = put_anyway free_sample_chunk_queue x (finish true) in
    if ltb 0 c.frames_to_write
    then (if pacing_is_required
        then on_writer_ring
            (λ r.
              (write r (take (mul_size c.frames_to_write bytes_per_pair) c.final_output_data)).1)
            release
        else put post_processor_output_queue x finish)
    else release

-- A round of `post_processor_thread_func`. Its input is the resampler's output, or without a
-- resampler the pre-processor's.
unfoldable pub post_processor_thread : QueueId → Bool → ℕ → Act
post_processor_thread input pacing_is_required bytes_per_pair = get input λ item. elim item [
  | none ↦ finish false
  | some x ↦ load x λ c.
      if c.is_last_chunk
      then (if pacing_is_required
          then on_writer_ring signal_end_of_stream
              (put_anyway free_sample_chunk_queue x (finish false))
          else put_anyway post_processor_output_queue x (finish false))
      else if c.stream_discontinuity_event
      then put post_processor_output_queue x finish
      else process x λ answer. post_processor_pass pacing_is_required bytes_per_pair x
]

-- A round of `iq_optimization_thread_func`: the chunk's buffer is read.
unfoldable pub iq_optimization_thread : Act
iq_optimization_thread = get iq_optimization_data_queue λ item. elim item [
  | none ↦ finish false
  | some x ↦ load x λ c. put_anyway free_sample_chunk_queue x (finish true)
]

abbrev get_or_zero : Option ℕ → ℕ
get_or_zero none = 0
get_or_zero (some n) = n

-- After `fwrite`: a short count asks for a shutdown and ends the loop.
unfoldable pub stdout_written : ℕ → ℕ → Option ℕ → Act
stdout_written x bytes written =
    let stop = put_anyway free_sample_chunk_queue x (finish false) in
    if get_or_zero written == bytes
    then put free_sample_chunk_queue x finish
    else (read_flags λ requested error. if requested then stop else request_shutdown stop)

-- What it does with the chunk that it was given; its answer is what `fwrite` returns.
unfoldable pub stdout_chunk : ℕ → Option ℕ → Act
stdout_chunk bytes_per_pair none = finish false
stdout_chunk bytes_per_pair (some x) = load x λ c.
    let bytes = mul_size c.frames_to_write bytes_per_pair in
    if c.stream_discontinuity_event
    then put_anyway free_sample_chunk_queue x (finish true)
    else if c.is_last_chunk
    then put_anyway free_sample_chunk_queue x (finish false)
    else if ltb 0 bytes
    then process x (λ answer. stdout_written x bytes answer.frames)
    else put free_sample_chunk_queue x finish

-- A round of `stdout_out_run_writer`
unfoldable pub stdout_writer_thread : QueueId → ℕ → Act
stdout_writer_thread input bytes_per_pair = get input (stdout_chunk bytes_per_pair)

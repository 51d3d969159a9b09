-- ===== src/Pipeline/Calls.antt =====
-- The calls of src/signal_handler.c that the threads make, as accesses to what they share.
use iq_tool.Prelude.{ℕ, if◌then◌else◌}
use iq_tool.RingBuffer
use iq_tool.Pipeline.{
  QueueId, free_sample_chunk_queue, reader_output_queue, pre_processor_output_queue,
  resampler_output_queue, post_processor_output_queue, iq_optimization_data_queue, Act, put, shut,
  on_writer_ring, on_sdr_ring, read_flags, raise_error, raise_shutdown,
}

-- `request_shutdown`, less the call of `stop_stream` for RTL-SDR.
unfoldable pub request_shutdown : Act → Act
request_shutdown next = read_flags λ requested error.
    if requested
    then next
    else raise_shutdown (
        shut free_sample_chunk_queue (
          shut reader_output_queue (
            shut pre_processor_output_queue (
              shut resampler_output_queue (
                shut post_processor_output_queue (
                  shut iq_optimization_data_queue (
                    on_writer_ring RingBuffer.signal_shutdown
                      (on_sdr_ring RingBuffer.signal_shutdown next))))))))

-- `handle_fatal_thread_error`
unfoldable pub handle_fatal_thread_error : Act → Act
handle_fatal_thread_error next =
    read_flags λ requested error. if error then next else raise_error (request_shutdown next)

-- An enqueue whose result the code does not look at.
unfoldable pub put_anyway : QueueId → ℕ → Act → Act
put_anyway id x next = put id x λ accepted. next

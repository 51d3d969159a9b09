-- ===== src/Pipeline/Tests.antt =====
-- Tests of the model of the pipeline's threads, and an instance of each property.
use iq_tool.Prelude.{◌+◌, ◌≡◌, refl, [], ◌∷◌, ◌++◌, true, false, none, some, arith}
use iq_tool.Queue
use iq_tool.Queue.{Queue}
use iq_tool.Pipeline.{
  QueueId, free_sample_chunk_queue, reader_output_queue, pre_processor_output_queue,
  resampler_output_queue, post_processor_output_queue, iq_optimization_data_queue, buffer_a,
  SampleChunk, Answer, finish, set_queue, set_chunk, index, step, get, after_get, Act, World,
}
use iq_tool.Pipeline.Calls.{put_anyway}
use iq_tool.Pipeline.Ownership
use iq_tool.Pipeline.Files.{wav_read}
use iq_tool.Pipeline.GivenAway.{wav_read_lem}
use iq_tool.Pipeline.Exclusion
use iq_tool.Pipeline.Threads.{
  reader_item, reader_thread, reader_packet, reader_end, stdout_writer_thread,
}
use iq_tool.Pipeline.Ownership.{count, touched, Owns}
use iq_tool.Pipeline.Places.{queued, AllValid}
use iq_tool.Pipeline.Runs.{Thread, spawned, moves, Runs, start, then_moves, kept_by_all}
use iq_tool.Pipeline.Exclusion.{
  buffered_sdr, input_thread, PipelineConfig, spawned_threads, chunks_conserved, chunk_exclusive,
  queues_stay_valid,
}
use iq_tool.Pipeline.Marker.{steps, stale_marker_missed}

abbrev empty_queue : Queue
empty_queue = record {
  buffer = 0 ∷ 0 ∷ [];
  capacity = 2;
  count = 0;
  head = 0;
  tail = 0;
  shutting_down = false;
}

-- Two chunks, at 8 and 16.
abbrev full_queue : Queue
full_queue = record {
  buffer = 8 ∷ 16 ∷ [];
  capacity = 2;
  count = 2;
  head = 0;
  tail = 0;
  shutting_down = false;
}

abbrev last_queue : Queue
last_queue = record {
  buffer = 8 ∷ 16 ∷ [];
  capacity = 2;
  count = 1;
  head = 1;
  tail = 0;
  shutting_down = false;
}

abbrev reset_chunk : SampleChunk
reset_chunk = record {
  complex_sample_buffer_a = [];
  complex_sample_buffer_b = [];
  final_output_data = [];
  current_input_buffer = buffer_a;
  current_output_buffer = buffer_a;
  frames_read = 0;
  frames_to_write = 0;
  is_last_chunk = false;
  stream_discontinuity_event = true;
}

abbrev some_answer : Answer
some_answer = record { chunk = reset_chunk; frames = some 0; is_reset = false }

abbrev first_queues : QueueId → Queue
first_queues free_sample_chunk_queue = full_queue
first_queues _ = empty_queue

abbrev first_world : World
first_world = record {
  queues = first_queues;
  chunks = λ x. reset_chunk;
  writer_input_buffer = none;
  sdr_input_buffer = none;
  shutdown_flag = false;
  error_occurred = false;
}

abbrev to_stdout : PipelineConfig
to_stdout = record {
  input = buffered_sdr;
  raw_passthrough = true;
  no_resample = true;
  iq_correction = false;
  is_passthrough = false;
  pacing_is_required = false;
  output_bytes_per_sample_pair = 4;
}

first_queues-AllValid : AllValid first_world
first_queues-AllValid free_sample_chunk_queue = omega arith
first_queues-AllValid reader_output_queue = omega arith
first_queues-AllValid pre_processor_output_queue = omega arith
first_queues-AllValid resampler_output_queue = omega arith
first_queues-AllValid post_processor_output_queue = omega arith
first_queues-AllValid iq_optimization_data_queue = omega arith

abbrev second_world : World
second_world = set_queue first_world free_sample_chunk_queue last_queue

abbrev writer : Thread
writer = spawned (stdout_writer_thread reader_output_queue 4)

abbrev reader_holds : Thread
reader_holds = record (spawned reader_thread) { now = reader_item (some 8); held = 8 ∷ [] }

-- The reader looks at the flags and takes the first chunk.
taken_run : Runs first_world (spawned_threads to_stdout) second_world (reader_holds ∷ writer ∷ [])
unfolding spawned_threads input_thread Exclusion.spawn_if Exclusion.writer_input
    Ownership.held_after Ownership.held_get step reader_thread reader_item Queue.dequeue
    Queue.remove after_get
taken_run =
    then_moves
      (then_moves start (
        moves first_world [] (writer ∷ []) (spawned reader_thread) some_answer
          {next = get free_sample_chunk_queue reader_item} refl))
      (moves first_world [] (writer ∷ [])
        (record (spawned reader_thread) { now = get free_sample_chunk_queue reader_item })
        some_answer {w' = second_world} {next = reader_item (some 8)} refl)

chunks_conserved_example :
    queued second_world 8 + kept_by_all (reader_holds ∷ writer ∷ []) 8 ≡ queued first_world 8
chunks_conserved_example = chunks_conserved to_stdout 8 first_queues-AllValid taken_run

chunk_exclusive_example : (queued second_world 8 ≡ 0) × (kept_by_all ([] ++ writer ∷ []) 8 ≡ 0)
unfolding queued count touched reader_item
chunk_exclusive_example =
    chunk_exclusive to_stdout [] (writer ∷ []) reader_holds 8 first_queues-AllValid (omega arith)
      taken_run refl

-- The reader's marker waits in its queue, alone.
abbrev marker_queue : Queue
marker_queue = record empty_queue { buffer = 8 ∷ 0 ∷ []; count = 1; tail = 1 }

abbrev marked_chunk : SampleChunk
marked_chunk = record reset_chunk { is_last_chunk = true }

abbrev marked_world : World
marked_world = set_chunk second_world 8 marked_chunk

abbrev waiting_world : World
waiting_world = set_queue marked_world reader_output_queue marker_queue

stale_marker_missed_example :
    ((waiting_world.chunks 8).is_last_chunk ≡ true)
    × (steps 2 some_answer (some (waiting_world, stdout_writer_thread reader_output_queue 4))
        ≡ some (
          set_queue waiting_world reader_output_queue (record marker_queue { count = 0; head = 1 }),
          put_anyway free_sample_chunk_queue 8 (finish true),
        ))
unfolding step reader_packet set_chunk set_queue index Queue.dequeue Queue.remove
stale_marker_missed_example =
    stale_marker_missed second_world marked_world waiting_world some_answer 8 4 reader_output_queue
      (put_anyway reader_output_queue 8 reader_end) (record marker_queue { count = 0; head = 1 })
      refl refl refl refl

wav_read_lem_example :
    (w' : World) × (now : Act) × (steps 2 some_answer (
        some (
          second_world,
          wav_read
              (record {
                pacing_required = true;
                writer_buffer_threshold = 900;
                input_bytes_per_sample_pair = 4;
              })
              8
              (some 12),
        ))
      ≡ some (w', now))
    × ((touched now ≡ some 8) × (queued w' 8 ≡ queued second_world 8 + 1))
unfolding set_queue index Queue.enqueue
wav_read_lem_example =
    wav_read_lem second_world some_answer
      (record {
        pacing_required = true;
        writer_buffer_threshold = 900;
        input_bytes_per_sample_pair = 4;
      })
      8 12 marker_queue (omega arith) refl

-- ===== src/Pipeline.antt =====
-- src/pipeline.c, src/signal_handler.c, src/utility_threads.c: the threads that hand the chunks of
-- the pool to each other through the queues. A thread is the sequence of the accesses that it makes
-- to what the threads share; between two of them any other thread may run. A pointer to a chunk is
-- its address. A queue that the configuration does not create is one that no thread uses.
pub mod Calls
pub mod Threads
pub mod Files
pub mod Ownership
pub mod Rules
pub mod Bodies
pub mod Places
pub mod Steps
pub mod Runs
pub mod Exclusion
pub mod Marker
pub mod FileReaders
pub mod GivenAway
pub mod Pool
mod Tests
use iq_tool.Prelude.{ℕ, List, [], ◌∷◌, Bool, true, false, Option, none, some, ◌==◌, if◌then◌else◌}
use iq_tool.RingBuffer
use iq_tool.RingBuffer.{RingBuffer, get_size}
use iq_tool.Queue
use iq_tool.Queue.{Queue, enqueue, dequeue, try_dequeue}

-- The pointers to queues of `AppResources`; the input queues of the stages are aliases of these.
pub data QueueId : Type 0 where
  free_sample_chunk_queue : QueueId
  reader_output_queue : QueueId
  pre_processor_output_queue : QueueId
  resampler_output_queue : QueueId
  post_processor_output_queue : QueueId
  iq_optimization_data_queue : QueueId

-- The two buffers that `current_input_buffer` and `current_output_buffer` point to.
pub data Side : Type 0 where
  buffer_a : Side
  buffer_b : Side

-- `SampleChunk`, less its capacities and its raw input.
pub record SampleChunk : Type 0 where
  pub complex_sample_buffer_a : List ℕ
  pub complex_sample_buffer_b : List ℕ
  pub final_output_data : List ℕ
  pub current_input_buffer : Side
  pub current_output_buffer : Side
  pub frames_read : ℕ
  pub frames_to_write : ℕ
  pub is_last_chunk : Bool
  pub stream_discontinuity_event : Bool

-- What code outside the model leaves behind when it has worked on a chunk: the signal processing,
-- or the packet reader (`frames` is its return value, `none` if that is negative).
pub record Answer : Type 0 where
  pub chunk : SampleChunk
  pub frames : Option ℕ
  pub is_reset : Bool

-- A thread's next accesses. `finish` ends a round of its loop, and tells whether another follows.
pub data Act : Type 0 where
  get : QueueId → (Option ℕ → Act) → Act
  poll : QueueId → (Option ℕ → Act) → Act
  put : QueueId → ℕ → (Bool → Act) → Act
  shut : QueueId → Act → Act
  load : ℕ → (SampleChunk → Act) → Act
  store : ℕ → (SampleChunk → SampleChunk) → Act → Act
  process : ℕ → (Answer → Act) → Act
  on_writer_ring : (RingBuffer → RingBuffer) → Act → Act
  on_sdr_ring : (RingBuffer → RingBuffer) → Act → Act
  writer_ring_size : (ℕ → Act) → Act
  read_flags : (Bool → Bool → Act) → Act
  raise_error : Act → Act
  raise_shutdown : Act → Act
  finish : Bool → Act

-- What the threads share.
pub record World : Type 0 where
  pub queues : QueueId → Queue
  pub chunks : ℕ → SampleChunk
  pub writer_input_buffer : Option RingBuffer
  pub sdr_input_buffer : Option RingBuffer
  pub shutdown_flag : Bool
  pub error_occurred : Bool

-- A number for each queue.
unfoldable pub index : QueueId → ℕ
index free_sample_chunk_queue = 0
index reader_output_queue = 1
index pre_processor_output_queue = 2
index resampler_output_queue = 3
index post_processor_output_queue = 4
index iq_optimization_data_queue = 5

unfoldable pub set_queue : World → QueueId → Queue → World
set_queue w id q = record w { queues = λ i. if index i == index id then q else w.queues i }

unfoldable pub set_chunk : World → ℕ → SampleChunk → World
set_chunk w x c = record w { chunks = λ y. if y == x then c else w.chunks y }

-- A ring that is NULL is left alone.
pub on_ring : (RingBuffer → RingBuffer) → Option RingBuffer → Option RingBuffer
on_ring f none = none
on_ring f (some r) = some (f r)

pub size_of : Option RingBuffer → ℕ
size_of none = 0
size_of (some r) = get_size r

-- A call of the queue `id`, and what the thread does with its result.
unfoldable pub after_get :
    World → QueueId → (Option ℕ → Act) → Option (Option ℕ × Queue) → Option (World × Act)
after_get w id next none = none
after_get w id next (some t) = some (set_queue w id t.1, next t.0)

unfoldable pub after_put :
    World → QueueId → (Bool → Act) → Option (Bool × Queue) → Option (World × Act)
after_put w id next none = none
after_put w id next (some t) = some (set_queue w id t.1, next t.0)

-- The first access of a thread, and what it does next; `none` if it waits, or its round is over.
-- The answer is used where code outside the model works on a chunk.
unfoldable pub step : World → Answer → Act → Option (World × Act)
step w answer (get id next) = after_get w id next (dequeue (w.queues id))
step w answer (poll id next) = after_get w id next (some (try_dequeue (w.queues id)))
step w answer (put id x next) = after_put w id next (enqueue (w.queues id) x)
step w answer (shut id next) = some (set_queue w id (Queue.signal_shutdown (w.queues id)), next)
step w answer (load x next) = some (w, next (w.chunks x))
step w answer (store x f next) = some (set_chunk w x (f (w.chunks x)), next)
step w answer (process x next) = some (set_chunk w x answer.chunk, next answer)
step w answer (on_writer_ring f next) =
    some (record w { writer_input_buffer = on_ring f w.writer_input_buffer }, next)
step w answer (on_sdr_ring f next) =
    some (record w { sdr_input_buffer = on_ring f w.sdr_input_buffer }, next)
step w answer (writer_ring_size next) = some (w, next (size_of w.writer_input_buffer))
step w answer (read_flags next) = some (w, next w.shutdown_flag w.error_occurred)
step w answer (raise_error next) = some (record w { error_occurred = true }, next)
step w answer (raise_shutdown next) = some (record w { shutdown_flag = true }, next)
step w answer (finish again) = none

-- ===== src/Pipeline/Exclusion.antt =====
-- src/pipeline.c: the threads that `pipeline_run` starts, in any order of their accesses. The SDR
-- capture thread, the watchdog and a paced writer touch neither the queues nor the chunks, and have
-- no part here.
use iq_tool.Prelude.{
  ℕ, ◌+◌, ◌≤◌, ◌≡◌, refl, sym, ap, subst, append-nil, ◌∙◌, List, [], ◌∷◌, ◌++◌, Bool, true, false,
  not, ◌&&◌, some, if◌then◌else◌, arith,
}
use iq_tool.Pipeline.{
  QueueId, reader_output_queue, pre_processor_output_queue, resampler_output_queue,
  post_processor_output_queue, Act, World,
}
use iq_tool.Pipeline.Threads.{
  reader_thread, pre_processor_thread, resampler_thread, post_processor_thread,
  iq_optimization_thread, stdout_writer_thread,
}
use iq_tool.Pipeline.Ownership.{count, Owns, touched}
use iq_tool.Pipeline.Bodies.{
  reader_thread-Owns, pre_processor_thread-Owns, resampler_thread-Owns, post_processor_thread-Owns,
  iq_optimization_thread-Owns, stdout_writer_thread-Owns,
}
use iq_tool.Pipeline.Files.{FileConfig, rawfile_thread}
use iq_tool.Pipeline.FileReaders.{rawfile_thread-Owns}
use iq_tool.Pipeline.Places.{queued, AllValid}
use iq_tool.Pipeline.Runs.{
  Thread, spawned, Runs, kept_by, kept_by_all, AllOrderly, none_left, one_more, AllOrderly-at,
  kept_by_all-append, Runs-Sound, touched-held,
}

-- What fills the chunks: the packets of a radio in the buffered mode, or a file of raw samples, where
-- raw passthrough may be asked for with formats that differ.
pub data Input : Type 0 where
  buffered_sdr : Input
  raw_file : Bool → FileConfig → Input

-- `reader_thread_func`
unfoldable pub input_thread : Input → Act
input_thread buffered_sdr = reader_thread
input_thread (raw_file formats_differ c) = rawfile_thread formats_differ c

-- What `pipeline_run` looks at.
pub record PipelineConfig : Type 0 where
  pub input : Input
  pub raw_passthrough : Bool
  pub no_resample : Bool
  pub iq_correction : Bool
  pub is_passthrough : Bool
  pub pacing_is_required : Bool
  pub output_bytes_per_sample_pair : ℕ

-- `post_processor_input_queue`, and `writer_input_queue`, as `_init_queues_and_buffers` wires them
unfoldable pub post_processor_input : PipelineConfig → QueueId
post_processor_input c =
    if c.no_resample then pre_processor_output_queue else resampler_output_queue

unfoldable pub writer_input : PipelineConfig → QueueId
writer_input c = if c.raw_passthrough then reader_output_queue else post_processor_output_queue

unfoldable pub spawn_if : Bool → Act → List Thread
spawn_if true body = spawned body ∷ []
spawn_if false body = []

-- The threads of `pipeline_run`, when each could be started.
unfoldable pub spawned_threads : PipelineConfig → List Thread
spawned_threads c =
    spawn_if true (input_thread c.input)
    ++ (spawn_if (not c.raw_passthrough) (pre_processor_thread c.iq_correction)
        ++ (spawn_if (not c.raw_passthrough && not c.no_resample)
              (resampler_thread c.is_passthrough)
            ++ (spawn_if (not c.raw_passthrough) (
                  post_processor_thread (post_processor_input c) c.pacing_is_required
                    c.output_bytes_per_sample_pair)
                ++ (spawn_if (not c.pacing_is_required)
                      (stdout_writer_thread (writer_input c) c.output_bytes_per_sample_pair)
                    ++ spawn_if c.iq_correction iq_optimization_thread))))

spawn_if-AllOrderly :
    (b : Bool) (body : Act) (ts : List Thread)
    → Owns [] body
    → AllOrderly ts
    → AllOrderly (spawn_if b body ++ ts)
unfolding spawn_if
spawn_if-AllOrderly true body ts o os = one_more (record { owned = o; fresh = o }) os
spawn_if-AllOrderly false body ts o os = os

spawn_if-kept_by_all :
    (b : Bool) (body : Act) (ts : List Thread) (x : ℕ)
    → kept_by_all (spawn_if b body ++ ts) x ≡ kept_by_all ts x
unfolding spawn_if kept_by_all kept_by count
spawn_if-kept_by_all true body ts x = omega arith
spawn_if-kept_by_all false body ts x = refl

nothing_kept : (x : ℕ) → kept_by_all [] x ≡ 0
unfolding kept_by_all
nothing_kept x = refl

input_thread-Owns : (i : Input) → Owns [] (input_thread i)
unfolding input_thread
input_thread-Owns buffered_sdr = reader_thread-Owns
input_thread-Owns (raw_file formats_differ c) = rawfile_thread-Owns formats_differ c

spawned_threads-AllOrderly : (c : PipelineConfig) → AllOrderly (spawned_threads c)
unfolding spawned_threads
spawned_threads-AllOrderly c = spawn_if-AllOrderly _ _ _ (input_thread-Owns c.input) (
    spawn_if-AllOrderly _ _ _ (pre_processor_thread-Owns c.iq_correction) (
      spawn_if-AllOrderly _ _ _ (resampler_thread-Owns c.is_passthrough) (
        spawn_if-AllOrderly _ _ _ (post_processor_thread-Owns _ _ _) (
          spawn_if-AllOrderly _ _ _ (stdout_writer_thread-Owns _ _) (
            subst AllOrderly (append-nil _)
              (spawn_if-AllOrderly _ _ [] iq_optimization_thread-Owns none_left))))))

spawned_threads-kept_by_all : (c : PipelineConfig) (x : ℕ) → kept_by_all (spawned_threads c) x ≡ 0
unfolding spawned_threads
spawned_threads-kept_by_all c x =
    spawn_if-kept_by_all _ _ _ x
    ∙ spawn_if-kept_by_all _ _ _ x
    ∙ spawn_if-kept_by_all _ _ _ x
    ∙ spawn_if-kept_by_all _ _ _ x
    ∙ spawn_if-kept_by_all _ _ _ x
    ∙ ap (λ ts. kept_by_all ts x) (sym (append-nil _))
    ∙ spawn_if-kept_by_all _ _ [] x
    ∙ nothing_kept x

-- From valid queues, in any configuration of the threads, with packets or a raw file as input, and in
-- any order of their accesses, a pointer stands in the queues and with the threads together exactly as often as
-- it stood in the queues at the start: none is doubled or made up, and one that leaves the queues
-- is with a thread.
pub chunks_conserved :
    (c : PipelineConfig) {w₀ w : World} {ts : List Thread} (x : ℕ)
    → AllValid w₀
    → Runs w₀ (spawned_threads c) w ts
    → queued w x + kept_by_all ts x ≡ queued w₀ x
chunks_conserved c x v r =
    omega (
      arith,
      (Runs-Sound v (spawned_threads-AllOrderly c) r).same x,
      spawned_threads-kept_by_all c x,
    )

-- If no pointer stands twice in the queues at the start, and these are valid, then in any
-- configuration of the threads, with packets or a raw file as input, and in any order of their
-- accesses, a chunk
-- that a thread is about to read or write stands in no queue, and no other thread holds it or has
-- left it behind.
pub chunk_exclusive :
    (c : PipelineConfig) {w₀ w : World} (before after : List Thread) (t : Thread) (x : ℕ)
    → AllValid w₀
    → queued w₀ x ≤ 1
    → Runs w₀ (spawned_threads c) w (before ++ t ∷ after)
    → touched t.now ≡ some x
    → (queued w x ≡ 0) × (kept_by_all (before ++ after) x ≡ 0)
unfolding kept_by_all kept_by
chunk_exclusive c before after t x v once r e =
    let s = Runs-Sound v (spawned_threads-AllOrderly c) r in
    let h = touched-held ((AllOrderly-at before after t s.orderly).owned) e in
    let all = chunks_conserved c x v r in
    let split = kept_by_all-append before (t ∷ after) x in
    let rest = kept_by_all-append before after x in
    (omega (arith, h, all, split), omega (arith, h, all, split, rest))

-- In the same runs the queues stay valid, so that no queue ever holds more than its capacity.
pub queues_stay_valid :
    (c : PipelineConfig) {w₀ w : World} {ts : List Thread}
    → AllValid w₀
    → Runs w₀ (spawned_threads c) w ts
    → AllValid w
queues_stay_valid c v r = (Runs-Sound v (spawned_threads-AllOrderly c) r).valid

-- ===== src/Pipeline/Marker.antt =====
-- src/pipeline.c, src/output_stdout.c: the chunk that marks the end of the stream, on its way from
-- the reader straight to the writer.
use iq_tool.Prelude.{
  ℕ, zero, suc, ◌≡◌, refl, ◌∙◌, ap, sym, ◌==◌, if◌then◌else◌, true, false, Option, none, some,
  arith,
}
use mathlib.Core.Option.{some-injective}
use iq_tool.Queue.{Queue, dequeue}
use iq_tool.Pipeline.{
  QueueId, free_sample_chunk_queue, SampleChunk, Answer, Act, finish, World, set_queue, set_chunk,
  after_get, step,
}
use iq_tool.Pipeline.Calls.{put_anyway}
use iq_tool.Pipeline.Threads.{reader_packet, stdout_chunk, stdout_writer_thread}

-- So many further accesses of one thread, with no other thread's between them.
unfoldable pub steps : ℕ → Answer → Option (World × Act) → Option (World × Act)
steps zero answer state = state
steps (suc n) answer none = none
steps (suc n) answer (some t) = steps n answer (step t.0 answer t.1)

same_here : {A : Type 0} (x : ℕ) (a b : A) → (if x == x then a else b) ≡ a
same_here x a b = ground arith

-- The reader's marker keeps the chunk's old reset flag.
marked_lem :
    (w : World) (answer : Answer) (x : ℕ) {w₁ : World} {next : Act}
    → step w answer (reader_packet x false (some 0)) ≡ some (w₁, next)
    → w₁.chunks x ≡ record (w.chunks x) { is_last_chunk = true; frames_read = 0 }
unfolding step reader_packet set_chunk
marked_lem w answer x e =
    ap (λ (t : World × Act). t.0.chunks x) (sym (some-injective _ _ e)) ∙ same_here x _ _

-- If a chunk carries the flag of an old reset when the reader makes it the end-of-stream marker,
-- then the chunk is marked as the last one, but the stdout writer that takes it straight from the
-- reader, once the other threads have run without writing to it, takes it for a reset: it releases
-- it and starts another round, so that it goes on waiting for the marker.
pub stale_marker_missed :
    (w w₁ w₂ : World) (answer : Answer) (x bytes_per_pair : ℕ) (input : QueueId) (next : Act)
    (q : Queue)
    → (w.chunks x).stream_discontinuity_event ≡ true
    → step w answer (reader_packet x false (some 0)) ≡ some (w₁, next)
    → w₂.chunks x ≡ w₁.chunks x
    → dequeue (w₂.queues input) ≡ some (some x, q)
    → ((w₂.chunks x).is_last_chunk ≡ true)
      × (steps 2 answer (some (w₂, stdout_writer_thread input bytes_per_pair))
          ≡ some (set_queue w₂ input q, put_anyway free_sample_chunk_queue x (finish true)))
unfolding steps step stdout_chunk stdout_writer_thread after_get set_queue
stale_marker_missed w w₁ w₂ answer x b input next q stale e kept taken =
    let m = kept ∙ marked_lem w answer x e in
    let flag : (w₂.chunks x).stream_discontinuity_event ≡ true =
      ap SampleChunk.stream_discontinuity_event m ∙ stale in
    (
      ap SampleChunk.is_last_chunk m,
      ap (λ d. steps 1 answer (after_get w₂ input (stdout_chunk b) d)) taken ∙ rw flag refl,
    )

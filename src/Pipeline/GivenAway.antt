-- ===== src/Pipeline/GivenAway.antt =====
-- src/input_wav.c: the chunk that the WAV reader looks into after it has put it into the queue.
use iq_tool.Prelude.{
  ℕ, ◌+◌, ◌/◌, ◌≡◌, refl, ap, [], ◌∷◌, Bool, true, some, arith, ◌==◌, if◌then◌else◌,
}
use iq_tool.Queue.{Queue, enqueue}
use iq_tool.Queue.Validity.{IsValid}
use iq_tool.Pipeline.{
  reader_output_queue, free_sample_chunk_queue, SampleChunk, Answer, Act, load, finish, World,
  set_queue, set_chunk, after_put, step,
}
use iq_tool.Pipeline.Calls.{put_anyway}
use iq_tool.Pipeline.Ownership.{count, touched, count-append, count_first}
use iq_tool.Queue.Refines.{contents}
use iq_tool.Queue.Traces.{contents-enqueue}
use iq_tool.Pipeline.Places.{queued, queued-set_queue}
use iq_tool.Pipeline.Marker.{steps}
use iq_tool.Pipeline.Threads.{reader_end}
use iq_tool.Pipeline.Files.{FileConfig, wav_read}

-- What the reader does with the answer of `queue_enqueue`.
abbrev after_giving : ℕ → Bool → Act
after_giving x accepted =
    if accepted
    then (load x λ k. if k.is_last_chunk then reader_end else finish true)
    else put_anyway free_sample_chunk_queue x reader_end

queued-set_chunk : (w : World) (x : ℕ) (k : SampleChunk) → queued (set_chunk w x k) x ≡ queued w x
unfolding queued set_chunk
queued-set_chunk w x k = refl

same_contents :
    (w : World) (x : ℕ) (k : SampleChunk)
    → contents ((set_chunk w x k).queues reader_output_queue)
      ≡ contents (w.queues reader_output_queue)
unfolding set_chunk
same_contents w x k = refl

alone : (x : ℕ) → count x (x ∷ []) ≡ 1
unfolding count
alone x = ground arith

given :
    (w : World) (x : ℕ) (k : SampleChunk) (q : Queue) (next : Bool → Act)
    → enqueue (w.queues reader_output_queue) x ≡ some (true, q)
    → after_put
        (set_chunk w x k)
        reader_output_queue
        next
        (enqueue ((set_chunk w x k).queues reader_output_queue) x)
      ≡ some (set_queue (set_chunk w x k) reader_output_queue q, next true)
unfolding set_chunk after_put
given w x k q next e = rw e refl

one_more :
    (w : World) (x : ℕ) (k : SampleChunk) (q : Queue)
    → IsValid (w.queues reader_output_queue)
    → enqueue (w.queues reader_output_queue) x ≡ some (true, q)
    → queued (set_queue (set_chunk w x k) reader_output_queue q) x ≡ queued w x + 1
one_more w x k q v e =
    let old = contents (w.queues reader_output_queue) in
    omega (
      arith,
      queued-set_queue (set_chunk w x k) reader_output_queue q x,
      queued-set_chunk w x k,
      ap (count x) (same_contents w x k),
      ap (count x) (contents-enqueue x v e),
      count-append x old (x ∷ []),
      count_first x [],
      alone x,
    )

-- After the reader of WAV files has stored the result of a read in a chunk and the queue of the next
-- stage has accepted the chunk, the chunk's pointer stands in a queue, and the next thing that the
-- reader does is to look into the chunk.
pub wav_read_lem :
    (w : World) (answer : Answer) (c : FileConfig) (x bytes_read : ℕ) (q : Queue)
    → IsValid (w.queues reader_output_queue)
    → enqueue (w.queues reader_output_queue) x ≡ some (true, q)
    → (w' : World) × (now : Act) × (steps 2 answer (some (w, wav_read c x (some bytes_read)))
        ≡ some (w', now))
      × ((touched now ≡ some x) × (queued w' x ≡ queued w x + 1))
unfolding steps step wav_read touched
wav_read_lem w answer c x n q v accepted =
    let frames_read = n / c.input_bytes_per_sample_pair in
    let k : SampleChunk = record (w.chunks x) {
      frames_read = frames_read;
      is_last_chunk = frames_read == 0;
    } in
    (
      set_queue (set_chunk w x k) reader_output_queue q,
      load x (λ k. if k.is_last_chunk then reader_end else finish true),
      given w x k q (after_giving x) accepted,
      (refl, one_more w x k q v accepted),
    )

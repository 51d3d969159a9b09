-- ===== src/Pipeline/Bodies.antt =====
-- The loops' bodies touch only chunks that they hold.
use iq_tool.Prelude.{
  ℕ, ◌<◌, List, [], ◌∷◌, Bool, true, false, not, ◌&&◌, ◌||◌, Option, none, some, ◌==◌,
}
use iq_tool.Pipeline.{
  QueueId, free_sample_chunk_queue, reader_output_queue, pre_processor_output_queue,
  resampler_output_queue, post_processor_output_queue, iq_optimization_data_queue, Act, finish,
}
use iq_tool.Pipeline.Calls.{put_anyway}
use iq_tool.Pipeline.Threads.{
  reader_item, stdout_chunk, reader_end, stdout_written, stdout_writer_thread, reader_packet,
  reader_thread, offer_to_optimizer, pre_processor_pass, pre_processor_thread, resample,
  resampler_thread, post_processor_pass, post_processor_thread, iq_optimization_thread,
}
use iq_tool.Pipeline.Ownership.{
  count, Owns, own_get, own_poll, own_put, own_shut, own_load, own_store, own_process,
  own_writer_ring, own_flags, own_finish, count_first, count_second,
}
use iq_tool.Pipeline.Rules.{
  Owns-if, Owns-put, Owns-put_anyway, Owns-request_shutdown, Owns-handle_fatal_thread_error,
  Owns-pass,
}

pub reader_end-Owns : (held : List ℕ) → Owns held reader_end
unfolding reader_end
reader_end-Owns held = own_flags λ b c.
    Owns-if b
      (own_poll
        (λ x. own_store (count_first x held) (
          Owns-put_anyway reader_output_queue _ (finish false) (count_first x held)
            (λ kept. own_finish)))
        own_finish)
      own_finish

reader_packet-Owns :
    (x : ℕ) (is_reset : Bool) (frames : Option ℕ) → Owns (x ∷ []) (reader_packet x is_reset frames)
unfolding reader_packet
reader_packet-Owns x is_reset none =
    Owns-handle_fatal_thread_error _
      (Owns-put_anyway free_sample_chunk_queue _ reader_end (count_first x []) reader_end-Owns)
reader_packet-Owns x is_reset (some n) =
    let h = count_first x [] in
    Owns-if (n == 0 && not is_reset)
      (own_store h (Owns-put_anyway reader_output_queue _ reader_end h reader_end-Owns))
      (own_store h (Owns-pass reader_output_queue reader_end h reader_end-Owns))

pub reader_thread-Owns : Owns [] reader_thread
unfolding reader_thread reader_item
reader_thread-Owns = own_flags λ b c. Owns-if (b || c) (reader_end-Owns []) (
    own_get (λ x. own_process (count_first x []) λ a. reader_packet-Owns x a.is_reset a.frames)
      (reader_end-Owns []))

-- The spare chunk is filled and given away, or stays with the thread when the queue refuses it.
offer_to_optimizer-Owns :
    (iq_correction : Bool) (x : ℕ) (next : Act)
    → ((kept : List ℕ) → 0 < count x kept → Owns kept next)
    → Owns (x ∷ []) (offer_to_optimizer iq_correction x next)
unfolding offer_to_optimizer put_anyway
offer_to_optimizer-Owns iq_correction x next o =
    let one = o (x ∷ []) (count_first x []) in
    own_load (count_first x []) λ c.
      Owns-if _
        (own_poll
          (λ y. own_load (count_second x y []) λ c.
            own_store (count_first y (x ∷ []))
              (Owns-put iq_optimization_data_queue y _ one (o (y ∷ x ∷ []) (count_second x y []))))
          one)
        one

pre_processor_pass-Owns :
    (x : ℕ) (held : List ℕ) → 0 < count x held → Owns held (pre_processor_pass x)
unfolding pre_processor_pass
pre_processor_pass-Owns x held h = own_load h λ c.
    Owns-if _ (Owns-pass pre_processor_output_queue (finish false) h (λ kept. own_finish))
      (Owns-put_anyway free_sample_chunk_queue _ (finish true) h (λ kept. own_finish))

pub pre_processor_thread-Owns :
    (iq_correction : Bool) → Owns [] (pre_processor_thread iq_correction)
unfolding pre_processor_thread
pre_processor_thread-Owns iq_correction =
    own_get
      (λ x.
        let h = count_first x [] in
        let last =
          Owns-put_anyway pre_processor_output_queue _ (finish false) h (λ kept. own_finish) in
        own_load h λ c. Owns-if c.is_last_chunk (Owns-if iq_correction (own_shut last) last) (
          Owns-if c.stream_discontinuity_event (own_put h own_finish own_finish) (
            own_process h
              λ a. offer_to_optimizer-Owns iq_correction x _ (pre_processor_pass-Owns x))))
      own_finish

resample-Owns :
    (is_passthrough : Bool) (x : ℕ) (next : Act)
    → Owns (x ∷ []) next
    → Owns (x ∷ []) (resample is_passthrough x next)
unfolding resample
resample-Owns is_passthrough x next o =
    let h = count_first x [] in
    own_store h
      (Owns-if is_passthrough (own_store h (own_store h o)) (own_process h λ a. own_store h o))

pub resampler_thread-Owns : (is_passthrough : Bool) → Owns [] (resampler_thread is_passthrough)
unfolding resampler_thread
resampler_thread-Owns is_passthrough =
    own_get
      (λ x.
        let h = count_first x [] in
        own_load h λ c.
          Owns-if c.is_last_chunk
            (Owns-put_anyway resampler_output_queue _ (finish false) h (λ kept. own_finish))
            (Owns-if c.stream_discontinuity_event (own_put h own_finish own_finish) (
              resample-Owns is_passthrough x _
                (Owns-pass resampler_output_queue (finish false) h (λ kept. own_finish)))))
      own_finish

post_processor_pass-Owns :
    (pacing : Bool) (bytes_per_pair x : ℕ)
    → Owns (x ∷ []) (post_processor_pass pacing bytes_per_pair x)
unfolding post_processor_pass
post_processor_pass-Owns pacing bytes_per_pair x =
    let h = count_first x [] in
    let release = Owns-put_anyway free_sample_chunk_queue _ (finish true) h (λ kept. own_finish) in
    own_load h λ c.
      Owns-if _ (Owns-if pacing (own_writer_ring release) (own_put h own_finish own_finish)) release

pub post_processor_thread-Owns :
    (input : QueueId) (pacing : Bool) (bytes_per_pair : ℕ)
    → Owns [] (post_processor_thread input pacing bytes_per_pair)
unfolding post_processor_thread
post_processor_thread-Owns input pacing bytes_per_pair =
    own_get
      (λ x.
        let h = count_first x [] in
        own_load h λ c.
          Owns-if c.is_last_chunk
            (Owns-if pacing
              (own_writer_ring
                (Owns-put_anyway free_sample_chunk_queue _ (finish false) h (λ kept. own_finish)))
              (Owns-put_anyway post_processor_output_queue _ (finish false) h (λ kept. own_finish)))
            (Owns-if c.stream_discontinuity_event (own_put h own_finish own_finish)
              (own_process h λ a. post_processor_pass-Owns pacing bytes_per_pair x)))
      own_finish

pub iq_optimization_thread-Owns : Owns [] iq_optimization_thread
unfolding iq_optimization_thread
iq_optimization_thread-Owns =
    own_get
      (λ x. own_load (count_first x []) λ c.
        Owns-put_anyway free_sample_chunk_queue _ (finish true) (count_first x [])
          (λ kept. own_finish))
      own_finish

stdout_written-Owns :
    (x bytes : ℕ) (written : Option ℕ) → Owns (x ∷ []) (stdout_written x bytes written)
unfolding stdout_written
stdout_written-Owns x bytes written =
    let h = count_first x [] in
    let stop = Owns-put_anyway free_sample_chunk_queue x (finish false) h (λ kept. own_finish) in
    Owns-if _ (own_put h own_finish own_finish)
      (own_flags λ b c. Owns-if b stop (Owns-request_shutdown _ stop))

pub stdout_writer_thread-Owns :
    (input : QueueId) (bytes_per_pair : ℕ) → Owns [] (stdout_writer_thread input bytes_per_pair)
unfolding stdout_writer_thread stdout_chunk
stdout_writer_thread-Owns input bytes_per_pair =
    own_get
      (λ x.
        let h = count_first x [] in
        own_load h λ c.
          Owns-if c.stream_discontinuity_event
            (Owns-put_anyway free_sample_chunk_queue x (finish true) h (λ kept. own_finish))
            (Owns-if c.is_last_chunk
              (Owns-put_anyway free_sample_chunk_queue x (finish false) h (λ kept. own_finish))
              (Owns-if _ (own_process h λ a. stdout_written-Owns x _ a.frames)
                (own_put h own_finish own_finish))))
      own_finish

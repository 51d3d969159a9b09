-- ===== src/Pipeline/FileReaders.antt =====
-- The raw reader touches only the chunks that it holds.
use iq_tool.Prelude.{ℕ, [], ◌∷◌, Bool, Option, none, some, ltb, ◌==◌, ◌||◌}
use iq_tool.Pipeline.{free_sample_chunk_queue, reader_output_queue}
use iq_tool.Pipeline.Ownership.{
  Owns, own_get, own_store, own_process, own_size, own_flags, own_error, own_finish, count_first,
}
use iq_tool.Pipeline.Rules.{
  Owns-if, Owns-put_anyway, Owns-request_shutdown, Owns-handle_fatal_thread_error, Owns-pass,
}
use iq_tool.Pipeline.Threads.{reader_end}
use iq_tool.Pipeline.Bodies.{reader_end-Owns}
use iq_tool.Pipeline.Files.{
  FileConfig, paced_round, read_error, rawfile_read, rawfile_item, rawfile_thread,
}

read_error-Owns : (x : ℕ) → Owns (x ∷ []) (read_error x)
unfolding read_error
read_error-Owns x = own_error (
    Owns-request_shutdown _
      (Owns-put_anyway free_sample_chunk_queue x reader_end (count_first x []) reader_end-Owns))

rawfile_read-Owns :
    (c : FileConfig) (x : ℕ) (bytes_read : Option ℕ) → Owns (x ∷ []) (rawfile_read c x bytes_read)
unfolding rawfile_read
rawfile_read-Owns c x none = read_error-Owns x
rawfile_read-Owns c x (some n) =
    let h = count_first x [] in
    Owns-if (n == 0)
      (own_store h (Owns-put_anyway reader_output_queue x reader_end h reader_end-Owns))
      (own_store h (Owns-pass reader_output_queue reader_end h reader_end-Owns))

pub rawfile_thread-Owns :
    (formats_differ : Bool) (c : FileConfig) → Owns [] (rawfile_thread formats_differ c)
unfolding rawfile_thread paced_round rawfile_item
rawfile_thread-Owns formats_differ c =
    let end = reader_end-Owns [] in
    let taken =
      own_get
        (λ x.
          let h = count_first x [] in
          own_store h (own_process h λ a. rawfile_read-Owns c x a.frames))
        end in
    Owns-if formats_differ (Owns-handle_fatal_thread_error reader_end end) (
      own_flags λ b d. Owns-if (b || d) end (
        Owns-if c.pacing_required
          (own_size λ n. Owns-if (ltb c.writer_buffer_threshold n) own_finish taken) taken))

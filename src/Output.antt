-- ===== src/Output.antt =====
-- src/output_raw_file.c and src/output_wav_common.c: the loops of the writer thread, which differ in
-- the library that writes the file, and what they count. The loop takes fuel: every round but the
-- last takes at least one byte, so that one round more than there are bytes is enough.
pub mod Writing
mod Tests
use iq_tool.Prelude.{
  ℕ, zero, suc, ◌+◌, ◌/◌, List, [], ◌∷◌, Bool, true, false, ltb, ◌==◌, if◌then◌else◌, length,
  add_size,
}
use iq_tool.SdrPacket.Reading.{Reader, done, ask}

-- `IO_OUTPUT_WRITER_CHUNK_SIZE`
abbrev pub writer_chunk_size : ℕ
writer_chunk_size = 1048576

-- The open file and what is counted: `RawOutData` or `WavCommonData`, and `total_output_frames`.
-- `fatal` tells whether `handle_fatal_thread_error` was called.
pub record Out (S : Type 0) : Type 0 where
  pub handle : S
  pub total_bytes_written : ℕ
  pub total_output_frames : ℕ
  pub fatal : Bool

-- How a run of the loop ends; `unfinished`: the fuel ran out.
pub data Exit (S : Type 0) : Type 0 where
  exited : Out S → Exit S
  unfinished : Out S → Exit S

-- After `fwrite` or `sf_write_raw`, which returns `written` and leaves the file `handle`.
unfoldable pub count_written : {S : Type 0} → ℕ → S → Out S → Out S
count_written written handle o = record o {
  handle = handle;
  total_bytes_written = add_size o.total_bytes_written written;
}

-- The progress, where there is a callback.
unfoldable pub report : {S : Type 0} → Bool → ℕ → Out S → Out S
report progress_callback bytes_per_pair o =
    if progress_callback
    then record o { total_output_frames = o.total_bytes_written / bytes_per_pair }
    else o

-- What is done with the bytes of one read; `next` is the rest of the loop.
unfoldable pub write_round :
    {S : Type 0}
    → (S → List ℕ → ℕ × S)
    → Bool
    → ℕ
    → Out S
    → (Out S → Reader (Exit S))
    → List ℕ
    → Reader (Exit S)
write_round fwrite callback bytes_per_pair o next [] = done (exited o)
write_round fwrite callback bytes_per_pair o next (x ∷ xs) =
    let (written, handle) = fwrite o.handle (x ∷ xs) in
    let counted = count_written written handle o in
    if written == length (x ∷ xs)
    then next (report callback bytes_per_pair counted)
    else done (exited (record counted { fatal = true }))

-- The loop of `raw_out_run_writer` and of `wav_common_run_writer`.
unfoldable pub run_writer :
    {S : Type 0} → (S → List ℕ → ℕ × S) → Bool → ℕ → ℕ → Out S → Reader (Exit S)
run_writer fwrite callback bytes_per_pair zero o = done (unfinished o)
run_writer fwrite callback bytes_per_pair (suc fuel) o =
    ask writer_chunk_size (
      write_round fwrite callback bytes_per_pair o (run_writer fwrite callback bytes_per_pair fuel))

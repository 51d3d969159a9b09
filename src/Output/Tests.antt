-- ===== src/Output/Tests.antt =====
-- Runs of the writers of src/output_raw_file.c and src/output_wav_common.c, and their theorem at one:
-- a disk that takes at most three bytes at a time.
use mathlib.Core.Option
use iq_tool.Prelude.{ℕ, ◌≡◌, refl, List, [], ◌∷◌, ◌++◌, true, false, some, arith, length, min, take}
use iq_tool.RingBuffer.{RingBuffer, get_size}
use iq_tool.RingBuffer.Contents.{contents}
use iq_tool.RingBuffer.Validity.{IsValid}
use iq_tool.SdrPacket.Runs.{run, view_run}
use iq_tool.Output.{Out, exited, run_writer}
use iq_tool.Output.Writing.{Writes, Written, run_writer_lem}

abbrev write_three : List ℕ → List ℕ → ℕ × List ℕ
write_three s xs = (min 3 (length xs), s ++ take (min 3 (length xs)) xs)

write_three-Writes : Writes write_three (λ s. s)
write_three-Writes = record { appends = λ s xs. refl; at_most = λ s xs. omega arith }

-- 8, then 9, round the end of the block
abbrev ended_ring : RingBuffer
ended_ring = record {
  buffer = 9 ∷ 7 ∷ 6 ∷ 8 ∷ [];
  capacity = 4;
  write_pos = 1;
  read_pos = 3;
  end_of_stream = true;
  shutting_down = false;
}

ended_ring-IsValid : IsValid ended_ring
ended_ring-IsValid = omega arith

abbrev empty_file : Out (List ℕ)
empty_file = record { handle = []; total_bytes_written = 0; total_output_frames = 0; fatal = false }

run_writer_lem_example :
    (o' : Out (List ℕ)) × (left : List ℕ) × (Option.map view_run
        (run (run_writer write_three true 2 4 empty_file) ended_ring)
      ≡ some (exited o', left))
    × Written write_three (λ s. s) true 2 (contents ended_ring) empty_file o'
unfolding get_size
run_writer_lem_example =
    run_writer_lem write_three (λ s. s) true 2 4 empty_file write_three-Writes ended_ring-IsValid
      refl refl (omega arith) (omega arith)

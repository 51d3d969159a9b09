-- ===== src/RingBuffer/Tests.antt =====
-- Runs of src/ring_buffer.c, and its theorems at them.
use mathlib.Core.Option
use iq_tool.Prelude.{
  ℕ, ◌≤◌, ◌≡◌, refl, List, [], ◌∷◌, ◌++◌, true, false, Option, none, some, arith, if◌then◌else◌,
  length, replicate, length-replicate, leb,
}
use iq_tool.RingBuffer.{
  RingBuffer, create, available_space, first_chunk, write, get_size, copy_out, fetch, read_awake,
  read, signal_end_of_stream,
}
use iq_tool.RingBuffer.Fifo
use iq_tool.RingBuffer.Validity.{IsValid, max_object, write-IsValid}
use iq_tool.RingBuffer.Contents.{contents, view}
use iq_tool.RingBuffer.Refines.{write_refines, read_refines, view_read}
use iq_tool.RingBuffer.Traces.{Run, start, wrote, was_read, ended, bytes_conserved}
use iq_tool.RingBuffer.Create.{create_lem}

-- 8, then 9, round the end of the block
abbrev wrapped : RingBuffer
wrapped = record {
  buffer = 9 ∷ 7 ∷ 6 ∷ 8 ∷ [];
  capacity = 4;
  write_pos = 1;
  read_pos = 3;
  end_of_stream = false;
  shutting_down = false;
}

wrapped-IsValid : IsValid wrapped
wrapped-IsValid = omega arith

contents-wrapped : contents wrapped ≡ 8 ∷ 9 ∷ []
unfolding get_size
contents-wrapped = refl

-- One byte fits; the slot before the read position stays free.
write_cut : (write wrapped (1 ∷ 2 ∷ [])).0 ≡ 1
unfolding write available_space
write_cut = refl

read_both : Option.map (λ (t : ℕ × List ℕ × RingBuffer). t.1) (read wrapped 5) ≡ some (8 ∷ 9 ∷ [])
unfolding read read_awake get_size fetch first_chunk copy_out
read_both = refl

write_refines_example :
    let (n, r') = write wrapped (1 ∷ 2 ∷ []) in (n, view r') ≡ Fifo.put (view wrapped) (1 ∷ 2 ∷ [])
write_refines_example = write_refines (1 ∷ 2 ∷ []) wrapped-IsValid

read_refines_example : Option.map view_read (read wrapped 5) ≡ Fifo.get (view wrapped) 5
read_refines_example = read_refines 5 wrapped-IsValid

write-IsValid_example : IsValid (write wrapped (1 ∷ 2 ∷ [])).1
write-IsValid_example = write-IsValid (1 ∷ 2 ∷ []) wrapped-IsValid

abbrev after : RingBuffer
after = record wrapped { read_pos = 1 }

a_run :
    Run wrapped
      (write (signal_end_of_stream after) (1 ∷ 2 ∷ [])).1
      ([] ++ (1 ∷ 2 ∷ []))
      ([] ++ (8 ∷ 9 ∷ []))
unfolding write available_space read read_awake get_size fetch first_chunk copy_out
    signal_end_of_stream
a_run = wrote (1 ∷ 2 ∷ []) (ended (was_read 5 start refl))

bytes_conserved_example :
    contents wrapped ++ ([] ++ (1 ∷ 2 ∷ []))
    ≡ ([] ++ (8 ∷ 9 ∷ [])) ++ contents (write (signal_end_of_stream after) (1 ∷ 2 ∷ [])).1
bytes_conserved_example = bytes_conserved wrapped-IsValid a_run

after_takes : (write after (5 ∷ [])).0 ≡ 1
unfolding write available_space
after_takes = refl

abbrev ending : RingBuffer
ending = record wrapped { end_of_stream = true }

-- a `malloc` that grants four bytes and no more
abbrev small_malloc : ℕ → Option (List ℕ)
small_malloc n = if leb n 4 then some (replicate n 0) else none

small_malloc_sized :
    (n : ℕ) (block : List ℕ) → small_malloc n ≡ some block → (length block ≡ n) × (n ≤ max_object)
small_malloc_sized n block e = ground (arith, length-replicate {A = ℕ} n 0)

abbrev fresh : RingBuffer
fresh = record wrapped { buffer = 0 ∷ 0 ∷ 0 ∷ 0 ∷ []; write_pos = 0; read_pos = 0 }

create_lem_example : IsValid fresh × (contents fresh ≡ []) × (fresh.capacity ≡ 4)
unfolding create
create_lem_example = create_lem true small_malloc 4 fresh small_malloc_sized (omega arith) refl

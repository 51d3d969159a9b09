-- ===== src/Queue/Tests.antt =====
-- Runs of src/queue.c, and its theorems at them.
use mathlib.Core.Option
use iq_tool.Prelude.{
  ◌≤◌, ◌≡◌, refl, [], ◌∷◌, ◌++◌, true, false, none, some, arith, length, replicate,
}
use iq_tool.MemoryArena.{MemoryArena, alloc, aligned_size}
use iq_tool.Queue.{Queue, Threading, init, enqueue, remove, dequeue, try_dequeue}
use iq_tool.Queue.Fifo
use iq_tool.Queue.Validity.{IsValid, init_lem}
use iq_tool.Queue.Refines.{
  contents, view, view_enqueue, view_dequeue, enqueue_refines, dequeue_refines, try_dequeue_refines,
}
use iq_tool.Queue.Traces.{Run, start, enqueued, dequeued, pointers_conserved}

-- pointers 50 and 60, round the end of the block
abbrev wrapped : Queue
wrapped = record {
  buffer = 60 ∷ 0 ∷ 50 ∷ [];
  capacity = 3;
  count = 2;
  head = 2;
  tail = 1;
  shutting_down = false;
}

wrapped-IsValid : IsValid wrapped
wrapped-IsValid = omega arith

contents-wrapped : contents wrapped ≡ 50 ∷ 60 ∷ []
contents-wrapped = refl

abbrev full : Queue
full = record wrapped { buffer = 60 ∷ 70 ∷ 50 ∷ []; count = 3; tail = 2 }

enqueue_third : enqueue wrapped 70 ≡ some (true, full)
unfolding enqueue
enqueue_third = refl

enqueue_waits : enqueue full 80 ≡ none
unfolding enqueue
enqueue_waits = refl

abbrev rest : Queue
rest = record wrapped { count = 1; head = 0 }

dequeue_first : dequeue wrapped ≡ some (some 50, rest)
unfolding dequeue remove
dequeue_first = refl

enqueue_refines_example : Option.map view_enqueue (enqueue wrapped 70) ≡ Fifo.put (view wrapped) 70
enqueue_refines_example = enqueue_refines 70 wrapped-IsValid

dequeue_refines_example : Option.map view_dequeue (dequeue wrapped) ≡ Fifo.get (view wrapped)
dequeue_refines_example = dequeue_refines wrapped-IsValid

try_dequeue_refines_example : view_dequeue (try_dequeue wrapped) ≡ Fifo.poll (view wrapped)
try_dequeue_refines_example = try_dequeue_refines wrapped-IsValid

a_run : Run wrapped (remove full).1 ([] ++ 70 ∷ []) ([] ++ 50 ∷ [])
unfolding enqueue dequeue remove
a_run = dequeued (enqueued 70 start refl) refl

pointers_conserved_example :
    (contents wrapped ++ ([] ++ 70 ∷ []) ≡ ([] ++ 50 ∷ []) ++ contents (remove full).1)
    × (length (contents (remove full).1) ≤ (remove full).1.capacity)
pointers_conserved_example = pointers_conserved wrapped-IsValid a_run

abbrev arena : MemoryArena
arena = record { memory = some (replicate 64 0); capacity = 64; offset = 32 }

abbrev working : Threading
working = record { mutex_made = true; not_empty_made = true; not_full_made = true }

abbrev fresh : Queue
fresh = record {
  buffer = 1 ∷ 2 ∷ 3 ∷ [];
  capacity = 3;
  count = 0;
  head = 0;
  tail = 0;
  shutting_down = false;
}

init_made : (init working (1 ∷ 2 ∷ 3 ∷ []) 3 arena).0 ≡ some fresh
unfolding init alloc aligned_size
init_made = refl

init_lem_example : IsValid fresh × (fresh.count ≡ 0) × (fresh.capacity ≡ 3)
init_lem_example = init_lem working (1 ∷ 2 ∷ 3 ∷ []) 3 arena fresh refl (omega arith) init_made

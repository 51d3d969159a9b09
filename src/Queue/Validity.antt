-- ===== src/Queue/Validity.antt =====
-- The representation invariant of the queue: no index or count wraps, and no access leaves the block.
use iq_tool.Prelude.{
  ℕ, ◌+◌, ◌%◌, ◌^◌, ◌≤◌, ◌<◌, ◌≡◌, List, Bool, Option, some, arith, length, length-set, add_size,
}
use iq_tool.Prelude.Cyclic.{index, mod-eq-index}
use iq_tool.MemoryArena.{MemoryArena}
use iq_tool.Queue.{Queue, Threading, init, enqueue, remove, dequeue, try_dequeue, signal_shutdown}

pub record IsValid (q : Queue) : Type 0 where
  pub storage : length q.buffer ≡ q.capacity
  pub small : q.capacity ≤ 2 ^ 60
  pub head_in : q.head < q.capacity
  pub count_in : q.count ≤ q.capacity
  pub tail_at : q.tail ≡ index q.capacity (q.head + q.count)

pub step_lem :
    {q : Queue} (p : ℕ)
    → IsValid q
    → p < q.capacity
    → add_size p 1 % q.capacity ≡ index q.capacity (p + 1)
step_lem {q} p v h =
    let fits : add_size p 1 ≡ p + 1 = omega arith in
    rw fits (mod-eq-index (p + 1) q.capacity (omega arith))

pub tail-lt-capacity : {q : Queue} → IsValid q → q.tail < q.capacity
tail-lt-capacity v = ground arith

pub enqueue-IsValid :
    {q : Queue} (item : ℕ) {b : Bool} {q' : Queue}
    → IsValid q
    → enqueue q item ≡ some (b, q')
    → IsValid q'
unfolding enqueue
enqueue-IsValid {q} item v e =
    ground (arith, length-set q.buffer q.tail item, step_lem q.tail v (tail-lt-capacity v))

pub remove-IsValid : {q : Queue} → IsValid q → 0 < q.count → IsValid (remove q).1
unfolding remove
remove-IsValid {q} v h = ground (arith, step_lem q.head v v.head_in)

pub dequeue-IsValid :
    {q : Queue} {item : Option ℕ} {q' : Queue}
    → IsValid q
    → dequeue q ≡ some (item, q')
    → IsValid q'
unfolding dequeue
dequeue-IsValid {q} v e = ground (arith, remove-IsValid v)

pub try_dequeue-IsValid : {q : Queue} → IsValid q → IsValid (try_dequeue q).1
unfolding try_dequeue
try_dequeue-IsValid {q} v = ground (arith, remove-IsValid v)

pub signal_shutdown-IsValid : {q : Queue} → IsValid q → IsValid (signal_shutdown q)
unfolding signal_shutdown
signal_shutdown-IsValid v = ground arith

-- A queue that `queue_init` makes is valid and empty and has the capacity asked for.
pub init_lem :
    (threading : Threading) (cells : List ℕ) (capacity : ℕ) (arena : MemoryArena) (q : Queue)
    → length cells ≡ capacity
    → capacity ≤ 2 ^ 60
    → (init threading cells capacity arena).0 ≡ some q
    → IsValid q × (q.count ≡ 0) × (q.capacity ≡ capacity)
unfolding init
init_lem threading cells capacity arena q h k e = ground arith

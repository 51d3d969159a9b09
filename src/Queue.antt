-- ===== src/Queue.antt =====
-- src/queue.c: the bounded queue of pointers between two stages of the pipeline. Each function holds
-- the mutex, so a call is one atomic step, and a wait on a condition is a call that is not possible
-- yet. A pointer is its address; NULL, where a function returns a pointer, is `none`.
pub mod Validity
pub mod Fifo
pub mod Refines
pub mod Traces
mod Tests
use iq_tool.Prelude.{
  ℕ, ◌+◌, ◌-◌, ◌%◌, List, Bool, true, false, not, ◌&&◌, Option, none, some, ◌==◌, if◌then◌else◌,
  get_elem?, set, add_size, sub_size, mul_size,
}
use iq_tool.MemoryArena.{MemoryArena, alloc}

-- `struct Queue`, less its mutex and conditions.
pub record Queue : Type 0 where
  pub buffer : List ℕ
  pub capacity : ℕ
  pub count : ℕ
  pub head : ℕ
  pub tail : ℕ
  pub shutting_down : Bool

-- Whether `pthread_mutex_init` and the two calls of `pthread_cond_init` succeed.
pub record Threading : Type 0 where
  pub mutex_made : Bool
  pub not_empty_made : Bool
  pub not_full_made : Bool

-- `sizeof(void*)`
abbrev pub pointer_size : ℕ
pointer_size = 8

-- `queue_init`; `none` is the return value false. `cells` is what the new block happens to hold.
pub init : Threading → List ℕ → ℕ → MemoryArena → Option Queue × MemoryArena
init threading cells capacity arena =
    let (block, arena') = alloc arena (mul_size capacity pointer_size) false in
    if capacity == 0 then (none, arena) else (
      elim block [
        | none ↦ none
        | some p ↦
            if threading.mutex_made && threading.not_empty_made && threading.not_full_made
            then some (record {
              buffer = cells;
              capacity = capacity;
              count = 0;
              head = 0;
              tail = 0;
              shutting_down = false;
            })
            else none
      ],
      arena',
    )

-- `none`: the caller waits. The Boolean is the return value.
unfoldable pub enqueue : Queue → ℕ → Option (Bool × Queue)
enqueue q item =
    if q.count == q.capacity && not q.shutting_down
    then none
    else if q.shutting_down
    then some (false, q)
    else some (
      true,
      record q {
        buffer = set q.buffer q.tail item;
        tail = add_size q.tail 1 % q.capacity;
        count = add_size q.count 1;
      },
    )

-- the reading half of `queue_dequeue` and `queue_try_dequeue`
unfoldable pub remove : Queue → Option ℕ × Queue
remove q = (
  get_elem? q.buffer q.head,
  record q { head = add_size q.head 1 % q.capacity; count = sub_size q.count 1 },
)

-- The outer `none`: the caller waits.
unfoldable pub dequeue : Queue → Option (Option ℕ × Queue)
dequeue q =
    if q.count == 0 && not q.shutting_down
    then none
    else if q.shutting_down && q.count == 0
    then some (none, q)
    else some (remove q)

pub try_dequeue : Queue → Option ℕ × Queue
try_dequeue q = if q.count == 0 then (none, q) else remove q

pub signal_shutdown : Queue → Queue
signal_shutdown q = record q { shutting_down = true }

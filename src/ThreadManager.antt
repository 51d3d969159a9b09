-- ===== src/ThreadManager.antt =====
-- src/thread_manager.c: the handles of the threads that were started. `pthread_create` gives a
-- handle or fails (`none`). NULL arguments are left out.
pub mod Handles
mod Tests
use iq_tool.Prelude.{
  ℕ, ◌+◌, List, [], ◌∷◌, Bool, true, false, Option, none, some, leb, if◌then◌else◌, set, take,
  replicate,
}

-- `MAX_MANAGED_THREADS`
abbrev pub max_managed_threads : ℕ
max_managed_threads = 16

-- `ThreadManager`, less the context that it hands on.
pub record ThreadManager : Type 0 where
  pub thread_handles : List ℕ
  pub num_threads_started : ℕ

-- `thread_manager_init`; `cells` is what the block of handles happens to hold.
pub init : List ℕ → ThreadManager
init cells = record { thread_handles = cells; num_threads_started = 0 }

-- `thread_manager_spawn_thread`: its result, and the manager.
pub spawn_thread : ThreadManager → Option ℕ → Bool × ThreadManager
spawn_thread m none = (false, m)
spawn_thread m (some handle) =
    if leb max_managed_threads m.num_threads_started then (false, m) else (
      true,
      record {
        thread_handles = set m.thread_handles m.num_threads_started handle;
        num_threads_started = m.num_threads_started + 1;
      },
    )

-- `thread_manager_join_all`: the handles that are joined, in order, and the manager.
pub join_all : ThreadManager → List ℕ × ThreadManager
join_all m = (take m.num_threads_started m.thread_handles, record m { num_threads_started = 0 })

-- `pipeline_run`, step 5: the wanted threads are started in turn, until one fails.
pub spawn_wanted : ThreadManager → List (Option ℕ) → Bool × ThreadManager
spawn_wanted m [] = (true, m)
spawn_wanted m (created ∷ rest) =
    let t = spawn_thread m created in let later = spawn_wanted t.1 rest in if t.0 then later else t

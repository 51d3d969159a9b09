-- ===== src/ThreadManager/Handles.antt =====
-- Which threads are joined.
use iq_tool.Prelude.{
  ℕ, zero, suc, ap, sym, ◌∙◌, ◌==◌, ◌+◌, ◌<◌, ◌≡◌, refl, List, [], ◌∷◌, ◌++◌, Bool, true, Option,
  none, some, if◌then◌else◌, set, take, length, length-set, append-nil, append_assoc, arith,
}
use iq_tool.ThreadManager.{
  ThreadManager, init, spawn_thread, join_all, spawn_wanted, max_managed_threads,
}

-- The threads that come to run, where there is room for so many more: those before the first
-- failure.
unfoldable pub running : ℕ → List (Option ℕ) → List ℕ
running room [] = []
running room (none ∷ rest) = []
running zero (some handle ∷ rest) = []
running (suc room) (some handle ∷ rest) = handle ∷ running room rest

take-set :
    (n : ℕ) (cells : List ℕ) (x : ℕ)
    → n < length cells
    → take (n + 1) (set cells n x) ≡ take n cells ++ x ∷ []
take-set n [] x h = ground arith
take-set zero (c ∷ cells) x h = refl
take-set (suc n) (c ∷ cells) x h =
    let e : suc n + 1 ≡ suc (n + 1) = omega arith in
    ap (λ k. take k (c ∷ set cells n x)) e ∙ ap (λ t. c ∷ t) (take-set n cells x (omega arith))

abbrev with_handle : ThreadManager → ℕ → ThreadManager
with_handle m x = record {
  thread_handles = set m.thread_handles m.num_threads_started x;
  num_threads_started = m.num_threads_started + 1;
}

spawn_thread_lem :
    (m : ThreadManager) (x : ℕ)
    → m.num_threads_started < max_managed_threads
    → spawn_thread m (some x) ≡ (true, with_handle m x)
unfolding spawn_thread
spawn_thread_lem m x h = ground arith

-- Whether all came to run, and what is joined.
spawn_wanted_from :
    (m : ThreadManager) (room : ℕ) (wanted : List (Option ℕ))
    → length m.thread_handles ≡ max_managed_threads
    → m.num_threads_started + room ≡ max_managed_threads
    → ((spawn_wanted m wanted).0 ≡ (length (running room wanted) == length wanted))
      × ((join_all (spawn_wanted m wanted).1).0
          ≡ take m.num_threads_started m.thread_handles ++ running room wanted)
unfolding spawn_wanted spawn_thread join_all running
spawn_wanted_from m room [] size fits =
    (refl, sym (append-nil (take m.num_threads_started m.thread_handles)))
spawn_wanted_from m room (none ∷ rest) size fits =
    (ground arith, sym (append-nil (take m.num_threads_started m.thread_handles)))
spawn_wanted_from m zero (some x ∷ rest) size fits =
    ground (arith, append-nil (take m.num_threads_started m.thread_handles))
spawn_wanted_from m (suc room) (some x ∷ rest) size fits =
    let first : spawn_thread m (some x) ≡ (true, with_handle m x) =
      spawn_thread_lem m x (omega arith) in
    let n = m.num_threads_started in
    let cells = m.thread_handles in
    let k =
      spawn_wanted_from (with_handle m x) room rest (length-set cells n x ∙ size) (omega arith) in
    let go : spawn_wanted m (some x ∷ rest) ≡ spawn_wanted (with_handle m x) rest =
      ap (λ (t : Bool × ThreadManager). if t.0 then spawn_wanted t.1 rest else t) first in
    (
      ap (λ (t : Bool × ThreadManager). t.0) go ∙ ground (arith, k.0),
      ap (λ (t : Bool × ThreadManager). (join_all t.1).0) go
          ∙ k.1
          ∙ ap (λ s. s ++ running room rest) (take-set n cells x (omega arith))
          ∙ append_assoc (take n cells) (x ∷ []) (running room rest),
    )

-- Whatever the block for the 16 handles holds at first, the threads that `thread_manager_join_all`
-- waits for are exactly those that were started: the wanted ones before the first failure of
-- `pthread_create`, at most 16 of them, in order. Starting reports success exactly if these are all
-- that were wanted.
pub joined_lem :
    (cells : List ℕ) (wanted : List (Option ℕ))
    → length cells ≡ max_managed_threads
    → ((spawn_wanted (init cells) wanted).0
        ≡ (length (running max_managed_threads wanted) == length wanted))
      × ((join_all (spawn_wanted (init cells) wanted).1).0 ≡ running max_managed_threads wanted)
unfolding init
joined_lem cells wanted size = spawn_wanted_from (init cells) max_managed_threads wanted size refl

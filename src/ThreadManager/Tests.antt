-- ===== src/ThreadManager/Tests.antt =====
-- A run of src/thread_manager.c, and its theorem at it.
use iq_tool.Prelude.{◌≡◌, refl, [], ◌∷◌, List, ℕ, Option, none, some, ◌==◌, length, replicate}
use iq_tool.ThreadManager.{init, join_all, spawn_wanted, max_managed_threads}
use iq_tool.ThreadManager.Handles.{running, joined_lem}

-- The third thread cannot be created.
abbrev three_wanted : List (Option ℕ)
three_wanted = some 70 ∷ some 71 ∷ none ∷ some 72 ∷ []

two_running : running max_managed_threads three_wanted ≡ 70 ∷ 71 ∷ []
unfolding running
two_running = refl

joined_lem_example :
    ((spawn_wanted (init (replicate 16 0)) three_wanted).0
      ≡ (length (running max_managed_threads three_wanted) == length three_wanted))
    × ((join_all (spawn_wanted (init (replicate 16 0)) three_wanted).1).0
        ≡ running max_managed_threads three_wanted)
joined_lem_example = joined_lem (replicate 16 0) three_wanted refl

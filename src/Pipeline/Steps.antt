-- ===== src/Pipeline/Steps.antt =====
-- Each access of a thread that touches only what it holds moves at most one pointer, between a
-- queue and the thread.
use iq_tool.Prelude.{ℕ, ◌<◌, ◌≡◌, refl, List, ◌∷◌, ◌++◌, Bool, true, false, Option, none, some}
use iq_tool.Queue
use iq_tool.Queue.{Queue, enqueue, dequeue, try_dequeue}
use iq_tool.Queue.Validity.{
  enqueue-IsValid, dequeue-IsValid, try_dequeue-IsValid, signal_shutdown-IsValid,
}
use iq_tool.Queue.Refines.{contents, try_dequeue_refines}
use iq_tool.Queue.Traces.{listed, contents-enqueue, contents-dequeue, contents-poll}
use iq_tool.Pipeline.{QueueId, Answer, Act, World, set_chunk, after_get, after_put, step}
use iq_tool.Pipeline.Ownership.{
  count, remove, Owns, own_get, own_poll, own_put, own_shut, own_load, own_store, own_process,
  own_writer_ring, own_sdr_ring, own_size, own_flags, own_error, own_shutdown, own_finish,
  held_after, held_get, held_put,
}
use iq_tool.Pipeline.Places.{queued, AllValid, KeptIfAny, get-Kept, put-Kept, shut-Kept}

get_keeps :
    (w : World) (id : QueueId) (next : Option ℕ → Act) (held : List ℕ)
    (d : Option (Option ℕ × Queue))
    → dequeue (w.queues id) ≡ d
    → AllValid w
    → ((x : ℕ) → Owns (x ∷ held) (next (some x)))
    → Owns held (next none)
    → KeptIfAny w held (held_get d held) (after_get w id next d)
unfolding KeptIfAny held_get after_get
get_keeps w id next held none e v o o' = refl
get_keeps w id next held (some (none, q)) e v o o' =
    get-Kept w id next held (none, q) v (dequeue-IsValid (v id) e) (contents-dequeue (v id) e) o'
get_keeps w id next held (some (some x, q)) e v o o' =
    get-Kept w id next held (some x, q) v (dequeue-IsValid (v id) e) (contents-dequeue (v id) e)
      (o x)

poll_keeps :
    (w : World) (id : QueueId) (next : Option ℕ → Act) (held : List ℕ) (t : Option ℕ × Queue)
    → Queue.Validity.IsValid t.1
    → contents (w.queues id) ≡ listed t.0 ++ contents t.1
    → AllValid w
    → ((x : ℕ) → Owns (x ∷ held) (next (some x)))
    → Owns held (next none)
    → KeptIfAny w held (held_get (some t) held) (after_get w id next (some t))
unfolding KeptIfAny held_get after_get
poll_keeps w id next held (none, q) vq e v o o' = get-Kept w id next held (none, q) v vq e o'
poll_keeps w id next held (some x, q) vq e v o o' = get-Kept w id next held (some x, q) v vq e (o x)

put_keeps :
    (w : World) (id : QueueId) (x : ℕ) (next : Bool → Act) (held : List ℕ)
    (d : Option (Bool × Queue))
    → enqueue (w.queues id) x ≡ d
    → AllValid w
    → 0 < count x held
    → Owns (remove x held) (next true)
    → Owns held (next false)
    → KeptIfAny w held (held_put x d held) (after_put w id next d)
unfolding KeptIfAny after_put
put_keeps w id x next held none e v h o o' = refl
put_keeps w id x next held (some (b, q)) e v h o o' =
    put-Kept w id x next held b q v (enqueue-IsValid x (v id) e) (contents-enqueue x (v id) e) h o
      o'

-- Whatever the next access is.
pub step_keeps :
    (w : World) (answer : Answer) {held : List ℕ} {act : Act}
    → AllValid w
    → Owns held act
    → KeptIfAny w held (held_after w act held) (step w answer act)
unfolding KeptIfAny step held_after set_chunk queued
step_keeps w answer {held} v (own_get o o') = get_keeps w _ _ held _ refl v o o'
step_keeps w answer {held} v (own_poll {id = id} o o') =
    let q = w.queues id in
    poll_keeps w id _ held (try_dequeue q) (try_dequeue-IsValid (v id))
      (contents-poll q (try_dequeue q).1 (try_dequeue q).0 (try_dequeue_refines (v id))) v o o'
step_keeps w answer {held} v (own_put h o o') = put_keeps w _ _ _ held _ refl v h o o'
step_keeps w answer {held} v (own_shut o) = shut-Kept w _ _ held v o
step_keeps w answer v (own_load h o) = record { owned = o _; valid = v; same = λ x. refl }
step_keeps w answer v (own_store h o) = record { owned = o; valid = v; same = λ x. refl }
step_keeps w answer v (own_process h o) = record { owned = o answer; valid = v; same = λ x. refl }
step_keeps w answer v (own_writer_ring o) = record { owned = o; valid = v; same = λ x. refl }
step_keeps w answer v (own_sdr_ring o) = record { owned = o; valid = v; same = λ x. refl }
step_keeps w answer v (own_size o) = record { owned = o _; valid = v; same = λ x. refl }
step_keeps w answer v (own_flags o) = record { owned = o _ _; valid = v; same = λ x. refl }
step_keeps w answer v (own_error o) = record { owned = o; valid = v; same = λ x. refl }
step_keeps w answer v (own_shutdown o) = record { owned = o; valid = v; same = λ x. refl }
step_keeps w answer v own_finish = refl

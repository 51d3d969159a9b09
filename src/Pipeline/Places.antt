-- ===== src/Pipeline/Places.antt =====
-- Where the pointers are while the threads run: in a queue, held by a thread, or left behind by a
-- round that a queue refused.
use iq_tool.Prelude.{
  ℕ, ◌+◌, ◌<◌, ◌≡◌, List, [], ◌∷◌, ◌++◌, append-nil, ap, ◌∙◌, Bool, true, false, Option, none, some,
  ◌==◌, if◌then◌else◌, arith,
}
use iq_tool.Queue
use iq_tool.Queue.{Queue, signal_shutdown, enqueue, dequeue, try_dequeue}
use iq_tool.Queue.Validity.{
  enqueue-IsValid, dequeue-IsValid, try_dequeue-IsValid, signal_shutdown-IsValid,
}
use iq_tool.Queue.Refines.{contents}
use iq_tool.Queue.Traces.{listed, one_if, contents-signal_shutdown}
use iq_tool.Pipeline.{
  QueueId, free_sample_chunk_queue, reader_output_queue, pre_processor_output_queue,
  resampler_output_queue, post_processor_output_queue, iq_optimization_data_queue, Act, World,
  index, set_queue,
}
use iq_tool.Pipeline.Ownership.{count, remove, Owns, held_put, count-append, count-remove}

-- How often a pointer stands in the queues.
unfoldable pub queued : World → ℕ → ℕ
queued w x =
    count x (contents (w.queues free_sample_chunk_queue))
    + (count x (contents (w.queues reader_output_queue))
        + (count x (contents (w.queues pre_processor_output_queue))
            + (count x (contents (w.queues resampler_output_queue))
                + (count x (contents (w.queues post_processor_output_queue))
                    + count x (contents (w.queues iq_optimization_data_queue))))))

abbrev pub AllValid : World → Type 0
AllValid w = (id : QueueId) → Queue.Validity.IsValid (w.queues id)

-- Exchanging a queue exchanges what it counts for.
pub queued-set_queue :
    (w : World) (id : QueueId) (q : Queue) (x : ℕ)
    → queued (set_queue w id q) x + count x (contents (w.queues id))
      ≡ queued w x + count x (contents q)
unfolding queued set_queue index
queued-set_queue w free_sample_chunk_queue q x = omega arith
queued-set_queue w reader_output_queue q x = omega arith
queued-set_queue w pre_processor_output_queue q x = omega arith
queued-set_queue w resampler_output_queue q x = omega arith
queued-set_queue w post_processor_output_queue q x = omega arith
queued-set_queue w iq_optimization_data_queue q x = omega arith

IsValid-if :
    {q q' : Queue} (b : Bool)
    → Queue.Validity.IsValid q
    → Queue.Validity.IsValid q'
    → Queue.Validity.IsValid (if b then q else q')
IsValid-if true v v' = v
IsValid-if false v v' = v'

set_queue-AllValid :
    (w : World) (id : QueueId) (q : Queue)
    → AllValid w
    → Queue.Validity.IsValid q
    → AllValid (set_queue w id q)
unfolding set_queue
set_queue-AllValid w id q v vq i = IsValid-if (index i == index id) vq (v i)

-- What an access keeps: the discipline, the queues' validity, and the number of each pointer.
pub record Kept (w : World) (held : List ℕ) (w' : World) (held' : List ℕ) (act' : Act)
    : Type 0 where
  pub owned : Owns held' act'
  pub valid : AllValid w'
  pub same : (x : ℕ) → queued w' x + count x held' ≡ queued w x + count x held

unfoldable pub KeptIfAny : World → List ℕ → List ℕ → Option (World × Act) → Type 0
KeptIfAny w held held' none = true ≡ true
KeptIfAny w held held' (some t) = Kept w held t.0 held' t.1

pub get-Kept :
    (w : World) (id : QueueId) (next : Option ℕ → Act) (held : List ℕ) (t : Option ℕ × Queue)
    → AllValid w
    → Queue.Validity.IsValid t.1
    → contents (w.queues id) ≡ listed t.0 ++ contents t.1
    → Owns (listed t.0 ++ held) (next t.0)
    → Kept w held (set_queue w id t.1) (listed t.0 ++ held) (next t.0)
get-Kept w id next held t v vt e o = record {
  owned = o;
  valid = set_queue-AllValid w id t.1 v vt;
  same = λ x. omega (
    arith,
    queued-set_queue w id t.1 x,
    ap (count x) e,
    count-append x (listed t.0) (contents t.1),
    count-append x (listed t.0) held,
  );
}

pub put-Kept :
    (w : World) (id : QueueId) (x : ℕ) (next : Bool → Act) (held : List ℕ) (b : Bool) (q : Queue)
    → AllValid w
    → Queue.Validity.IsValid q
    → contents q ≡ contents (w.queues id) ++ one_if b x
    → 0 < count x held
    → Owns (remove x held) (next true)
    → Owns held (next false)
    → Kept w held (set_queue w id q) (held_put x (some (b, q)) held) (next b)
unfolding held_put
put-Kept w id x next held true q v vt e h o o' = record {
  owned = o;
  valid = set_queue-AllValid w id q v vt;
  same = λ y. omega (
    arith,
    queued-set_queue w id q y,
    ap (count y) e,
    count-append y (contents (w.queues id)) (x ∷ []),
    count-remove x y held h,
  );
}
put-Kept w id x next held false q v vt e h o o' = record {
  owned = o';
  valid = set_queue-AllValid w id q v vt;
  same = λ y.
      omega
        (arith, queued-set_queue w id q y, ap (count y) (e ∙ append-nil (contents (w.queues id))));
}

pub shut-Kept :
    (w : World) (id : QueueId) (next : Act) (held : List ℕ)
    → AllValid w
    → Owns held next
    → Kept w held (set_queue w id (signal_shutdown (w.queues id))) held next
shut-Kept w id next held v o =
    let same : contents (signal_shutdown (w.queues id)) ≡ contents (w.queues id) =
      contents-signal_shutdown (w.queues id) in
    record {
      owned = o;
      valid = set_queue-AllValid w id _ v (signal_shutdown-IsValid (v id));
      same = λ x.
          omega (arith, queued-set_queue w id (signal_shutdown (w.queues id)) x, ap (count x) same);
    }

-- ===== src/Queue/Traces.antt =====
-- The queue over every interleaving of its calls.
use mathlib.Core.Option
use iq_tool.Prelude.{
  ℕ, ◌≤◌, ◌≡◌, ◌≢◌, ◌↔◌, refl, ap, List, [], ◌∷◌, ◌++◌, Bool, true, false, Option, none, some,
  arith, ◌==◌, if◌then◌else◌, length, append-nil, append_both, append_between,
}
use iq_tool.Queue.{Queue, enqueue, remove, dequeue, try_dequeue, signal_shutdown}
use iq_tool.Queue.Fifo
use iq_tool.Queue.Fifo.{Fifo}
use iq_tool.Queue.Validity.{
  IsValid, enqueue-IsValid, dequeue-IsValid, try_dequeue-IsValid, signal_shutdown-IsValid,
}
use iq_tool.Queue.Refines.{
  contents, length-contents, view, view_enqueue, view_dequeue, enqueue_refines, dequeue_refines,
  try_dequeue_refines,
}

abbrev pub one_if : Bool → ℕ → List ℕ
one_if true item = item ∷ []
one_if false item = []

abbrev pub listed : Option ℕ → List ℕ
listed none = []
listed (some item) = item ∷ []

-- A run of the queue from `q₀`: the pointers whose `queue_enqueue` returned true, and those that
-- the other side was given. A call that waits is no step.
pub data Run (q₀ : Queue) : Queue → List ℕ → List ℕ → Type 0 where
  start : Run q₀ q₀ [] []
  enqueued :
      {q q' : Queue} {accepted given : List ℕ} (item : ℕ) {done : Bool}
      → Run q₀ q accepted given
      → enqueue q item ≡ some (done, q')
      → Run q₀ q' (accepted ++ one_if done item) given
  dequeued :
      {q q' : Queue} {accepted given : List ℕ} {item : Option ℕ}
      → Run q₀ q accepted given
      → dequeue q ≡ some (item, q')
      → Run q₀ q' accepted (given ++ listed item)
  polled :
      {q : Queue} {accepted given : List ℕ}
      → Run q₀ q accepted given
      → Run q₀ (try_dequeue q).1 accepted (given ++ listed (try_dequeue q).0)
  stopped :
      {q : Queue} {accepted given : List ℕ}
      → Run q₀ q accepted given
      → Run q₀ (signal_shutdown q) accepted given

pub contents-enqueue :
    {q q' : Queue} (item : ℕ) {done : Bool}
    → IsValid q
    → enqueue q item ≡ some (done, q')
    → contents q' ≡ contents q ++ one_if done item
unfolding Fifo.put
contents-enqueue {q} {q'} item v e =
    ground (arith, enqueue_refines item v, ap (Option.map view_enqueue) e, append-nil (contents q))

first_parts :
    (q q' : Fifo) (items : List ℕ) (item : Option ℕ)
    → (item, q') ≡ Fifo.first q items
    → q.items ≡ items
    → items ≡ listed item ++ q'.items
first_parts q q' [] item e s = ground (arith, ap (λ (t : Option ℕ × Fifo). t.1.items) e)
first_parts q q' (x ∷ items) item e s = ground arith

pub contents-poll :
    (q q' : Queue) (item : Option ℕ)
    → (item, view q') ≡ Fifo.poll (view q)
    → contents q ≡ listed item ++ contents q'
unfolding Fifo.poll
contents-poll q q' item e = first_parts (view q) (view q') (contents q) item e refl

pub contents-dequeue :
    {q q' : Queue} {item : Option ℕ}
    → IsValid q
    → dequeue q ≡ some (item, q')
    → contents q ≡ listed item ++ contents q'
unfolding Fifo.get
contents-dequeue {q} {q'} {item = item} v e =
    contents-poll q q' item (ground (arith, dequeue_refines v, ap (Option.map view_dequeue) e))

Run-IsValid :
    {q₀ q : Queue} {accepted given : List ℕ} → IsValid q₀ → Run q₀ q accepted given → IsValid q
Run-IsValid v start = v
Run-IsValid v (enqueued item s e) = enqueue-IsValid item (Run-IsValid v s) e
Run-IsValid v (dequeued s e) = dequeue-IsValid (Run-IsValid v s) e
Run-IsValid v (polled s) = try_dequeue-IsValid (Run-IsValid v s)
Run-IsValid v (stopped s) = signal_shutdown-IsValid (Run-IsValid v s)

Run_order :
    {q₀ q : Queue} {accepted given : List ℕ}
    → IsValid q₀
    → Run q₀ q accepted given
    → contents q₀ ++ accepted ≡ given ++ contents q
unfolding signal_shutdown
Run_order {q₀} v start = append-nil (contents q₀)
Run_order {q₀} v (enqueued {q = q} {accepted = a} {given = g} item s e) =
    append_both (contents q₀) a g (contents q) _ _ (Run_order v s)
      (contents-enqueue item (Run-IsValid v s) e)
Run_order {q₀} v (dequeued {q = q} {accepted = a} {given = g} s e) =
    append_between (contents q₀ ++ a) g (contents q) _ _ (Run_order v s)
      (contents-dequeue (Run-IsValid v s) e)
Run_order {q₀} v (polled {q = q} {accepted = a} {given = g} s) =
    append_between (contents q₀ ++ a) g (contents q) _ _ (Run_order v s)
      (contents-poll q (try_dequeue q).1 (try_dequeue q).0 (try_dequeue_refines (Run-IsValid v s)))
Run_order v (stopped s) = Run_order v s

-- Whatever the order of the calls, the pointers held at the start followed by those accepted are
-- the pointers given out followed by those held at the end: none is lost, doubled or overtaken. The
-- queue never holds more than its capacity.
pub pointers_conserved :
    {q₀ q : Queue} {accepted given : List ℕ}
    → IsValid q₀
    → Run q₀ q accepted given
    → (contents q₀ ++ accepted ≡ given ++ contents q) × (length (contents q) ≤ q.capacity)
pointers_conserved {q = q} v s = (Run_order v s, omega (arith, length-contents q, Run-IsValid v s))

-- A caller of `queue_enqueue` waits exactly while the queue is full and open, one of
-- `queue_dequeue` exactly while it is empty and open.
pub waits_iff :
    (q : Queue) (item : ℕ)
    → ((enqueue q item ≡ none) ↔ ((length (contents q) ≡ q.capacity) × (q.shutting_down ≡ false)))
      × ((dequeue q ≡ none) ↔ ((length (contents q) ≡ 0) × (q.shutting_down ≡ false)))
unfolding enqueue dequeue
waits_iff q item = (
  (λ e. ground (arith, length-contents q), λ e. ground (arith, length-contents q)),
  (λ e. ground (arith, length-contents q), λ e. ground (arith, length-contents q)),
)

-- An accepted pointer ends every wait for a pointer.
pub enqueue_wakes :
    {q q' : Queue} (item : ℕ) → IsValid q → enqueue q item ≡ some (true, q') → dequeue q' ≢ none
unfolding enqueue dequeue
enqueue_wakes item v e = ground arith

-- A pointer given out ends every wait for room.
pub dequeue_wakes :
    {q q' : Queue} {x : ℕ} (item : ℕ)
    → IsValid q
    → dequeue q ≡ some (some x, q')
    → enqueue q' item ≢ none
unfolding enqueue dequeue remove
dequeue_wakes item v e = ground arith

-- A shutdown ends all waits: nothing more is accepted, and a queue that is empty answers NULL.
pub shutdown_wakes :
    (q : Queue) (item : ℕ)
    → (enqueue (signal_shutdown q) item ≡ some (false, signal_shutdown q))
      × (dequeue (signal_shutdown q)
          ≡ some (if q.count == 0 then (none, signal_shutdown q) else remove (signal_shutdown q)))
unfolding enqueue dequeue signal_shutdown
shutdown_wakes q item = (ground arith, ground arith)

pub contents-signal_shutdown : (q : Queue) → contents (signal_shutdown q) ≡ contents q
unfolding signal_shutdown
contents-signal_shutdown q = refl

-- ===== src/Queue/Refines.antt =====
-- The queue is the bounded FIFO of the pointers that it holds.
use mathlib.Core.Option
use iq_tool.Prelude.{
  ℕ, zero, suc, ◌+◌, ◌%◌, ◌<◌, ◌≡◌, refl, sym, ap, ap₂, ◌∙◌, List, [], ◌∷◌, ◌++◌, Bool, Option,
  none, some, arith, length, set, get_elem?, get_or, get_or-set, length-tabulate, add_size,
  sub_size,
}
use iq_tool.Prelude.Cyclic.{index, window, window-append, window_cong, mod-eq-index}
use iq_tool.Queue.{Queue, enqueue, remove, dequeue, try_dequeue}
use iq_tool.Queue.Fifo
use iq_tool.Queue.Fifo.{Fifo}
use iq_tool.Queue.Validity.{IsValid, tail-lt-capacity}

-- The pointers held, oldest first.
abbrev pub contents : Queue → List ℕ
contents q = window q.buffer q.capacity q.head q.count

pub length-contents : (q : Queue) → length (contents q) ≡ q.count
length-contents q = length-tabulate _ q.count

abbrev pub view : Queue → Fifo
view q = record { items = contents q; limit = q.capacity; stopped = q.shutting_down }

get_elem?-eq-get_or :
    (xs : List ℕ) (i d : ℕ) → i < length xs → get_elem? xs i ≡ some (get_or xs i d)
get_elem?-eq-get_or [] i d h = elim h [ ]
get_elem?-eq-get_or (x ∷ xs) zero d h = refl
get_elem?-eq-get_or (x ∷ xs) (suc i) d h = get_elem?-eq-get_or xs i d (omega arith)

-- Writing at the tail appends to what is held.
window-set :
    {q : Queue} (item : ℕ)
    → IsValid q
    → q.count < q.capacity
    → window (set q.buffer q.tail item) q.capacity q.head (q.count + 1) ≡ contents q ++ item ∷ []
window-set {q} item v room =
    window-append block q.capacity q.head q.count 1 v.head_in (omega arith)
    ∙ ap₂ ◌++◌
        (window_cong block q.buffer q.capacity q.head q.count (λ k h. ground (
          arith,
          get_or-set q.buffer q.tail item (index q.capacity (q.head + k)) 0,
          tail-lt-capacity v,
        )))
        (ap (λ x. x ∷ [])
          (ground (
            arith,
            mod-eq-index (q.head + q.count) q.capacity,
            get_or-set q.buffer q.tail item q.tail 0,
            tail-lt-capacity v,
          )))
  where
    block : List ℕ
    block = set q.buffer q.tail item

-- What is removed, and what is left, make up what was held.
contents-remove :
    {q : Queue}
    → IsValid q
    → 0 < q.count
    → (contents q ≡ get_or q.buffer q.head 0 ∷ contents (remove q).1)
      × ((remove q).0 ≡ some (get_or q.buffer q.head 0))
unfolding remove
contents-remove {q} v pos = (
  ap (window q.buffer q.capacity q.head) split
      ∙ window-append q.buffer q.capacity q.head 1 (sub_size q.count 1) v.head_in (omega arith)
      ∙ ap₂ ◌∷◌ front rest,
  get_elem?-eq-get_or q.buffer q.head 0 (omega arith),
)
  where
    split : q.count ≡ 1 + sub_size q.count 1
    split = omega arith

    front : get_or q.buffer (index q.capacity (q.head + 0)) 0 ≡ get_or q.buffer q.head 0
    front = ground arith

    rest :
        window q.buffer q.capacity ((q.head + 1) % q.capacity) (sub_size q.count 1)
        ≡ window q.buffer q.capacity (add_size q.head 1 % q.capacity) (sub_size q.count 1)
    rest = ap (λ p. window q.buffer q.capacity (p % q.capacity) (sub_size q.count 1)) (omega arith)

abbrev pub view_enqueue : Bool × Queue → Bool × Fifo
view_enqueue (b, q) = (b, view q)

abbrev pub view_dequeue : Option ℕ × Queue → Option ℕ × Fifo
view_dequeue (item, q) = (item, view q)

-- `queue_enqueue` waits while the queue is full, refuses after a shutdown, and else appends.
pub enqueue_refines :
    {q : Queue} (item : ℕ)
    → IsValid q
    → Option.map view_enqueue (enqueue q item) ≡ Fifo.put (view q) item
unfolding enqueue Fifo.put
enqueue_refines {q} item v = ground (arith, length-contents q, window-set item v)

remove_refines :
    {q : Queue} → IsValid q → 0 < q.count → view_dequeue (remove q) ≡ Fifo.poll (view q)
unfolding remove Fifo.poll
remove_refines {q} v pos =
    ap (λ item. (item, record (view q) { items = contents (remove q).1 }))
      ((contents-remove v pos).1)
    ∙ sym (ap (Fifo.first (view q)) ((contents-remove v pos).0))

empty_poll : (q : Queue) → q.count ≡ 0 → (none, view q) ≡ Fifo.poll (view q)
unfolding Fifo.poll
empty_poll q e = sym (ap (λ n. Fifo.first (view q) (window q.buffer q.capacity q.head n)) e)

-- `queue_try_dequeue` returns the oldest pointer and removes it, or NULL from an empty queue.
pub try_dequeue_refines :
    {q : Queue} → IsValid q → view_dequeue (try_dequeue q) ≡ Fifo.poll (view q)
unfolding try_dequeue
try_dequeue_refines {q} v = ground (arith, remove_refines v, empty_poll q)

-- `queue_dequeue` waits while the queue is empty and open, and else does as `queue_try_dequeue`: a
-- stopped queue still gives out what it holds.
pub dequeue_refines :
    {q : Queue} → IsValid q → Option.map view_dequeue (dequeue q) ≡ Fifo.get (view q)
unfolding dequeue Fifo.get
dequeue_refines {q} v = ground (arith, length-contents q, remove_refines v, empty_poll q)

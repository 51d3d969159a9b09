-- ===== src/Queue/Fifo.antt =====
-- What the queue promises: a bounded FIFO of pointers that can be stopped.
use iq_tool.Prelude.{
  ℕ, List, [], ◌∷◌, ◌++◌, Bool, true, false, not, ◌&&◌, Option, none, some, ◌==◌, if◌then◌else◌,
  length,
}

pub record Fifo : Type 0 where
  pub items : List ℕ
  pub limit : ℕ
  pub stopped : Bool

-- A full queue makes its callers wait, until it is stopped; from then on it refuses all.
unfoldable pub put : Fifo → ℕ → Option (Bool × Fifo)
put q item =
    if q.stopped
    then some (false, q)
    else if length q.items == q.limit
    then none
    else some (true, record q { items = q.items ++ item ∷ [] })

abbrev pub first : Fifo → List ℕ → Option ℕ × Fifo
first q [] = (none, q)
first q (item ∷ items) = (some item, record q { items = items })

-- The oldest item, or NULL from an empty queue.
unfoldable pub poll : Fifo → Option ℕ × Fifo
poll q = first q q.items

-- An empty queue makes its callers wait, until it is stopped; what it holds is still given out then.
unfoldable pub get : Fifo → Option (Option ℕ × Fifo)
get q = if length q.items == 0 && not q.stopped then none else some (poll q)

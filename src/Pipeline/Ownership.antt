-- ===== src/Pipeline/Ownership.antt =====
-- Who may touch a chunk: a thread holds the pointers that it has taken out of a queue and has not
-- put into one.
use iq_tool.Prelude.{
  ℕ, ◌+◌, ◌<◌, ◌≡◌, List, [], ◌∷◌, ◌++◌, Bool, true, false, Option, none, some, ◌==◌, if◌then◌else◌,
  arith,
}
use iq_tool.RingBuffer.{RingBuffer}
use iq_tool.Queue.{Queue, enqueue, dequeue, try_dequeue}
use iq_tool.Queue.Traces.{listed}
use iq_tool.Pipeline.{
  QueueId, SampleChunk, Answer, Act, get, poll, put, shut, load, store, process, on_writer_ring,
  on_sdr_ring, writer_ring_size, read_flags, raise_error, raise_shutdown, finish, World,
}

-- How often a pointer stands in a list.
unfoldable pub count : ℕ → List ℕ → ℕ
count x [] = 0
count x (y ∷ ys) = let rest = count x ys in if x == y then 1 + rest else rest

-- Without the first occurrence.
unfoldable pub remove : ℕ → List ℕ → List ℕ
remove x [] = []
remove x (y ∷ ys) = let rest = remove x ys in if x == y then ys else y ∷ rest

-- The code touches only chunks that it holds.
pub data Owns : List ℕ → Act → Type 0 where
  own_get :
      {held : List ℕ} {id : QueueId} {next : Option ℕ → Act}
      → ((x : ℕ) → Owns (x ∷ held) (next (some x)))
      → Owns held (next none)
      → Owns held (get id next)
  own_poll :
      {held : List ℕ} {id : QueueId} {next : Option ℕ → Act}
      → ((x : ℕ) → Owns (x ∷ held) (next (some x)))
      → Owns held (next none)
      → Owns held (poll id next)
  own_put :
      {held : List ℕ} {id : QueueId} {x : ℕ} {next : Bool → Act}
      → 0 < count x held
      → Owns (remove x held) (next true)
      → Owns held (next false)
      → Owns held (put id x next)
  own_shut : {held : List ℕ} {id : QueueId} {next : Act} → Owns held next → Owns held (shut id next)
  own_load :
      {held : List ℕ} {x : ℕ} {next : SampleChunk → Act}
      → 0 < count x held
      → ((c : SampleChunk) → Owns held (next c))
      → Owns held (load x next)
  own_store :
      {held : List ℕ} {x : ℕ} {f : SampleChunk → SampleChunk} {next : Act}
      → 0 < count x held
      → Owns held next
      → Owns held (store x f next)
  own_process :
      {held : List ℕ} {x : ℕ} {next : Answer → Act}
      → 0 < count x held
      → ((a : Answer) → Owns held (next a))
      → Owns held (process x next)
  own_writer_ring :
      {held : List ℕ} {f : RingBuffer → RingBuffer} {next : Act}
      → Owns held next
      → Owns held (on_writer_ring f next)
  own_sdr_ring :
      {held : List ℕ} {f : RingBuffer → RingBuffer} {next : Act}
      → Owns held next
      → Owns held (on_sdr_ring f next)
  own_size :
      {held : List ℕ} {next : ℕ → Act}
      → ((n : ℕ) → Owns held (next n))
      → Owns held (writer_ring_size next)
  own_flags :
      {held : List ℕ} {next : Bool → Bool → Act}
      → ((b c : Bool) → Owns held (next b c))
      → Owns held (read_flags next)
  own_error : {held : List ℕ} {next : Act} → Owns held next → Owns held (raise_error next)
  own_shutdown : {held : List ℕ} {next : Act} → Owns held next → Owns held (raise_shutdown next)
  own_finish : {held : List ℕ} {again : Bool} → Owns held (finish again)

-- The pointers held after a get or a put.
unfoldable pub held_get : Option (Option ℕ × Queue) → List ℕ → List ℕ
held_get none held = held
held_get (some t) held = listed t.0 ++ held

unfoldable pub held_put : ℕ → Option (Bool × Queue) → List ℕ → List ℕ
held_put x none held = held
held_put x (some t) held = if t.0 then remove x held else held

-- The pointers held after the first access.
unfoldable pub held_after : World → Act → List ℕ → List ℕ
held_after w (get id next) held = held_get (dequeue (w.queues id)) held
held_after w (poll id next) held = held_get (some (try_dequeue (w.queues id))) held
held_after w (put id x next) held = held_put x (enqueue (w.queues id) x) held
held_after w _ held = held

-- The chunk that the first access works on.
unfoldable pub touched : Act → Option ℕ
touched (load x next) = some x
touched (store x f next) = some x
touched (process x next) = some x
touched _ = none

pub count-append : (x : ℕ) (xs ys : List ℕ) → count x (xs ++ ys) ≡ count x xs + count x ys
unfolding count
count-append x [] ys = ground arith
count-append x (y ∷ xs) ys = ground (arith, count-append x xs ys)

pub count-remove :
    (x y : ℕ) (xs : List ℕ) → 0 < count x xs → count y (remove x xs) + count y (x ∷ []) ≡ count y xs
unfolding count remove
count-remove x y [] held = omega arith
count-remove x y (z ∷ xs) held = ground (arith, count-remove x y xs)

-- What stands at the front of the pointers held.
pub count_first : (x : ℕ) (held : List ℕ) → 0 < count x (x ∷ held)
unfolding count
count_first x held = ground arith

pub count_second : (x y : ℕ) (held : List ℕ) → 0 < count x (y ∷ x ∷ held)
unfolding count
count_second x y held = ground arith

pub remove_first : (x : ℕ) (held : List ℕ) → remove x (x ∷ held) ≡ held
unfolding remove
remove_first x held = ground arith

-- ===== src/Pipeline/Rules.antt =====
-- Rules for code that touches only chunks that it holds.
use iq_tool.Prelude.{ℕ, ◌<◌, List, ◌∷◌, Bool, true, false, if◌then◌else◌, subst, sym}
use iq_tool.Pipeline.{QueueId, free_sample_chunk_queue, Act, put, finish}
use iq_tool.Pipeline.Calls.{request_shutdown, handle_fatal_thread_error, put_anyway}
use iq_tool.Pipeline.Ownership.{
  count, Owns, own_put, own_shut, own_writer_ring, own_sdr_ring, own_flags, own_error, own_shutdown,
  own_finish, count_first, remove_first,
}

pub Owns-if :
    {held : List ℕ} {a b : Act} (c : Bool)
    → Owns held a
    → Owns held b
    → Owns held (if c then a else b)
Owns-if true oa ob = oa
Owns-if false oa ob = ob

pub Owns-put :
    {held : List ℕ} (id : QueueId) (x : ℕ) (next : Bool → Act)
    → Owns held (next true)
    → Owns (x ∷ held) (next false)
    → Owns (x ∷ held) (put id x next)
Owns-put {held} id x next done refused =
    own_put (count_first x held) (subst (λ h. Owns h (next true)) (sym (remove_first x held)) done)
      refused

-- Whether it is accepted or not, the thread goes on.
pub Owns-put_anyway :
    {held : List ℕ} (id : QueueId) (x : ℕ) (next : Act)
    → 0 < count x held
    → ((kept : List ℕ) → Owns kept next)
    → Owns held (put_anyway id x next)
unfolding put_anyway
Owns-put_anyway id x next h o = own_put h (o _) (o _)

pub Owns-request_shutdown :
    {held : List ℕ} (next : Act) → Owns held next → Owns held (request_shutdown next)
unfolding request_shutdown
Owns-request_shutdown next o = own_flags λ b c. Owns-if b o (
    own_shutdown (
      own_shut
        (own_shut (own_shut (own_shut (own_shut (own_shut (own_writer_ring (own_sdr_ring o)))))))))

pub Owns-handle_fatal_thread_error :
    {held : List ℕ} (next : Act) → Owns held next → Owns held (handle_fatal_thread_error next)
unfolding handle_fatal_thread_error
Owns-handle_fatal_thread_error next o =
    own_flags λ b c. Owns-if c o (own_error (Owns-request_shutdown next o))

-- A refused pointer is put back into the pool, and the thread goes on with the end of its round.
pub Owns-pass :
    {held : List ℕ} {x : ℕ} (id : QueueId) (rest : Act)
    → 0 < count x held
    → ((kept : List ℕ) → Owns kept rest)
    → Owns held (
        put id x
          λ accepted. if accepted then finish true else put_anyway free_sample_chunk_queue x rest)
Owns-pass id rest h o = own_put h own_finish (Owns-put_anyway free_sample_chunk_queue _ rest h o)

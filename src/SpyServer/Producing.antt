-- ===== src/SpyServer/Producing.antt =====
-- What the producer thread puts into the ring.
use iq_tool.Prelude.{
  nil_of_length, ℕ, zero, suc, ◌-◌, ◌^◌, ◌≤◌, ◌<◌, ◌≡◌, refl, ap, sym, ◌∙◌, List, [], ◌∷◌, ◌++◌,
  true, false, arith, leb, ltb, ◌==◌, length, take, drop, length-take, length-drop,
  take-append-drop, append_assoc, inl, inr, Bool-cases, ==→eq,
}
use iq_tool.SpyServer.{piece_size, message_header_size, body_size_of, Calls, recv}
use iq_tool.SpyServer.Producer.{
  Ended, ended, connection_lost, network_read_size, copy_piece, copy_body, copy_message,
  producer_thread,
}
use iq_tool.SpyServer.Messages.{
  Message, header_of, encode, all_small, with_body, length-header_of, body_size_of-header_of,
  piece_size_lem,
}
use iq_tool.SpyServer.Running.{Ran, more_written, run_from, run_calls, run_calls-recv}

not_short : (n : ℕ) → ltb n n ≡ false
not_short n = ground arith

-- One piece of a body.
copy_body_step :
    (fuel more : ℕ) (piece rest : List ℕ) (next : Calls Ended)
    → length piece ≡ piece_size network_read_size (suc more)
    → run_calls (copy_body (suc fuel) (suc more) next) (piece ++ rest)
      ≡ more_written piece (run_calls (copy_body fuel (suc more - length piece) next) rest)
unfolding copy_body copy_piece run_from
copy_body_step fuel more piece rest next e =
    run_calls-recv n piece rest (copy_piece n (copy_body fuel (suc more - n) next)) e
    ∙ rw e (rw (not_short n) refl)
  where
    n : ℕ
    n = piece_size network_read_size (suc more)

copied :
    (fuel : ℕ) (body rest : List ℕ) (next : Calls Ended)
    → length body ≤ fuel
    → run_calls (copy_body fuel (length body) next) (body ++ rest)
      ≡ more_written body (run_calls next rest)
unfolding copy_body
copied fuel [] rest next h = refl
copied zero (x ∷ body) rest next h = absurd (omega arith)
copied (suc fuel) (x ∷ body) rest next h =
    let n = piece_size network_read_size (suc (length body)) in
    let (some_of_it, (_, inside)) = piece_size_lem network_read_size (length body) (omega arith) in
    let piece = take n (x ∷ body) in
    let others = drop n (x ∷ body) in
    let size : length piece ≡ n = omega (arith, length-take n (x ∷ body), inside) in
    let left : suc (length body) - length piece ≡ length others =
      omega (arith, length-drop n (x ∷ body), size) in
    let split : piece ++ (others ++ rest) ≡ x ∷ body ++ rest =
      sym (append_assoc piece others rest) ∙ ap (λ t. t ++ rest) (take-append-drop n (x ∷ body)) in
    ap (run_calls (copy_body (suc fuel) (suc (length body)) next)) (sym split)
    ∙ copy_body_step fuel (length body) piece (others ++ rest) next size
    ∙ ap (λ k. more_written piece (run_calls (copy_body fuel k next) (others ++ rest))) left
    ∙ ap (more_written piece)
        (copied fuel others rest next (omega (arith, length-drop n (x ∷ body), some_of_it)))
    ∙ ap (λ b. record (run_calls next rest) { written = b })
        (sym (append_assoc piece others ((run_calls next rest).written))
          ∙ ap (λ b. b ++ (run_calls next rest).written) (take-append-drop n (x ∷ body)))

-- One message with a body, and one without.
message_step :
    (next : Calls Ended) (header body rest : List ℕ)
    → length header ≡ message_header_size
    → body_size_of header ≡ length body
    → (length body == 0) ≡ false
    → run_calls (recv message_header_size (copy_message next)) (header ++ (body ++ rest))
      ≡ more_written (header ++ body) (run_calls next rest)
unfolding copy_message run_from
message_step next header body rest e f some_body =
    run_calls-recv message_header_size header (body ++ rest) (copy_message next) e
    ∙ rw f (
        rw some_body
          (rw e (ap (more_written header) (copied (length body) body rest next (omega arith)))))
    ∙ ap (λ b. record (run_calls next rest) { written = b })
        (sym (append_assoc header body ((run_calls next rest).written)))

empty_step :
    (next : Calls Ended) (header rest : List ℕ)
    → length header ≡ message_header_size
    → body_size_of header ≡ 0
    → run_calls (recv message_header_size (copy_message next)) (header ++ rest)
      ≡ run_calls next rest
unfolding copy_message run_from
empty_step next header rest e f =
    run_calls-recv message_header_size header rest (copy_message next) e ∙ rw f refl

-- What the producer is left with after whole messages.
abbrev all_copied : List Message → Ran Ended
all_copied ms = record { answer = ended; sent = []; written = encode (with_body ms); left = [] }

round :
    (fuel : ℕ) (m : Message) (ms : List Message) (torn : List ℕ)
    → length m.body < 2 ^ 32
    → run_calls (producer_thread fuel) (encode ms ++ torn) ≡ all_copied ms
    → run_calls
        (recv message_header_size (copy_message (producer_thread fuel)))
        (header_of m ++ (m.body ++ (encode ms ++ torn)))
      ≡ all_copied (m ∷ ms)
unfolding with_body encode
round fuel m ms torn small rest = elim (Bool-cases (length m.body == 0)) [
  | inl e ↦
      let none_there : m.body ≡ [] = nil_of_length m.body (==→eq (length m.body) 0 e) in
      rw e (
        ap
          (λ b.
            run_calls (recv message_header_size (copy_message (producer_thread fuel)))
              (header_of m ++ (b ++ (encode ms ++ torn))))
          none_there
        ∙ empty_step (producer_thread fuel) (header_of m) (encode ms ++ torn) (length-header_of m)
            (body_size_of-header_of m small ∙ ==→eq (length m.body) 0 e)
        ∙ rest)
  | inr e ↦ rw e (
      message_step (producer_thread fuel) (header_of m) m.body (encode ms ++ torn)
        (length-header_of m) (body_size_of-header_of m small) e
      ∙ ap (more_written (header_of m ++ m.body)) rest
      ∙ ap (λ b. record (all_copied ms) { written = b })
          (append_assoc (header_of m) m.body (encode (with_body ms))))
]

-- If what comes from the socket are messages with bodies below 2 ^ 32 bytes and then at most the
-- torn header of one more, and neither a shutdown nor a full ring stops the thread, then it ends, and
-- what it has put into the ring are exactly the messages that have a body, whole and in order.
pub producer_thread_lem :
    (fuel : ℕ) (ms : List Message) (torn : List ℕ)
    → all_small ms ≡ true
    → length ms < fuel
    → length torn < message_header_size
    → run_calls (producer_thread fuel) (encode ms ++ torn)
      ≡ record { answer = ended; sent = []; written = encode (with_body ms); left = [] }
unfolding producer_thread copy_message encode with_body all_small run_from connection_lost
producer_thread_lem zero ms torn small h short = absurd (omega arith)
producer_thread_lem (suc fuel) [] torn small h short =
    let e : leb message_header_size (length torn) ≡ false = ground arith in rw e refl
producer_thread_lem (suc fuel) (m ∷ ms) torn small h short =
    let fits : length m.body < 2 ^ 32 = ground arith in
    let others : all_small ms ≡ true = ground arith in
    ap (run_calls (recv message_header_size (copy_message (producer_thread fuel)))) split
    ∙ round fuel m ms torn fits (producer_thread_lem fuel ms torn others (omega arith) short)
  where
    split :
        (header_of m ++ (m.body ++ encode ms)) ++ torn
        ≡ header_of m ++ (m.body ++ (encode ms ++ torn))
    split =
        append_assoc (header_of m) (m.body ++ encode ms) torn
        ∙ ap (λ t. header_of m ++ t) (append_assoc m.body (encode ms) torn)

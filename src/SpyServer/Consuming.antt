-- ===== src/SpyServer/Consuming.antt =====
-- What the client's main thread makes of the bytes in the ring.
use mathlib.Core.Option
use iq_tool.Prelude.{
  ℕ, zero, suc, ◌-◌, ◌/◌, ◌≤◌, ◌<◌, ◌≡◌, refl, ap, ap₂, sym, ◌∙◌, inl, inr, List, [], ◌∷◌, ◌++◌,
  Bool, true, false, Option, none, some, arith, ltb, if◌then◌else◌, length, take, drop, length-take,
  length-drop, take-append-drop, take-front, drop-front, append_assoc, Bool-cases,
}
use iq_tool.Formats.{Format, get_bytes_per_sample}
use iq_tool.SdrPacket.Runs.{run_list, run_list_answer}
use iq_tool.SdrPacket.Payload.{run_list-map_result}
use iq_tool.SpyServer.{piece_size, message_header_size, body_size_of}
use iq_tool.SpyServer.Consumer.{
  Filled, Stream, read_ring, get_chunk, finish, discard_piece, discard_body, deliver_piece,
  deliver_body, is_sample_message, take_message, undisturbed,
}
use iq_tool.SpyServer.Messages.{Message, header_of, piece_size_lem}

-- What the loop delivers from these bytes, which are the last ones of the stream, whether it came to
-- its end, and what is left.
unfoldable pub run_stream : Stream → List ℕ → Option ((List Filled × Bool) × List ℕ)
run_stream s bytes = run_list (undisturbed s) true bytes

abbrev pub more_delivered :
    List Filled → (List Filled × Bool) × List ℕ → (List Filled × Bool) × List ℕ
more_delivered cs t = ((cs ++ t.0.0, t.0.1), t.1)

not_short : (n : ℕ) → ltb n n ≡ false
not_short n = ground arith

run_stream-read_ring :
    (n : ℕ) (piece rest : List ℕ) (next : List ℕ → Stream)
    → length piece ≡ n
    → run_stream (read_ring n next) (piece ++ rest) ≡ run_stream (next piece) rest
unfolding run_stream undisturbed
run_stream-read_ring n piece rest next e =
    run_list_answer n (λ bytes. undisturbed (next bytes)) true (piece ++ rest) (inr (inr refl))
    ∙ ap₂ (λ b r. run_list (undisturbed (next b)) true r) (take-front n piece rest e)
        (drop-front n piece rest e)

-- A chunk with these bytes.
abbrev pub filled : Format → ℕ → List ℕ → Filled
filled format n bytes = record {
  raw_input_data = bytes;
  packet_sample_format = format;
  frames_read = n / get_bytes_per_sample format;
}

-- The chunks that a body is cut into.
unfoldable pub cut : Format → ℕ → ℕ → List ℕ → List Filled
cut format capacity fuel [] = []
cut format capacity zero (x ∷ body) = []
cut format capacity (suc fuel) (x ∷ body) =
    let n = piece_size capacity (suc (length body)) in
    filled format n (take n (x ∷ body)) ∷ cut format capacity fuel (drop n (x ∷ body))

discarded :
    (fuel : ℕ) (body rest : List ℕ) (next : Stream)
    → length body ≤ fuel
    → run_stream (discard_body fuel (length body) next) (body ++ rest) ≡ run_stream next rest
unfolding discard_body discard_piece
discarded fuel [] rest next h = refl
discarded zero (x ∷ body) rest next h = absurd (omega arith)
discarded (suc fuel) (x ∷ body) rest next h =
    let n = piece_size 1024 (suc (length body)) in
    let (some_of_it, (_, inside)) = piece_size_lem 1024 (length body) (omega arith) in
    let piece = take n (x ∷ body) in
    let others = drop n (x ∷ body) in
    let size : length piece ≡ n = omega (arith, length-take n (x ∷ body), inside) in
    let left : suc (length body) - n ≡ length others = omega (arith, length-drop n (x ∷ body)) in
    let split : piece ++ (others ++ rest) ≡ x ∷ body ++ rest =
      sym (append_assoc piece others rest) ∙ ap (λ t. t ++ rest) (take-append-drop n (x ∷ body)) in
    ap (run_stream (discard_body (suc fuel) (suc (length body)) next)) (sym split)
    ∙ run_stream-read_ring n piece (others ++ rest)
        (discard_piece n (discard_body fuel (suc (length body) - n) next)) size
    ∙ rw size (
        rw (not_short n) (
          rw left (
            discarded fuel others rest next (omega (arith, length-drop n (x ∷ body), some_of_it)))))

delivered_one :
    (format : Format) (n : ℕ) (next : Stream) (piece rest : List ℕ)
    → length piece ≡ n
    → run_stream (deliver_piece format n next piece) rest
      ≡ Option.map (more_delivered (filled format n piece ∷ [])) (run_stream next rest)
unfolding deliver_piece run_stream undisturbed
delivered_one format n next piece rest e =
    rw e (rw (not_short n) (run_list-map_result _ (undisturbed next) true rest))

more_nothing : (o : Option ((List Filled × Bool) × List ℕ)) → o ≡ Option.map (more_delivered []) o
more_nothing none = refl
more_nothing (some t) = refl

more_both :
    (xs ys : List Filled) (o : Option ((List Filled × Bool) × List ℕ))
    → Option.map (more_delivered xs) (Option.map (more_delivered ys) o)
      ≡ Option.map (more_delivered (xs ++ ys)) o
more_both xs ys none = refl
more_both xs ys (some t) = ap (λ cs. some ((cs, t.0.1), t.1)) (sym (append_assoc xs ys t.0.0))

run_stream-get_chunk :
    (next : Bool → Stream) (bytes : List ℕ)
    → run_stream (get_chunk next) bytes ≡ run_stream (next true) bytes
unfolding run_stream undisturbed
run_stream-get_chunk next bytes = refl

delivered :
    (format : Format) (capacity fuel : ℕ) (body rest : List ℕ) (next : Stream)
    → 0 < capacity
    → length body ≤ fuel
    → run_stream (deliver_body format capacity fuel (length body) next) (body ++ rest)
      ≡ Option.map (more_delivered (cut format capacity fuel body)) (run_stream next rest)
unfolding deliver_body cut
delivered format capacity fuel [] rest next pos h = more_nothing (run_stream next rest)
delivered format capacity zero (x ∷ body) rest next pos h = absurd (omega arith)
delivered format capacity (suc fuel) (x ∷ body) rest next pos h =
    let n = piece_size capacity (suc (length body)) in
    let (some_of_it, (_, inside)) = piece_size_lem capacity (length body) pos in
    let piece = take n (x ∷ body) in
    let others = drop n (x ∷ body) in
    let size : length piece ≡ n = omega (arith, length-take n (x ∷ body), inside) in
    let left : suc (length body) - n ≡ length others = omega (arith, length-drop n (x ∷ body)) in
    let split : piece ++ (others ++ rest) ≡ x ∷ body ++ rest =
      sym (append_assoc piece others rest) ∙ ap (λ t. t ++ rest) (take-append-drop n (x ∷ body)) in
    let later = deliver_body format capacity fuel (suc (length body) - n) next in
    ap (run_stream (deliver_body format capacity (suc fuel) (suc (length body)) next)) (sym split)
    ∙ run_stream-get_chunk
        (λ given. if given then read_ring n (deliver_piece format n later) else finish)
        (piece ++ (others ++ rest))
    ∙ run_stream-read_ring n piece (others ++ rest) (deliver_piece format n later) size
    ∙ delivered_one format n later piece (others ++ rest) size
    ∙ ap (Option.map (more_delivered (filled format n piece ∷ []))) (
        ap (λ k. run_stream (deliver_body format capacity fuel k next) (others ++ rest)) left
        ∙ delivered format capacity fuel others rest next pos
            (omega (arith, length-drop n (x ∷ body), some_of_it)))
    ∙ more_both (filled format n piece ∷ []) (cut format capacity fuel others)
        (run_stream next rest)

-- The chunks of the messages that carry samples.
unfoldable pub sample_chunks : Format → ℕ → List Message → List Filled
sample_chunks format capacity [] = []
sample_chunks format capacity (m ∷ ms) =
    let rest = sample_chunks format capacity ms in
    if is_sample_message (header_of m)
    then cut format capacity (length m.body) m.body ++ rest
    else rest

pub one_message :
    (format : Format) (capacity : ℕ) (next : Stream) (header body rest : List ℕ)
    → 0 < capacity
    → length header ≡ message_header_size
    → body_size_of header ≡ length body
    → run_stream
        (read_ring message_header_size (take_message format capacity next))
        (header ++ (body ++ rest))
      ≡ Option.map
          (more_delivered
            (if is_sample_message header then cut format capacity (length body) body else []))
          (run_stream next rest)
unfolding take_message
one_message format capacity next header body rest pos e f =
    run_stream-read_ring message_header_size header (body ++ rest)
      (take_message format capacity next) e
    ∙ rw e (
        rw f (elim (Bool-cases (is_sample_message header)) [
          | inl s ↦ rw s (delivered format capacity (length body) body rest next pos (omega arith))
          | inr s ↦ rw s (
              discarded (length body) body rest next (omega arith)
              ∙ more_nothing (run_stream next rest))
        ]))

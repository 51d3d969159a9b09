-- ===== src/SpyServer/AnyOrder/AnyConsumer.antt =====
-- Whatever happens, the main loop delivers a front of the samples.
use iq_tool.Prelude.{
  ℕ, zero, suc, ◌-◌, ◌^◌, ◌≤◌, ◌<◌, ◌/◌, ◌≡◌, refl, ap, sym, subst, ◌∙◌, List, [], ◌∷◌, ◌++◌, true,
  arith, ltb, ◌==◌, if◌then◌else◌, length, take, drop, min, length-take, length-drop, length-append,
  take-append-drop, take-front, drop-front, append_assoc, inl, inr, Bool-cases, lt→ltb, le→leb,
}
use iq_tool.Formats.{Format, get_bytes_per_sample}
use iq_tool.SpyServer.{piece_size, message_header_size, body_size_of}
use iq_tool.SpyServer.Consumer.{
  Filled, Stream, read_ring, get_chunk, deliver, release, finish, unfinished, discard_piece,
  discard_body, deliver_piece, deliver_body, is_sample_message, take_message, stream_loop,
}
use iq_tool.SpyServer.Messages.{
  Message, header_of, encode, all_small, length-header_of, body_size_of-header_of, piece_size_lem,
}
use iq_tool.SpyServer.Consuming.{filled}
use iq_tool.SpyServer.EndToEnd.{data_of, sample_bytes, all_fit}
use iq_tool.SpyServer.AnyOrder.{Turn, delivered_after}
use iq_tool.SpyServer.AnyOrder.Fronts.{IsFront, nothing-IsFront, append-IsFront}
use iq_tool.SpyServer.AnyOrder.Ends.{
  Silent, finish-Silent, unfinished-Silent, release-Silent, discard_short, discard_full,
  deliver_short, deliver_full, short_header, nothing_to_read,
}

module _ (format : Format) (capacity : ℕ) (pos : 0 < capacity) where
  -- The chunks' bytes are a front of `expected`, and every chunk fits.
  pub record Good (cs : List Filled) (expected : List ℕ) : Type 0 where
    pub front : IsFront (data_of cs) expected
    pub fit : all_fit format capacity cs ≡ true

  nothing-Good : (expected : List ℕ) → Good [] expected
  unfolding data_of all_fit
  nothing-Good expected = record { front = nothing-IsFront expected; fit = refl }

  same : (a : ℕ) → (a == a) ≡ true
  same a = ground arith

  piece-Good :
      (n : ℕ) (piece : List ℕ) {cs : List Filled} {expected : List ℕ}
      → length piece ≡ n
      → 0 < n
      → n ≤ capacity
      → Good cs expected
      → Good (filled format n piece ∷ cs) (piece ++ expected)
  unfolding data_of all_fit
  piece-Good n piece e some_of_it bounded g = record {
    front = append-IsFront piece g.front;
    fit = rw e (
        rw (lt→ltb 0 n some_of_it)
          (rw (le→leb n capacity bounded) (rw (same (n / get_bytes_per_sample format)) g.fit)));
  }

  -- After any turns, where what has come to the ring is a front of `input`.
  abbrev Safe : Stream → List ℕ → List ℕ → Type 0
  Safe s input expected =
      (ts : List Turn) (bytes more : List ℕ)
      → bytes ++ more ≡ input
      → Good (delivered_after s ts bytes) expected

  Silent-Good :
      (s : Stream) (ts : List Turn) (bytes expected : List ℕ)
      → Silent s
      → Good (delivered_after s ts bytes) expected
  Silent-Good s ts bytes expected q = rw (q ts bytes) (nothing-Good expected)

  read_ring-Safe :
      (n : ℕ) (next : List ℕ → Stream) (piece rest expected : List ℕ)
      → length piece ≡ n
      → ((b : List ℕ) → length b < n → Silent (next b))
      → Safe (next piece) rest expected
      → Safe (read_ring n next) (piece ++ rest) expected
  unfolding delivered_after
  read_ring-Safe n next piece rest expected e s h [] bytes more w = nothing-Good expected
  read_ring-Safe n next piece rest expected e s h (t ∷ ts) bytes more w =
      let k = min t.count n in
      let b = take k bytes in
      elim (Bool-cases (ltb (length b) n)) [
        | inl short ↦ Silent-Good (next b) ts (drop k bytes) expected (s b (ground arith))
        | inr full ↦
            let size : length b ≡ n = ground (arith, length-take k bytes) in
            let split : b ++ (drop k bytes ++ more) ≡ piece ++ rest =
              sym (append_assoc b (drop k bytes) more)
              ∙ ap (λ t. t ++ more) (take-append-drop k bytes)
              ∙ w in
            let same_piece : b ≡ piece =
              sym (take-front n b (drop k bytes ++ more) size)
              ∙ ap (take n) split
              ∙ take-front n piece rest e in
            let same_rest : drop k bytes ++ more ≡ rest =
              sym (drop-front n b (drop k bytes ++ more) size)
              ∙ ap (drop n) split
              ∙ drop-front n piece rest e in
            rw same_piece (h ts (drop k bytes) more same_rest)
      ]

  discard_body-Safe :
      (fuel : ℕ) (body rest : List ℕ) (next : Stream) (expected : List ℕ)
      → Safe next rest expected
      → Safe (discard_body fuel (length body) next) (body ++ rest) expected
  unfolding discard_body
  discard_body-Safe fuel [] rest next expected h ts bytes more w = h ts bytes more w
  discard_body-Safe zero (x ∷ body) rest next expected h ts bytes more w =
      Silent-Good unfinished ts bytes expected unfinished-Silent
  discard_body-Safe (suc fuel) (x ∷ body) rest next expected h ts bytes more w =
      let n = piece_size 1024 (suc (length body)) in
      let (_, (_, inside)) = piece_size_lem 1024 (length body) (omega arith) in
      let piece = take n (x ∷ body) in
      let others = drop n (x ∷ body) in
      let size : length piece ≡ n = omega (arith, length-take n (x ∷ body), inside) in
      let left : suc (length body) - n ≡ length others = omega (arith, length-drop n (x ∷ body)) in
      let joined : piece ++ (others ++ rest) ≡ x ∷ body ++ rest =
        sym (append_assoc piece others rest)
        ∙ ap (λ t. t ++ rest) (take-append-drop n (x ∷ body)) in
      let later = discard_body fuel (suc (length body) - n) next in
      let others_gone : Safe later (others ++ rest) expected =
        rw left (discard_body-Safe fuel others rest next expected h) in
      read_ring-Safe n (discard_piece n later) piece (others ++ rest) expected size
        (discard_short n later) (rw (discard_full n later piece size) others_gone) ts bytes more
        (w ∙ sym joined)

  deliver-Safe :
      (n : ℕ) (later : Stream) (piece rest expected : List ℕ)
      → length piece ≡ n
      → 0 < n
      → n ≤ capacity
      → Safe later rest expected
      → Safe
          (deliver (filled format n piece) (λ accepted. if accepted then later else release finish))
          rest
          (piece ++ expected)
  unfolding delivered_after
  deliver-Safe n later piece rest expected e some_of_it bounded h [] bytes more w =
      nothing-Good (piece ++ expected)
  deliver-Safe n later piece rest expected e some_of_it bounded h (t ∷ ts) bytes more w =
      elim (Bool-cases t.positive) [
        | inl b ↦ rw b (piece-Good n piece e some_of_it bounded (h ts bytes more w))
        | inr b ↦ rw b (Silent-Good (release finish) ts bytes (piece ++ expected) release-Silent)
      ]

  get_chunk-Safe :
      (s : Stream) (input expected : List ℕ)
      → Safe s input expected
      → Safe (get_chunk (λ given. if given then s else finish)) input expected
  unfolding delivered_after
  get_chunk-Safe s input expected h [] bytes more w = nothing-Good expected
  get_chunk-Safe s input expected h (t ∷ ts) bytes more w = elim (Bool-cases t.positive) [
    | inl b ↦ rw b (h ts bytes more w)
    | inr b ↦ rw b (Silent-Good finish ts bytes expected finish-Silent)
  ]

  deliver_body-Safe :
      (fuel : ℕ) (body rest : List ℕ) (next : Stream) (expected : List ℕ)
      → Safe next rest expected
      → Safe
          (deliver_body format capacity fuel (length body) next)
          (body ++ rest)
          (body ++ expected)
  unfolding deliver_body
  deliver_body-Safe fuel [] rest next expected h ts bytes more w = h ts bytes more w
  deliver_body-Safe zero (x ∷ body) rest next expected h ts bytes more w =
      Silent-Good unfinished ts bytes (x ∷ body ++ expected) unfinished-Silent
  deliver_body-Safe (suc fuel) (x ∷ body) rest next expected h ts bytes more w =
      let n = piece_size capacity (suc (length body)) in
      let (some_of_it, (bounded, inside)) = piece_size_lem capacity (length body) pos in
      let piece = take n (x ∷ body) in
      let others = drop n (x ∷ body) in
      let size : length piece ≡ n = omega (arith, length-take n (x ∷ body), inside) in
      let left : suc (length body) - n ≡ length others = omega (arith, length-drop n (x ∷ body)) in
      let joined = λ (end : List ℕ).
        sym (append_assoc piece others end) ∙ ap (λ t. t ++ end) (take-append-drop n (x ∷ body)) in
      let later = deliver_body format capacity fuel (suc (length body) - n) next in
      let others_given : Safe later (others ++ rest) (others ++ expected) =
        rw left (deliver_body-Safe fuel others rest next expected h) in
      let piece_given : Safe (deliver_piece format n later piece) (others ++ rest)
          (piece ++ (others ++ expected)) =
        rw (deliver_full format n later piece size) (
          deliver-Safe n later piece (others ++ rest) (others ++ expected) size some_of_it bounded
            others_given) in
      let reading = read_ring n (deliver_piece format n later) in
      subst
        (λ k.
          Good (delivered_after (get_chunk (λ given. if given then reading else finish)) ts bytes)
            k)
        (joined expected)
        (get_chunk-Safe reading (piece ++ (others ++ rest)) (piece ++ (others ++ expected))
          (read_ring-Safe n (deliver_piece format n later) piece (others ++ rest)
            (piece ++ (others ++ expected)) size (deliver_short format n later) piece_given)
          ts bytes more (w ∙ sym (joined rest)))

  message-Safe :
      (next : Stream) (header body rest expected : List ℕ)
      → length header ≡ message_header_size
      → body_size_of header ≡ length body
      → Safe next rest expected
      → Safe
          (read_ring message_header_size (take_message format capacity next))
          (header ++ (body ++ rest))
          (if is_sample_message header then body ++ expected else expected)
  unfolding take_message
  message-Safe next header body rest expected e f h =
      read_ring-Safe message_header_size (take_message format capacity next) header (body ++ rest) _
        e (short_header format capacity next)
        (rw e (
          rw f (elim (Bool-cases (is_sample_message header)) [
            | inl b ↦ rw b (deliver_body-Safe (length body) body rest next expected h)
            | inr b ↦ rw b (discard_body-Safe (length body) body rest next expected h)
          ])))

  -- Whatever the calls answer, and at any moment, where what has come to the ring is a front of these
  -- messages, the main loop has delivered a front of their samples, in chunks that fit.
  pub stream_loop-Safe :
      (fuel : ℕ) (ms : List Message)
      → all_small ms ≡ true
      → Safe (stream_loop format capacity fuel) (encode ms) (sample_bytes ms)
  unfolding stream_loop delivered_after all_small encode sample_bytes
  stream_loop-Safe zero ms small ts bytes more w =
      Silent-Good unfinished ts bytes (sample_bytes ms) unfinished-Silent
  stream_loop-Safe (suc fuel) ms small [] bytes more w = nothing-Good (sample_bytes ms)
  stream_loop-Safe (suc fuel) [] small (t ∷ ts) bytes more w =
      let empty : length bytes ≡ 0 = omega (arith, length-append bytes more, ap length w) in
      elim (Bool-cases t.positive) [
        | inl b ↦ rw b (Silent-Good finish ts bytes [] finish-Silent)
        | inr b ↦ rw b (idle ts empty)
      ]
    where
      idle :
          (ts : List Turn)
          → length bytes ≡ 0
          → Good
              (delivered_after
                (read_ring message_header_size
                  (take_message format capacity (stream_loop format capacity fuel)))
                ts
                bytes)
              []
      idle [] e = nothing-Good []
      idle (t ∷ ts) e =
          let k = min t.count message_header_size in
          Silent-Good
            (take_message format capacity (stream_loop format capacity fuel) (take k bytes)) ts
            (drop k bytes) []
            (short_header format capacity (stream_loop format capacity fuel) (take k bytes)
              (nothing_to_read message_header_size k bytes e (omega arith)))
  stream_loop-Safe (suc fuel) (m ∷ ms) small (t ∷ ts) bytes more w =
      let fits : length m.body < 2 ^ 32 = ground arith in
      let others : all_small ms ≡ true = ground arith in
      elim (Bool-cases t.positive) [
        | inl b ↦ rw b (Silent-Good finish ts bytes _ finish-Silent)
        | inr b ↦ rw b (
            message-Safe (stream_loop format capacity fuel) (header_of m) m.body (encode ms)
              (sample_bytes ms) (length-header_of m) (body_size_of-header_of m fits)
              (stream_loop-Safe fuel ms others) ts bytes more w)
      ]

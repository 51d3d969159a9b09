-- ===== src/SpyServer/AnyOrder/AnyProducer.antt =====
-- Whatever happens, the ring gets a front of the messages that have a body.
use iq_tool.Prelude.{
  nil_of_length, ℕ, zero, suc, ◌-◌, ◌^◌, ◌<◌, ◌≡◌, refl, ap, sym, subst, ◌∙◌, List, [], ◌∷◌, ◌++◌,
  Bool, true, false, Option, none, some, ◌&&◌, arith, leb, ltb, ◌==◌, if◌then◌else◌, length, take,
  drop, min, length-take, length-drop, take-append-drop, take-front, drop-front, append_assoc, inl,
  inr, Bool-cases, ==→eq, take_all,
}
use iq_tool.SpyServer.{piece_size, message_header_size, body_size_of, Calls, result, recv, write}
use iq_tool.SpyServer.Producer.{
  Ended, ended, unfinished, connection_lost, network_read_size, copy_piece, copy_body, copy_message,
  producer_thread,
}
use iq_tool.SpyServer.Messages.{
  Message, header_of, encode, all_small, with_body, length-header_of, body_size_of-header_of,
  piece_size_lem,
}
use iq_tool.SpyServer.AnyOrder.Fronts.{IsFront, nothing-IsFront, append-IsFront, take-IsFront}
use iq_tool.SpyServer.AnyOrder.{Turn, put_after}

-- After any turns, what has been put is a front of `expected`.
abbrev Safe : Calls Ended → List ℕ → List ℕ → Type 0
Safe c input expected = (ts : List Turn) → IsFront (put_after c ts input) expected

-- Nothing more is put.
abbrev Silent : Calls Ended → Type 0
Silent c = (ts : List Turn) (input : List ℕ) → put_after c ts input ≡ []

result-Silent : (a : Ended) → Silent (result a)
unfolding put_after
result-Silent a [] input = refl
result-Silent a (t ∷ ts) input = refl

connection_lost-Silent : Silent connection_lost
unfolding put_after connection_lost
connection_lost-Silent [] input = refl
connection_lost-Silent (t ∷ ts) input = lost t.positive ts
  where
    lost :
        (b : Bool) (ts : List Turn)
        → put_after (if b then result ended else Calls.fatal (result ended)) ts input ≡ []
    lost true [] = refl
    lost true (t ∷ ts) = refl
    lost false [] = refl
    lost false (t ∷ []) = refl
    lost false (t ∷ (u ∷ ts)) = refl

Silent-Safe : (c : Calls Ended) (input expected : List ℕ) → Silent c → Safe c input expected
Silent-Safe c input expected s ts = rw (s ts input) (nothing-IsFront expected)

recv-Safe :
    (n : ℕ) (next : Option (List ℕ) → Calls Ended) (piece rest expected : List ℕ)
    → length piece ≡ n
    → Silent (next none)
    → Safe (next (some piece)) rest expected
    → Safe (recv n next) (piece ++ rest) expected
unfolding put_after
recv-Safe n next piece rest expected e s h [] = nothing-IsFront expected
recv-Safe n next piece rest expected e s h (t ∷ ts) =
    elim (Bool-cases (t.positive && leb n (length (piece ++ rest)))) [
      | inl b ↦ rw b (rw (take-front n piece rest e) (rw (drop-front n piece rest e) (h ts)))
      | inr b ↦ rw b (Silent-Safe (next none) (drop t.count (piece ++ rest)) expected s ts)
    ]

write-Safe :
    (bytes : List ℕ) (next : ℕ → Calls Ended) (input expected : List ℕ)
    → ((k : ℕ) → k < length bytes → Silent (next k))
    → Safe (next (length bytes)) input expected
    → Safe (write bytes next) input (bytes ++ expected)
unfolding put_after
write-Safe bytes next input expected s h [] = nothing-IsFront (bytes ++ expected)
write-Safe bytes next input expected s h (t ∷ ts) =
    let k = min t.count (length bytes) in
    elim (Bool-cases (ltb k (length bytes))) [
      | inl b ↦ rw (s k (ground arith) ts input) (take-IsFront k bytes expected)
      | inr b ↦
          let all : k ≡ length bytes = ground arith in
          rw all (rw (take_all (length bytes) bytes (omega arith)) (append-IsFront bytes (h ts)))
    ]

short_write :
    (n k : ℕ) (next : Calls Ended) → k < n → Silent (if ltb k n then result ended else next)
short_write n k next h = let e : ltb k n ≡ true = ground arith in rw e (result-Silent ended)

not_short : (n : ℕ) → ltb n n ≡ false
not_short n = ground arith

copy_body-Safe :
    (fuel : ℕ) (body rest : List ℕ) (next : Calls Ended) (expected : List ℕ)
    → Safe next rest expected
    → Safe (copy_body fuel (length body) next) (body ++ rest) (body ++ expected)
unfolding copy_body copy_piece
copy_body-Safe fuel [] rest next expected h ts = h ts
copy_body-Safe zero (x ∷ body) rest next expected h ts =
    Silent-Safe (result unfinished) ((x ∷ body) ++ rest) ((x ∷ body) ++ expected)
      (result-Silent unfinished) ts
copy_body-Safe (suc fuel) (x ∷ body) rest next expected h ts =
    let n = piece_size network_read_size (suc (length body)) in
    let (_, (_, inside)) = piece_size_lem network_read_size (length body) (omega arith) in
    let piece = take n (x ∷ body) in
    let others = drop n (x ∷ body) in
    let size : length piece ≡ n = omega (arith, length-take n (x ∷ body), inside) in
    let left : suc (length body) - n ≡ length others = omega (arith, length-drop n (x ∷ body)) in
    let joined = λ (end : List ℕ).
      sym (append_assoc piece others end) ∙ ap (λ t. t ++ end) (take-append-drop n (x ∷ body)) in
    let later = copy_body fuel (suc (length body) - n) next in
    let others_copied : Safe later (others ++ rest) (others ++ expected) =
      rw left (copy_body-Safe fuel others rest next expected h) in
    let written : Safe (copy_piece n later (some piece)) (others ++ rest)
        (piece ++ (others ++ expected)) =
      write-Safe piece (λ w. if ltb w n then result ended else later) (others ++ rest)
        (others ++ expected) (λ k small. short_write n k later (omega (arith, size, small)))
        (rw size (rw (not_short n) others_copied)) in
    rw (sym (joined rest)) (
      rw (sym (joined expected)) (
        recv-Safe n (copy_piece n later) piece (others ++ rest) (piece ++ (others ++ expected)) size
          connection_lost-Silent written ts))

-- One message: with a body, and without.
message-Safe :
    (next : Calls Ended) (header body rest expected : List ℕ)
    → length header ≡ message_header_size
    → body_size_of header ≡ length body
    → (length body == 0) ≡ false
    → Safe next rest expected
    → Safe
        (recv message_header_size (copy_message next))
        (header ++ (body ++ rest))
        (header ++ (body ++ expected))
unfolding copy_message
message-Safe next header body rest expected e f some_body h =
    let n = message_header_size in
    let later = copy_body (length body) (length body) next in
    recv-Safe n (copy_message next) header (body ++ rest) (header ++ (body ++ expected)) e
      connection_lost-Silent
      (rw f (
        rw some_body (
          write-Safe header (λ w. if ltb w n then result ended else later) (body ++ rest)
            (body ++ expected) (λ k small. short_write n k later (omega (arith, e, small)))
            (rw e (copy_body-Safe (length body) body rest next expected h)))))

empty_message-Safe :
    (next : Calls Ended) (header rest expected : List ℕ)
    → length header ≡ message_header_size
    → body_size_of header ≡ 0
    → Safe next rest expected
    → Safe (recv message_header_size (copy_message next)) (header ++ rest) expected
unfolding copy_message
empty_message-Safe next header rest expected e f h =
    recv-Safe message_header_size (copy_message next) header rest expected e connection_lost-Silent
      (rw f h)

-- Whatever the calls answer, and at any moment, what the thread has put into the ring is a front of
-- the messages that have a body.
pub producer_thread-IsFront :
    (fuel : ℕ) (ms : List Message) (ts : List Turn)
    → all_small ms ≡ true
    → IsFront (put_after (producer_thread fuel) ts (encode ms)) (encode (with_body ms))
unfolding producer_thread put_after all_small encode with_body copy_message
producer_thread-IsFront zero ms [] small = nothing-IsFront (encode (with_body ms))
producer_thread-IsFront zero ms (t ∷ ts) small = nothing-IsFront (encode (with_body ms))
producer_thread-IsFront (suc fuel) ms [] small = nothing-IsFront (encode (with_body ms))
producer_thread-IsFront (suc fuel) [] (t ∷ ts) small = elim (Bool-cases t.positive) [
  | inl b ↦ rw b (rw (result-Silent ended ts []) (nothing-IsFront []))
  | inr b ↦ rw b (idle fuel ts)
]
  where
    idle :
        (fuel : ℕ) (ts : List Turn)
        → IsFront
            (put_after (recv message_header_size (copy_message (producer_thread fuel))) ts [])
            []
    idle fuel [] = nothing-IsFront []
    idle fuel (t ∷ ts) = elim (Bool-cases t.positive) [
      | inl b ↦ rw b (rw (connection_lost-Silent ts (drop t.count [])) (nothing-IsFront []))
      | inr b ↦ rw b (rw (connection_lost-Silent ts (drop t.count [])) (nothing-IsFront []))
    ]
producer_thread-IsFront (suc fuel) (m ∷ ms) (t ∷ ts) small =
    let fits : length m.body < 2 ^ 32 = ground arith in
    let others : all_small ms ≡ true = ground arith in
    let next = producer_thread fuel in
    let later : Safe next (encode ms) (encode (with_body ms)) =
      λ us. producer_thread-IsFront fuel ms us others in
    elim (Bool-cases t.positive) [
      | inl b ↦ rw b (Silent-Safe (result ended) _ _ (result-Silent ended) ts)
      | inr b ↦ rw b (elim (Bool-cases (length m.body == 0)) [
        | inl e ↦
            let none_there : m.body ≡ [] = nil_of_length m.body (==→eq (length m.body) 0 e) in
            rw e (
              ap_there none_there (
                empty_message-Safe next (header_of m) (encode ms) (encode (with_body ms))
                  (length-header_of m) (body_size_of-header_of m fits ∙ ==→eq (length m.body) 0 e)
                  later ts))
        | inr e ↦ rw e (
            message-Safe next (header_of m) m.body (encode ms) (encode (with_body ms))
              (length-header_of m) (body_size_of-header_of m fits) e later ts)
      ])
    ]
  where
    ap_there :
        m.body ≡ []
        → IsFront
            (put_after
              (recv message_header_size (copy_message (producer_thread fuel)))
              ts
              (header_of m ++ encode ms))
            (encode (with_body ms))
        → IsFront
            (put_after
              (recv message_header_size (copy_message (producer_thread fuel)))
              ts
              (header_of m ++ (m.body ++ encode ms)))
            (encode (with_body ms))
    ap_there e =
        subst
          (λ b.
            IsFront
              (put_after (recv message_header_size (copy_message (producer_thread fuel))) ts
                (header_of m ++ (b ++ encode ms)))
              (encode (with_body ms)))
          (sym e)

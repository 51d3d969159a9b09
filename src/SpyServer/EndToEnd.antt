-- ===== src/SpyServer/EndToEnd.antt =====
-- From the server's messages to the chunks of the pipeline.
use mathlib.Core.Option
use iq_tool.Prelude.{
  nil_of_length, ℕ, zero, suc, ◌/◌, ◌^◌, ◌≤◌, ◌<◌, ◌≡◌, refl, ap, ap₂, lt→ltb, sym, ◌∙◌, inr, List,
  [], ◌∷◌, ◌++◌, Bool, true, false, ◌&&◌, some, arith, leb, ltb, ◌==◌, if◌then◌else◌, length, take,
  drop, length-take, length-drop, take-append-drop, take_all, append_assoc,
}
use iq_tool.Formats.{Format, get_bytes_per_sample}
use iq_tool.SdrPacket.Runs.{run_list, run_list_answer}
use iq_tool.SpyServer.{piece_size, message_header_size}
use iq_tool.SpyServer.Consumer.{
  Filled, Stream, read_ring, take_message, is_sample_message, stream_loop, undisturbed,
}
use iq_tool.SpyServer.Messages.{
  Message, header_of, encode, all_small, length-header_of, body_size_of-header_of, piece_size_lem,
}
use iq_tool.SpyServer.Consuming.{run_stream, more_delivered, cut, sample_chunks, one_message}

-- The stream ends within a header.
short_header :
    (format : Format) (capacity : ℕ) (next : Stream) (torn : List ℕ)
    → length torn < message_header_size
    → run_stream (read_ring message_header_size (take_message format capacity next)) torn
      ≡ some (([], true), [])
unfolding run_stream undisturbed take_message run_list
short_header format capacity next torn short =
    run_list_answer message_header_size (λ b. undisturbed (take_message format capacity next b))
      true torn (inr (inr refl))
    ∙ ap₂ (λ b r. run_list (undisturbed (take_message format capacity next b)) true r)
        (take_all message_header_size torn (omega arith))
        (nil_of_length (drop message_header_size torn)
          (omega (arith, length-drop message_header_size torn)))
    ∙ rw (lt→ltb (length torn) message_header_size short) refl

abbrev chunks_of_body : Format → ℕ → Message → List Filled
chunks_of_body format capacity m =
    if is_sample_message (header_of m) then cut format capacity (length m.body) m.body else []

if_then_more :
    {A : Type 0} (b : Bool) (xs rest : List A)
    → (if b then xs else []) ++ rest ≡ (if b then xs ++ rest else rest)
if_then_more true xs rest = refl
if_then_more false xs rest = refl

pub stream_loop_messages :
    (format : Format) (capacity fuel : ℕ) (ms : List Message) (torn : List ℕ)
    → 0 < capacity
    → all_small ms ≡ true
    → length ms < fuel
    → length torn < message_header_size
    → run_stream (stream_loop format capacity fuel) (encode ms ++ torn)
      ≡ some ((sample_chunks format capacity ms, true), [])
unfolding run_stream stream_loop undisturbed encode all_small sample_chunks
stream_loop_messages format capacity zero ms torn pos small h short = absurd (omega arith)
stream_loop_messages format capacity (suc fuel) [] torn pos small h short =
    short_header format capacity (stream_loop format capacity fuel) torn short
stream_loop_messages format capacity (suc fuel) (m ∷ ms) torn pos small h short =
    let fits : length m.body < 2 ^ 32 = ground arith in
    let others : all_small ms ≡ true = ground arith in
    let next = stream_loop format capacity fuel in
    ap (run_stream (read_ring message_header_size (take_message format capacity next))) split
    ∙ one_message format capacity next (header_of m) m.body (encode ms ++ torn) pos
        (length-header_of m) (body_size_of-header_of m fits)
    ∙ ap (Option.map (more_delivered (chunks_of_body format capacity m)))
        (stream_loop_messages format capacity fuel ms torn pos others (omega arith) short)
    ∙ ap (λ cs. some ((cs, true), []))
        (if_then_more (is_sample_message (header_of m)) (cut format capacity (length m.body) m.body)
          (sample_chunks format capacity ms))
  where
    split :
        (header_of m ++ (m.body ++ encode ms)) ++ torn
        ≡ header_of m ++ (m.body ++ (encode ms ++ torn))
    split =
        append_assoc (header_of m) (m.body ++ encode ms) torn
        ∙ ap (λ t. header_of m ++ t) (append_assoc m.body (encode ms) torn)

-- The bytes of the chunks, and the bodies of the messages that carry samples.
unfoldable pub data_of : List Filled → List ℕ
data_of [] = []
data_of (c ∷ cs) = c.raw_input_data ++ data_of cs

unfoldable pub sample_bytes : List Message → List ℕ
sample_bytes [] = []
sample_bytes (m ∷ ms) =
    let rest = sample_bytes ms in if is_sample_message (header_of m) then m.body ++ rest else rest

data_of-append : (xs ys : List Filled) → data_of (xs ++ ys) ≡ data_of xs ++ data_of ys
unfolding data_of
data_of-append [] ys = refl
data_of-append (c ∷ xs) ys =
    ap (λ t. c.raw_input_data ++ t) (data_of-append xs ys)
    ∙ sym (append_assoc c.raw_input_data (data_of xs) (data_of ys))

data_of-cut :
    (format : Format) (capacity fuel : ℕ) (body : List ℕ)
    → 0 < capacity
    → length body ≤ fuel
    → data_of (cut format capacity fuel body) ≡ body
unfolding data_of cut
data_of-cut format capacity fuel [] pos h = refl
data_of-cut format capacity zero (x ∷ body) pos h = absurd (omega arith)
data_of-cut format capacity (suc fuel) (x ∷ body) pos h =
    let n = piece_size capacity (suc (length body)) in
    let (some_of_it, (_, inside)) = piece_size_lem capacity (length body) pos in
    ap (λ t. take n (x ∷ body) ++ t)
      (data_of-cut format capacity fuel (drop n (x ∷ body)) pos
        (omega (arith, length-drop n (x ∷ body), some_of_it)))
    ∙ take-append-drop n (x ∷ body)

pub data_of-sample_chunks :
    (format : Format) (capacity : ℕ) (ms : List Message)
    → 0 < capacity
    → data_of (sample_chunks format capacity ms) ≡ sample_bytes ms
unfolding data_of sample_chunks sample_bytes
data_of-sample_chunks format capacity [] pos = refl
data_of-sample_chunks format capacity (m ∷ ms) pos =
    pick (is_sample_message (header_of m)) (cut format capacity (length m.body) m.body) m.body
      (sample_chunks format capacity ms) (sample_bytes ms)
      (data_of-cut format capacity (length m.body) m.body pos (omega arith))
      (data_of-sample_chunks format capacity ms pos)
  where
    pick :
        (b : Bool) (xs : List Filled) (body : List ℕ) (rest : List Filled) (others : List ℕ)
        → data_of xs ≡ body
        → data_of rest ≡ others
        → data_of (if b then xs ++ rest else rest) ≡ (if b then body ++ others else others)
    pick true xs body rest others e f = data_of-append xs rest ∙ ap₂ (λ a b. a ++ b) e f
    pick false xs body rest others e f = f

-- Every chunk has at least one byte, fits into the buffer, and counts its frames.
unfoldable pub all_fit : Format → ℕ → List Filled → Bool
all_fit format capacity [] = true
all_fit format capacity (c ∷ cs) =
    let n = length c.raw_input_data in
    ltb 0 n
    && (leb n capacity
        && (c.frames_read == n / get_bytes_per_sample format && all_fit format capacity cs))

all_fit-append :
    (format : Format) (capacity : ℕ) (xs ys : List Filled)
    → all_fit format capacity xs ≡ true
    → all_fit format capacity ys ≡ true
    → all_fit format capacity (xs ++ ys) ≡ true
unfolding all_fit
all_fit-append format capacity [] ys h k = k
all_fit-append format capacity (c ∷ xs) ys h k =
    let rest : all_fit format capacity xs ≡ true = ground arith in
    let e = all_fit-append format capacity xs ys rest k in ground arith

within : (a b : ℕ) → a ≤ b → leb a b ≡ true
within a b h = ground arith

same : (a : ℕ) → (a == a) ≡ true
same a = ground arith

all_fit-cut :
    (format : Format) (capacity fuel : ℕ) (body : List ℕ)
    → 0 < capacity
    → all_fit format capacity (cut format capacity fuel body) ≡ true
unfolding all_fit cut
all_fit-cut format capacity fuel [] pos = refl
all_fit-cut format capacity zero (x ∷ body) pos = refl
all_fit-cut format capacity (suc fuel) (x ∷ body) pos =
    let n = piece_size capacity (suc (length body)) in
    let (some_of_it, (bounded, inside)) = piece_size_lem capacity (length body) pos in
    let size : length (take n (x ∷ body)) ≡ n = omega (arith, length-take n (x ∷ body), inside) in
    rw size (
      rw (lt→ltb 0 n some_of_it) (
        rw (within n capacity bounded) (
          rw (same (n / get_bytes_per_sample format))
            (all_fit-cut format capacity fuel (drop n (x ∷ body)) pos))))

pub all_fit-sample_chunks :
    (format : Format) (capacity : ℕ) (ms : List Message)
    → 0 < capacity
    → all_fit format capacity (sample_chunks format capacity ms) ≡ true
unfolding sample_chunks all_fit
all_fit-sample_chunks format capacity [] pos = refl
all_fit-sample_chunks format capacity (m ∷ ms) pos =
    pick (is_sample_message (header_of m)) (cut format capacity (length m.body) m.body)
      (sample_chunks format capacity ms) (all_fit-cut format capacity (length m.body) m.body pos)
      (all_fit-sample_chunks format capacity ms pos)
  where
    pick :
        (b : Bool) (xs rest : List Filled)
        → all_fit format capacity xs ≡ true
        → all_fit format capacity rest ≡ true
        → all_fit format capacity (if b then xs ++ rest else rest) ≡ true
    pick true xs rest h k = all_fit-append format capacity xs rest h k
    pick false xs rest h k = k

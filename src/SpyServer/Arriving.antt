-- ===== src/SpyServer/Arriving.antt =====
-- Both threads of the client, from the socket to the chunks of the pipeline, where the main loop has
-- caught up and waits for a header when the connection is lost.
use iq_tool.Prelude.{
  nil_of_length, ℕ, ◌≤◌, ◌<◌, ◌≡◌, refl, ap, sym, ◌∙◌, inl, inr, List, [], ◌∷◌, ◌++◌, Bool, true,
  false, some, arith, ltb, ◌==◌, ◌^◌, if◌then◌else◌, length, append-nil, Bool-cases, ==→eq,
}
use iq_tool.Formats.{Format}
use iq_tool.SpyServer.{message_header_size}
use iq_tool.SpyServer.Producer.{producer_thread}
use iq_tool.SpyServer.Consumer.{Filled, is_sample_message, stream_loop}
use iq_tool.SpyServer.Messages.{Message, header_of, encode, all_small, with_body}
use iq_tool.SpyServer.Running.{run_calls}
use iq_tool.SpyServer.Producing.{producer_thread_lem}
use iq_tool.SpyServer.Consuming.{run_stream, sample_chunks}
use iq_tool.SpyServer.EndToEnd.{
  data_of, sample_bytes, all_fit, stream_loop_messages, data_of-sample_chunks,
  all_fit-sample_chunks,
}

pub all_small-with_body :
    (ms : List Message) → all_small ms ≡ true → all_small (with_body ms) ≡ true
unfolding all_small with_body
all_small-with_body [] h = refl
all_small-with_body (m ∷ ms) h =
    let small : ltb (length m.body) (2 ^ 32) ≡ true = ground arith in
    let others : all_small ms ≡ true = ground arith in
    elim (Bool-cases (length m.body == 0)) [
      | inl e ↦ rw e (all_small-with_body ms others)
      | inr e ↦ rw e (rw small (all_small-with_body ms others))
    ]

length-with_body : (ms : List Message) → length (with_body ms) ≤ length ms
unfolding with_body
length-with_body [] = omega arith
length-with_body (m ∷ ms) =
    let e = length-with_body ms in
    elim (Bool-cases (length m.body == 0)) [
      | inl h ↦ rw h (omega arith)
      | inr h ↦ rw h (omega arith)
    ]

nothing_more :
    (b : Bool) (body rest : List ℕ) → body ≡ [] → rest ≡ (if b then body ++ rest else rest)
nothing_more true body rest e = ap (λ t. t ++ rest) (sym e)
nothing_more false body rest e = refl

pub sample_bytes-with_body : (ms : List Message) → sample_bytes (with_body ms) ≡ sample_bytes ms
unfolding sample_bytes with_body
sample_bytes-with_body [] = refl
sample_bytes-with_body (m ∷ ms) = elim (Bool-cases (length m.body == 0)) [
  | inl e ↦ rw e (
      sample_bytes-with_body ms
      ∙ nothing_more (is_sample_message (header_of m)) m.body (sample_bytes ms)
          (nil_of_length m.body (==→eq (length m.body) 0 e)))
  | inr e ↦ rw e (
      ap (λ rest. if is_sample_message (header_of m) then m.body ++ rest else rest)
        (sample_bytes-with_body ms))
]

-- Where all goes well, the main loop delivers chunks whose bytes are the bodies of the messages that
-- carry samples.
pub undisturbed_lem :
    (format : Format) (capacity fuel_in fuel_out : ℕ) (ms : List Message) (torn : List ℕ)
    → 0 < capacity
    → all_small ms ≡ true
    → length ms < fuel_in
    → length ms < fuel_out
    → length torn < message_header_size
    → (cs : List Filled) × (run_stream
          (stream_loop format capacity fuel_out)
          ((run_calls (producer_thread fuel_in) (encode ms ++ torn)).written)
        ≡ some ((cs, true), []))
      × ((data_of cs ≡ sample_bytes ms) × (all_fit format capacity cs ≡ true))
undisturbed_lem format capacity fuel_in fuel_out ms torn pos small h k short =
    let kept = with_body ms in
    let fewer = length-with_body ms in
    (
      sample_chunks format capacity kept,
      ap (λ o. run_stream (stream_loop format capacity fuel_out) (o.written))
            (producer_thread_lem fuel_in ms torn small h short)
          ∙ ap (run_stream (stream_loop format capacity fuel_out)) (sym (append-nil (encode kept)))
          ∙ stream_loop_messages format capacity fuel_out kept [] pos (all_small-with_body ms small)
              (omega arith) (omega arith),
      (
        data_of-sample_chunks format capacity kept pos ∙ sample_bytes-with_body ms,
        all_fit-sample_chunks format capacity kept pos,
      ),
    )

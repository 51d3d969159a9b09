-- ===== src/SpyServer/Tests.antt =====
-- Runs of the SpyServer client, and its theorems at them.
use iq_tool.Prelude.{
  ℕ, ◌+◌, ◌-◌, ◌≤◌, ◌<◌, ◌≡◌, refl, List, [], ◌∷◌, ◌++◌, true, false, some, arith, ltb, replicate,
}
use iq_tool.Formats.{cs16}
use iq_tool.Networking.{
  Connecting, networking_initialize_module, networking_connect, networking_cleanup_module,
}
use iq_tool.SpyServer.{msg_device_info, msg_client_sync}
use iq_tool.SpyServer.Handshake.{handshake}
use iq_tool.SpyServer.Greeting.{hello_bytes, handshake_lem}
use iq_tool.SpyServer.Rates.{
  rate_of, supported_rates, closest_rate, negotiate_rate, negotiate_rate_lem, wanted_rate,
}
use iq_tool.SpyServer.Configure.{Wanted}
use iq_tool.SpyServer.Session.{initialized, open_network, close_network, session_lem}
use iq_tool.SpyServer.Producer.{producer_thread}
use iq_tool.SpyServer.Consumer.{stream_loop}
use iq_tool.SpyServer.Messages.{Message, encode, all_small}
use iq_tool.SpyServer.Running.{run_calls}
use iq_tool.SpyServer.EndToEnd.{data_of, sample_bytes, all_fit}
use iq_tool.SpyServer.AnyOrder.{Turn, put_after, delivered_after}
use iq_tool.SpyServer.AnyOrder.Fronts.{IsFront}
use iq_tool.SpyServer.AnyOrder.Undisturbed.{turn}
use iq_tool.SpyServer.Samples.{samples_in_order}
use iq_tool.SpyServer.Producer.{copy_message, copy_body, copy_piece}
use iq_tool.SpyServer.Consumer.{take_message, deliver_body, deliver_piece, is_sample_message}
use iq_tool.SpyServer.{piece_size}

-- A message without a body, one of samples, and one that is not.
abbrev message : ℕ → List ℕ → Message
message kind body = record {
  protocol_id = 33556132;
  message_type = kind;
  stream_type = 1;
  sequence_number = 0;
  body = body;
}

abbrev stream : List Message
stream = message 101 [] ∷ message 101 (1 ∷ 2 ∷ 3 ∷ 4 ∷ 5 ∷ 6 ∷ []) ∷ message 2 (9 ∷ []) ∷ []

all_small-stream : all_small stream ≡ true
unfolding all_small
all_small-stream = refl

-- The connection is lost within the second message: one of its four bytes is missing in the ring. A
-- chunk of this buffer holds one frame.
abbrev put_turns : List Turn
put_turns =
    turn false 0
    ∷ turn true 0
    ∷ turn false 0
    ∷ turn true 0
    ∷ turn true 20
    ∷ turn true 0
    ∷ turn true 5
    ∷ []

abbrev get_turns : List Turn
get_turns =
    turn false 0
    ∷ turn true 20
    ∷ turn true 0
    ∷ turn true 4
    ∷ turn true 0
    ∷ turn true 0
    ∷ turn true 2
    ∷ []

one_chunk :
    data_of (
      delivered_after
        (stream_loop cs16 4 4)
        get_turns
        (put_after (producer_thread 4) put_turns (encode stream)))
    ≡ 1 ∷ 2 ∷ 3 ∷ 4 ∷ []
unfolding put_after delivered_after producer_thread stream_loop copy_message copy_body copy_piece
    take_message deliver_body deliver_piece is_sample_message piece_size encode data_of
one_chunk = refl

samples_in_order_example :
    let chunks =
      delivered_after
        (stream_loop cs16 4 4)
        get_turns
        (put_after (producer_thread 4) put_turns (encode stream)) in
    IsFront (data_of chunks) (sample_bytes stream) × (all_fit cs16 4 chunks ≡ true)
samples_in_order_example =
    samples_in_order cs16 4 4 4 stream put_turns get_turns (omega arith) all_small-stream

abbrev device : List ℕ
device = replicate 48 2

-- Two bytes follow the sync message.
abbrev sync : List ℕ
sync = 1 ∷ replicate 37 0

handshake_lem_example :
    run_calls
      (handshake (105 ∷ 113 ∷ []))
      (encode (message msg_device_info device ∷ message msg_client_sync sync ∷ []) ++ (8 ∷ []))
    ≡ record {
      answer = some device;
      sent = hello_bytes (105 ∷ 113 ∷ []);
      written = [];
      left = 8 ∷ [];
    }
handshake_lem_example =
    handshake_lem (105 ∷ 113 ∷ []) (message msg_device_info device) (message msg_client_sync sync)
      (8 ∷ []) refl refl refl (omega arith) (omega arith)

-- Rates of whole numbers: the maximal rate less the decimation's index.
abbrev slower : ℕ → ℕ → ℕ
slower max_sr i = max_sr - i

abbrev apart : ℕ → ℕ → ℕ
apart a b = (a - b) + (b - a)

less_asym : (a b : ℕ) → ltb a b ≡ true → ltb b a ≡ false
less_asym a b h = ground arith

not_less_trans : (a b c : ℕ) → ltb a b ≡ false → ltb b c ≡ false → ltb a c ≡ false
not_less_trans a b c h k = ground arith

the_closest : negotiate_rate slower apart ltb 100 2 5 (some 97) ≡ some (3, 97)
unfolding negotiate_rate rate_of supported_rates closest_rate wanted_rate
the_closest = refl

negotiate_rate_lem_example :
    (found : ℕ × ℕ) × (negotiate_rate slower apart ltb 100 2 5 (some 97) ≡ some found)
    × ((2 ≤ found.0)
        × ((found.0 ≤ 5)
            × ((found.1 ≡ 100 - found.0)
                × ((d : ℕ)
                    → 2 ≤ d
                    → d ≤ 5
                    → d < 34
                    → ltb
                        (apart (100 - d) (wanted_rate slower apart ltb (some 97) 98))
                        (apart found.1 (wanted_rate slower apart ltb (some 97) 98))
                      ≡ false))))
negotiate_rate_lem_example =
    negotiate_rate_lem slower apart ltb less_asym not_less_trans 100 2 5 (some 97) (omega arith)

abbrev wanted : Wanted
wanted = record {
  rf_freq_hz = 100000000;
  dec_index_to_send = 3;
  format_to_request = 2;
  gain_given = some 7;
  digital_gain = 9;
}

abbrev connecting : Connecting
connecting = record { host_found = true; memory = true; socket = some 5 }

session_lem_example : close_network (open_network true true connecting initialized 0) ≡ 1
unfolding open_network networking_connect networking_initialize_module networking_cleanup_module
session_lem_example = session_lem true true connecting initialized 0

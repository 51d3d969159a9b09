-- ===== src/SpyServer/Greeting.antt =====
-- The handshake with a server that answers.
use iq_tool.Prelude.{
  ℕ, zero, suc, ◌-◌, ◌^◌, ◌≤◌, ◌<◌, ◌≡◌, refl, ap, sym, ◌∙◌, List, [], ◌∷◌, ◌++◌, false, Option,
  none, some, arith, ltb, ◌==◌, if◌then◌else◌, length, take, drop, length-take, length-drop,
  take-append-drop, append_assoc, append-nil,
}
use iq_tool.SdrPacket.{to_le32, of_bytes}
use iq_tool.SpyServer.{
  piece_size, message_header_size, message_type_of, body_size_of, msg_device_info, msg_client_sync,
  device_info_size, client_sync_size, Calls, result, recv,
}
use iq_tool.SpyServer.Handshake.{
  protocol_version, cmd_hello, discard_next, discard_extra, receive_control, receive_sync,
  receive_device_info, receive_response, handshake,
}
use iq_tool.SpyServer.Messages.{
  Message, header_of, encode, length-header_of, body_size_of-header_of, piece_size_lem,
}
use iq_tool.SpyServer.Running.{Ran, more_sent, run_from, run_calls, run_calls-recv}

message_type_of-header_of :
    (m : Message) → m.message_type < 2 ^ 32 → message_type_of (header_of m) ≡ m.message_type
message_type_of-header_of m h = omega arith

discard_extra_lem :
    {A : Type 0} (fuel : ℕ) (extra rest : List ℕ) (next : Calls (Option A))
    → length extra ≤ fuel
    → run_calls (discard_extra fuel (length extra) next) (extra ++ rest) ≡ run_calls next rest
unfolding discard_extra discard_next
discard_extra_lem fuel [] rest next h = refl
discard_extra_lem zero (x ∷ extra) rest next h = absurd (omega arith)
discard_extra_lem (suc fuel) (x ∷ extra) rest next h =
    let n = piece_size 256 (suc (length extra)) in
    let (some_of_it, (_, inside)) = piece_size_lem 256 (length extra) (omega arith) in
    let piece = take n (x ∷ extra) in
    let others = drop n (x ∷ extra) in
    let size : length piece ≡ n = omega (arith, length-take n (x ∷ extra), inside) in
    let left : suc (length extra) - n ≡ length others = omega (arith, length-drop n (x ∷ extra)) in
    let split : piece ++ (others ++ rest) ≡ x ∷ extra ++ rest =
      sym (append_assoc piece others rest) ∙ ap (λ t. t ++ rest) (take-append-drop n (x ∷ extra)) in
    ap (run_calls (discard_extra (suc fuel) (suc (length extra)) next)) (sym split)
    ∙ run_calls-recv n piece (others ++ rest)
        (discard_next (discard_extra fuel (suc (length extra) - n) next)) size
    ∙ ap (λ k. run_calls (discard_extra fuel k next) (others ++ rest)) left
    ∙ discard_extra_lem fuel others rest next (omega (arith, length-drop n (x ∷ extra), some_of_it))

-- The hello message: its header, the protocol's version and the client's name.
abbrev pub hello_bytes : List ℕ → List ℕ
hello_bytes user_agent =
    let payload = to_le32 protocol_version ++ user_agent in
    (to_le32 cmd_hello ++ to_le32 (length payload)) ++ payload

-- What the sync message decides.
abbrev pub controlled : List ℕ → List ℕ → Option (List ℕ)
controlled sync device_info =
    if of_bytes (take 4 (take client_sync_size sync)) == 0 then none else some device_info

receive_sync_lem :
    (device_info header sync rest : List ℕ)
    → length header ≡ message_header_size
    → message_type_of header ≡ msg_client_sync
    → body_size_of header ≡ length sync
    → client_sync_size ≤ length sync
    → run_calls (recv message_header_size (receive_sync device_info)) (header ++ (sync ++ rest))
      ≡ record { answer = controlled sync device_info; sent = []; written = []; left = rest }
unfolding receive_sync receive_control run_from
receive_sync_lem device_info header sync rest e t f enough =
    let n = client_sync_size in
    let size : length (take n sync) ≡ n = omega (arith, length-take n sync) in
    let long : ltb (length sync) n ≡ false = ground arith in
    let left : length sync - n ≡ length (drop n sync) = omega (arith, length-drop n sync) in
    let split : sync ++ rest ≡ take n sync ++ (drop n sync ++ rest) =
      ap (λ b. b ++ rest) (sym (take-append-drop n sync))
      ∙ append_assoc (take n sync) (drop n sync) rest in
    let next = receive_control device_info (length sync) in
    let end = result (controlled sync device_info) in
    run_calls-recv message_header_size header (sync ++ rest) (receive_sync device_info) e
    ∙ rw t (
        rw f (
          rw long (
            ap (run_calls (recv n next)) split
            ∙ run_calls-recv n (take n sync) (drop n sync ++ rest) next size
            ∙ ap (λ k. run_calls (discard_extra k k end) (drop n sync ++ rest)) left
            ∙ discard_extra_lem (length (drop n sync)) (drop n sync) rest end (omega arith))))

receive_response_lem :
    (header device_info rest : List ℕ)
    → length header ≡ message_header_size
    → message_type_of header ≡ msg_device_info
    → body_size_of header ≡ device_info_size
    → length device_info ≡ device_info_size
    → run_calls (recv message_header_size receive_response) (header ++ (device_info ++ rest))
      ≡ run_calls (recv message_header_size (receive_sync device_info)) rest
unfolding receive_response receive_device_info
receive_response_lem header device_info rest e t f size =
    run_calls-recv message_header_size header (device_info ++ rest) receive_response e
    ∙ rw t (rw f (run_calls-recv device_info_size device_info rest receive_device_info size))

-- If the server answers with a description of the device of the right size and then with a sync
-- message that is large enough, its body below 2 ^ 32 bytes, and sends anything after these, then
-- the handshake sends the hello message with the protocol's version and the client's name, takes
-- exactly the two answers from the socket, and succeeds with the description, unless the sync
-- message says that the client has no control, in which case it fails.
pub handshake_lem :
    (user_agent : List ℕ) (device_info sync : Message) (rest : List ℕ)
    → device_info.message_type ≡ msg_device_info
    → length device_info.body ≡ device_info_size
    → sync.message_type ≡ msg_client_sync
    → client_sync_size ≤ length sync.body
    → length sync.body < 2 ^ 32
    → run_calls (handshake user_agent) (encode (device_info ∷ sync ∷ []) ++ rest) ≡ record {
      answer = controlled sync.body device_info.body;
      sent = hello_bytes user_agent;
      written = [];
      left = rest;
    }
unfolding handshake run_from encode
handshake_lem user_agent device_info sync rest t size s enough small =
    let h1 = header_of device_info in
    let h2 = header_of sync in
    let run = run_calls (recv message_header_size receive_response) in
    let small_info : length device_info.body < 2 ^ 32 = omega arith in
    let payload = to_le32 protocol_version ++ user_agent in
    let hello = to_le32 cmd_hello ++ to_le32 (length payload) in
    ap (λ o. more_sent hello (more_sent payload o))
      (ap run (answers h1 device_info.body h2 sync.body)
        ∙ receive_response_lem h1 device_info.body (h2 ++ (sync.body ++ rest))
            (length-header_of device_info) (message_type_of-header_of device_info (omega arith) ∙ t)
            (body_size_of-header_of device_info small_info ∙ size) size
        ∙ receive_sync_lem device_info.body h2 sync.body rest (length-header_of sync)
            (message_type_of-header_of sync (omega arith) ∙ s) (body_size_of-header_of sync small)
            enough)
    ∙ ap (all_taken (controlled sync.body device_info.body) rest)
        (ap (λ b. hello ++ b) (append-nil payload))
  where
    all_taken : Option (List ℕ) → List ℕ → List ℕ → Ran (Option (List ℕ))
    all_taken a left b = record { answer = a; sent = b; written = []; left = left }

    answers :
        (a b c d : List ℕ) → (a ++ (b ++ (c ++ (d ++ [])))) ++ rest ≡ a ++ (b ++ (c ++ (d ++ rest)))
    answers a b c d =
        append_assoc a (b ++ (c ++ (d ++ []))) rest
        ∙ ap (λ x. a ++ x)
            (append_assoc b (c ++ (d ++ [])) rest
              ∙ ap (λ x. b ++ x)
                  (append_assoc c (d ++ []) rest ∙ ap (λ x. c ++ x) (append_assoc d [] rest)))

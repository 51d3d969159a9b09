-- ===== src/SpyServer/Consumer.antt =====
-- The main loop of `spyserver_client_start_stream`: messages from the ring to the chunks of the
-- pipeline. The loops take fuel, as the producer's do.
use iq_tool.Prelude.{
  ℕ, zero, suc, ◌-◌, ◌/◌, ◌%◌, List, [], ◌∷◌, Bool, true, false, ◌||◌, ltb, if◌then◌else◌, length,
}
use iq_tool.Formats.{Format, get_bytes_per_sample}
use iq_tool.SdrPacket.Reading.{Reader, done, ask, map_result}
use iq_tool.SpyServer.{
  piece_size, message_header_size, message_type_of, body_size_of, msg_uint8_iq, msg_float_iq,
}

-- What the client puts into a chunk that it hands on.
pub record Filled : Type 0 where
  pub raw_input_data : List ℕ
  pub packet_sample_format : Format
  pub frames_read : ℕ

-- The calls of the loop: `ring_buffer_read`, `queue_dequeue` of a free chunk (false: NULL),
-- `queue_enqueue` of a chunk for the next stage, `queue_enqueue` back into the pool, and
-- `is_shutdown_requested`. At `finish` the thread requests a shutdown and joins the producer;
-- `unfinished`: the fuel ran out.
pub data Stream : Type 0 where
  read_ring : ℕ → (List ℕ → Stream) → Stream
  get_chunk : (Bool → Stream) → Stream
  deliver : Filled → (Bool → Stream) → Stream
  release : Stream → Stream
  asked_to_stop : (Bool → Stream) → Stream
  finish : Stream
  unfinished : Stream

-- What is done with the next piece of a body that is not wanted.
unfoldable pub discard_piece : ℕ → Stream → List ℕ → Stream
discard_piece to_read next bytes = if ltb (length bytes) to_read then finish else next

-- A body that is not wanted, 1024 bytes at a time.
unfoldable pub discard_body : ℕ → ℕ → Stream → Stream
discard_body fuel zero next = next
discard_body zero (suc more) next = unfinished
discard_body (suc fuel) (suc more) next =
    let to_read = piece_size 1024 (suc more) in
    read_ring to_read (discard_piece to_read (discard_body fuel (suc more - to_read) next))

-- What is done with the next piece of samples.
unfoldable pub deliver_piece : Format → ℕ → Stream → List ℕ → Stream
deliver_piece format bytes_this_chunk next bytes =
    if ltb (length bytes) bytes_this_chunk
    then release finish
    else deliver
        (record {
          raw_input_data = bytes;
          packet_sample_format = format;
          frames_read = bytes_this_chunk / get_bytes_per_sample format;
        })
        (λ accepted. if accepted then next else release finish)

-- A body of samples, as much at a time as a chunk's buffer holds.
unfoldable pub deliver_body : Format → ℕ → ℕ → ℕ → Stream → Stream
deliver_body format capacity fuel zero next = next
deliver_body format capacity zero (suc more) next = unfinished
deliver_body format capacity (suc fuel) (suc more) next =
    let bytes_this_chunk = piece_size capacity (suc more) in
    let later = deliver_body format capacity fuel (suc more - bytes_this_chunk) next in
    get_chunk λ given.
      if given
      then read_ring bytes_this_chunk (deliver_piece format bytes_this_chunk later)
      else finish

-- `header.MessageType & 0xFFFF` is one of samples.
unfoldable pub is_sample_message : List ℕ → Bool
is_sample_message header =
    let msg_type = message_type_of header % 65536 in
    if ltb msg_type msg_uint8_iq || ltb msg_float_iq msg_type then false else true

-- What is done with a header.
unfoldable pub take_message : Format → ℕ → Stream → List ℕ → Stream
take_message format capacity next header =
    let body_size = body_size_of header in
    if ltb (length header) message_header_size
    then finish
    else if is_sample_message header
    then deliver_body format capacity body_size body_size next
    else discard_body body_size body_size next

unfoldable pub stream_loop : Format → ℕ → ℕ → Stream
stream_loop format capacity zero = unfinished
stream_loop format capacity (suc fuel) = asked_to_stop λ stop.
    if stop
    then finish
    else read_ring message_header_size
        (take_message format capacity (stream_loop format capacity fuel))

-- The loop where no call fails: every chunk asked for is given and every chunk delivered is
-- accepted. The result is what was delivered, in order, and whether the loop came to its end.
unfoldable pub undisturbed : Stream → Reader (List Filled × Bool)
undisturbed (read_ring n next) = ask n (λ bytes. undisturbed (next bytes))
undisturbed (get_chunk next) = undisturbed (next true)
undisturbed (deliver c next) = map_result (λ t. (c ∷ t.0, t.1)) (undisturbed (next true))
undisturbed (release next) = undisturbed next
undisturbed (asked_to_stop next) = undisturbed (next false)
undisturbed finish = done ([], true)
undisturbed unfinished = done ([], false)

-- ===== src/SpyServer/Producer.antt =====
-- `spyserver_client_producer_thread`: messages from the socket to the ring. The loops take fuel: a
-- message is at least a header, and a round of the inner loop takes at least one byte.
use iq_tool.Prelude.{ℕ, zero, suc, ◌-◌, List, Option, none, some, ltb, ◌==◌, if◌then◌else◌}
use iq_tool.SpyServer.{
  piece_size, message_header_size, body_size_of, Calls, result, recv, write, requested, fatal,
}

-- How the thread ends; `unfinished`: the fuel ran out. At `ended` it signals the end of the stream.
pub data Ended : Type 0 where
  ended : Ended
  unfinished : Ended

-- A lost connection is an error, unless a shutdown was requested.
unfoldable pub connection_lost : Calls Ended
connection_lost = requested λ stop. if stop then result ended else fatal (result ended)

-- `sizeof(network_read_buffer)`
abbrev pub network_read_size : ℕ
network_read_size = 65536

-- What is done with the next piece of a body.
unfoldable pub copy_piece : ℕ → Calls Ended → Option (List ℕ) → Calls Ended
copy_piece to_read next none = connection_lost
copy_piece to_read next (some bytes) =
    write bytes (λ written. if ltb written to_read then result ended else next)

-- The inner loop: what is left of a body.
unfoldable pub copy_body : ℕ → ℕ → Calls Ended → Calls Ended
copy_body fuel zero next = next
copy_body zero (suc more) next = result unfinished
copy_body (suc fuel) (suc more) next =
    let to_read = piece_size network_read_size (suc more) in
    recv to_read (copy_piece to_read (copy_body fuel (suc more - to_read) next))

-- What is done with a header: a message without a body is skipped.
unfoldable pub copy_message : Calls Ended → Option (List ℕ) → Calls Ended
copy_message next none = connection_lost
copy_message next (some header) =
    let body_size = body_size_of header in
    if body_size == 0
    then next
    else write header (λ written.
      if ltb written message_header_size then result ended else copy_body body_size body_size next)

unfoldable pub producer_thread : ℕ → Calls Ended
producer_thread zero = result unfinished
producer_thread (suc fuel) = requested λ stop.
    if stop then result ended else recv message_header_size (copy_message (producer_thread fuel))

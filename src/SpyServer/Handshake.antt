-- ===== src/SpyServer/Handshake.antt =====
-- `spyserver_client_initialize`, from the handshake to the choice of the format. Every
-- failure ends with `networking_disconnect` and `networking_cleanup_module`.
use iq_tool.Prelude.{
  ℕ, zero, suc, ◌-◌, List, ◌++◌, not, ◌&&◌, Option, none, some, ltb, ◌==◌, if◌then◌else◌, length,
  take, drop,
}
use iq_tool.SdrPacket.{to_le32, of_bytes}
use iq_tool.Formats.{Format, format_unknown, id}
use iq_tool.SpyServer.{
  piece_size, message_header_size, message_type_of, body_size_of, msg_device_info, msg_client_sync,
  device_info_size, client_sync_size, get_internal_format_from_spyserver_enum, Calls, result, recv,
  send,
}

-- `SPYSERVER_PROTOCOL_VERSION`, `SPYSERVER_CMD_HELLO` and `SPYSERVER_CMD_SET_SETTING`
abbrev pub protocol_version : ℕ
protocol_version = 33556132

abbrev pub cmd_hello : ℕ
cmd_hello = 0

abbrev pub cmd_set_setting : ℕ
cmd_set_setting = 2

-- The loop that throws away what follows the sync message, 256 bytes at a time; each round takes at
-- least one byte, so that as many rounds as bytes are enough.
unfoldable pub discard_next : {A : Type 0} → Calls (Option A) → Option (List ℕ) → Calls (Option A)
discard_next next none = result none
discard_next next (some bytes) = next

unfoldable pub discard_extra : {A : Type 0} → ℕ → ℕ → Calls (Option A) → Calls (Option A)
discard_extra fuel zero next = next
discard_extra zero (suc more) next = result none
discard_extra (suc fuel) (suc more) next =
    let to_read = piece_size 256 (suc more) in
    recv to_read (discard_next (discard_extra fuel (suc more - to_read) next))

-- What is done with the sync message: `CanControl` is its first number.
unfoldable pub receive_control : List ℕ → ℕ → Option (List ℕ) → Calls (Option (List ℕ))
receive_control device_info body_size none = result none
receive_control device_info body_size (some sync_info) =
    let extra = body_size - client_sync_size in
    discard_extra extra extra
      (result (if of_bytes (take 4 sync_info) == 0 then none else some device_info))

-- What is done with its header.
unfoldable pub receive_sync : List ℕ → Option (List ℕ) → Calls (Option (List ℕ))
receive_sync device_info none = result none
receive_sync device_info (some header) =
    if message_type_of header == msg_client_sync
    then if ltb (body_size_of header) client_sync_size
      then result none
      else recv client_sync_size (receive_control device_info (body_size_of header))
    else result none

-- What is done with the device's description, and with its header.
unfoldable pub receive_device_info : Option (List ℕ) → Calls (Option (List ℕ))
receive_device_info none = result none
receive_device_info (some device_info) = recv message_header_size (receive_sync device_info)

unfoldable pub receive_response : Option (List ℕ) → Calls (Option (List ℕ))
receive_response none = result none
receive_response (some header) =
    if message_type_of header == msg_device_info
    then if body_size_of header == device_info_size
      then recv device_info_size receive_device_info
      else result none
    else result none

-- The hello message, and what the server says to it. `none` is the result false; else the device's
-- description as it came.
unfoldable pub handshake : List ℕ → Calls (Option (List ℕ))
handshake user_agent =
    let payload = to_le32 protocol_version ++ user_agent in
    send (to_le32 cmd_hello ++ to_le32 (length payload)) λ first.
      if first
      then (send payload
          λ second. if second then recv message_header_size receive_response else result none)
      else result none

-- `ForcedIQFormat`, the last number of the description
abbrev pub forced_iq_format : List ℕ → ℕ
forced_iq_format device_info = of_bytes (take 4 (drop 44 device_info))

-- The format of the stream: the server's, if it forces a known one.
unfoldable pub negotiate_format : List ℕ → Format → Format
negotiate_format device_info requested =
    let forced = forced_iq_format device_info in
    let server_forced = get_internal_format_from_spyserver_enum forced in
    if forced == 0
    then requested
    else if not (id server_forced == id format_unknown) && not (id server_forced == id requested)
    then server_forced
    else requested

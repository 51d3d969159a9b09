-- ===== src/SpyServer.antt =====
-- src/input_spyserver_client.c: the protocol's messages, and what the client's threads do as trees of
-- the calls that they make, since the socket and other threads answer in between.
pub mod Handshake
pub mod Greeting
pub mod Rates
pub mod Configure
pub mod Session
pub mod Producer
pub mod Consumer
pub mod Messages
pub mod Running
pub mod Producing
pub mod Consuming
pub mod EndToEnd
pub mod AnyOrder
pub mod Arriving
pub mod Samples
mod Tests
use iq_tool.Prelude.{
  ltb, ◌==◌, if◌then◌else◌, ℕ, ◌+◌, ◌*◌, ◌/◌, ◌%◌, ◌^◌, List, [], ◌∷◌, ◌++◌, Bool, Option, length,
  take, drop,
}
use iq_tool.SdrPacket.{to_le32, of_bytes}
use iq_tool.Formats.{Format, format_unknown, cu8, cs16, cs24, cf32}

-- `SpyServerMessageHeader`: five packed 32-bit numbers.
pub record SpyServerMessageHeader : Type 0 where
  pub protocol_id : ℕ
  pub message_type : ℕ
  pub stream_type : ℕ
  pub sequence_number : ℕ
  pub body_size : ℕ

abbrev pub message_header_size : ℕ
message_header_size = 20

-- The header as it lies in memory, and back.
abbrev pub message_header_bytes : SpyServerMessageHeader → List ℕ
message_header_bytes h =
    to_le32 h.protocol_id
    ++ (to_le32 h.message_type
        ++ (to_le32 h.stream_type ++ (to_le32 h.sequence_number ++ to_le32 h.body_size)))

abbrev pub message_type_of : List ℕ → ℕ
message_type_of bytes = of_bytes (take 4 (drop 4 bytes))

abbrev pub body_size_of : List ℕ → ℕ
body_size_of bytes = of_bytes (take 4 (drop 16 bytes))

-- `SpyServerMessageType`
abbrev pub msg_device_info : ℕ
msg_device_info = 0

abbrev pub msg_client_sync : ℕ
msg_client_sync = 1

abbrev pub msg_uint8_iq : ℕ
msg_uint8_iq = 100

abbrev pub msg_float_iq : ℕ
msg_float_iq = 103

-- `sizeof(SpyServerDeviceInfo)`, of twelve numbers, and `sizeof(SpyServerClientSync)`, of nine
abbrev pub device_info_size : ℕ
device_info_size = 48

abbrev pub client_sync_size : ℕ
client_sync_size = 36

-- `get_spyserver_enum_from_internal_format`
unfoldable pub get_spyserver_enum_from_internal_format : Format → ℕ
get_spyserver_enum_from_internal_format cu8 = 1
get_spyserver_enum_from_internal_format cs16 = 2
get_spyserver_enum_from_internal_format cs24 = 3
get_spyserver_enum_from_internal_format cf32 = 4
get_spyserver_enum_from_internal_format _ = 0

-- `get_internal_format_from_spyserver_enum`
unfoldable pub get_internal_format_from_spyserver_enum : ℕ → Format
get_internal_format_from_spyserver_enum n =
    if n == 1
    then cu8
    else if n == 2
    then cs16
    else if n == 3
    then cs24
    else if n == 4
    then cf32
    else format_unknown

-- What a loop over a buffer of `limit` bytes takes next of `n` bytes.
unfoldable pub piece_size : ℕ → ℕ → ℕ
piece_size limit n = if ltb limit n then limit else n

-- The calls that a thread makes, and how it goes on with their results: `networking_recv_all`,
-- `networking_send_all`, `ring_buffer_write`, `is_shutdown_requested`, and
-- `handle_fatal_thread_error`, which has none.
pub data Calls (A : Type 0) : Type 0 where
  result : A → Calls A
  recv : ℕ → (Option (List ℕ) → Calls A) → Calls A
  send : List ℕ → (Bool → Calls A) → Calls A
  write : List ℕ → (ℕ → Calls A) → Calls A
  requested : (Bool → Calls A) → Calls A
  fatal : Calls A → Calls A

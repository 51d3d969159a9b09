-- ===== src/SdrPacket.antt =====
-- src/sdr_packet_serializer.c: packets of samples in the byte ring between an SDR's driver thread and
-- the reader thread. Log messages are left out.
pub mod Writing
pub mod Reading
pub mod Runs
pub mod WriteLaws
pub mod Packets
pub mod Transfers
pub mod RoundTrip
pub mod Resync
pub mod Payload
mod Tests
use iq_tool.Prelude.{ℕ, ◌+◌, ◌*◌, ◌/◌, ◌%◌, ◌^◌, List, [], ◌∷◌, ◌++◌, length}

-- `IQPK_MAGIC`
abbrev pub iqpk_magic : ℕ
iqpk_magic = 0x4b505149

-- `SdrInputChunkHeader`: ten packed bytes.
pub record SdrInputChunkHeader : Type 0 where
  pub magic : ℕ
  pub num_samples : ℕ
  pub flags : ℕ
  pub format_id : ℕ

abbrev pub header_size : ℕ
header_size = 10

-- `SDR_CHUNK_FLAG_INTERLEAVED` and `SDR_CHUNK_FLAG_STREAM_RESET`
abbrev pub flag_interleaved : ℕ
flag_interleaved = 1

abbrev pub flag_stream_reset : ℕ
flag_stream_reset = 2

-- `PIPELINE_CHUNK_BASE_SAMPLES`
abbrev pub base_samples : ℕ
base_samples = 16384

-- A `uint32_t` in memory, the low byte first, and back.
abbrev pub to_le32 : ℕ → List ℕ
to_le32 n = n % 256 ∷ n / 256 % 256 ∷ n / 65536 % 256 ∷ n / 16777216 % 256 ∷ []

abbrev pub of_bytes : List ℕ → ℕ
of_bytes [] = 0
of_bytes (b ∷ bytes) = b + 256 * of_bytes bytes

-- The header as it lies in memory.
abbrev pub header_bytes : SdrInputChunkHeader → List ℕ
header_bytes h = to_le32 h.magic ++ (to_le32 h.num_samples ++ (h.flags ∷ h.format_id ∷ []))

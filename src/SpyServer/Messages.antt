-- ===== src/SpyServer/Messages.antt =====
-- Messages as the server sends them.
use iq_tool.Prelude.{
  ℕ, suc, ◌^◌, ◌<◌, ◌≤◌, ◌≡◌, refl, List, [], ◌∷◌, ◌++◌, Bool, true, ◌&&◌, ltb, arith, length, ◌==◌,
  if◌then◌else◌,
}
use iq_tool.SpyServer.{piece_size, message_header_bytes, message_header_size, body_size_of}

pub record Message : Type 0 where
  pub protocol_id : ℕ
  pub message_type : ℕ
  pub stream_type : ℕ
  pub sequence_number : ℕ
  pub body : List ℕ

abbrev pub header_of : Message → List ℕ
header_of m = message_header_bytes (record {
  protocol_id = m.protocol_id;
  message_type = m.message_type;
  stream_type = m.stream_type;
  sequence_number = m.sequence_number;
  body_size = length m.body;
})

-- The messages one after the other.
unfoldable pub encode : List Message → List ℕ
encode [] = []
encode (m ∷ ms) = header_of m ++ (m.body ++ encode ms)

-- A body's size is a 32-bit number.
unfoldable pub all_small : List Message → Bool
all_small [] = true
all_small (m ∷ ms) = ltb (length m.body) (2 ^ 32) && all_small ms

pub length-header_of : (m : Message) → length (header_of m) ≡ message_header_size
length-header_of m = refl

pub body_size_of-header_of :
    (m : Message) → length m.body < 2 ^ 32 → body_size_of (header_of m) ≡ length m.body
body_size_of-header_of m h = omega arith

-- The messages that have a body.
unfoldable pub with_body : List Message → List Message
with_body [] = []
with_body (m ∷ ms) = let rest = with_body ms in if length m.body == 0 then rest else m ∷ rest

-- A piece is not empty and stays inside the buffer and the body.
pub piece_size_lem :
    (limit more : ℕ)
    → 0 < limit
    → (0 < piece_size limit (suc more))
      × ((piece_size limit (suc more) ≤ limit) × (piece_size limit (suc more) ≤ suc more))
unfolding piece_size
piece_size_lem limit more h = ground arith

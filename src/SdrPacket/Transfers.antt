-- ===== src/SdrPacket/Transfers.antt =====
-- A transfer from a driver becomes a sequence of packets.
use iq_tool.Prelude.{
  ℕ, zero, suc, ◌+◌, ◌-◌, ◌*◌, ◌/◌, ◌%◌, ◌^◌, ◌≤◌, ◌<◌, ◌≡◌, refl, sym, inl, inr, List, [], ◌++◌,
  Bool, true, false, arith, ltb, leb, ◌==◌, if◌then◌else◌, Bool-cases, length, take, drop, min,
  append-nil, take-nil, length-drop, le→ltb, lt→ltb, ==→eq, ==→ne, mul_size,
}
use iq_tool.RingBuffer.{RingBuffer}
use iq_tool.RingBuffer.Contents.{contents}
use iq_tool.RingBuffer.Validity.{IsValid}
use iq_tool.Formats.{Format}
use iq_tool.SdrPacket.{base_samples}
use iq_tool.SdrPacket.Writing.{write_interleaved_chunk, write_chunks, write_interleaved_chunks}
use iq_tool.SdrPacket.WriteLaws.{room, Stored, Stored-then, Stored-cut}
use iq_tool.SdrPacket.Packets.{interleaved_packet, write_interleaved_chunk-Stored}

-- The packets of `left` pairs of `size` bytes each: all but the last of 16384 pairs.
pub packets_of : ℕ → List ℕ → ℕ → ℕ → Format → List ℕ
packets_of zero bytes left size format = []
packets_of (suc rounds) bytes left size format =
    let n = min left base_samples in
    if left == 0
    then []
    else interleaved_packet n (take (n * size) bytes) format
      ++ packets_of rounds (drop (n * size) bytes) (left - n) size format

-- What is stored, with the flag of the whole.
abbrev pub Put : RingBuffer → List ℕ → RingBuffer → Type 0
Put r bytes r' = Stored r bytes (leb (length bytes) (room r), r')

Put-of :
    {r : RingBuffer} (bytes : List ℕ) (out : Bool × RingBuffer)
    → Stored r bytes out
    → Put r bytes out.1
Put-of bytes out s = record {
  whole = refl;
  held = s.held;
  valid = s.valid;
  limit = s.limit;
  closed = s.closed;
  stopped = s.stopped;
}

Put-nothing : {r : RingBuffer} → IsValid r → Put r [] r
Put-nothing {r} v = record {
  whole = refl;
  held = rw take-nil (sym (append-nil (contents r)));
  valid = v;
  limit = refl;
  closed = refl;
  stopped = refl;
}

mul_mono : (a b c : ℕ) → a ≤ b → a * c ≤ b * c
mul_mono a b c h = grind arith

mul_split : (a b c : ℕ) → a ≤ b → a * c + (b - a) * c ≡ b * c
mul_split a b c h = grind arith

tail_fits :
    (n left size : ℕ) (bytes : List ℕ)
    → n ≤ left
    → left * size ≤ length bytes
    → (left - n) * size ≤ length (drop (n * size) bytes)
tail_fits n left size bytes h enough =
    omega (arith, mul_split n left size h, length-drop (n * size) bytes)

packets_of-zero :
    (rounds : ℕ) (bytes : List ℕ) (size : ℕ) (format : Format)
    → packets_of rounds bytes 0 size format ≡ []
unfolding packets_of
packets_of-zero zero bytes size format = refl
packets_of-zero (suc rounds) bytes size format = refl

div_bounds : (a b : ℕ) → 0 < b → (a / b ≤ a) × (a / b * b ≤ a)
div_bounds a b h = (grind arith, grind arith)

-- One round of the loop, and what the later rounds put behind it.
Put-round :
    {r : RingBuffer} (packet more : List ℕ) (b : Bool) (r' r'' : RingBuffer)
    → Stored r packet (b, r')
    → Put r' more r''
    → Put r (packet ++ more) (if b then r'' else r')
Put-round packet more true r' r'' s p =
    Put-of (packet ++ more) (_, r'') (Stored-then packet more (_, r'') s p)
Put-round packet more false r' r'' s p =
    Put-of (packet ++ more) (false, r') (Stored-cut packet more s)

write_chunks-Put :
    (fuel : ℕ) {r : RingBuffer} (bytes : List ℕ) (left size : ℕ) (format : Format)
    → IsValid r
    → left < fuel
    → left * size ≤ length bytes
    → length bytes < 2 ^ 32
    → Put r (packets_of fuel bytes left size format) (write_chunks fuel r bytes left size format)
unfolding write_chunks packets_of
write_chunks-Put zero bytes left size format v h enough small = elim h [ ]
write_chunks-Put (suc fuel) {r} bytes left size format v h enough small =
    elim (Bool-cases (left == 0)) [
      | inl e ↦ rw e (rw (le→ltb 0 left (omega (arith, ==→eq left 0 e))) (Put-nothing v))
      | inr e ↦
          let pos : 0 < left = omega (arith, ==→ne left 0 e) in
          let n = min left base_samples in
          let clip : (if ltb base_samples left then base_samples else left) ≡ n = ground arith in
          let part : n * size ≤ left * size = mul_mono n left size (omega arith) in
          let same : mul_size n size ≡ n * size = omega arith in
          let s =
            write_interleaved_chunk-Stored n bytes size format v (omega arith) (omega arith) in
          let out = write_interleaved_chunk r n bytes size format in
          rw e (
            rw (lt→ltb 0 left pos) (
              rw clip (
                rw same (
                  Put-round (interleaved_packet n (take (n * size) bytes) format)
                    (packets_of fuel (drop (n * size) bytes) (left - n) size format) out.0 out.1
                    (write_chunks fuel out.1 (drop (n * size) bytes) (left - n) size format) s
                    (write_chunks-Put fuel (drop (n * size) bytes) (left - n) size format s.valid
                      (omega arith) (tail_fits n left size bytes (omega arith) enough)
                      (omega (arith, length-drop (n * size) bytes)))))))
    ]

-- A transfer is written as its packets, one after the other, as far as there is room: what goes into
-- the ring is always the first bytes of that sequence, so that the last packet may be torn. Bytes
-- that make up no whole pair are left out.
pub write_interleaved_chunks_lem :
    {r : RingBuffer} (bytes : List ℕ) (length_bytes size : ℕ) (format : Format)
    → IsValid r
    → 0 < size
    → length bytes ≡ length_bytes
    → length_bytes < 2 ^ 32
    → let pairs = length_bytes / size in
      Put r
        (packets_of (pairs + 1) bytes pairs size format)
        (write_interleaved_chunks r bytes length_bytes size format)
unfolding write_interleaved_chunks
write_interleaved_chunks_lem {r} bytes length_bytes size format v pos same small =
    let pairs = length_bytes / size in
    let few = div_bounds length_bytes size pos in
    let short : length_bytes / size % 2 ^ 32 ≡ pairs = omega (arith, few) in
    elim (Bool-cases (length_bytes == 0)) [
      | inl e ↦
          let no_pairs : length_bytes / size ≡ 0 = omega (arith, few, ==→eq length_bytes 0 e) in
          rw e (rw no_pairs (rw (packets_of-zero (0 + 1) bytes size format) (Put-nothing v)))
      | inr e ↦ rw e (
          rw short (
            write_chunks-Put (pairs + 1) bytes pairs size format v (omega arith)
              (omega (arith, few)) (omega arith)))
    ]

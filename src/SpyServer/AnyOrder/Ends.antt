-- ===== src/SpyServer/AnyOrder/Ends.antt =====
-- Where the main loop ends, and what it does with a full read.
use iq_tool.Prelude.{
  ℕ, ◌<◌, ◌≡◌, refl, List, [], ◌∷◌, false, arith, ltb, if◌then◌else◌, length, take, length-take,
  lt→ltb,
}
use iq_tool.Formats.{Format}
use iq_tool.SpyServer.{message_header_size}
use iq_tool.SpyServer.Consumer.{
  Stream, deliver, release, finish, unfinished, discard_piece, deliver_piece, take_message,
}
use iq_tool.SpyServer.Consuming.{filled}
use iq_tool.SpyServer.AnyOrder.{Turn, delivered_after}

-- Nothing more is delivered.
abbrev pub Silent : Stream → Type 0
Silent s = (ts : List Turn) (bytes : List ℕ) → delivered_after s ts bytes ≡ []

pub finish-Silent : Silent finish
unfolding delivered_after
finish-Silent [] bytes = refl
finish-Silent (t ∷ ts) bytes = refl

pub unfinished-Silent : Silent unfinished
unfolding delivered_after
unfinished-Silent [] bytes = refl
unfinished-Silent (t ∷ ts) bytes = refl

pub release-Silent : Silent (release finish)
unfolding delivered_after
release-Silent [] bytes = refl
release-Silent (t ∷ ts) bytes = finish-Silent ts bytes

not_short : (n : ℕ) → ltb n n ≡ false
not_short n = ground arith

pub discard_short :
    (n : ℕ) (later : Stream) (b : List ℕ) → length b < n → Silent (discard_piece n later b)
unfolding discard_piece
discard_short n later b h = rw (lt→ltb (length b) n h) finish-Silent

pub discard_full :
    (n : ℕ) (later : Stream) (piece : List ℕ)
    → length piece ≡ n
    → discard_piece n later piece ≡ later
unfolding discard_piece
discard_full n later piece e = rw e (rw (not_short n) refl)

pub deliver_short :
    (format : Format) (n : ℕ) (later : Stream) (b : List ℕ)
    → length b < n
    → Silent (deliver_piece format n later b)
unfolding deliver_piece
deliver_short format n later b h = rw (lt→ltb (length b) n h) release-Silent

pub deliver_full :
    (format : Format) (n : ℕ) (later : Stream) (piece : List ℕ)
    → length piece ≡ n
    → deliver_piece format n later piece
      ≡ deliver (filled format n piece) (λ accepted. if accepted then later else release finish)
unfolding deliver_piece
deliver_full format n later piece e = rw e (rw (not_short n) refl)

pub short_header :
    (format : Format) (capacity : ℕ) (next : Stream) (b : List ℕ)
    → length b < message_header_size
    → Silent (take_message format capacity next b)
unfolding take_message
short_header format capacity next b h = rw (lt→ltb (length b) message_header_size h) finish-Silent

pub nothing_to_read :
    (n k : ℕ) (bytes : List ℕ) → length bytes ≡ 0 → 0 < n → length (take k bytes) < n
nothing_to_read n k bytes e h = omega (arith, length-take k bytes)

-- ===== src/SpyServer/AnyOrder.antt =====
-- What the threads do whatever their calls answer: the other threads may take or put between any two
-- calls, a shutdown may be requested at any moment, and every call may fail.
pub mod Fronts
pub mod Ends
pub mod AnyProducer
pub mod AnyConsumer
pub mod Undisturbed
use iq_tool.Prelude.{
  ℕ, List, [], ◌∷◌, ◌++◌, Bool, ◌&&◌, none, some, leb, if◌then◌else◌, length, take, drop, min,
}
use iq_tool.SpyServer.{Calls, result, recv, send, write, requested, fatal}
use iq_tool.SpyServer.Consumer.{
  Filled, Stream, read_ring, get_chunk, deliver, release, asked_to_stop, finish, unfinished,
}

-- How a call turns out: whether it succeeds, or the flag that it reads, and at most how many bytes it
-- moves.
pub record Turn : Type 0 where
  pub positive : Bool
  pub count : ℕ

-- What the producer has put into the ring after these turns, of what comes from the socket. A request
-- that fails uses up any number of bytes.
unfoldable pub put_after : {A : Type 0} → Calls A → List Turn → List ℕ → List ℕ
put_after c [] input = []
put_after (result a) (t ∷ ts) input = []
put_after (recv n next) (t ∷ ts) input =
    let got = put_after (next (some (take n input))) ts (drop n input) in
    let lost = put_after (next none) ts (drop t.count input) in
    if t.positive && leb n (length input) then got else lost
put_after (send bytes next) (t ∷ ts) input = put_after (next t.positive) ts input
put_after (write bytes next) (t ∷ ts) input =
    take (min t.count (length bytes)) bytes
    ++ put_after (next (min t.count (length bytes))) ts input
put_after (requested next) (t ∷ ts) input = put_after (next t.positive) ts input
put_after (fatal next) (t ∷ ts) input = put_after next ts input

-- The chunks that the main loop has delivered after these turns, of the bytes that come to the ring.
-- A read gets any number of bytes up to what it asks for.
unfoldable pub delivered_after : Stream → List Turn → List ℕ → List Filled
delivered_after s [] bytes = []
delivered_after (read_ring n next) (t ∷ ts) bytes =
    delivered_after (next (take (min t.count n) bytes)) ts (drop (min t.count n) bytes)
delivered_after (get_chunk next) (t ∷ ts) bytes = delivered_after (next t.positive) ts bytes
delivered_after (deliver c next) (t ∷ ts) bytes =
    let accepted = c ∷ delivered_after (next t.positive) ts bytes in
    let refused = delivered_after (next t.positive) ts bytes in
    if t.positive then accepted else refused
delivered_after (release next) (t ∷ ts) bytes = delivered_after next ts bytes
delivered_after (asked_to_stop next) (t ∷ ts) bytes = delivered_after (next t.positive) ts bytes
delivered_after finish (t ∷ ts) bytes = []
delivered_after unfinished (t ∷ ts) bytes = []

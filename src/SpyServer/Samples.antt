-- ===== src/SpyServer/Samples.antt =====
-- From the server's messages to the samples in the chunks, whatever the calls of the two threads
-- answer.
use iq_tool.Prelude.{ℕ, ◌<◌, ◌≡◌, sym, List, true}
use iq_tool.Formats.{Format}
use iq_tool.SpyServer.Producer.{producer_thread}
use iq_tool.SpyServer.Consumer.{stream_loop}
use iq_tool.SpyServer.Messages.{Message, encode, all_small, with_body}
use iq_tool.SpyServer.EndToEnd.{data_of, sample_bytes, all_fit}
use iq_tool.SpyServer.AnyOrder.{Turn, put_after, delivered_after}
use iq_tool.SpyServer.AnyOrder.Fronts.{IsFront}
use iq_tool.SpyServer.AnyOrder.AnyProducer.{producer_thread-IsFront}
use iq_tool.SpyServer.AnyOrder.AnyConsumer.{stream_loop-Safe}
use iq_tool.SpyServer.Arriving.{all_small-with_body, sample_bytes-with_body}

-- The server sends messages with bodies below 2 ^ 32 bytes, and a chunk's buffer has room for a byte.
-- Then, at any moment, and whatever the calls of the producer and of the main loop have answered,
-- lost connections, full rings, short reads of the ring, refusing queues and shutdowns included, the
-- bytes of the chunks that the main loop has delivered are a front of the bodies of the messages that
-- carry samples, and every chunk has at least one byte, fits into its buffer, and counts as many
-- frames as its bytes have.
pub samples_in_order :
    (format : Format) (capacity fuel_in fuel_out : ℕ) (ms : List Message)
    → (turns_in turns_out : List Turn) → 0 < capacity
    → all_small ms ≡ true
    → let arrived = put_after (producer_thread fuel_in) turns_in (encode ms) in
      let chunks = delivered_after (stream_loop format capacity fuel_out) turns_out arrived in
      IsFront (data_of chunks) (sample_bytes ms) × (all_fit format capacity chunks ≡ true)
samples_in_order format capacity fuel_in fuel_out ms turns_in turns_out pos small =
    let arrived = put_after (producer_thread fuel_in) turns_in (encode ms) in
    let f = producer_thread-IsFront fuel_in ms turns_in small in
    let good =
      stream_loop-Safe format capacity pos fuel_out (with_body ms) (all_small-with_body ms small)
        turns_out arrived f.others f.whole in
    (rw (sym (sample_bytes-with_body ms)) good.front, good.fit)

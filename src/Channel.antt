-- ===== src/Channel.antt =====
-- roo_transport/link/internal/thread_safe/channel.h and channel.cpp: a transmitter and a receiver
-- under one handshake. A call under the handshake mutex is one step.
pub mod Handshake
pub mod Dispatch
use roo_transport.Prelude.{
  ℕ, ◌+◌, ◌%◌, Bool, true, false, ltb, leb, ◌==◌, ◌||◌, not, Option, none, some, if◌then◌else◌,
  check, ◌>>=◌, ◌>>◌,
}
use roo_transport.Ring.{max_link_buffer_size_log2}
use roo_transport.Transmitter
use roo_transport.Transmitter.{Transmitter}
use roo_transport.Receiver
use roo_transport.Receiver.{Receiver}

-- `has_disconnect_fn` says whether `disconnect_fn_` is set.
pub record Channel : Type 0 where
  pub transmitter : Transmitter
  pub receiver : Receiver
  pub my_stream_id : ℕ
  pub my_stream_id_acked_by_peer : Bool
  pub peer_stream_id : ℕ
  pub needs_handshake_ack : Bool
  pub successive_handshake_retries : ℕ
  pub next_scheduled_handshake_update : ℕ
  pub has_disconnect_fn : Bool

pub data LinkStatus : Type 0 where
  idle connecting connected broken : LinkStatus

-- The constructor, which validates the sizes first; `garbage` is the uninitialized control bit of
-- the receiver.
unfoldable pub new_channel : ℕ → ℕ → Bool → Option Channel
new_channel sendbuf recvbuf garbage = do
  check (leb sendbuf max_link_buffer_size_log2)
  check (leb recvbuf max_link_buffer_size_log2)
  check (leb sendbuf recvbuf)
  t ← Transmitter.new_transmitter sendbuf
  r ← Receiver.new_receiver recvbuf garbage
  some (record {
    transmitter = t;
    receiver = r;
    my_stream_id = 0;
    my_stream_id_acked_by_peer = false;
    peer_stream_id = 0;
    needs_handshake_ack = false;
    successive_handshake_retries = 0;
    next_scheduled_handshake_update = 0;
    has_disconnect_fn = false;
  })

-- `my_control_bit()`
unfoldable pub my_control_bit : ℕ → ℕ → Bool
my_control_bit my_stream_id peer_stream_id = ltb peer_stream_id my_stream_id

-- `connect(disconnect_fn)`: `id` is the first number other than 0 that the generator draws, `start`
-- the next one. The result tells whether the old disconnect function is called.
unfoldable pub connect : Channel → Bool → ℕ → ℕ → Option (Bool × Channel)
connect c has_fn id start = do
  t ← Transmitter.init c.transmitter id (start % 4095)
  r ← Receiver.init c.receiver id
  some (
    c.has_disconnect_fn,
    record c {
      transmitter = t;
      receiver = r;
      my_stream_id = id;
      my_stream_id_acked_by_peer = false;
      peer_stream_id = 0;
      needs_handshake_ack = false;
      successive_handshake_retries = 0;
      next_scheduled_handshake_update = 0;
      has_disconnect_fn = has_fn;
    },
  )

-- `disconnect(my_stream_id)`: whether the disconnect function is called, and the new state.
unfoldable pub disconnect : Channel → ℕ → Option (Bool × Channel)
disconnect c id = if not (c.my_stream_id == id) then some (false, c) else (do
  t ← Transmitter.reset c.transmitter
  r ← Receiver.reset c.receiver
  some (
    c.has_disconnect_fn,
    record c {
      transmitter = t;
      receiver = r;
      my_stream_id = 0;
      my_stream_id_acked_by_peer = false;
      peer_stream_id = 0;
      has_disconnect_fn = false;
    },
  ))

-- `getLinkStatusInternal(stream_id)`
unfoldable pub get_link_status : Channel → ℕ → LinkStatus
get_link_status c id =
    if id == 0
    then LinkStatus.idle
    else if not (c.my_stream_id == id)
    then LinkStatus.broken
    else if c.peer_stream_id == 0 || not c.my_stream_id_acked_by_peer
    then LinkStatus.connecting
    else LinkStatus.connected

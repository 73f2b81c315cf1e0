-- ===== src/Channel/Handshake.antt =====
-- `conn` and `handleHandshakePacket` of roo_transport/link/internal/thread_safe/channel.cpp.
pub mod Laws
use roo_transport.Prelude.{
  ℕ, ◌+◌, ◌-◌, ◌%◌, ◌^◌, Bool, true, false, ltb, ◌==◌, ◌&&◌, not, min, Option, none, some, List, [],
  ◌∷◌, ◌++◌, if◌then◌else◌, check, ◌>>=◌, ◌>>◌,
}
use roo_transport.Io.{MemoryIo}
use roo_transport.Backoff.{retry_backoff_micros}
use roo_transport.OutBuffer.{Random}
use roo_transport.Ring
use roo_transport.Protocol.{PacketType, format_packet_header}
use roo_transport.Transmitter
use roo_transport.Transmitter.{Transmitter}
use roo_transport.Receiver
use roo_transport.Receiver.{Receiver}
use roo_transport.Channel.{Channel, my_control_bit}

-- What a handshake packet says.
pub record Handshake : Type 0 where
  pub peer_seq_num : ℕ
  pub peer_stream_id : ℕ
  pub ack_stream_id : ℕ
  pub want_ack : Bool
  pub peer_receive_buffer_size : ℕ

-- What handling it comes to: whether there is something to send, whether the disconnect function is
-- called, and the new state.
pub record Handled : Type 0 where
  pub ready : Bool
  pub disconnected : Bool
  pub after : Channel

abbrev pub ignored : Channel → Handled
ignored c = record { ready = false; disconnected = false; after = c }

-- The two ends chose the same number: both halves are broken.
unfoldable pub abort_handshake : Channel → Option Handled
abort_handshake c = do
  let r = Receiver.set_broken c.receiver
  t ← Transmitter.set_broken c.transmitter
  some (record {
    ready = false;
    disconnected = c.has_disconnect_fn;
    after = record c { receiver = r; transmitter = t; my_stream_id = 0; has_disconnect_fn = false };
  })

-- `receiver` is connected; the transmitter connects too if the peer acknowledges our number.
unfoldable pub accepted : Channel → Handshake → Bool → Receiver → Handled
accepted c h bit receiver = record {
  ready = true;
  disconnected = false;
  after =
      if h.ack_stream_id == c.my_stream_id
      then record c {
        peer_stream_id = h.peer_stream_id;
        receiver = receiver;
        my_stream_id_acked_by_peer = true;
        transmitter = Transmitter.set_connected c.transmitter h.peer_receive_buffer_size bit;
        needs_handshake_ack = h.want_ack;
      }
      else record c {
        peer_stream_id = h.peer_stream_id;
        receiver = receiver;
        needs_handshake_ack = h.want_ack;
      };
}

unfoldable pub accept_peer : Channel → Handshake → Option Handled
accept_peer c h = do
  check (Ring.is_empty c.receiver.ring)
  let bit = my_control_bit c.my_stream_id h.peer_stream_id
  r ← Receiver.set_connected c.receiver h.peer_seq_num bit
  some (accepted c h bit r)

unfoldable pub handle_connecting : Channel → Handshake → Option Handled
handle_connecting c h =
    if not (h.ack_stream_id == 0) && not (h.ack_stream_id == c.my_stream_id)
    then some (ignored c)
    else if h.peer_stream_id == c.my_stream_id
    then abort_handshake c
    else accept_peer c h

-- The peer opened a new stream: what has come is still delivered, if there is some.
unfoldable pub peer_restarted : Channel → Option Handled
peer_restarted c =
    if not (Receiver.done c.receiver)
    then (do
      t ← (elim c.transmitter.state [
        | Transmitter.State.connected ↦ Transmitter.set_broken c.transmitter
        | _ ↦ Transmitter.reset c.transmitter
      ])
      some (record {
        ready = false;
        disconnected = c.has_disconnect_fn;
        after = record c {
          transmitter = t;
          receiver = Receiver.set_broken c.receiver;
          my_stream_id = 0;
          has_disconnect_fn = false;
        };
      }))
    else (do
      t ← Transmitter.reset c.transmitter
      r ← Receiver.reset c.receiver
      some (record {
        ready = false;
        disconnected = c.has_disconnect_fn;
        after = record c {
          transmitter = t;
          receiver = r;
          my_stream_id = 0;
          has_disconnect_fn = false;
        };
      }))

-- A late acknowledgement of our number connects the transmitter.
unfoldable pub late_ack : Channel → Handshake → Option Handled
late_ack c h =
    if h.ack_stream_id == c.my_stream_id && not c.my_stream_id_acked_by_peer
    then (do
      check (not (c.my_stream_id == 0))
      some (record {
        ready = true;
        disconnected = false;
        after = record c {
          my_stream_id_acked_by_peer = true;
          transmitter =
              Transmitter.set_connected c.transmitter h.peer_receive_buffer_size
                (my_control_bit c.my_stream_id c.peer_stream_id);
          needs_handshake_ack = h.want_ack;
        };
      }))
    else some (record {
      ready = false;
      disconnected = false;
      after = record c { needs_handshake_ack = h.want_ack };
    })

unfoldable pub handle_connected : Channel → Handshake → Option Handled
handle_connected c h =
    if h.want_ack && not (c.peer_stream_id == h.peer_stream_id) && h.ack_stream_id == 0
    then peer_restarted c
    else late_ack c h

-- `handleHandshakePacket`; an echo of our own packet is dropped.
unfoldable pub handle_handshake_packet : Channel → Handshake → Option Handled
handle_handshake_packet c h =
    if h.peer_stream_id == c.my_stream_id && h.peer_seq_num == c.transmitter.ring.begin
    then some (ignored c)
    else elim c.receiver.state [
      | Receiver.State.connecting ↦ handle_connecting c h
      | Receiver.State.connected ↦ handle_connected c h
      | _ ↦ some (ignored c)
    ]

module _ (io : MemoryIo) where
  open io use {store_be_u16, store_be_u32}

  -- The 11 bytes of a handshake packet. `last_byte` is `we_need_ack ? 0x80 : 0`, with the size in
  -- the low bits.
  unfoldable pub handshake_bytes : Channel → Bool → List ℕ
  handshake_bytes c we_need_ack =
      store_be_u16 (format_packet_header c.transmitter.ring.begin PacketType.handshake_packet false)
      ++ (store_be_u32 c.my_stream_id
          ++ (store_be_u32 c.peer_stream_id
              ++ (((if we_need_ack then 128 else 0) + c.receiver.ring.capacity_log2) ∷ [])))

  -- `conn(buf, next_send_micros)` at the time `now`: the packet, the new `next_send_micros` and the
  -- new state. The backoff runs from 1000 us to a second.
  unfoldable pub conn : Channel → ℕ → ℕ → Random → List ℕ × ℕ × Channel
  conn c next_send_micros now rand = elim c.transmitter.state [
    | Transmitter.State.connected ↦
        if not c.needs_handshake_ack
        then ([], next_send_micros, c)
        else (handshake_bytes c false, next_send_micros, record c { needs_handshake_ack = false })
    | Transmitter.State.connecting ↦
        if ltb now c.next_scheduled_handshake_update
        then ([], min next_send_micros (c.next_scheduled_handshake_update - now), c)
        else (let delay =
              retry_backoff_micros rand.random_max 1000 1000000 c.successive_handshake_retries
                rand.draw in
            (
              handshake_bytes c true,
              min next_send_micros delay,
              record c {
                needs_handshake_ack = false;
                successive_handshake_retries = (c.successive_handshake_retries + 1) % 2 ^ 32;
                next_scheduled_handshake_update = now + delay;
              },
            ))
    | _ ↦ ([], next_send_micros, c)
  ]

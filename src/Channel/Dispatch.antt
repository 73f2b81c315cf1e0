-- ===== src/Channel/Dispatch.antt =====
-- `packetReceived` and `trySend` of roo_transport/link/internal/thread_safe/channel.cpp.
pub mod Laws
use roo_transport.Prelude.{
  ℕ, zero, suc, ◌+◌, ◌/◌, ◌%◌, ◌^◌, Bool, true, false, ltb, ◌==◌, ◌||◌, ◌&&◌, not, Option, none,
  some, List, [], ◌∷◌, ◌++◌, length, drop, get_or, if◌then◌else◌, ◌>>=◌,
}
use roo_transport.Io.{MemoryIo}
use roo_transport.Protocol.{PacketType, get_packet_control_bit, get_packet_type}
use roo_transport.Ring.{max_link_buffer_size_log2}
use roo_transport.OutBuffer.{OutBuffer, Random}
use roo_transport.Transmitter
use roo_transport.Transmitter.{Transmitter}
use roo_transport.Transmitter.Ack
use roo_transport.Transmitter.Send.{Clock}
use roo_transport.Receiver
use roo_transport.Receiver.Control
use roo_transport.Receiver.Packet.{handle_data_packet}
use roo_transport.Guarded
use roo_transport.Channel.{Channel}
use roo_transport.Channel.Handshake.{Handshake, Handled, ignored, handle_handshake_packet, conn}

-- `PacketSender::kMaxPacketSize`
abbrev pub max_packet_size : ℕ
max_packet_size = 250

-- A data packet; an empty one must be the final one.
unfoldable pub receive_data : Channel → Bool → ℕ → List ℕ → Bool → Option Handled
receive_data c control_bit seq_id payload is_final =
    if not is_final && length payload == 0 then some (ignored c) else (do
      o ← handle_data_packet c.receiver control_bit seq_id payload is_final
      some (record {
        ready = o.has_ack;
        disconnected = false;
        after = record c { receiver = o.after };
      }))

unfoldable pub receive_ack : Channel → Bool → ℕ → List ℕ → Option Handled
receive_ack c control_bit seq_id bitmap = do
  (rushed, t) ← Transmitter.Ack.ack c.transmitter control_bit seq_id bitmap
  some (record { ready = rushed; disconnected = false; after = record c { transmitter = t } })

unfoldable pub receive_himark : Channel → Bool → ℕ → Handled
receive_himark c control_bit recv_himark =
    let (changed, t) = Transmitter.Ack.update_recv_himark c.transmitter control_bit recv_himark in
    record { ready = false; disconnected = false; after = record c { transmitter = t } }

module _ (io : MemoryIo) where
  open io use {load_be_u16, load_be_u32}

  -- `packet` has eleven bytes; its last one has a reserved part that must be 0.
  unfoldable pub receive_handshake : Channel → ℕ → List ℕ → Option Handled
  receive_handshake c peer_seq_num packet =
      let last_byte = get_or packet 10 0 in
      if not (last_byte / 16 % 8 == 0)
      then some (ignored c)
      else if ltb max_link_buffer_size_log2 (last_byte % 16)
      then some (ignored c)
      else handle_handshake_packet c (record {
        peer_seq_num = peer_seq_num;
        peer_stream_id = load_be_u32 (drop 2 packet);
        ack_stream_id = load_be_u32 (drop 6 packet);
        want_ack = last_byte / 128 % 2 == 1;
        peer_receive_buffer_size = 2 ^ (last_byte % 16);
      })

  -- `packetReceived(buf, len)`
  unfoldable pub packet_received : Channel → List ℕ → Option Handled
  packet_received c packet =
      if ltb (length packet) 2 || ltb max_packet_size (length packet)
      then some (ignored c)
      else (let header = load_be_u16 packet in
          let control_bit = get_packet_control_bit header in
          let number = header % 4096 in
          let body : List ℕ = drop 2 packet in
          elim (get_packet_type header) [
            | PacketType.data_ack_packet ↦ receive_ack c control_bit number body
            | PacketType.flow_control_packet ↦
                if length packet == 2
                then some (receive_himark c control_bit number)
                else some (ignored c)
            | PacketType.handshake_packet ↦
                if length packet == 11 then receive_handshake c number packet else some (ignored c)
            | PacketType.data_packet ↦ receive_data c control_bit number body false
            | PacketType.fin_packet ↦ receive_data c control_bit number body true
            | PacketType.other k ↦ some (ignored c)
          ])

  open io use {store_be_u16}

  -- The bytes of a buffer: its header and what was written to it.
  abbrev pub packet_bytes : OutBuffer → List ℕ
  packet_bytes b = store_be_u16 b.header ++ b.payload

  -- `if (len > 0) packet_sender_.send(buf, len)`: the packets sent so far, newest last.
  abbrev pub sent : List (List ℕ) → List ℕ → List (List ℕ)
  sent packets packet = elim packet [ [] ↦ packets | x ∷ xs ↦ packets ++ ((x ∷ xs) ∷ []) ]

  -- The burst, with the given number of packets left.
  unfoldable pub burst :
      ℕ → Channel → ℕ → Clock → (ℕ → Random) → List (List ℕ) → List (List ℕ) × ℕ × Channel
  burst zero c next clock draws packets = (packets, next, c)
  burst (suc n) c next clock draws packets =
      let (b, next', t) = Guarded.send c.transmitter next clock (draws n) in
      elim b [
        | none ↦ (packets, next', record c { transmitter = t })
        | some b ↦
            burst n (record c { transmitter = t }) next' clock draws
              (packets ++ (packet_bytes b ∷ []))
      ]

  -- `trySend()`: the packets in the order they are sent, the time to wait, and the new state.
  -- `longest` is the largest long; the draws are numbered from the last packet of the burst, and the
  -- eighth is the one of the handshake.
  unfoldable pub try_send : Channel → ℕ → Clock → (ℕ → Random) → List (List ℕ) × ℕ × Channel
  try_send c longest clock draws =
      let (handshake, next, c1) = conn io c longest clock.now (draws 8) in
      let start : List (List ℕ) = sent [] handshake in
      elim c1.transmitter.state [
        | Transmitter.State.connecting ↦ (start, next, c1)
        | _ ↦
            let (acks, r2) = Receiver.Control.ack io c1.receiver in
            let (himark, next3, r3) = Receiver.Control.update_recv_himark io r2 next clock.now in
            burst 8 (record c1 { receiver = r3 }) next3 clock draws (sent (sent start acks) himark)
      ]

-- ===== src/Tests/ChannelTests.antt =====
-- Channels at concrete inputs.
use roo_transport.Prelude.{
  ℕ, ◌%◌, ◌≡◌, refl, Bool, true, false, not, Option, none, some, List, [], ◌∷◌, ◌>>=◌, arith,
}
use roo_transport.Seq.{sub16, seq_add}
use roo_transport.Ring
use roo_transport.Ring.{RingBuffer, slots_used}
use roo_transport.Ring.Window.{IsValid}
use roo_transport.OutBuffer
use roo_transport.OutBuffer.{OutBuffer}
use roo_transport.Transmitter
use roo_transport.Transmitter.{Transmitter}
use roo_transport.InBuffer.{ContentType}
use roo_transport.Receiver
use roo_transport.Receiver.{Receiver, drain, set_idle}
use roo_transport.Receiver.Read.{try_read, read_loop, open_buffer, release}
use roo_transport.Channel.{Channel}
use roo_transport.Channel.Handshake.{
  Handshake, Handled, accept_peer, handle_handshake_packet, handshake_bytes,
}
use roo_transport.Channel.Handshake.Laws.{accept_peer-opposite}
use roo_transport.Channel.Dispatch.{packet_received, packet_bytes, receive_data}
use roo_transport.Channel.Dispatch.Laws.{
  packet_received-handshake_bytes, packet_received-packet_bytes,
}
use roo_transport.Tests.ConcreteIo.{big_endian}

abbrev empty_ring : ℕ → RingBuffer
empty_ring start = record { capacity_log2 = 0; begin = start; end = start }

abbrev sender : ℕ → Transmitter
sender id = record {
  my_stream_id = id;
  state = Transmitter.State.connecting;
  end_of_stream = false;
  out_buffers = OutBuffer.new_out_buffer ∷ [];
  current = none;
  ring = empty_ring 40;
  next_to_send = 40;
  recv_himark = 40;
  has_pending_eof = false;
  packets_sent = 0;
  packets_delivered = 0;
  peer_receive_buffer_size = 0;
  control_bit = false;
}

abbrev listener : ℕ → Receiver
listener id = record {
  my_stream_id = id;
  state = Receiver.State.connecting;
  self_closed = false;
  peer_closed = false;
  end_of_stream = false;
  in_buffers = record { type = ContentType.unset; payload = [] } ∷ [];
  current = none;
  current_pos = 0;
  ring = empty_ring 0;
  needs_ack = false;
  unack_seq = 0;
  recv_himark = 1;
  himark_expiration = 0;
  packets_received = 0;
  control_bit = false;
}

abbrev end_with : ℕ → Channel
end_with id = record {
  transmitter = sender id;
  receiver = listener id;
  my_stream_id = id;
  my_stream_id_acked_by_peer = false;
  peer_stream_id = 0;
  needs_handshake_ack = false;
  successive_handshake_retries = 0;
  next_scheduled_handshake_update = 0;
  has_disconnect_fn = false;
}

abbrev hello : ℕ → Handshake
hello id = record {
  peer_seq_num = 40;
  peer_stream_id = id;
  ack_stream_id = 0;
  want_ack = true;
  peer_receive_buffer_size = 1;
}

listener-IsValid : (id : ℕ) → IsValid (listener id).ring
unfolding slots_used sub16
listener-IsValid id = record {
  small = omega arith;
  begin_lt = omega arith;
  end_lt = omega arith;
  fits = omega arith;
}

accept_peer-opposite_example :
    (oa ob : Handled) × (accept_peer (end_with 7) (hello 9) ≡ some oa)
    × (accept_peer (end_with 9) (hello 7) ≡ some ob)
    × (oa.after.receiver.state ≡ Receiver.State.connected)
    × (ob.after.receiver.state ≡ Receiver.State.connected)
    × (oa.after.receiver.control_bit ≡ not ob.after.receiver.control_bit)
unfolding slots_used sub16
accept_peer-opposite_example =
    accept_peer-opposite (end_with 7) (end_with 9) (hello 9) (hello 7) (listener-IsValid 7)
      (listener-IsValid 9) refl refl refl refl (omega arith)

packet_received-handshake_bytes_example :
    packet_received big_endian (end_with 9) (handshake_bytes big_endian (end_with 7) true)
    ≡ handle_handshake_packet (end_with 9) (hello 7)
packet_received-handshake_bytes_example =
    packet_received-handshake_bytes big_endian (end_with 7) (end_with 9) true (omega arith)
      (omega arith) (omega arith)

abbrev one_byte : OutBuffer
one_byte = record (OutBuffer.init 5000 true) { payload = 65 ∷ [] }

packet_received-packet_bytes_example :
    packet_received big_endian (end_with 9) (packet_bytes big_endian one_byte)
    ≡ receive_data (end_with 9) true (5000 % 4096) (65 ∷ []) false
unfolding OutBuffer.init
packet_received-packet_bytes_example =
    packet_received-packet_bytes big_endian (end_with 9) one_byte 5000 true refl (omega arith)
      (omega arith)

-- A reader in the middle of a packet.
abbrev half_read : Receiver
half_read = record (listener 7) {
  state = Receiver.State.connected;
  in_buffers = record { type = ContentType.content; payload = 10 ∷ 11 ∷ 12 ∷ [] } ∷ [];
  current = some 0;
  current_pos = 1;
  ring = record { capacity_log2 = 0; begin = 40; end = 41 };
}

-- The receiver connects again, and the new peer has sent nothing.
abbrev reconnected : Option Receiver
reconnected = Receiver.init half_read 8 >>= (λ r. Receiver.set_connected r 200 true)

abbrev bytes_read : Option (List ℕ × Bool × Receiver) → Option (List ℕ)
bytes_read none = none
bytes_read (some (bytes, ready, r)) = some bytes

-- A byte of the old stream is read from the new one.
stale_byte : bytes_read (reconnected >>= (λ r. try_read r 1)) ≡ some (11 ∷ [])
unfolding Receiver.init Receiver.set_connected drain try_read read_loop open_buffer slots_used sub16
    seq_add Ring.is_empty Ring.pop Ring.reset Receiver.slot
stale_byte = refl

-- Reading to the end of the old packet fails the CHECK of the pop.
stale_end : bytes_read (reconnected >>= (λ r. try_read r 2)) ≡ none
unfolding Receiver.init Receiver.set_connected drain try_read read_loop open_buffer release
    slots_used sub16 seq_add Ring.is_empty Ring.pop Ring.reset Receiver.slot
stale_end = refl

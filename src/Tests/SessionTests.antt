-- ===== src/Tests/SessionTests.antt =====
-- A connection at concrete packets.
use roo_transport.Prelude.{◌+◌, ◌%◌, refl, true, false, none, [], ◌∷◌, arith}
use roo_transport.Seq.{sub16, seq_add, seq_le, seq_lt}
use roo_transport.Receiver.Stream.{stream, chunk}
use roo_transport.Ring
use roo_transport.Ring.{slots_used}
use roo_transport.InBuffer
use roo_transport.InBuffer.{InBuffer, ContentType}
use roo_transport.Receiver
use roo_transport.Receiver.{Receiver, State}
use roo_transport.Receiver.Packet.{
  extend, advance_to, handle_data_packet, handle_connected, outside, accept, acknowledge,
  unack_loop,
}
use roo_transport.Receiver.Session.{Peer, Session, packet, Reach, start, later}

abbrev vacant : InBuffer
vacant = record { type = ContentType.unset; payload = [] }

-- Four slots, just connected at 5.
abbrev connected : Receiver
connected = record {
  my_stream_id = 77;
  state = State.connected;
  self_closed = false;
  peer_closed = false;
  end_of_stream = false;
  in_buffers = vacant ∷ vacant ∷ vacant ∷ vacant ∷ [];
  current = none;
  current_pos = 0;
  ring = record { capacity_log2 = 2; begin = 5; end = 5 };
  needs_ack = false;
  unack_seq = 5;
  recv_himark = 9;
  himark_expiration = 0;
  packets_received = 0;
  control_bit = false;
}

-- Two bytes in every packet, and three packets.
abbrev peer : Peer
peer = record { start = 5; payload = λ k. k % 256 ∷ (k + 1) % 256 ∷ []; last = 2 }

-- The same receiver before: some stream was read up to 3.
abbrev idle_before : Receiver
idle_before = record connected {
  my_stream_id = 12;
  state = State.idle;
  ring = record { capacity_log2 = 2; begin = 3; end = 3 };
  unack_seq = 3;
  control_bit = true;
}

-- Packet 1 comes before packet 0.
abbrev reordered : (s : Session) × Reach peer connected s
unfolding handle_data_packet handle_connected outside accept acknowledge unack_loop extend
    advance_to slots_used sub16 seq_add seq_le seq_lt Ring.contains Ring.restore_pos_high_bits
    Ring.offset_for InBuffer.set_content stream chunk Ring.slots_free Ring.push InBuffer.clear
reordered = (
  _,
  later (later start (packet 1 true _ (omega arith) refl)) (packet 0 true _ (omega arith) refl),
)

-- Only packet 1 came.
abbrev waiting : (s : Session) × Reach peer connected s
unfolding handle_data_packet handle_connected outside accept acknowledge unack_loop extend
    advance_to slots_used sub16 seq_add seq_le seq_lt Ring.contains Ring.restore_pos_high_bits
    Ring.offset_for InBuffer.set_content stream chunk Ring.slots_free Ring.push InBuffer.clear
waiting = (_, later start (packet 1 true _ (omega arith) refl))

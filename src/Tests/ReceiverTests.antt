-- ===== src/Tests/ReceiverTests.antt =====
-- Receivers at concrete inputs.
use roo_transport.Prelude.{
  ℕ, zero, suc, ◌+◌, ◌<◌, ◌≡◌, ◌≢◌, inl, refl, true, false, Option, none, some, List, [], ◌∷◌,
  arith,
}
use roo_transport.Seq.{sub16, seq_add, seq_le, seq_lt}
use roo_transport.Receiver.Stream.{stream, chunk}
use roo_transport.Ring
use roo_transport.Ring.{slots_used, restore_pos_high_bits}
use roo_transport.InBuffer
use roo_transport.InBuffer.{InBuffer, ContentType}
use roo_transport.Receiver.{Receiver, State}
use roo_transport.Receiver.Read.{try_read}
use roo_transport.Receiver.Packet.{
  Outcome, handle_data_packet, handle_connected, outside, accept, acknowledge, unack_loop,
}
use roo_transport.Receiver.Inv.{Inv, pending, nth}
use roo_transport.Receiver.ReadLoop.{Reads, try_read-Reads}
use roo_transport.Receiver.Accept.{Delivers}
use roo_transport.Receiver.PacketLaws.{handle_data_packet-Delivers}

-- Four slots; packets 5 and 7 have come, packet 6 has not.
abbrev waiting : Receiver
waiting = record {
  my_stream_id = 77;
  state = State.connected;
  self_closed = false;
  peer_closed = false;
  end_of_stream = false;
  in_buffers =
      record { type = ContentType.unset; payload = [] }
      ∷ record { type = ContentType.content; payload = 10 ∷ 11 ∷ 12 ∷ [] }
      ∷ record { type = ContentType.unset; payload = [] }
      ∷ record { type = ContentType.content; payload = 30 ∷ [] }
      ∷ [];
  current = none;
  current_pos = 0;
  ring = record { capacity_log2 = 2; begin = 5; end = 8 };
  needs_ack = false;
  unack_seq = 6;
  recv_himark = 9;
  himark_expiration = 0;
  packets_received = 1;
  control_bit = false;
}

waiting-Inv : Inv waiting
unfolding slots_used sub16 seq_add
waiting-Inv = record {
  window = omega arith;
  storage = refl;
  sizes = omega arith;
  cursor = tt;
  final_last = last;
  final_closed = closed;
}
  where
    open_buffers : (k : ℕ) → k < 3 → (nth waiting k).type ≢ ContentType.fin
    open_buffers zero p f = cc f
    open_buffers (suc zero) p f = cc f
    open_buffers (suc (suc zero)) p f = cc f
    open_buffers (suc (suc (suc k))) p f = absurd (omega arith)

    last : (k : ℕ) → k + 1 < 3 → (nth waiting k).type ≢ ContentType.fin
    last k p = open_buffers k (omega arith)

    closed : (k : ℕ) → k < 3 → (nth waiting k).type ≡ ContentType.fin → false ≡ true
    closed k p f = absurd (open_buffers k p f)

try_read-Reads_example : Reads waiting 2 [] (try_read waiting 2)
try_read-Reads_example = try_read-Reads waiting 2 waiting-Inv (inl refl)

handle_data_packet-Delivers_example :
    Delivers waiting
      (restore_pos_high_bits waiting.ring 6 12)
      false
      (20 ∷ 21 ∷ [])
      (handle_data_packet waiting true 6 (20 ∷ 21 ∷ []) false)
handle_data_packet-Delivers_example =
    handle_data_packet-Delivers waiting true 6 (20 ∷ 21 ∷ []) false waiting-Inv refl (omega arith)
      (λ e. cc e)

abbrev bytes_after : Option Outcome → List ℕ
bytes_after none = []
bytes_after (some a) = pending a.after

-- The missing packet joins what was on both sides of it.
joined :
    bytes_after (handle_data_packet waiting true 6 (20 ∷ 21 ∷ []) false)
    ≡ 10 ∷ 11 ∷ 12 ∷ 20 ∷ 21 ∷ 30 ∷ []
unfolding handle_data_packet handle_connected outside accept acknowledge unack_loop slots_used sub16
    seq_add seq_le seq_lt Ring.contains Ring.restore_pos_high_bits Ring.offset_for
    InBuffer.set_content stream chunk
joined = refl

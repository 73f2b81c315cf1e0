-- ===== src/Tests/TransmitterTests.antt =====
-- Transmitters at concrete inputs.
use roo_transport.Prelude.{
  ℕ, ◌≡◌, inr, refl, Bool, true, false, Option, none, some, List, [], ◌∷◌, replicate, arith,
}
use roo_transport.Seq.{sub16, seq_add, seq_ge, seq_lt, seq_le, seq_gt, seq_sub}
use roo_transport.Ring
use roo_transport.Transmitter.Ack.{
  ack, ack_connected, pop_acked, process_skips, ack_bitmap, rush_loop,
}
use roo_transport.Transmitter.AckLaws.{Acks, ack-Acks}
use roo_transport.Ring.{restore_pos_high_bits, slots_used, slots_free}
use roo_transport.OutBuffer
use roo_transport.OutBuffer.{OutBuffer}
use roo_transport.Transmitter.{Transmitter, State, open_buffer, write_loop, try_write}
use roo_transport.Transmitter.Queue.{Inv, outgoing, queue}
use roo_transport.Transmitter.WriteLoop.{Writes, IsRefused, try_write-Writes}

-- A packet that waits to be acknowledged, and one that is being filled.
abbrev pub half_full : Transmitter
half_full = record {
  my_stream_id = 5;
  state = State.connected;
  end_of_stream = false;
  out_buffers =
      record {
        header = 0;
        payload = 3 ∷ 4 ∷ [];
        acked = false;
        flushed = false;
        finished = false;
        expiration = 0;
        send_counter = 0;
      }
      ∷ record {
        header = 0;
        payload = 1 ∷ 2 ∷ [];
        acked = false;
        flushed = true;
        finished = true;
        expiration = 0;
        send_counter = 1;
      }
      ∷ [];
  current = some 0;
  ring = record { capacity_log2 = 1; begin = 65535; end = 1 };
  next_to_send = 0;
  recv_himark = 7;
  has_pending_eof = false;
  packets_sent = 1;
  packets_delivered = 0;
  peer_receive_buffer_size = 8;
  control_bit = false;
}

pub half_full-Inv : Inv half_full
unfolding slots_used sub16 seq_add
half_full-Inv = record {
  window = omega arith;
  storage = refl;
  tail = λ e. inr (omega arith, refl, refl, omega arith);
  himark_lt = omega arith;
  credit = λ e. omega arith;
  pending_eof = λ e. cc e;
}

-- More than the open buffer has room for.
try_write-Writes_example :
    Writes half_full (replicate 300 9) 0 IsRefused (try_write half_full (replicate 300 9))
try_write-Writes_example = try_write-Writes half_full (replicate 300 9) half_full-Inv

abbrev bytes_after : Option (ℕ × Bool × Transmitter) → List ℕ
bytes_after none = []
bytes_after (some (n, ready, t)) = outgoing t

appended : bytes_after (try_write half_full (5 ∷ 6 ∷ [])) ≡ 1 ∷ 2 ∷ 3 ∷ 4 ∷ 5 ∷ 6 ∷ []
unfolding try_write write_loop open_buffer queue slots_used slots_free sub16 seq_add seq_ge
    OutBuffer.write
appended = refl

-- The peer acknowledges the first packet.
ack-Acks_example : Acks half_full 1 (ack half_full true 0 [])
unfolding restore_pos_high_bits sub16 seq_add slots_used
ack-Acks_example = ack-Acks half_full true 0 [] half_full-Inv (λ o i c f. omega arith)

abbrev bytes_left : Option (Bool × Transmitter) → List ℕ
bytes_left none = []
bytes_left (some (rushed, t)) = outgoing t

acknowledged : bytes_left (ack half_full true 0 []) ≡ 3 ∷ 4 ∷ []
unfolding ack ack_connected pop_acked process_skips ack_bitmap rush_loop queue slots_used sub16
    seq_add seq_lt seq_le seq_gt seq_sub Ring.is_empty Ring.pop Ring.contains restore_pos_high_bits
acknowledged = refl

-- ===== src/Transmitter/Ack.antt =====
-- `ack` and `updateRecvHimark` of roo_transport/link/internal/transmitter.cpp.
use roo_transport.Prelude.{
  ℕ, zero, suc, ◌+◌, ◌/◌, ◌%◌, ◌^◌, Bool, true, false, ◌==◌, ◌||◌, ◌&&◌, not, same, Option, none,
  some, List, [], ◌∷◌, if◌then◌else◌, ◌>>=◌,
}
use roo_transport.Seq.{SeqNum, seq_lt, seq_gt, seq_add, seq_sub}
use roo_transport.Ring
use roo_transport.Ring.{RingBuffer}
use roo_transport.OutBuffer
use roo_transport.OutBuffer.{OutBuffer}
use roo_transport.Transmitter.{
  Transmitter, State, get_out_buffer, put_out_buffer, add_eos_packet, reset,
}

-- `addEosPacket(); has_pending_eof_ = false;`
unfoldable pub eof_added : Transmitter → Option Transmitter
unfolding add_eos_packet
eof_added t = do u ← add_eos_packet t; some (record u { has_pending_eof = false })

-- `while (out_ring_.begin() < seq && !out_ring_.empty())`: pops what is acknowledged, and appends
-- the pending end-of-stream packet when the first slot is free.
unfoldable pub pop_acked : ℕ → Transmitter → SeqNum → Option Transmitter
pop_acked zero t seq = none
pop_acked (suc fuel) t seq = elim (seq_lt t.ring.begin seq && not (Ring.is_empty t.ring)) [
  | false ↦ some t
  | true ↦ do
    (popped, ring) ← Ring.pop t.ring
    let u : Transmitter = record t {
      ring = ring;
      packets_delivered = (t.packets_delivered + 1) % 2 ^ 32;
    }
    v ← (if u.has_pending_eof then eof_added u else some u)
    pop_acked fuel v seq
]

-- Where the scan of the bitmap stands.
pub record Skips : Type 0 where
  pub trans : Transmitter
  pub out_pos : SeqNum
  pub last_acked : SeqNum

-- `(val & (1 << i)) != 0`
abbrev pub test_bit : ℕ → ℕ → Bool
test_bit val i = val / 2 ^ i % 2 == 1

-- `for (int i = 7; i >= 0; --i)`: the first argument is i + 1.
unfoldable pub ack_byte : ℕ → ℕ → Skips → Skips
unfolding get_out_buffer put_out_buffer
ack_byte zero val s = s
ack_byte (suc i) val s =
    let s' : Skips =
      (if Ring.contains s.trans.ring s.out_pos && test_bit val i
        then record {
          trans =
              put_out_buffer s.trans s.out_pos (OutBuffer.ack (get_out_buffer s.trans s.out_pos));
          out_pos = seq_add s.out_pos 1;
          last_acked = s.out_pos;
        }
        else record s { out_pos = seq_add s.out_pos 1 }) in
    ack_byte i val s'

-- `while (offset < ack_bitmap_len)`
unfoldable pub ack_bitmap : List ℕ → Skips → Skips
ack_bitmap [] s = s
ack_bitmap (val ∷ vals) s = ack_bitmap vals (ack_byte 8 val s)

-- Where the loop that rushes packets stands; `updated` is `next_to_send_updated`.
pub record Rushing : Type 0 where
  pub trans : Transmitter
  pub rushed : Bool
  pub updated : Bool

unfoldable pub rush_one : SeqNum → Rushing → Option Rushing
unfolding get_out_buffer put_out_buffer
rush_one pos s =
    let b = get_out_buffer s.trans pos in
    if not b.acked && b.send_counter == 1
    then (do
      b' ← OutBuffer.rush b
      let u : Transmitter = put_out_buffer s.trans pos b'
      some (record {
        trans = if s.updated then u else record u { next_to_send = pos };
        rushed = true;
        updated = true;
      }))
    else some s

-- `for (SeqNum pos = out_ring_.begin(); pos != last_acked; ++pos)`
unfoldable pub rush_loop : ℕ → SeqNum → SeqNum → Rushing → Option Rushing
rush_loop zero pos last_acked s = if pos == last_acked then some s else none
rush_loop (suc fuel) pos last_acked s = elim (pos == last_acked) [
  | true ↦ some s
  | false ↦ do s' ← rush_one pos s; rush_loop fuel (seq_add pos 1) last_acked s'
]

-- The second half of `ack`: the notifications for later packets.
unfoldable pub process_skips : Transmitter → List ℕ → Option (Bool × Transmitter)
process_skips t bitmap = do
  let s =
      ack_bitmap bitmap (record {
        trans = t;
        out_pos = seq_add t.ring.begin 1;
        last_acked = seq_sub t.ring.begin 1;
      })
  (if Ring.contains t.ring s.last_acked
      then (do
        r ←
            rush_loop (Ring.slots_used t.ring) t.ring.begin s.last_acked
              (record { trans = s.trans; rushed = false; updated = false })
        some (r.rushed, r.trans))
      else some (false, s.trans))

-- `ack(control_bit, seq_id, ack_bitmap, ack_bitmap_len)` in the connected state.
unfoldable pub ack_connected : Transmitter → Bool → ℕ → List ℕ → Option (Bool × Transmitter)
ack_connected t control_bit seq_id bitmap =
    if same control_bit t.control_bit
    then some (false, t)
    else (let seq = Ring.restore_pos_high_bits t.ring seq_id 12 in
        if seq_gt seq t.ring.end then some (false, t) else (do
          u ← pop_acked (Ring.slots_used t.ring + 2) t seq
          (if Ring.is_empty u.ring
              then (if u.end_of_stream then reset u >>= (λ v. some (false, v)) else some (false, u))
              else process_skips u bitmap)))

unfoldable pub ack : Transmitter → Bool → ℕ → List ℕ → Option (Bool × Transmitter)
ack t control_bit seq_id bitmap = elim t.state [
  | State.connected ↦ ack_connected t control_bit seq_id bitmap
  | _ ↦ some (false, t)
]

unfoldable pub update_recv_himark : Transmitter → Bool → ℕ → Bool × Transmitter
update_recv_himark t control_bit recv_himark = elim t.state [
  | State.connected ↦
      if same t.control_bit control_bit
      then (false, t)
      else (let new_himark = Ring.restore_pos_high_bits t.ring recv_himark 12 in
          if seq_lt new_himark t.recv_himark
            || seq_gt new_himark (seq_add t.ring.end t.peer_receive_buffer_size)
          then (false, t)
          else (true, record t { recv_himark = new_himark }))
  | _ ↦ (false, t)
]

-- ===== src/Receiver/Packet.antt =====
-- `handleDataPacket` of roo_transport/link/internal/receiver.cpp.
use roo_transport.Prelude.{
  ℕ, zero, suc, ◌+◌, ◌-◌, ◌%◌, ◌^◌, Bool, true, false, ltb, ◌==◌, ◌&&◌, not, same, Option, none,
  some, List, if◌then◌else◌, ◌>>=◌,
}
use roo_transport.Seq.{SeqNum, sub16, seq_lt, seq_add}
use roo_transport.Ring
use roo_transport.Ring.{RingBuffer}
use roo_transport.InBuffer
use roo_transport.InBuffer.{InBuffer, ContentType}
use roo_transport.Receiver.{Receiver, State, get_in_buffer, put_in_buffer, is_unset}

-- `for (i = 0; i < advance; ++i) getInBuffer(in_ring_.push()).clear();`
unfoldable pub extend : ℕ → Receiver → Option Receiver
unfolding put_in_buffer
extend zero r = some r
extend (suc n) r = do
  (pos, ring) ← Ring.push r.ring
  extend n (put_in_buffer (record r { ring = ring }) pos InBuffer.clear)

-- `size_t advance = seq - in_ring_.end() + 1`: the int16_t difference as a 32-bit size_t.
unfoldable pub advance_to : RingBuffer → SeqNum → ℕ
advance_to ring seq =
    let d = sub16 seq ring.end in (if ltb d 32768 then d + 1 else d + 2 ^ 32 - 65536 + 1) % 2 ^ 32

-- `do { ++unack_seq_; ++packets_received_; } while (received(unack_seq_));`
unfoldable pub unack_loop : ℕ → Receiver → Option Receiver
unfolding get_in_buffer
unack_loop zero r = none
unack_loop (suc fuel) r =
    let u : Receiver = record r {
      unack_seq = seq_add r.unack_seq 1;
      packets_received = (r.packets_received + 1) % 2 ^ 32;
    } in
    elim (Ring.contains u.ring u.unack_seq && not (is_unset (get_in_buffer u u.unack_seq))) [
      | true ↦ unack_loop fuel u
      | false ↦ some u
    ]

-- `while (!in_ring_.empty() && in_ring_.begin() < unack_seq_) in_ring_.pop();`
unfoldable pub discard : ℕ → RingBuffer → SeqNum → Option RingBuffer
discard zero ring seq =
    if not (Ring.is_empty ring) && seq_lt ring.begin seq then none else some ring
discard (suc fuel) ring seq = elim (not (Ring.is_empty ring) && seq_lt ring.begin seq) [
  | true ↦ do (s, ring') ← Ring.pop ring; discard fuel ring' seq
  | false ↦ some ring
]

-- What the call tells: whether an ack is to be sent, and whether there is new data to read.
pub record Outcome : Type 0 where
  pub has_ack : Bool
  pub new_data : Bool
  pub after : Receiver

-- The end: the newest unacknowledged number moves if the packet has it.
unfoldable pub acknowledge : Receiver → SeqNum → Option Outcome
acknowledge r seq =
    if seq == r.unack_seq
    then (do
      u ← unack_loop (Ring.slots_used r.ring + 1) r
      (if u.self_closed
          then (do
            ring ← discard (Ring.slots_used u.ring) u.ring u.unack_seq
            some (record { has_ack = true; new_data = false; after = record u { ring = ring } }))
          else some (record { has_ack = true; new_data = true; after = u })))
    else some (record { has_ack = true; new_data = false; after = r })

-- The part from `InBuffer& buffer = getInBuffer(seq)` on.
unfoldable pub accept : Receiver → SeqNum → List ℕ → Bool → Option Outcome
unfolding get_in_buffer put_in_buffer
accept r seq payload is_final = do
  u ←
      (if is_unset (get_in_buffer r seq)
        then (do
          b ←
              InBuffer.set_content (if is_final then ContentType.fin else ContentType.content)
                payload
          some (put_in_buffer r seq b))
        else some r)
  let v : Receiver = record u {
    peer_closed = if is_final then true else u.peer_closed;
    needs_ack = true;
  }
  acknowledge v seq

-- A number outside of the window: an old one is acknowledged again, a new one extends the window if
-- it fits.
unfoldable pub outside : Receiver → SeqNum → List ℕ → Bool → Option Outcome
outside r seq payload is_final =
    if seq_lt seq r.ring.begin
    then some (record { has_ack = true; new_data = false; after = record r { needs_ack = true } })
    else if r.peer_closed
    then some (record { has_ack = false; new_data = false; after = r })
    else if ltb (Ring.slots_free r.ring) (advance_to r.ring seq)
    then some (record { has_ack = false; new_data = false; after = r })
    else (do u ← extend (advance_to r.ring seq) r; accept u seq payload is_final)

-- `handleDataPacket` while there is a connection.
unfoldable pub handle_connected : Receiver → Bool → ℕ → List ℕ → Bool → Option Outcome
handle_connected r control_bit seq_id payload is_final =
    if same control_bit r.control_bit
    then some (record { has_ack = false; new_data = false; after = r })
    else (let seq = Ring.restore_pos_high_bits r.ring seq_id 12 in
        if Ring.contains r.ring seq
        then accept r seq payload is_final
        else outside r seq payload is_final)

unfoldable pub handle_data_packet : Receiver → Bool → ℕ → List ℕ → Bool → Option Outcome
handle_data_packet r control_bit seq_id payload is_final = elim r.state [
  | State.connecting ↦ some (record { has_ack = false; new_data = false; after = r })
  | State.idle ↦ some (record { has_ack = false; new_data = false; after = r })
  | _ ↦ handle_connected r control_bit seq_id payload is_final
]

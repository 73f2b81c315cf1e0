-- ===== src/Receiver/Control.antt =====
-- `ack` and `updateRecvHimark` of roo_transport/link/internal/receiver.cpp.
use roo_transport.Prelude.{
  ℕ, zero, suc, ◌+◌, ◌-◌, ◌^◌, false, ltb, ◌==◌, min, List, [], ◌∷◌, ◌++◌, if◌then◌else◌,
}
use roo_transport.Seq.{SeqNum, seq_add}
use roo_transport.Ring
use roo_transport.Protocol.{PacketType, format_packet_header}
use roo_transport.Io.{MemoryIo}
use roo_transport.Receiver.{Receiver, State, get_in_buffer, is_unset}

-- `while (idx >= 0 && in_ring_.contains(in_pos))`: the first argument is idx + 1.
unfoldable pub ack_bits : ℕ → Receiver → SeqNum → ℕ
unfolding get_in_buffer
ack_bits zero r in_pos = 0
ack_bits (suc idx) r in_pos =
    let rest = ack_bits idx r (seq_add in_pos 1) in
    if Ring.contains r.ring in_pos
    then (if is_unset (get_in_buffer r in_pos) then rest else 2 ^ idx + rest)
    else 0

-- `while (buf[len - 1] == 0) --len;`
unfoldable pub trim_zeros : List ℕ → List ℕ
trim_zeros [] = []
trim_zeros (x ∷ xs) = elim (trim_zeros xs) [
  | [] ↦ if x == 0 then [] else x ∷ []
  | y ∷ ys ↦ x ∷ y ∷ ys
]

module _ (io : MemoryIo) where
  open io use {store_be_u16, store_be_u64}

  -- `ack(buf)`: the packet, empty if none is to be sent, and the new state.
  unfoldable pub ack : Receiver → List ℕ × Receiver
  unfolding ack_bits trim_zeros
  ack r =
      let header =
        store_be_u16 (format_packet_header r.unack_seq PacketType.data_ack_packet r.control_bit) in
      let mask = ack_bits 64 r (seq_add r.unack_seq 1) in
      let packet : List ℕ × Receiver = (
        if mask == 0 then header else header ++ trim_zeros (store_be_u64 mask),
        record r { needs_ack = false },
      ) in
      elim r.state [
        | State.connected ↦ if r.needs_ack then packet else ([], r)
        | State.idle ↦ if r.needs_ack then packet else ([], r)
        | _ ↦ ([], r)
      ]

  -- `updateRecvHimark(buf, next_send_micros)` at the time `now`: the packet, the new
  -- `next_send_micros` and the new state.
  unfoldable pub update_recv_himark : Receiver → ℕ → ℕ → List ℕ × ℕ × Receiver
  update_recv_himark r next_send_micros now =
      let himark = seq_add r.ring.begin (Ring.capacity r.ring) in
      let send : List ℕ × ℕ × Receiver =
        if ltb now r.himark_expiration
        then ([], min next_send_micros (r.himark_expiration - now), r)
        else (
          store_be_u16 (format_packet_header himark PacketType.flow_control_packet r.control_bit),
          min next_send_micros 100000,
          record r { recv_himark = himark; himark_expiration = now + 100000 },
        ) in
      elim r.state [
        | State.connecting ↦ ([], next_send_micros, r)
        | State.idle ↦ ([], next_send_micros, r)
        | _ ↦ send
      ]

-- ===== src/Protocol/Laws.antt =====
-- Fields of a packet header come back as they were written.
use roo_transport.Prelude.{◌%◌, ◌<◌, ◌≡◌, Bool, true, false, arith}
use roo_transport.Seq.{SeqNum}
use roo_transport.Protocol.{
  PacketType, type_code, type_of_code, get_packet_control_bit, get_packet_type,
  format_packet_header, set_packet_header_type_fin, may_set_fin,
}

-- A type of the enumeration.
abbrev pub IsKnown : PacketType → Type 0
IsKnown (PacketType.other n) = ⊥
IsKnown _ = Unit

-- A header that was formatted for a type of the enumeration fits in 16 bits, and its control bit,
-- its type and its low twelve bits are those that were put in.
pub format_packet_header_fields :
    (seq : SeqNum) (t : PacketType) (c : Bool)
    → IsKnown t
    → let h = format_packet_header seq t c in
      (h < 65536)
      × (get_packet_control_bit h ≡ c)
      × (get_packet_type h ≡ t)
      × (h % 4096 ≡ seq % 4096)
unfolding format_packet_header get_packet_control_bit get_packet_type type_code type_of_code
format_packet_header_fields seq PacketType.data_packet true k = ground arith
format_packet_header_fields seq PacketType.data_packet false k = ground arith
format_packet_header_fields seq PacketType.fin_packet true k = ground arith
format_packet_header_fields seq PacketType.fin_packet false k = ground arith
format_packet_header_fields seq PacketType.data_ack_packet true k = ground arith
format_packet_header_fields seq PacketType.data_ack_packet false k = ground arith
format_packet_header_fields seq PacketType.handshake_packet true k = ground arith
format_packet_header_fields seq PacketType.handshake_packet false k = ground arith
format_packet_header_fields seq PacketType.flow_control_packet true k = ground arith
format_packet_header_fields seq PacketType.flow_control_packet false k = ground arith
format_packet_header_fields seq (PacketType.other n) c k = absurd k

-- The header of a data packet passes the check before it is made final, and becomes that of a final
-- data packet with the same number and control bit; the header of a final data packet does not pass
-- the check, although its message allows it.
pub set_packet_header_type_fin_lem :
    (seq : SeqNum) (c : Bool)
    → let d = format_packet_header seq PacketType.data_packet c in
      let f = format_packet_header seq PacketType.fin_packet c in
      (may_set_fin d ≡ true) × (set_packet_header_type_fin d ≡ f) × (may_set_fin f ≡ false)
unfolding format_packet_header set_packet_header_type_fin type_code may_set_fin
set_packet_header_type_fin_lem seq true = ground arith
set_packet_header_type_fin_lem seq false = ground arith

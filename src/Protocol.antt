-- ===== src/Protocol.antt =====
-- roo_transport/link/internal/protocol.h: the 16-bit packet header. Bit fields are written with
-- quotients and remainders by powers of two: `x & 0x0FFF` is `x % 4096`, `x >> 12` is `x / 4096`,
-- and an `|` of fields that share no bit is their sum.
pub mod Laws
use roo_transport.Prelude.{ℕ, ◌+◌, ◌*◌, ◌/◌, ◌%◌, Bool, leb, ◌==◌, if◌then◌else◌, not}
use roo_transport.Seq.{SeqNum}

-- `PacketType`. The type field has three bits: what is not in the enumeration is `other`.
pub data PacketType : Type 0 where
  data_packet fin_packet data_ack_packet handshake_packet flow_control_packet : PacketType
  other : ℕ → PacketType

unfoldable pub type_code : PacketType → ℕ
type_code PacketType.data_packet = 0
type_code PacketType.fin_packet = 1
type_code PacketType.data_ack_packet = 2
type_code PacketType.handshake_packet = 3
type_code PacketType.flow_control_packet = 4
type_code (PacketType.other n) = n

unfoldable pub type_of_code : ℕ → PacketType
type_of_code n =
    if n == 0
    then PacketType.data_packet
    else if n == 1
    then PacketType.fin_packet
    else if n == 2
    then PacketType.data_ack_packet
    else if n == 3
    then PacketType.handshake_packet
    else if n == 4
    then PacketType.flow_control_packet
    else PacketType.other n

-- `(header & 0x8000) != 0`
unfoldable pub get_packet_control_bit : ℕ → Bool
get_packet_control_bit header = not (header / 32768 % 2 == 0)

-- `(header & 0x7FFF) >> 12`
unfoldable pub get_packet_type : ℕ → PacketType
get_packet_type header = type_of_code (header % 32768 / 4096)

unfoldable pub format_packet_header : SeqNum → PacketType → Bool → ℕ
format_packet_header seq type control_bit =
    seq % 4096 + type_code type * 4096 + (if control_bit then 32768 else 0)

-- The test of the DCHECK in `SetPacketHeaderTypeFin`: `(header & 0x7000) <= 1`.
unfoldable pub may_set_fin : ℕ → Bool
may_set_fin header = leb (header / 4096 % 8 * 4096) 1

-- `header |= 0x1000`, once the DCHECK has passed; like all DCHECKs it is only in debug builds.
unfoldable pub set_packet_header_type_fin : ℕ → ℕ
set_packet_header_type_fin header = if header / 4096 % 2 == 1 then header else header + 4096

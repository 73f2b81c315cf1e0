-- ===== src/Channel/Dispatch/Laws.antt =====
-- Packets on the wire: what one end writes, the other end reads.
use roo_transport.Prelude.{
  ℕ, suc, ◌+◌, ◌-◌, ◌/◌, ◌%◌, ◌^◌, ◌≤◌, ◌<◌, ◌≡◌, refl, sym, ap, ◌∙◌, Bool, true, false, ltb, ◌==◌,
  ◌||◌, List, [], ◌∷◌, ◌++◌, length, drop, get_or, if◌then◌else◌, length-append, drop-append_ge,
  drop-drop, arith,
}
use roo_transport.Seq.{SeqNum}
use roo_transport.Io.{MemoryIo}
use roo_transport.Ring
use roo_transport.Ring.{max_link_buffer_size_log2}
use roo_transport.Protocol.{PacketType, format_packet_header, get_packet_type}
use roo_transport.Protocol.Laws.{format_packet_header_fields}
use roo_transport.OutBuffer.{OutBuffer}
use roo_transport.Channel.{Channel}
use roo_transport.Channel.Handshake.{Handshake, handle_handshake_packet, handshake_bytes}
use roo_transport.Channel.Dispatch.{
  packet_bytes, max_packet_size, packet_received, receive_data, receive_handshake,
}

drop-front : (n : ℕ) (xs ys : List ℕ) → length xs ≡ n → drop n (xs ++ ys) ≡ ys
drop-front n xs ys e =
    let none_left : n - length xs ≡ 0 = omega arith in
    drop-append_ge n xs ys (omega arith) ∙ ap (λ k. drop k ys) none_left

get_or-front :
    (xs ys : List ℕ) (n i : ℕ) → length xs ≡ n → get_or (xs ++ ys) (n + i) 0 ≡ get_or ys i 0
get_or-front [] ys n i e = let k_eq : n + i ≡ i = omega arith in ap (λ k. get_or ys k 0) k_eq
get_or-front (x ∷ xs) ys n i e =
    let k_eq : n + i ≡ suc (length xs + i) = omega arith in
    ap (λ k. get_or (x ∷ xs ++ ys) k 0) k_eq ∙ get_or-front xs ys (length xs) i refl

module _ (io : MemoryIo) (c : Channel) (seq : SeqNum) (control_bit : Bool) (payload : List ℕ)
    (small : length payload ≤ 248) where
  abbrev header : ℕ
  header = format_packet_header seq PacketType.data_packet control_bit

  abbrev packet : List ℕ
  packet = io.store_be_u16 header ++ payload

  packet-length : length packet ≡ 2 + length payload
  packet-length =
      omega (arith, length-append (io.store_be_u16 header) payload, io.length_u16 header)

  length_ok : (ltb (length packet) 2 || ltb max_packet_size (length packet)) ≡ false
  length_ok = rw packet-length (ground arith)

  pub packet_received-packet :
      0 < length payload
      → packet_received io c packet ≡ receive_data c control_bit (seq % 4096) payload false
  unfolding packet_received
  packet_received-packet some_ =
      let f = format_packet_header_fields seq PacketType.data_packet control_bit tt in
      rw (
        packet_received,
        length_ok,
        io.load_u16 header payload f.0,
        f.2,
        io.load_u16 header payload f.0,
        f.1,
        f.3,
        drop-front 2 (io.store_be_u16 header) payload (io.length_u16 header),
      )

module _ (io : MemoryIo) (c peer : Channel) (we_need_ack : Bool) (id_lt : c.my_stream_id < 2 ^ 32)
    (peer_id_lt : c.peer_stream_id < 2 ^ 32) (small : c.receiver.ring.capacity_log2 ≤ 10) where
  abbrev number : ℕ
  number = format_packet_header c.transmitter.ring.begin PacketType.handshake_packet false

  abbrev last : ℕ
  last = (if we_need_ack then 128 else 0) + c.receiver.ring.capacity_log2

  -- The parts of the packet from an offset on.
  abbrev from10 : List ℕ
  from10 = last ∷ []

  abbrev from6 : List ℕ
  from6 = io.store_be_u32 c.peer_stream_id ++ from10

  abbrev from2 : List ℕ
  from2 = io.store_be_u32 c.my_stream_id ++ from6

  bytes : List ℕ
  bytes = io.store_be_u16 number ++ from2

  bytes_eq : handshake_bytes io c we_need_ack ≡ io.store_be_u16 number ++ from2
  unfolding handshake_bytes bytes
  bytes_eq = refl

  fields :
      (number < 2 ^ 16)
      × (get_packet_type number ≡ PacketType.handshake_packet)
      × (number % 4096 ≡ c.transmitter.ring.begin % 4096)
  fields =
      let f =
        format_packet_header_fields c.transmitter.ring.begin PacketType.handshake_packet false tt in
      (f.0, f.2, f.3)

  bytes-length : length bytes ≡ 11
  unfolding bytes
  bytes-length = omega (
    arith,
    length-append (io.store_be_u16 number) from2,
    length-append (io.store_be_u32 c.my_stream_id) from6,
    length-append (io.store_be_u32 c.peer_stream_id) from10,
    io.length_u16 number,
    io.length_u32 c.my_stream_id,
    io.length_u32 c.peer_stream_id,
  )

  load_number : io.load_be_u16 bytes ≡ number
  unfolding bytes
  load_number = io.load_u16 number from2 fields.0

  drop_2 : drop 2 bytes ≡ from2
  unfolding bytes
  drop_2 = drop-front 2 (io.store_be_u16 number) from2 (io.length_u16 number)

  drop_6 : drop 6 bytes ≡ from6
  drop_6 =
      sym (drop-drop 2 4 bytes)
      ∙ ap (drop 4) drop_2
      ∙ drop-front 4 (io.store_be_u32 c.my_stream_id) from6 (io.length_u32 c.my_stream_id)

  at_10 : get_or bytes 10 0 ≡ last
  unfolding bytes
  at_10 =
      get_or-front (io.store_be_u16 number) from2 2 8 (io.length_u16 number)
      ∙ get_or-front (io.store_be_u32 c.my_stream_id) from6 4 4 (io.length_u32 c.my_stream_id)
      ∙ get_or-front (io.store_be_u32 c.peer_stream_id) from10 4 0 (io.length_u32 c.peer_stream_id)

  last_fields :
      ((last / 16 % 8 == 0) ≡ true)
      × (last % 16 ≡ c.receiver.ring.capacity_log2)
      × ((last / 128 % 2 == 1) ≡ we_need_ack)
      × (ltb max_link_buffer_size_log2 c.receiver.ring.capacity_log2 ≡ false)
  last_fields = ground arith

  -- What the packet says.
  abbrev pub said : Handshake
  said = record {
    peer_seq_num = c.transmitter.ring.begin % 4096;
    peer_stream_id = c.my_stream_id;
    ack_stream_id = c.peer_stream_id;
    want_ack = we_need_ack;
    peer_receive_buffer_size = Ring.capacity c.receiver.ring;
  }

  packet_received-bytes :
      packet_received io peer bytes
      ≡ receive_handshake io peer (c.transmitter.ring.begin % 4096) bytes
  unfolding packet_received
  packet_received-bytes =
      rw (packet_received, bytes-length, load_number, fields.1, bytes-length, load_number, fields.2)

  receive_handshake-bytes :
      receive_handshake io peer (c.transmitter.ring.begin % 4096) bytes
      ≡ handle_handshake_packet peer said
  unfolding receive_handshake
  receive_handshake-bytes = rw (
    receive_handshake,
    at_10,
    last_fields.0,
    last_fields.1,
    last_fields.3,
    last_fields.2,
    drop_2,
    drop_6,
    io.load_u32 c.my_stream_id from6 id_lt,
    io.load_u32 c.peer_stream_id from10 peer_id_lt,
  )

-- The handshake packet of one end, received by another, is handled as the handshake that says the
-- sender's first number, its stream, the stream it acknowledges, whether it wants an answer, and
-- its buffer size. The streams are 32-bit numbers and the buffer has at most 2^10 slots.
pub packet_received-handshake_bytes :
    (io : MemoryIo) (c peer : Channel) (we_need_ack : Bool)
    → c.my_stream_id < 2 ^ 32
    → c.peer_stream_id < 2 ^ 32
    → c.receiver.ring.capacity_log2 ≤ 10
    → packet_received io peer (handshake_bytes io c we_need_ack)
      ≡ handle_handshake_packet peer (record {
        peer_seq_num = c.transmitter.ring.begin % 4096;
        peer_stream_id = c.my_stream_id;
        ack_stream_id = c.peer_stream_id;
        want_ack = we_need_ack;
        peer_receive_buffer_size = Ring.capacity c.receiver.ring;
      })
unfolding bytes
packet_received-handshake_bytes io c peer we_need_ack p q r =
    ap (packet_received io peer) (bytes_eq io c peer we_need_ack p q r)
    ∙ packet_received-bytes io c peer we_need_ack p q r
    ∙ receive_handshake-bytes io c peer we_need_ack p q r

-- A data packet as the transmitter builds it, received by another end, is handled as the data
-- packet with its control bit, the low bits of its number and its payload. The payload is not empty
-- and has at most 248 bytes.
pub packet_received-packet_bytes :
    (io : MemoryIo) (c : Channel) (b : OutBuffer) (seq : SeqNum) (control_bit : Bool)
    → b.header ≡ format_packet_header seq PacketType.data_packet control_bit
    → 0 < length b.payload
    → length b.payload ≤ 248
    → packet_received io c (packet_bytes io b)
      ≡ receive_data c control_bit (seq % 4096) b.payload false
packet_received-packet_bytes io c b seq control_bit e some_ small =
    ap (λ h. packet_received io c (io.store_be_u16 h ++ b.payload)) e
    ∙ packet_received-packet io c seq control_bit b.payload small some_

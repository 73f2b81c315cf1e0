-- ===== src/Tests/RingTests.antt =====
-- Sequence numbers, windows, headers and retry delays at concrete inputs.
use roo_transport.Prelude.{
  ℕ, ◌+◌, ◌-◌, ◌/◌, ◌%◌, ◌≤◌, ◌<◌, ◌≡◌, refl, true, false, ◌*◌, ltb, leb, arith,
}
use roo_transport.Seq.{sub16, seq_lt, seq_le, seq_gt, seq_ge, seq_add}
use roo_transport.Seq.Order.{seq_order}
use roo_transport.Ring.{RingBuffer, slots_used, contains, restore_pos_high_bits}
use roo_transport.Ring.Window.{IsValid, contains-distance}
use roo_transport.Ring.Slots.{offset_for-injective}
use roo_transport.Ring.Restore.{restore_pos_high_bits_lem}
use roo_transport.Protocol.{
  PacketType, get_packet_control_bit, get_packet_type, format_packet_header,
  set_packet_header_type_fin, may_set_fin,
}
use roo_transport.Protocol.Laws.{format_packet_header_fields, set_packet_header_type_fin_lem}
use roo_transport.Backoff.{grow, retry_backoff_micros}
use roo_transport.Backoff.Bounds.{base_of, retry_backoff_micros_bounds, grow_saturates}

-- Four slots in use of eight, across the wrap at 2^16.
abbrev wrapped : RingBuffer
wrapped = record { capacity_log2 = 3; begin = 65534; end = 2 }

wrapped-IsValid : IsValid wrapped
unfolding slots_used sub16
wrapped-IsValid = omega arith

seq_order_example :
    (seq_lt (seq_add 65530 3) (seq_add 65530 20) ≡ ltb 3 20)
    × (seq_le (seq_add 65530 3) (seq_add 65530 20) ≡ leb 3 20)
    × (seq_gt (seq_add 65530 3) (seq_add 65530 20) ≡ ltb 20 3)
    × (seq_ge (seq_add 65530 3) (seq_add 65530 20) ≡ leb 20 3)
seq_order_example = seq_order 65530 3 20 (omega arith) (omega arith)

contains-distance_example : contains wrapped 1 ≡ ltb (sub16 1 65534) (slots_used wrapped)
unfolding sub16
contains-distance_example =
    contains-distance {r = wrapped} 1 wrapped-IsValid (omega arith) (omega arith)

offset_for-injective_example : ◌≡◌ {A = ℕ} 65535 65535
unfolding sub16
offset_for-injective_example =
    offset_for-injective {r = wrapped} 65535 65535 wrapped-IsValid (omega arith) (omega arith)
      (omega arith) (omega arith) refl

restore_pos_high_bits_example : restore_pos_high_bits wrapped (1 % 4096) 12 ≡ 1
unfolding sub16 seq_add
restore_pos_high_bits_example =
    restore_pos_high_bits_lem wrapped 1 (omega arith) (omega arith) (omega arith)

format_packet_header_example :
    let h = format_packet_header 0x1234 PacketType.data_ack_packet true in
    (h < 65536)
    × (get_packet_control_bit h ≡ true)
    × (get_packet_type h ≡ PacketType.data_ack_packet)
    × (h % 4096 ≡ 0x1234 % 4096)
format_packet_header_example = format_packet_header_fields 0x1234 PacketType.data_ack_packet true tt

set_packet_header_type_fin_example :
    let d = format_packet_header 7 PacketType.data_packet true in
    let f = format_packet_header 7 PacketType.fin_packet true in
    (may_set_fin d ≡ true) × (set_packet_header_type_fin d ≡ f) × (may_set_fin f ≡ false)
set_packet_header_type_fin_example = set_packet_header_type_fin_lem 7 true

retry_backoff_micros_example :
    let base = base_of 3 200000 5000 in
    let delay = retry_backoff_micros 4294967295 5000 200000 3 123456789 in
    (delay ≡ base - base / 5 + 123456789 * 8192 / (4294967295 + 1) * (2 * (base / 5)) / 8192)
    × (5000 ≤ base)
    × (base ≤ 200000)
    × (base - base / 5 ≤ delay)
    × (delay ≤ base + base / 5)
retry_backoff_micros_example =
    retry_backoff_micros_bounds 4294967295 5000 200000 3 123456789 (omega arith) (omega arith)
      (omega arith) (omega arith)

grow_saturates_example : grow 40 1000000 1000 ≡ 1000000
grow_saturates_example =
    grow_saturates 40 1000000 1000 (omega arith) (omega arith) (omega arith) (omega arith)

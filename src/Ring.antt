-- ===== src/Ring.antt =====
-- roo_transport/link/internal/ring_buffer.h: a window of sequence numbers over 2^n slots.
pub mod Window
pub mod Slots
pub mod Restore
use roo_transport.Prelude.{
  ℕ, ◌+◌, ◌-◌, ◌%◌, ◌^◌, Bool, ltb, leb, ◌==◌, ◌&&◌, Option, none, some, check, ◌>>=◌, ◌>>◌,
}
use roo_transport.Seq.{SeqNum, sub16, seq_lt, seq_le, seq_add}

-- The storage is owned by the users of the window; `begin` and `end` are below 65536.
pub record RingBuffer : Type 0 where
  pub capacity_log2 : ℕ
  pub begin : SeqNum
  pub end : SeqNum

-- `kMaxLinkBufferSizeLog2`
abbrev pub max_link_buffer_size_log2 : ℕ
max_link_buffer_size_log2 = 10

unfoldable pub new_ring : ℕ → SeqNum → Option RingBuffer
new_ring n seq = do
  check (leb n max_link_buffer_size_log2)
  some (record { capacity_log2 = n; begin = seq; end = seq })

abbrev pub capacity : RingBuffer → ℕ
capacity r = 2 ^ r.capacity_log2

unfoldable pub slots_used : RingBuffer → ℕ
slots_used r = sub16 r.end r.begin

-- A uint16_t difference, which wraps.
unfoldable pub slots_free : RingBuffer → ℕ
slots_free r = sub16 (capacity r) (slots_used r)

unfoldable pub is_empty : RingBuffer → Bool
is_empty r = slots_used r == 0

-- `push()` and `pop()` return the number beside the new window; a failed CHECK is `none`.
unfoldable pub push : RingBuffer → Option (SeqNum × RingBuffer)
push r = do check (ltb 0 (slots_free r)); some (r.end, record r { end = seq_add r.end 1 })

unfoldable pub pop : RingBuffer → Option (SeqNum × RingBuffer)
pop r = do check (ltb 0 (slots_used r)); some (r.begin, record r { begin = seq_add r.begin 1 })

-- `reset(seq)`
unfoldable pub reset : RingBuffer → SeqNum → Option RingBuffer
reset r seq = do check (r.begin == r.end); some (record r { begin = seq; end = seq })

unfoldable pub contains : RingBuffer → SeqNum → Bool
contains r seq = seq_le r.begin seq && seq_lt seq r.end

-- `seq.raw() & (capacity() - 1)`: the capacity is a power of two.
unfoldable pub offset_for : RingBuffer → SeqNum → ℕ
offset_for r seq = seq % capacity r

unfoldable pub restore_pos_high_bits : RingBuffer → ℕ → ℕ → SeqNum
restore_pos_high_bits r truncated_pos pos_bits =
    let left = sub16 r.begin (2 ^ (pos_bits - 1)) in
    seq_add left (sub16 truncated_pos left % 2 ^ pos_bits)

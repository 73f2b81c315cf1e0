-- ===== src/Seq.antt =====
-- roo_transport/link/internal/seq_num.h: sequence numbers that wrap at 2^16.
pub mod Order
use roo_transport.Prelude.{ℕ, ◌+◌, ◌-◌, ◌%◌, Bool, ltb, leb, ◌==◌, ◌||◌, ◌&&◌}

-- `SeqNum`: the raw 16-bit value, a number below 65536.
abbrev pub SeqNum : Type 0
SeqNum = ℕ

-- `(uint16_t)(a - b)`. Read as an int16_t it is negative from 32768 on.
unfoldable pub sub16 : SeqNum → SeqNum → ℕ
sub16 a b = (a + 65536 - b % 65536) % 65536

-- `a < b`, `a <= b`, `a > b`, `a >= b`: the sign of the wrapped difference.
unfoldable pub seq_lt : SeqNum → SeqNum → Bool
seq_lt a b = leb 32768 (sub16 a b)

unfoldable pub seq_le : SeqNum → SeqNum → Bool
seq_le a b = leb 32768 (sub16 a b) || sub16 a b == 0

unfoldable pub seq_gt : SeqNum → SeqNum → Bool
seq_gt a b = ltb 0 (sub16 a b) && ltb (sub16 a b) 32768

unfoldable pub seq_ge : SeqNum → SeqNum → Bool
seq_ge a b = ltb (sub16 a b) 32768

-- `seq + n` and `++seq`
unfoldable pub seq_add : SeqNum → ℕ → SeqNum
seq_add a n = (a + n) % 65536

-- `seq - n` for a small int n
unfoldable pub seq_sub : SeqNum → ℕ → SeqNum
seq_sub a n = sub16 a n

-- ===== src/Seq/Order.antt =====
-- The order on wrapped sequence numbers agrees with positions counted from a common origin.
use roo_transport.Prelude.{ℕ, ◌+◌, ◌<◌, ◌≡◌, ltb, leb, arith}
use roo_transport.Seq.{SeqNum, sub16, seq_lt, seq_le, seq_gt, seq_ge, seq_add}

pub sub16-lt : (a b : SeqNum) → sub16 a b < 65536
unfolding sub16
sub16-lt a b = omega arith

-- Distances from an origin.
pub sub16-seq_add : (a k : ℕ) → k < 65536 → sub16 (seq_add a k) a ≡ k
unfolding sub16 seq_add
sub16-seq_add a k h = omega arith

-- Seen from any origin, two positions less than 2^15 apart compare by their distances.
pub seq_order :
    (o j k : ℕ)
    → j < 32768
    → k < 32768
    → (seq_lt (seq_add o j) (seq_add o k) ≡ ltb j k)
      × (seq_le (seq_add o j) (seq_add o k) ≡ leb j k)
      × (seq_gt (seq_add o j) (seq_add o k) ≡ ltb k j)
      × (seq_ge (seq_add o j) (seq_add o k) ≡ leb k j)
unfolding sub16 seq_lt seq_le seq_gt seq_ge seq_add
seq_order o j k hj hk = ground arith

pub seq_add-lt : (a n : ℕ) → seq_add a n < 65536
unfolding seq_add
seq_add-lt a n = omega arith

pub seq_add-seq_add : (a j k : ℕ) → seq_add (seq_add a j) k ≡ seq_add a (j + k)
unfolding seq_add
seq_add-seq_add a j k = omega arith

pub seq_add-zero : (a : ℕ) → a < 65536 → seq_add a 0 ≡ a
unfolding seq_add
seq_add-zero a h = omega arith

-- A number is its origin advanced by its distance.
pub seq_add-sub16 : (a b : ℕ) → a < 65536 → seq_add b (sub16 a b) ≡ a
unfolding seq_add sub16
seq_add-sub16 a b h = omega arith

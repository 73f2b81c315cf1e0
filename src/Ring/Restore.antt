-- ===== src/Ring/Restore.antt =====
-- Twelve bits on the wire are enough near the window.
use roo_transport.Prelude.{◌≤◌, ◌⊎◌, ℕ, ◌%◌, ◌<◌, ◌≡◌, arith}
use roo_transport.Seq.{SeqNum, sub16, seq_add}
use roo_transport.Ring.{RingBuffer, restore_pos_high_bits}

-- Of a position from 2048 before to 2047 after the start of the window, the low twelve bits restore
-- the whole position.
pub restore_pos_high_bits_lem :
    (r : RingBuffer) (seq : SeqNum)
    → r.begin < 65536
    → seq < 65536
    → sub16 (seq_add seq 2048) r.begin < 4096
    → restore_pos_high_bits r (seq % 4096) 12 ≡ seq
unfolding restore_pos_high_bits sub16 seq_add
restore_pos_high_bits_lem r seq hb hs h = omega arith

-- Whatever arrives, the restored position is within 2048 of the start of the window, and its low
-- twelve bits are those that arrived.
pub restore_near :
    (r : RingBuffer) (p : ℕ)
    → r.begin < 65536
    → p < 4096
    → let seq = restore_pos_high_bits r p 12 in
      (seq < 65536) × (sub16 (seq_add seq 2048) r.begin < 4096) × (seq % 4096 ≡ p)
unfolding restore_pos_high_bits sub16 seq_add
restore_near r p hb hp = omega arith

-- So its distance from the start of the window is small, forwards or backwards.
pub restore_distance :
    (r : RingBuffer) (p : ℕ)
    → r.begin < 65536
    → let d = sub16 (restore_pos_high_bits r p 12) r.begin in (d < 2048) ⊎ (63488 ≤ d)
unfolding restore_pos_high_bits sub16 seq_add
restore_distance r p hb = omega arith

pub restore-lt : (r : RingBuffer) (p : ℕ) → restore_pos_high_bits r p 12 < 65536
unfolding restore_pos_high_bits seq_add
restore-lt r p = omega arith

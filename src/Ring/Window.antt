-- ===== src/Ring/Window.antt =====
-- The window as a number of used slots counted from its start.
use roo_transport.Prelude.{ℕ, zero, suc, ◌+◌, ◌-◌, ◌^◌, ◌≤◌, ◌<◌, ◌≡◌, ◌≢◌, ltb, some, arith}
use roo_transport.Seq.{SeqNum, sub16, seq_lt, seq_le, seq_add}
use roo_transport.Ring.{RingBuffer, capacity, slots_used, slots_free, push, pop, contains}

-- A size that the constructor accepts, 16-bit ends, and no more slots used than there are.
pub record IsValid (r : RingBuffer) : Type 0 where
  pub small : r.capacity_log2 ≤ 10
  pub begin_lt : r.begin < 65536
  pub end_lt : r.end < 65536
  pub fits : slots_used r ≤ capacity r

pow-le : (n : ℕ) → n ≤ 10 → 2 ^ n ≤ 1024
pow-le zero h = omega arith
pow-le (suc zero) h = omega arith
pow-le (suc (suc zero)) h = omega arith
pow-le (suc (suc (suc zero))) h = omega arith
pow-le (suc (suc (suc (suc zero)))) h = omega arith
pow-le (suc (suc (suc (suc (suc zero))))) h = omega arith
pow-le (suc (suc (suc (suc (suc (suc zero)))))) h = omega arith
pow-le (suc (suc (suc (suc (suc (suc (suc zero))))))) h = omega arith
pow-le (suc (suc (suc (suc (suc (suc (suc (suc zero)))))))) h = omega arith
pow-le (suc (suc (suc (suc (suc (suc (suc (suc (suc zero))))))))) h = omega arith
pow-le (suc (suc (suc (suc (suc (suc (suc (suc (suc (suc zero)))))))))) h = omega arith
pow-le (suc (suc (suc (suc (suc (suc (suc (suc (suc (suc (suc n))))))))))) h = absurd (omega arith)

pub capacity-le : {r : RingBuffer} → IsValid r → capacity r ≤ 1024
capacity-le {r} v = pow-le r.capacity_log2 v.small

pub used-le : {r : RingBuffer} → IsValid r → slots_used r ≤ 1024
used-le v = omega (arith, capacity-le v)

-- The used and the free slots make up the capacity.
pub free-used : {r : RingBuffer} → IsValid r → slots_free r + slots_used r ≡ capacity r
unfolding slots_free sub16
free-used {r} v = omega (arith, capacity-le v)

pub push-some :
    {r : RingBuffer}
    → IsValid r
    → slots_used r < capacity r
    → push r ≡ some (r.end, record r { end = seq_add r.end 1 })
unfolding push
push-some {r} v h = ground (arith, free-used v)

pub pop-some :
    {r : RingBuffer}
    → 0 < slots_used r
    → pop r ≡ some (r.begin, record r { begin = seq_add r.begin 1 })
unfolding pop
pop-some h = ground arith

pub used-push :
    {r : RingBuffer}
    → IsValid r
    → slots_used (record r { end = seq_add r.end 1 }) ≡ slots_used r + 1
unfolding slots_used sub16 seq_add
used-push {r} v = omega (arith, used-le v)

pub used-pop :
    {r : RingBuffer}
    → IsValid r
    → 0 < slots_used r
    → slots_used (record r { begin = seq_add r.begin 1 }) ≡ slots_used r - 1
unfolding slots_used sub16 seq_add
used-pop {r} v h = omega (arith, used-le v)

seq_add-lt : (a n : ℕ) → seq_add a n < 65536
unfolding seq_add
seq_add-lt a n = omega arith

-- Pushing succeeds exactly if a slot is free, and keeps the window valid.
pub push-IsValid :
    {r : RingBuffer}
    → IsValid r
    → slots_used r < capacity r
    → IsValid (record r { end = seq_add r.end 1 })
push-IsValid {r} v h = record {
  small = v.small;
  begin_lt = v.begin_lt;
  end_lt = seq_add-lt r.end 1;
  fits = omega (arith, used-push v);
}

pub pop-IsValid :
    {r : RingBuffer}
    → IsValid r
    → 0 < slots_used r
    → IsValid (record r { begin = seq_add r.begin 1 })
pop-IsValid {r} v h = record {
  small = v.small;
  begin_lt = seq_add-lt r.begin 1;
  end_lt = v.end_lt;
  fits = omega (arith, used-pop v h);
}

pub used-reset :
    (n : ℕ) (s : SeqNum) → slots_used (record { capacity_log2 = n; begin = s; end = s }) ≡ 0
unfolding slots_used sub16
used-reset n s = omega arith

pub reset-IsValid :
    (n : ℕ) (s : SeqNum)
    → n ≤ 10
    → s < 65536
    → IsValid (record { capacity_log2 = n; begin = s; end = s })
reset-IsValid n s h hs = record {
  small = h;
  begin_lt = hs;
  end_lt = hs;
  fits = omega (arith, used-reset n s);
}

-- `contains` is membership in the used slots: a number at distance d from the start is in the
-- window exactly if d is below the number of used slots. (At distance 2^15 the signed difference
-- is its own negative, and the test is not used there.)
pub contains-distance :
    {r : RingBuffer} (seq : SeqNum)
    → IsValid r
    → seq < 65536
    → sub16 seq r.begin ≢ 32768
    → contains r seq ≡ ltb (sub16 seq r.begin) (slots_used r)
unfolding contains seq_le seq_lt sub16 slots_used
contains-distance {r} seq v hs ne = ground (arith, used-le v)

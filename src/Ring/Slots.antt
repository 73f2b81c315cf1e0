-- ===== src/Ring/Slots.antt =====
-- Storage slots: two positions of one window never share a slot.
use roo_transport.Prelude.{ℕ, zero, suc, ◌%◌, ◌^◌, ◌≤◌, ◌<◌, ◌≡◌, ◌≢◌, sym, ap, ◌∙◌, arith}
use roo_transport.Seq.{SeqNum, sub16, seq_add}
use roo_transport.Seq.Order.{sub16-seq_add, seq_add-lt}
use roo_transport.Ring.{RingBuffer, capacity, offset_for}
use roo_transport.Ring.Window.{IsValid}

slot_inj :
    (n b x y : ℕ)
    → n ≤ 10
    → b < 65536
    → x < 65536
    → y < 65536
    → sub16 x b < 2 ^ n
    → sub16 y b < 2 ^ n
    → x % 2 ^ n ≡ y % 2 ^ n
    → x ≡ y
unfolding sub16
slot_inj zero b x y h hb hx hy p q e = omega arith
slot_inj (suc zero) b x y h hb hx hy p q e = omega arith
slot_inj (suc (suc zero)) b x y h hb hx hy p q e = omega arith
slot_inj (suc (suc (suc zero))) b x y h hb hx hy p q e = omega arith
slot_inj (suc (suc (suc (suc zero)))) b x y h hb hx hy p q e = omega arith
slot_inj (suc (suc (suc (suc (suc zero))))) b x y h hb hx hy p q e = omega arith
slot_inj (suc (suc (suc (suc (suc (suc zero)))))) b x y h hb hx hy p q e = omega arith
slot_inj (suc (suc (suc (suc (suc (suc (suc zero))))))) b x y h hb hx hy p q e = omega arith
slot_inj (suc (suc (suc (suc (suc (suc (suc (suc zero)))))))) b x y h hb hx hy p q e = omega arith
slot_inj (suc (suc (suc (suc (suc (suc (suc (suc (suc zero))))))))) b x y h hb hx hy p q e =
    omega arith
slot_inj (suc (suc (suc (suc (suc (suc (suc (suc (suc (suc zero)))))))))) b x y h hb hx hy p q e =
    omega arith
slot_inj (suc (suc (suc (suc (suc (suc (suc (suc (suc (suc (suc n))))))))))) b x y h hb hx hy p q
      e =
    absurd (omega arith)

-- Of a valid window, numbers at distances below the capacity from its start that fall into one slot
-- are one number.
pub offset_for-injective :
    {r : RingBuffer} (x y : SeqNum)
    → IsValid r
    → x < 65536
    → y < 65536
    → sub16 x r.begin < capacity r
    → sub16 y r.begin < capacity r
    → offset_for r x ≡ offset_for r y
    → x ≡ y
unfolding offset_for
offset_for-injective {r} x y v hx hy p q e =
    slot_inj r.capacity_log2 r.begin x y v.small v.begin_lt hx hy p q e

-- Two positions of one window are in different slots.
pub other_slot :
    (lg b j k : ℕ)
    → lg ≤ 10
    → b < 65536
    → j < 2 ^ lg
    → k < 2 ^ lg
    → 2 ^ lg ≤ 1024
    → j ≢ k
    → seq_add b j % 2 ^ lg ≢ seq_add b k % 2 ^ lg
other_slot lg b j k h hb hj hk small ne e = ne (
    sym (sub16-seq_add b j (omega arith))
    ∙ ap (λ x. sub16 x b)
        (slot_inj lg b (seq_add b j) (seq_add b k) h hb (seq_add-lt b j) (seq_add-lt b k)
          (omega (arith, sub16-seq_add b j (omega arith)))
          (omega (arith, sub16-seq_add b k (omega arith))) e)
    ∙ sub16-seq_add b k (omega arith))

-- ===== src/Receiver/Shift.antt =====
-- What reading does to the window: slots leave it at the front, the others stay as they are.
use roo_transport.Prelude.{ℕ, ◌+◌, ◌-◌, ◌<◌, ◌≡◌, ◌≢◌, sym, ap, ◌∙◌, false, arith}
use native.Mathlib.Decide.{dec_lt}
use roo_transport.Seq.{seq_add}
use roo_transport.Seq.Order.{seq_add-zero, seq_add-seq_add}
use roo_transport.Ring.{RingBuffer, slots_used}
use roo_transport.InBuffer.{InBuffer, ContentType}
use roo_transport.Receiver.{Receiver, State}
use roo_transport.Receiver.Stream.{at}
use roo_transport.Receiver.Inv.{nth}

-- `gone` slots left, filled ones, and the connection is as it was.
pub record Shifts (r r' : Receiver) : Type 0 where
  pub gone : ℕ
  pub begin_eq : r'.ring.begin ≡ seq_add r.ring.begin gone
  pub lg_eq : r'.ring.capacity_log2 ≡ r.ring.capacity_log2
  pub used_eq : slots_used r'.ring + gone ≡ slots_used r.ring
  pub filled : (k : ℕ) → k < gone → (nth r k).type ≢ ContentType.unset
  pub old : (k : ℕ) → k < slots_used r'.ring → nth r' k ≡ nth r (k + gone)
  pub closed_eq : r.self_closed ≡ false → r'.self_closed ≡ false
  pub state_eq : r.state ≡ State.connected → r'.state ≡ State.connected

add_zero : (k : ℕ) → k ≡ k + 0
add_zero k = omega arith

-- The window stays.
pub same_window :
    (r r' : Receiver)
    → r.ring.begin < 65536
    → r'.ring ≡ r.ring
    → r'.in_buffers ≡ r.in_buffers
    → (r.self_closed ≡ false → r'.self_closed ≡ false)
    → (r.state ≡ State.connected → r'.state ≡ State.connected)
    → Shifts r r'
same_window r r' lt ring bufs closed state = record {
  gone = 0;
  begin_eq = ap (λ (g : RingBuffer). g.begin) ring ∙ sym (seq_add-zero r.ring.begin lt);
  lg_eq = ap (λ (g : RingBuffer). g.capacity_log2) ring;
  used_eq = omega (arith, ap slots_used ring);
  filled = λ k p. absurd (omega arith);
  old = λ k p.
      ap (λ (g : RingBuffer). at g.capacity_log2 r'.in_buffers (seq_add g.begin k)) ring
      ∙ ap (λ bs. at r.ring.capacity_log2 bs (seq_add r.ring.begin k)) bufs
      ∙ ap (nth r) (add_zero k);
  closed_eq = closed;
  state_eq = state;
}

pub Shifts-trans : {a b c : Receiver} → Shifts a b → Shifts b c → Shifts a c
Shifts-trans {a} {b} {c} p q = record {
  gone = p.gone + q.gone;
  begin_eq =
      q.begin_eq
      ∙ ap (λ s. seq_add s q.gone) p.begin_eq
      ∙ seq_add-seq_add a.ring.begin p.gone q.gone;
  lg_eq = q.lg_eq ∙ p.lg_eq;
  used_eq = omega (arith, p.used_eq, q.used_eq);
  filled = λ k h. elim (dec_lt k p.gone) [
    | yes lt ↦ p.filled k lt
    | no ge ↦
        let k_eq : k - p.gone + p.gone ≡ k = omega arith in
        λ un. q.filled (k - p.gone) (omega arith) (
          ap (λ (b : InBuffer). b.type)
            (p.old (k - p.gone) (omega (arith, q.used_eq)) ∙ ap (nth a) k_eq)
          ∙ un)
  ];
  old = λ k h. q.old k h ∙ p.old (k + q.gone) (omega (arith, q.used_eq)) ∙ ap (nth a) (omega arith);
  closed_eq = λ e. q.closed_eq (p.closed_eq e);
  state_eq = λ e. q.state_eq (p.state_eq e);
}

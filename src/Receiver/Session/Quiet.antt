-- ===== src/Receiver/Session/Quiet.antt =====
-- Calls on a receiver that keep its window and what is pending: `peek`, `availableForRead`, `ack` and
-- `updateRecvHimark`.
use roo_transport.Prelude.{
  ℕ, ltb, ◌+◌, ◌≡◌, refl, sym, subst, Bool, false, Bool-cases, inl, inr, Option, none, some, arith,
}
use roo_transport.Io.{MemoryIo}
use roo_transport.Seq.{seq_add}
use roo_transport.Ring.{capacity}
use roo_transport.InBuffer.{ContentType}
use roo_transport.Receiver.{Receiver, State, slot}
use roo_transport.Receiver.Read.{open_buffer, peek, available_for_read}
use roo_transport.Receiver.Control.{ack, update_recv_himark}
use roo_transport.Receiver.Inv.{Inv, pending}
use roo_transport.Receiver.Shift.{Shifts, same_window}
use roo_transport.Receiver.ReadLaws.{Opened, open_buffer-Opened}

pub record Quiet (r u : Receiver) : Type 0 where
  pub inv : Inv u
  pub shifts : Shifts r u
  pub pending_eq : pending u ≡ pending r
  pub ring_eq : u.ring ≡ r.ring

Quiet-refl : (r : Receiver) → Inv r → Quiet r r
Quiet-refl r v = record {
  inv = v;
  shifts = same_window r r v.window.begin_lt refl refl (λ c. c) (λ s. s);
  pending_eq = refl;
  ring_eq = refl;
}

-- The place is opened for reading, or the window is empty.
abbrev after_open : Receiver → Option (ℕ × Receiver) → Receiver
after_open r none = r
after_open r (some (i, u)) = u

open-Quiet :
    (r : Receiver) (o : Option (ℕ × Receiver)) → Inv r → Opened r o → Quiet r (after_open r o)
open-Quiet r none v h = Quiet-refl r v
open-Quiet r (some (i, u)) v (inv, cur, same, ring, shifts) = record {
  inv = inv;
  shifts = shifts;
  pending_eq = same;
  ring_eq = ring;
}

peek-after :
    (r : Receiver) (o : Option (ℕ × Receiver)) → open_buffer r ≡ o → (peek r).1 ≡ after_open r o
unfolding peek
peek-after r none e = rw (peek, e) refl
peek-after r (some (i, u)) e = by_type (slot u i).type refl
  where
    by_type : (t : ContentType) → (slot u i).type ≡ t → (peek r).1 ≡ u
    by_type ContentType.unset q = rw (peek, e, q) refl
    by_type ContentType.content q = rw (peek, e, q) refl
    by_type ContentType.fin q = rw (peek, e, q) refl

available-after :
    (r : Receiver) (o : Option (ℕ × Receiver))
    → open_buffer r ≡ o
    → (available_for_read r).1 ≡ after_open r o
unfolding available_for_read
available-after r none e = rw (available_for_read, e) refl
available-after r (some (i, u)) e = by_type (slot u i).type refl
  where
    by_type : (t : ContentType) → (slot u i).type ≡ t → (available_for_read r).1 ≡ u
    by_type ContentType.unset q = rw (available_for_read, e, q) refl
    by_type ContentType.content q = rw (available_for_read, e, q) refl
    by_type ContentType.fin q = rw (available_for_read, e, q) refl

opened : (r : Receiver) → Inv r → Quiet r (after_open r (open_buffer r))
opened r v = open-Quiet r (open_buffer r) v (open_buffer-Opened r r.current refl v)

pub peek-Quiet : (r : Receiver) → Inv r → Quiet r (peek r).1
peek-Quiet r v = rw (peek-after r (open_buffer r) refl) (opened r v)

pub available-Quiet : (r : Receiver) → Inv r → Quiet r (available_for_read r).1
available-Quiet r v = rw (available-after r (open_buffer r) refl) (opened r v)

-- The fields that only the sender reads.
noted-Quiet :
    (r : Receiver) (s : State) (n : Bool) (himark expiration : ℕ)
    → Inv r
    → s ≡ State.connected
    → Quiet r (record r {
      state = s;
      needs_ack = n;
      recv_himark = himark;
      himark_expiration = expiration;
    })
noted-Quiet r s n himark expiration v e = record {
  inv = record {
    window = v.window;
    storage = v.storage;
    sizes = v.sizes;
    cursor = v.cursor;
    final_last = v.final_last;
    final_closed = v.final_closed;
  };
  shifts = same_window _ _ v.window.begin_lt refl refl (λ c. c) (λ q. e);
  pending_eq = refl;
  ring_eq = refl;
}

module _ (io : MemoryIo) (r : Receiver) where
  pub ack-Quiet : Inv r → r.state ≡ State.connected → Quiet r (ack io r).1
  unfolding ack
  ack-Quiet v e = elim (Bool-cases r.needs_ack) [
    | inl due ↦
        simp (ack, e, due)
          (noted-Quiet r State.connected false r.recv_himark r.himark_expiration v refl)
    | inr done ↦ simp (ack, e, done) (Quiet-refl r v)
  ]

  pub himark-Quiet :
      (next_send_micros now : ℕ)
      → Inv r
      → r.state ≡ State.connected
      → Quiet r (update_recv_himark io r next_send_micros now).2
  unfolding update_recv_himark
  himark-Quiet next_send_micros now v e = elim (Bool-cases (ltb now r.himark_expiration)) [
    | inl early ↦
        let eq : (update_recv_himark io r next_send_micros now).2 ≡ r = ground arith in
        subst (Quiet r) (sym eq) (Quiet-refl r v)
    | inr due ↦
        let himark = seq_add r.ring.begin (capacity r.ring) in
        let eq : (update_recv_himark io r next_send_micros now).2
            ≡ record r { recv_himark = himark; himark_expiration = now + 100000 } =
          ground arith in
        subst (Quiet r) (sym eq) (noted-Quiet r r.state r.needs_ack himark (now + 100000) v e)
  ]

-- ===== src/Receiver/PacketLaws.antt =====
-- `handleDataPacket` of roo_transport/link/internal/receiver.cpp as a whole.
use roo_transport.Prelude.{
  ℕ, ◌+◌, ◌-◌, ◌≤◌, ◌<◌, ◌≡◌, ◌≢◌, ◌⊎◌, inl, inr, refl, sym, ap, ◌∙◌, subst, Bool, true, false,
  same, ltb, leb, Bool-cases, ltb→lt, ltb-false, leb-false, some, List, [], ◌++◌, length,
  append-nil, arith,
}
use roo_transport.Seq.{SeqNum, sub16, seq_lt, seq_add}
use roo_transport.Seq.Order.{seq_add-sub16}
use roo_transport.Ring
use roo_transport.Ring.{RingBuffer, capacity, slots_used, restore_pos_high_bits}
use roo_transport.Ring.Window.{IsValid, used-le, free-used, contains-distance}
use roo_transport.Ring.Restore.{restore_distance, restore-lt}
use roo_transport.Receiver.{Receiver, State}
use roo_transport.Receiver.Packet.{
  Outcome, advance_to, extend, accept, outside, handle_connected, handle_data_packet,
}
use roo_transport.Receiver.Inv.{Inv, pending}
use roo_transport.Receiver.Extend.{widened, extend-Extends}
use roo_transport.Receiver.Fill.{Kept, Fills, Kept-Fills, Extends-Fills}
use roo_transport.Receiver.Accept.{Delivers, accept-Delivers}

pub advance_to-eq :
    (ring : RingBuffer) (seq : SeqNum)
    → IsValid ring
    → seq < 65536
    → slots_used ring ≤ sub16 seq ring.begin
    → sub16 seq ring.begin < 2048
    → advance_to ring seq ≡ sub16 seq ring.begin - slots_used ring + 1
unfolding advance_to sub16 slots_used
advance_to-eq ring seq v hs h near = ground (arith, used-le v)

abbrev nothing_new : Receiver → Outcome
nothing_new r = record { has_ack = false; new_data = false; after = r }

Kept-reacked : (r : Receiver) → Kept r (record r { needs_ack = true })
Kept-reacked r = record {
  ring_eq = refl;
  bufs_eq = refl;
  read_eq = refl;
  closed_eq = refl;
  state_eq = refl;
}

Kept-self : (r : Receiver) → Kept r r
Kept-self r = record {
  ring_eq = refl;
  bufs_eq = refl;
  read_eq = refl;
  closed_eq = refl;
  state_eq = refl;
}

unchanged :
    (r : Receiver) (seq : SeqNum) (final : Bool) (payload : List ℕ)
    → Inv r
    → Delivers r seq final payload (some (nothing_new r))
unchanged r seq final payload v = (
  nothing_new r,
  [],
  refl,
  sym (append-nil (pending r)),
  v,
  Kept-Fills r r seq final payload (Kept-self r),
)

reacked : (r : Receiver) → Inv r → Inv (record r { needs_ack = true })
reacked r v = record {
  window = v.window;
  storage = v.storage;
  sizes = v.sizes;
  cursor = v.cursor;
  final_last = v.final_last;
  final_closed = v.final_closed;
}

module _ (r : Receiver) (payload : List ℕ) (final : Bool) (v : Inv r)
    (not_closed : r.self_closed ≡ false) (small : length payload ≤ 248) where
  module _ (seq : SeqNum) (seq_lt' : seq < 65536) where
    abbrev distance : ℕ
    distance = sub16 seq r.ring.begin

    seq_eq : seq_add r.ring.begin distance ≡ seq
    seq_eq = seq_add-sub16 seq r.ring.begin seq_lt'

    -- The packet is the first behind the window, or further on.
    appended :
        r.peer_closed ≡ false
        → slots_used r.ring ≤ distance
        → distance < capacity r.ring
        → (n : ℕ) → n ≡ distance - slots_used r.ring + 1
        → (u : Receiver) × (extend n r ≡ some u)
          × Delivers r seq final payload (accept u seq payload final)
    appended peer_open far room n n_eq =
        let (e, bufs, eq, x) = extend-Extends n r v peer_open (omega arith) in
        let (a, more, run, same, inv, fills) =
          accept-Delivers (widened r e bufs) distance payload final x.inv not_closed
            (omega (arith, x.used)) small (λ _. omega (arith, x.used)) in
        (
          widened r e bufs,
          eq,
          (
            a,
            more,
            ap (λ k. accept (widened r e bufs) k payload final) (sym seq_eq) ∙ run,
            same ∙ ap (λ xs. xs ++ more) x.same,
            inv,
            Extends-Fills r a.after n e bufs seq final payload x (omega (arith, n_eq))
                (subst (λ k. Fills (widened r e bufs) k final payload a.after) seq_eq fills),
          ),
        )

    outside-Delivers :
        distance ≢ 32768
        → (distance < 2048) ⊎ (63488 ≤ distance)
        → slots_used r.ring ≤ distance
        → Delivers r seq final payload (outside r seq payload final)
    unfolding outside seq_lt
    outside-Delivers ne near far = elim (Bool-cases (leb 32768 distance)) [
      | inl old ↦
          let again : Outcome = record {
            has_ack = true;
            new_data = false;
            after = record r { needs_ack = true };
          } in
          let eq : outside r seq payload final ≡ some again = ground arith in
          (
            again,
            [],
            eq,
            sym (append-nil (pending r)),
            reacked r v,
            Kept-Fills r again.after seq final payload (Kept-reacked r),
          )
      | inr new ↦ elim (Bool-cases r.peer_closed) [
        | inl closed ↦
            let eq : outside r seq payload final ≡ some (nothing_new r) = ground arith in
            subst (Delivers r seq final payload) (sym eq) (unchanged r seq final payload v)
        | inr peer_open ↦ elim (Bool-cases (ltb (Ring.slots_free r.ring) (advance_to r.ring seq))) [
          | inl full ↦
              let eq : outside r seq payload final ≡ some (nothing_new r) = ground arith in
              subst (Delivers r seq final payload) (sym eq) (unchanged r seq final payload v)
          | inr fits ↦
              let n_eq =
                advance_to-eq r.ring seq v.window seq_lt' far
                  (omega (arith, leb-false 32768 distance new)) in
              let (u, ext, d) =
                appended peer_open far (omega (arith, ltb-false _ _ fits, n_eq, free-used v.window))
                  (advance_to r.ring seq) n_eq in
              let eq : outside r seq payload final ≡ accept u seq payload final = ground arith in
              subst (Delivers r seq final payload) (sym eq) d
        ]
      ]
    ]

    inside-Delivers :
        distance < slots_used r.ring
        → (final ≡ true → slots_used r.ring ≤ distance + 1)
        → Delivers r seq final payload (accept r seq payload final)
    inside-Delivers h last =
        subst (λ k. Delivers r k final payload (accept r k payload final)) seq_eq
          (accept-Delivers r distance payload final v not_closed h small last)

  connected-Delivers :
      (control_bit : Bool) (seq_id : ℕ)
      → (final ≡ true
          → slots_used r.ring ≤ sub16 (restore_pos_high_bits r.ring seq_id 12) r.ring.begin + 1)
      → Delivers r
          (restore_pos_high_bits r.ring seq_id 12)
          final
          payload
          (handle_connected r control_bit seq_id payload final)
  unfolding handle_connected
  connected-Delivers control_bit seq_id last = elim (Bool-cases (same control_bit r.control_bit)) [
    | inl echo ↦
        let eq : handle_connected r control_bit seq_id payload final ≡ some (nothing_new r) =
          ground arith in
        subst (Delivers r (restore_pos_high_bits r.ring seq_id 12) final payload) (sym eq)
          (unchanged r (restore_pos_high_bits r.ring seq_id 12) final payload v)
    | inr peer ↦
        let seq = restore_pos_high_bits r.ring seq_id 12 in
        let near = restore_distance r.ring seq_id v.window.begin_lt in
        let c =
          contains-distance {r = r.ring} seq v.window (restore-lt r.ring seq_id) (omega arith) in
        elim (Bool-cases (Ring.contains r.ring seq)) [
          | inl inside ↦
              let eq : handle_connected r control_bit seq_id payload final
                  ≡ accept r seq payload final =
                ground arith in
              subst (Delivers r (restore_pos_high_bits r.ring seq_id 12) final payload) (sym eq)
                (inside-Delivers seq (restore-lt r.ring seq_id) (ltb→lt _ _ (sym c ∙ inside)) last)
          | inr out ↦
              let eq : handle_connected r control_bit seq_id payload final
                  ≡ outside r seq payload final =
                ground arith in
              subst (Delivers r (restore_pos_high_bits r.ring seq_id 12) final payload) (sym eq) (
                outside-Delivers seq (restore-lt r.ring seq_id) (omega arith) near
                  (ltb-false _ _ (sym c ∙ out)))
        ]
  ]

-- Whatever data packet arrives, in whatever order and however often, the receiver does not abort,
-- keeps its invariant, and leaves the pending bytes as they are, except that more may come behind
-- them. The reader has not closed its side, the payload has at most 248 bytes, and a final packet
-- has nothing behind it in the window.
pub handle_data_packet-Delivers :
    (r : Receiver) (control_bit : Bool) (seq_id : ℕ) (payload : List ℕ) (final : Bool)
    → Inv r
    → r.self_closed ≡ false
    → length payload ≤ 248
    → (final ≡ true
        → slots_used r.ring ≤ sub16 (restore_pos_high_bits r.ring seq_id 12) r.ring.begin + 1)
    → Delivers r
        (restore_pos_high_bits r.ring seq_id 12)
        final
        payload
        (handle_data_packet r control_bit seq_id payload final)
unfolding handle_data_packet
handle_data_packet-Delivers r control_bit seq_id payload final v not_closed small last =
    by_state r.state refl
  where
    by_state :
        (s : State)
        → r.state ≡ s
        → Delivers r
            (restore_pos_high_bits r.ring seq_id 12)
            final
            payload
            (handle_data_packet r control_bit seq_id payload final)
    by_state State.idle e =
        let eq : handle_data_packet r control_bit seq_id payload final ≡ some (nothing_new r) =
          ground arith in
        subst (Delivers r (restore_pos_high_bits r.ring seq_id 12) final payload) (sym eq)
          (unchanged r (restore_pos_high_bits r.ring seq_id 12) final payload v)
    by_state State.connecting e =
        let eq : handle_data_packet r control_bit seq_id payload final ≡ some (nothing_new r) =
          ground arith in
        subst (Delivers r (restore_pos_high_bits r.ring seq_id 12) final payload) (sym eq)
          (unchanged r (restore_pos_high_bits r.ring seq_id 12) final payload v)
    by_state State.connected e =
        let eq : handle_data_packet r control_bit seq_id payload final
            ≡ handle_connected r control_bit seq_id payload final =
          ground arith in
        subst (Delivers r (restore_pos_high_bits r.ring seq_id 12) final payload) (sym eq)
          (connected-Delivers r payload final v not_closed small control_bit seq_id last)
    by_state State.broken e =
        let eq : handle_data_packet r control_bit seq_id payload final
            ≡ handle_connected r control_bit seq_id payload final =
          ground arith in
        subst (Delivers r (restore_pos_high_bits r.ring seq_id 12) final payload) (sym eq)
          (connected-Delivers r payload final v not_closed small control_bit seq_id last)

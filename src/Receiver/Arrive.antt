-- ===== src/Receiver/Arrive.antt =====
-- A data packet of the peer that has a place in the window is kept.
use roo_transport.Prelude.{
  ℕ, ◌+◌, ◌≤◌, ◌<◌, ◌≡◌, ◌⊎◌, inl, inr, refl, sym, ap, ◌∙◌, subst, Bool, true, false, same, ltb,
  lt→ltb, ltb→lt, ltb-false, if◌then◌else◌, Bool-cases, Option, some, List, length, arith,
}
use roo_transport.Seq.{SeqNum, sub16, seq_add, seq_lt}
use roo_transport.Seq.Order.{seq_add-sub16}
use roo_transport.Ring
use roo_transport.Ring.{RingBuffer, capacity, slots_used, restore_pos_high_bits}
use roo_transport.Ring.Window.{free-used, contains-distance, used-le, capacity-le}
use roo_transport.Ring.Restore.{restore-lt}
use roo_transport.Receiver.{Receiver, State, is_unset}
use roo_transport.Receiver.Inv.{Inv, nth}
use roo_transport.Receiver.Fill.{nth-Kept}
use roo_transport.Receiver.Extend.{widened, extend-Extends}
use roo_transport.Receiver.PacketLaws.{advance_to-eq}
use roo_transport.Receiver.Packet.{
  Outcome, extend, advance_to, accept, outside, handle_connected, handle_data_packet,
}
use roo_transport.Receiver.Accept.{
  stored, noted, acknowledge-Delivers, noted-Inv, stored-Inv, nth_stored, accept_gap, accept_full,
  is_unset-true, kind_filled,
}

-- The slot at a distance is in the window, and holds a packet.
abbrev pub Arrives : ℕ → Option Outcome → Type 0
Arrives d o =
    (a : Outcome) × (o ≡ some a)
    × (d < slots_used a.after.ring)
    × (is_unset (nth a.after d) ≡ false)

accept-Arrives :
    (r : Receiver) (d : ℕ) (payload : List ℕ) (final : Bool)
    → Inv r
    → r.self_closed ≡ false
    → d < slots_used r.ring
    → length payload ≤ 248
    → (final ≡ true → slots_used r.ring ≤ d + 1)
    → Arrives d (accept r (seq_add r.ring.begin d) payload final)
accept-Arrives r d payload final v not_closed inside small last =
    elim (Bool-cases (is_unset (nth r d))) [
      | inl gap ↦
          let g = is_unset-true (nth r d) gap in
          let filled : is_unset (nth (stored r d final payload) d) ≡ false =
            ap is_unset (nth_stored r v final payload d inside small last g)
            ∙ kind_filled final payload in
          let (a, tail, eq, same, inv, keeps) =
            acknowledge-Delivers (stored r d final payload) d
              (stored-Inv r v final payload d inside small last g) not_closed inside filled in
          (
            a,
            accept_gap r d payload final small gap ∙ eq,
            omega (arith, ap slots_used keeps.ring_eq),
            ap is_unset (nth-Kept (stored r d final payload) a.after d keeps) ∙ filled,
          )
      | inr full ↦
          let (a, more, eq, same, inv, keeps) =
            acknowledge-Delivers (noted r final) d (noted-Inv r v final payload) not_closed inside
              full in
          (
            a,
            accept_full r d payload final full ∙ eq,
            omega (arith, ap slots_used keeps.ring_eq),
            ap is_unset (nth-Kept (noted r final) a.after d keeps) ∙ full,
          )
    ]

-- There is a slot for the distance, or one can be had.
abbrev pub HasPlace : Receiver → ℕ → Type 0
HasPlace r d = (d < slots_used r.ring) ⊎ ((r.peer_closed ≡ false) × (d < capacity r.ring))

not_less : (a b : ℕ) → b ≤ a → ltb a b ≡ false
not_less a b h = ground arith

not_before : (s b : ℕ) → sub16 s b < 32768 → seq_lt s b ≡ false
unfolding seq_lt sub16
not_before s b h = ground arith

module _ (r : Receiver) (payload : List ℕ) (final : Bool) (v : Inv r)
    (not_closed : r.self_closed ≡ false) (small : length payload ≤ 248) (seq : SeqNum)
    (seq_lt' : seq < 65536) where
  abbrev distance : ℕ
  distance = sub16 seq r.ring.begin

  seq_eq : seq_add r.ring.begin distance ≡ seq
  seq_eq = seq_add-sub16 seq r.ring.begin seq_lt'

  inside-Arrives :
      distance < slots_used r.ring
      → (final ≡ true → slots_used r.ring ≤ distance + 1)
      → Arrives distance (accept r seq payload final)
  inside-Arrives h last =
      subst (λ k. Arrives distance (accept r k payload final)) seq_eq
        (accept-Arrives r distance payload final v not_closed h small last)

  outside-Arrives :
      r.peer_closed ≡ false
      → slots_used r.ring ≤ distance
      → distance < capacity r.ring
      → Arrives distance (outside r seq payload final)
  unfolding outside seq_lt
  outside-Arrives peer_open far room =
      let n = advance_to r.ring seq in
      let n_eq =
        advance_to-eq r.ring seq v.window seq_lt' far (omega (arith, capacity-le v.window)) in
      let (e, bufs, ext, x) = extend-Extends n r v peer_open (omega (arith, n_eq)) in
      let (a, eq, lt, filled) =
        accept-Arrives (widened r e bufs) distance payload final x.inv not_closed
          (omega (arith, x.used, n_eq)) small (λ _. omega (arith, x.used, n_eq)) in
      let new : ltb (sub16 seq r.ring.begin) 32768 ≡ true =
        lt→ltb _ _ (omega (arith, capacity-le v.window)) in
      let fits : ltb (Ring.slots_free r.ring) n ≡ false =
        not_less _ _ (omega (arith, n_eq, free-used v.window)) in
      let before : seq_lt seq r.ring.begin ≡ false =
        not_before seq r.ring.begin (omega (arith, capacity-le v.window)) in
      let run : accept (widened r e bufs) seq payload final ≡ some a =
        ap (λ k. accept (widened r e bufs) k payload final) (sym seq_eq) ∙ eq in
      (a, run_outside before peer_open fits ext run, lt, filled)
    where
      run_outside :
          seq_lt seq r.ring.begin ≡ false
          → r.peer_closed ≡ false
          → ltb (Ring.slots_free r.ring) (advance_to r.ring seq) ≡ false
          → {u : Receiver} → extend (advance_to r.ring seq) r ≡ some u
          → {a : Outcome} → accept u seq payload final ≡ some a
          → outside r seq payload final ≡ some a
      run_outside before peer_open fits ext run =
          simp (outside, before, peer_open, fits, ext, run) refl

  connected-Arrives :
      HasPlace r distance
      → (final ≡ true → slots_used r.ring ≤ distance + 1)
      → Arrives distance (
          if Ring.contains r.ring seq
          then accept r seq payload final
          else outside r seq payload final)
  connected-Arrives place last =
      let c = contains-distance {r = r.ring} seq v.window seq_lt' (omega (arith, near place)) in
      elim (Bool-cases (Ring.contains r.ring seq)) [
        | inl inside ↦ rw inside (inside-Arrives (ltb→lt _ _ (sym c ∙ inside)) last)
        | inr out ↦ let far = ltb-false _ _ (sym c ∙ out) in rw out (place_outside far place)
      ]
    where
      near : HasPlace r distance → distance < 1025
      near (inl lt) = omega (arith, used-le v.window)
      near (inr (p, lt)) = omega (arith, capacity-le v.window)

      place_outside :
          slots_used r.ring ≤ distance
          → HasPlace r distance
          → Arrives distance (outside r seq payload final)
      place_outside far (inl lt) = absurd (omega arith)
      place_outside far (inr (p, lt)) = outside-Arrives p far lt

-- A packet of the peer, which is not an echo, for which the window has or can get a slot, is in the
-- window afterwards.
pub handle_data_packet-Arrives :
    (r : Receiver) (control_bit : Bool) (seq_id : ℕ) (payload : List ℕ) (final : Bool)
    → Inv r
    → r.state ≡ State.connected
    → r.self_closed ≡ false
    → same control_bit r.control_bit ≡ false
    → length payload ≤ 248
    → let d = sub16 (restore_pos_high_bits r.ring seq_id 12) r.ring.begin in
      HasPlace r d
      → (final ≡ true → slots_used r.ring ≤ d + 1)
      → Arrives d (handle_data_packet r control_bit seq_id payload final)
unfolding handle_data_packet handle_connected
handle_data_packet-Arrives r control_bit seq_id payload final v e not_closed peer small place last =
    let eq : handle_data_packet r control_bit seq_id payload final
        ≡ handle_connected r control_bit seq_id payload final =
      ground arith in
    let seq = restore_pos_high_bits r.ring seq_id 12 in
    subst (Arrives (sub16 seq r.ring.begin)) (sym eq) (
      rw peer (
        connected-Arrives r payload final v not_closed small seq (restore-lt r.ring seq_id) place
          last))

-- ===== src/Transmitter/Skips.antt =====
-- The second half of `ack` of roo_transport/link/internal/transmitter.cpp: the acknowledgements of
-- packets out of sequence, and the packets that are rushed because of them.
use roo_transport.Prelude.{
  ℕ, zero, suc, ◌≤◌, ◌<◌, ◌≡◌, ◌≢◌, inl, inr, refl, ap, ◌∙◌, Bool, true, false, ◌==◌, ◌&&◌, not,
  ltb, Bool-cases, ==_iff, ==_ne, Option, some, List, [], ◌∷◌, get_or, set, arith,
}
use roo_transport.Seq.{SeqNum, sub16, seq_add, seq_sub, seq_lt, seq_le}
use roo_transport.Seq.Order.{seq_add-lt, sub16-lt}
use roo_transport.Ring
use roo_transport.Ring.{RingBuffer, slots_used, contains}
use roo_transport.Ring.Window.{IsValid, used-le}
use roo_transport.OutBuffer
use roo_transport.OutBuffer.{OutBuffer}
use roo_transport.Transmitter.{Transmitter, get_out_buffer, put_out_buffer}
use roo_transport.Transmitter.Ack.{
  Skips, Rushing, test_bit, ack_byte, ack_bitmap, rush_one, rush_loop, process_skips,
}
use roo_transport.Transmitter.Same.{Same, Same-refl, Same-trans, set-Same, marked}

abbrev skips : Transmitter → List OutBuffer → SeqNum → SeqNum → Skips
skips t bufs pos last = record {
  trans = marked t bufs t.next_to_send;
  out_pos = pos;
  last_acked = last;
}

-- The scan of the bitmap only marks buffers.
abbrev Scans : Transmitter → List OutBuffer → Skips → Type 0
Scans t bufs s =
    (bufs' : List OutBuffer) × (pos : SeqNum) × (last : SeqNum) × (s ≡ skips t bufs' pos last)
    × Same bufs bufs'
    × (pos < 65536)
    × (last < 65536)

zero_distance : (pos last : SeqNum) → pos < 65536 → last < 65536 → sub16 last pos ≡ 0 → pos ≡ last
unfolding sub16
zero_distance pos last p q h = omega arith

closer :
    (pos last : SeqNum) (n : ℕ)
    → pos < 65536
    → last < 65536
    → pos ≢ last
    → sub16 last pos ≤ suc n
    → sub16 last (seq_add pos 1) ≤ n
unfolding sub16 seq_add
closer pos last n p q ne h = omega arith

contained :
    (r : RingBuffer) (seq : SeqNum)
    → IsValid r
    → seq < 65536
    → 0 < slots_used r
    → contains r seq ≡ true
    → sub16 seq r.begin ≤ slots_used r
unfolding contains seq_le seq_lt sub16 slots_used
contained r seq v q h e = ground (arith, used-le v)

module _ (t : Transmitter) where
  ack_byte-Scans :
      (n val : ℕ) (bufs : List OutBuffer) (pos last : SeqNum)
      → pos < 65536
      → last < 65536
      → Scans t bufs (ack_byte n val (skips t bufs pos last))
  unfolding ack_byte get_out_buffer put_out_buffer OutBuffer.ack
  ack_byte-Scans zero val bufs pos last p q = (bufs, pos, last, refl, Same-refl bufs, p, q)
  ack_byte-Scans (suc n) val bufs pos last p q =
      elim (Bool-cases (contains t.ring pos && test_bit val n)) [
        | inl hit ↦
            let i = Ring.offset_for t.ring pos in
            let b = OutBuffer.ack (get_or bufs i OutBuffer.new_out_buffer) in
            let (bufs', pos', last', eq, same, p', q') =
              ack_byte-Scans n val (set bufs i b) (seq_add pos 1) pos (seq_add-lt pos 1) p in
            (
              bufs',
              pos',
              last',
              rw hit eq,
              Same-trans (set-Same bufs i b refl (inr refl)) same,
              p',
              q',
            )
        | inr miss ↦
            let (bufs', pos', last', eq, same, p', q') =
              ack_byte-Scans n val bufs (seq_add pos 1) last (seq_add-lt pos 1) q in
            (bufs', pos', last', rw miss eq, same, p', q')
      ]

  ack_bitmap-Scans :
      (bitmap : List ℕ) (bufs : List OutBuffer) (pos last : SeqNum)
      → pos < 65536
      → last < 65536
      → Scans t bufs (ack_bitmap bitmap (skips t bufs pos last))
  unfolding ack_bitmap
  ack_bitmap-Scans [] bufs pos last p q = (bufs, pos, last, refl, Same-refl bufs, p, q)
  ack_bitmap-Scans (val ∷ vals) bufs pos last p q =
      let (bufs1, pos1, last1, eq1, same1, p1, q1) = ack_byte-Scans 8 val bufs pos last p q in
      let (bufs2, pos2, last2, eq2, same2, p2, q2) = ack_bitmap-Scans vals bufs1 pos1 last1 p1 q1 in
      (bufs2, pos2, last2, ap (ack_bitmap vals) eq1 ∙ eq2, Same-trans same1 same2, p2, q2)

  -- Rushing a packet does not abort, since it was sent, and keeps what is to be sent.
  abbrev Rushes : List OutBuffer → Option Rushing → Type 0
  Rushes bufs o =
      (bufs' : List OutBuffer) × (next : SeqNum) × (rushed : Bool) × (updated : Bool) × (o
        ≡ some (record { trans = marked t bufs' next; rushed = rushed; updated = updated }))
      × Same bufs bufs'

  module _ (pos : SeqNum) (bufs : List OutBuffer) (next : SeqNum) (rushed : Bool) where
    abbrev seen : OutBuffer
    seen = get_or bufs (Ring.offset_for t.ring pos) OutBuffer.new_out_buffer

    abbrev is_lone : Bool
    is_lone = not seen.acked && seen.send_counter == 1

    was_sent : is_lone ≡ true → ltb 0 seen.send_counter ≡ true
    was_sent e = ground arith

    rush_one-Rushes :
        (updated : Bool)
        → Rushes bufs (
            rush_one pos
              (record { trans = marked t bufs next; rushed = rushed; updated = updated }))
    unfolding rush_one get_out_buffer put_out_buffer OutBuffer.rush
    rush_one-Rushes true = elim (Bool-cases is_lone) [
      | inr other ↦ (bufs, next, rushed, true, rw other, Same-refl bufs)
      | inl lone ↦
          let b : OutBuffer = record seen { expiration = 0 } in
          let i = Ring.offset_for t.ring pos in
          (
            set bufs i b,
            next,
            true,
            true,
            rw (lone, was_sent lone),
            set-Same bufs i b refl (inr refl),
          )
    ]
    rush_one-Rushes false = elim (Bool-cases is_lone) [
      | inr other ↦ (bufs, next, rushed, false, rw other, Same-refl bufs)
      | inl lone ↦
          let b : OutBuffer = record seen { expiration = 0 } in
          let i = Ring.offset_for t.ring pos in
          (
            set bufs i b,
            pos,
            true,
            true,
            rw (lone, was_sent lone),
            set-Same bufs i b refl (inr refl),
          )
    ]

  rush_loop-Rushes :
      (fuel : ℕ) (pos last : SeqNum) (bufs : List OutBuffer) (next : SeqNum) (rushed updated : Bool)
      → pos < 65536
      → last < 65536
      → sub16 last pos ≤ fuel
      → Rushes bufs (
          rush_loop fuel pos last
            (record { trans = marked t bufs next; rushed = rushed; updated = updated }))
  unfolding rush_loop
  rush_loop-Rushes zero pos last bufs next rushed updated p q h =
      let e : (pos == last) ≡ true =
        (==_iff pos last).1 (zero_distance pos last p q (omega arith)) in
      (bufs, next, rushed, updated, rw e, Same-refl bufs)
  rush_loop-Rushes (suc fuel) pos last bufs next rushed updated p q h =
      elim (Bool-cases (pos == last)) [
        | inl e ↦ (bufs, next, rushed, updated, rw (rush_loop, e), Same-refl bufs)
        | inr ne ↦
            let (bufs1, next1, r1, u1, eq1, same1) = rush_one-Rushes pos bufs next rushed updated in
            let (bufs2, next2, r2, u2, eq2, same2) =
              rush_loop-Rushes fuel (seq_add pos 1) last bufs1 next1 r1 u1 (seq_add-lt pos 1) q
                (closer pos last fuel p q (==_ne pos last ne) h) in
            (bufs2, next2, r2, u2, rw (rush_loop, ne, eq1) eq2, Same-trans same1 same2)
      ]

  -- The loops end within their fuel, and change only marks.
  pub process_skips-Marks :
      (bitmap : List ℕ)
      → IsValid t.ring
      → 0 < slots_used t.ring
      → (rushed : Bool) × (bufs : List OutBuffer) × (next : SeqNum) × (process_skips t bitmap
          ≡ some (rushed, marked t bufs next))
        × Same t.out_buffers bufs
  unfolding process_skips seq_sub
  process_skips-Marks bitmap v h =
      let (bufs, pos, last, eq, same, p, q) =
        ack_bitmap-Scans bitmap t.out_buffers (seq_add t.ring.begin 1) (sub16 t.ring.begin 1)
          (seq_add-lt t.ring.begin 1) (sub16-lt t.ring.begin 1) in
      elim (Bool-cases (contains t.ring last)) [
        | inr out ↦ (false, bufs, t.next_to_send, rw (process_skips, eq, out), same)
        | inl inside ↦
            let (bufs2, next2, r2, u2, eq2, same2) =
              rush_loop-Rushes (slots_used t.ring) t.ring.begin last bufs t.next_to_send false false
                v.begin_lt q (contained t.ring last v q h inside) in
            (r2, bufs2, next2, rw (process_skips, eq, inside, eq2), Same-trans same same2)
      ]

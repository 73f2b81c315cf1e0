-- ===== src/Channel/Handshake/Laws.antt =====
-- The handshake gives the two ends opposite control bits.
use roo_transport.Prelude.{
  ℕ, ◌≡◌, ◌≢◌, refl, sym, ap, ◌∙◌, Bool, true, ◌==◌, ==_iff, not, Bool-cases, inl, inr, some, arith,
}
use roo_transport.Seq.{sub16}
use roo_transport.Ring
use roo_transport.Ring.{RingBuffer, slots_used}
use roo_transport.Ring.Window.{IsValid}
use roo_transport.Receiver
use roo_transport.Receiver.{Receiver}
use roo_transport.Channel.{Channel, my_control_bit}
use roo_transport.Channel.Handshake.{Handshake, Handled, accept_peer, accepted}

empty_ends : (r : RingBuffer) → IsValid r → slots_used r ≡ 0 → (r.begin == r.end) ≡ true
unfolding slots_used sub16
empty_ends r v z =
    let e : r.begin ≡ r.end = omega (arith, v.begin_lt, v.end_lt) in (==_iff r.begin r.end).1 e

abbrev joined : Receiver → ℕ → Bool → Receiver
joined r seq bit = record r {
  ring = record (r.ring) { begin = seq; end = seq };
  unack_seq = seq;
  state = Receiver.State.connected;
  control_bit = bit;
}

set_connected-joined :
    (r : Receiver) (seq : ℕ) (bit : Bool)
    → IsValid r.ring
    → slots_used r.ring ≡ 0
    → Receiver.set_connected r seq bit ≡ some (joined r seq bit)
unfolding Receiver.set_connected Ring.is_empty Ring.reset
set_connected-joined r seq bit v z = rw (Receiver.set_connected, z, empty_ends r.ring v z)

accepted_receiver :
    (c : Channel) (h : Handshake) (bit : Bool) (r : Receiver)
    → (accepted c h bit r).after.receiver ≡ r
unfolding accepted
accepted_receiver c h bit r = elim (Bool-cases (h.ack_stream_id == c.my_stream_id)) [
  | inl e ↦ rw e refl
  | inr e ↦ rw e refl
]

-- What the receiver is after the peer is accepted.
accept_peer-joined :
    (c : Channel) (h : Handshake)
    → IsValid c.receiver.ring
    → slots_used c.receiver.ring ≡ 0
    → (o : Handled) × (accept_peer c h ≡ some o)
      × (o.after.receiver
          ≡ joined c.receiver h.peer_seq_num (my_control_bit c.my_stream_id h.peer_stream_id))
unfolding accept_peer Ring.is_empty
accept_peer-joined c h v z =
    let bit = my_control_bit c.my_stream_id h.peer_stream_id in
    let r : Receiver = joined c.receiver h.peer_seq_num bit in
    (
      accepted c h bit r,
      rw (accept_peer, z, set_connected-joined c.receiver h.peer_seq_num bit v z),
      accepted_receiver c h bit r,
    )

opposite : (a b : ℕ) → a ≢ b → my_control_bit a b ≡ not (my_control_bit b a)
unfolding my_control_bit
opposite a b ne = ground arith

-- Two ends with different numbers that accept each other, with no data left over from before, both
-- get a connected receiver, and their control bits are opposite: no end takes its own packets for
-- those of the peer.
pub accept_peer-opposite :
    (a b : Channel) (from_b from_a : Handshake)
    → IsValid a.receiver.ring
    → IsValid b.receiver.ring
    → slots_used a.receiver.ring ≡ 0
    → slots_used b.receiver.ring ≡ 0
    → from_b.peer_stream_id ≡ b.my_stream_id
    → from_a.peer_stream_id ≡ a.my_stream_id
    → a.my_stream_id ≢ b.my_stream_id
    → (oa ob : Handled) × (accept_peer a from_b ≡ some oa)
      × (accept_peer b from_a ≡ some ob)
      × (oa.after.receiver.state ≡ Receiver.State.connected)
      × (ob.after.receiver.state ≡ Receiver.State.connected)
      × (oa.after.receiver.control_bit ≡ not ob.after.receiver.control_bit)
accept_peer-opposite a b from_b from_a va vb za zb eb ea ne =
    let (oa, eqa, ra) = accept_peer-joined a from_b va za in
    let (ob, eqb, rb) = accept_peer-joined b from_a vb zb in
    (
      oa,
      ob,
      eqa,
      eqb,
      ap (λ r. r.state) ra,
      ap (λ r. r.state) rb,
      ap (λ r. r.control_bit) ra
          ∙ ap (my_control_bit a.my_stream_id) eb
          ∙ opposite a.my_stream_id b.my_stream_id ne
          ∙ ap (λ k. not (my_control_bit b.my_stream_id k)) (sym ea)
          ∙ sym (ap (λ r. not r.control_bit) rb),
    )

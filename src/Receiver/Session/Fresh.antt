-- ===== src/Receiver/Session/Fresh.antt =====
-- `init` and then `setConnected` of roo_transport/link/internal/receiver.cpp.
use roo_transport.Prelude.{
  ℕ, zero, suc, ◌≡◌, inl, inr, refl, sym, ap, ◌∙◌, subst, Bool, false, Bool-cases, ◌==◌, some,
  Option-cases, arith,
}
use roo_transport.Seq.{SeqNum, sub16, seq_add}
use roo_transport.Seq.Order.{seq_add-zero}
use roo_transport.Ring
use roo_transport.Ring.{RingBuffer, slots_used}
use roo_transport.Receiver.{Receiver, State, drain, init, set_connected}
use roo_transport.Receiver.Inv.{Inv, IsCursor}
use roo_transport.Receiver.Session.{Peer, IsFresh}

pop-lg :
    (g g' : RingBuffer) (s : SeqNum)
    → Ring.pop g ≡ some (s, g')
    → g'.capacity_log2 ≡ g.capacity_log2
unfolding Ring.pop
pop-lg g g' s e = ground arith

drain-lg :
    (fuel : ℕ) (g g' : RingBuffer) → drain fuel g ≡ some g' → g'.capacity_log2 ≡ g.capacity_log2
unfolding drain
drain-lg zero g g' e = elim (Bool-cases (Ring.is_empty g)) [
  | inl z ↦ ground arith
  | inr nz ↦ absurd (ground arith)
]
drain-lg (suc fuel) g g' e = elim (Bool-cases (Ring.is_empty g)) [
  | inl z ↦ ground arith
  | inr nz ↦ elim (Option-cases (Ring.pop g)) [
    | inl stuck ↦ absurd (ground arith)
    | inr ((s, h), popped) ↦
        let rest : drain fuel h ≡ some g' = sym (rw (drain, nz, popped) refl) ∙ e in
        drain-lg fuel h g' rest ∙ pop-lg g h s popped
  ]
]

-- What the two calls leave.
abbrev connected : Receiver → ℕ → SeqNum → Bool → Receiver
connected b stream_id first bit = record b {
  ring = record { capacity_log2 = b.ring.capacity_log2; begin = first; end = first };
  my_stream_id = stream_id;
  peer_closed = false;
  self_closed = false;
  end_of_stream = false;
  unack_seq = first;
  state = State.connected;
  control_bit = bit;
}

some_eq : {A : Type 0} (a b : A) → some a ≡ some b → a ≡ b
some_eq a b e = ground arith

init-ring :
    (b c : Receiver) (stream_id : ℕ)
    → init b stream_id ≡ some c
    → (c.ring.capacity_log2 ≡ b.ring.capacity_log2)
      × (c ≡ record b {
        ring = c.ring;
        my_stream_id = stream_id;
        peer_closed = false;
        self_closed = false;
        end_of_stream = false;
        state = State.connecting;
      })
unfolding init
init-ring b c stream_id e = elim (Option-cases (drain (Ring.slots_used b.ring) b.ring)) [
  | inl stuck ↦ absurd (ground arith)
  | inr (g, drained) ↦
      let same = drain-lg (Ring.slots_used b.ring) b.ring g drained in
      let begun : RingBuffer → Receiver = λ h. record b {
        ring = h;
        my_stream_id = stream_id;
        peer_closed = false;
        self_closed = false;
        end_of_stream = false;
        state = State.connecting;
      } in
      let run : init b stream_id ≡ some (begun g) = rw (init, drained) refl in
      let eq : begun g ≡ c = some_eq _ _ (sym run ∙ e) in
      let ring_eq : g ≡ c.ring = ap (λ (x : Receiver). x.ring) eq in
      (ap (λ (h : RingBuffer). h.capacity_log2) (sym ring_eq) ∙ same, sym eq ∙ ap begun ring_eq)
]

connect-eq :
    (c r : Receiver) (first : SeqNum) (bit : Bool)
    → set_connected c first bit ≡ some r
    → r ≡ record c {
      ring = record { capacity_log2 = c.ring.capacity_log2; begin = first; end = first };
      unack_seq = first;
      state = State.connected;
      control_bit = bit;
    }
unfolding set_connected Ring.reset
connect-eq c r first bit e = elim (Bool-cases (Ring.is_empty c.ring)) [
  | inr full ↦ absurd (ground arith)
  | inl empty ↦ elim (Bool-cases (c.ring.begin == c.ring.end)) [
    | inr apart ↦ absurd (ground arith)
    | inl met ↦ sym (some_eq _ _ (sym (rw (set_connected, empty, met) refl) ∙ e))
  ]
]

-- In full: the window is empty, at the peer's first number, and nothing else matters to a reader.
fresh-connected :
    (p : Peer) (r : Receiver) (f : IsFresh p r) → r ≡ connected f.before f.stream_id p.start f.bit
fresh-connected p r f =
    let (lg, c_eq) = init-ring f.before f.connecting f.stream_id f.init_eq in
    connect-eq f.connecting r p.start f.bit f.connect_eq
    ∙ ap
        (λ (c : Receiver). record c {
          ring = record {
            capacity_log2 = f.connecting.ring.capacity_log2;
            begin = p.start;
            end = p.start;
          };
          unack_seq = p.start;
          state = State.connected;
          control_bit = f.bit;
        })
        c_eq
    ∙ ap
        (λ n. record (connected f.before f.stream_id p.start f.bit) {
          ring = record { capacity_log2 = n; begin = p.start; end = p.start };
        })
        lg

none_used : (lg s : ℕ) → slots_used (record { capacity_log2 = lg; begin = s; end = s }) ≡ 0
unfolding slots_used sub16
none_used lg s = omega arith

-- What a new connection starts from.
pub record Begun (p : Peer) (r : Receiver) : Type 0 where
  pub inv : Inv r
  pub open_eq : r.self_closed ≡ false
  pub state_eq : r.state ≡ State.connected
  pub begin_eq : r.ring.begin ≡ seq_add p.start 0
  pub used_eq : slots_used r.ring ≡ 0

pub IsFresh-Begun : (p : Peer) (r : Receiver) → IsFresh p r → Begun p r
IsFresh-Begun p r f =
    let z = none_used f.before.ring.capacity_log2 p.start in
    subst (Begun p) (sym (fresh-connected p r f)) (record {
      inv = record {
        window = record {
          small = f.window.small;
          begin_lt = f.start_lt;
          end_lt = f.start_lt;
          fits = omega (arith, z);
        };
        storage = f.storage;
        sizes = f.sizes;
        cursor =
            subst
              (IsCursor
                (record {
                  capacity_log2 = f.before.ring.capacity_log2;
                  begin = p.start;
                  end = p.start;
                })
                f.before.in_buffers f.before.current_pos)
              (sym f.no_current) tt;
        final_last = λ k h. absurd (omega (arith, z));
        final_closed = λ k h. absurd (omega (arith, z));
      };
      open_eq = refl;
      state_eq = refl;
      begin_eq = sym (seq_add-zero p.start f.start_lt);
      used_eq = z;
    })

-- ===== src/Receiver/Session/Laws.antt =====
-- The peer's stream reaches the user in order.
use roo_transport.Prelude.{
  ℕ, ◌+◌, ◌-◌, ◌%◌, ◌≤◌, ◌<◌, ◌≡◌, ◌⊎◌, inl, inr, refl, sym, ap, ◌∙◌, subst, Bool, true, false,
  ==_iff, same, Option, none, some, List, [], ◌++◌, append-nil, length, take, take-append-drop,
  append_assoc, All-get_or, arith,
}
use native.Mathlib.Decide.{dec_lt}
use mathlib.Core.List.{append_cancel_right}
use roo_transport.Seq.{sub16, seq_add}
use roo_transport.Seq.Order.{sub16-seq_add, seq_add-seq_add, seq_add-lt, seq_add-zero}
use roo_transport.Ring.{RingBuffer, slots_used, capacity, restore_pos_high_bits}
use roo_transport.Ring.Window.{used-le}
use roo_transport.Ring.Restore.{restore_pos_high_bits_lem}
use roo_transport.InBuffer
use roo_transport.InBuffer.{InBuffer, ContentType}
use roo_transport.Receiver.{Receiver, State}
use roo_transport.Receiver.Stream.{at}
use roo_transport.Receiver.Inv.{Inv, IsCursor, IsSmall, limit, pending, skipped, nth}
use roo_transport.Receiver.ReadLaws.{clear-IsSmall}
use roo_transport.Receiver.Packet.{Outcome, handle_data_packet, handle_connected}
use roo_transport.Receiver.Shift.{Shifts}
use roo_transport.Receiver.Fill.{Fills}
use roo_transport.Receiver.Accept.{Delivers}
use roo_transport.Receiver.ReadLoop.{try_read-Reads}
use roo_transport.Receiver.PacketLaws.{handle_data_packet-Delivers}
use roo_transport.Receiver.Session.{
  Peer, Session, Step, packet, echo, read, peek_step, available_step, ack_step, himark_step, Reach,
  start, later, IsNear, IsFresh, is_final, content, begun, with_receiver, after_read,
}
use roo_transport.Receiver.Session.Fresh.{Begun, IsFresh-Begun}
use roo_transport.Receiver.Session.Quiet.{
  Quiet, peek-Quiet, available-Quiet, ack-Quiet, himark-Quiet,
}
use roo_transport.Receiver.Session.Window.{
  packet_buffer, Run, Run-of, stream-content, content-append,
}

-- What holds between two steps.
pub record Aligned (p : Peer) (s : Session) : Type 0 where
  pub inv : Inv s.receiver
  pub open_eq : s.receiver.self_closed ≡ false
  pub state_eq : s.receiver.state ≡ State.connected
  pub begin_eq : s.receiver.ring.begin ≡ seq_add p.start s.base
  pub bound : s.base + slots_used s.receiver.ring ≤ p.last + 1
  pub holds :
      (k : ℕ)
      → k < slots_used s.receiver.ring
      → ((nth s.receiver k).type ≡ ContentType.unset)
        ⊎ (nth s.receiver k ≡ packet_buffer p (s.base + k))
  pub done : s.delivered ≡ content p 0 s.base ++ take (skipped s.receiver) (p.payload s.base)

-- Nothing is read of a packet that has not come.
unfilled_skip :
    (r : Receiver) (c : Option ℕ)
    → Inv r
    → r.current ≡ c
    → (slots_used r.ring ≡ 0) ⊎ ((nth r 0).type ≡ ContentType.unset)
    → skipped r ≡ 0
unfilled_skip r none v e h = rw e refl
unfilled_skip r (some i) v e h =
    let (used, index, le) = subst (IsCursor r.ring r.in_buffers r.current_pos) e v.cursor in
    elim h [
      | inl z ↦ absurd (omega arith)
      | inr un ↦
          let small =
            All-get_or IsSmall r.in_buffers (r.ring.begin % capacity r.ring) InBuffer.clear
              clear-IsSmall v.sizes in
          let t =
            ap (λ s. (at r.ring.capacity_log2 r.in_buffers s).type)
              (sym (seq_add-zero r.ring.begin v.window.begin_lt))
            ∙ un in
          let none_there : length (at r.ring.capacity_log2 r.in_buffers r.ring.begin).payload ≤ 0 =
            subst
              (λ t. length (at r.ring.capacity_log2 r.in_buffers r.ring.begin).payload ≤ limit t) t
              small in
          let z : r.current_pos ≡ 0 = omega arith in rw e z
    ]

-- The packets that have left the window, what is read of the next, and what is pending.
parts :
    (p : Peer) (r : Receiver) (base : ℕ)
    → Inv r
    → base + slots_used r.ring ≤ p.last + 1
    → ((k : ℕ)
        → k < slots_used r.ring
        → ((nth r k).type ≡ ContentType.unset) ⊎ (nth r k ≡ packet_buffer p (base + k)))
    → (run : Run (slots_used r.ring) (nth r))
    → content p 0 base ++ take (skipped r) (p.payload base) ++ pending r
      ≡ content p 0 (base + run.size)
parts p r base v bound holds run =
    append_assoc (content p 0 base) (take (skipped r) (p.payload base)) (pending r)
    ∙ ap (λ xs. content p 0 base ++ xs)
        (stream-content p r.ring.capacity_log2 r.in_buffers run.size (slots_used r.ring) base
          (skipped r) r.ring.begin v.window.begin_lt bound run.size_le run.filled run.stop
          (λ z. unfilled_skip r r.current v refl (at_start z run.stop)) holds)
    ∙ ap (λ k. content p 0 base ++ content p k run.size) base_eq
    ∙ content-append p base run.size 0
  where
    base_eq : base ≡ 0 + base
    base_eq = omega arith

    at_start :
        run.size ≡ 0
        → (run.size ≡ slots_used r.ring) ⊎ ((nth r run.size).type ≡ ContentType.unset)
        → (slots_used r.ring ≡ 0) ⊎ ((nth r 0).type ≡ ContentType.unset)
    at_start z (inl e) = inl (sym e ∙ z)
    at_start z (inr un) = inr (ap (λ k. (nth r k).type) (sym z) ∙ un)

pub all_of :
    (p : Peer) (s : Session)
    → Aligned p s
    → (run : Run (slots_used s.receiver.ring) (nth s.receiver))
    → s.delivered ++ pending s.receiver ≡ content p 0 (s.base + run.size)
all_of p s a run =
    ap (λ xs. xs ++ pending s.receiver) a.done ∙ parts p s.receiver s.base a.inv a.bound a.holds run

fresh-Aligned : (p : Peer) (r : Receiver) → Begun p r → Aligned p (begun r)
unfolding content
fresh-Aligned p r f = record {
  inv = f.inv;
  open_eq = f.open_eq;
  state_eq = f.state_eq;
  begin_eq = f.begin_eq;
  bound = omega (arith, f.used_eq);
  holds = λ k h. absurd (omega (arith, f.used_eq));
  done =
      ap (λ n. take n (p.payload 0)) (sym (unfilled_skip r r.current f.inv refl (inl f.used_eq)));
}

window_near :
    (first k base : ℕ)
    → k < base + 2048
    → base ≤ k + 2048
    → sub16 (seq_add (seq_add first k) 2048) (seq_add first base) < 4096
unfolding sub16 seq_add
window_near first k base h h' = omega arith

-- The wire carries twelve bits of the number of a packet: near the reader they are enough.
pub restored :
    (p : Peer) (s : Session) (k : ℕ)
    → Aligned p s
    → IsNear p s k
    → restore_pos_high_bits s.receiver.ring (seq_add p.start k % 4096) 12 ≡ seq_add p.start k
restored p s k a (le, ahead, behind) =
    restore_pos_high_bits_lem s.receiver.ring (seq_add p.start k) a.inv.window.begin_lt
      (seq_add-lt p.start k)
      (subst (λ b. sub16 (seq_add (seq_add p.start k) 2048) b < 4096) (sym a.begin_eq)
        (window_near p.start k s.base ahead behind))

distance_of :
    (first k base : ℕ)
    → k < base + 2048
    → base ≤ k + 2048
    → ((base ≤ k) × (sub16 (seq_add first k) (seq_add first base) ≡ k - base))
      ⊎ ((k < base) × (63488 ≤ sub16 (seq_add first k) (seq_add first base)))
unfolding sub16 seq_add
distance_of first k base h h' = omega arith

module _ (p : Peer) (s : Session) (k : ℕ) (a : Aligned p s) (near : IsNear p s k) where
  distance :
      ((s.base ≤ k) × (sub16 (seq_add p.start k) s.receiver.ring.begin ≡ k - s.base))
      ⊎ ((k < s.base) × (63488 ≤ sub16 (seq_add p.start k) s.receiver.ring.begin))
  distance =
      subst
        (λ b.
          ((s.base ≤ k) × (sub16 (seq_add p.start k) b ≡ k - s.base))
          ⊎ ((k < s.base) × (63488 ≤ sub16 (seq_add p.start k) b)))
        (sym a.begin_eq) (distance_of p.start k s.base near.1 near.2)

  -- Nothing is behind the final packet.
  pub final_behind :
      is_final p k ≡ true
      → slots_used s.receiver.ring
        ≤ sub16
            (restore_pos_high_bits s.receiver.ring (seq_add p.start k % 4096) 12)
            s.receiver.ring.begin
          + 1
  final_behind e =
      let k_eq : k ≡ p.last = (==_iff _ _).0 e in
      subst (λ seq. slots_used s.receiver.ring ≤ sub16 seq s.receiver.ring.begin + 1)
        (sym (restored p s k a near)) (omega (arith, distance, a.bound, used-le a.inv.window))

  pub packet-Delivers :
      (control_bit : Bool)
      → length (p.payload k) ≤ 248
      → Delivers s.receiver (seq_add p.start k) (is_final p k) (p.payload k) (
          handle_data_packet s.receiver control_bit
            (seq_add p.start k % 4096)
            (p.payload k)
            (is_final p k))
  packet-Delivers control_bit small =
      subst
        (λ seq. Delivers s.receiver seq (is_final p k) (p.payload k) (
          handle_data_packet s.receiver control_bit (seq_add p.start k % 4096) (p.payload k)
            (is_final p k)))
        (restored p s k a near)
        (handle_data_packet-Delivers s.receiver control_bit (seq_add p.start k % 4096) (p.payload k)
          (is_final p k) a.inv a.open_eq small final_behind)

  pub filled-Aligned :
      (r : Receiver)
      → Inv r
      → Fills s.receiver (seq_add p.start k) (is_final p k) (p.payload k) r
      → Aligned p (with_receiver s r)
  filled-Aligned r v f = record {
    inv = v;
    open_eq = f.closed_eq ∙ a.open_eq;
    state_eq = f.state_eq ∙ a.state_eq;
    begin_eq = f.begin_eq ∙ a.begin_eq;
    bound = omega (arith, f.used_cases, distance, a.bound, near.0, used-le v.window);
    holds = λ j h. elim (f.slots j h) [
      | inl un ↦ inl un
      | inr (inl (lt, e)) ↦ elim (a.holds j lt) [
        | inl un ↦ inl (ap (λ b. b.type) e ∙ un)
        | inr held ↦ inr (e ∙ held)
      ]
      | inr (inr (j_eq, e)) ↦
          let k_eq : k ≡ s.base + j = omega (arith, distance, used-le v.window) in
          inr (e ∙ ap (packet_buffer p) k_eq)
    ];
    done = a.done ∙ ap (λ n. content p 0 s.base ++ take n (p.payload s.base)) (sym f.read_eq);
  }

-- A read moves the window over packets that it delivered.
module _ (p : Peer) (s : Session) (a : Aligned p s) (r : Receiver) (v : Inv r)
    (sh : Shifts s.receiver r) where
  moved_by : sub16 r.ring.begin s.receiver.ring.begin ≡ sh.gone
  moved_by =
      ap (λ b. sub16 b s.receiver.ring.begin) sh.begin_eq
      ∙ sub16-seq_add s.receiver.ring.begin sh.gone
          (omega (arith, sh.used_eq, used-le a.inv.window))

  abbrev base_after : ℕ
  base_after = s.base + sub16 r.ring.begin s.receiver.ring.begin

  read-begin : r.ring.begin ≡ seq_add p.start base_after
  read-begin =
      sh.begin_eq
      ∙ ap (λ b. seq_add b sh.gone) a.begin_eq
      ∙ seq_add-seq_add p.start s.base sh.gone
      ∙ ap (λ g. seq_add p.start (s.base + g)) (sym moved_by)

  read-holds :
      (k : ℕ)
      → k < slots_used r.ring
      → ((nth r k).type ≡ ContentType.unset) ⊎ (nth r k ≡ packet_buffer p (base_after + k))
  read-holds k h = elim (a.holds (k + sh.gone) (omega (arith, sh.used_eq))) [
    | inl un ↦ inl (ap (λ b. b.type) (sh.old k h) ∙ un)
    | inr e ↦
        let k_eq : s.base + (k + sh.gone) ≡ base_after + k = omega (arith, moved_by) in
        inr (sh.old k h ∙ e ∙ ap (packet_buffer p) k_eq)
  ]

  -- The run of filled slots loses those that left.
  Run-after :
      (run : Run (slots_used s.receiver.ring) (nth s.receiver))
      → (run' : Run (slots_used r.ring) (nth r)) × (base_after + run'.size ≡ s.base + run.size)
  Run-after run = (
    record {
      size = run.size - sh.gone;
      size_le = omega (arith, run.size_le, sh.used_eq);
      filled = λ k h un.
          run.filled (k + sh.gone) (omega arith)
            (ap (λ b. b.type) (sym (sh.old k (omega (arith, run.size_le, sh.used_eq)))) ∙ un);
      stop = stops run.stop;
    },
    omega (arith, moved_by, enough run.stop),
  )
    where
      enough :
          (run.size ≡ slots_used s.receiver.ring)
            ⊎ ((nth s.receiver run.size).type ≡ ContentType.unset)
          → sh.gone ≤ run.size
      enough (inl e) = omega (arith, sh.used_eq)
      enough (inr un) = elim (dec_lt run.size sh.gone) [
        | yes lt ↦ absurd (sh.filled run.size lt un)
        | no ge ↦ omega arith
      ]

      stops :
          (run.size ≡ slots_used s.receiver.ring)
            ⊎ ((nth s.receiver run.size).type ≡ ContentType.unset)
          → (run.size - sh.gone ≡ slots_used r.ring)
            ⊎ ((nth r (run.size - sh.gone)).type ≡ ContentType.unset)
      stops (inl e) = inl (omega (arith, sh.used_eq))
      stops (inr un) = elim (dec_lt (run.size - sh.gone) (slots_used r.ring)) [
        | yes lt ↦
            let k_eq : run.size - sh.gone + sh.gone ≡ run.size = omega (arith, enough run.stop) in
            inr (ap (λ b. b.type) (sh.old (run.size - sh.gone) lt ∙ ap (nth s.receiver) k_eq) ∙ un)
        | no ge ↦ inl (omega (arith, run.size_le, sh.used_eq))
      ]

  bound_after : base_after + slots_used r.ring ≤ p.last + 1
  bound_after = omega (arith, a.bound, moved_by, sh.used_eq)

  read-done :
      (out : List ℕ) → out ++ pending r ≡ pending s.receiver → Aligned p (after_read s out r)
  read-done out split = record {
    inv = v;
    open_eq = sh.closed_eq a.open_eq;
    state_eq = sh.state_eq a.state_eq;
    begin_eq = read-begin;
    bound = bound_after;
    holds = read-holds;
    done = done_after (Run-of (slots_used s.receiver.ring) (nth s.receiver));
  }
    where
      done_after :
          Run (slots_used s.receiver.ring) (nth s.receiver)
          → s.delivered ++ out ≡ content p 0 base_after ++ take (skipped r) (p.payload base_after)
      done_after run =
          let (run', size_eq) = Run-after run in
          append_cancel_right (s.delivered ++ out) _ (pending r) (
            append_assoc s.delivered out (pending r)
            ∙ ap (λ xs. s.delivered ++ xs) split
            ∙ all_of p s a run
            ∙ ap (content p 0) (sym size_eq)
            ∙ sym (parts p r base_after v bound_after read-holds run'))

still : (n b c : ℕ) → b ≡ c → c < 65536 → n + sub16 b c ≡ n
unfolding sub16
still n b c e lt = omega arith

-- A call that keeps the window and what is pending.
Quiet-Aligned :
    (p : Peer) (s : Session) (u : Receiver)
    → Aligned p s
    → Quiet s.receiver u
    → Aligned p (with_receiver s u)
Quiet-Aligned p s u a q =
    let r = s.receiver in
    let base_eq : s.base + sub16 u.ring.begin r.ring.begin ≡ s.base =
      still s.base u.ring.begin r.ring.begin (ap (λ (g : RingBuffer). g.begin) q.ring_eq)
        a.inv.window.begin_lt in
    subst (Aligned p)
      (ap (λ n. record { receiver = u; base = n; delivered = s.delivered ++ [] }) base_eq
        ∙ ap (λ xs. record { receiver = u; base = s.base; delivered = xs })
            (append-nil s.delivered))
      (read-done p s a u q.inv q.shifts [] q.pending_eq)

echo-ignored :
    (r : Receiver) (seq_id : ℕ) (payload : List ℕ) (final : Bool)
    → r.state ≡ State.connected
    → handle_data_packet r r.control_bit seq_id payload final
      ≡ some (record { has_ack = false; new_data = false; after = r })
unfolding handle_data_packet handle_connected
echo-ignored r seq_id payload final e = ground arith

pub some_eq : {A : Type 0} (a b : A) → some a ≡ some b → a ≡ b
some_eq a b e = ground arith

Step-Aligned :
    (p : Peer) (s t : Session)
    → ((k : ℕ) → length (p.payload k) ≤ 248)
    → Aligned p s
    → Step p s t
    → Aligned p t
Step-Aligned p s t small a (packet k control_bit u near run) =
    let (b, more, eq, same, inv, fills) = packet-Delivers p s k a near control_bit (small k) in
    subst (λ (o : Outcome). Aligned p (with_receiver s o.after)) (some_eq _ _ (sym eq ∙ run))
      (filled-Aligned p s k a near b.after inv fills)
Step-Aligned p s t small a (echo seq_id payload final u run) =
    subst (λ (o : Outcome). Aligned p (with_receiver s o.after))
      (some_eq _ _ (sym (echo-ignored s.receiver seq_id payload final a.state_eq) ∙ run)) a
Step-Aligned p s t small a peek_step = Quiet-Aligned p s _ a (peek-Quiet s.receiver a.inv)
Step-Aligned p s t small a available_step = Quiet-Aligned p s _ a (available-Quiet s.receiver a.inv)
Step-Aligned p s t small a (ack_step io) =
    Quiet-Aligned p s _ a (ack-Quiet io s.receiver a.inv a.state_eq)
Step-Aligned p s t small a (himark_step io next_send_micros now) =
    Quiet-Aligned p s _ a (himark-Quiet io s.receiver next_send_micros now a.inv a.state_eq)
Step-Aligned p s t small a (read count out ready r run) =
    let (ready', r', eq, left, inv, sh) = try_read-Reads s.receiver count a.inv (inl a.state_eq) in
    let e = some_eq _ _ (sym eq ∙ run) in
    subst (λ (o : List ℕ × Bool × Receiver). Aligned p (after_read s o.0 o.2)) e
      (read-done p s a r' inv sh (take count (pending s.receiver)) (
        ap (λ xs. take count (pending s.receiver) ++ xs) left
        ∙ take-append-drop count (pending s.receiver)))

pub Reach-Aligned :
    (p : Peer) (r : Receiver) (s : Session)
    → ((k : ℕ) → length (p.payload k) ≤ 248)
    → IsFresh p r
    → Reach p r s
    → Aligned p s
Reach-Aligned p r s small f start = fresh-Aligned p r (IsFresh-Begun p r f)
Reach-Aligned p r s small f (later {s = u} reach step) =
    Step-Aligned p u s small (Reach-Aligned p r u small f reach) step

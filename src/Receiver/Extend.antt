-- ===== src/Receiver/Extend.antt =====
-- `handleDataPacket`: the window grows by empty slots.
use roo_transport.Prelude.{
  ℕ, zero, suc, ◌+◌, ◌%◌, ◌≤◌, ◌<◌, ◌≡◌, ◌≢◌, refl, sym, ap, ◌∙◌, subst, false, Option, none, some,
  List, length, set, get_or, All-set, length-set, get_or-set_self, get_or-set_ne, arith,
}
use native.Mathlib.Decide.{dec_lt}
use roo_transport.Seq.{SeqNum, seq_add}
use roo_transport.Seq.Order.{seq_add-zero, seq_add-sub16}
use roo_transport.Ring
use roo_transport.Ring.{RingBuffer, capacity, slots_used}
use roo_transport.Ring.Window.{capacity-le, push-some, used-push, push-IsValid}
use roo_transport.InBuffer
use roo_transport.InBuffer.{InBuffer, ContentType}
use roo_transport.Receiver.{Receiver, put_in_buffer}
use roo_transport.Receiver.Packet.{extend}
use roo_transport.Ring.Slots.{other_slot}
use roo_transport.Receiver.Stream.{stream, at, in_range, stream_grow, clear-unset}
use roo_transport.Receiver.Inv.{Inv, IsSmall, IsCursor, pending, skipped, nth}
use roo_transport.Receiver.ReadLaws.{clear-IsSmall}

abbrev pub widened : Receiver → SeqNum → List InBuffer → Receiver
widened r e bufs = record r { ring = record (r.ring) { end = e }; in_buffers = bufs }

-- The window with `n` more slots, all of them empty: nothing else is new.
pub record Extends (r : Receiver) (n : ℕ) (e : SeqNum) (bufs : List InBuffer) : Type 0 where
  pub inv : Inv (widened r e bufs)
  pub same : pending (widened r e bufs) ≡ pending r
  pub used : slots_used (widened r e bufs).ring ≡ slots_used r.ring + n
  pub old : (k : ℕ) → k < slots_used r.ring → nth (widened r e bufs) k ≡ nth r k
  pub new :
      (k : ℕ)
      → slots_used r.ring ≤ k
      → k < slots_used r.ring + n
      → (nth (widened r e bufs) k).type ≡ ContentType.unset

module _ (r : Receiver) (v : Inv r) where
  end_eq : r.ring.end ≡ seq_add r.ring.begin (slots_used r.ring)
  unfolding slots_used
  end_eq = sym (seq_add-sub16 r.ring.end r.ring.begin v.window.end_lt)

  abbrev grown_bufs : List InBuffer
  grown_bufs = set r.in_buffers (r.ring.end % capacity r.ring) InBuffer.clear

  abbrev grown : Receiver
  grown = widened r (seq_add r.ring.end 1) grown_bufs

  module _ (room : slots_used r.ring < capacity r.ring) where
    grown_old : (k : ℕ) → k < slots_used r.ring → nth grown k ≡ nth r k
    grown_old k h = get_or-set_ne r.in_buffers _ _ InBuffer.clear InBuffer.clear (
        subst (λ x. x % capacity r.ring ≢ seq_add r.ring.begin k % capacity r.ring) (sym end_eq)
          (other_slot r.ring.capacity_log2 r.ring.begin (slots_used r.ring) k v.window.small
            v.window.begin_lt room (omega arith) (capacity-le v.window) (omega arith)))

    grown_new : nth grown (slots_used r.ring) ≡ InBuffer.clear
    grown_new =
        ap
          (λ x.
            get_or (set r.in_buffers (x % capacity r.ring) InBuffer.clear)
              (seq_add r.ring.begin (slots_used r.ring) % capacity r.ring) InBuffer.clear)
          end_eq
        ∙ get_or-set_self r.in_buffers _ InBuffer.clear InBuffer.clear
            (in_range r.ring.capacity_log2 r.in_buffers _ v.storage (omega arith))

    grown-pending : pending grown ≡ pending r
    grown-pending =
        let n = slots_used r.ring in
        let b = r.ring.begin in
        let lg = r.ring.capacity_log2 in
        let b_eq : b ≡ seq_add b 0 = sym (seq_add-zero b v.window.begin_lt) in
        let n_eq : slots_used grown.ring ≡ suc n = omega (arith, used-push v.window) in
        let k_eq : n ≡ 0 + n = omega arith in
        ap (λ k. stream lg grown_bufs k b (skipped r)) n_eq
        ∙ ap
            (λ x.
              stream lg (set r.in_buffers (x % capacity r.ring) InBuffer.clear) (suc n) b
                (skipped r))
            (end_eq ∙ ap (seq_add b) k_eq)
        ∙ ap
            (λ x.
              stream lg (set r.in_buffers (seq_add b (0 + n) % capacity r.ring) InBuffer.clear)
                (suc n) x (skipped r))
            b_eq
        ∙ stream_grow lg b v.window.small v.window.begin_lt (capacity-le v.window) n 0 (skipped r)
            r.in_buffers (omega arith) v.storage
        ∙ ap (λ x. stream lg r.in_buffers n x (skipped r)) (sym b_eq)

    first_same :
        0 < slots_used r.ring
        → at r.ring.capacity_log2 grown_bufs r.ring.begin
          ≡ at r.ring.capacity_log2 r.in_buffers r.ring.begin
    first_same h =
        let b_eq : r.ring.begin ≡ seq_add r.ring.begin 0 =
          sym (seq_add-zero r.ring.begin v.window.begin_lt) in
        ap (at r.ring.capacity_log2 grown_bufs) b_eq
        ∙ grown_old 0 h
        ∙ ap (at r.ring.capacity_log2 r.in_buffers) (sym b_eq)

    grown-IsCursor :
        (c : Option ℕ)
        → IsCursor r.ring r.in_buffers r.current_pos c
        → IsCursor grown.ring grown.in_buffers r.current_pos c
    grown-IsCursor none h = tt
    grown-IsCursor (some i) (p, q, l) = (
      omega (arith, used-push v.window),
      q,
      subst (λ (b : InBuffer). r.current_pos ≤ length b.payload) (sym (first_same p)) l,
    )

    grown-Inv : r.peer_closed ≡ false → Inv grown
    grown-Inv not_closed = record {
      window = push-IsValid v.window room;
      storage = length-set r.in_buffers _ InBuffer.clear ∙ v.storage;
      sizes = All-set IsSmall r.in_buffers _ InBuffer.clear clear-IsSmall v.sizes;
      cursor = grown-IsCursor r.current v.cursor;
      final_last = λ k p f. not_fin k (omega (arith, used-push v.window)) f;
      final_closed = λ k p f. absurd (any k (dec_lt k (slots_used r.ring)) p f);
    }
      where
        not_fin : (k : ℕ) → k < slots_used r.ring → (nth grown k).type ≢ ContentType.fin
        not_fin k p f =
            cc (not_closed, v.final_closed k p (ap (λ b. b.type) (sym (grown_old k p)) ∙ f))

        any :
            (k : ℕ)
            → Dec (k < slots_used r.ring)
            → k < slots_used grown.ring
            → (nth grown k).type ≢ ContentType.fin
        any k (yes p) q f = not_fin k p f
        any k (no p) q f =
            let k_eq : k ≡ slots_used r.ring = omega (arith, used-push v.window) in
            cc (f, ap (λ b. b.type) (ap (nth grown) k_eq ∙ grown_new), clear-unset)

    grown-Extends : r.peer_closed ≡ false → Extends r 1 (seq_add r.ring.end 1) grown_bufs
    grown-Extends not_closed = record {
      inv = grown-Inv not_closed;
      same = grown-pending;
      used = used-push v.window;
      old = grown_old;
      new = λ k p q.
          let k_eq : k ≡ slots_used r.ring = omega arith in
          ap (λ b. b.type) (ap (nth grown) k_eq ∙ grown_new) ∙ clear-unset;
    }

-- Pushing `n` slots succeeds where there is room for them.
pub extend-Extends :
    (n : ℕ) (r : Receiver)
    → Inv r
    → r.peer_closed ≡ false
    → slots_used r.ring + n ≤ capacity r.ring
    → (e : SeqNum) × (bufs : List InBuffer) × (extend n r ≡ some (widened r e bufs))
      × Extends r n e bufs
unfolding extend put_in_buffer Ring.offset_for
extend-Extends zero r v not_closed room = (
  r.ring.end,
  r.in_buffers,
  refl,
  record {
    inv = v;
    same = refl;
    used = omega arith;
    old = λ k p. refl;
    new = λ k p q. absurd (omega arith);
  },
)
extend-Extends (suc n) r v not_closed room =
    let g = grown-Extends r v (omega arith) not_closed in
    let (e, bufs, eq, x) = extend-Extends n (grown r v) g.inv not_closed (omega (arith, g.used)) in
    (
      e,
      bufs,
      rw (push-some v.window (omega arith)) eq,
      record {
        inv = x.inv;
        same = x.same ∙ g.same;
        used = omega (arith, x.used, g.used);
        old = λ k p. x.old k (omega (arith, g.used)) ∙ g.old k p;
        new = λ k p q. later k (dec_lt (slots_used r.ring) k) p q g x;
      },
    )
  where
    later :
        {e : SeqNum} {bufs : List InBuffer} (k : ℕ)
        → Dec (slots_used r.ring < k)
        → slots_used r.ring ≤ k
        → k < slots_used r.ring + suc n
        → Extends r 1 (seq_add r.ring.end 1) (grown_bufs r v)
        → Extends (grown r v) n e bufs
        → (nth (widened r e bufs) k).type ≡ ContentType.unset
    later k (yes h) p q g x = x.new k (omega (arith, g.used)) (omega (arith, g.used))
    later k (no h) p q g x =
        ap (λ b. b.type) (x.old k (omega (arith, g.used))) ∙ g.new k p (omega arith)

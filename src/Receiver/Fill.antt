-- ===== src/Receiver/Fill.antt =====
-- What a data packet does to the window: the window may grow by empty slots, one slot may be filled
-- with the packet, and nothing else changes.
use roo_transport.Prelude.{
  ℕ, ◌+◌, ◌<◌, ◌≡◌, ◌⊎◌, inl, inr, sym, ap, ◌∙◌, Bool, List, if◌then◌else◌, subst, arith,
}
use native.Mathlib.Decide.{dec_lt}
use roo_transport.Seq.{SeqNum, sub16, seq_add}
use roo_transport.Ring.{RingBuffer, slots_used}
use roo_transport.InBuffer.{InBuffer, ContentType}
use roo_transport.Receiver.{Receiver}
use roo_transport.Receiver.Stream.{at}
use roo_transport.Receiver.Inv.{nth, skipped}
use roo_transport.Receiver.Extend.{widened, Extends}

abbrev pub kind : Bool → ContentType
kind final = if final then ContentType.fin else ContentType.content

-- Nothing that a reader sees has changed.
pub record Kept (r u : Receiver) : Type 0 where
  pub ring_eq : u.ring ≡ r.ring
  pub bufs_eq : u.in_buffers ≡ r.in_buffers
  pub read_eq : skipped u ≡ skipped r
  pub closed_eq : u.self_closed ≡ r.self_closed
  pub state_eq : u.state ≡ r.state

-- The packet with the number `seq` came: what a slot of the new window holds.
pub record Fills (r : Receiver) (seq : SeqNum) (final : Bool) (payload : List ℕ) (u : Receiver)
    : Type 0 where
  pub begin_eq : u.ring.begin ≡ r.ring.begin
  pub lg_eq : u.ring.capacity_log2 ≡ r.ring.capacity_log2
  pub read_eq : skipped u ≡ skipped r
  pub closed_eq : u.self_closed ≡ r.self_closed
  pub state_eq : u.state ≡ r.state
  pub used_cases :
      (slots_used u.ring ≡ slots_used r.ring) ⊎ (slots_used u.ring ≡ sub16 seq r.ring.begin + 1)
  pub slots :
      (k : ℕ)
      → k < slots_used u.ring
      → ((nth u k).type ≡ ContentType.unset)
        ⊎ (((k < slots_used r.ring) × (nth u k ≡ nth r k))
            ⊎ ((k ≡ sub16 seq r.ring.begin)
                × (nth u k ≡ record { type = kind final; payload = payload })))

pub nth-Kept : (r u : Receiver) (k : ℕ) → Kept r u → nth u k ≡ nth r k
nth-Kept r u k e =
    ap (λ (g : RingBuffer). at g.capacity_log2 u.in_buffers (seq_add g.begin k)) e.ring_eq
    ∙ ap (λ bs. at r.ring.capacity_log2 bs (seq_add r.ring.begin k)) e.bufs_eq

pub Kept-Fills :
    (r u : Receiver) (seq : SeqNum) (final : Bool) (payload : List ℕ)
    → Kept r u
    → Fills r seq final payload u
Kept-Fills r u seq final payload e = record {
  begin_eq = ap (λ (g : RingBuffer). g.begin) e.ring_eq;
  lg_eq = ap (λ (g : RingBuffer). g.capacity_log2) e.ring_eq;
  read_eq = e.read_eq;
  closed_eq = e.closed_eq;
  state_eq = e.state_eq;
  used_cases = inl (ap slots_used e.ring_eq);
  slots = λ k p. inr (inl (omega (arith, ap slots_used e.ring_eq), nth-Kept r u k e));
}

pub Fills-Kept :
    (r u w : Receiver) (seq : SeqNum) (final : Bool) (payload : List ℕ)
    → Fills r seq final payload u
    → Kept u w
    → Fills r seq final payload w
Fills-Kept r u w seq final payload f e = record {
  begin_eq = ap (λ (g : RingBuffer). g.begin) e.ring_eq ∙ f.begin_eq;
  lg_eq = ap (λ (g : RingBuffer). g.capacity_log2) e.ring_eq ∙ f.lg_eq;
  read_eq = e.read_eq ∙ f.read_eq;
  closed_eq = e.closed_eq ∙ f.closed_eq;
  state_eq = e.state_eq ∙ f.state_eq;
  used_cases =
      subst (λ n. (n ≡ slots_used r.ring) ⊎ (n ≡ sub16 seq r.ring.begin + 1))
        (sym (ap slots_used e.ring_eq)) f.used_cases;
  slots = λ k p.
      subst
        (λ b.
          (b.type ≡ ContentType.unset)
          ⊎ (((k < slots_used r.ring) × (b ≡ nth r k))
              ⊎ ((k ≡ sub16 seq r.ring.begin)
                  × (b ≡ record { type = kind final; payload = payload }))))
        (sym (nth-Kept u w k e)) (f.slots k (omega (arith, ap slots_used e.ring_eq)));
}

-- The window grew up to the packet first.
pub Extends-Fills :
    (r u : Receiver) (n : ℕ) (e : SeqNum) (bufs : List InBuffer) (seq : SeqNum) (final : Bool)
    (payload : List ℕ)
    → Extends r n e bufs
    → slots_used r.ring + n ≡ sub16 seq r.ring.begin + 1
    → Fills (widened r e bufs) seq final payload u
    → Fills r seq final payload u
Extends-Fills r u n e bufs seq final payload x reach f = record {
  begin_eq = f.begin_eq;
  lg_eq = f.lg_eq;
  read_eq = f.read_eq;
  closed_eq = f.closed_eq;
  state_eq = f.state_eq;
  used_cases = inr (omega (arith, f.used_cases, x.used, reach));
  slots = λ k p. back k (f.slots k p) (dec_lt k (slots_used r.ring));
}
  where
    back :
        (k : ℕ)
        → ((nth u k).type ≡ ContentType.unset)
          ⊎ (((k < slots_used (widened r e bufs).ring) × (nth u k ≡ nth (widened r e bufs) k))
              ⊎ ((k ≡ sub16 seq r.ring.begin)
                  × (nth u k ≡ record { type = kind final; payload = payload })))
        → Dec (k < slots_used r.ring)
        → ((nth u k).type ≡ ContentType.unset)
          ⊎ (((k < slots_used r.ring) × (nth u k ≡ nth r k))
              ⊎ ((k ≡ sub16 seq r.ring.begin)
                  × (nth u k ≡ record { type = kind final; payload = payload })))
    back k (inl un) d = inl un
    back k (inr (inr s)) d = inr (inr s)
    back k (inr (inl (lt, same))) (yes p) = inr (inl (p, same ∙ x.old k p))
    back k (inr (inl (lt, same))) (no p) =
        inl (ap (λ b. b.type) same ∙ x.new k (omega arith) (omega (arith, x.used)))

-- ===== src/Receiver/Accept.antt =====
-- `handleDataPacket`: a packet inside the window fills its slot, unless it is a retransmission.
use roo_transport.Prelude.{
  ℕ, ◌+◌, ◌%◌, ◌≤◌, ◌<◌, ◌≡◌, ◌≢◌, ◌⊎◌, inl, inr, refl, sym, ap, ◌∙◌, subst, Bool, true, false,
  Bool-cases, ==_iff, ◌==◌, le→leb, if◌then◌else◌, Option, none, some, List, [], ◌++◌, length, set,
  take_all, All-set, All-get_or, length-set, get_or-set_self, get_or-set_ne, append-nil,
  append_assoc, arith,
}
use native.Mathlib.Decide.{ℕ_discrete}
use roo_transport.Seq.{SeqNum, sub16, seq_add}
use roo_transport.Seq.Order.{seq_add-zero, sub16-seq_add}
use roo_transport.Ring
use roo_transport.Ring.{capacity, slots_used}
use roo_transport.Ring.Window.{capacity-le, used-le}
use roo_transport.InBuffer
use roo_transport.InBuffer.{InBuffer, ContentType, set_content}
use roo_transport.Receiver.{Receiver, is_unset}
use roo_transport.Receiver.Packet.{Outcome, unack_loop, acknowledge, accept}
use roo_transport.Ring.Slots.{other_slot}
use roo_transport.Receiver.Stream.{stream, at, in_range, stream_fill}
use roo_transport.Receiver.Inv.{Inv, IsSmall, IsCursor, limit, pending, skipped, nth}
use roo_transport.Receiver.ReadLaws.{clear-IsSmall}
use roo_transport.Receiver.Fill.{kind, Kept, Fills, Kept-Fills, Fills-Kept}
use roo_transport.Receiver.Unack.{moved, unack_loop-Reaches}

-- The call does not abort, the pending bytes stay as they are, and perhaps more come behind them;
-- at most the slot of the packet is filled, with the packet.
abbrev pub Delivers : Receiver → SeqNum → Bool → List ℕ → Option Outcome → Type 0
Delivers r seq final payload o =
    (a : Outcome) × (more : List ℕ) × (o ≡ some a)
    × (pending a.after ≡ pending r ++ more)
    × Inv a.after
    × Fills r seq final payload a.after

abbrev pub noted : Receiver → Bool → Receiver
noted r final = record r { peer_closed = if final then true else r.peer_closed; needs_ack = true }

abbrev pub stored : Receiver → ℕ → Bool → List ℕ → Receiver
stored r d final payload =
    noted
      (record r {
        in_buffers =
            set r.in_buffers (seq_add r.ring.begin d % capacity r.ring)
              (record { type = kind final; payload = payload });
      })
      final

Kept-refl : (r : Receiver) → Kept r r
Kept-refl r = record {
  ring_eq = refl;
  bufs_eq = refl;
  read_eq = refl;
  closed_eq = refl;
  state_eq = refl;
}

Kept-moved : (r : Receiver) (y m : ℕ) → Kept r (moved r y m)
Kept-moved r y m = record {
  ring_eq = refl;
  bufs_eq = refl;
  read_eq = refl;
  closed_eq = refl;
  state_eq = refl;
}

Kept-noted : (r : Receiver) (final : Bool) → Kept r (noted r final)
Kept-noted r final = record {
  ring_eq = refl;
  bufs_eq = refl;
  read_eq = refl;
  closed_eq = refl;
  state_eq = refl;
}

pub acknowledge-Delivers :
    (r : Receiver) (d : ℕ)
    → Inv r
    → r.self_closed ≡ false
    → d < slots_used r.ring
    → is_unset (nth r d) ≡ false
    → (a : Outcome) × (more : List ℕ) × (acknowledge r (seq_add r.ring.begin d) ≡ some a)
      × (pending a.after ≡ pending r ++ more)
      × Inv a.after
      × Kept r a.after
unfolding acknowledge
acknowledge-Delivers r d v not_closed inside filled =
    elim (Bool-cases (seq_add r.ring.begin d == r.unack_seq)) [
      | inl hit ↦
          let at_unack : r.unack_seq ≡ seq_add r.ring.begin d = sym ((==_iff _ _).0 hit) in
          let (y, m, eq, x, lt) =
            unack_loop-Reaches (slots_used r.ring + 1) r d r.packets_received v.window inside
              (omega arith) filled in
          let run : unack_loop (slots_used r.ring + 1) r ≡ some (moved r y m) =
            ap (λ k. unack_loop (slots_used r.ring + 1) (record r { unack_seq = k })) at_unack
            ∙ eq in
          let out : Outcome = record { has_ack = true; new_data = true; after = moved r y m } in
          (
            out,
            [],
            rw (hit, run) (ground arith),
            sym (append-nil (pending r)),
            record {
              window = v.window;
              storage = v.storage;
              sizes = v.sizes;
              cursor = v.cursor;
              final_last = v.final_last;
              final_closed = v.final_closed;
            },
            Kept-moved r y m,
          )
      | inr miss ↦
          let out : Outcome = record { has_ack = true; new_data = false; after = r } in
          (out, [], rw miss, sym (append-nil (pending r)), v, Kept-refl r)
    ]

module _ (r : Receiver) (v : Inv r) (final : Bool) (payload : List ℕ) where
  noted-closed : r.peer_closed ≡ true → (noted r final).peer_closed ≡ true
  noted-closed e = ground arith

  pub noted-Inv : Inv (noted r final)
  noted-Inv = record {
    window = v.window;
    storage = v.storage;
    sizes = v.sizes;
    cursor = v.cursor;
    final_last = v.final_last;
    final_closed = λ k p f. noted-closed (v.final_closed k p f);
  }

  module _ (d : ℕ) (inside : d < slots_used r.ring) (small : length payload ≤ 248)
      (last : final ≡ true → slots_used r.ring ≤ d + 1)
      (gap : (nth r d).type ≡ ContentType.unset) where
    abbrev pub after : Receiver
    after = stored r d final payload

    nth_other : (k : ℕ) → k < slots_used r.ring → k ≢ d → nth after k ≡ nth r k
    nth_other k p ne = get_or-set_ne r.in_buffers _ _ _ InBuffer.clear (
        other_slot r.ring.capacity_log2 r.ring.begin d k v.window.small v.window.begin_lt
          (omega (arith, v.window.fits)) (omega (arith, v.window.fits)) (capacity-le v.window)
          (λ e. ne (sym e)))

    pub nth_stored : nth after d ≡ record { type = kind final; payload = payload }
    nth_stored =
        get_or-set_self r.in_buffers _ _ InBuffer.clear
          (in_range r.ring.capacity_log2 r.in_buffers _ v.storage (omega (arith, v.window.fits)))

    kind_final : kind final ≡ ContentType.fin → final ≡ true
    kind_final e = ground arith

    kind_small : length payload ≤ limit (kind final)
    kind_small = ground arith

    first_fits :
        (c : Option ℕ)
        → IsCursor r.ring r.in_buffers r.current_pos c
        → IsCursor r.ring after.in_buffers r.current_pos c
    first_fits none h = tt
    first_fits (some i) (p, q, l) = (p, q, fits (ℕ_discrete 0 d))
      where
        b_eq : r.ring.begin ≡ seq_add r.ring.begin 0
        b_eq = sym (seq_add-zero r.ring.begin v.window.begin_lt)

        fits :
            Dec (0 ≡ d)
            → r.current_pos ≤ length (at r.ring.capacity_log2 after.in_buffers r.ring.begin).payload
        fits (yes e) =
            let start : (at r.ring.capacity_log2 r.in_buffers r.ring.begin).type
                ≡ ContentType.unset =
              ap (λ b. (at r.ring.capacity_log2 r.in_buffers b).type)
                (b_eq ∙ ap (seq_add r.ring.begin) e)
              ∙ gap in
            let room : length (at r.ring.capacity_log2 r.in_buffers r.ring.begin).payload ≤ 0 =
              subst
                (λ t. length (at r.ring.capacity_log2 r.in_buffers r.ring.begin).payload ≤ limit t)
                start
                (All-get_or IsSmall r.in_buffers (r.ring.begin % capacity r.ring) InBuffer.clear
                  clear-IsSmall v.sizes) in
            omega arith
        fits (no ne) =
            subst (λ (b : InBuffer). r.current_pos ≤ length b.payload)
              (ap (at r.ring.capacity_log2 r.in_buffers) b_eq
                ∙ sym (nth_other 0 p ne)
                ∙ ap (at r.ring.capacity_log2 after.in_buffers) (sym b_eq))
              l

    pub stored-Inv : Inv after
    stored-Inv = record {
      window = v.window;
      storage = length-set r.in_buffers _ _ ∙ v.storage;
      sizes = All-set IsSmall r.in_buffers _ _ kind_small v.sizes;
      cursor = first_fits r.current v.cursor;
      final_last = λ k p f. not_last k (ℕ_discrete k d) p f;
      final_closed = λ k p f. closed k (ℕ_discrete k d) p f;
    }
      where
        not_last :
            (k : ℕ) → Dec (k ≡ d) → k + 1 < slots_used r.ring → (nth after k).type ≢ ContentType.fin
        not_last k (yes e) p f =
            let t = kind_final (sym (ap (λ b. b.type) (ap (nth after) e ∙ nth_stored)) ∙ f) in
            absurd (omega (arith, last t))
        not_last k (no ne) p f =
            v.final_last k p (sym (ap (λ b. b.type) (nth_other k (omega arith) ne)) ∙ f)

        closed :
            (k : ℕ)
            → Dec (k ≡ d)
            → k < slots_used r.ring
            → (nth after k).type ≡ ContentType.fin
            → (noted r final).peer_closed ≡ true
        closed k (yes e) p f =
            ap (λ c. if c then true else r.peer_closed)
              (kind_final (sym (ap (λ b. b.type) (ap (nth after) e ∙ nth_stored)) ∙ f))
        closed k (no ne) p f =
            noted-closed (v.final_closed k p (sym (ap (λ b. b.type) (nth_other k p ne)) ∙ f))

    stored-Fills : Fills r (seq_add r.ring.begin d) final payload after
    stored-Fills = record {
      begin_eq = refl;
      lg_eq = refl;
      read_eq = refl;
      closed_eq = refl;
      state_eq = refl;
      used_cases = inl refl;
      slots = λ k p. slot_of k p (ℕ_discrete k d);
    }
      where
        d_eq : d ≡ sub16 (seq_add r.ring.begin d) r.ring.begin
        d_eq = sym (sub16-seq_add r.ring.begin d (omega (arith, used-le v.window)))

        slot_of :
            (k : ℕ)
            → k < slots_used r.ring
            → Dec (k ≡ d)
            → ((nth after k).type ≡ ContentType.unset)
              ⊎ (((k < slots_used r.ring) × (nth after k ≡ nth r k))
                  ⊎ ((k ≡ sub16 (seq_add r.ring.begin d) r.ring.begin)
                      × (nth after k ≡ record { type = kind final; payload = payload })))
        slot_of k p (yes e) = inr (inr (e ∙ d_eq, ap (nth after) e ∙ nth_stored))
        slot_of k p (no ne) = inr (inl (p, nth_other k p ne))

    stored-pending : (more : List ℕ) × (pending after ≡ pending r ++ more)
    stored-pending =
        subst
          (λ b.
            (more : List ℕ) × (stream r.ring.capacity_log2
                (set r.in_buffers (seq_add r.ring.begin d % capacity r.ring)
                  (record { type = kind final; payload = payload }))
                (slots_used r.ring) b (skipped r)
              ≡ stream r.ring.capacity_log2 r.in_buffers (slots_used r.ring) b (skipped r) ++ more))
          (seq_add-zero r.ring.begin v.window.begin_lt)
          (stream_fill r.ring.capacity_log2 r.ring.begin v.window.small v.window.begin_lt
            (capacity-le v.window) (slots_used r.ring) 0 d (skipped r) r.in_buffers _ (omega arith)
            (omega arith) (omega (arith, v.window.fits)) gap)

set_content-some :
    (t : ContentType) (payload : List ℕ)
    → length payload ≤ 248
    → set_content t payload ≡ some (record { type = t; payload = payload })
unfolding set_content
set_content-some t payload h =
    let len_eq : length payload % 256 ≡ length payload = omega arith in
    rw (len_eq, le→leb _ _ h, take_all (length payload) payload (omega arith))

pub accept_gap :
    (r : Receiver) (d : ℕ) (payload : List ℕ) (final : Bool)
    → length payload ≤ 248
    → is_unset (nth r d) ≡ true
    → accept r (seq_add r.ring.begin d) payload final
      ≡ acknowledge (stored r d final payload) (seq_add r.ring.begin d)
unfolding accept Ring.offset_for
accept_gap r d payload final h e = rw (accept, e, set_content-some (kind final) payload h)

pub accept_full :
    (r : Receiver) (d : ℕ) (payload : List ℕ) (final : Bool)
    → is_unset (nth r d) ≡ false
    → accept r (seq_add r.ring.begin d) payload final
      ≡ acknowledge (noted r final) (seq_add r.ring.begin d)
unfolding accept Ring.offset_for
accept_full r d payload final e = rw (accept, e)

pub is_unset-true : (b : InBuffer) → is_unset b ≡ true → b.type ≡ ContentType.unset
is_unset-true b e = ground arith

pub kind_filled :
    (final : Bool) (p : List ℕ) → is_unset (record { type = kind final; payload = p }) ≡ false
kind_filled true p = refl
kind_filled false p = refl

-- A packet for a slot of the window: `last` says that nothing is behind a final packet.
pub accept-Delivers :
    (r : Receiver) (d : ℕ) (payload : List ℕ) (final : Bool)
    → Inv r
    → r.self_closed ≡ false
    → d < slots_used r.ring
    → length payload ≤ 248
    → (final ≡ true → slots_used r.ring ≤ d + 1)
    → Delivers r
        (seq_add r.ring.begin d)
        final
        payload
        (accept r (seq_add r.ring.begin d) payload final)
accept-Delivers r d payload final v not_closed inside small last =
    elim (Bool-cases (is_unset (nth r d))) [
      | inl gap ↦
          let g = is_unset-true (nth r d) gap in
          let (more, grows) = stored-pending r v final payload d inside small last g in
          let (a, tail, eq, same, inv, keeps) =
            acknowledge-Delivers (stored r d final payload) d
              (stored-Inv r v final payload d inside small last g) not_closed inside
              (ap is_unset (nth_stored r v final payload d inside small last g)
                ∙ kind_filled final payload) in
          (
            a,
            more ++ tail,
            accept_gap r d payload final small gap ∙ eq,
            same ∙ ap (λ xs. xs ++ tail) grows ∙ append_assoc (pending r) more tail,
            inv,
            Fills-Kept r (stored r d final payload) a.after (seq_add r.ring.begin d) final payload
                (stored-Fills r v final payload d inside small last g) keeps,
          )
      | inr full ↦
          let (a, more, eq, same, inv, keeps) =
            acknowledge-Delivers (noted r final) d (noted-Inv r v final payload) not_closed inside
              full in
          (
            a,
            more,
            accept_full r d payload final full ∙ eq,
            same,
            inv,
            Fills-Kept r (noted r final) a.after (seq_add r.ring.begin d) final payload
                (Kept-Fills r (noted r final) (seq_add r.ring.begin d) final payload
                  (Kept-noted r final))
                keeps,
          )
    ]

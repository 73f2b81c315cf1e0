-- ===== src/Transmitter/AckLaws.antt =====
-- `ack` of roo_transport/link/internal/transmitter.cpp as a whole.
use roo_transport.Prelude.{
  ℕ, suc, ◌+◌, ◌≤◌, ◌<◌, ◌≡◌, inl, inr, refl, sym, ap, ◌∙◌, subst, Bool, true, false, ◌==◌, ◌&&◌,
  not, same, leb, leb→le, Bool-cases, ==_iff, ==_ne, if◌then◌else◌, ◌>>=◌, Option, none, some, List,
  ◌++◌, arith,
}
use roo_transport.Seq.{SeqNum, sub16, seq_lt, seq_gt}
use roo_transport.Ring
use roo_transport.Ring.{RingBuffer, slots_used, restore_pos_high_bits}
use roo_transport.Ring.Window.{used-le}
use roo_transport.Ring.Restore.{restore_distance, restore-lt}
use roo_transport.Transmitter.{Transmitter, State, reset, drain}
use roo_transport.Transmitter.Ack.{ack, ack_connected, pop_acked, process_skips}
use roo_transport.Transmitter.Queue.{Inv, queue, outgoing}
use roo_transport.Transmitter.Same.{marked, marked-Inv}
use roo_transport.Transmitter.Skips.{process_skips-Marks}
use roo_transport.Transmitter.PopLaws.{IsOpenKept, Pops, loop_end, pop_acked-Pops}

-- How many packets an acknowledgement covers: those of the window before the number in it, if that
-- is a number of the window or the one behind it.
abbrev pub covered : Transmitter → SeqNum → ℕ
covered t seq =
    if leb (sub16 seq t.ring.begin) (slots_used t.ring) then sub16 seq t.ring.begin else 0

abbrev pub acked_count : Transmitter → Bool → ℕ → ℕ
acked_count t control_bit seq_id = elim t.state [
  | State.connected ↦
      if same control_bit t.control_bit
      then 0
      else covered t (restore_pos_high_bits t.ring seq_id 12)
  | _ ↦ 0
]

-- The first `d` packets go, and all bytes behind them still wait, in order.
abbrev pub Acks : Transmitter → ℕ → Option (Bool × Transmitter) → Type 0
Acks t d o =
    (rushed : Bool) × (t' : Transmitter) × (o ≡ some (rushed, t'))
    × (outgoing t ≡ queue t.ring.capacity_log2 t.out_buffers t.ring.begin d ++ outgoing t')
    × Inv t'

-- What `ack` does behind the loop: `u` is the state that the loop leaves.
abbrev finish_ack : List ℕ → Transmitter → Option (Bool × Transmitter)
finish_ack bitmap u =
    if Ring.is_empty u.ring
    then (if u.end_of_stream then reset u >>= (λ v. some (false, v)) else some (false, u))
    else process_skips u bitmap

abbrev emptied : Transmitter → Transmitter
emptied u = record u {
  end_of_stream = false;
  my_stream_id = 0;
  state = State.idle;
  current = none;
  has_pending_eof = false;
}

drain_empty : (ring : RingBuffer) → slots_used ring ≡ 0 → drain 0 ring ≡ some ring
unfolding drain Ring.is_empty
drain_empty ring z = rw z

reset-emptied : (u : Transmitter) → slots_used u.ring ≡ 0 → reset u ≡ some (emptied u)
unfolding reset
reset-emptied u z =
    ap (λ o. o >>= (λ ring. some (record (emptied u) { ring = ring })))
      (ap (λ n. drain n u.ring) z ∙ drain_empty u.ring z)

emptied-Inv : (u : Transmitter) → Inv u → Inv (emptied u)
emptied-Inv u v = record {
  window = v.window;
  storage = v.storage;
  tail = λ o. absurd (cc o);
  himark_lt = v.himark_lt;
  credit = λ o. absurd (cc o);
  pending_eof = λ e. absurd (cc e);
}

finish_ack-same :
    (bitmap : List ℕ) (u : Transmitter)
    → Inv u
    → (rushed : Bool) × (t' : Transmitter) × (finish_ack bitmap u ≡ some (rushed, t'))
      × (outgoing t' ≡ outgoing u)
      × Inv t'
unfolding Ring.is_empty reset
finish_ack-same bitmap u v = elim (Bool-cases (slots_used u.ring == 0)) [
  | inl e ↦
      let z = (==_iff (slots_used u.ring) 0).0 e in
      elim (Bool-cases u.end_of_stream) [
        | inl closed ↦ (false, emptied u, rw (e, closed, reset-emptied u z), refl, emptied-Inv u v)
        | inr open_ ↦ (false, u, rw (e, open_), refl, v)
      ]
  | inr ne ↦
      let some_ : 0 < slots_used u.ring = omega (arith, ==_ne (slots_used u.ring) 0 ne) in
      let (rushed, bufs, next, eq, same) = process_skips-Marks u bitmap v.window some_ in
      let (inv, out) = marked-Inv u bufs next same v in
      (rushed, marked u bufs next, rw (ne, eq), out, inv)
]

kept_all :
    (t : Transmitter) (o : Option (Bool × Transmitter)) → Inv t → o ≡ some (false, t) → Acks t 0 o
unfolding queue
kept_all t o v e = (false, t, e, refl, v)

module _ (t : Transmitter) (control_bit : Bool) (seq_id : ℕ) (bitmap : List ℕ) (v : Inv t) where
  abbrev seq : SeqNum
  seq = restore_pos_high_bits t.ring seq_id 12

  finish-Acks :
      (d : ℕ)
      → Pops t d (pop_acked (slots_used t.ring + 2) t seq)
      → same control_bit t.control_bit ≡ false
      → seq_gt seq t.ring.end ≡ false
      → Acks t d (ack_connected t control_bit seq_id bitmap)
  unfolding ack_connected
  finish-Acks d (u, eq, split, inv) peer near =
      let (rushed, t', eq', out, inv') = finish_ack-same bitmap u inv in
      (
        rushed,
        t',
        rw (ack_connected, peer, near, eq) eq',
        split ∙ ap (λ xs. queue t.ring.capacity_log2 t.out_buffers t.ring.begin d ++ xs) (sym out),
        inv',
      )

  ahead : seq_gt seq t.ring.end ≡ true → covered t seq ≡ 0
  unfolding seq_gt sub16 slots_used
  ahead e =
      ground
        (arith, restore_distance t.ring seq_id v.window.begin_lt, used-le v.window, v.window.end_lt)

  -- An old number stops the loop at once.
  old :
      leb (sub16 seq t.ring.begin) (slots_used t.ring) ≡ false
      → seq_gt seq t.ring.end ≡ false
      → (seq_lt t.ring.begin seq && not (Ring.is_empty t.ring)) ≡ false
  unfolding seq_gt seq_lt sub16 slots_used
  old e g = ground (arith, restore_distance t.ring seq_id v.window.begin_lt, used-le v.window)

  near-Acks :
      same control_bit t.control_bit ≡ false
      → seq_gt seq t.ring.end ≡ false
      → IsOpenKept t (covered t seq)
      → Acks t (covered t seq) (ack_connected t control_bit seq_id bitmap)
  unfolding queue
  near-Acks peer near kept =
      let n = slots_used t.ring in
      let d = sub16 seq t.ring.begin in
      elim (Bool-cases (leb d n)) [
        | inl inside ↦
            let e : covered t seq ≡ d = ground arith in
            let le : d ≤ n = leb→le d n inside in
            rw e (
              finish-Acks d
                (pop_acked-Pops (n + 2) d t seq v (restore-lt t.ring seq_id) refl le
                  (subst (IsOpenKept t) e kept) (omega arith))
                peer near)
        | inr outside ↦
            let e : covered t seq ≡ 0 = ground arith in
            let one : n + 2 ≡ suc (n + 1) = omega arith in
            rw e (
              finish-Acks 0
                (
                  t,
                  ap (λ k. pop_acked k t seq) one ∙ loop_end (n + 1) t seq (old outside near),
                  refl,
                  v,
                )
                peer near)
      ]

  connected-Acks :
      IsOpenKept t (if same control_bit t.control_bit then 0 else covered t seq)
      → Acks t
          (if same control_bit t.control_bit then 0 else covered t seq)
          (ack_connected t control_bit seq_id bitmap)
  unfolding ack_connected queue
  connected-Acks kept = elim (Bool-cases (same control_bit t.control_bit)) [
    | inl echo ↦ rw echo (kept_all t _ v (ground arith))
    | inr peer ↦ elim (Bool-cases (seq_gt seq t.ring.end)) [
      | inl far ↦ rw (peer, ahead far) (kept_all t _ v (ground arith))
      | inr near ↦
          subst
            (λ b.
              Acks t (if b then 0 else covered t seq) (ack_connected t control_bit seq_id bitmap))
            (sym peer)
            (near-Acks peer near
              (subst (λ b. IsOpenKept t (if b then 0 else covered t seq)) peer kept))
    ]
  ]

-- An acknowledgement does not abort. It removes exactly the packets it covers from the front and
-- keeps the bytes behind them, in order, whatever packets its bitmap names and whether or not the
-- final packet is appended by the way; a foreign one changes nothing of that. The condition is that
-- a buffer that is still being filled, and so was never sent, is not acknowledged; one that the
-- sender has finished may be, although the pointer to it is left.
pub ack-Acks :
    (t : Transmitter) (control_bit : Bool) (seq_id : ℕ) (bitmap : List ℕ)
    → Inv t
    → IsOpenKept t (acked_count t control_bit seq_id)
    → Acks t (acked_count t control_bit seq_id) (ack t control_bit seq_id bitmap)
unfolding ack
ack-Acks t control_bit seq_id bitmap v kept = by_state t.state refl
  where
    idle :
        acked_count t control_bit seq_id ≡ 0
        → ack t control_bit seq_id bitmap ≡ some (false, t)
        → Acks t (acked_count t control_bit seq_id) (ack t control_bit seq_id bitmap)
    idle z e = subst (λ d. Acks t d (ack t control_bit seq_id bitmap)) (sym z) (kept_all t _ v e)

    by_state :
        (s : State)
        → t.state ≡ s
        → Acks t (acked_count t control_bit seq_id) (ack t control_bit seq_id bitmap)
    by_state State.connected e =
        let count : acked_count t control_bit seq_id ≡ (
            if same control_bit t.control_bit
            then 0
            else covered t (restore_pos_high_bits t.ring seq_id 12)) =
          ground arith in
        let eq : ack t control_bit seq_id bitmap ≡ ack_connected t control_bit seq_id bitmap =
          ground arith in
        subst (λ o. Acks t (acked_count t control_bit seq_id) o) (sym eq)
          (subst (λ d. Acks t d (ack_connected t control_bit seq_id bitmap)) (sym count)
            (connected-Acks t control_bit seq_id bitmap v (subst (IsOpenKept t) count kept)))
    by_state State.idle e = idle (ground arith) (ground arith)
    by_state State.connecting e = idle (ground arith) (ground arith)
    by_state State.broken e = idle (ground arith) (ground arith)

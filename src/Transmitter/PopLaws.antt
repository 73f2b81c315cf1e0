-- ===== src/Transmitter/PopLaws.antt =====
-- `ack` of roo_transport/link/internal/transmitter.cpp: the packets acknowledged in sequence go.
use roo_transport.Prelude.{
  ℕ, zero, suc, ◌+◌, ◌-◌, ◌%◌, ◌^◌, ◌≤◌, ◌<◌, ◌≡◌, ◌≢◌, inl, inr, refl, sym, ap, ◌∙◌, Bool, true,
  false, ◌&&◌, not, if◌then◌else◌, ◌>>=◌, Option, none, some, List, ◌++◌, append-nil, append_assoc,
  get_or, set, length-set, arith,
}
use roo_transport.Seq.{SeqNum, sub16, seq_add, seq_lt}
use roo_transport.Seq.Order.{seq_add-zero, seq_add-seq_add, seq_add-sub16}
use roo_transport.Ring
use roo_transport.Ring.{RingBuffer, capacity, slots_used}
use roo_transport.Ring.Window.{
  IsValid, capacity-le, used-le, used-pop, pop-some, pop-IsValid, push-some, push-IsValid,
  used-push,
}
use roo_transport.OutBuffer
use roo_transport.OutBuffer.{OutBuffer}
use roo_transport.Transmitter.{Transmitter, add_eos_packet}
use roo_transport.Transmitter.Ack.{eof_added, pop_acked}
use roo_transport.Transmitter.Queue.{
  Inv, IsTail, is_open, at, queue, outgoing, queue_push, queue-set_behind,
}

one_more : (n : ℕ) → suc n ≡ 1 + n
one_more n = omega arith

-- The first slot of a stretch, and the others.
queue-cons :
    (lg : ℕ) (bufs : List OutBuffer) (b n : ℕ)
    → b < 65536
    → queue lg bufs b (suc n) ≡ (at lg bufs b).payload ++ queue lg bufs (seq_add b 1) n
unfolding queue
queue-cons lg bufs b zero h =
    ap (λ e. (at lg bufs e).payload) (seq_add-zero b h) ∙ sym (append-nil (at lg bufs b).payload)
queue-cons lg bufs b (suc n) h =
    let e : seq_add b (suc n) ≡ seq_add (seq_add b 1) n =
      ap (seq_add b) (one_more n) ∙ sym (seq_add-seq_add b 1 n) in
    ap (λ xs. xs ++ (at lg bufs (seq_add b (suc n))).payload) (queue-cons lg bufs b n h)
    ∙ append_assoc (at lg bufs b).payload _ _
    ∙ ap (λ k. (at lg bufs b).payload ++ (queue lg bufs (seq_add b 1) n ++ (at lg bufs k).payload))
        e

-- The first packet is acknowledged.
abbrev pub popped : Transmitter → Transmitter
popped t = record t {
  ring = record (t.ring) { begin = seq_add t.ring.begin 1 };
  packets_delivered = (t.packets_delivered + 1) % 2 ^ 32;
}

abbrev last_buffer : Transmitter → OutBuffer
last_buffer t = OutBuffer.finish (OutBuffer.mark_final (OutBuffer.init t.ring.end t.control_bit))

-- The final packet that waited for a free slot is appended.
abbrev pub ended : Transmitter → Transmitter
ended t = record t {
  ring = record (t.ring) { end = seq_add t.ring.end 1 };
  out_buffers = set t.out_buffers (t.ring.end % capacity t.ring) (last_buffer t);
  has_pending_eof = false;
}

-- A buffer that is still being filled is not among the `d` packets that are acknowledged.
abbrev pub IsOpenKept : Transmitter → ℕ → Type 0
IsOpenKept t d =
    is_open t ≡ true
    → (i : ℕ) → t.current ≡ some i
    → (get_or t.out_buffers i OutBuffer.new_out_buffer).finished ≡ false
    → d < slots_used t.ring

end_at : (r : RingBuffer) → IsValid r → r.end ≡ seq_add r.begin (slots_used r)
unfolding slots_used
end_at r v = sym (seq_add-sub16 r.end r.begin v.end_lt)

module _ (t : Transmitter) (v : Inv t) where
  outgoing-popped :
      0 < slots_used t.ring
      → outgoing t
        ≡ (at t.ring.capacity_log2 t.out_buffers t.ring.begin).payload ++ outgoing (popped t)
  outgoing-popped h =
      let lg = t.ring.capacity_log2 in
      let n = slots_used t.ring - 1 in
      let used : slots_used t.ring ≡ suc n = omega arith in
      ap (queue lg t.out_buffers t.ring.begin) used
      ∙ queue-cons lg t.out_buffers t.ring.begin n v.window.begin_lt
      ∙ ap
          (λ k.
            (at lg t.out_buffers t.ring.begin).payload
            ++ queue lg t.out_buffers (seq_add t.ring.begin 1) k)
          (sym (used-pop v.window h))

  popped-IsTail :
      0 < slots_used t.ring
      → (c : Option ℕ)
      → ((i : ℕ)
          → c ≡ some i
          → (get_or t.out_buffers i OutBuffer.new_out_buffer).finished ≡ false
          → 1 < slots_used t.ring)
      → IsTail t.ring t.out_buffers c
      → IsTail (popped t).ring t.out_buffers c
  popped-IsTail h none p x = tt
  popped-IsTail h (some i) p (inl finished) = inl finished
  popped-IsTail h (some i) p (inr (q, e, f, l)) =
      let more = p i refl f in
      let last : seq_add t.ring.begin (slots_used t.ring - 1)
          ≡ seq_add (seq_add t.ring.begin 1) (slots_used (popped t).ring - 1) =
        ap (seq_add t.ring.begin) (omega (arith, used-pop v.window h))
        ∙ sym (seq_add-seq_add t.ring.begin 1 (slots_used (popped t).ring - 1)) in
      inr (omega (arith, used-pop v.window h), e ∙ ap (λ s. s % capacity t.ring) last, f, l)

  popped-Inv : 0 < slots_used t.ring → IsOpenKept t 1 → Inv (popped t)
  popped-Inv h p = record {
    window = pop-IsValid v.window h;
    storage = v.storage;
    tail = λ e. popped-IsTail h t.current (p e) (v.tail e);
    himark_lt = v.himark_lt;
    credit = v.credit;
    pending_eof = v.pending_eof;
  }

  eof_added-ended : slots_used t.ring < capacity t.ring → eof_added t ≡ some (ended t)
  unfolding eof_added add_eos_packet Ring.offset_for
  eof_added-ended h = rw (push-some v.window h)

  outgoing-ended : slots_used t.ring < capacity t.ring → outgoing (ended t) ≡ outgoing t
  unfolding OutBuffer.finish OutBuffer.mark_final OutBuffer.init
  outgoing-ended h = queue_push t.ring t.out_buffers _ v.window h v.storage refl

  ended-Inv : slots_used t.ring < capacity t.ring → t.end_of_stream ≡ true → Inv (ended t)
  ended-Inv h e = record {
    window = push-IsValid v.window h;
    storage = length-set t.out_buffers _ _ ∙ v.storage;
    tail = λ o. absurd (shut o);
    himark_lt = v.himark_lt;
    credit = λ o. absurd (shut o);
    pending_eof = λ x. e;
  }
    where
      shut : is_open t ≢ true
      shut o = ground arith

-- The acknowledged packets go, and what waits behind them stays.
abbrev pub Pops : Transmitter → ℕ → Option Transmitter → Type 0
Pops t d o =
    (t' : Transmitter) × (o ≡ some t')
    × (outgoing t ≡ queue t.ring.capacity_log2 t.out_buffers t.ring.begin d ++ outgoing t')
    × Inv t'

-- The state after one round; `eof` says whether the final packet waits.
abbrev after_pop : Transmitter → Bool → Transmitter
after_pop t eof = if eof then ended (popped t) else popped t

-- What the rest of the loop needs to know of that state.
record After (t : Transmitter) (d : ℕ) (w : Transmitter) : Type 0 where
  inv : Inv w
  begin_eq : w.ring.begin ≡ seq_add t.ring.begin 1
  enough : d ≤ slots_used w.ring
  kept : IsOpenKept w d
  same : outgoing w ≡ outgoing (popped t)
  same_front :
      queue w.ring.capacity_log2 w.out_buffers w.ring.begin d
      ≡ queue t.ring.capacity_log2 t.out_buffers (seq_add t.ring.begin 1) d

after_pop-After :
    (t : Transmitter) (eof : Bool) (d : ℕ)
    → t.has_pending_eof ≡ eof
    → Inv t
    → suc d ≤ slots_used t.ring
    → IsOpenKept t (suc d)
    → After t d (after_pop t eof)
after_pop-After t false d e v h p =
    let used = used-pop v.window (omega arith) in
    record {
      inv = popped-Inv t v (omega arith) (λ o i c f. omega (arith, p o i c f));
      begin_eq = refl;
      enough = omega (arith, used);
      kept = λ o i c f. omega (arith, p o i c f, used);
      same = refl;
      same_front = refl;
    }
after_pop-After t true d e v h p =
    let pv = popped-Inv t v (omega arith) (λ o i c f. omega (arith, p o i c f)) in
    let used = used-pop v.window (omega arith) in
    let room : slots_used (popped t).ring < capacity t.ring = omega (arith, used, v.window.fits) in
    let n = slots_used (popped t).ring in
    let end_eq : t.ring.end ≡ seq_add (popped t).ring.begin n = end_at (popped t).ring pv.window in
    let lg = t.ring.capacity_log2 in
    record {
      inv = ended-Inv (popped t) pv room (v.pending_eof e);
      begin_eq = refl;
      enough = omega (arith, used, used-push pv.window);
      kept = λ o i c f. absurd (closed o (v.pending_eof e));
      same = outgoing-ended (popped t) pv room;
      same_front =
          ap
            (λ k.
              queue lg (set t.out_buffers (k % 2 ^ lg) (last_buffer t)) (seq_add t.ring.begin 1) d)
            end_eq
          ∙ queue-set_behind lg (seq_add t.ring.begin 1) v.window.small pv.window.begin_lt
              (capacity-le v.window) d n t.out_buffers _ (omega (arith, used)) room;
    }
  where
    closed : is_open (ended (popped t)) ≡ true → t.end_of_stream ≢ true
    closed o q = ground arith

module _ (fuel : ℕ) (t : Transmitter) (seq : SeqNum) where
  pub loop_end :
      (seq_lt t.ring.begin seq && not (Ring.is_empty t.ring)) ≡ false
      → pop_acked (suc fuel) t seq ≡ some t
  unfolding pop_acked
  loop_end e = rw (pop_acked, e)

  -- What the loop does with the state after the pop.
  abbrev next : Bool → Option Transmitter
  next eof = (if eof then eof_added (popped t) else some (popped t)) >>= (λ v. pop_acked fuel v seq)

  loop_next :
      (seq_lt t.ring.begin seq && not (Ring.is_empty t.ring)) ≡ true
      → 0 < slots_used t.ring
      → pop_acked (suc fuel) t seq ≡ next t.has_pending_eof
  unfolding pop_acked
  loop_next c h = rw (pop_acked, c, pop-some {r = t.ring} h)

  next_eq :
      (eof : Bool)
      → Inv t
      → 0 < slots_used t.ring
      → IsOpenKept t 1
      → next eof ≡ pop_acked fuel (after_pop t eof) seq
  next_eq false v h p = refl
  next_eq true v h p =
      ap (λ o. o >>= (λ v. pop_acked fuel v seq))
        (eof_added-ended (popped t) (popped-Inv t v h p)
          (omega (arith, used-pop v.window h, v.window.fits)))

at_least : (d : ℕ) (t : Transmitter) → IsOpenKept t d → 1 ≤ d → IsOpenKept t 1
at_least d t kept h o i c f = omega (arith, kept o i c f)

nearer :
    (t : Transmitter) (seq : SeqNum) (d : ℕ)
    → sub16 seq t.ring.begin ≡ suc d
    → sub16 seq (seq_add t.ring.begin 1) ≡ d
unfolding sub16 seq_add
nearer t seq d e = omega arith

stop :
    (t : Transmitter) (seq : SeqNum)
    → sub16 seq t.ring.begin ≡ 0
    → (seq_lt t.ring.begin seq && not (Ring.is_empty t.ring)) ≡ false
unfolding seq_lt sub16
stop t seq e = ground arith

go :
    (t : Transmitter) (seq : SeqNum)
    → 0 < sub16 seq t.ring.begin
    → sub16 seq t.ring.begin ≤ slots_used t.ring
    → slots_used t.ring ≤ 1024
    → (seq_lt t.ring.begin seq && not (Ring.is_empty t.ring)) ≡ true
unfolding seq_lt sub16 Ring.is_empty
go t seq p h le = ground arith

-- The loop ends within its fuel; the number is the distance of an acknowledgement inside the window.
pub pop_acked-Pops :
    (fuel d : ℕ) (t : Transmitter) (seq : SeqNum)
    → Inv t
    → seq < 65536
    → sub16 seq t.ring.begin ≡ d
    → d ≤ slots_used t.ring
    → IsOpenKept t d
    → d < fuel
    → Pops t d (pop_acked fuel t seq)
unfolding queue
pop_acked-Pops zero d t seq v lt e inside kept enough = absurd (omega arith)
pop_acked-Pops (suc fuel) zero t seq v lt e inside kept enough =
    (t, loop_end fuel t seq (stop t seq e), refl, v)
pop_acked-Pops (suc fuel) (suc d) t seq v lt e inside kept enough =
    let eof = t.has_pending_eof in
    let p = at_least (suc d) t kept (omega arith) in
    let a = after_pop-After t eof d refl v inside kept in
    let (t', eq, same, inv) =
      pop_acked-Pops fuel d (after_pop t eof) seq a.inv lt
        (ap (sub16 seq) a.begin_eq ∙ nearer t seq d e) a.enough a.kept (omega arith) in
    let lg = t.ring.capacity_log2 in
    (
      t',
      loop_next fuel t seq (go t seq (omega arith) (omega arith) (used-le v.window)) (omega arith)
          ∙ next_eq fuel t seq eof v (omega arith) p
          ∙ eq,
      outgoing-popped t v (omega arith)
          ∙ ap (λ xs. (at lg t.out_buffers t.ring.begin).payload ++ xs)
              (sym a.same ∙ same ∙ ap (λ xs. xs ++ outgoing t') a.same_front)
          ∙ sym (append_assoc (at lg t.out_buffers t.ring.begin).payload _ (outgoing t'))
          ∙ ap (λ xs. xs ++ outgoing t')
              (sym (queue-cons lg t.out_buffers t.ring.begin d v.window.begin_lt)),
      inv,
    )

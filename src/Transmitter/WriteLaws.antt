-- ===== src/Transmitter/WriteLaws.antt =====
-- One round of `tryWrite` of roo_transport/link/internal/transmitter.cpp.
use roo_transport.Prelude.{
  ℕ, suc, ◌-◌, ◌%◌, ◌<◌, ◌≡◌, ◌⊎◌, inl, inr, refl, sym, ap, ◌∙◌, subst, Bool, true, false, ◌==◌,
  ◌||◌, if◌then◌else◌, none, some, List, ◌++◌, length, take, get_or, set, append_assoc, length-set,
  get_or-set_self, set-get_or, ==_ne, arith,
}
use native.Mathlib.Nat.{mod-lt}
use roo_transport.Seq.{sub16, seq_add}
use roo_transport.Seq.Order.{seq_add-sub16}
use roo_transport.Ring
use roo_transport.Ring.{RingBuffer, capacity, slots_used, slots_free}
use roo_transport.Ring.Window.{IsValid, capacity-le, free-used, push-some, used-push, push-IsValid}
use roo_transport.OutBuffer
use roo_transport.OutBuffer.{OutBuffer}
use roo_transport.OutBuffer.Write.{Wrote}
use roo_transport.Transmitter.{Transmitter, open_buffer}
use roo_transport.Transmitter.Queue.{
  Inv, IsTail, IsLast, at, queue, outgoing, queue-set_behind, queue_push,
}

-- No byte can be taken: the peer's limit is reached, or all slots are in use.
abbrev pub is_blocked : Transmitter → Bool
is_blocked t = t.recv_himark == t.ring.end || slots_free t.ring == 0

-- The state with a new buffer at the end.
abbrev pub fresh : Transmitter → Transmitter
fresh t = record t {
  ring = record (t.ring) { end = seq_add t.ring.end 1 };
  current = some (t.ring.end % capacity t.ring);
  out_buffers =
      set t.out_buffers (t.ring.end % capacity t.ring) (OutBuffer.init t.ring.end t.control_bit);
}

free_room : (r : RingBuffer) → IsValid r → (slots_free r == 0) ≡ false → slots_used r < capacity r
free_room r v e = omega (arith, free-used v, ==_ne (slots_free r) 0 e)

module _ (t : Transmitter) where
  pub open_current : (i : ℕ) → t.current ≡ some i → open_buffer t ≡ some (some (i, t))
  unfolding open_buffer
  open_current i e = ground arith

  pub open_blocked : t.current ≡ none → is_blocked t ≡ true → open_buffer t ≡ some none
  unfolding open_buffer
  open_blocked e b = rw (open_buffer, e, b)

  module _ (v : Inv t) (free : is_blocked t ≡ false) where
    free_slot : (slots_free t.ring == 0) ≡ false
    free_slot = ground arith

    below : (t.recv_himark == t.ring.end) ≡ false
    below = ground arith

    room : slots_used t.ring < capacity t.ring
    room = free_room t.ring v.window free_slot

    pub open_fresh :
        t.current ≡ none → open_buffer t ≡ some (some (t.ring.end % capacity t.ring, fresh t))
    unfolding open_buffer Ring.offset_for
    open_fresh e = rw (open_buffer, e, free, push-some v.window room)

    end_eq : t.ring.end ≡ seq_add t.ring.begin (slots_used t.ring)
    unfolding slots_used
    end_eq = sym (seq_add-sub16 t.ring.end t.ring.begin v.window.end_lt)

    used_eq : slots_used (fresh t).ring ≡ suc (slots_used t.ring)
    used_eq = omega (arith, used-push v.window)

    new_buffer :
        get_or (fresh t).out_buffers (t.ring.end % capacity t.ring) OutBuffer.new_out_buffer
        ≡ OutBuffer.init t.ring.end t.control_bit
    new_buffer = get_or-set_self t.out_buffers _ _ OutBuffer.new_out_buffer (
        subst (λ n. t.ring.end % capacity t.ring < n) (sym v.storage)
          (mod-lt t.ring.end (omega (arith, room))))

    credit_left :
        sub16 t.recv_himark t.ring.end < 32768 → sub16 t.recv_himark (seq_add t.ring.end 1) < 32768
    unfolding sub16 seq_add
    credit_left c =
        omega (arith, v.himark_lt, v.window.end_lt, ==_ne t.recv_himark t.ring.end below)

    pub fresh-IsLast : IsLast (fresh t).ring (fresh t).out_buffers (t.ring.end % capacity t.ring)
    unfolding OutBuffer.init
    fresh-IsLast = (
      omega (arith, used_eq),
      ap (λ e. e % capacity t.ring) end_eq
          ∙ ap (λ n. seq_add t.ring.begin n % capacity t.ring) (omega (arith, used_eq)),
      ap (λ b. b.finished) new_buffer,
      rw (ap (λ b. b.payload) new_buffer) (omega arith),
    )

    pub fresh-Inv : Inv (fresh t)
    fresh-Inv = record {
      window = push-IsValid v.window room;
      storage = length-set t.out_buffers _ _ ∙ v.storage;
      tail = λ e. inr fresh-IsLast;
      himark_lt = v.himark_lt;
      credit = λ e. credit_left (v.credit e);
      pending_eof = v.pending_eof;
    }

    pub outgoing-fresh : outgoing (fresh t) ≡ outgoing t
    unfolding OutBuffer.init
    outgoing-fresh =
        queue_push t.ring t.out_buffers (OutBuffer.init t.ring.end t.control_bit) v.window room
          v.storage refl

-- The state after writing to the current buffer.
abbrev pub written : Transmitter → ℕ → OutBuffer → Transmitter
written u i b = record u {
  out_buffers = set u.out_buffers i b;
  current = if b.finished then none else u.current;
}

module _ (u : Transmitter) (i : ℕ) (bytes : List ℕ) (k : ℕ) (b' : OutBuffer) (v : Inv u)
    (current-IsLast : IsLast u.ring u.out_buffers i) (cur : u.current ≡ some i)
    (w : Wrote (get_or u.out_buffers i OutBuffer.new_out_buffer) bytes k b') where
  slot_lt : i < length u.out_buffers
  slot_lt =
      rw (current-IsLast.1, v.storage) (mod-lt _ (omega (arith, v.window.fits, current-IsLast.0)))

  stored : get_or (set u.out_buffers i b') i OutBuffer.new_out_buffer ≡ b'
  stored = get_or-set_self u.out_buffers i b' OutBuffer.new_out_buffer slot_lt

  written-IsTail :
      (f : Bool)
      → b'.finished ≡ f
      → IsTail u.ring (set u.out_buffers i b') (if f then none else u.current)
  written-IsTail true e = tt
  written-IsTail false e = subst (IsTail u.ring (set u.out_buffers i b')) (sym cur) (
      inr (
        current-IsLast.0,
        current-IsLast.1,
        ap (λ b. b.finished) stored ∙ e,
        rw (ap (λ (b : OutBuffer). b.payload) stored) (room_left w.outcome),
      ))
    where
      room_left :
          (b'.finished ≡ true)
            ⊎ ((b'.finished ≡ false) × (length b'.payload < 248) × (k ≡ length bytes))
          → length b'.payload < 248
      room_left (inl f) = absurd (cc (f, e))
      room_left (inr (_, lt, _)) = lt

  pub written-Inv : Inv (written u i b')
  written-Inv = record {
    window = v.window;
    storage = length-set u.out_buffers i b' ∙ v.storage;
    tail = λ e. written-IsTail b'.finished refl;
    himark_lt = v.himark_lt;
    credit = v.credit;
    pending_eof = v.pending_eof;
  }

  pub outgoing-written : outgoing (written u i b') ≡ outgoing u ++ take k bytes
  unfolding queue
  outgoing-written =
      let lg = u.ring.capacity_log2 in
      let n = slots_used u.ring - 1 in
      let b = u.ring.begin in
      let used : slots_used u.ring ≡ suc n = omega (arith, current-IsLast.0) in
      let bufs : List OutBuffer = set u.out_buffers i b' in
      let before : queue lg bufs b n ≡ queue lg u.out_buffers b n =
        ap (λ j. queue lg (set u.out_buffers j b') b n) current-IsLast.1
        ∙ queue-set_behind lg b v.window.small v.window.begin_lt (capacity-le v.window) n n
            u.out_buffers b' (omega arith) (omega (arith, v.window.fits)) in
      let last : (at lg bufs (seq_add b n)).payload
          ≡ (at lg u.out_buffers (seq_add b n)).payload ++ take k bytes =
        ap (λ j. (get_or bufs j OutBuffer.new_out_buffer).payload) (sym current-IsLast.1)
        ∙ ap (λ (b : OutBuffer). b.payload) stored
        ∙ w.payload_eq
        ∙ ap (λ j. (get_or u.out_buffers j OutBuffer.new_out_buffer).payload ++ take k bytes)
            current-IsLast.1 in
      ap (queue lg bufs b) used
      ∙ ap (λ xs. xs ++ (at lg bufs (seq_add b n)).payload) before
      ∙ ap (λ xs. queue lg u.out_buffers b n ++ xs) last
      ∙ sym (append_assoc (queue lg u.out_buffers b n) _ (take k bytes))
      ∙ ap (λ m. queue lg u.out_buffers b m ++ take k bytes) (sym used)

-- The state after a round on a finished buffer, which takes nothing.
abbrev pub cleared : Transmitter → Transmitter
cleared u = record u { current = none }

module _ (u : Transmitter) (i : ℕ)
    (finished : (get_or u.out_buffers i OutBuffer.new_out_buffer).finished ≡ true) where
  pub written-cleared : written u i (get_or u.out_buffers i OutBuffer.new_out_buffer) ≡ cleared u
  written-cleared =
      ap
        (λ (f : Bool). record u {
          out_buffers = set u.out_buffers i (get_or u.out_buffers i OutBuffer.new_out_buffer);
          current = if f then none else u.current;
        })
        finished
      ∙ ap (λ bufs. record u { out_buffers = bufs; current = none })
          (set-get_or u.out_buffers i OutBuffer.new_out_buffer)

pub cleared-Inv : (u : Transmitter) → Inv u → Inv (cleared u)
cleared-Inv u v = record {
  window = v.window;
  storage = v.storage;
  tail = λ e. tt;
  himark_lt = v.himark_lt;
  credit = v.credit;
  pending_eof = v.pending_eof;
}

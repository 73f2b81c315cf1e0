-- ===== src/Transmitter/Queue.antt =====
-- The bytes that a transmitter holds for the peer, and what holds of it between two calls.
use roo_transport.Prelude.{
  ℕ, zero, suc, ◌-◌, ◌%◌, ◌^◌, ◌≤◌, ◌<◌, ◌≡◌, ◌⊎◌, refl, ap, ◌∙◌, Bool, true, false, if◌then◌else◌,
  Option, none, some, List, [], ◌++◌, append-nil, sym, subst, get_or-set_self, length, get_or, set,
  get_or-set_ne, arith,
}
use roo_transport.Seq.{SeqNum, sub16, seq_add}
use roo_transport.Ring.{RingBuffer, capacity, slots_used}
use native.Mathlib.Nat.{mod-lt}
use roo_transport.Seq.Order.{seq_add-sub16}
use roo_transport.Ring.Window.{IsValid, capacity-le, used-push}
use roo_transport.Ring.Slots.{other_slot}
use roo_transport.OutBuffer
use roo_transport.OutBuffer.{OutBuffer}
use roo_transport.Transmitter.{Transmitter, State}

-- The buffer at a position.
abbrev pub at : ℕ → List OutBuffer → SeqNum → OutBuffer
at lg bufs pos = get_or bufs (pos % 2 ^ lg) OutBuffer.new_out_buffer

-- The payloads of `n` slots from the position `b` on.
unfoldable pub queue : ℕ → List OutBuffer → SeqNum → ℕ → List ℕ
queue lg bufs b zero = []
queue lg bufs b (suc n) = queue lg bufs b n ++ (at lg bufs (seq_add b n)).payload

-- All bytes that were written and not yet acknowledged in sequence.
abbrev pub outgoing : Transmitter → List ℕ
outgoing t = queue t.ring.capacity_log2 t.out_buffers t.ring.begin (slots_used t.ring)

-- A write to a slot behind the stretch changes nothing.
pub queue-set_behind :
    (lg b : ℕ)
    → lg ≤ 10
    → b < 65536
    → 2 ^ lg ≤ 1024
    → (n d : ℕ) (bufs : List OutBuffer) (v : OutBuffer) → n ≤ d
    → d < 2 ^ lg
    → queue lg (set bufs (seq_add b d % 2 ^ lg) v) b n ≡ queue lg bufs b n
unfolding queue
queue-set_behind lg b h hb small zero d bufs v p q = refl
queue-set_behind lg b h hb small (suc n) d bufs v p q = rw (
  queue-set_behind lg b h hb small n d bufs v (omega arith) q,
  get_or-set_ne bufs (seq_add b d % 2 ^ lg) (seq_add b n % 2 ^ lg) v OutBuffer.new_out_buffer
      (other_slot lg b d n h hb q (omega arith) small (omega arith)),
)

-- Slots that get a buffer without a payload at the end add nothing.
pub queue_push :
    (r : RingBuffer) (bufs : List OutBuffer) (v : OutBuffer)
    → IsValid r
    → slots_used r < capacity r
    → length bufs ≡ capacity r
    → v.payload ≡ []
    → queue r.capacity_log2
        (set bufs (r.end % capacity r) v)
        r.begin
        (slots_used (record r { end = seq_add r.end 1 }))
      ≡ queue r.capacity_log2 bufs r.begin (slots_used r)
unfolding queue slots_used
queue_push r bufs v valid room storage empty =
    let lg = r.capacity_log2 in
    let n = slots_used r in
    let b = r.begin in
    let bufs' : List OutBuffer = set bufs (r.end % capacity r) v in
    let end_eq : r.end ≡ seq_add b n = sym (seq_add-sub16 r.end r.begin valid.end_lt) in
    let used_eq : slots_used (record r { end = seq_add r.end 1 }) ≡ suc n =
      omega (arith, used-push valid) in
    let last : (at lg bufs' (seq_add b n)).payload ≡ [] =
      ap (λ e. (get_or bufs' (e % 2 ^ lg) OutBuffer.new_out_buffer).payload) (sym end_eq)
      ∙ ap (λ (b : OutBuffer). b.payload)
          (get_or-set_self bufs _ v OutBuffer.new_out_buffer (
            subst (λ n. r.end % capacity r < n) (sym storage) (mod-lt r.end (omega (arith, room)))))
      ∙ empty in
    ap (queue lg bufs' b) used_eq
    ∙ ap (λ xs. queue lg bufs' b n ++ xs) last
    ∙ append-nil (queue lg bufs' b n)
    ∙ ap (λ e. queue lg (set bufs (e % 2 ^ lg) v) b n) end_eq
    ∙ queue-set_behind lg b valid.small valid.begin_lt (capacity-le valid) n n bufs v (omega arith)
        room

-- The slot of a buffer that is being filled is the last of the window; it is not finished, and has
-- room.
abbrev pub IsLast : RingBuffer → List OutBuffer → ℕ → Type 0
IsLast ring bufs i =
    (0 < slots_used ring)
    × (i ≡ seq_add ring.begin (slots_used ring - 1) % capacity ring)
    × ((get_or bufs i OutBuffer.new_out_buffer).finished ≡ false)
    × (length (get_or bufs i OutBuffer.new_out_buffer).payload < 248)

-- A current buffer is being filled, or it is finished: the sender finishes a flushed buffer and
-- leaves the pointer to it, which may then outlast the packet.
abbrev pub IsTail : RingBuffer → List OutBuffer → Option ℕ → Type 0
IsTail ring bufs none = Unit
IsTail ring bufs (some i) =
    ((get_or bufs i OutBuffer.new_out_buffer).finished ≡ true) ⊎ IsLast ring bufs i

-- The connection is there, and the stream is not closed.
abbrev pub is_open : Transmitter → Bool
is_open t =
    if t.end_of_stream
    then false
    else elim t.state [ State.idle ↦ false | State.broken ↦ false | _ ↦ true ]

-- `tail` and `credit` are needed until the stream is closed: then nothing is written any more, and
-- the final packet comes behind the current one, within the limit or not. `credit`: as long as data may be written, the peer's limit is not behind the window.
pub record Inv (t : Transmitter) : Type 0 where
  pub window : IsValid t.ring
  pub storage : length t.out_buffers ≡ capacity t.ring
  pub tail : is_open t ≡ true → IsTail t.ring t.out_buffers t.current
  pub himark_lt : t.recv_himark < 65536
  pub credit : is_open t ≡ true → sub16 t.recv_himark t.ring.end < 32768
  pub pending_eof : t.has_pending_eof ≡ true → t.end_of_stream ≡ true

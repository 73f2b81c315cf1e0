-- ===== src/Receiver/ReadLaws.antt =====
-- `tryRead` delivers the pending bytes, in order, and consumes what it delivers.
use roo_transport.Prelude.{
  ℕ, zero, suc, ◌+◌, ◌-◌, ◌%◌, ◌≤◌, ◌<◌, ◌≡◌, ◌≢◌, ◌⊎◌, inl, inr, refl, sym, ap, ◌∙◌, subst, ◌==◌,
  Option, none, some, List, [], ◌++◌, length, take, drop, set, get_or, All-set, All-get_or,
  length-set, get_or-set_ne, drop-drop, take_all, drop_all, take-append_le, take-append_ge,
  drop-append_le, drop-append_ge, length-drop, Bool-cases, arith,
}
use native.Mathlib.Nat.{add_comm}
use native.Mathlib.Decide.{dec_lt, ℕ_discrete}
use roo_transport.Seq.{seq_add}
use roo_transport.Seq.Order.{seq_add-zero, seq_add-seq_add}
use roo_transport.Ring
use roo_transport.Ring.{capacity, slots_used}
use roo_transport.Ring.Window.{capacity-le, pop-some, used-pop, pop-IsValid}
use roo_transport.InBuffer
use roo_transport.InBuffer.{InBuffer, ContentType}
use roo_transport.Receiver.{Receiver, State, slot, set_idle}
use roo_transport.Receiver.Read.{open_buffer, at_end, release}
use roo_transport.Ring.Slots.{other_slot}
use roo_transport.Receiver.Stream.{
  stream, chunk, chunk_filled, chunk-content, chunk_fin, behind, at, stream-set_before,
}
use roo_transport.Receiver.Shift.{Shifts, same_window}
use roo_transport.Receiver.Inv
use roo_transport.Receiver.Inv.{Inv, IsSmall, limit, pending, skipped, nth}

-- What `open_buffer` finds: no slot in use, or the first buffer, current now.
abbrev pub Opened : Receiver → Option (ℕ × Receiver) → Type 0
Opened r none = slots_used r.ring ≡ 0
Opened r (some (i, u)) =
    Inv u × (u.current ≡ some i) × (pending u ≡ pending r) × (u.ring ≡ r.ring) × Shifts r u

pub open_buffer-Opened :
    (r : Receiver) (c : Option ℕ) → r.current ≡ c → Inv r → Opened r (open_buffer r)
unfolding open_buffer Ring.is_empty Ring.offset_for
open_buffer-Opened r (some i) e v =
    let found : open_buffer r ≡ some (i, r) = ground arith in
    subst (Opened r) (sym found)
      (v, e, refl, refl, same_window r r v.window.begin_lt refl refl (λ c. c) (λ s. s))
open_buffer-Opened r none e v = elim (Bool-cases (slots_used r.ring == 0)) [
  | inl z ↦ rw (e, open_buffer, z) (ground arith)
  | inr nz ↦
      rw (e, open_buffer, nz)
        (
          record {
            window = v.window;
            storage = v.storage;
            sizes = v.sizes;
            cursor = (ground arith, refl, omega arith);
            final_last = v.final_last;
            final_closed = v.final_closed;
          },
          refl,
          refl,
          refl,
          same_window _ _ v.window.begin_lt refl refl (λ c. c) (λ s. s),
        )
]

-- The pending bytes behind a current first buffer.
abbrev pub tail_of : Receiver → List ℕ
tail_of r =
    stream r.ring.capacity_log2 r.in_buffers (slots_used r.ring - 1) (seq_add r.ring.begin 1) 0

abbrev pub head_of : Receiver → InBuffer
head_of r = at r.ring.capacity_log2 r.in_buffers r.ring.begin

stream_head :
    (lg : ℕ) (bufs : List InBuffer) (n pos s : ℕ)
    → 0 < n
    → stream lg bufs n pos s ≡ chunk (at lg bufs pos) s (stream lg bufs (n - 1) (seq_add pos 1) 0)
unfolding stream
stream_head lg bufs zero pos s h = absurd (omega arith)
stream_head lg bufs (suc n) pos s h =
    let e : n ≡ suc n - 1 = omega arith in
    ap (λ k. chunk (at lg bufs pos) s (stream lg bufs k (seq_add pos 1) 0)) e

pub pending_head :
    (r : Receiver) (i : ℕ)
    → r.current ≡ some i
    → 0 < slots_used r.ring
    → pending r ≡ chunk (head_of r) r.current_pos (tail_of r)
pending_head r i e h =
    rw (e, skipped)
      (stream_head r.ring.capacity_log2 r.in_buffers (slots_used r.ring) r.ring.begin r.current_pos
        h)

pub clear-IsSmall : IsSmall InBuffer.clear
unfolding InBuffer.clear
clear-IsSmall = omega arith

-- What is known of a current buffer.
pub record Current (r : Receiver) (i : ℕ) : Type 0 where
  pub same : slot r i ≡ head_of r
  pub used : 0 < slots_used r.ring
  pub pos_le : r.current_pos ≤ length (head_of r).payload
  pub index : i ≡ r.ring.begin % capacity r.ring
  pub small : length (head_of r).payload ≤ 248

limit-le : (t : ContentType) → limit t ≤ 248
limit-le ContentType.unset = omega arith
limit-le ContentType.content = omega arith
limit-le ContentType.fin = omega arith

pub current_lem : (r : Receiver) (i : ℕ) → Inv r → r.current ≡ some i → Current r i
unfolding slot
current_lem r i v e =
    let c = subst (Inv.IsCursor r.ring r.in_buffers r.current_pos) e v.cursor in
    record {
      same = ap (λ k. get_or r.in_buffers k InBuffer.clear) c.1;
      used = c.0;
      pos_le = c.2;
      index = c.1;
      small = omega (
        arith,
        limit-le (head_of r).type,
        All-get_or IsSmall r.in_buffers (r.ring.begin % capacity r.ring) InBuffer.clear
            clear-IsSmall v.sizes,
      );
    }

-- The state after the first buffer went.
abbrev pub gone : Receiver → ℕ → Receiver
gone r i = record r {
  in_buffers = set r.in_buffers i InBuffer.clear;
  current = none;
  himark_expiration = 0;
  ring = record (r.ring) { begin = seq_add r.ring.begin 1 };
}

pub release-some : (r : Receiver) (i : ℕ) → 0 < slots_used r.ring → release r i ≡ some (gone r i)
unfolding release
release-some r i h = rw (pop-some {r = r.ring} h)

pub pending-gone :
    (r : Receiver) (i : ℕ)
    → Inv r
    → 0 < slots_used r.ring
    → i ≡ r.ring.begin % capacity r.ring
    → pending (gone r i) ≡ tail_of r
pending-gone r i v h e =
    let i_eq : i ≡ seq_add r.ring.begin 0 % capacity r.ring =
      e ∙ ap (λ b. b % capacity r.ring) (sym (seq_add-zero r.ring.begin v.window.begin_lt)) in
    rw (i_eq, used-pop v.window h)
      (stream-set_before r.ring.capacity_log2 r.ring.begin v.window.small v.window.begin_lt
        (capacity-le v.window) (slots_used r.ring - 1) 1 0 0 r.in_buffers InBuffer.clear
        (omega arith) (omega (arith, v.window.fits)))

nth-gone :
    (r : Receiver) (i k : ℕ)
    → Inv r
    → i ≡ r.ring.begin % capacity r.ring
    → k + 1 < slots_used r.ring
    → nth (gone r i) k ≡ nth r (k + 1)
nth-gone r i k v e h =
    let i_eq : i ≡ seq_add r.ring.begin 0 % capacity r.ring =
      e ∙ ap (λ b. b % capacity r.ring) (sym (seq_add-zero r.ring.begin v.window.begin_lt)) in
    let k_eq : seq_add (seq_add r.ring.begin 1) k ≡ seq_add r.ring.begin (k + 1) =
      seq_add-seq_add r.ring.begin 1 k ∙ ap (seq_add r.ring.begin) (add_comm 1 k) in
    rw (i_eq, k_eq)
      (get_or-set_ne r.in_buffers _ _ InBuffer.clear InBuffer.clear (
        other_slot r.ring.capacity_log2 r.ring.begin 0 (k + 1) v.window.small v.window.begin_lt
          (omega (arith, v.window.fits)) (omega (arith, v.window.fits)) (capacity-le v.window)
          (omega arith)))

pub gone-Shifts :
    (r : Receiver) (i : ℕ)
    → Inv r
    → 0 < slots_used r.ring
    → i ≡ r.ring.begin % capacity r.ring
    → (slot r i).type ≢ ContentType.unset
    → Shifts r (gone r i)
unfolding slot
gone-Shifts r i v h e full = record {
  gone = 1;
  begin_eq = refl;
  lg_eq = refl;
  used_eq = omega (arith, used-pop v.window h);
  filled = λ k p. first k (ℕ_discrete k 0) p;
  old = λ k p. nth-gone r i k v e (omega (arith, used-pop v.window h));
  closed_eq = λ c. c;
  state_eq = λ s. s;
}
  where
    first : (k : ℕ) → Dec (k ≡ 0) → k < 1 → (nth r k).type ≢ ContentType.unset
    first k (yes z) p =
        let k_eq : at r.ring.capacity_log2 r.in_buffers (seq_add r.ring.begin k)
            ≡ get_or r.in_buffers i InBuffer.clear =
          ap (λ j. at r.ring.capacity_log2 r.in_buffers (seq_add r.ring.begin j)) z
          ∙ ap (at r.ring.capacity_log2 r.in_buffers) (seq_add-zero r.ring.begin v.window.begin_lt)
          ∙ ap (λ j. get_or r.in_buffers j InBuffer.clear) (sym e) in
        λ un. full (ap (λ (b : InBuffer). b.type) (sym k_eq) ∙ un)
    first k (no nz) p = absurd (omega arith)

pub gone-Inv :
    (r : Receiver) (i : ℕ)
    → Inv r
    → 0 < slots_used r.ring
    → i ≡ r.ring.begin % capacity r.ring
    → Inv (gone r i)
gone-Inv r i v h e = record {
  window = pop-IsValid v.window h;
  storage = length-set r.in_buffers i InBuffer.clear ∙ v.storage;
  sizes = All-set IsSmall r.in_buffers i InBuffer.clear clear-IsSmall v.sizes;
  cursor = tt;
  final_last = λ k p f.
      v.final_last (k + 1) (omega (arith, used-pop v.window h))
        (ap (λ b. b.type) (sym (nth-gone r i k v e (omega (arith, used-pop v.window h)))) ∙ f);
  final_closed = λ k p f.
      v.final_closed (k + 1) (omega (arith, used-pop v.window h))
        (ap (λ b. b.type) (sym (nth-gone r i k v e (omega (arith, used-pop v.window h)))) ∙ f);
}

pub pending-empty : (r : Receiver) → slots_used r.ring ≡ 0 → pending r ≡ []
unfolding stream
pending-empty r z = ap (λ n. stream r.ring.capacity_log2 r.in_buffers n r.ring.begin (skipped r)) z

at_end_cases :
    (r : Receiver) (s : State)
    → r.state ≡ s
    → (at_end r ≡ r) ⊎ ((at_end r ≡ set_idle r) × (r.state ≡ State.broken))
unfolding at_end
at_end_cases r State.idle e = inl (ground arith)
at_end_cases r State.connecting e = inl (ground arith)
at_end_cases r State.connected e = inl (ground arith)
at_end_cases r State.broken e = inr (ground arith, e)

set_idle-Inv : (r : Receiver) → Inv r → slots_used r.ring ≡ 0 → Inv (set_idle r)
unfolding set_idle
set_idle-Inv r v z = record {
  window = v.window;
  storage = v.storage;
  sizes = v.sizes;
  cursor = v.cursor;
  final_last = v.final_last;
  final_closed = λ k p f. absurd (omega arith);
}

pub at_end-Inv :
    (r : Receiver)
    → Inv r
    → slots_used r.ring ≡ 0
    → Inv (at_end r) × (pending (at_end r) ≡ []) × Shifts r (at_end r)
unfolding set_idle
at_end-Inv r v z = elim (at_end_cases r r.state refl) [
  | inl e ↦
      rw e (v, pending-empty r z, same_window r r v.window.begin_lt refl refl (λ c. c) (λ s. s))
  | inr (e, b) ↦ rw e (
    set_idle-Inv r v z,
    pending-empty (set_idle r) z,
    same_window r (set_idle r) v.window.begin_lt refl refl (λ c. refl) (λ s. absurd (cc (s, b))),
  )
]

-- The first buffer has more than is wanted.
pub read_part :
    (r : Receiver) (i count : ℕ)
    → Inv r
    → r.current ≡ some i
    → (slot r i).type ≢ ContentType.unset
    → count < length (drop r.current_pos (slot r i).payload)
    → let u = record r { current_pos = (r.current_pos + count) % 256 } in
      (take count (pending r) ≡ take count (drop r.current_pos (slot r i).payload))
      × (pending u ≡ drop count (pending r))
      × Inv u
read_part r i count v e filled lt =
    let c = current_lem r i v e in
    let p : List ℕ = (head_of r).payload in
    let pos = r.current_pos in
    let u : Receiver = record r { current_pos = (pos + count) % 256 } in
    let filled' : (head_of r).type ≢ ContentType.unset =
      λ q. filled (ap (λ b. b.type) c.same ∙ q) in
    let lt' : count < length (drop pos p) =
      subst (λ (b : InBuffer). count < length (drop pos b.payload)) c.same lt in
    let len : pos + count < length p = omega (arith, length-drop pos p) in
    let whole : pending r ≡ drop pos p ++ behind (head_of r) (tail_of r) =
      pending_head r i e c.used ∙ chunk_filled (head_of r) pos (tail_of r) filled' in
    let pos_eq : (pos + count) % 256 ≡ pos + count = omega (arith, c.small) in
    (
      ap (take count) whole
          ∙ take-append_le count (drop pos p) _ (omega arith)
          ∙ ap (λ (b : InBuffer). take count (drop pos b.payload)) (sym c.same),
      pending_head u i e c.used
          ∙ chunk_filled (head_of r) ((pos + count) % 256) (tail_of r) filled'
          ∙ ap (λ k. drop k p ++ behind (head_of r) (tail_of r)) pos_eq
          ∙ ap (λ xs. xs ++ behind (head_of r) (tail_of r)) (sym (drop-drop pos count p))
          ∙ sym (drop-append_le count (drop pos p) (behind (head_of r) (tail_of r)) (omega arith))
          ∙ ap (drop count) (sym whole),
      record {
        window = v.window;
        storage = v.storage;
        sizes = v.sizes;
        cursor =
            subst (Inv.IsCursor u.ring u.in_buffers u.current_pos) (sym e)
              (c.used, c.index, omega arith);
        final_last = v.final_last;
        final_closed = v.final_closed;
      },
    )

-- The first buffer is read to its end.
pub read_whole :
    (r : Receiver) (i count : ℕ)
    → Inv r
    → r.current ≡ some i
    → (slot r i).type ≡ ContentType.content
    → length (drop r.current_pos (slot r i).payload) ≤ count
    → let rest = drop r.current_pos (slot r i).payload in
      (take count (pending r) ≡ rest ++ take (count - length rest) (pending (gone r i)))
      × (drop count (pending r) ≡ drop (count - length rest) (pending (gone r i)))
read_whole r i count v e t le =
    let c = current_lem r i v e in
    let rest = drop r.current_pos (slot r i).payload in
    let whole : pending r ≡ rest ++ pending (gone r i) =
      pending_head r i e c.used
      ∙ ap (λ b. chunk b r.current_pos (tail_of r)) (sym c.same)
      ∙ chunk-content (slot r i) r.current_pos (tail_of r) t
      ∙ ap (λ xs. rest ++ xs) (sym (pending-gone r i v c.used c.index)) in
    (
      ap (take count) whole ∙ take-append_ge count rest (pending (gone r i)) le,
      ap (drop count) whole ∙ drop-append_ge count rest (pending (gone r i)) le,
    )

-- The first buffer is the final one, and is read to its end.
pub read_fin :
    (r : Receiver) (i count : ℕ)
    → Inv r
    → r.current ≡ some i
    → (slot r i).type ≡ ContentType.fin
    → length (drop r.current_pos (slot r i).payload) ≤ count
    → (take count (pending r) ≡ drop r.current_pos (slot r i).payload)
      × (drop count (pending r) ≡ [])
      × (slots_used (gone r i).ring ≡ 0)
read_fin r i count v e t le =
    let c = current_lem r i v e in
    let rest = drop r.current_pos (slot r i).payload in
    let whole : pending r ≡ rest =
      pending_head r i e c.used
      ∙ ap (λ b. chunk b r.current_pos (tail_of r)) (sym c.same)
      ∙ chunk_fin (slot r i) r.current_pos (tail_of r) t in
    (
      ap (take count) whole ∙ take_all count rest le,
      ap (drop count) whole ∙ drop_all count rest le,
      last (dec_lt 1 (slots_used r.ring)) c,
    )
  where
    last : Dec (1 < slots_used r.ring) → Current r i → slots_used (gone r i).ring ≡ 0
    last (yes more) c = absurd (
        v.final_last 0 more (
          ap (λ b. (at r.ring.capacity_log2 r.in_buffers b).type)
            (seq_add-zero r.ring.begin v.window.begin_lt)
          ∙ ap (λ b. b.type) (sym c.same)
          ∙ t))
    last (no one) c = omega (arith, used-pop v.window c.used)

-- ===== src/Transmitter/Same.antt =====
-- Changes of buffers that keep what is to be sent.
use roo_transport.Prelude.{
  ℕ, zero, suc, ◌%◌, ◌^◌, ◌<◌, ◌≡◌, ◌⊎◌, inl, inr, refl, sym, ap, true, ◌∙◌, subst, Option, none,
  some, List, length, get_or, set, length-set, get_or-set_field, get_or-set_cases,
}
use roo_transport.Seq.{SeqNum, seq_add}
use roo_transport.Ring.{RingBuffer}
use roo_transport.OutBuffer
use roo_transport.OutBuffer.{OutBuffer}
use roo_transport.Transmitter.{Transmitter}
use roo_transport.Transmitter.Queue.{Inv, IsTail, queue, outgoing}

-- The payloads are the same, and what is finished stays so.
pub record Same (bufs bufs' : List OutBuffer) : Type 0 where
  pub length_eq : length bufs' ≡ length bufs
  pub payload_eq :
      (i : ℕ)
      → (get_or bufs' i OutBuffer.new_out_buffer).payload
        ≡ (get_or bufs i OutBuffer.new_out_buffer).payload
  pub finished_kept :
      (i : ℕ)
      → ((get_or bufs' i OutBuffer.new_out_buffer).finished ≡ true)
        ⊎ ((get_or bufs' i OutBuffer.new_out_buffer).finished
            ≡ (get_or bufs i OutBuffer.new_out_buffer).finished)

pub Same-refl : (bufs : List OutBuffer) → Same bufs bufs
Same-refl bufs = record { length_eq = refl; payload_eq = λ i. refl; finished_kept = λ i. inr refl }

pub Same-trans : {a b c : List OutBuffer} → Same a b → Same b c → Same a c
Same-trans p q = record {
  length_eq = q.length_eq ∙ p.length_eq;
  payload_eq = λ i. q.payload_eq i ∙ p.payload_eq i;
  finished_kept = λ i. elim (q.finished_kept i) [
    | inl f ↦ inl f
    | inr e ↦ elim (p.finished_kept i) [ inl f ↦ inl (e ∙ f) | inr e' ↦ inr (e ∙ e') ]
  ];
}

pub set-Same :
    (bufs : List OutBuffer) (i : ℕ) (v : OutBuffer)
    → v.payload ≡ (get_or bufs i OutBuffer.new_out_buffer).payload
    → (v.finished ≡ true) ⊎ (v.finished ≡ (get_or bufs i OutBuffer.new_out_buffer).finished)
    → Same bufs (set bufs i v)
set-Same bufs i v p f = record {
  length_eq = length-set bufs i v;
  payload_eq =
      λ j. get_or-set_field (λ (b : OutBuffer). b.payload) bufs i j v OutBuffer.new_out_buffer p;
  finished_kept = λ j. elim (get_or-set_cases bufs i j v OutBuffer.new_out_buffer) [
    | inr old ↦ inr (ap (λ (b : OutBuffer). b.finished) old)
    | inl (at_j, new) ↦ elim f [
      | inl done ↦ inl (ap (λ (b : OutBuffer). b.finished) new ∙ done)
      | inr same ↦ inr (
          ap (λ (b : OutBuffer). b.finished) new
          ∙ same
          ∙ ap (λ k. (get_or bufs k OutBuffer.new_out_buffer).finished) at_j)
    ]
  ];
}

queue-Same :
    (lg b n : ℕ) (bufs bufs' : List OutBuffer)
    → Same bufs bufs'
    → queue lg bufs' b n ≡ queue lg bufs b n
unfolding queue
queue-Same lg b zero bufs bufs' s = refl
queue-Same lg b (suc n) bufs bufs' s =
    rw (queue-Same lg b n bufs bufs' s, s.payload_eq (seq_add b n % 2 ^ lg))

IsTail-Same :
    (r : RingBuffer) (bufs bufs' : List OutBuffer) (c : Option ℕ)
    → Same bufs bufs'
    → IsTail r bufs c
    → IsTail r bufs' c
IsTail-Same r bufs bufs' none s h = tt
IsTail-Same r bufs bufs' (some i) s (inl finished) = elim (s.finished_kept i) [
  | inl f ↦ inl f
  | inr e ↦ inl (e ∙ finished)
]
IsTail-Same r bufs bufs' (some i) s (inr (p, q, f, l)) = elim (s.finished_kept i) [
  | inl done ↦ inl done
  | inr e ↦ inr (p, q, e ∙ f, subst (λ (xs : List ℕ). length xs < 248) (sym (s.payload_eq i)) l)
]

-- The state with other buffers, and with another place to go on sending from.
abbrev pub marked : Transmitter → List OutBuffer → SeqNum → Transmitter
marked t bufs next = record t { out_buffers = bufs; next_to_send = next }

pub marked-Inv :
    (t : Transmitter) (bufs : List OutBuffer) (next : SeqNum)
    → Same t.out_buffers bufs
    → Inv t
    → Inv (marked t bufs next) × (outgoing (marked t bufs next) ≡ outgoing t)
marked-Inv t bufs next s v = (
  record {
    window = v.window;
    storage = s.length_eq ∙ v.storage;
    tail = λ e. IsTail-Same t.ring t.out_buffers bufs t.current s (v.tail e);
    himark_lt = v.himark_lt;
    credit = v.credit;
    pending_eof = v.pending_eof;
  },
  queue-Same t.ring.capacity_log2 t.ring.begin _ t.out_buffers bufs s,
)

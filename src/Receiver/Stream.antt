-- ===== src/Receiver/Stream.antt =====
-- The bytes that a reader can get now: the specification of the receive window.
use roo_transport.Prelude.{
  ℕ, zero, suc, ◌+◌, ◌%◌, ◌^◌, ◌≤◌, ◌<◌, ◌≡◌, ◌≢◌, refl, ap, ◌∙◌, sym, List, [], ◌++◌, length, drop,
  get_or, set, append-nil, append_assoc, get_or-set_self, get_or-set_ne, arith,
}
use roo_transport.Seq.{SeqNum, seq_add}
use roo_transport.Seq.Order.{seq_add-seq_add}
use roo_transport.Ring.Slots.{other_slot}
use native.Mathlib.Decide.{dec_lt}
use native.Mathlib.Nat.{mod-lt, add-zero}
use roo_transport.InBuffer
use roo_transport.InBuffer.{InBuffer, ContentType}

-- A buffer in front of the bytes `rest` that follow it; the first `skip` of its own are read.
unfoldable pub chunk : InBuffer → ℕ → List ℕ → List ℕ
chunk b skip rest = elim b.type [
  | ContentType.unset ↦ []
  | ContentType.fin ↦ drop skip b.payload
  | ContentType.content ↦ drop skip b.payload ++ rest
]

-- The buffer at a position.
abbrev pub at : ℕ → List InBuffer → SeqNum → InBuffer
at lg bufs pos = get_or bufs (pos % 2 ^ lg) InBuffer.clear

-- From the position `pos` on, `n` slots: the payloads up to the first buffer that is not filled, or
-- up to the final one.
unfoldable pub stream : ℕ → List InBuffer → ℕ → SeqNum → ℕ → List ℕ
stream lg bufs zero pos skip = []
stream lg bufs (suc n) pos skip = chunk (at lg bufs pos) skip (stream lg bufs n (seq_add pos 1) 0)

pub clear-unset : InBuffer.clear.type ≡ ContentType.unset
unfolding InBuffer.clear
clear-unset = refl

pub in_range :
    (lg : ℕ) (bufs : List InBuffer) (pos : SeqNum)
    → length bufs ≡ 2 ^ lg
    → 0 < 2 ^ lg
    → pos % 2 ^ lg < length bufs
in_range lg bufs pos len p = rw len (mod-lt pos p)

pub chunk_unset :
    (b : InBuffer) (s : ℕ) (rest : List ℕ) → b.type ≡ ContentType.unset → chunk b s rest ≡ []
unfolding chunk
chunk_unset b s rest e = ground arith

-- What follows a filled buffer: nothing, if it is the final one.
abbrev pub behind : InBuffer → List ℕ → List ℕ
behind b rest = elim b.type [ ContentType.fin ↦ [] | _ ↦ rest ]

pub chunk-content :
    (b : InBuffer) (s : ℕ) (rest : List ℕ)
    → b.type ≡ ContentType.content
    → chunk b s rest ≡ drop s b.payload ++ rest
unfolding chunk
chunk-content b s rest e = ground arith

pub chunk_fin :
    (b : InBuffer) (s : ℕ) (rest : List ℕ)
    → b.type ≡ ContentType.fin
    → chunk b s rest ≡ drop s b.payload
unfolding chunk
chunk_fin b s rest e = ground arith

chunk_of_type :
    (t : ContentType) (p : List ℕ) (s : ℕ) (rest : List ℕ)
    → t ≢ ContentType.unset
    → let b : InBuffer = record { type = t; payload = p } in
      chunk b s rest ≡ drop s p ++ behind b rest
unfolding chunk
chunk_of_type ContentType.unset p s rest h = absurd (h refl)
chunk_of_type ContentType.fin p s rest h = sym (append-nil (drop s p))
chunk_of_type ContentType.content p s rest h = refl

pub chunk_filled :
    (b : InBuffer) (s : ℕ) (rest : List ℕ)
    → b.type ≢ ContentType.unset
    → chunk b s rest ≡ drop s b.payload ++ behind b rest
chunk_filled b s rest h = chunk_of_type b.type b.payload s rest h

chunk_rest :
    (t : ContentType) (p : List ℕ) (s : ℕ) (rest more : List ℕ)
    → (tail : List ℕ) × (chunk (record { type = t; payload = p }) s (rest ++ more)
        ≡ chunk (record { type = t; payload = p }) s rest ++ tail)
unfolding chunk
chunk_rest ContentType.unset p s rest more = ([], refl)
chunk_rest ContentType.fin p s rest more = ([], sym (append-nil (drop s p)))
chunk_rest ContentType.content p s rest more = (more, sym (append_assoc (drop s p) rest more))

chunk-append :
    (b : InBuffer) (s : ℕ) (rest more : List ℕ)
    → (tail : List ℕ) × (chunk b s (rest ++ more) ≡ chunk b s rest ++ tail)
chunk-append b s rest more = chunk_rest b.type b.payload s rest more

module _ (lg b : ℕ) (h : lg ≤ 10) (hb : b < 65536) (small : 2 ^ lg ≤ 1024) where
  -- A write to a slot outside of the stretch changes nothing.
  pub stream-set_before :
      (n j d s : ℕ) (bufs : List InBuffer) (v : InBuffer)
      → d < j
      → j + n ≤ 2 ^ lg
      → stream lg (set bufs (seq_add b d % 2 ^ lg) v) n (seq_add b j) s
        ≡ stream lg bufs n (seq_add b j) s
  unfolding stream
  stream-set_before zero j d s bufs v p q = refl
  stream-set_before (suc n) j d s bufs v p q = rw (
    get_or-set_ne bufs (seq_add b d % 2 ^ lg) (seq_add b j % 2 ^ lg) v InBuffer.clear
        (other_slot lg b d j h hb (omega arith) (omega arith) small (omega arith)),
    seq_add-seq_add b j 1,
    stream-set_before n (j + 1) d 0 bufs v (omega arith) (omega arith),
  )

  -- Filling an empty slot of the stretch only appends.
  pub stream_fill :
      (n j d s : ℕ) (bufs : List InBuffer) (v : InBuffer)
      → j ≤ d
      → d < j + n
      → j + n ≤ 2 ^ lg
      → (at lg bufs (seq_add b d)).type ≡ ContentType.unset
      → (more : List ℕ) × (stream lg (set bufs (seq_add b d % 2 ^ lg) v) n (seq_add b j) s
          ≡ stream lg bufs n (seq_add b j) s ++ more)
  unfolding stream
  stream_fill zero j d s bufs v p q r e = absurd (omega arith)
  stream_fill (suc n) j d s bufs v p q r e = elim (dec_lt j d) [
    | yes lt ↦
        let (more, ih) =
          stream_fill n (j + 1) d 0 bufs v (omega arith) (omega arith) (omega arith) e in
        let c =
          chunk-append (at lg bufs (seq_add b j)) s (stream lg bufs n (seq_add b (j + 1)) 0) more in
        (
          c.0,
          rw
              (
                get_or-set_ne bufs (seq_add b d % 2 ^ lg) (seq_add b j % 2 ^ lg) v InBuffer.clear
                    (other_slot lg b d j h hb (omega arith) (omega arith) small (omega arith)),
                seq_add-seq_add b j 1,
                ih,
              )
              c.1,
        )
    | no ge ↦
        let d_eq : d ≡ j = omega arith in
        (
          _,
          ap
              (λ xs.
                xs
                ++ chunk (at lg (set bufs (seq_add b d % 2 ^ lg) v) (seq_add b j)) s
                    (stream lg (set bufs (seq_add b d % 2 ^ lg) v) n (seq_add (seq_add b j) 1) 0))
              (sym (chunk_unset (at lg bufs (seq_add b j)) s _ (rw d_eq at e))),
        )
  ]

  -- A slot added at the end, not yet filled, adds nothing.
  pub stream_grow :
      (n j s : ℕ) (bufs : List InBuffer)
      → j + n + 1 ≤ 2 ^ lg
      → length bufs ≡ 2 ^ lg
      → stream lg (set bufs (seq_add b (j + n) % 2 ^ lg) InBuffer.clear) (suc n) (seq_add b j) s
        ≡ stream lg bufs n (seq_add b j) s
  unfolding stream
  stream_grow zero j s bufs p len =
      chunk_unset (at lg (set bufs (seq_add b (j + 0) % 2 ^ lg) InBuffer.clear) (seq_add b j)) s []
        (rw
          (
            add-zero j,
            get_or-set_self bufs (seq_add b j % 2 ^ lg) InBuffer.clear InBuffer.clear
                (in_range lg bufs (seq_add b j) len (omega arith)),
          )
          clear-unset)
  stream_grow (suc n) j s bufs p len =
      rw
        (
          get_or-set_ne bufs (seq_add b (j + suc n) % 2 ^ lg) (seq_add b j % 2 ^ lg) InBuffer.clear
              InBuffer.clear
              (other_slot lg b (j + suc n) j h hb (omega arith) (omega arith) small (omega arith)),
          seq_add-seq_add b j 1,
        )
        (ap (chunk (at lg bufs (seq_add b j)) s) (
          ap
            (λ k.
              stream lg (set bufs (seq_add b k % 2 ^ lg) InBuffer.clear) (suc n) (seq_add b (j + 1))
                0)
            (omega arith)
          ∙ stream_grow n (j + 1) 0 bufs (omega arith) len))

-- ===== src/Receiver/Session/Window.antt =====
-- What is pending, in terms of the peer's packets.
use roo_transport.Prelude.{
  ℕ, zero, suc, ◌+◌, ◌≤◌, ◌<◌, ◌≡◌, ◌≢◌, ◌⊎◌, inl, inr, refl, sym, ap, ◌∙◌, Bool-cases, ==_iff,
  ◌==◌, subst, List, ◌++◌, take, drop, take-append-drop, append_assoc, append-nil, arith,
}
use native.Mathlib.Decide.{ℕ_discrete}
use roo_transport.Seq.{SeqNum, seq_add}
use roo_transport.Seq.Order.{seq_add-zero, seq_add-seq_add, seq_add-lt}
use roo_transport.InBuffer.{InBuffer, ContentType}
use roo_transport.Receiver.Stream.{stream, at, chunk_unset, chunk-content, chunk_fin}
use roo_transport.Receiver.Fill.{kind}
use roo_transport.Receiver.Session.{Peer, is_final, content}

-- The buffer of packet `k`, once it has come.
abbrev pub packet_buffer : Peer → ℕ → InBuffer
packet_buffer p k = record { type = kind (is_final p k); payload = p.payload k }

-- How many slots from the first on are filled.
pub record Run (n : ℕ) (f : ℕ → InBuffer) : Type 0 where
  pub size : ℕ
  pub size_le : size ≤ n
  pub filled : (k : ℕ) → k < size → (f k).type ≢ ContentType.unset
  pub stop : (size ≡ n) ⊎ ((f size).type ≡ ContentType.unset)

type_unset : (t : ContentType) → (t ≡ ContentType.unset) ⊎ (t ≢ ContentType.unset)
type_unset ContentType.unset = inl refl
type_unset ContentType.content = inr (λ e. cc e)
type_unset ContentType.fin = inr (λ e. cc e)

pub Run-of : (n : ℕ) (f : ℕ → InBuffer) → Run n f
Run-of zero f = record {
  size = 0;
  size_le = omega arith;
  filled = λ k p. absurd (omega arith);
  stop = inl refl;
}
Run-of (suc n) f =
    let u = Run-of n f in
    elim u.stop [
      | inr un ↦ record {
        size = u.size;
        size_le = omega (arith, u.size_le);
        filled = u.filled;
        stop = inr un;
      }
      | inl all ↦ elim (type_unset (f n).type) [
        | inl un ↦ record {
          size = n;
          size_le = omega arith;
          filled = λ k h. u.filled k (omega (arith, all));
          stop = inr un;
        }
        | inr full ↦ record {
          size = suc n;
          size_le = omega arith;
          filled = λ k h. upto k h u all full (ℕ_discrete k n);
          stop = inl refl;
        }
      ]
    ]
  where
    upto :
        (k : ℕ)
        → k < suc n
        → (u : Run n f) → u.size ≡ n
        → (f n).type ≢ ContentType.unset
        → Dec (k ≡ n)
        → (f k).type ≢ ContentType.unset
    upto k h u all full (yes e) = subst (λ j. (f j).type ≢ ContentType.unset) (sym e) full
    upto k h u all full (no ne) = u.filled k (omega (arith, all))

module _ (p : Peer) (lg : ℕ) (bufs : List InBuffer) where
  -- The window holds nothing but the packets that it is for.
  abbrev pub Holds : ℕ → SeqNum → ℕ → Type 0
  Holds n pos lo =
      (k : ℕ)
      → k < n
      → ((at lg bufs (seq_add pos k)).type ≡ ContentType.unset)
        ⊎ (at lg bufs (seq_add pos k) ≡ packet_buffer p (lo + k))

  first_filled :
      (n lo : ℕ) (pos : SeqNum)
      → pos < 65536
      → Holds (suc n) pos lo
      → (at lg bufs (seq_add pos 0)).type ≢ ContentType.unset
      → at lg bufs pos ≡ packet_buffer p lo
  first_filled n lo pos lt holds full = elim (holds 0 (omega arith)) [
    | inl un ↦ absurd (full un)
    | inr e ↦ ap (at lg bufs) (sym (seq_add-zero pos lt)) ∙ e ∙ ap (packet_buffer p) (omega arith)
  ]

  -- What is read of the first packet and what is pending are the packets of the run.
  pub stream-content :
      (m n lo skip : ℕ) (pos : SeqNum)
      → pos < 65536
      → lo + n ≤ p.last + 1
      → m ≤ n
      → ((k : ℕ) → k < m → (at lg bufs (seq_add pos k)).type ≢ ContentType.unset)
      → (m ≡ n) ⊎ ((at lg bufs (seq_add pos m)).type ≡ ContentType.unset)
      → (m ≡ 0 → skip ≡ 0)
      → Holds n pos lo
      → take skip (p.payload lo) ++ stream lg bufs n pos skip ≡ content p lo m
  unfolding stream content
  stream-content zero zero lo skip pos lt bound le filled stop start holds = rw (start refl) refl
  stream-content zero (suc n) lo skip pos lt bound le filled (inl e) start holds =
      absurd (omega arith)
  stream-content zero (suc n) lo skip pos lt bound le filled (inr un) start holds =
      rw (start refl) (
        chunk_unset (at lg bufs pos) 0 (stream lg bufs n (seq_add pos 1) 0)
          (ap (λ s. (at lg bufs s).type) (sym (seq_add-zero pos lt)) ∙ un))
  stream-content (suc m) zero lo skip pos lt bound le filled stop start holds = absurd (omega arith)
  stream-content (suc m) (suc n) lo skip pos lt bound le filled stop start holds =
      elim (Bool-cases (lo == p.last)) [
        | inl is_last ↦
            let lo_eq : lo ≡ p.last = (==_iff _ _).0 is_last in
            let m_eq : m ≡ 0 = omega arith in
            ap (λ xs. take skip (p.payload lo) ++ xs)
              (chunk_fin (at lg bufs pos) skip (stream lg bufs n (seq_add pos 1) 0)
                  (ap (λ b. b.type) here ∙ ap kind is_last)
                ∙ ap (λ b. drop skip b.payload) here)
            ∙ take-append-drop skip (p.payload lo)
            ∙ sym (append-nil (p.payload lo))
            ∙ ap (λ j. p.payload lo ++ content p (lo + 1) j) (sym m_eq)
        | inr more ↦
            ap (λ xs. take skip (p.payload lo) ++ xs)
              (chunk-content (at lg bufs pos) skip (stream lg bufs n (seq_add pos 1) 0)
                  (ap (λ b. b.type) here ∙ ap kind more)
                ∙ ap (λ b. drop skip b.payload ++ stream lg bufs n (seq_add pos 1) 0) here)
            ∙ sym (append_assoc (take skip (p.payload lo)) (drop skip (p.payload lo)) _)
            ∙ ap (λ xs. xs ++ stream lg bufs n (seq_add pos 1) 0)
                (take-append-drop skip (p.payload lo))
            ∙ ap (λ xs. p.payload lo ++ xs)
                (stream-content m n (lo + 1) 0 (seq_add pos 1) (seq_add-lt pos 1) (omega arith)
                  (omega arith) shifted ends (λ e. refl) shifted_holds)
      ]
    where
      here : at lg bufs pos ≡ packet_buffer p lo
      here = first_filled n lo pos lt holds (filled 0 (omega arith))

      next : (k : ℕ) → seq_add (seq_add pos 1) k ≡ seq_add pos (suc k)
      next k = seq_add-seq_add pos 1 k ∙ ap (seq_add pos) (omega arith)

      shifted : (k : ℕ) → k < m → (at lg bufs (seq_add (seq_add pos 1) k)).type ≢ ContentType.unset
      shifted k h un =
          filled (suc k) (omega arith) (ap (λ s. (at lg bufs s).type) (sym (next k)) ∙ un)

      ends : (m ≡ n) ⊎ ((at lg bufs (seq_add (seq_add pos 1) m)).type ≡ ContentType.unset)
      ends = elim stop [
        | inl e ↦ inl (omega arith)
        | inr un ↦ inr (ap (λ s. (at lg bufs s).type) (next m) ∙ un)
      ]

      shifted_holds : Holds n (seq_add pos 1) (lo + 1)
      shifted_holds k h = elim (holds (suc k) (omega arith)) [
        | inl un ↦ inl (ap (λ s. (at lg bufs s).type) (next k) ∙ un)
        | inr e ↦ inr (ap (at lg bufs) (next k) ∙ e ∙ ap (packet_buffer p) (omega arith))
      ]

pub content-append :
    (p : Peer) (m n lo : ℕ) → content p lo m ++ content p (lo + m) n ≡ content p lo (m + n)
unfolding content
content-append p zero n lo =
    let lo_eq : lo + 0 ≡ lo = omega arith in
    let n_eq : n ≡ 0 + n = omega arith in ap (λ k. content p k n) lo_eq ∙ ap (content p lo) n_eq
content-append p (suc m) n lo =
    let lo_eq : lo + suc m ≡ lo + 1 + m = omega arith in
    let n_eq : suc (m + n) ≡ suc m + n = omega arith in
    append_assoc (p.payload lo) (content p (lo + 1) m) (content p (lo + suc m) n)
    ∙ ap (λ k. p.payload lo ++ (content p (lo + 1) m ++ content p k n)) lo_eq
    ∙ ap (λ xs. p.payload lo ++ xs) (content-append p m n (lo + 1))
    ∙ ap (content p lo) n_eq

-- ===== src/Receiver/ReadLoop.antt =====
-- `tryRead` of roo_transport/link/internal/receiver.cpp: the loop over the buffers.
use roo_transport.Prelude.{
  ℕ, zero, suc, ◌+◌, ◌-◌, ◌%◌, ◌<◌, ◌≡◌, ◌≢◌, ◌⊎◌, inl, inr, refl, sym, ap, ◌∙◌, Bool, true, false,
  ltb, leb, lt→ltb, le→leb, ltb→lt, ltb-false, subst, Option, none, some, List, [], ◌++◌, length,
  take, drop, append-nil, append_assoc, take-nil, drop-nil, Bool-cases, Option-cases, arith,
}
use roo_transport.Ring
use roo_transport.Ring.{slots_used}
use roo_transport.Ring.Window.{used-pop}
use roo_transport.InBuffer.{InBuffer, ContentType}
use roo_transport.Receiver.{Receiver, State, slot, is_unset}
use roo_transport.Receiver.Read.{open_buffer, at_end, read_loop, try_read}
use roo_transport.Receiver.Shift.{Shifts, Shifts-trans, same_window}
use roo_transport.Receiver.Inv.{Inv, pending}
use roo_transport.Receiver.Stream.{chunk_unset}
use native.Mathlib.Decide.{dec_lt}
use roo_transport.Receiver.ReadLaws.{
  Opened, open_buffer-Opened, gone, release-some, gone-Inv, gone-Shifts, at_end-Inv, read_part,
  read_whole, read_fin, Current, current_lem, pending-empty, pending_head, head_of, tail_of,
}

-- What a read of `count` bytes comes to, with `out` read before: it does not abort, it delivers the
-- first `count` pending bytes or all of them, the rest is still pending, and the state is sound.
abbrev pub Reads : Receiver → ℕ → List ℕ → Option (List ℕ × Bool × Receiver) → Type 0
Reads r count out o =
    (ready : Bool) × (r' : Receiver) × (o ≡ some (out ++ take count (pending r), ready, r'))
    × (pending r' ≡ drop count (pending r))
    × Inv r'
    × Shifts r r'

module _ (fuel : ℕ) (r : Receiver) (count : ℕ) (out : List ℕ) (ready : Bool) where
  loop_none :
      open_buffer r ≡ none → read_loop (suc fuel) r count out ready ≡ some (out, ready, at_end r)
  unfolding read_loop
  loop_none e = rw (read_loop, e)

  module _ (i : ℕ) (u : Receiver) (opened : open_buffer r ≡ some (i, u)) where
    abbrev left : List ℕ
    left = drop u.current_pos (slot u i).payload

    loop_unset :
        is_unset (slot u i) ≡ true → read_loop (suc fuel) r count out ready ≡ some (out, ready, u)
    unfolding read_loop
    loop_unset e = rw (read_loop, opened, e)

    module _ (filled : is_unset (slot u i) ≡ false)
        (pos_ok : leb u.current_pos (length (slot u i).payload) ≡ true) where
      loop_part :
          ltb count (length left) ≡ true
          → read_loop (suc fuel) r count out ready
            ≡ some (
              out ++ take count left,
              ready,
              record u { current_pos = (u.current_pos + count) % 256 },
            )
      unfolding read_loop
      loop_part e = rw (read_loop, opened, filled, pos_ok, e)

      loop_more :
          ltb count (length left) ≡ false
          → 0 < slots_used u.ring
          → (slot u i).type ≡ ContentType.content
          → 0 < count - length left
          → read_loop (suc fuel) r count out ready
            ≡ read_loop fuel (gone u i) (count - length left) (out ++ left) true
      unfolding read_loop
      loop_more e used t more =
          rw (read_loop, opened, filled, pos_ok, e, release-some u i used, t, lt→ltb 0 _ more)

      loop_full :
          ltb count (length left) ≡ false
          → 0 < slots_used u.ring
          → (slot u i).type ≡ ContentType.content
          → count - length left ≡ 0
          → read_loop (suc fuel) r count out ready ≡ some (out ++ left, true, gone u i)
      unfolding read_loop
      loop_full e used t full =
          rw (read_loop, opened, filled, pos_ok, e, release-some u i used, t, full)

      loop_fin :
          ltb count (length left) ≡ false
          → 0 < slots_used u.ring
          → (slot u i).type ≡ ContentType.fin
          → slots_used (gone u i).ring ≡ 0
          → read_loop (suc fuel) r count out ready
            ≡ some (out ++ left, true, record (gone u i) { end_of_stream = true })
      unfolding read_loop Ring.is_empty
      loop_fin e used t last =
          rw (read_loop, opened, filled, pos_ok, e, release-some u i used, t, last)

is_unset_eq : (b : InBuffer) → is_unset b ≡ true → b.type ≡ ContentType.unset
is_unset_eq b e = ground arith

type_cases :
    (b : InBuffer)
    → is_unset b ≡ false
    → (b.type ≡ ContentType.content) ⊎ (b.type ≡ ContentType.fin)
type_cases b e = ground arith

filled_ne : (b : InBuffer) → is_unset b ≡ false → b.type ≢ ContentType.unset
filled_ne b e q = ground arith

pos_ok_lem :
    (u : Receiver) (i : ℕ) → Current u i → leb u.current_pos (length (slot u i).payload) ≡ true
pos_ok_lem u i c = rw c.same (le→leb _ _ c.pos_le)

-- A buffer that waits for its packet: nothing is pending.
pending_unset :
    (u : Receiver) (i : ℕ)
    → Inv u
    → u.current ≡ some i
    → is_unset (slot u i) ≡ true
    → pending u ≡ []
pending_unset u i v e q =
    let c = current_lem u i v e in
    pending_head u i e c.used
    ∙ chunk_unset (head_of u) u.current_pos (tail_of u)
        (ap (λ b. b.type) (sym c.same) ∙ is_unset_eq (slot u i) q)

eos-Inv : (r : Receiver) → Inv r → Inv (record r { end_of_stream = true })
eos-Inv r v = record {
  window = v.window;
  storage = v.storage;
  sizes = v.sizes;
  cursor = v.cursor;
  final_last = v.final_last;
  final_closed = v.final_closed;
}

-- The first round, at the state that `open_buffer` leaves; `later` is the rest of the loop.
round-Reads :
    (fuel : ℕ) (r : Receiver) (count : ℕ) (out : List ℕ) (ready : Bool) (i : ℕ) (u : Receiver)
    → open_buffer r ≡ some (i, u)
    → Inv u
    → u.current ≡ some i
    → ((n : ℕ) (xs : List ℕ) → Reads (gone u i) n xs (read_loop fuel (gone u i) n xs true))
    → Reads u count out (read_loop (suc fuel) r count out ready)
round-Reads fuel r count out ready i u opened v e later = elim (Bool-cases (is_unset (slot u i))) [
  | inl un ↦
      let p = pending_unset u i v e un in
      (
        ready,
        u,
        loop_unset fuel r count out ready i u opened un
            ∙ ap (λ xs. some (xs, ready, u)) (nothing p),
        p ∙ sym (drop-nil count) ∙ ap (drop count) (sym p),
        v,
        same_window u u v.window.begin_lt refl refl (λ c. c) (λ s. s),
      )
  | inr filled ↦
      let c = current_lem u i v e in
      let ok = pos_ok_lem u i c in
      elim (Bool-cases (ltb count (length (drop u.current_pos (slot u i).payload)))) [
        | inl lt ↦
            let (taken, rest, inv) =
              read_part u i count v e (filled_ne (slot u i) filled) (ltb→lt _ _ lt) in
            (
              ready,
              _,
              loop_part fuel r count out ready i u opened filled ok lt
                  ∙ ap
                      (λ xs. some (
                        out ++ xs,
                        ready,
                        record u { current_pos = (u.current_pos + count) % 256 },
                      ))
                      (sym taken),
              rest,
              inv,
              same_window u (record u { current_pos = (u.current_pos + count) % 256 })
                  v.window.begin_lt refl refl (λ c. c) (λ s. s),
            )
        | inr ge ↦ elim (type_cases (slot u i) filled) [
          | inl t ↦
              whole c ok filled ge t
                (dec_lt 0 (count - length (drop u.current_pos (slot u i).payload)))
          | inr t ↦
              let (taken, rest, last) = read_fin u i count v e t (ltb-false _ _ ge) in
              (
                true,
                record (gone u i) { end_of_stream = true },
                loop_fin fuel r count out ready i u opened filled ok ge c.used t last
                    ∙ ap (λ xs. some (out ++ xs, true, record (gone u i) { end_of_stream = true }))
                        (sym taken),
                pending-empty (gone u i) last ∙ sym rest,
                eos-Inv (gone u i) (gone-Inv u i v c.used c.index),
                Shifts-trans (gone-Shifts u i v c.used c.index (filled_ne (slot u i) filled)) (
                    same_window (gone u i) (record (gone u i) { end_of_stream = true })
                      (gone-Inv u i v c.used c.index).window.begin_lt refl refl (λ c. c) (λ s. s)),
              )
        ]
      ]
]
  where
    nothing : pending u ≡ [] → out ≡ out ++ take count (pending u)
    nothing p =
        sym (append-nil out) ∙ ap (λ xs. out ++ xs) (sym (take-nil count) ∙ ap (take count) (sym p))

    whole :
        Current u i
        → leb u.current_pos (length (slot u i).payload) ≡ true
        → is_unset (slot u i) ≡ false
        → ltb count (length (drop u.current_pos (slot u i).payload)) ≡ false
        → (slot u i).type ≡ ContentType.content
        → Dec (0 < count - length (drop u.current_pos (slot u i).payload))
        → Reads u count out (read_loop (suc fuel) r count out ready)
    whole c ok filled ge t (yes more) =
        let rest = drop u.current_pos (slot u i).payload in
        let (taken, dropped) = read_whole u i count v e t (ltb-false _ _ ge) in
        let (ready', r', eq, p, inv, shift) = later (count - length rest) (out ++ rest) in
        (
          ready',
          r',
          loop_more fuel r count out ready i u opened filled ok ge c.used t more
              ∙ eq
              ∙ ap (λ xs. some (xs, ready', r'))
                  (append_assoc out rest _ ∙ ap (λ xs. out ++ xs) (sym taken)),
          p ∙ sym dropped,
          inv,
          Shifts-trans (gone-Shifts u i v c.used c.index (filled_ne (slot u i) filled)) shift,
        )
    whole c ok filled ge t (no full) =
        let rest = drop u.current_pos (slot u i).payload in
        let (taken, dropped) = read_whole u i count v e t (ltb-false _ _ ge) in
        let z : count - length rest ≡ 0 = omega arith in
        (
          true,
          gone u i,
          loop_full fuel r count out ready i u opened filled ok ge c.used t z
              ∙ ap (λ xs. some (out ++ xs, true, gone u i))
                  (sym (append-nil rest)
                    ∙ ap (λ k. rest ++ take k (pending (gone u i))) (sym z)
                    ∙ sym taken),
          ap (λ k. drop k (pending (gone u i))) (sym z) ∙ sym dropped,
          gone-Inv u i v c.used c.index,
          gone-Shifts u i v c.used c.index (filled_ne (slot u i) filled),
        )

read_loop-Reads :
    (fuel : ℕ) (r : Receiver) (count : ℕ) (out : List ℕ) (ready : Bool)
    → slots_used r.ring < fuel
    → Inv r
    → Reads r count out (read_loop fuel r count out ready)
read_loop-Reads zero r count out ready h v = absurd (omega arith)
read_loop-Reads (suc fuel) r count out ready h v = elim (Option-cases (open_buffer r)) [
  | inl e ↦
      let z = subst (Opened r) e (open_buffer-Opened r r.current refl v) in
      let (inv, none_left, shift) = at_end-Inv r v z in
      let p = pending-empty r z in
      (
        ready,
        at_end r,
        loop_none fuel r count out ready e
            ∙ ap (λ xs. some (xs, ready, at_end r))
                (sym (append-nil out)
                  ∙ ap (λ xs. out ++ xs) (sym (take-nil count) ∙ ap (take count) (sym p))),
        none_left ∙ sym (drop-nil count) ∙ ap (drop count) (sym p),
        inv,
        shift,
      )
  | inr ((i, u), e) ↦
      let (inv, cur, same, ring, shift) =
        subst (Opened r) e (open_buffer-Opened r r.current refl v) in
      let c = current_lem u i inv cur in
      let used : slots_used (gone u i).ring < fuel =
        omega (arith, used-pop inv.window c.used, ap slots_used ring) in
      let (ready', r', eq, p, inv', shift') =
        round-Reads fuel r count out ready i u e inv cur λ n xs.
          read_loop-Reads fuel (gone u i) n xs true used (gone-Inv u i inv c.used c.index) in
      (
        ready',
        r',
        eq ∙ ap (λ xs. some (out ++ take count xs, ready', r')) same,
        p ∙ ap (drop count) same,
        inv',
        Shifts-trans shift shift',
      )
]

-- While there is a connection, reading up to `count` bytes does not abort, delivers the first
-- `count` of the pending bytes (all of them, if they are fewer) in their order, leaves exactly the
-- others pending, and keeps the invariant; slots leave the window only at its front.
pub try_read-Reads :
    (r : Receiver) (count : ℕ)
    → Inv r
    → (r.state ≡ State.connected) ⊎ (r.state ≡ State.broken)
    → Reads r count [] (try_read r count)
unfolding try_read
try_read-Reads r count v s =
    subst (Reads r count []) (sym (runs s))
      (read_loop-Reads (slots_used r.ring + 1) r count [] false (omega arith) v)
  where
    runs :
        (r.state ≡ State.connected) ⊎ (r.state ≡ State.broken)
        → try_read r count ≡ read_loop (slots_used r.ring + 1) r count [] false
    runs (inl e) = ground arith
    runs (inr e) = ground arith

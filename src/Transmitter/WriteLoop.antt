-- ===== src/Transmitter/WriteLoop.antt =====
-- `tryWrite` of roo_transport/link/internal/transmitter.cpp as a whole.
use roo_transport.Prelude.{
  ℕ, zero, suc, ◌+◌, ◌%◌, ◌≤◌, ◌<◌, ◌≡◌, ◌⊎◌, inl, inr, refl, sym, ap, ◌∙◌, subst, Bool, true,
  false, ◌||◌, Option, none, some, List, [], ◌∷◌, ◌++◌, length, take, drop, get_or, append-nil,
  append_assoc, take-drop, length-drop, Bool-cases, lt→ltb, arith,
}
use roo_transport.Seq.{sub16, seq_ge}
use roo_transport.Ring.{capacity}
use roo_transport.OutBuffer
use roo_transport.OutBuffer.{OutBuffer}
use roo_transport.OutBuffer.Write.{Wrote, write-Wrote, write_finished}
use roo_transport.Transmitter.{Transmitter, State, open_buffer, write_loop, try_write}
use roo_transport.Transmitter.Queue.{is_open, Inv, IsTail, IsLast, outgoing}
use roo_transport.Transmitter.WriteLaws.{
  is_blocked, fresh, open_current, open_blocked, open_fresh, fresh-Inv, fresh-IsLast,
  outgoing-fresh, written, cleared, cleared-Inv, written-cleared, written-Inv, outgoing-written,
}

-- What writing `bytes` comes to, with `total` written before: no CHECK fails, the first `k` bytes
-- go behind those that wait to be sent, and all are taken or no more can be.
abbrev pub Writes :
    Transmitter → List ℕ → ℕ → (Transmitter → Type 0) → Option (ℕ × Bool × Transmitter) → Type 0
Writes t bytes total Refused o =
    (k : ℕ) × (ready : Bool) × (t' : Transmitter) × (o ≡ some (total + k, ready, t'))
    × (outgoing t' ≡ outgoing t ++ take k bytes)
    × (k ≤ length bytes)
    × ((k ≡ length bytes) ⊎ Refused t')
    × Inv t'

-- No buffer is open, and none can be opened.
abbrev pub IsBlocked : Transmitter → Type 0
IsBlocked t = (t.current ≡ none) × (is_blocked t ≡ true)

assoc : (a b c : ℕ) → a + b + c ≡ a + (b + c)
assoc a b c = omega arith

himark_ok :
    (t : Transmitter)
    → sub16 t.recv_himark t.ring.end < 32768
    → seq_ge t.recv_himark t.ring.end ≡ true
unfolding seq_ge
himark_ok t h = lt→ltb _ _ h

module _ (fuel : ℕ) (t : Transmitter) (bytes : List ℕ) (total : ℕ) (ready : Bool)
    (ok : seq_ge t.recv_himark t.ring.end ≡ true) where
  loop_blocked :
      open_buffer t ≡ some none → write_loop (suc fuel) t bytes total ready ≡ some (total, ready, t)
  unfolding write_loop
  loop_blocked e = rw (write_loop, ok, e)

  module _ (i : ℕ) (u : Transmitter) (opened : open_buffer t ≡ some (some (i, u))) (k : ℕ)
      (b : OutBuffer)
      (wrote : OutBuffer.write (get_or u.out_buffers i OutBuffer.new_out_buffer) bytes
        ≡ some (k, b)) where
    -- The end of a round: `rest` is what is left to write.
    abbrev next : List ℕ → Option (ℕ × Bool × Transmitter)
    next rest = elim rest [
      | [] ↦ some (total + k, ready || b.finished, written u i b)
      | y ∷ ys ↦ write_loop fuel (written u i b) (y ∷ ys) (total + k) (ready || b.finished)
    ]

    loop_next : write_loop (suc fuel) t bytes total ready ≡ next (drop k bytes)
    unfolding write_loop
    loop_next = rw (write_loop, ok, opened, wrote)

    loop_last :
        drop k bytes ≡ []
        → write_loop (suc fuel) t bytes total ready
          ≡ some (total + k, ready || b.finished, written u i b)
    loop_last e = loop_next ∙ ap next e

    loop_on :
        (y : ℕ) (ys : List ℕ)
        → drop k bytes ≡ y ∷ ys
        → write_loop (suc fuel) t bytes total ready
          ≡ write_loop fuel (written u i b) (y ∷ ys) (total + k) (ready || b.finished)
    loop_on y ys e = loop_next ∙ ap next e

-- One round, at the state that `open_buffer` leaves; `later` is the rest of the loop.
round-Writes :
    (fuel : ℕ) (t : Transmitter) (bytes : List ℕ) (total : ℕ) (ready : Bool) (i : ℕ)
    (u : Transmitter)
    → seq_ge t.recv_himark t.ring.end ≡ true
    → open_buffer t ≡ some (some (i, u))
    → Inv u
    → IsLast u.ring u.out_buffers i
    → u.current ≡ some i
    → 0 < length bytes
    → ((k : ℕ) (b : OutBuffer) (ready' : Bool)
        → 0 < k
        → 0 < length (drop k bytes)
        → Inv (written u i b)
        → Writes
            (written u i b)
            (drop k bytes)
            (total + k)
            IsBlocked
            (write_loop fuel (written u i b) (drop k bytes) (total + k) ready'))
    → Writes u bytes total IsBlocked (write_loop (suc fuel) t bytes total ready)
round-Writes fuel t bytes total ready i u ok opened v tail cur more later =
    let (k, b, wrote, w) =
      write-Wrote (get_or u.out_buffers i OutBuffer.new_out_buffer) bytes tail.2 tail.3 in
    by_rest k b wrote w (drop k bytes) refl
  where
    by_rest :
        (k : ℕ) (b : OutBuffer)
        → OutBuffer.write (get_or u.out_buffers i OutBuffer.new_out_buffer) bytes ≡ some (k, b)
        → Wrote (get_or u.out_buffers i OutBuffer.new_out_buffer) bytes k b
        → (rest : List ℕ) → drop k bytes ≡ rest
        → Writes u bytes total IsBlocked (write_loop (suc fuel) t bytes total ready)
    by_rest k b wrote w [] e =
        let len : length (drop k bytes) ≡ 0 = ap (λ (xs : List ℕ). length xs) e in
        (
          k,
          _,
          written u i b,
          loop_last fuel t bytes total ready ok i u opened k b wrote e,
          outgoing-written u i bytes k b v tail cur w,
          w.within,
          inl (omega (arith, length-drop k bytes, w.within)),
          written-Inv u i bytes k b v tail cur w,
        )
    by_rest k b wrote w (y ∷ ys) e =
        let len : length (drop k bytes) ≡ suc (length ys) = ap (λ (xs : List ℕ). length xs) e in
        let left : 0 < length (drop k bytes) = omega arith in
        let (j, r, t', eq, same, le, end, inv) =
          later k b (ready || b.finished) (w.moves more) left
            (written-Inv u i bytes k b v tail cur w) in
        (
          k + j,
          r,
          t',
          loop_on fuel t bytes total ready ok i u opened k b wrote y ys e
              ∙ ap (λ xs. write_loop fuel (written u i b) xs (total + k) (ready || b.finished))
                  (sym e)
              ∙ eq
              ∙ ap (λ n. some (n, r, t')) (assoc total k j),
          same
              ∙ ap (λ xs. xs ++ take j (drop k bytes)) (outgoing-written u i bytes k b v tail cur w)
              ∙ append_assoc (outgoing u) (take k bytes) _
              ∙ ap (λ xs. outgoing u ++ xs) (take-drop k j bytes),
          omega (arith, length-drop k bytes, w.within),
          all j t' end,
          inv,
        )
      where
        all :
            (j : ℕ) (t' : Transmitter)
            → (j ≡ length (drop k bytes)) ⊎ IsBlocked t'
            → (k + j ≡ length bytes) ⊎ IsBlocked t'
        all j t' (inl q) = inl (omega (arith, length-drop k bytes, w.within))
        all j t' (inr q) = inr q

-- A round on a finished buffer takes nothing, and the loop goes on without it.
abbrev busy : Option ℕ → ℕ
busy none = 0
busy (some i) = 1

busy_le : (c : Option ℕ) → busy c ≤ 1
busy_le none = omega arith
busy_le (some i) = omega arith

none_taken : (a c : ℕ) → a + 0 + c ≡ a + c
none_taken a c = omega arith

finished-Writes :
    (fuel : ℕ) (t : Transmitter) (bytes : List ℕ) (total : ℕ) (ready : Bool) (i : ℕ)
    → seq_ge t.recv_himark t.ring.end ≡ true
    → t.current ≡ some i
    → (get_or t.out_buffers i OutBuffer.new_out_buffer).finished ≡ true
    → 0 < length bytes
    → ((ready' : Bool)
        → Writes
            (cleared t)
            bytes
            (total + 0)
            IsBlocked
            (write_loop fuel (cleared t) bytes (total + 0) ready'))
    → Writes t bytes total IsBlocked (write_loop (suc fuel) t bytes total ready)
finished-Writes fuel t bytes total ready i ok cur finished more later = by_bytes bytes refl
  where
    by_bytes :
        (rest : List ℕ)
        → bytes ≡ rest
        → Writes t bytes total IsBlocked (write_loop (suc fuel) t bytes total ready)
    by_bytes [] e =
        absurd (let z : length bytes ≡ 0 = ap (λ (xs : List ℕ). length xs) e in omega arith)
    by_bytes (y ∷ ys) e =
        let b = get_or t.out_buffers i OutBuffer.new_out_buffer in
        let (k, r, t', eq, same, le, end, inv) = later (ready || b.finished) in
        (
          k,
          r,
          t',
          loop_on fuel t bytes total ready ok i t (open_current t i cur) 0 b
                (write_finished b bytes finished) y ys e
              ∙ ap (λ xs. write_loop fuel (written t i b) xs (total + 0) (ready || b.finished))
                  (sym e)
              ∙ ap (λ u. write_loop fuel u bytes (total + 0) (ready || b.finished))
                  (written-cleared t i finished)
              ∙ eq
              ∙ ap (λ n. some (n, r, t')) (none_taken total k),
          same,
          le,
          end,
          inv,
        )

-- The loop takes what it can within the fuel of one round for each byte, one more to stop, and one
-- more if the current buffer is finished.
write_loop-Writes :
    (fuel : ℕ) (t : Transmitter) (bytes : List ℕ) (total : ℕ) (ready : Bool)
    → Inv t
    → is_open t ≡ true
    → 0 < length bytes
    → length bytes + length bytes + busy t.current < fuel
    → Writes t bytes total IsBlocked (write_loop fuel t bytes total ready)
write_loop-Writes zero t bytes total ready v open_ some_ enough = absurd (omega arith)
write_loop-Writes (suc fuel) t bytes total ready v open_ some_ enough =
    by_current t.current refl
      (λ u xs n r inv open' q lt. write_loop-Writes fuel u xs n r inv open' q lt)
  where
    ok : seq_ge t.recv_himark t.ring.end ≡ true
    ok = himark_ok t (v.credit open_)

    by_current :
        (c : Option ℕ)
        → t.current ≡ c
        → ((u : Transmitter) (xs : List ℕ) (n : ℕ) (r : Bool)
            → Inv u
            → is_open u ≡ true
            → 0 < length xs
            → length xs + length xs + busy u.current < fuel
            → Writes u xs n IsBlocked (write_loop fuel u xs n r))
        → Writes t bytes total IsBlocked (write_loop (suc fuel) t bytes total ready)
    by_current (some i) cur ih =
        let one : busy t.current ≡ 1 = ap busy cur in
        elim (subst (IsTail t.ring t.out_buffers) cur (v.tail open_)) [
          | inl finished ↦
              finished-Writes fuel t bytes total ready i ok cur finished some_ (λ r.
                ih (cleared t) bytes (total + 0) r (cleared-Inv t v) open_ some_ (omega arith))
          | inr tail ↦
              round-Writes fuel t bytes total ready i t ok (open_current t i cur) v tail cur some_
                (λ k b r p q inv.
                  ih (written t i b) (drop k bytes) (total + k) r inv open_ q
                    (omega (arith, length-drop k bytes, busy_le (written t i b).current)))
        ]
    by_current none cur ih = elim (Bool-cases (is_blocked t)) [
      | inl full ↦ (
        0,
        ready,
        t,
        loop_blocked fuel t bytes total ready ok (open_blocked t cur full)
            ∙ ap (λ n. some (n, ready, t)) (omega arith),
        sym (append-nil (outgoing t)),
        omega arith,
        inr (cur, full),
        v,
      )
      | inr free ↦
          let (k, r, t', eq, same, le, end, inv) =
            round-Writes fuel t bytes total ready (t.ring.end % capacity t.ring) (fresh t) ok
              (open_fresh t v free cur) (fresh-Inv t v free) (fresh-IsLast t v free) refl some_
              (λ k b r p q inv.
                ih (written (fresh t) (t.ring.end % capacity t.ring) b) (drop k bytes) (total + k) r
                  inv open_ q
                  (omega (
                    arith,
                    length-drop k bytes,
                    busy_le (written (fresh t) (t.ring.end % capacity t.ring) b).current,
                  ))) in
          (
            k,
            r,
            t',
            eq,
            same ∙ ap (λ xs. xs ++ take k bytes) (outgoing-fresh t v free),
            le,
            end,
            inv,
          )
    ]

-- No byte is taken any more: the stream is closed, there is no connection, or no slot is to be had.
abbrev pub IsRefused : Transmitter → Type 0
IsRefused t =
    (t.end_of_stream ≡ true) ⊎ ((t.state ≡ State.idle) ⊎ ((t.state ≡ State.broken) ⊎ IsBlocked t))

untouched :
    (t : Transmitter) (bytes : List ℕ)
    → Inv t
    → (length bytes ≡ 0) ⊎ IsRefused t
    → Writes t bytes 0 IsRefused (some (0, false, t))
untouched t bytes v end =
    (0, false, t, refl, sym (append-nil (outgoing t)), omega arith, all end, v)
  where
    all : (length bytes ≡ 0) ⊎ IsRefused t → (0 ≡ length bytes) ⊎ IsRefused t
    all (inl e) = inl (sym e)
    all (inr r) = inr r

-- Writing does not abort and its loop ends; the bytes it reports as written, and no others, go
-- behind the bytes that wait to be sent, in order, and it takes fewer than all only when the stream
-- is closed, there is no connection, or no more slots are to be had.
pub try_write-Writes :
    (t : Transmitter) (bytes : List ℕ) → Inv t → Writes t bytes 0 IsRefused (try_write t bytes)
unfolding try_write
try_write-Writes t [] v = untouched t [] v (inl refl)
try_write-Writes t (y ∷ ys) v = elim (Bool-cases t.end_of_stream) [
  | inl closed ↦
      let eq : try_write t (y ∷ ys) ≡ some (0, false, t) = ground arith in
      subst (Writes t (y ∷ ys) 0 IsRefused) (sym eq) (untouched t (y ∷ ys) v (inr (inl closed)))
  | inr open_ ↦ by_state open_ t.state refl
]
  where
    weaken :
        {o : Option (ℕ × Bool × Transmitter)}
        → Writes t (y ∷ ys) 0 IsBlocked o
        → Writes t (y ∷ ys) 0 IsRefused o
    weaken (k, r, t', eq, same, le, inl e, inv) = (k, r, t', eq, same, le, inl e, inv)
    weaken (k, r, t', eq, same, le, inr b, inv) =
        (k, r, t', eq, same, le, inr (inr (inr (inr b))), inv)

    running :
        is_open t ≡ true
        → Writes t (y ∷ ys) 0 IsRefused (write_loop (length ys + length ys + 4) t (y ∷ ys) 0 false)
    running o = weaken (
        write_loop-Writes (length ys + length ys + 4) t (y ∷ ys) 0 false v o (omega arith)
          (omega (arith, busy_le t.current)))

    by_state :
        t.end_of_stream ≡ false
        → (s : State) → t.state ≡ s
        → Writes t (y ∷ ys) 0 IsRefused (try_write t (y ∷ ys))
    by_state open_ State.idle e =
        let eq : try_write t (y ∷ ys) ≡ some (0, false, t) = ground arith in
        subst (Writes t (y ∷ ys) 0 IsRefused) (sym eq) (untouched t (y ∷ ys) v (inr (inr (inl e))))
    by_state open_ State.broken e =
        let eq : try_write t (y ∷ ys) ≡ some (0, false, t) = ground arith in
        subst (Writes t (y ∷ ys) 0 IsRefused) (sym eq)
          (untouched t (y ∷ ys) v (inr (inr (inr (inl e)))))
    by_state open_ State.connecting e =
        let eq : try_write t (y ∷ ys) ≡ write_loop (length ys + length ys + 4) t (y ∷ ys) 0 false =
          ground arith in
        subst (Writes t (y ∷ ys) 0 IsRefused) (sym eq) (running (ground arith))
    by_state open_ State.connected e =
        let eq : try_write t (y ∷ ys) ≡ write_loop (length ys + length ys + 4) t (y ∷ ys) 0 false =
          ground arith in
        subst (Writes t (y ∷ ys) 0 IsRefused) (sym eq) (running (ground arith))

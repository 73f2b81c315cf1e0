-- ===== src/Packets/Chunks.antt =====
-- How the stream is cut into pieces does not matter: the receiver is a machine that takes bytes.
use roo_transport.Prelude.{
  ℕ, zero, suc, ◌+◌, ◌^◌, ◌%◌, ◌-◌, ◌≤◌, ◌<◌, ◌≡◌, ◌≢◌, ◌⊎◌, inl, inr, refl, sym, ap, ◌∙◌, subst,
  true, false, ◌==◌, ==_iff, ==_ne, ltb, leb, ◌&&◌, if◌then◌else◌, Bool-cases, Option-cases, Option,
  none, some, List, [], ◌∷◌, ◌++◌, All, length, take, drop, length-append, length-drop, append-nil,
  append_assoc, drop_all, arith,
}
use native.Mathlib.Decide.{dec_lt}
use roo_transport.Io.{MemoryIo}
use roo_transport.Packets.{
  seed, FrameIo, Framer, PacketReceiver, find_delim, gather, process_packet, finish, deliver,
  process_loop, process_incoming,
}

-- A frame is empty at its start and when it is too long.
pub record Inv (f : Framer) : Type 0 where
  pub pos_le : f.pos ≤ 256
  pub at_start : f.pos ≡ 0 → f.buf ≡ []
  pub too_long : f.pos ≡ 256 → f.buf ≡ []

gather_short :
    (f : Framer) (xs : List ℕ)
    → f.pos + length xs < 256
    → gather f xs ≡ record f { buf = f.buf ++ xs; pos = f.pos + length xs }
unfolding gather
gather_short f xs h =
    let e : ltb (f.pos + length xs) 256 ≡ true = ground arith in rw (gather, e) refl

gather_long :
    (f : Framer) (xs : List ℕ)
    → 256 ≤ f.pos + length xs
    → gather f xs ≡ record f { buf = []; pos = 256 }
unfolding gather
gather_long f xs h =
    let e : ltb (f.pos + length xs) 256 ≡ false = ground arith in rw (gather, e) refl

framer_eq :
    (f g : Framer) → f.buf ≡ g.buf → f.pos ≡ g.pos → f.bytes_accepted ≡ g.bytes_accepted → f ≡ g
framer_eq f g p q r = λ i. record { buf = p i; pos = q i; bytes_accepted = r i }

gather-nil : (f : Framer) → Inv f → gather f [] ≡ f
gather-nil f v = elim (dec_lt f.pos 256) [
  | yes lt ↦ gather_short f [] (omega arith) ∙ framer_eq _ f (append-nil f.buf) (omega arith) refl
  | no ge ↦
      let full : f.pos ≡ 256 = omega (arith, v.pos_le) in
      gather_long f [] (omega arith) ∙ framer_eq _ f (sym (v.too_long full)) (sym full) refl
]

gather-gather : (f : Framer) (xs ys : List ℕ) → gather (gather f xs) ys ≡ gather f (xs ++ ys)
gather-gather f xs ys = elim (dec_lt (f.pos + length xs) 256) [
  | no long ↦
      ap (λ g. gather g ys) (gather_long f xs (omega arith))
      ∙ gather_long (record f { buf = []; pos = 256 }) ys (omega arith)
      ∙ sym (gather_long f (xs ++ ys) (omega (arith, length-append xs ys)))
  | yes short ↦
      let g : Framer = record f { buf = f.buf ++ xs; pos = f.pos + length xs } in
      ap (λ g. gather g ys) (gather_short f xs short)
      ∙ elim (dec_lt (f.pos + length xs + length ys) 256) [
        | yes fits ↦
            gather_short g ys fits
            ∙ framer_eq _ _ (append_assoc f.buf xs ys) (omega (arith, length-append xs ys)) refl
            ∙ sym (gather_short f (xs ++ ys) (omega (arith, length-append xs ys)))
        | no over ↦
            gather_long g ys (omega arith)
            ∙ sym (gather_long f (xs ++ ys) (omega (arith, length-append xs ys)))
      ]
]

-- Bytes that are no end are there, so the position is not 0.
gather-Inv : (f : Framer) (b : ℕ) (xs : List ℕ) → Inv f → Inv (gather f (b ∷ xs))
gather-Inv f b xs v = elim (dec_lt (f.pos + length (b ∷ xs)) 256) [
  | yes short ↦ subst Inv (sym (gather_short f (b ∷ xs) short)) (record {
    pos_le = omega arith;
    at_start = λ e. absurd (omega arith);
    too_long = λ e. absurd (omega arith);
  })
  | no long ↦
      subst Inv (sym (gather_long f (b ∷ xs) (omega arith)))
        (record { pos_le = omega arith; at_start = λ e. refl; too_long = λ e. refl })
]

module _ (io : MemoryIo) (cobs : FrameIo) where
  abbrev ready : ℕ → Framer
  ready accepted = record { buf = []; pos = 0; bytes_accepted = accepted }

  -- A frame of `n` bytes.
  closed : ℕ → List ℕ → ℕ → Option (List ℕ) × Framer
  closed n frame accepted =
      if leb n 256 && leb 6 n
      then process_packet io cobs (ready accepted) frame
      else (none, ready accepted)

  finish_closed :
      (f : Framer) (chunk : List ℕ)
      → Inv f
      → finish io cobs f chunk ≡ closed (f.pos + length chunk) (f.buf ++ chunk) f.bytes_accepted
  unfolding finish closed
  finish_closed f chunk v = elim (Bool-cases (f.pos == 0)) [
    | inl e ↦
        let nothing : f.buf ≡ [] = v.at_start ((==_iff f.pos 0).0 e) in rw (finish, e, nothing) refl
    | inr e ↦ rw (finish, e) refl
  ]

  closed_big :
      (n : ℕ) (frame : List ℕ) (accepted : ℕ)
      → 256 < n
      → closed n frame accepted ≡ (none, ready accepted)
  unfolding closed
  closed_big n frame accepted h = let e : leb n 256 ≡ false = ground arith in rw e refl

  -- The end of a frame by itself, or with the bytes before it.
  finish-gather :
      (f : Framer) (xs : List ℕ)
      → Inv f
      → Inv (gather f xs)
      → finish io cobs (gather f xs) (0 ∷ []) ≡ finish io cobs f (xs ++ (0 ∷ []))
  finish-gather f xs v w =
      finish_closed (gather f xs) (0 ∷ []) w
      ∙ same (dec_lt (f.pos + length xs) 256)
      ∙ sym (finish_closed f (xs ++ (0 ∷ [])) v)
    where
      same :
          Dec (f.pos + length xs < 256)
          → closed
              ((gather f xs).pos + 1)
              ((gather f xs).buf ++ (0 ∷ []))
              (gather f xs).bytes_accepted
            ≡ closed (f.pos + length (xs ++ (0 ∷ []))) (f.buf ++ (xs ++ (0 ∷ []))) f.bytes_accepted
      same (yes short) =
          let n_eq : f.pos + length xs + 1 ≡ f.pos + length (xs ++ (0 ∷ [])) =
            omega (arith, length-append xs (0 ∷ [])) in
          ap (λ (g : Framer). closed (g.pos + 1) (g.buf ++ (0 ∷ [])) g.bytes_accepted)
            (gather_short f xs short)
          ∙ ap (λ n. closed n (f.buf ++ xs ++ (0 ∷ [])) f.bytes_accepted) n_eq
          ∙ ap (λ fr. closed (f.pos + length (xs ++ (0 ∷ []))) fr f.bytes_accepted)
              (append_assoc f.buf xs (0 ∷ []))
      same (no long) =
          ap (λ (g : Framer). closed (g.pos + 1) (g.buf ++ (0 ∷ [])) g.bytes_accepted)
            (gather_long f xs (omega arith))
          ∙ closed_big 257 _ f.bytes_accepted (omega arith)
          ∙ sym (
              closed_big (f.pos + length (xs ++ (0 ∷ []))) _ f.bytes_accepted
                (omega (arith, length-append xs (0 ∷ []))))

  process_packet-ready :
      (f : Framer) (frame : List ℕ)
      → ((process_packet io cobs f frame).1.buf ≡ f.buf)
        × ((process_packet io cobs f frame).1.pos ≡ f.pos)
  unfolding process_packet
  process_packet-ready f frame = elim (Option-cases (cobs.cobs_decode_tinyframe frame)) [
    | inl bad ↦ rw (process_packet, bad) (refl, refl)
    | inr (d, good) ↦
        elim (Bool-cases (
          cobs.murmur3_32 (take (length frame - 6) (drop 1 d)) seed
          == io.load_be_u32 (drop (length frame - 5) d))) [
            | inl hit ↦ rw (process_packet, good, hit) (refl, refl)
            | inr miss ↦ rw (process_packet, good, miss) (refl, refl)
          ]
  ]

  -- After the end of a frame the next one starts.
  finish-Inv : (f : Framer) (chunk : List ℕ) → Inv f → Inv (finish io cobs f chunk).1
  unfolding closed
  finish-Inv f chunk v =
      subst (λ (o : Option (List ℕ) × Framer). Inv o.1) (sym (finish_closed f chunk v))
        (elim (Bool-cases (leb (f.pos + length chunk) 256 && leb 6 (f.pos + length chunk))) [
          | inl fits ↦
              let (b, q) = process_packet-ready (ready f.bytes_accepted) (f.buf ++ chunk) in
              rw fits (record { pos_le = omega (arith, q); at_start = λ e. b; too_long = λ e. b })
          | inr bad ↦
              rw bad (record { pos_le = omega arith; at_start = λ e. refl; too_long = λ e. refl })
        ])

  -- The machine: one byte, and all bytes.
  unfoldable pub byte_in : Framer → ℕ → Option (List ℕ) × Framer
  byte_in f b = if b == 0 then finish io cobs f (0 ∷ []) else (none, gather f (b ∷ []))

  unfoldable pub run : Framer → List ℕ → List (List ℕ) × Framer
  run f [] = ([], f)
  run f (b ∷ bytes) =
      let (o, u) = byte_in f b in let (packets, v) = run u bytes in (deliver io cobs o packets, v)

  pub run-gather :
      (f : Framer) (xs ys : List ℕ)
      → Inv f
      → All (λ b. b ≢ 0) xs
      → (run f (xs ++ ys) ≡ run (gather f xs) ys) × Inv (gather f xs)
  unfolding run byte_in
  run-gather f [] ys v h =
      (ap (λ g. run g ys) (sym (gather-nil f v)), subst Inv (sym (gather-nil f v)) v)
  run-gather f (b ∷ xs) ys v (ne, h) =
      let (eq, w) = run-gather (gather f (b ∷ [])) xs ys (gather-Inv f b [] v) h in
      let e : (b == 0) ≡ false = ground arith in
      let all : gather (gather f (b ∷ [])) xs ≡ gather f (b ∷ xs) = gather-gather f (b ∷ []) xs in
      (rw e (eq ∙ ap (λ g. run g ys) all), subst Inv all w)

  -- A whole frame, with its end.
  pub run_frame :
      (f : Framer) (xs ys : List ℕ)
      → Inv f
      → All (λ b. b ≢ 0) xs
      → let (o, u) = finish io cobs f (xs ++ (0 ∷ [])) in
        run f (xs ++ (0 ∷ ys)) ≡ (deliver io cobs o (run u ys).0, (run u ys).1)
  unfolding run byte_in
  run_frame f xs ys v h =
      let (eq, w) = run-gather f xs (0 ∷ ys) v h in
      eq
      ∙ ap (λ (p : Option (List ℕ) × Framer). (deliver io cobs p.0 (run p.1 ys).0, (run p.1 ys).1))
          (finish-gather f xs v w)

  -- Where the first end of a frame is.
  DelimAt : ℕ → List ℕ → Type 0
  DelimAt n xs =
      ((n ≡ length xs) × All (λ b. b ≢ 0) xs)
      ⊎ ((n < length xs)
          × All (λ b. b ≢ 0) (take n xs)
          × (take (suc n) xs ≡ take n xs ++ (0 ∷ []))
          × (xs ≡ take n xs ++ (0 ∷ drop (suc n) xs)))

  find_delim-DelimAt : (xs : List ℕ) → DelimAt (find_delim xs) xs
  unfolding find_delim DelimAt
  find_delim-DelimAt [] = inl (refl, tt)
  find_delim-DelimAt (b ∷ xs) = elim (Bool-cases (b == 0)) [
    | inl e ↦
        let n_eq : find_delim (b ∷ xs) ≡ 0 = ground arith in
        let b_eq : b ≡ 0 = (==_iff b 0).0 e in
        subst (λ n. DelimAt n (b ∷ xs)) (sym n_eq)
          (inr (omega arith, tt, ap (λ x. x ∷ []) b_eq, ap (λ x. x ∷ xs) b_eq))
    | inr ne ↦
        let n_eq : find_delim (b ∷ xs) ≡ suc (find_delim xs) = ground arith in
        subst (λ n. DelimAt n (b ∷ xs)) (sym n_eq)
          (elim (find_delim-DelimAt xs) [
            | inl (len, h) ↦ inl (omega (arith, len), (==_ne b 0 ne, h))
            | inr (lt, h, front, split) ↦ inr (
              omega (arith, lt),
              (==_ne b 0 ne, h),
              ap (λ ys. b ∷ ys) front,
              ap (λ ys. b ∷ ys) split,
            )
          ])
  ]

  loop_unfinished :
      (fuel : ℕ) (f : Framer) (xs : List ℕ)
      → 0 < length xs
      → find_delim xs ≡ length xs
      → process_loop io cobs (suc fuel) f xs
        ≡ process_loop io cobs fuel (gather f xs) (drop (find_delim xs) xs)
  unfolding process_loop
  loop_unfinished fuel f xs some_bytes len =
      let e1 : (length xs == 0) ≡ false = ground arith in
      let e2 : ltb (find_delim xs) (length xs) ≡ false = ground arith in
      rw (process_loop, e1, e2) refl

  loop_finished :
      (fuel : ℕ) (f : Framer) (xs : List ℕ) (packets : List (List ℕ)) (v : Framer)
      → find_delim xs < length xs
      → process_loop io cobs fuel
          (finish io cobs f (take (find_delim xs + 1) xs)).1
          (drop (find_delim xs + 1) xs)
        ≡ some (packets, v)
      → process_loop io cobs (suc fuel) f xs
        ≡ some (deliver io cobs (finish io cobs f (take (find_delim xs + 1) xs)).0 packets, v)
  unfolding process_loop
  loop_finished fuel f xs packets v inside rest =
      let e1 : (length xs == 0) ≡ false = ground arith in
      let e2 : ltb (find_delim xs) (length xs) ≡ true = ground arith in
      rw (process_loop, e1, e2, rest) refl

  -- The loop, in which a frame may span several calls and a call several frames.
  process_loop-run :
      (fuel : ℕ) (f : Framer) (xs : List ℕ)
      → length xs < fuel
      → Inv f
      → (process_loop io cobs fuel f xs ≡ some (run f xs)) × Inv (run f xs).1
  unfolding process_loop run DelimAt
  process_loop-run zero f xs lt v = absurd (omega arith)
  process_loop-run (suc fuel) f [] lt v = (refl, v)
  process_loop-run (suc fuel) f (b ∷ bytes) lt v = elim (find_delim-DelimAt (b ∷ bytes)) [
    | inl (len, h) ↦
        let xs = b ∷ bytes in
        let (eq, w) = run-gather f xs [] v h in
        let whole : run f xs ≡ ([], gather f xs) = ap (run f) (sym (append-nil xs)) ∙ eq in
        let (ih, _) = process_loop-run fuel (gather f xs) [] (omega arith) w in
        (
          loop_unfinished fuel f xs (omega arith) len
              ∙ ap (process_loop io cobs fuel (gather f xs))
                  (drop_all (find_delim xs) xs (omega (arith, len)))
              ∙ ih
              ∙ ap some (sym whole),
          subst (λ (o : List (List ℕ) × Framer). Inv o.1) (sym whole) w,
        )
    | inr (inside, h, front, split) ↦
        let xs = b ∷ bytes in
        let n = find_delim xs in
        let suc_eq : n + 1 ≡ suc n = omega arith in
        let first = take n xs ++ (0 ∷ []) in
        let front_eq : take (n + 1) xs ≡ first = ap (λ k. take k xs) suc_eq ∙ front in
        let rest = drop (n + 1) xs in
        let rest_eq : rest ≡ drop (suc n) xs = ap (λ k. drop k xs) suc_eq in
        let u = (finish io cobs f (take (n + 1) xs)).1 in
        let (ih, w) =
          process_loop-run fuel u rest (omega (arith, length-drop (n + 1) xs))
            (finish-Inv f (take (n + 1) xs) v) in
        let whole : run f xs ≡ (
          deliver io cobs (finish io cobs f (take (n + 1) xs)).0 (run u rest).0,
          (run u rest).1,
        ) =
          ap (run f) (split ∙ ap (λ ys. take n xs ++ (0 ∷ ys)) (sym rest_eq))
          ∙ run_frame f (take n xs) rest v h
          ∙ ap
              (λ c. (
                deliver io cobs (finish io cobs f c).0 (run (finish io cobs f c).1 rest).0,
                (run (finish io cobs f c).1 rest).1,
              ))
              (sym front_eq) in
        (
          loop_finished fuel f xs (run u rest).0 (run u rest).1 inside ih ∙ ap some (sym whole),
          subst (λ (o : List (List ℕ) × Framer). Inv o.1) (sym whole) w,
        )
  ]

  -- `processIncoming` is the machine that takes the bytes one by one: where the calls cut the stream
  -- does not matter, nor how many frames a call has. It ends and does not abort.
  pub process_incoming-run :
      (r : PacketReceiver) (xs : List ℕ)
      → Inv r.framer
      → (process_incoming io cobs r xs
          ≡ some (
            (run r.framer xs).0,
            record {
              framer = (run r.framer xs).1;
              bytes_received = (r.bytes_received + length xs) % 2 ^ 32;
            },
          ))
        × Inv (run r.framer xs).1
  unfolding process_incoming
  process_incoming-run r xs v =
      let (eq, w) = process_loop-run (length xs + 1) r.framer xs (omega arith) v in
      (rw (process_incoming, eq) refl, w)

-- ===== src/Packets/Delivery.antt =====
-- What was sent is delivered, however the stream is cut.
use roo_transport.Prelude.{
  ℕ, suc, ◌+◌, ◌^◌, ◌%◌, ◌-◌, ◌≤◌, ◌<◌, ◌≡◌, ◌≢◌, refl, sym, ap, ◌∙◌, true, ◌==◌, ==_iff, leb,
  le→leb, Option, none, some, List, [], ◌∷◌, ◌++◌, All, length, take, drop, length-append,
  take-append_le, take_all, drop-append_ge, append_assoc, ◌>>=◌, arith,
}
use roo_transport.Io.{MemoryIo}
use roo_transport.Packets.{
  FrameIo, Framer, PacketReceiver, new_receiver, seed, send, process_packet, finish, deliver,
  process_incoming,
}
use roo_transport.Packets.Chunks.{Inv, byte_in, run, run_frame, process_incoming-run}

abbrev pub joined : List (List ℕ) → List ℕ
joined [] = []
joined (xs ∷ rest) = xs ++ joined rest

module _ (io : MemoryIo) (cobs : FrameIo) where
  -- The packets, sent one after another: what the stream has then.
  unfoldable pub send_all : List (List ℕ) → Option (List ℕ)
  send_all [] = some []
  send_all (p ∷ ps) = do frame ← send io cobs p; rest ← send_all ps; some (frame ++ rest)

  -- The stream, in pieces.
  unfoldable pub receive_all :
      PacketReceiver → List (List ℕ) → Option (List (List ℕ) × PacketReceiver)
  receive_all r [] = some ([], r)
  receive_all r (chunk ∷ chunks) = do
    (packets, u) ← process_incoming io cobs r chunk
    (rest, v) ← receive_all u chunks
    some (packets ++ rest, v)

  deliver-append :
      (o : Option (List ℕ)) (xs ys : List (List ℕ))
      → deliver io cobs o (xs ++ ys) ≡ deliver io cobs o xs ++ ys
  deliver-append none xs ys = refl
  deliver-append (some p) xs ys = refl

  run-append :
      (f : Framer) (xs ys : List ℕ)
      → run io cobs f (xs ++ ys) ≡ (
        (run io cobs f xs).0 ++ (run io cobs (run io cobs f xs).1 ys).0,
        (run io cobs (run io cobs f xs).1 ys).1,
      )
  unfolding run
  run-append f [] ys = refl
  run-append f (b ∷ xs) ys =
      let (o, u) = byte_in io cobs f b in
      let v = (run io cobs u xs).1 in
      ap (λ (q : List (List ℕ) × Framer). (deliver io cobs o q.0, q.1)) (run-append u xs ys)
      ∙ ap (λ d. (d, (run io cobs v ys).1))
          (deliver-append o (run io cobs u xs).0 (run io cobs v ys).0)

  abbrev idle : ℕ → Framer
  idle accepted = record { buf = []; pos = 0; bytes_accepted = accepted }

  idle-Inv : (a : ℕ) → Inv (idle a)
  idle-Inv a = record { pos_le = omega arith; at_start = λ e. refl; too_long = λ e. refl }

  -- The frame of a packet.
  record Frame (p bytes : List ℕ) : Type 0 where
    code : List ℕ
    shape : bytes ≡ code ++ (0 ∷ [])
    size : length code ≡ length p + 5
    no_end : All (λ b. b ≢ 0) code
    decoded :
        cobs.cobs_decode_tinyframe (code ++ (0 ∷ []))
        ≡ some (
            cobs.sentinel ∷ (p ++ io.store_be_u32 (cobs.murmur3_32 p seed)) ++ (cobs.sentinel ∷ []))

  send-Frame :
      (p : List ℕ)
      → length p ≤ 250
      → (bytes : List ℕ) × (send io cobs p ≡ some bytes) × Frame p bytes
  unfolding send
  send-Frame p h =
      let hash = io.store_be_u32 (cobs.murmur3_32 p seed) in
      let len : length (p ++ hash) ≡ length p + 4 =
        omega (arith, length-append p hash, io.length_u32 (cobs.murmur3_32 p seed)) in
      let (code, run_ok, size, no_end, decoded) = cobs.encodes (p ++ hash) (omega arith) in
      (
        code ++ (0 ∷ []),
        rw (send, le→leb (length p) 250 h) run_ok,
        record {
          code = code;
          shape = refl;
          size = omega arith;
          no_end = no_end;
          decoded = decoded;
        },
      )

  packet_good :
      (f : Framer) (p bytes : List ℕ)
      → Frame p bytes
      → process_packet io cobs f bytes
        ≡ (some p, record f { bytes_accepted = (f.bytes_accepted + length bytes) % 2 ^ 32 })
  unfolding process_packet
  packet_good f p bytes fr =
      let hash = io.store_be_u32 (cobs.murmur3_32 p seed) in
      let len : length bytes ≡ length p + 6 =
        omega (arith, ap length fr.shape, length-append fr.code (0 ∷ []), fr.size) in
      let n_eq : length bytes - 6 ≡ length p = omega arith in
      let m_eq : length bytes - 5 ≡ suc (length p) = omega arith in
      let dec = ap cobs.cobs_decode_tinyframe fr.shape ∙ fr.decoded in
      let z : length p - length p ≡ 0 = omega arith in
      let pay : take (length p) (p ++ hash ++ (cobs.sentinel ∷ [])) ≡ p =
        ap (take (length p)) (append_assoc p hash (cobs.sentinel ∷ []))
        ∙ take-append_le (length p) p (hash ++ (cobs.sentinel ∷ [])) (omega arith)
        ∙ take_all (length p) p (omega arith) in
      let tail : drop (length p) (p ++ hash ++ (cobs.sentinel ∷ []))
          ≡ hash ++ (cobs.sentinel ∷ []) =
        ap (drop (length p)) (append_assoc p hash (cobs.sentinel ∷ []))
        ∙ drop-append_ge (length p) p (hash ++ (cobs.sentinel ∷ [])) (omega arith)
        ∙ ap (λ k. drop k (hash ++ (cobs.sentinel ∷ []))) z in
      let loaded : io.load_be_u32 (hash ++ (cobs.sentinel ∷ [])) ≡ cobs.murmur3_32 p seed =
        io.load_u32 (cobs.murmur3_32 p seed) (cobs.sentinel ∷ []) (cobs.hash_small p seed) in
      let hit : (cobs.murmur3_32 p seed == cobs.murmur3_32 p seed) ≡ true = (==_iff _ _).1 refl in
      rw (process_packet, dec, n_eq, m_eq, pay, tail, loaded, hit) refl

  finish_good :
      (a : ℕ) (p bytes : List ℕ)
      → length p ≤ 250
      → Frame p bytes
      → finish io cobs (idle a) bytes ≡ (some p, idle ((a + length bytes) % 2 ^ 32))
  unfolding finish
  finish_good a p bytes h fr =
      let len : length bytes ≡ length p + 6 =
        omega (arith, ap length fr.shape, length-append fr.code (0 ∷ []), fr.size) in
      let e1 : leb (0 + length bytes) 256 ≡ true = le→leb _ 256 (omega arith) in
      let e2 : leb 6 (0 + length bytes) ≡ true = le→leb 6 _ (omega arith) in
      rw (finish, e1, e2) (packet_good (idle a) p bytes fr)

  run_good :
      (a : ℕ) (p bytes rest : List ℕ)
      → length p ≤ 250
      → Frame p bytes
      → run io cobs (idle a) (bytes ++ rest) ≡ (
        p ∷ (run io cobs (idle ((a + length bytes) % 2 ^ 32)) rest).0,
        (run io cobs (idle ((a + length bytes) % 2 ^ 32)) rest).1,
      )
  run_good a p bytes rest h fr =
      ap (λ bs. run io cobs (idle a) (bs ++ rest)) fr.shape
      ∙ ap (run io cobs (idle a)) (append_assoc fr.code (0 ∷ []) rest)
      ∙ run_frame io cobs (idle a) fr.code rest (idle-Inv a) fr.no_end
      ∙ ap
          (λ (q : Option (List ℕ) × Framer).
            (deliver io cobs q.0 (run io cobs q.1 rest).0, (run io cobs q.1 rest).1))
          (ap (finish io cobs (idle a)) (sym fr.shape) ∙ finish_good a p bytes h fr)

  send_all-run :
      (ps : List (List ℕ)) (a : ℕ)
      → a < 2 ^ 32
      → All (λ p. length p ≤ 250) ps
      → (bytes : List ℕ) × (send_all ps ≡ some bytes)
        × (run io cobs (idle a) bytes ≡ (ps, idle ((a + length bytes) % 2 ^ 32)))
  unfolding send_all run
  send_all-run [] a lt h =
      let a_eq : a ≡ (a + 0) % 2 ^ 32 = omega arith in ([], refl, ap (λ k. ([], idle k)) a_eq)
  send_all-run (p ∷ ps) a lt (small, h) =
      let (frame, sent, fr) = send-Frame p small in
      let (rest, all_sent, ran) = send_all-run ps ((a + length frame) % 2 ^ 32) (omega arith) h in
      let a_eq : ((a + length frame) % 2 ^ 32 + length rest) % 2 ^ 32
          ≡ (a + length (frame ++ rest)) % 2 ^ 32 =
        omega (arith, length-append frame rest) in
      (
        frame ++ rest,
        rw (send_all, sent, all_sent) refl,
        run_good a p frame rest small fr
            ∙ ap (λ (q : List (List ℕ) × Framer). (p ∷ q.0, q.1)) ran
            ∙ ap (λ k. (p ∷ ps, idle k)) a_eq,
      )

  receive_all-run :
      (chunks : List (List ℕ)) (r : PacketReceiver)
      → Inv r.framer
      → r.bytes_received < 2 ^ 32
      → receive_all r chunks
        ≡ some (
          (run io cobs r.framer (joined chunks)).0,
          record {
            framer = (run io cobs r.framer (joined chunks)).1;
            bytes_received = (r.bytes_received + length (joined chunks)) % 2 ^ 32;
          },
        )
  unfolding receive_all run
  receive_all-run [] r v lt =
      let n_eq : r.bytes_received ≡ (r.bytes_received + 0) % 2 ^ 32 = omega arith in
      ap (λ n. some ([], record { framer = r.framer; bytes_received = n })) n_eq
  receive_all-run (chunk ∷ chunks) r v lt =
      let (first, w) = process_incoming-run io cobs r chunk v in
      let u : PacketReceiver = record {
        framer = (run io cobs r.framer chunk).1;
        bytes_received = (r.bytes_received + length chunk) % 2 ^ 32;
      } in
      let ih = receive_all-run chunks u w (omega arith) in
      let n_eq : ((r.bytes_received + length chunk) % 2 ^ 32 + length (joined chunks)) % 2 ^ 32
          ≡ (r.bytes_received + length (chunk ++ joined chunks)) % 2 ^ 32 =
        omega (arith, length-append chunk (joined chunks)) in
      let all = run-append r.framer chunk (joined chunks) in
      rounds first ih
      ∙ ap
          (λ n. some (
            (run io cobs r.framer chunk).0 ++ (run io cobs u.framer (joined chunks)).0,
            record { framer = (run io cobs u.framer (joined chunks)).1; bytes_received = n },
          ))
          n_eq
      ∙ ap
          (λ (q : List (List ℕ) × Framer). some (
            q.0,
            record {
              framer = q.1;
              bytes_received = (r.bytes_received + length (chunk ++ joined chunks)) % 2 ^ 32;
            },
          ))
          (sym all)
    where
      rounds :
          {packets rest : List (List ℕ)} {u v : PacketReceiver}
          → process_incoming io cobs r chunk ≡ some (packets, u)
          → receive_all u chunks ≡ some (rest, v)
          → receive_all r (chunk ∷ chunks) ≡ some (packets ++ rest, v)
      rounds e1 e2 = rw (receive_all, e1, e2) refl

  -- Packets of at most 250 bytes are sent without an abort, and a receiver that is given the stream
  -- delivers them all, in order and unchanged, and nothing else, however the stream is cut into
  -- pieces; then it waits for the start of a frame, and has counted every byte as received
  -- and accepted, in 32 bits.
  pub sent-received :
      (ps : List (List ℕ))
      → All (λ p. length p ≤ 250) ps
      → (bytes : List ℕ) × (send_all ps ≡ some bytes)
        × ((chunks : List (List ℕ))
            → joined chunks ≡ bytes
            → (r : PacketReceiver) × (receive_all new_receiver chunks ≡ some (ps, r))
              × (r.framer.pos ≡ 0)
              × (r.bytes_received ≡ length bytes % 2 ^ 32)
              × (r.framer.bytes_accepted ≡ length bytes % 2 ^ 32))
  unfolding new_receiver
  sent-received ps h =
      let (bytes, sent, ran) = send_all-run ps 0 (omega arith) h in
      (
        bytes,
        sent,
        λ chunks cut. (
          record {
            framer = idle ((0 + length bytes) % 2 ^ 32);
            bytes_received = (0 + length bytes) % 2 ^ 32;
          },
          receive_all-run chunks new_receiver (idle-Inv 0) (omega arith)
              ∙ ap
                  (λ bs. some (
                    (run io cobs (idle 0) bs).0,
                    record {
                      framer = (run io cobs (idle 0) bs).1;
                      bytes_received = (0 + length bs) % 2 ^ 32;
                    },
                  ))
                  cut
              ∙ ap
                  (λ (q : List (List ℕ) × Framer).
                    some
                      (q.0, record { framer = q.1; bytes_received = (0 + length bytes) % 2 ^ 32 }))
                  ran,
          refl,
          omega arith,
          omega arith,
        ),
      )

-- ===== src/LinkMessaging/Framing.antt =====
-- Messages arrive whole and in order, whatever the point at which the stream ends.
use roo_transport.Prelude.{
  ℕ, zero, suc, ◌+◌, ◌-◌, ◌%◌, ◌^◌, ◌≤◌, ◌<◌, ◌≡◌, ◌⊎◌, inl, inr, refl, sym, ap, ◌∙◌, true, false,
  ltb, lt→ltb, Option, some, List, [], ◌∷◌, ◌++◌, map, length, take, drop, length-take,
  length-append, take_all, take-append_le, take-append_ge, drop-append_ge, append-nil, append_assoc,
  All, arith,
}
use native.Mathlib.Decide.{dec_lt}
use roo_transport.Io.{MemoryIo}
use roo_transport.LinkMessaging.{Event, send_internal, receive_loop}

-- A header and a payload, which arrive as one message.
abbrev pub Message : Type 0
Message = List ℕ × List ℕ

abbrev pub whole : Message → List ℕ
whole m = m.0 ++ m.1

abbrev pub Fits : ℕ → Message → Type 0
Fits max m = length (whole m) ≤ max

abbrev pub event : ℕ → Message → Event
event connection_id m = Event.received connection_id (whole m)

not_less : (a b : ℕ) → b ≤ a → ltb a b ≡ false
not_less a b h = ground arith

module _ (io : MemoryIo) where
  -- All the bytes that the messages are sent as.
  abbrev pub frames : List Message → List ℕ
  frames [] = []
  frames (m ∷ ms) = (send_internal io m.0 m.1 true).1 ++ frames ms

  module _ (max connection_id : ℕ) (small : max < 2 ^ 32) where
    -- The size is in front of what follows it.
    abbrev sized : ℕ → List ℕ → List ℕ
    sized size more = io.store_be_u32 size ++ more

    first_four : (size : ℕ) (more : List ℕ) → take 4 (sized size more) ≡ io.store_be_u32 size
    first_four size more =
        let four = io.length_u32 size in
        take-append_le 4 (io.store_be_u32 size) more (omega (arith, four))
        ∙ take_all 4 (io.store_be_u32 size) (omega (arith, four))

    behind_four : (size : ℕ) (more : List ℕ) → drop 4 (sized size more) ≡ more
    behind_four size more =
        let four = io.length_u32 size in
        let z : 4 - length (io.store_be_u32 size) ≡ 0 = omega (arith, four) in
        drop-append_ge 4 (io.store_be_u32 size) more (omega (arith, four)) ∙ ap (λ k. drop k more) z

    load_size : (size : ℕ) → size ≤ max → io.load_be_u32 (io.store_be_u32 size) ≡ size
    load_size size le =
        ap io.load_be_u32 (sym (append-nil (io.store_be_u32 size)))
        ∙ io.load_u32 size [] (omega (arith, small))

    load_first :
        (size : ℕ) (more : List ℕ) → size ≤ max → io.load_be_u32 (take 4 (sized size more)) ≡ size
    load_first size more le = ap io.load_be_u32 (first_four size more) ∙ load_size size le

    -- One round on a message that has come whole.
    loop_whole :
        (fuel : ℕ) (size : ℕ) (message rest : List ℕ) (o : List Event)
        → size ≡ length message
        → size ≤ max
        → receive_loop io fuel max connection_id rest ≡ some o
        → receive_loop io (suc fuel) max connection_id (sized size (message ++ rest))
          ≡ some (Event.received connection_id message ∷ o)
    unfolding receive_loop
    loop_whole fuel size message rest o eq le run =
        let f1 : ltb (length (io.store_be_u32 size)) 4 ≡ false =
          not_less _ 4 (omega (arith, io.length_u32 size)) in
        let f2 : ltb max size ≡ false = not_less max size le in
        let tk : take size (message ++ rest) ≡ message =
          take-append_le size message rest (omega arith) ∙ take_all size message (omega arith) in
        let z : size - length message ≡ 0 = omega arith in
        let dr : drop size (message ++ rest) ≡ rest =
          drop-append_ge size message rest (omega arith) ∙ ap (λ k. drop k rest) z in
        let f3 : ltb (length message) size ≡ false = not_less _ size (omega arith) in
        let ld = load_first size (message ++ rest) le in
        let bh = behind_four size (message ++ rest) in
        rw
          (
            receive_loop,
            first_four size (message ++ rest),
            f1,
            ld,
            f2,
            ld,
            bh,
            tk,
            f3,
            ld,
            bh,
            tk,
            dr,
            run,
          )
          refl

    -- One round on less than the size, and on a part of a message.
    loop_short :
        (fuel : ℕ) (bytes : List ℕ)
        → length bytes < 4
        → receive_loop io (suc fuel) max connection_id bytes ≡ some (Event.reset connection_id ∷ [])
    unfolding receive_loop
    loop_short fuel bytes h =
        let f1 : ltb (length (take 4 bytes)) 4 ≡ true =
          lt→ltb _ 4 (omega (arith, length-take 4 bytes)) in
        rw (receive_loop, f1) refl

    loop_cut :
        (fuel size : ℕ) (part : List ℕ)
        → length part < size
        → size ≤ max
        → receive_loop io (suc fuel) max connection_id (sized size part)
          ≡ some (Event.reset connection_id ∷ [])
    unfolding receive_loop
    loop_cut fuel size part h le =
        let f1 : ltb (length (io.store_be_u32 size)) 4 ≡ false =
          not_less _ 4 (omega (arith, io.length_u32 size)) in
        let f2 : ltb max size ≡ false = not_less max size le in
        let f3 : ltb (length (take size part)) size ≡ true =
          lt→ltb _ size (omega (arith, length-take size part)) in
        let ld = load_first size part le in
        rw (receive_loop, first_four size part, f1, ld, f2, ld, behind_four size part, f3) refl

    -- What `n` bytes of the messages come to.
    abbrev pub Received : ℕ → List Message → Option (List Event) → Type 0
    Received n ms o =
        (k : ℕ) × (k ≤ length ms)
        × (o ≡ some (map (event connection_id) (take k ms) ++ (Event.reset connection_id ∷ [])))
        × (length (frames (take k ms)) ≤ n)
        × ((k ≡ length ms) ⊎ (n < length (frames (take (suc k) ms))))

    frame_of :
        (m : Message) (rest : List ℕ)
        → Fits max m
        → (send_internal io m.0 m.1 true).1 ++ rest ≡ sized (length (whole m)) (whole m ++ rest)
    unfolding send_internal
    frame_of m rest h =
        let size_eq : (length m.0 + length m.1) % 2 ^ 32 ≡ length (whole m) =
          omega (arith, length-append m.0 m.1, small) in
        rw size_eq (
          ap (λ xs. xs ++ rest) (append_assoc (io.store_be_u32 (length (whole m))) m.0 m.1)
          ∙ append_assoc (io.store_be_u32 (length (whole m))) (whole m) rest)

    -- The stream ends after `n` bytes of what was sent, wherever that is: every message of which all
    -- bytes have come is received, whole, once and in order, nothing is received in part, and then the
    -- connection is reset, once: the bytes of the messages received have come, and those of one
    -- message more have not, or there is none. Each message, its header
    -- and payload, has at most the size that the receiver allows, which Fits 32 bits.
    pub receive_loop-Received :
        (ms : List Message) (n fuel : ℕ)
        → All (Fits max) ms
        → n < fuel
        → Received n ms (receive_loop io fuel max connection_id (take n (frames ms)))
    receive_loop-Received ms n zero h lt = absurd (omega arith)
    receive_loop-Received [] n (suc fuel) h lt =
        let nothing : List ℕ = [] in
        (
          0,
          omega arith,
          loop_short fuel (take n nothing) (omega (arith, length-take n nothing)),
          omega arith,
          inl refl,
        )
    receive_loop-Received (m ∷ ms) n (suc fuel) (fit, h) lt = elim (dec_lt n 4) [
      | yes short ↦ (
        0,
        omega arith,
        loop_short fuel _ (omega (arith, length-take n (frames (m ∷ ms)))),
        omega arith,
        inr (omega (arith, long [])),
      )
      | no enough ↦ elim (dec_lt (n - 4) (length (whole m))) [
        | yes cut ↦ (
          0,
          omega arith,
          ap (receive_loop io (suc fuel) max connection_id) (upto enough)
              ∙ loop_cut fuel (length (whole m)) (take (n - 4) (whole m ++ frames ms))
                  (omega (arith, length-take (n - 4) (whole m ++ frames ms))) fit,
          omega arith,
          inr (omega (arith, long [])),
        )
        | no more ↦
            let n' = n - 4 - length (whole m) in
            let (k, le, run, come, rest) = receive_loop-Received ms n' fuel h (omega arith) in
            let split : take (n - 4) (whole m ++ frames ms) ≡ whole m ++ take n' (frames ms) =
              take-append_ge (n - 4) (whole m) (frames ms) (omega arith) in
            (
              suc k,
              omega (arith, le),
              ap (receive_loop io (suc fuel) max connection_id)
                    (upto enough ∙ ap (sized (length (whole m))) split)
                  ∙ loop_whole fuel (length (whole m)) (whole m) (take n' (frames ms)) _ refl fit
                      run,
              omega (arith, come, long (take k ms)),
              next_one k rest,
            )
      ]
    ]
      where
        long :
            (rest : List Message)
            → length (frames (m ∷ rest)) ≡ 4 + length (whole m) + length (frames rest)
        long rest =
            ap length (frame_of m (frames rest) fit)
            ∙ omega (
              arith,
              length-append (io.store_be_u32 (length (whole m))) (whole m ++ frames rest),
              length-append (whole m) (frames rest),
              io.length_u32 (length (whole m)),
            )

        next_one :
            (k : ℕ)
            → (k ≡ length ms) ⊎ (n - 4 - length (whole m) < length (frames (take (suc k) ms)))
            → (suc k ≡ length (m ∷ ms)) ⊎ (n < length (frames (take (suc (suc k)) (m ∷ ms))))
        next_one k (inl e) = inl (ap suc e)
        next_one k (inr lt) = inr (omega (arith, lt, long (take (suc k) ms)))

        upto :
            (n < 4 → ⊥)
            → take n (frames (m ∷ ms))
              ≡ sized (length (whole m)) (take (n - 4) (whole m ++ frames ms))
        upto enough =
            let four = io.length_u32 (length (whole m)) in
            let k_eq : n - length (io.store_be_u32 (length (whole m))) ≡ n - 4 =
              omega (arith, four) in
            ap (take n) (frame_of m (frames ms) fit)
            ∙ take-append_ge n (io.store_be_u32 (length (whole m))) (whole m ++ frames ms)
                (omega (arith, four))
            ∙ ap (λ k. sized (length (whole m)) (take k (whole m ++ frames ms))) k_eq

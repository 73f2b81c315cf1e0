-- ===== src/Tests/PacketTests.antt =====
-- Packets over a stream and messages over a link, at concrete inputs.
use roo_transport.Prelude.{
  ℕ, suc, ◌+◌, ◌-◌, ◌%◌, ◌^◌, ◌≡◌, ◌≢◌, refl, ap, ◌∙◌, some, List, [], ◌∷◌, ◌++◌, All, length, take,
  arith,
}
use roo_transport.Packets.{FrameIo, PacketReceiver, new_receiver, process_incoming}
use roo_transport.Packets.Chunks.{Inv, run, process_incoming-run}
use roo_transport.Packets.Delivery.{joined, send_all, receive_all, sent-received}
use roo_transport.LinkMessaging.{receive_loop}
use roo_transport.LinkMessaging.Framing.{Received, frames, receive_loop-Received}
use roo_transport.Tests.ConcreteIo.{big_endian}

-- A framing that keeps what the code relies on: bytes go up by one, so that 0 is free for the end.
raise : List ℕ → List ℕ
raise [] = []
raise (x ∷ xs) = suc x ∷ raise xs

encode : List ℕ → List ℕ
encode [] = []
encode (x ∷ []) = 0 ∷ []
encode (x ∷ y ∷ ys) = suc x ∷ encode (y ∷ ys)

decode : List ℕ → List ℕ
decode [] = []
decode (x ∷ []) = 90 ∷ []
decode (x ∷ y ∷ ys) = (x - 1) ∷ decode (y ∷ ys)

encode_lem : (xs : List ℕ) → encode (xs ++ (90 ∷ [])) ≡ raise xs ++ (0 ∷ [])
unfolding encode raise
encode_lem [] = refl
encode_lem (x ∷ []) = refl
encode_lem (x ∷ y ∷ ys) = ap (λ zs. suc x ∷ zs) (encode_lem (y ∷ ys))

decode_lem : (xs : List ℕ) → decode (raise xs ++ (0 ∷ [])) ≡ xs ++ (90 ∷ [])
unfolding decode raise
decode_lem [] = refl
decode_lem (x ∷ []) = let e : suc x - 1 ≡ x = omega arith in ap (λ k. k ∷ 90 ∷ []) e
decode_lem (x ∷ y ∷ ys) =
    let e : suc x - 1 ≡ x = omega arith in
    ap (λ k. k ∷ decode (suc y ∷ (raise ys ++ (0 ∷ [])))) e
    ∙ ap (λ zs. x ∷ zs) (decode_lem (y ∷ ys))

length-raise : (xs : List ℕ) → length (raise xs) ≡ length xs
unfolding raise
length-raise [] = refl
length-raise (x ∷ xs) = ap suc (length-raise xs)

raised : (xs : List ℕ) → All (λ b. b ≢ 0) (raise xs)
unfolding raise
raised [] = tt
raised (x ∷ xs) = (λ e. absurd (omega arith), raised xs)

framing : FrameIo
framing = record {
  sentinel = 90;
  murmur3_32 = λ bytes seed. length bytes % 2 ^ 32;
  cobs_encode_tinyframe = λ xs. some (encode xs);
  cobs_decode_tinyframe = λ xs. some (decode xs);
  hash_small = λ bytes seed. omega arith;
  encodes = λ bytes h. (
    raise (90 ∷ bytes),
    ap some (encode_lem (90 ∷ bytes)),
    length-raise (90 ∷ bytes) ∙ omega arith,
    raised (90 ∷ bytes),
    ap some (decode_lem (90 ∷ bytes)),
  );
}

sent-received_example :
    (bytes : List ℕ) × (send_all big_endian framing ((1 ∷ 2 ∷ []) ∷ (3 ∷ []) ∷ []) ≡ some bytes)
    × ((chunks : List (List ℕ))
        → joined chunks ≡ bytes
        → (r : PacketReceiver) × (receive_all big_endian framing new_receiver chunks
            ≡ some ((1 ∷ 2 ∷ []) ∷ (3 ∷ []) ∷ [], r))
          × (r.framer.pos ≡ 0)
          × (r.bytes_received ≡ length bytes % 2 ^ 32)
          × (r.framer.bytes_accepted ≡ length bytes % 2 ^ 32))
sent-received_example =
    sent-received big_endian framing ((1 ∷ 2 ∷ []) ∷ (3 ∷ []) ∷ []) (omega arith)

-- Two bytes of a frame have come.
abbrev halfway : PacketReceiver
halfway = record {
  framer = record { buf = 91 ∷ 2 ∷ []; pos = 2; bytes_accepted = 0 };
  bytes_received = 2;
}

halfway-Inv : Inv halfway.framer
halfway-Inv = record {
  pos_le = omega arith;
  at_start = λ e. absurd (omega arith);
  too_long = λ e. absurd (omega arith);
}

process_incoming-run_example :
    (process_incoming big_endian framing halfway (3 ∷ 0 ∷ 4 ∷ [])
      ≡ some (
        (run big_endian framing halfway.framer (3 ∷ 0 ∷ 4 ∷ [])).0,
        record {
          framer = (run big_endian framing halfway.framer (3 ∷ 0 ∷ 4 ∷ [])).1;
          bytes_received = (2 + 3) % 2 ^ 32;
        },
      ))
    × Inv (run big_endian framing halfway.framer (3 ∷ 0 ∷ 4 ∷ [])).1
process_incoming-run_example =
    process_incoming-run big_endian framing halfway (3 ∷ 0 ∷ 4 ∷ []) halfway-Inv

receive_loop-Received_example :
    Received big_endian 100 7 (omega arith) 12 ((1 ∷ [], 2 ∷ 3 ∷ []) ∷ ([], 4 ∷ []) ∷ []) (
      receive_loop big_endian 13 100 7
        (take 12 (frames big_endian ((1 ∷ [], 2 ∷ 3 ∷ []) ∷ ([], 4 ∷ []) ∷ []))))
receive_loop-Received_example =
    receive_loop-Received big_endian 100 7 (omega arith) ((1 ∷ [], 2 ∷ 3 ∷ []) ∷ ([], 4 ∷ []) ∷ [])
      12 13 (omega arith) (omega arith)

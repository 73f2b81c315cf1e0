-- ===== src/Packets.antt =====
-- roo_transport/packets/over_stream: packets over a stream of bytes, in frames that end with a zero.
pub mod Chunks
pub mod Delivery
use roo_transport.Prelude.{
  ℕ, zero, suc, ◌+◌, ◌%◌, ◌-◌, ◌^◌, ◌≤◌, ◌<◌, ◌≡◌, ◌≢◌, Bool, true, false, ◌==◌, ltb, leb, ◌&&◌,
  if◌then◌else◌, check, Option, none, some, List, [], ◌∷◌, ◌++◌, All, length, take, drop, ◌>>=◌,
  ◌>>◌,
}
use roo_transport.Io.{MemoryIo}

-- What the code uses of roo_collections' hash.h and of nanocobs, which roo_io carries: the frame is
-- given and taken with its sentinel at both ends, and what is encoded has a zero at its end and
-- nowhere else.
pub record FrameIo : Type 0 where
  pub sentinel : ℕ
  pub murmur3_32 : List ℕ → ℕ → ℕ
  pub cobs_encode_tinyframe : List ℕ → Option (List ℕ)
  pub cobs_decode_tinyframe : List ℕ → Option (List ℕ)
  pub hash_small : (bytes : List ℕ) (seed : ℕ) → murmur3_32 bytes seed < 2 ^ 32
  pub encodes :
      (bytes : List ℕ)
      → length bytes ≤ 254
      → (code : List ℕ) × (cobs_encode_tinyframe (sentinel ∷ bytes ++ (sentinel ∷ []))
          ≡ some (code ++ (0 ∷ [])))
        × (length code ≡ length bytes + 1)
        × All (λ b. b ≢ 0) code
        × (cobs_decode_tinyframe (code ++ (0 ∷ [])) ≡ some (sentinel ∷ bytes ++ (sentinel ∷ [])))

-- `kPacketOverStreamSeed` and `kMaxPacketSize`.
abbrev pub seed : ℕ
seed = 0xB45DF9DE

abbrev pub max_packet_size : ℕ
max_packet_size = 250

-- The fields that the loop of the receiver uses. `buf` is the part of `buf_` that was filled: all of
-- it up to `pos`, and nothing once the frame is too long, when `pos` is 256.
pub record Framer : Type 0 where
  pub buf : List ℕ
  pub pos : ℕ
  pub bytes_accepted : ℕ

pub record PacketReceiver : Type 0 where
  pub framer : Framer
  pub bytes_received : ℕ

unfoldable pub new_receiver : PacketReceiver
new_receiver = record {
  framer = record { buf = []; pos = 0; bytes_accepted = 0 };
  bytes_received = 0;
}

-- `std::find(data, data + len, 0) - data`
unfoldable pub find_delim : List ℕ → ℕ
find_delim [] = 0
find_delim (b ∷ data') = let n = find_delim data' in if b == 0 then 0 else suc n

-- The bytes of a frame without its end.
unfoldable pub gather : Framer → List ℕ → Framer
gather f chunk =
    if ltb (f.pos + length chunk) 256
    then record f { buf = f.buf ++ chunk; pos = f.pos + length chunk }
    else record f { buf = []; pos = 256 }

module _ (io : MemoryIo) (cobs : FrameIo) where
  -- `send(buf, len)`: what is written to the stream.
  unfoldable pub send : List ℕ → Option (List ℕ)
  send buf = do
    check (leb (length buf) max_packet_size)
    cobs.cobs_encode_tinyframe (
        cobs.sentinel ∷ (buf ++ io.store_be_u32 (cobs.murmur3_32 buf seed)) ++ (cobs.sentinel ∷ []))

  -- `processPacket(buf, size)`: the payload that is delivered, if any.
  unfoldable pub process_packet : Framer → List ℕ → Option (List ℕ) × Framer
  process_packet f buf = elim (cobs.cobs_decode_tinyframe buf) [
    | none ↦ (none, f)
    | some d ↦
        let payload = take (length buf - 6) (drop 1 d) in
        if cobs.murmur3_32 payload seed == io.load_be_u32 (drop (length buf - 5) d)
        then (some payload, record f { bytes_accepted = (f.bytes_accepted + length buf) % 2 ^ 32 })
        else (none, f)
  ]

  -- The end of a frame, `chunk`, has come, with its zero.
  unfoldable pub finish : Framer → List ℕ → Option (List ℕ) × Framer
  unfolding process_packet
  finish f chunk =
      let size = f.pos + length chunk in
      let ready = record f { buf = []; pos = 0 } in
      if leb size 256 && leb 6 size
      then (if f.pos == 0
          then process_packet ready chunk
          else process_packet ready (f.buf ++ chunk))
      else (none, ready)

  abbrev pub deliver : Option (List ℕ) → List (List ℕ) → List (List ℕ)
  deliver none packets = packets
  deliver (some p) packets = p ∷ packets

  -- The loop of `processIncoming`: the packets that are delivered. Each round takes a byte at least.
  unfoldable pub process_loop : ℕ → Framer → List ℕ → Option (List (List ℕ) × Framer)
  unfolding finish gather
  process_loop zero f data' = none
  process_loop (suc fuel) f data' = elim (length data' == 0) [
    | true ↦ some ([], f)
    | false ↦
        let increment = find_delim data' in
        elim (ltb increment (length data')) [
          | true ↦
              let (o, u) = finish f (take (increment + 1) data') in
              do
                (packets, v) ← process_loop fuel u (drop (increment + 1) data')
                some (deliver o packets, v)
          | false ↦ process_loop fuel (gather f data') (drop increment data')
        ]
  ]

  -- `processIncoming(len, receiver_fn)` on the bytes of `tmp_`, as `tryReceive` and each round of
  -- `receive` call it.
  unfoldable pub process_incoming :
      PacketReceiver → List ℕ → Option (List (List ℕ) × PacketReceiver)
  process_incoming r data' = do
    (packets, f) ← process_loop (length data' + 1) r.framer data'
    some (
      packets,
      record { framer = f; bytes_received = (r.bytes_received + length data') % 2 ^ 32 },
    )

-- ===== src/Tests/SerializationTests.antt =====
-- A pair with a pair in it.
use roo_transport.Prelude.{ℕ, ◌≡◌, ◌≤◌, ◌==◌, ◌⊎◌, length, refl, List, [], ◌∷◌, ◌++◌, arith}
use roo_transport.Rpc.{status_ok, invalid_argument}
use roo_transport.Rpc.Serialization.{
  Parsed, Codec, new_serialized, serialize_pair_into, deserialize_pair, serialize_tuple_more,
  deserialize_tuple_more,
}
use roo_transport.Rpc.Serialization.Members.{member, pair_round_trip}
use roo_transport.Rpc.Serialization.Basic.{string_codec, u16_codec, pair_codec, pair_encoded}
use roo_transport.Rpc.Serialization.Tuples.{
  last_codec, last_encoded, more_codec, more_encoded, tuple_round_trip,
}
use roo_transport.Rpc.Serialization.Bytes.{ByteIo, deserialize_bool, deserialize_bool_cases}
use roo_transport.Tests.ConcreteIo.{big_endian}

abbrev inner : Codec (ℕ × List ℕ)
inner = pair_codec big_endian (u16_codec big_endian) string_codec

abbrev inner_bytes : List ℕ
inner_bytes = 0 ∷ 2 ∷ 1 ∷ 4 ∷ 0 ∷ 1 ∷ 9 ∷ []

pair_round_trip_example :
    let d =
      serialize_pair_into big_endian string_codec inner
        (7 ∷ 8 ∷ [], (260, 9 ∷ []))
        new_serialized in
    (d.status ≡ status_ok)
    × (d.bytes ≡ member big_endian (7 ∷ 8 ∷ []) ++ member big_endian inner_bytes)
    × (deserialize_pair big_endian string_codec inner d.bytes
        ≡ Parsed.parsed (7 ∷ 8 ∷ [], (260, 9 ∷ [])))
unfolding string_codec pair_codec u16_codec pair_encoded
pair_round_trip_example =
    pair_round_trip big_endian string_codec inner (7 ∷ 8 ∷ []) (260, 9 ∷ []) (7 ∷ 8 ∷ [])
      inner_bytes refl refl (omega arith) (omega arith)

abbrev tuple_rest : Codec (ℕ × List ℕ)
tuple_rest = more_codec big_endian (u16_codec big_endian) (last_codec big_endian string_codec)

tuple_round_trip_example :
    let d =
      serialize_tuple_more big_endian string_codec tuple_rest
        (7 ∷ 8 ∷ [], (260, 9 ∷ []))
        new_serialized in
    (d.status ≡ status_ok)
    × (d.bytes ≡ member big_endian (7 ∷ 8 ∷ []) ++ (0 ∷ 2 ∷ 1 ∷ 4 ∷ 0 ∷ 1 ∷ 9 ∷ []))
    × (deserialize_tuple_more big_endian string_codec tuple_rest d.bytes
        ≡ Parsed.parsed (7 ∷ 8 ∷ [], (260, 9 ∷ [])))
unfolding string_codec u16_codec last_codec last_encoded more_codec more_encoded
tuple_round_trip_example =
    tuple_round_trip big_endian string_codec tuple_rest (7 ∷ 8 ∷ []) (260, 9 ∷ []) (7 ∷ 8 ∷ [])
      (0 ∷ 2 ∷ 1 ∷ 4 ∷ 0 ∷ 1 ∷ 9 ∷ []) refl (omega arith) refl

unfoldable first_byte : List ℕ → ℕ
first_byte [] = 0
first_byte (byte ∷ _) = byte

abbrev one_byte_io : ByteIo
unfolding first_byte
one_byte_io = record {
  store_u8 = λ v. v ∷ [];
  load_u8 = first_byte;
  length_u8 = λ v. refl;
  load_store = λ v h. refl;
}

abbrev byte_two : List ℕ
byte_two = 2 ∷ []

deserialize_bool_cases_example :
    ((length byte_two ≡ 1)
      × (first_byte byte_two ≤ 1)
      × (deserialize_bool one_byte_io byte_two ≡ Parsed.parsed (first_byte byte_two == 1)))
    ⊎ (¬ ((length byte_two ≡ 1) × (first_byte byte_two ≤ 1))
        × (deserialize_bool one_byte_io byte_two ≡ Parsed.failed invalid_argument))
unfolding first_byte one_byte_io
deserialize_bool_cases_example = deserialize_bool_cases one_byte_io byte_two

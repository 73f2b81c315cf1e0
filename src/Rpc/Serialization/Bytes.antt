-- ===== src/Rpc/Serialization/Bytes.antt =====
-- The types that are one byte: `bool` and `uint8_t`.
use roo_transport.Prelude.{
  ℕ, ◌^◌, ◌≤◌, ◌<◌, ◌≡◌, refl, sym, ap, ◌∙◌, Bool, true, false, ◌==◌, ==_iff, ltb, not,
  if◌then◌else◌, Bool-cases, ◌⊎◌, ltb→lt, ltb-false, ==_ne, inl, inr, none, some, List, length,
  arith,
}
use roo_transport.Rpc.{invalid_argument}
use roo_transport.Rpc.Serialization.{Parsed, Codec}
use roo_transport.Rpc.Serialization.Basic.{into_serializer, into_end, ranged-some}

-- What the code uses of roo_io for one byte.
pub record ByteIo : Type 0 where
  pub store_u8 : ℕ → List ℕ
  pub load_u8 : List ℕ → ℕ
  pub length_u8 : (v : ℕ) → length (store_u8 v) ≡ 1
  pub load_store : (v : ℕ) → v < 2 ^ 8 → load_u8 (store_u8 v) ≡ v

module _ (io : ByteIo) where
  unfoldable pub serialize_u8 : ℕ → List ℕ
  serialize_u8 v = io.store_u8 v

  unfoldable pub deserialize_u8 : List ℕ → Parsed ℕ
  deserialize_u8 bytes =
      if not (length bytes == 1)
      then Parsed.failed invalid_argument
      else Parsed.parsed (io.load_u8 bytes)

  -- A `bool` is converted to 1 or 0.
  unfoldable pub serialize_bool : Bool → List ℕ
  serialize_bool v = io.store_u8 (if v then 1 else 0)

  unfoldable pub deserialize_bool : List ℕ → Parsed Bool
  deserialize_bool bytes =
      let val = io.load_u8 bytes in
      if not (length bytes == 1)
      then Parsed.failed invalid_argument
      else if ltb 1 val
      then Parsed.failed invalid_argument
      else Parsed.parsed (not (val == 0))

  one_byte : (v : ℕ) → (length (io.store_u8 v) == 1) ≡ true
  one_byte v = (==_iff _ 1).1 (io.length_u8 v)

  pub u8_codec : Codec ℕ
  unfolding serialize_u8 deserialize_u8
  u8_codec = record {
    into = into_serializer serialize_u8;
    deserialize = deserialize_u8;
    encoded = λ v. if ltb v (2 ^ 8) then some (io.store_u8 v) else none;
    into_eq = λ v d bytes e st h.
        into_end serialize_u8 v d bytes (ranged-some (2 ^ 8) v (io.store_u8 v) bytes e).1 st h;
    read_back = λ v bytes e.
        let (lt, same) = ranged-some (2 ^ 8) v (io.store_u8 v) bytes e in
        ap deserialize_u8 (sym same) ∙ rw (one_byte v, io.load_store v lt) refl;
  }

  bool_read_back : (v : Bool) → deserialize_bool (serialize_bool v) ≡ Parsed.parsed v
  unfolding serialize_bool deserialize_bool
  bool_read_back true =
      let load : io.load_u8 (io.store_u8 1) ≡ 1 = io.load_store 1 (omega arith) in
      rw (one_byte 1, load) refl
  bool_read_back false =
      let load : io.load_u8 (io.store_u8 0) ≡ 0 = io.load_store 0 (omega arith) in
      rw (one_byte 0, load) refl

  some_bytes :
      (v : Bool) (bytes : List ℕ) → some (serialize_bool v) ≡ some bytes → serialize_bool v ≡ bytes
  some_bytes v bytes e = ground arith

  pub bool_codec : Codec Bool
  bool_codec = record {
    into = into_serializer serialize_bool;
    deserialize = deserialize_bool;
    encoded = λ v. some (serialize_bool v);
    into_eq = λ v d bytes e st h. into_end serialize_bool v d bytes (some_bytes v bytes e) st h;
    read_back = λ v bytes e. ap deserialize_bool (sym (some_bytes v bytes e)) ∙ bool_read_back v;
  }

  bit_test : (n : ℕ) → n ≤ 1 → not (n == 0) ≡ (n == 1)
  bit_test n h = ground arith

  -- The bytes that are read as a `bool` are exactly those of length one whose byte is at most 1, and
  -- the `bool` is whether the byte is 1; all others are an invalid argument.
  pub deserialize_bool_cases :
      (bytes : List ℕ)
      → ((length bytes ≡ 1)
          × (io.load_u8 bytes ≤ 1)
          × (deserialize_bool bytes ≡ Parsed.parsed (io.load_u8 bytes == 1)))
        ⊎ (¬ ((length bytes ≡ 1) × (io.load_u8 bytes ≤ 1))
            × (deserialize_bool bytes ≡ Parsed.failed invalid_argument))
  unfolding deserialize_bool
  deserialize_bool_cases bytes =
      let val = io.load_u8 bytes in
      elim (Bool-cases (length bytes == 1)) [
        | inr other ↦ inr (λ h. ==_ne (length bytes) 1 other h.0, rw (deserialize_bool, other) refl)
        | inl one_long ↦ elim (Bool-cases (ltb 1 val)) [
          | inl large ↦
              let above : 1 < val = ltb→lt 1 val large in
              inr (λ h. omega (arith, above, h.1), rw (deserialize_bool, one_long, large) refl)
          | inr small ↦
              let bit : val ≤ 1 = ltb-false 1 val small in
              inl (
                (==_iff (length bytes) 1).0 one_long,
                bit,
                rw (deserialize_bool, one_long, small) (ap Parsed.parsed (bit_test val bit)),
              )
        ]
      ]

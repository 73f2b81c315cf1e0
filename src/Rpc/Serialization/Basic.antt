-- ===== src/Rpc/Serialization/Basic.antt =====
-- The types with a serializer of their own, and pairs of types that have one.
use roo_transport.Prelude.{
  ℕ, ◌+◌, ◌^◌, ◌≤◌, ◌<◌, ◌≡◌, refl, sym, ap, ◌∙◌, true, ◌==◌, ==_iff, ltb, ltb→lt, leb, leb→le, not,
  if◌then◌else◌, Bool-cases, inl, inr, Option, none, some, Option-cases, List, [], ◌++◌, length,
  check, ◌>>=◌, ◌>>◌, append-nil, arith,
}
use roo_transport.Io.{MemoryIo}
use roo_transport.Rpc.{status_ok, invalid_argument}
use roo_transport.Rpc.Serialization.{
  Parsed, DynamicSerialized, padded, write, Codec, serialize_pair_into, deserialize_pair,
}
use roo_transport.Rpc.Serialization.Buffer.{write_end}
use roo_transport.Rpc.Serialization.Members.{
  member, serialize_pair_into-eq, deserialize_pair-members,
}

-- `IntoSerializer` for a type that has only `serialize`: the bytes are written.
unfoldable pub into_serializer :
    {A : Type 0} → (A → List ℕ) → A → DynamicSerialized → DynamicSerialized
into_serializer serialize v d = write d (serialize v)

pub into_end :
    {A : Type 0} (serialize : A → List ℕ) (v : A) (d : DynamicSerialized) (bytes : List ℕ)
    → serialize v ≡ bytes
    → d.status ≡ status_ok
    → length d.bytes ≤ d.pos
    → into_serializer serialize v d ≡ record {
      status = status_ok;
      bytes = padded d.bytes d.pos ++ bytes;
      pos = d.pos + length bytes;
    }
unfolding into_serializer
into_end serialize v d bytes e st h =
    write_end d (serialize v) h
    ∙ ap
        (λ s. record {
          status = s;
          bytes = padded d.bytes d.pos ++ serialize v;
          pos = d.pos + length (serialize v);
        })
        st
    ∙ ap
        (λ xs. record {
          status = status_ok;
          bytes = padded d.bytes d.pos ++ xs;
          pos = d.pos + length xs;
        })
        e

-- `Void`
unfoldable pub serialize_void : Unit {0} → List ℕ
serialize_void v = []

unfoldable pub deserialize_void : List ℕ → Parsed (Unit {0})
deserialize_void bytes =
    if not (length bytes == 0) then Parsed.failed invalid_argument else Parsed.parsed tt

-- `string_view`, as its bytes.
unfoldable pub serialize_string : List ℕ → List ℕ
serialize_string s = s

unfoldable pub deserialize_string : List ℕ → Parsed (List ℕ)
deserialize_string bytes = Parsed.parsed bytes

unfoldable pub string_codec : Codec (List ℕ)
unfolding serialize_string deserialize_string
string_codec = record {
  into = into_serializer serialize_string;
  deserialize = deserialize_string;
  encoded = λ s. some s;
  into_eq = λ v d bytes e st h. into_end serialize_string v d bytes (ground arith) st h;
  read_back = λ v bytes e. ground arith;
}

pub ranged-some :
    (top v : ℕ) (o : List ℕ) (bytes : List ℕ)
    → (if ltb v top then some o else none) ≡ some bytes
    → (v < top) × (o ≡ bytes)
ranged-some top v o bytes e = elim (Bool-cases (ltb v top)) [
  | inl lt ↦ (ltb→lt v top lt, ground arith)
  | inr ge ↦ absurd (ground arith)
]

module _ (io : MemoryIo) where
  unfoldable pub serialize_u16 : ℕ → List ℕ
  serialize_u16 v = io.store_be_u16 v

  unfoldable pub deserialize_u16 : List ℕ → Parsed ℕ
  deserialize_u16 bytes =
      if not (length bytes == 2)
      then Parsed.failed invalid_argument
      else Parsed.parsed (io.load_be_u16 bytes)

  unfoldable pub serialize_u32 : ℕ → List ℕ
  serialize_u32 v = io.store_be_u32 v

  unfoldable pub deserialize_u32 : List ℕ → Parsed ℕ
  deserialize_u32 bytes =
      if not (length bytes == 4)
      then Parsed.failed invalid_argument
      else Parsed.parsed (io.load_be_u32 bytes)

  unfoldable pub u16_codec : Codec ℕ
  unfolding serialize_u16 deserialize_u16
  u16_codec = record {
    into = into_serializer serialize_u16;
    deserialize = deserialize_u16;
    encoded = λ v. if ltb v (2 ^ 16) then some (io.store_be_u16 v) else none;
    into_eq = λ v d bytes e st h.
        into_end serialize_u16 v d bytes (ranged-some (2 ^ 16) v (io.store_be_u16 v) bytes e).1 st
          h;
    read_back = λ v bytes e.
        let (lt, same) = ranged-some (2 ^ 16) v (io.store_be_u16 v) bytes e in
        let two : (length (io.store_be_u16 v) == 2) ≡ true = (==_iff _ 2).1 (io.length_u16 v) in
        let load : io.load_be_u16 (io.store_be_u16 v) ≡ v =
          ap io.load_be_u16 (sym (append-nil (io.store_be_u16 v))) ∙ io.load_u16 v [] lt in
        ap deserialize_u16 (sym same) ∙ rw (two, load) refl;
  }

  pub u32_codec : Codec ℕ
  unfolding serialize_u32 deserialize_u32
  u32_codec = record {
    into = into_serializer serialize_u32;
    deserialize = deserialize_u32;
    encoded = λ v. if ltb v (2 ^ 32) then some (io.store_be_u32 v) else none;
    into_eq = λ v d bytes e st h.
        into_end serialize_u32 v d bytes (ranged-some (2 ^ 32) v (io.store_be_u32 v) bytes e).1 st
          h;
    read_back = λ v bytes e.
        let (lt, same) = ranged-some (2 ^ 32) v (io.store_be_u32 v) bytes e in
        let four : (length (io.store_be_u32 v) == 4) ≡ true = (==_iff _ 4).1 (io.length_u32 v) in
        let load : io.load_be_u32 (io.store_be_u32 v) ≡ v =
          ap io.load_be_u32 (sym (append-nil (io.store_be_u32 v))) ∙ io.load_u32 v [] lt in
        ap deserialize_u32 (sym same) ∙ rw (four, load) refl;
  }

  module _ {A B : Type 0} (a : Codec A) (b : Codec B) where
    unfoldable pub pair_encoded : A × B → Option (List ℕ)
    pair_encoded (x, y) = do
      xs ← a.encoded x
      ys ← b.encoded y
      check (leb (length xs) 65535)
      check (leb (length ys) 65535)
      some (member io xs ++ member io ys)

    pub pair_encoded-some :
        (x : A) (y : B) (bytes : List ℕ)
        → pair_encoded (x, y) ≡ some bytes
        → (xs : List ℕ) × (ys : List ℕ) × (a.encoded x ≡ some xs)
          × (b.encoded y ≡ some ys)
          × (length xs ≤ 65535)
          × (length ys ≤ 65535)
          × (member io xs ++ member io ys ≡ bytes)
    unfolding pair_encoded
    pair_encoded-some x y bytes e = elim (Option-cases (a.encoded x)) [
      | inl none_x ↦ absurd (ground arith)
      | inr (xs, ex) ↦ elim (Option-cases (b.encoded y)) [
        | inl none_y ↦ absurd (ground arith)
        | inr (ys, ey) ↦ elim (Bool-cases (leb (length xs) 65535)) [
          | inr long_x ↦ absurd (ground arith)
          | inl sx ↦ elim (Bool-cases (leb (length ys) 65535)) [
            | inr long_y ↦ absurd (ground arith)
            | inl sy ↦ (xs, ys, ex, ey, leb→le _ _ sx, leb→le _ _ sy, ground arith)
          ]
        ]
      ]
    ]

    -- A pair is a type with a serializer, so it may be a member again.
    unfoldable pub pair_codec : Codec (A × B)
    unfolding pair_encoded
    pair_codec = record {
      into = serialize_pair_into io a b;
      deserialize = deserialize_pair io a b;
      encoded = pair_encoded;
      into_eq = λ v d bytes e st h.
          let (xs, ys, ex, ey, sx, sy, same) = pair_encoded-some v.0 v.1 bytes e in
          serialize_pair_into-eq io a b v.0 v.1 d xs ys ex ey sx sy st h
          ∙ ap
              (λ zs. record {
                status = status_ok;
                bytes = padded d.bytes d.pos ++ zs;
                pos = d.pos + length zs;
              })
              same;
      read_back = λ v bytes e.
          let (xs, ys, ex, ey, sx, sy, same) = pair_encoded-some v.0 v.1 bytes e in
          ap (deserialize_pair io a b) (sym same)
          ∙ deserialize_pair-members io a b v.0 v.1 xs ys ex ey sx sy;
    }

-- ===== src/Rpc/Serialization/Tuples.antt =====
-- Tuples: the last element, and an element with others behind it.
use roo_transport.Prelude.{
  ℕ, ◌+◌, ◌≤◌, ◌≡◌, refl, sym, ap, ◌∙◌, leb, leb→le, Bool-cases, inl, inr, Option, some,
  Option-cases, List, [], ◌++◌, length, length-append, append-nil, append_assoc, check, ◌>>=◌, ◌>>◌,
  arith,
}
use roo_transport.Io.{MemoryIo}
use roo_transport.Rpc.{status_ok}
use roo_transport.Rpc.Serialization.{
  Parsed, DynamicSerialized, new_serialized, padded, Codec, serialize_member_into,
  deserialize_member, serialize_tuple_last, deserialize_tuple_last, serialize_tuple_more,
  deserialize_tuple_more,
}
use roo_transport.Rpc.Serialization.Buffer.{length-padded, padded_full}
use roo_transport.Rpc.Serialization.Members.{
  member, serialize_member_into-eq, deserialize_member-member,
}

module _ (io : MemoryIo) {A : Type 0} (a : Codec A) where
  unfoldable pub last_encoded : A → Option (List ℕ)
  last_encoded x = do xs ← a.encoded x; check (leb (length xs) 65535); some (member io xs)

  pub last_encoded-some :
      (x : A) (bytes : List ℕ)
      → last_encoded x ≡ some bytes
      → (xs : List ℕ) × (a.encoded x ≡ some xs) × (length xs ≤ 65535) × (member io xs ≡ bytes)
  unfolding last_encoded
  last_encoded-some x bytes e = elim (Option-cases (a.encoded x)) [
    | inl none_x ↦ absurd (ground arith)
    | inr (xs, ex) ↦ elim (Bool-cases (leb (length xs) 65535)) [
      | inr long_x ↦ absurd (ground arith)
      | inl sx ↦ (xs, ex, leb→le _ _ sx, ground arith)
    ]
  ]

  length-member : (xs : List ℕ) → length (member io xs) ≡ 2 + length xs
  length-member xs =
      omega (arith, length-append (io.store_be_u16 (length xs)) xs, io.length_u16 (length xs))

  pub last_eq :
      (x : A) (d : DynamicSerialized) (xs : List ℕ)
      → a.encoded x ≡ some xs
      → length xs ≤ 65535
      → d.status ≡ status_ok
      → length d.bytes ≤ d.pos
      → serialize_member_into io a x d ≡ record {
        status = status_ok;
        bytes = padded d.bytes d.pos ++ member io xs;
        pos = d.pos + length (member io xs);
      }
  last_eq x d xs ex sx st h =
      serialize_member_into-eq io a x d xs ex sx st h
      ∙ ap
          (λ n. record {
            status = status_ok;
            bytes = padded d.bytes d.pos ++ member io xs;
            pos = d.pos + n;
          })
          (sym (length-member xs))

  -- The last element.
  unfoldable pub last_codec : Codec A
  unfolding serialize_tuple_last deserialize_tuple_last
  last_codec = record {
    into = serialize_tuple_last io a;
    deserialize = deserialize_tuple_last io a;
    encoded = last_encoded;
    into_eq = λ x d bytes e st h.
        let (xs, ex, sx, same) = last_encoded-some x bytes e in
        last_eq x d xs ex sx st h
        ∙ ap
            (λ zs. record {
              status = status_ok;
              bytes = padded d.bytes d.pos ++ zs;
              pos = d.pos + length zs;
            })
            same;
    read_back = λ x bytes e.
        let (xs, ex, sx, same) = last_encoded-some x bytes e in
        let one =
          ap (deserialize_member io a) (sym (append-nil (member io xs)))
          ∙ deserialize_member-member io a x xs [] ex sx in
        ap (deserialize_tuple_last io a) (sym same) ∙ rw (deserialize_tuple_last, one) refl;
  }

  module _ {B : Type 0} (rest : Codec B) where
    more_step :
        (x : A) (ys : B) (d u : DynamicSerialized)
        → serialize_member_into io a x d ≡ u
        → u.status ≡ status_ok
        → serialize_tuple_more io a rest (x, ys) d ≡ rest.into ys u
    unfolding serialize_tuple_more
    more_step x ys d u e st = rw (serialize_tuple_more, e, st) refl

    -- Behind all that was written, the first element and the others are appended.
    pub more_eq :
        (x : A) (ys : B) (d : DynamicSerialized) (xs more : List ℕ)
        → a.encoded x ≡ some xs
        → length xs ≤ 65535
        → rest.encoded ys ≡ some more
        → d.status ≡ status_ok
        → length d.bytes ≤ d.pos
        → serialize_tuple_more io a rest (x, ys) d ≡ record {
          status = status_ok;
          bytes = padded d.bytes d.pos ++ (member io xs ++ more);
          pos = d.pos + length (member io xs ++ more);
        }
    more_eq x ys d xs more ex sx em st h =
        let front = padded d.bytes d.pos ++ member io xs in
        let at = d.pos + length (member io xs) in
        let u : DynamicSerialized = record { status = status_ok; bytes = front; pos = at } in
        let front_length : length front ≡ at = omega (
          arith,
          length-append (padded d.bytes d.pos) (member io xs),
          length-padded d.bytes d.pos h,
        ) in
        let at_end : at + length more ≡ d.pos + length (member io xs ++ more) =
          omega (arith, length-append (member io xs) more) in
        more_step x ys d u (last_eq x d xs ex sx st h) refl
        ∙ rest.into_eq ys u more em refl (omega arith)
        ∙ ap (λ zs. record { status = status_ok; bytes = zs ++ more; pos = at + length more })
            (padded_full front at (omega arith))
        ∙ ap (λ zs. record { status = status_ok; bytes = zs; pos = at + length more })
            (append_assoc (padded d.bytes d.pos) (member io xs) more)
        ∙ ap
            (λ n. record {
              status = status_ok;
              bytes = padded d.bytes d.pos ++ (member io xs ++ more);
              pos = n;
            })
            at_end

    -- A tuple whose first element has at most 65535 bytes, and whose other elements have a format, is
    -- serialized into a new buffer as the first element behind its length and then the others, without
    -- an error, and is read back from those bytes.
    pub tuple_round_trip :
        (x : A) (ys : B) (xs more : List ℕ)
        → a.encoded x ≡ some xs
        → length xs ≤ 65535
        → rest.encoded ys ≡ some more
        → let d = serialize_tuple_more io a rest (x, ys) new_serialized in
          (d.status ≡ status_ok)
          × (d.bytes ≡ member io xs ++ more)
          × (deserialize_tuple_more io a rest d.bytes ≡ Parsed.parsed (x, ys))
    unfolding new_serialized deserialize_tuple_more
    tuple_round_trip x ys xs more ex sx em =
        let eq = more_eq x ys new_serialized xs more ex sx em refl (omega arith) in
        let bytes_eq = ap (λ (d : DynamicSerialized). d.bytes) eq in
        (
          ap (λ (d : DynamicSerialized). d.status) eq,
          bytes_eq,
          ap (deserialize_tuple_more io a rest) bytes_eq
              ∙ rw
                  (
                    deserialize_tuple_more,
                    deserialize_member-member io a x xs more ex sx,
                    rest.read_back ys more em,
                  )
                  refl,
        )

    unfoldable pub more_encoded : A × B → Option (List ℕ)
    more_encoded (x, ys) = do bytes ← last_encoded x; more ← rest.encoded ys; some (bytes ++ more)

    pub more_encoded-some :
        (x : A) (ys : B) (bytes : List ℕ)
        → more_encoded (x, ys) ≡ some bytes
        → (xs : List ℕ) × (more : List ℕ) × (a.encoded x ≡ some xs)
          × (length xs ≤ 65535)
          × (rest.encoded ys ≡ some more)
          × (member io xs ++ more ≡ bytes)
    unfolding more_encoded
    more_encoded-some x ys bytes e = elim (Option-cases (last_encoded x)) [
      | inl none_x ↦ absurd (ground arith)
      | inr (first, el) ↦ elim (Option-cases (rest.encoded ys)) [
        | inl none_ys ↦ absurd (ground arith)
        | inr (more, em) ↦
            let (xs, ex, sx, same) = last_encoded-some x first el in
            (xs, more, ex, sx, em, ap (λ zs. zs ++ more) same ∙ ground arith)
      ]
    ]

    -- An element with others behind it, so that a tuple may have any number of elements.
    unfoldable pub more_codec : Codec (A × B)
    unfolding deserialize_tuple_more
    more_codec = record {
      into = serialize_tuple_more io a rest;
      deserialize = deserialize_tuple_more io a rest;
      encoded = more_encoded;
      into_eq = λ v d bytes e st h.
          let (xs, more, ex, sx, em, same) = more_encoded-some v.0 v.1 bytes e in
          more_eq v.0 v.1 d xs more ex sx em st h
          ∙ ap
              (λ zs. record {
                status = status_ok;
                bytes = padded d.bytes d.pos ++ zs;
                pos = d.pos + length zs;
              })
              same;
      read_back = λ v bytes e.
          let (xs, more, ex, sx, em, same) = more_encoded-some v.0 v.1 bytes e in
          ap (deserialize_tuple_more io a rest) (sym same)
          ∙ rw
              (
                deserialize_tuple_more,
                deserialize_member-member io a v.0 xs more ex sx,
                rest.read_back v.1 more em,
              )
              refl;
    }

-- ===== src/Rpc/Serialization/Members.antt =====
-- Members read back.
use roo_transport.Prelude.{
  ℕ, zero, suc, ◌+◌, ◌-◌, ◌≤◌, ◌≡◌, refl, sym, ap, ◌∙◌, false, ltb, some, List, [], ◌∷◌, ◌++◌,
  length, take, drop, replicate, length-append, take_all, take-append_le, drop-append_ge,
  append-nil, append_assoc, arith,
}
use roo_transport.Io.{MemoryIo}
use roo_transport.Rpc.{status_ok}
use roo_transport.Rpc.Serialization.{
  Parsed, DynamicSerialized, new_serialized, padded, seek, write, Codec, serialize_member_into,
  deserialize_member, serialize_pair_into, deserialize_pair,
}
use roo_transport.Rpc.Serialization.Buffer.{length-padded, padded_full, write_inside}

replicate_two : (k m : ℕ) → m ≡ k + 2 → replicate m (zero) ≡ replicate k zero ++ (0 ∷ 0 ∷ [])
replicate_two zero zero e = absurd (omega arith)
replicate_two zero (suc zero) e = absurd (omega arith)
replicate_two zero (suc (suc zero)) e = refl
replicate_two zero (suc (suc (suc m))) e = absurd (omega arith)
replicate_two (suc k) zero e = absurd (omega arith)
replicate_two (suc k) (suc m) e = ap (λ xs. 0 ∷ xs) (replicate_two k m (omega arith))

padded_two : (xs : List ℕ) (n : ℕ) → length xs ≤ n → padded xs (n + 2) ≡ padded xs n ++ (0 ∷ 0 ∷ [])
padded_two xs n h =
    ap (λ ys. xs ++ ys) (replicate_two (n - length xs) (n + 2 - length xs) (omega arith))
    ∙ sym (append_assoc xs (replicate (n - length xs) 0) (0 ∷ 0 ∷ []))

-- A member in the format: its length and its bytes.
abbrev pub member : MemoryIo → List ℕ → List ℕ
member io xs = io.store_be_u16 (length xs) ++ xs

module _ (io : MemoryIo) {A : Type 0} (c : Codec A) where
  member_step :
      (v : A) (d u : DynamicSerialized)
      → c.into v (seek d (d.pos + 2)) ≡ u
      → u.status ≡ status_ok
      → ltb 65535 (u.pos - (d.pos + 2)) ≡ false
      → serialize_member_into io c v d
        ≡ seek (write (seek u d.pos) (io.store_be_u16 (u.pos - (d.pos + 2)))) u.pos
  unfolding serialize_member_into
  member_step v d u e st small = rw (serialize_member_into, e, st, small) refl

  pub serialize_member_into-eq :
      (v : A) (d : DynamicSerialized) (xs : List ℕ)
      → c.encoded v ≡ some xs
      → length xs ≤ 65535
      → d.status ≡ status_ok
      → length d.bytes ≤ d.pos
      → serialize_member_into io c v d ≡ record {
        status = status_ok;
        bytes = padded d.bytes d.pos ++ member io xs;
        pos = d.pos + (2 + length xs);
      }
  unfolding seek
  serialize_member_into-eq v d xs enc small st h =
      let front = padded d.bytes d.pos in
      let u : DynamicSerialized = record {
        status = status_ok;
        bytes = padded d.bytes (d.pos + 2) ++ xs;
        pos = d.pos + 2 + length xs;
      } in
      let n_eq : d.pos + 2 + length xs - (d.pos + 2) ≡ length xs = omega arith in
      let p_eq : d.pos + 2 + length xs ≡ d.pos + (2 + length xs) = omega arith in
      let fits : ltb 65535 (d.pos + 2 + length xs - (d.pos + 2)) ≡ false = ground arith in
      let shape : padded d.bytes (d.pos + 2) ++ xs ≡ front ++ ((0 ∷ 0 ∷ []) ++ xs) =
        ap (λ ys. ys ++ xs) (padded_two d.bytes d.pos h) ∙ append_assoc front (0 ∷ 0 ∷ []) xs in
      member_step v d u (c.into_eq v (seek d (d.pos + 2)) xs enc st (omega arith)) refl fits
      ∙ ap (λ n. seek (write (seek u d.pos) (io.store_be_u16 n)) u.pos) n_eq
      ∙ ap (λ (w : DynamicSerialized). seek w u.pos)
          (write_inside (seek u d.pos) front (0 ∷ 0 ∷ []) xs (io.store_be_u16 (length xs)) shape
            (sym (length-padded d.bytes d.pos h)) (sym (io.length_u16 (length xs))))
      ∙ ap (λ n. record { status = status_ok; bytes = front ++ member io xs; pos = n }) p_eq

  pub deserialize_member-member :
      (v : A) (xs rest : List ℕ)
      → c.encoded v ≡ some xs
      → length xs ≤ 65535
      → deserialize_member io c (member io xs ++ rest) ≡ Parsed.parsed (v, rest)
  unfolding deserialize_member
  deserialize_member-member v xs rest enc small =
      let hdr = io.store_be_u16 (length xs) in
      let two = io.length_u16 (length xs) in
      let all = append_assoc hdr xs rest in
      let load : io.load_be_u16 (hdr ++ (xs ++ rest)) ≡ length xs =
        io.load_u16 (length xs) (xs ++ rest) (omega arith) in
      let size : length (hdr ++ (xs ++ rest)) ≡ 2 + length xs + length rest =
        omega (arith, length-append hdr (xs ++ rest), length-append xs rest, two) in
      let e1 : ltb (length (hdr ++ (xs ++ rest))) 2 ≡ false = ground arith in
      let e2 : ltb (length (hdr ++ (xs ++ rest)) - 2) (length xs) ≡ false = ground arith in
      let z : 2 - length hdr ≡ 0 = omega (arith, two) in
      let body : drop 2 (hdr ++ (xs ++ rest)) ≡ xs ++ rest =
        drop-append_ge 2 hdr (xs ++ rest) (omega (arith, two)) ∙ ap (λ k. drop k (xs ++ rest)) z in
      let mine : take (length xs) (xs ++ rest) ≡ xs =
        take-append_le (length xs) xs rest (omega arith) ∙ take_all (length xs) xs (omega arith) in
      let z' : length xs - length xs ≡ 0 = omega arith in
      let left : drop (length xs) (xs ++ rest) ≡ rest =
        drop-append_ge (length xs) xs rest (omega arith) ∙ ap (λ k. drop k rest) z' in
      ap (deserialize_member io c) all
      ∙ rw (deserialize_member, load, e1, e2, body, mine, c.read_back v xs enc, load, body, left)
          refl

module _ (io : MemoryIo) {A B : Type 0} (a : Codec A) (b : Codec B) where
  pair_step :
      (x : A) (y : B) (d u : DynamicSerialized)
      → serialize_member_into io a x d ≡ u
      → u.status ≡ status_ok
      → serialize_pair_into io a b (x, y) d ≡ serialize_member_into io b y u
  unfolding serialize_pair_into
  pair_step x y d u e st = rw (serialize_pair_into, e, st) refl

  pub serialize_pair_into-eq :
      (x : A) (y : B) (d : DynamicSerialized) (xs ys : List ℕ)
      → a.encoded x ≡ some xs
      → b.encoded y ≡ some ys
      → length xs ≤ 65535
      → length ys ≤ 65535
      → d.status ≡ status_ok
      → length d.bytes ≤ d.pos
      → serialize_pair_into io a b (x, y) d ≡ record {
        status = status_ok;
        bytes = padded d.bytes d.pos ++ (member io xs ++ member io ys);
        pos = d.pos + length (member io xs ++ member io ys);
      }
  serialize_pair_into-eq x y d xs ys ex ey sx sy st h =
      let front = padded d.bytes d.pos in
      let first = front ++ member io xs in
      let u : DynamicSerialized = record {
        status = status_ok;
        bytes = first;
        pos = d.pos + (2 + length xs);
      } in
      let lx = length-append (io.store_be_u16 (length xs)) xs in
      let ly = length-append (io.store_be_u16 (length ys)) ys in
      let size : length first ≡ d.pos + (2 + length xs) = omega (
        arith,
        length-append front (member io xs),
        length-padded d.bytes d.pos h,
        lx,
        io.length_u16 (length xs),
      ) in
      let p_eq : d.pos + (2 + length xs) + (2 + length ys)
          ≡ d.pos + length (member io xs ++ member io ys) =
        omega (
          arith,
          length-append (member io xs) (member io ys),
          lx,
          ly,
          io.length_u16 (length xs),
          io.length_u16 (length ys),
        ) in
      pair_step x y d u (serialize_member_into-eq io a x d xs ex sx st h) refl
      ∙ serialize_member_into-eq io b y u ys ey sy refl (omega (arith, size))
      ∙ ap
          (λ zs. record {
            status = status_ok;
            bytes = zs ++ member io ys;
            pos = d.pos + (2 + length xs) + (2 + length ys);
          })
          (padded_full first (d.pos + (2 + length xs)) (omega (arith, size)))
      ∙ ap
          (λ zs. record {
            status = status_ok;
            bytes = zs;
            pos = d.pos + (2 + length xs) + (2 + length ys);
          })
          (append_assoc front (member io xs) (member io ys))
      ∙ ap
          (λ n. record {
            status = status_ok;
            bytes = front ++ (member io xs ++ member io ys);
            pos = n;
          })
          p_eq

  pub deserialize_pair-members :
      (x : A) (y : B) (xs ys : List ℕ)
      → a.encoded x ≡ some xs
      → b.encoded y ≡ some ys
      → length xs ≤ 65535
      → length ys ≤ 65535
      → deserialize_pair io a b (member io xs ++ member io ys) ≡ Parsed.parsed (x, y)
  unfolding deserialize_pair
  deserialize_pair-members x y xs ys ex ey sx sy =
      let first = deserialize_member-member io a x xs (member io ys) ex sx in
      let second =
        ap (deserialize_member io b) (sym (append-nil (member io ys)))
        ∙ deserialize_member-member io b y ys [] ey sy in
      rw (deserialize_pair, first, second) refl

  -- A pair whose members have at most 65535 bytes each is serialized, into a new buffer, as each
  -- member behind its length, without an error, and is read back from those bytes.
  pub pair_round_trip :
      (x : A) (y : B) (xs ys : List ℕ)
      → a.encoded x ≡ some xs
      → b.encoded y ≡ some ys
      → length xs ≤ 65535
      → length ys ≤ 65535
      → let d = serialize_pair_into io a b (x, y) new_serialized in
        (d.status ≡ status_ok)
        × (d.bytes ≡ member io xs ++ member io ys)
        × (deserialize_pair io a b d.bytes ≡ Parsed.parsed (x, y))
  unfolding new_serialized
  pair_round_trip x y xs ys ex ey sx sy =
      let eq = serialize_pair_into-eq x y new_serialized xs ys ex ey sx sy refl (omega arith) in
      let bytes_eq = ap (λ (d : DynamicSerialized). d.bytes) eq in
      (
        ap (λ (d : DynamicSerialized). d.status) eq,
        bytes_eq,
        ap (deserialize_pair io a b) bytes_eq ∙ deserialize_pair-members x y xs ys ex ey sx sy,
      )

-- ===== src/Rpc/Serialization.antt =====
-- roo_transport/rpc/serialization.h: values as bytes, by themselves and as members of pairs and
-- tuples, where a length of 16 bits is in front of each.
pub mod Buffer
pub mod Members
pub mod Basic
pub mod Bytes
pub mod Tuples
use roo_transport.Prelude.{
  ℕ, ◌+◌, ◌-◌, ◌≤◌, ◌≡◌, Bool, true, false, ◌==◌, ltb, leb, not, if◌then◌else◌, min, Option, none,
  some, List, [], ◌∷◌, ◌++◌, length, take, drop, set, replicate,
}
use roo_transport.Io.{MemoryIo}
use roo_transport.Rpc.{RpcStatus, status_ok, invalid_argument}

-- A status, and the value if it is `kOk`.
pub data Parsed (A : Type 0) : Type 0 where
  parsed : (value : A) → Parsed A
  failed : (status : RpcStatus) → Parsed A

pub record DynamicSerialized : Type 0 where
  pub status : RpcStatus
  pub bytes : List ℕ
  pub pos : ℕ

unfoldable pub new_serialized : DynamicSerialized
new_serialized = record { status = status_ok; bytes = []; pos = 0 }

unfoldable pub fail : DynamicSerialized → RpcStatus → DynamicSerialized
fail d status = record { status = status; bytes = []; pos = 0 }

unfoldable pub seek : DynamicSerialized → ℕ → DynamicSerialized
seek d position = record d { pos = position }

-- Zeros up to a position.
abbrev pub padded : List ℕ → ℕ → List ℕ
padded bytes pos = bytes ++ replicate (pos - length bytes) 0

-- `write(b)`
unfoldable pub write_byte : DynamicSerialized → ℕ → DynamicSerialized
write_byte d b =
    if leb (length d.bytes) d.pos
    then record d { bytes = padded d.bytes d.pos ++ (b ∷ []); pos = d.pos + 1 }
    else record d { bytes = set d.bytes d.pos b; pos = d.pos + 1 }

-- `std::copy` to a position.
abbrev pub overwrite : List ℕ → ℕ → List ℕ → List ℕ
overwrite xs i ys = take i xs ++ ys ++ drop (i + length ys) xs

-- `write(buf, count)`
unfoldable pub write : DynamicSerialized → List ℕ → DynamicSerialized
write d buf =
    let base = padded d.bytes d.pos in
    let copy_over = min (length base - d.pos) (length buf) in
    let copied = overwrite base d.pos (take copy_over buf) in
    if length buf - copy_over == 0
    then record d { bytes = copied; pos = d.pos + copy_over }
    else record d {
      bytes = copied ++ drop copy_over buf;
      pos = d.pos + copy_over + (length buf - copy_over);
    }

-- What a type needs: `SerializeInto`, and the `deserialize` of its deserializer. `encoded` is the
-- format, `none` for a value that is too long to be a member somewhere inside.
pub record Codec (A : Type 0) : Type 0 where
  pub into : A → DynamicSerialized → DynamicSerialized
  pub deserialize : List ℕ → Parsed A
  pub encoded : A → Option (List ℕ)
  -- Behind all that was written, perhaps with a gap, the format is appended.
  pub into_eq :
      (v : A) (d : DynamicSerialized) (bytes : List ℕ)
      → encoded v ≡ some bytes
      → d.status ≡ status_ok
      → length d.bytes ≤ d.pos
      → into v d ≡ record {
        status = status_ok;
        bytes = padded d.bytes d.pos ++ bytes;
        pos = d.pos + length bytes;
      }
  pub read_back :
      (v : A) (bytes : List ℕ) → encoded v ≡ some bytes → deserialize bytes ≡ Parsed.parsed v

module _ (io : MemoryIo) {A : Type 0} (c : Codec A) where
  -- `SerializeMemberInto`
  unfoldable pub serialize_member_into : A → DynamicSerialized → DynamicSerialized
  unfolding seek write fail
  serialize_member_into v d =
      let u = c.into v (seek d (d.pos + 2)) in
      let len = u.pos - (d.pos + 2) in
      if not (u.status == status_ok)
      then u
      else if ltb 65535 len
      then fail u invalid_argument
      else seek (write (seek u d.pos) (io.store_be_u16 len)) u.pos

  -- `DeserializeMember`: the member, and what follows it.
  unfoldable pub deserialize_member : List ℕ → Parsed (A × List ℕ)
  deserialize_member bytes =
      let member_len = io.load_be_u16 bytes in
      if ltb (length bytes) 2
      then Parsed.failed invalid_argument
      else if ltb (length bytes - 2) member_len
      then Parsed.failed invalid_argument
      else elim (c.deserialize (take member_len (drop 2 bytes))) [
        | Parsed.failed status ↦ Parsed.failed status
        | Parsed.parsed v ↦ Parsed.parsed (v, drop member_len (drop 2 bytes))
      ]

module _ (io : MemoryIo) {A B : Type 0} (a : Codec A) (b : Codec B) where
  -- `serializeInto` and `deserialize` of a pair.
  unfoldable pub serialize_pair_into : A × B → DynamicSerialized → DynamicSerialized
  unfolding serialize_member_into
  serialize_pair_into (x, y) d =
      let u = serialize_member_into io a x d in
      if not (u.status == status_ok) then u else serialize_member_into io b y u

  unfoldable pub deserialize_pair : List ℕ → Parsed (A × B)
  unfolding deserialize_member
  deserialize_pair bytes = elim (deserialize_member io a bytes) [
    | Parsed.failed status ↦ Parsed.failed status
    | Parsed.parsed (x, rest) ↦ elim (deserialize_member io b rest) [
      | Parsed.failed status ↦ Parsed.failed status
      | Parsed.parsed (y, more) ↦
          if not (length more == 0) then Parsed.failed invalid_argument else Parsed.parsed (x, y)
    ]
  ]

-- `SerializeTupleRecursive` and `DeserializeTupleRecursive`: at the last index, and at an index with
-- the types of the rest behind it.
module _ (io : MemoryIo) {A : Type 0} (a : Codec A) where
  unfoldable pub serialize_tuple_last : A → DynamicSerialized → DynamicSerialized
  unfolding serialize_member_into
  serialize_tuple_last x d = serialize_member_into io a x d

  unfoldable pub deserialize_tuple_last : List ℕ → Parsed A
  unfolding deserialize_member
  deserialize_tuple_last bytes = elim (deserialize_member io a bytes) [
    | Parsed.failed status ↦ Parsed.failed status
    | Parsed.parsed (x, more) ↦
        if not (length more == 0) then Parsed.failed invalid_argument else Parsed.parsed x
  ]

  module _ {B : Type 0} (rest : Codec B) where
    unfoldable pub serialize_tuple_more : A × B → DynamicSerialized → DynamicSerialized
    unfolding serialize_member_into
    serialize_tuple_more (x, ys) d =
        let u = serialize_member_into io a x d in
        if not (u.status == status_ok) then u else rest.into ys u

    unfoldable pub deserialize_tuple_more : List ℕ → Parsed (A × B)
    unfolding deserialize_member
    deserialize_tuple_more bytes = elim (deserialize_member io a bytes) [
      | Parsed.failed status ↦ Parsed.failed status
      | Parsed.parsed (x, more) ↦ elim (rest.deserialize more) [
        | Parsed.failed status ↦ Parsed.failed status
        | Parsed.parsed ys ↦ Parsed.parsed (x, ys)
      ]
    ]

-- ===== src/Tests/ConcreteIo.antt =====
-- Big-endian stores and loads, as roo_io documents them.
use roo_transport.Prelude.{ℕ, ◌+◌, ◌*◌, ◌/◌, ◌%◌, ◌^◌, [], ◌∷◌, get_or, refl, arith}
use roo_transport.Io.{MemoryIo}

abbrev byte : ℕ → ℕ → ℕ
byte v k = v / 256 ^ k % 256

abbrev pub big_endian : MemoryIo
big_endian = record {
  store_be_u16 = λ v. v / 256 % 256 ∷ v % 256 ∷ [];
  store_be_u24 = λ v. v / 65536 % 256 ∷ v / 256 % 256 ∷ v % 256 ∷ [];
  store_be_u32 = λ v. v / 16777216 % 256 ∷ v / 65536 % 256 ∷ v / 256 % 256 ∷ v % 256 ∷ [];
  store_be_u64 = λ v.
      byte v 7 ∷ byte v 6 ∷ byte v 5 ∷ byte v 4 ∷ byte v 3 ∷ byte v 2 ∷ byte v 1 ∷ byte v 0 ∷ [];
  load_be_u16 = λ b. get_or b 0 0 * 256 + get_or b 1 0;
  load_be_u24 = λ b. get_or b 0 0 * 65536 + get_or b 1 0 * 256 + get_or b 2 0;
  load_be_u32 =
      λ b. get_or b 0 0 * 16777216 + get_or b 1 0 * 65536 + get_or b 2 0 * 256 + get_or b 3 0;
  length_u16 = λ v. refl;
  length_u24 = λ v. refl;
  length_u32 = λ v. refl;
  length_u64 = λ v. refl;
  load_u16 = λ v rest h. omega arith;
  load_u24 = λ v rest h. omega arith;
  load_u32 = λ v rest h. omega arith;
}

-- ===== src/Tests/ConcreteStream.antt =====
-- Reads and writes over a stretch of memory, as roo_io documents them: seven bits in a byte, the low
-- ones first, and the eighth bit set on all but the last.
use roo_transport.Prelude.{
  ℕ, zero, suc, ◌+◌, ◌*◌, ◌/◌, ◌%◌, ◌≤◌, ◌<◌, ◌≡◌, inl, inr, refl, ap, false, ltb, Bool-cases,
  if◌then◌else◌, Option, none, some, List, [], ◌∷◌, ◌++◌, length, ◌>>=◌, arith,
}
use roo_transport.Rpc.Header.{StreamIo}

-- The first value that does not fit `n` bytes.
abbrev pub top : ℕ → ℕ
top zero = 1
top (suc n) = 128 * top n

pub write_var : ℕ → ℕ → List ℕ
write_var zero v = []
write_var (suc n) v =
    let rest = write_var n (v / 128) in if ltb v 128 then v ∷ [] else (v % 128 + 128) ∷ rest

pub read_var : ℕ → List ℕ → Option (ℕ × List ℕ)
read_var zero bytes = none
read_var (suc n) [] = none
read_var (suc n) (b ∷ bytes) =
    let more = read_var n bytes in
    if ltb b 128 then some (b, bytes) else more >>= λ (r, rest). some (b % 128 + 128 * r, rest)

pub length-write_var : (n v : ℕ) → length (write_var n v) ≤ n
unfolding write_var
length-write_var zero v = omega arith
length-write_var (suc n) v = elim (Bool-cases (ltb v 128)) [
  | inl e ↦ rw e (omega arith)
  | inr e ↦ rw e (omega (arith, length-write_var n (v / 128)))
]

pub read_var-write_var :
    (n v : ℕ) (rest : List ℕ)
    → 0 < n
    → v < top n
    → read_var n (write_var n v ++ rest) ≡ some (v, rest)
unfolding write_var read_var
read_var-write_var zero v rest pos h = absurd (omega arith)
read_var-write_var (suc zero) v rest pos h = ground arith
read_var-write_var (suc (suc n)) v rest pos h = elim (Bool-cases (ltb v 128)) [
  | inl e ↦ rw (e, e) refl
  | inr e ↦
      let ih = read_var-write_var (suc n) (v / 128) rest (omega arith) (omega arith) in
      let high : ltb (v % 128 + 128) 128 ≡ false = ground arith in
      let v_eq : (v % 128 + 128) % 128 + 128 * (v / 128) ≡ v = omega arith in
      rw (e, high, ih, v_eq) refl
]

pub first_byte : List ℕ → Option (ℕ × List ℕ)
first_byte [] = none
first_byte (b ∷ bytes) = some (b, bytes)

pub first_three : List ℕ → Option (ℕ × List ℕ)
first_three (a ∷ b ∷ c ∷ bytes) = some (a * 65536 + b * 256 + c, bytes)
first_three bytes = none

abbrev pub memory : StreamIo
unfolding first_byte first_three write_var read_var
memory = record {
  write_u8 = λ v. v % 256 ∷ [];
  write_be_u24 = λ v. v / 65536 % 256 ∷ v / 256 % 256 ∷ v % 256 ∷ [];
  write_var_u64 = write_var 5;
  read_u8 = first_byte;
  read_be_u24 = first_three;
  read_var_u32 = read_var 5;
  length_u8 = λ v. refl;
  length_u24 = λ v. refl;
  length_var = λ v h. length-write_var 5 v;
  read_back_u8 = λ v rest h. let e : v % 256 ≡ v = omega arith in ap (λ b. some (b, rest)) e;
  read_back_u24 = λ v rest h.
      let e : v / 65536 % 256 * 65536 + v / 256 % 256 * 256 + v % 256 ≡ v = omega arith in
      ap (λ b. some (b, rest)) e;
  read_back_var = λ v rest h. read_var-write_var 5 v rest (omega arith) (omega arith);
}

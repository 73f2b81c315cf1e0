-- ===== src/Io.antt =====
-- What the code uses of roo_io's memory/store.h and memory/load.h: integers as bytes, the most
-- significant byte first. A value of the record is a parameter of the definitions that use it.
use roo_transport.Prelude.{ℕ, ◌^◌, ◌<◌, ◌≡◌, List, ◌++◌, length}

pub record MemoryIo : Type 0 where
  pub store_be_u16 : ℕ → List ℕ
  pub store_be_u24 : ℕ → List ℕ
  pub store_be_u32 : ℕ → List ℕ
  pub store_be_u64 : ℕ → List ℕ
  pub load_be_u16 : List ℕ → ℕ
  pub load_be_u24 : List ℕ → ℕ
  pub load_be_u32 : List ℕ → ℕ
  pub length_u16 : (v : ℕ) → length (store_be_u16 v) ≡ 2
  pub length_u24 : (v : ℕ) → length (store_be_u24 v) ≡ 3
  pub length_u32 : (v : ℕ) → length (store_be_u32 v) ≡ 4
  pub length_u64 : (v : ℕ) → length (store_be_u64 v) ≡ 8
  -- A load reads from the front of what follows the pointer.
  pub load_u16 : (v : ℕ) (rest : List ℕ) → v < 2 ^ 16 → load_be_u16 (store_be_u16 v ++ rest) ≡ v
  pub load_u24 : (v : ℕ) (rest : List ℕ) → v < 2 ^ 24 → load_be_u24 (store_be_u24 v ++ rest) ≡ v
  pub load_u32 : (v : ℕ) (rest : List ℕ) → v < 2 ^ 32 → load_be_u32 (store_be_u32 v ++ rest) ≡ v

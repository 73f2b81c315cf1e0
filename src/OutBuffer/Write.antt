-- ===== src/OutBuffer/Write.antt =====
-- `OutBuffer::write` of roo_transport/link/internal/out_buffer.h.
use roo_transport.Prelude.{
  ℕ, ◌-◌, ◌≤◌, ◌<◌, ◌≡◌, ◌⊎◌, inl, inr, refl, sym, ap, true, false, ltb, leb, lt→ltb, leb→le,
  leb-false, Bool-cases, some, List, ◌++◌, length, take, take_all, length-take, length-append,
  arith,
}
use roo_transport.OutBuffer.{OutBuffer, room, write}

-- What writing to an open buffer comes to: it takes the first `k` bytes, at least one if there is
-- one, and either is finished by that, or has taken them all and has room left.
pub record Wrote (b : OutBuffer) (bytes : List ℕ) (k : ℕ) (b' : OutBuffer) : Type 0 where
  pub within : k ≤ length bytes
  pub moves : 0 < length bytes → 0 < k
  pub payload_eq : b'.payload ≡ b.payload ++ take k bytes
  pub small : length b'.payload ≤ 248
  pub outcome :
      (b'.finished ≡ true)
      ⊎ ((b'.finished ≡ false) × (length b'.payload < 248) × (k ≡ length bytes))

room_eq : (b : OutBuffer) → length b.payload < 248 → room b ≡ 248 - length b.payload
room_eq b h = omega arith

pub write-Wrote :
    (b : OutBuffer) (bytes : List ℕ)
    → b.finished ≡ false
    → length b.payload < 248
    → (k : ℕ) × (b' : OutBuffer) × (write b bytes ≡ some (k, b')) × Wrote b bytes k b'
unfolding write
write-Wrote b bytes open_ h =
    let r = room_eq b h in
    let some_room : ltb 0 (room b) ≡ true = lt→ltb 0 (room b) (omega arith) in
    elim (Bool-cases (leb (room b) (length bytes))) [
      | inl full ↦
          let b' : OutBuffer = record b {
            payload = b.payload ++ take (room b) bytes;
            flushed = true;
            finished = true;
            expiration = 0;
          } in
          (
            room b,
            b',
            rw (write, open_, some_room, full),
            record {
              within = leb→le _ _ full;
              moves = λ p. omega arith;
              payload_eq = refl;
              small = omega (
                arith,
                length-append b.payload (take (room b) bytes),
                length-take (room b) bytes,
              );
              outcome = inl refl;
            },
          )
      | inr fits ↦
          let lt = leb-false (room b) (length bytes) fits in
          let b' : OutBuffer = record b { payload = b.payload ++ bytes } in
          (
            length bytes,
            b',
            rw (write, open_, some_room, fits),
            record {
              within = omega arith;
              moves = λ p. p;
              payload_eq =
                  ap (λ xs. b.payload ++ xs) (sym (take_all (length bytes) bytes (omega arith)));
              small = omega (arith, length-append b.payload bytes);
              outcome = inr (open_, omega (arith, length-append b.payload bytes), refl);
            },
          )
    ]

-- A finished buffer takes nothing, full or not.
pub write_finished :
    (b : OutBuffer) (bytes : List ℕ) → b.finished ≡ true → write b bytes ≡ some (0, b)
unfolding write
write_finished b bytes e = rw (write, e) refl

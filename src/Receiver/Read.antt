-- ===== src/Receiver/Read.antt =====
-- `tryRead`, `peek` and `availableForRead` of roo_transport/link/internal/receiver.cpp.
use roo_transport.Prelude.{
  ℕ, zero, suc, ◌+◌, ◌-◌, ◌%◌, Bool, true, false, ltb, leb, Option, none, some, List, [], ◌++◌,
  length, take, drop, get_or, set, if◌then◌else◌, check, ◌>>=◌, ◌>>◌,
}
use roo_transport.Ring
use roo_transport.InBuffer
use roo_transport.InBuffer.{InBuffer, ContentType}
use roo_transport.Receiver.{Receiver, State, slot, set_idle, is_unset}

-- Points at the first buffer of the window if at none, unless the window is empty.
unfoldable pub open_buffer : Receiver → Option (ℕ × Receiver)
open_buffer r = elim r.current [
  | some i ↦ some (i, r)
  | none ↦
      if Ring.is_empty r.ring
      then none
      else (let i = Ring.offset_for r.ring r.ring.begin in
          some (i, record r { current = some i; current_pos = 0 }))
]

-- What is left when the window is empty: a broken connection becomes idle.
unfoldable pub at_end : Receiver → Receiver
unfolding set_idle
at_end r = elim r.state [ State.broken ↦ set_idle r | _ ↦ r ]

-- A buffer that was read to its end goes.
unfoldable pub release : Receiver → ℕ → Option Receiver
release r i = do
  (s, ring) ← Ring.pop r.ring
  some (record r {
    in_buffers = set r.in_buffers i InBuffer.clear;
    current = none;
    himark_expiration = 0;
    ring = ring;
  })

-- The loop: `out` is what was copied to `buf` so far, `count` what is still wanted.
unfoldable pub read_loop : ℕ → Receiver → ℕ → List ℕ → Bool → Option (List ℕ × Bool × Receiver)
read_loop zero r count out ready = none
read_loop (suc fuel) r count out ready = elim (open_buffer r) [
  | none ↦ some (out, ready, at_end r)
  | some (i, u) ↦
      let b = slot u i in
      elim (is_unset b) [
        | true ↦ some (out, ready, u)
        | false ↦ do
          check (leb u.current_pos (length b.payload))
          let rest = drop u.current_pos b.payload
          elim (ltb count (length rest)) [
            | true ↦ some (
              out ++ take count rest,
              ready,
              record u { current_pos = (u.current_pos + count) % 256 },
            )
            | false ↦ do
              v ← release u i
              elim b.type [
                | ContentType.fin ↦ do
                  check (Ring.is_empty v.ring)
                  some (out ++ rest, true, record v { end_of_stream = true })
                | _ ↦ elim (ltb 0 (count - length rest)) [
                  | true ↦ read_loop fuel v (count - length rest) (out ++ rest) true
                  | false ↦ some (out ++ rest, true, v)
                ]
              ]
          ]
      ]
]

-- `tryRead(buf, count, outgoing_data_ready)`: the bytes read, the flag and the new state. Each round
-- but the last frees a slot, so the fuel covers the rounds.
unfoldable pub try_read : Receiver → ℕ → Option (List ℕ × Bool × Receiver)
try_read r count = elim r.state [
  | State.connecting ↦ some ([], false, r)
  | State.idle ↦ some ([], false, r)
  | _ ↦ read_loop (Ring.slots_used r.ring + 1) r count [] false
]

-- `peek()`: `none` is -1. The byte is that at `current_in_buffer_pos_`.
unfoldable pub peek : Receiver → Option ℕ × Receiver
unfolding open_buffer slot
peek r = elim (open_buffer r) [
  | none ↦ (none, r)
  | some (i, u) ↦ elim (slot u i).type [
    | ContentType.content ↦ (some (get_or (slot u i).payload u.current_pos 0), u)
    | _ ↦ (none, u)
  ]
]

unfoldable pub available_for_read : Receiver → ℕ × Receiver
unfolding open_buffer slot
available_for_read r = elim (open_buffer r) [
  | none ↦ (0, r)
  | some (i, u) ↦ elim (slot u i).type [
    | ContentType.unset ↦ (0, u)
    | ContentType.fin ↦ (1, u)
    | ContentType.content ↦ (length (slot u i).payload - u.current_pos, u)
  ]
]

-- ===== src/Receiver/Inv.antt =====
-- What holds of a receiver between two calls.
use roo_transport.Prelude.{
  ℕ, ◌+◌, ◌%◌, ◌≤◌, ◌<◌, ◌≡◌, ◌≢◌, true, Option, none, some, List, length, All,
}
use roo_transport.Seq.{seq_add}
use roo_transport.Ring.{RingBuffer, capacity, slots_used}
use roo_transport.Ring.Window.{IsValid}
use roo_transport.InBuffer.{InBuffer, ContentType}
use roo_transport.Receiver.{Receiver}
use roo_transport.Receiver.Stream.{stream, at}

-- The most that a buffer of a type holds.
abbrev pub limit : ContentType → ℕ
limit ContentType.unset = 0
limit ContentType.content = 248
limit ContentType.fin = 248

abbrev pub IsSmall : InBuffer → Type 0
IsSmall b = length b.payload ≤ limit b.type

-- How much of the first buffer is read.
abbrev pub skipped : Receiver → ℕ
skipped r = elim r.current [ none ↦ 0 | some _ ↦ r.current_pos ]

-- The bytes that `tryRead` can deliver.
abbrev pub pending : Receiver → List ℕ
pending r = stream r.ring.capacity_log2 r.in_buffers (slots_used r.ring) r.ring.begin (skipped r)

-- The buffer at a distance from the start of the window.
abbrev pub nth : Receiver → ℕ → InBuffer
nth r k = at r.ring.capacity_log2 r.in_buffers (seq_add r.ring.begin k)

-- A current buffer is the first of the window, and is read no further than it is filled.
abbrev pub IsCursor : RingBuffer → List InBuffer → ℕ → Option ℕ → Type 0
IsCursor ring bufs pos none = Unit
IsCursor ring bufs pos (some i) =
    (0 < slots_used ring)
    × (i ≡ ring.begin % capacity ring)
    × (pos ≤ length (at ring.capacity_log2 bufs ring.begin).payload)

pub record Inv (r : Receiver) : Type 0 where
  pub window : IsValid r.ring
  pub storage : length r.in_buffers ≡ capacity r.ring
  pub sizes : All IsSmall r.in_buffers
  pub cursor : IsCursor r.ring r.in_buffers r.current_pos r.current
  -- Nothing is behind the final packet, and it is known to have come.
  pub final_last : (k : ℕ) → k + 1 < slots_used r.ring → (nth r k).type ≢ ContentType.fin
  pub final_closed :
      (k : ℕ) → k < slots_used r.ring → (nth r k).type ≡ ContentType.fin → r.peer_closed ≡ true

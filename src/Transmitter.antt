-- ===== src/Transmitter.antt =====
-- roo_transport/link/internal/transmitter.h and transmitter.cpp: the sending half of a stream.
-- Operations that hold a CHECK return an option, and `none` is the abort. DCHECKs and log lines,
-- which change no state, are left out.
pub mod Send
pub mod Ack
pub mod Queue
pub mod WriteLaws
pub mod WriteLoop
pub mod Same
pub mod Skips
pub mod PopLaws
pub mod AckLaws
pub mod SendLaws
use roo_transport.Prelude.{
  ℕ, zero, suc, ◌+◌, ◌-◌, ◌^◌, Bool, true, false, ltb, ◌==◌, ◌||◌, Option, none, some, List, [],
  ◌∷◌, length, drop, replicate, get_or, set, if◌then◌else◌, check, ◌>>=◌, ◌>>◌,
}
use roo_transport.Seq.{SeqNum, seq_ge, seq_add}
use roo_transport.Ring
use roo_transport.Ring.{RingBuffer}
use roo_transport.OutBuffer
use roo_transport.OutBuffer.{OutBuffer}

pub data State : Type 0 where
  idle connecting connected broken : State

-- `current` is the slot that `current_out_buffer_` points at.
pub record Transmitter : Type 0 where
  pub my_stream_id : ℕ
  pub state : State
  pub end_of_stream : Bool
  pub out_buffers : List OutBuffer
  pub current : Option ℕ
  pub ring : RingBuffer
  pub next_to_send : SeqNum
  pub recv_himark : SeqNum
  pub has_pending_eof : Bool
  pub packets_sent : ℕ
  pub packets_delivered : ℕ
  pub peer_receive_buffer_size : ℕ
  pub control_bit : Bool

unfoldable pub new_transmitter : ℕ → Option Transmitter
new_transmitter sendbuf_log2 = do
  ring ← Ring.new_ring sendbuf_log2 0
  some (record {
    my_stream_id = 0;
    state = State.idle;
    end_of_stream = false;
    out_buffers = replicate (2 ^ sendbuf_log2) OutBuffer.new_out_buffer;
    current = none;
    ring = ring;
    next_to_send = 0;
    recv_himark = seq_add 0 (2 ^ sendbuf_log2);
    has_pending_eof = false;
    packets_sent = 0;
    packets_delivered = 0;
    peer_receive_buffer_size = 0;
    control_bit = false;
  })

-- The buffer in a slot, and `getOutBuffer(seq)`.
unfoldable pub slot : Transmitter → ℕ → OutBuffer
slot t i = get_or t.out_buffers i OutBuffer.new_out_buffer

unfoldable pub get_out_buffer : Transmitter → SeqNum → OutBuffer
unfolding slot
get_out_buffer t seq = slot t (Ring.offset_for t.ring seq)

unfoldable pub put_out_buffer : Transmitter → SeqNum → OutBuffer → Transmitter
put_out_buffer t seq b = record t { out_buffers = set t.out_buffers (Ring.offset_for t.ring seq) b }

-- The part of `tryWrite` that finds the buffer to write to: `some none` is a `break`.
unfoldable pub open_buffer : Transmitter → Option (Option (ℕ × Transmitter))
open_buffer t = elim t.current [
  | some i ↦ some (some (i, t))
  | none ↦ if t.recv_himark == t.ring.end || Ring.slots_free t.ring == 0 then some none else do
    (pos, ring) ← Ring.push t.ring
    let i = Ring.offset_for ring pos
    some (
        some (
          i,
          record t {
            ring = ring;
            current = some i;
            out_buffers = set t.out_buffers i (OutBuffer.init pos t.control_bit);
          },
        ))
]

-- The rest of the loop body: `total` and `ready` are `total_written` and `outgoing_data_ready`.
unfoldable pub write_loop : ℕ → Transmitter → List ℕ → ℕ → Bool → Option (ℕ × Bool × Transmitter)
write_loop zero t bytes total ready = none
write_loop (suc fuel) t bytes total ready = do
  check (seq_ge t.recv_himark t.ring.end)
  opened ← open_buffer t
  elim opened [
    | none ↦ some (total, ready, t)
    | some (i, u) ↦ do
      (written, b) ← OutBuffer.write (get_or u.out_buffers i OutBuffer.new_out_buffer) bytes
      let rest = drop written bytes
      let v : Transmitter = record u {
        out_buffers = set u.out_buffers i b;
        current = if b.finished then none else u.current;
      }
      let ready' : Bool = ready || b.finished
      elim rest [
        | [] ↦ some (total + written, ready', v)
        | y ∷ ys ↦ write_loop fuel v (y ∷ ys) (total + written) ready'
      ]
  ]

-- `tryWrite(buf, count, outgoing_data_ready)`: the bytes taken, the flag, and the new state.
-- A round writes a byte or leaves a finished buffer, so the fuel covers the rounds.
unfoldable pub try_write : Transmitter → List ℕ → Option (ℕ × Bool × Transmitter)
try_write t [] = some (0, false, t)
try_write t (b ∷ bs) = if t.end_of_stream then some (0, false, t) else elim t.state [
  | State.idle ↦ some (0, false, t)
  | State.broken ↦ some (0, false, t)
  | _ ↦ write_loop (length bs + length bs + 4) t (b ∷ bs) 0 false
]

unfoldable pub flush : Transmitter → Bool × Transmitter
unfolding slot
flush t = elim t.current [
  | some i ↦ (true, record t { out_buffers = set t.out_buffers i (OutBuffer.flush (slot t i)) })
  | none ↦ (false, t)
]

unfoldable pub has_pending_data : Transmitter → Bool
has_pending_data t = if Ring.is_empty t.ring then false else true

unfoldable pub add_eos_packet : Transmitter → Option Transmitter
add_eos_packet t = do
  (pos, ring) ← Ring.push t.ring
  some (record t {
    ring = ring;
    out_buffers =
        set t.out_buffers (Ring.offset_for ring pos)
          (OutBuffer.finish (OutBuffer.mark_final (OutBuffer.init pos t.control_bit)));
  })

unfoldable pub close_open : Transmitter → Option Transmitter
unfolding flush add_eos_packet
close_open t = do
  let (flushed, u) = flush t
  v ←
      (if Ring.slots_free u.ring == 0
        then some (record u { has_pending_eof = true })
        else add_eos_packet u)
  some (record v { end_of_stream = true })

unfoldable pub close : Transmitter → Option Transmitter
unfolding close_open
close t = elim t.state [
  | State.broken ↦ some (record t { state = State.idle })
  | State.idle ↦ some t
  | _ ↦ if t.end_of_stream then some t else close_open t
]

-- `while (!out_ring_.empty()) out_ring_.pop();`
unfoldable pub drain : ℕ → RingBuffer → Option RingBuffer
drain zero r = if Ring.is_empty r then some r else none
drain (suc fuel) r = elim (Ring.is_empty r) [
  | true ↦ some r
  | false ↦ do (s, r') ← Ring.pop r; drain fuel r'
]

unfoldable pub set_broken : Transmitter → Option Transmitter
unfolding drain
set_broken t = do
  ring ← drain (Ring.slots_used t.ring) t.ring
  some (record t { ring = ring; state = State.broken })

unfoldable pub available_for_write : Transmitter → ℕ
available_for_write t =
    if t.end_of_stream
    then 0
    else elim t.state [ State.idle ↦ 0 | State.broken ↦ 0 | _ ↦ Ring.slots_free t.ring ]

unfoldable pub set_connected : Transmitter → ℕ → Bool → Transmitter
set_connected t size bit = record t {
  state = State.connected;
  peer_receive_buffer_size = size;
  control_bit = bit;
  recv_himark = seq_add t.ring.begin size;
}

unfoldable pub reset : Transmitter → Option Transmitter
unfolding drain
reset t = do
  ring ← drain (Ring.slots_used t.ring) t.ring
  some (record t {
    ring = ring;
    end_of_stream = false;
    my_stream_id = 0;
    state = State.idle;
    current = none;
    has_pending_eof = false;
  })

unfoldable pub init : Transmitter → ℕ → SeqNum → Option Transmitter
unfolding drain
init t my_stream_id new_start = do
  drained ← drain (Ring.slots_used t.ring) t.ring
  ring ← Ring.reset drained new_start
  some (record t {
    my_stream_id = my_stream_id;
    state = State.connecting;
    end_of_stream = false;
    ring = ring;
    recv_himark = ring.begin;
    next_to_send = ring.begin;
    current = none;
    has_pending_eof = false;
  })

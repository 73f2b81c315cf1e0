-- ===== src/Receiver.antt =====
-- roo_transport/link/internal/receiver.h and receiver.cpp: the receiving half of a stream.
-- Operations that hold a CHECK return an option, and `none` is the abort. DCHECKs and log lines,
-- which change no state, are left out. Times are microseconds, and `Uptime::Start()` is 0.
pub mod Read
pub mod Packet
pub mod Control
pub mod Stream
pub mod Inv
pub mod Shift
pub mod ReadLaws
pub mod ReadLoop
pub mod Extend
pub mod Fill
pub mod Unack
pub mod Accept
pub mod PacketLaws
pub mod Arrive
pub mod Session
use roo_transport.Prelude.{
  ℕ, zero, suc, ◌+◌, ◌-◌, ◌^◌, Bool, true, false, ◌||◌, ◌&&◌, Option, none, some, List, replicate,
  get_or, set, if◌then◌else◌, check, ◌>>=◌, ◌>>◌,
}
use roo_transport.Seq.{SeqNum, seq_add}
use roo_transport.Ring
use roo_transport.Ring.{RingBuffer}
use roo_transport.InBuffer
use roo_transport.InBuffer.{InBuffer, ContentType}

pub data State : Type 0 where
  idle connecting connected broken : State

-- `current` is the slot that `current_in_buffer_` points at.
pub record Receiver : Type 0 where
  pub my_stream_id : ℕ
  pub state : State
  pub self_closed : Bool
  pub peer_closed : Bool
  pub end_of_stream : Bool
  pub in_buffers : List InBuffer
  pub current : Option ℕ
  pub current_pos : ℕ
  pub ring : RingBuffer
  pub needs_ack : Bool
  pub unack_seq : ℕ
  pub recv_himark : SeqNum
  pub himark_expiration : ℕ
  pub packets_received : ℕ
  pub control_bit : Bool

-- The constructor leaves `control_bit_` as it finds it.
unfoldable pub new_receiver : ℕ → Bool → Option Receiver
new_receiver recvbuf_log2 garbage = do
  ring ← Ring.new_ring recvbuf_log2 0
  some (record {
    my_stream_id = 0;
    state = State.idle;
    self_closed = false;
    peer_closed = false;
    end_of_stream = false;
    in_buffers = replicate (2 ^ recvbuf_log2) InBuffer.clear;
    current = none;
    current_pos = 0;
    ring = ring;
    needs_ack = false;
    unack_seq = 0;
    recv_himark = seq_add 0 (2 ^ recvbuf_log2);
    himark_expiration = 0;
    packets_received = 0;
    control_bit = garbage;
  })

-- The buffer in a slot, and `getInBuffer(seq)`.
unfoldable pub slot : Receiver → ℕ → InBuffer
slot r i = get_or r.in_buffers i InBuffer.clear

unfoldable pub get_in_buffer : Receiver → SeqNum → InBuffer
unfolding slot
get_in_buffer r seq = slot r (Ring.offset_for r.ring seq)

unfoldable pub put_in_buffer : Receiver → SeqNum → InBuffer → Receiver
put_in_buffer r seq b = record r { in_buffers = set r.in_buffers (Ring.offset_for r.ring seq) b }

abbrev pub is_unset : InBuffer → Bool
is_unset b = elim b.type [ ContentType.unset ↦ true | _ ↦ false ]

unfoldable pub set_connected : Receiver → SeqNum → Bool → Option Receiver
set_connected r peer_seq_num control_bit = do
  check (Ring.is_empty r.ring)
  ring ← Ring.reset r.ring peer_seq_num
  some (record r {
    ring = ring;
    unack_seq = peer_seq_num;
    state = State.connected;
    control_bit = control_bit;
  })

unfoldable pub set_idle : Receiver → Receiver
set_idle r = record r {
  state = State.idle;
  peer_closed = false;
  self_closed = false;
  end_of_stream = false;
}

-- The code leaves `state_` alone where something is still buffered.
unfoldable pub set_broken : Receiver → Receiver
unfolding set_idle
set_broken r =
    if Ring.is_empty r.ring
    then set_idle r
    else record r { peer_closed = true; self_closed = false; end_of_stream = false }

unfoldable pub done : Receiver → Bool
done r = Ring.is_empty r.ring && (r.end_of_stream || r.self_closed || r.peer_closed)

-- `do { in_ring_.pop(); } while (!in_ring_.empty());` and the loops that test first.
unfoldable pub drain : ℕ → RingBuffer → Option RingBuffer
drain zero r = if Ring.is_empty r then some r else none
drain (suc fuel) r = elim (Ring.is_empty r) [
  | true ↦ some r
  | false ↦ do (s, r') ← Ring.pop r; drain fuel r'
]

-- `markInputClosed(outgoing_data_ready)`: the flag is set to true, or left alone.
unfoldable pub mark_input_closed : Receiver → Bool → Option (Bool × Receiver)
unfolding drain
mark_input_closed r ready =
    if Ring.is_empty r.ring then some (ready, record r { self_closed = true }) else (do
      ring ← drain (Ring.slots_used r.ring) r.ring
      some (true, record r { self_closed = true; himark_expiration = 0; ring = ring }))

-- `while (!in_ring_.empty()) { getInBuffer(in_ring_.begin()).clear(); in_ring_.pop(); }`
unfoldable pub clear_all : ℕ → Receiver → Option Receiver
unfolding put_in_buffer
clear_all zero r = if Ring.is_empty r.ring then some r else none
clear_all (suc fuel) r = elim (Ring.is_empty r.ring) [
  | true ↦ some r
  | false ↦ do
    let u = put_in_buffer r r.ring.begin InBuffer.clear
    (s, ring) ← Ring.pop u.ring
    clear_all fuel (record u { ring = ring })
]

unfoldable pub reset : Receiver → Option Receiver
unfolding clear_all
reset r = do
  u ← clear_all (Ring.slots_used r.ring) (record r {
    my_stream_id = 0;
    state = State.idle;
    peer_closed = false;
    self_closed = false;
    end_of_stream = false;
  })
  some (record u { current = none; current_pos = 0; needs_ack = false; himark_expiration = 0 })

unfoldable pub init : Receiver → ℕ → Option Receiver
unfolding drain
init r my_stream_id = do
  ring ← drain (Ring.slots_used r.ring) r.ring
  some (record r {
    ring = ring;
    my_stream_id = my_stream_id;
    peer_closed = false;
    self_closed = false;
    end_of_stream = false;
    state = State.connecting;
  })

-- ===== src/Receiver/Session.antt =====
-- A receiver during one connection: packets of the peer's stream arrive in any order, any number of
-- times, or not at all; packets that the receiver's own side sent may come back; the sender asks for
-- acknowledgements and limits; and the user reads, peeks and asks what is available. What ends the
-- connection (`markInputClosed`, `setBroken`, `reset`, `init`) is no step of it.
pub mod Window
pub mod Fresh
pub mod Quiet
pub mod Laws
pub mod InOrder
use roo_transport.Prelude.{
  ℕ, zero, suc, ◌+◌, ◌%◌, ◌≤◌, ◌<◌, ◌≡◌, ◌==◌, Bool, false, none, some, All, List, [], ◌++◌, length,
}
use roo_transport.Seq.{SeqNum, sub16, seq_add}
use roo_transport.Io.{MemoryIo}
use roo_transport.Ring.{capacity}
use roo_transport.Ring.Window.{IsValid}
use roo_transport.Receiver.{Receiver, init, set_connected}
use roo_transport.Receiver.Read.{try_read, peek, available_for_read}
use roo_transport.Receiver.Control.{ack, update_recv_himark}
use roo_transport.Receiver.Packet.{Outcome, handle_data_packet}
use roo_transport.Receiver.Inv.{IsSmall}

-- What the peer sends: the payloads of its packets, of which the one numbered `last` is final.
pub record Peer : Type 0 where
  pub start : SeqNum
  pub payload : ℕ → List ℕ
  pub last : ℕ

abbrev pub is_final : Peer → ℕ → Bool
is_final p k = k == p.last

-- The bytes of `n` packets, from packet `lo` on.
unfoldable pub content : Peer → ℕ → ℕ → List ℕ
content p lo zero = []
content p lo (suc n) = p.payload lo ++ content p (lo + 1) n

-- `base` packets have been read whole; `delivered` is all that reads have returned.
pub record Session : Type 0 where
  pub receiver : Receiver
  pub base : ℕ
  pub delivered : List ℕ

abbrev pub with_receiver : Session → Receiver → Session
with_receiver s r = record s { receiver = r }

abbrev pub after_read : Session → List ℕ → Receiver → Session
after_read s out r = record {
  receiver = r;
  base = s.base + sub16 r.ring.begin s.receiver.ring.begin;
  delivered = s.delivered ++ out;
}

-- Packet `k` is in transit at a time when the reader is near it.
abbrev pub IsNear : Peer → Session → ℕ → Type 0
IsNear p s k = (k ≤ p.last) × (k < s.base + 2048) × (s.base ≤ k + 2048)

pub data Step (p : Peer) (s : Session) : Session → Type 0 where
  packet :
      (k : ℕ) (control_bit : Bool) (a : Outcome)
      → IsNear p s k
      → handle_data_packet s.receiver control_bit
          (seq_add p.start k % 4096)
          (p.payload k)
          (is_final p k)
        ≡ some a
      → Step p s (with_receiver s a.after)
  echo :
      (seq_id : ℕ) (payload : List ℕ) (final : Bool) (a : Outcome)
      → handle_data_packet s.receiver s.receiver.control_bit seq_id payload final ≡ some a
      → Step p s (with_receiver s a.after)
  peek_step : Step p s (with_receiver s (peek s.receiver).1)
  available_step : Step p s (with_receiver s (available_for_read s.receiver).1)
  ack_step : (io : MemoryIo) → Step p s (with_receiver s (ack io s.receiver).1)
  himark_step :
      (io : MemoryIo) (next_send_micros now : ℕ)
      → Step p s (with_receiver s (update_recv_himark io s.receiver next_send_micros now).2)
  read :
      (count : ℕ) (out : List ℕ) (ready : Bool) (r : Receiver)
      → try_read s.receiver count ≡ some (out, ready, r)
      → Step p s (after_read s out r)

-- A receiver that has just been initialized and got the peer's first sequence number. Before that,
-- no packet was half read: the code keeps the reader's place (see Tests.ChannelTests.stale_byte).
pub record IsFresh (p : Peer) (r : Receiver) : Type 0 where
  pub before : Receiver
  pub connecting : Receiver
  pub stream_id : ℕ
  pub bit : Bool
  pub window : IsValid before.ring
  pub storage : length before.in_buffers ≡ capacity before.ring
  pub sizes : All IsSmall before.in_buffers
  pub no_current : before.current ≡ none
  pub start_lt : p.start < 65536
  pub init_eq : init before stream_id ≡ some connecting
  pub connect_eq : set_connected connecting p.start bit ≡ some r

abbrev pub begun : Receiver → Session
begun r = record { receiver = r; base = 0; delivered = [] }

pub data Reach (p : Peer) (r : Receiver) : Session → Type 0 where
  start : Reach p r (begun r)
  later : {s t : Session} → Reach p r s → Step p s t → Reach p r t

-- ===== src/Guarded.antt =====
-- roo_transport/link/internal/thread_safe/thread_safe_transmitter.cpp and thread_safe_receiver.cpp:
-- each call holds the mutex, so it is one step; it checks that the caller's stream is the one of the
-- object. Where a call waits, a step ends with `waits`, and the next one starts from the state that
-- the others have left. Notifications of condition variables change no state.
use roo_transport.Prelude.{
  ℕ, Bool, true, false, ltb, ◌==◌, not, Option, none, some, List, [], ◌∷◌, if◌then◌else◌, ◌>>=◌,
}
use roo_transport.OutBuffer.{OutBuffer, Random}
use roo_transport.Transmitter
use roo_transport.Transmitter.{Transmitter}
use roo_transport.Transmitter.Send
use roo_transport.Transmitter.Send.{Clock}
use roo_transport.Receiver
use roo_transport.Receiver.{Receiver}
use roo_transport.Receiver.Read

-- The values of `roo_io::Status` that are used here.
pub data Status : Type 0 where
  ok end_of_stream connection_error : Status

-- `checkConnectionStatus` of the transmitter.
unfoldable pub transmitter_status : Transmitter → ℕ → Status
transmitter_status t id = elim t.state [
  | Transmitter.State.connected ↦
      if id == t.my_stream_id then Status.ok else Status.connection_error
  | Transmitter.State.connecting ↦
      if id == t.my_stream_id then Status.ok else Status.connection_error
  | _ ↦ Status.connection_error
]

-- `checkConnectionStatus` of the receiver.
unfoldable pub receiver_status : Receiver → ℕ → Status
receiver_status r id =
    if not (id == r.my_stream_id) then Status.connection_error else elim r.state [
      | Receiver.State.idle ↦ Status.connection_error
      | _ ↦ if r.end_of_stream then Status.end_of_stream else Status.ok
    ]

-- A call that may wait: it returns a count and a status, or waits for a notification.
pub data Round : Type 0 where
  returns : ℕ → Status → Round
  waits : Round

-- `tryWrite`: the count, the status, the flag `outgoing_data_ready` and the new state.
unfoldable pub try_write : Transmitter → List ℕ → ℕ → Option (ℕ × Status × Bool × Transmitter)
try_write t bytes id = elim (transmitter_status t id) [
  | Status.ok ↦ do (n, ready, u) ← Transmitter.try_write t bytes; some (n, Status.ok, ready, u)
  | s ↦ some (0, s, false, t)
]

-- One round of the loop of `write`; the first one follows a check, the others a wait.
unfoldable pub write_round : Transmitter → List ℕ → ℕ → Option (Round × Bool × Transmitter)
write_round t bytes id = do
  (n, ready, u) ← Transmitter.try_write t bytes
  (if ltb 0 n then some (Round.returns n Status.ok, ready, u) else elim (transmitter_status u id) [
    | Status.ok ↦ some (Round.waits, ready, u)
    | s ↦ some (Round.returns 0 s, ready, u)
  ])

-- `write` up to its first wait.
unfoldable pub write : Transmitter → List ℕ → ℕ → Option (Round × Bool × Transmitter)
write t bytes id = elim (transmitter_status t id) [
  | Status.ok ↦ write_round t bytes id
  | s ↦ some (Round.returns 0 s, false, t)
]

unfoldable pub flush : Transmitter → ℕ → Status × Bool × Transmitter
flush t id = elim (transmitter_status t id) [
  | Status.ok ↦ let (ready, u) = Transmitter.flush t in (Status.ok, ready, u)
  | s ↦ (s, false, t)
]

-- `close` up to its first wait: it waits until all data are acknowledged.
unfoldable pub close : Transmitter → ℕ → Option (Round × Bool × Transmitter)
close t id = elim (transmitter_status t id) [
  | Status.ok ↦ do
    u ← Transmitter.close t
    some
        (if Transmitter.has_pending_data u then Round.waits else Round.returns 0 Status.ok, true, u)
  | s ↦ some (Round.returns 0 s, false, t)
]

-- The loop of `close` after a wait.
unfoldable pub close_round : Transmitter → ℕ → Round
close_round t id =
    if not (Transmitter.has_pending_data t)
    then Round.returns 0 Status.ok
    else elim (transmitter_status t id) [ Status.ok ↦ Round.waits | s ↦ Round.returns 0 s ]

unfoldable pub available_for_write : Transmitter → ℕ → ℕ × Status
available_for_write t id = elim (transmitter_status t id) [
  | Status.ok ↦ (Transmitter.available_for_write t, Status.ok)
  | s ↦ (0, s)
]

-- `send`: the buffer to send, whose bytes are its header and its payload.
unfoldable pub send : Transmitter → ℕ → Clock → Random → Option OutBuffer × ℕ × Transmitter
send t next_send_micros clock rand =
    Transmitter.Send.get_buffer_to_send t next_send_micros clock rand

-- `tryRead`: the bytes, the status, the flag `outgoing_data_ready` and the new state.
unfoldable pub try_read : Receiver → ℕ → ℕ → Option (List ℕ × Status × Bool × Receiver)
try_read r count id =
    if count == 0 then some ([], Status.ok, false, r) else elim (receiver_status r id) [
      | Status.ok ↦ do
        (bytes, ready, u) ← Receiver.Read.try_read r count
        some (bytes, Status.ok, ready, u)
      | s ↦ some ([], s, false, r)
    ]

-- What a round of `read` comes to.
pub data ReadRound : Type 0 where
  read_returns : List ℕ → Status → ReadRound
  read_waits : ReadRound

-- One round of the loop of `read`.
unfoldable pub read_round : Receiver → ℕ → ℕ → Option (ReadRound × Bool × Receiver)
read_round r count id = do
  (bytes, ready, u) ← Receiver.Read.try_read r count
  elim bytes [
    | x ∷ xs ↦ some (ReadRound.read_returns (x ∷ xs) Status.ok, ready, u)
    | [] ↦ elim (receiver_status u id) [
      | Status.ok ↦ some (ReadRound.read_waits, ready, u)
      | s ↦ some (ReadRound.read_returns [] s, ready, u)
    ]
  ]

-- `read` up to its first wait.
unfoldable pub read : Receiver → ℕ → ℕ → Option (ReadRound × Bool × Receiver)
read r count id =
    if count == 0
    then some (ReadRound.read_returns [] Status.ok, false, r)
    else elim (receiver_status r id) [
      | Status.ok ↦ read_round r count id
      | s ↦ some (ReadRound.read_returns [] s, false, r)
    ]

unfoldable pub peek : Receiver → ℕ → Option ℕ × Status × Receiver
peek r id = elim (receiver_status r id) [
  | Status.ok ↦ let (byte, u) = Receiver.Read.peek r in (byte, Status.ok, u)
  | s ↦ (none, s, r)
]

unfoldable pub available_for_read : Receiver → ℕ → ℕ × Status × Receiver
available_for_read r id = elim (receiver_status r id) [
  | Status.ok ↦ let (n, u) = Receiver.Read.available_for_read r in (n, Status.ok, u)
  | s ↦ (0, s, r)
]

unfoldable pub mark_input_closed : Receiver → ℕ → Option (Status × Bool × Receiver)
mark_input_closed r id = elim (receiver_status r id) [
  | Status.ok ↦ do (ready, u) ← Receiver.mark_input_closed r false; some (Status.ok, ready, u)
  | s ↦ some (s, false, r)
]

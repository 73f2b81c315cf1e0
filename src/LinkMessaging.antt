-- ===== src/LinkMessaging.antt =====
-- roo_transport/link/link_messaging.h and link_messaging.cpp: messages over the byte stream of a link.
-- The link is what it shows of itself: its status, its stream number, and the bytes that it takes
-- and gives.
pub mod Framing
use roo_transport.Prelude.{
  ℕ, zero, suc, ◌+◌, ◌%◌, ◌^◌, Bool, true, false, ◌==◌, ltb, not, if◌then◌else◌, Option, none, some,
  List, [], ◌∷◌, ◌++◌, length, take, drop, ◌>>=◌,
}
use roo_transport.Io.{MemoryIo}
use roo_transport.Channel.{LinkStatus}

pub record LinkMessaging : Type 0 where
  pub closed : Bool
  pub status : LinkStatus
  pub stream_id : ℕ

-- What the receiver of messages is given: `received` and `reset`.
pub data Event : Type 0 where
  received : (connection_id : ℕ) (message : List ℕ) → Event
  reset : (connection_id : ℕ) → Event

-- A call of `send` returns, or waits for `reconnected_`.
pub data Sending : Type 0 where
  returns : (accepted : Bool) (connection_id : ℕ) (bytes : List ℕ) → Sending
  waits : Sending

module _ (io : MemoryIo) where
  -- `sendInternal`: the bytes that go to the stream, and whether it is still open after them.
  unfoldable pub send_internal : List ℕ → List ℕ → Bool → Bool × List ℕ
  send_internal header payload is_open =
      (is_open, io.store_be_u32 ((length header + length payload) % 2 ^ 32) ++ header ++ payload)

  -- One round of the loop of `send`.
  unfoldable pub send : LinkMessaging → List ℕ → List ℕ → Bool → Sending
  unfolding send_internal
  send m header payload is_open =
      let (accepted, bytes) = send_internal header payload is_open in
      if m.closed then Sending.returns false 0 [] else elim m.status [
        | LinkStatus.connected ↦ Sending.returns accepted m.stream_id bytes
        | LinkStatus.connecting ↦ Sending.returns accepted m.stream_id bytes
        | _ ↦ Sending.waits
      ]

  unfoldable pub send_continuation : LinkMessaging → ℕ → List ℕ → List ℕ → Bool → Bool × List ℕ
  unfolding send_internal
  send_continuation m connection_id header payload is_open =
      if m.closed
      then (false, [])
      else if not (m.stream_id == connection_id)
      then (false, [])
      else send_internal header payload is_open

  -- The inner loop of `receiveLoop`, on all the bytes that the stream gives before it ends or
  -- breaks. A round that does not end the loop takes at least four bytes.
  unfoldable pub receive_loop : ℕ → ℕ → ℕ → List ℕ → Option (List Event)
  receive_loop zero max connection_id bytes = none
  receive_loop (suc fuel) max connection_id bytes = elim (ltb (length (take 4 bytes)) 4) [
    | true ↦ some (Event.reset connection_id ∷ [])
    | false ↦
        let incoming_size = io.load_be_u32 (take 4 bytes) in
        elim (ltb max incoming_size) [
          | true ↦ some (Event.reset connection_id ∷ [])
          | false ↦
              let message = take incoming_size (drop 4 bytes) in
              elim (ltb (length message) incoming_size) [
                | true ↦ some (Event.reset connection_id ∷ [])
                | false ↦ do
                  rest ← receive_loop fuel max connection_id (drop incoming_size (drop 4 bytes))
                  some (Event.received connection_id message ∷ rest)
              ]
        ]
  ]

-- ===== src/Rpc/Client.antt =====
-- roo_transport/rpc/client.h and client.cpp: calls, and their completion. Each critical section of a
-- mutex is one operation. A call is the name of a shared `OutgoingCall`, whose callback the table
-- `callbacks` holds until it is moved out or set to null.
pub mod Laws
pub mod Once
use roo_transport.Prelude.{
  ℕ, ◌+◌, Bool, true, false, ltb, if◌then◌else◌, check, Option, none, some, List, [], ◌∷◌, ◌++◌,
  length, ◌>>=◌, ◌>>◌,
}
use roo_transport.Table.{Table, lookup, insert, erase}
use roo_transport.Rpc.{RpcStatus, status_ok, unavailable}
use roo_transport.Rpc.Header.{
  StreamIo, RpcHeader, is_response, new_unary_request, new_unary_request_timeout, serialize,
  deserialize, response_status, max_serialized_size,
}

pub record RpcClient : Type 0 where
  pub next_stream_id : ℕ
  pub outgoing_calls : Table ℕ
  pub next_call : ℕ
  pub callbacks : Table ℕ

-- A callback that was run, for the call that it belonged to.
pub record Completion : Type 0 where
  pub call : ℕ
  pub callback : ℕ
  pub payload : List ℕ
  pub status : RpcStatus

unfoldable pub new_client : RpcClient
new_client = record { next_stream_id = 1; outgoing_calls = []; next_call = 0; callbacks = [] }

-- `make_shared<OutgoingCall>(cb)`
unfoldable pub new_call : RpcClient → ℕ → ℕ × RpcClient
new_call c cb = (
  c.next_call,
  record c { next_call = c.next_call + 1; callbacks = insert c.callbacks c.next_call cb },
)

-- The identifier and the new state.
unfoldable pub new_stream : RpcClient → ℕ → ℕ × RpcClient
new_stream c call =
    let next = c.next_stream_id + 1 in
    (
      c.next_stream_id,
      record c {
        next_stream_id = if ltb 0xFFFFFF next then 1 else next;
        outgoing_calls = insert c.outgoing_calls c.next_stream_id call;
      },
    )

-- `cancelSend`: the entry goes, and the callback is set to null.
unfoldable pub cancel_send : RpcClient → ℕ → ℕ → RpcClient
cancel_send c stream_id call = record c {
  outgoing_calls = erase c.outgoing_calls stream_id;
  callbacks = erase c.callbacks call;
}

-- `complete`: the callback is moved out, and is run if there is one.
unfoldable pub complete : RpcClient → ℕ → List ℕ → RpcStatus → List Completion × RpcClient
complete c call payload status = elim (lookup c.callbacks call) [
  | none ↦ ([], c)
  | some cb ↦ (
    record { call = call; callback = cb; payload = payload; status = status } ∷ [],
    record c { callbacks = erase c.callbacks call },
  )
]

-- The loop of `connectionReset` over the calls that it took.
unfoldable pub complete_all : RpcClient → Table ℕ → List Completion × RpcClient
unfolding complete
complete_all c [] = ([], c)
complete_all c ((stream_id, call) ∷ calls) =
    let (first, u) = complete c call [] unavailable in
    let (rest, v) = complete_all u calls in (first ++ rest, v)

unfoldable pub connection_reset : RpcClient → List Completion × RpcClient
connection_reset c = complete_all (record c { outgoing_calls = [] }) c.outgoing_calls

module _ (io : StreamIo) where
  -- `sendUnaryRpc` and `sendUnaryRpcWithTimeout`, which differ in the header. `accepted` is what
  -- `messaging_.send` returns; the result has the bytes of the header that it was given.
  unfoldable pub send_call :
      RpcClient → (ℕ → RpcHeader) → ℕ → Bool → Option (RpcStatus × List ℕ × RpcClient)
  send_call c header_of cb accepted = do
    let (call, u) = new_call c cb
    let (stream_id, v) = new_stream u call
    header ← serialize io (header_of stream_id) max_serialized_size
    check (ltb 0 (length header))
    elim accepted [
      | true ↦ some (status_ok, header, v)
      | false ↦ some (unavailable, header, cancel_send v stream_id call)
    ]

  unfoldable pub send_unary_rpc : RpcClient → ℕ → ℕ → Bool → Option (RpcStatus × List ℕ × RpcClient)
  send_unary_rpc c function_id cb accepted =
      send_call c (λ stream_id. new_unary_request function_id stream_id) cb accepted

  unfoldable pub send_unary_rpc_with_timeout :
      RpcClient → ℕ → ℕ → ℕ → Bool → Option (RpcStatus × List ℕ × RpcClient)
  send_unary_rpc_with_timeout c function_id timeout_ms cb accepted =
      send_call c (λ stream_id. new_unary_request_timeout function_id stream_id timeout_ms) cb
        accepted

  -- `handleResponse`: `none` is a failed CHECK.
  unfoldable pub handle_response : RpcClient → List ℕ → Option (List Completion × RpcClient)
  handle_response c data' = elim (deserialize io data') [
    | none ↦ some ([], c)
    | some (h, payload) ↦ elim (is_response h) [
      | false ↦ some ([], c)
      | true ↦ elim (lookup c.outgoing_calls h.stream_id) [
        | none ↦ some ([], c)
        | some call ↦ do
          let u = record c { outgoing_calls = erase c.outgoing_calls h.stream_id }
          status ← elim h.last_message [ true ↦ response_status h | false ↦ some status_ok ]
          some (complete u call payload status)
      ]
    ]
  ]

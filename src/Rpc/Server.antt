-- ===== src/Rpc/Server.antt =====
-- roo_transport/rpc/server.h and server.cpp, and internal/server: requests, and their responses.
-- Each critical section of the server's mutex is one operation; what a call does to the messaging or
-- to the application is an effect in its result. A time is in microseconds, and a deadline that is
-- `Uptime::Max()` is `none`. Notifying the deadline thread changes no state.
pub mod Laws
pub mod Deadline
pub mod Once
use roo_transport.Prelude.{
  ℕ, zero, suc, ◌+◌, ◌*◌, Bool, true, false, ◌==◌, leb, ltb, ◌&&◌, ◌||◌, not, if◌then◌else◌, Option,
  none, some, List, [], ◌∷◌, ◌>>=◌,
}
use roo_transport.Table.{Table, lookup, insert, erase}
use roo_transport.Rpc.{RpcStatus, status_ok, deadline_exceeded, unimplemented}
use roo_transport.Rpc.Header.{
  StreamIo, RpcHeader, is_request, new_unary_response, serialize, deserialize, get_function_id,
  get_timeout_ms, max_serialized_size,
}

pub record RpcRequest : Type 0 where
  pub connection_id : ℕ
  pub function_id : ℕ
  pub stream_id : ℕ
  pub deadline : Option ℕ
  pub client_closed : Bool
  pub server_closed : Bool

-- `deadline_running`: the deadline thread was started.
pub record RpcServer : Type 0 where
  pub connection_id : ℕ
  pub active : Bool
  pub deadline_running : Bool
  pub pending_calls : Table RpcRequest

-- `messaging_.sendContinuation`, and the call of a handler with a `RequestHandle`.
pub data Effect : Type 0 where
  send_continuation : (connection_id : ℕ) (header payload : List ℕ) → Effect
  invoke : (connection_id stream_id function_id : ℕ) (payload : List ℕ) (fin : Bool) → Effect

-- `RpcServer(messaging, function_table)`, `begin` and `end`; the messaging's own state is not here.
unfoldable pub new_server : RpcServer
new_server = record {
  connection_id = 0;
  active = false;
  deadline_running = false;
  pending_calls = [];
}

unfoldable pub begin_server : RpcServer → RpcServer
begin_server s = record s { active = true }

unfoldable pub end_server : RpcServer → RpcServer
end_server s = record s { active = false; pending_calls = []; deadline_running = false }

unfoldable pub reconnected : RpcServer → ℕ → RpcServer
reconnected s connection_id =
    if connection_id == s.connection_id
    then s
    else record s { connection_id = connection_id; pending_calls = [] }

unfoldable pub connection_reset : RpcServer → ℕ → RpcServer
connection_reset s connection_id =
    if connection_id == s.connection_id
    then record s { connection_id = 0; pending_calls = [] }
    else s

-- `deadline <= Uptime::Now()`
abbrev pub is_expired : Option ℕ → ℕ → Bool
is_expired none now = false
is_expired (some t) now = leb t now

-- `prepForResponse`: the status to send and the new state; `none` is the result false.
unfoldable pub prep_for_response :
    RpcServer → ℕ → ℕ → RpcStatus → ℕ → Option (RpcStatus × RpcServer)
prep_for_response s connection_id stream_id status now =
    if not (connection_id == s.connection_id)
    then none
    else elim (lookup s.pending_calls stream_id) [
      | none ↦ none
      | some request ↦
          if not (request.connection_id == connection_id)
          then none
          else some (
            if is_expired request.deadline now then deadline_exceeded else status,
            record s { pending_calls = erase s.pending_calls stream_id },
          )
    ]

-- "deadline exceeded" and "Unknown function ID".
abbrev pub deadline_text : List ℕ
deadline_text =
    100 ∷ 101 ∷ 97 ∷ 100 ∷ 108 ∷ 105 ∷ 110 ∷ 101 ∷ 32 ∷ 101 ∷ 120 ∷ 99 ∷ 101 ∷ 101 ∷ 100 ∷ 101 ∷ 100
    ∷ []

abbrev pub unknown_text : List ℕ
unknown_text =
    85 ∷ 110 ∷ 107 ∷ 110 ∷ 111 ∷ 119 ∷ 110 ∷ 32 ∷ 102 ∷ 117 ∷ 110 ∷ 99 ∷ 116 ∷ 105 ∷ 111 ∷ 110 ∷ 32
    ∷ 73 ∷ 68 ∷ []

-- Of the requests behind a deadline: that of the earliest, the first of them if there are several.
unfoldable pub earliest :
    Table RpcRequest → Option (ℕ × ℕ × RpcRequest) → Option (ℕ × ℕ × RpcRequest)
earliest [] best = best
earliest ((k, request) ∷ t) best = elim request.deadline [
  | none ↦ earliest t best
  | some d ↦ elim best [
    | none ↦ earliest t (some (d, k, request))
    | some (d', k', request') ↦
        earliest t (if ltb d d' then some (d, k, request) else some (d', k', request'))
  ]
]

-- What an expired, a waiting and an idle round of the deadline thread come to.
pub data Round : Type 0 where
  wait : Round
  wait_until : (deadline : ℕ) → Round
  expire : (request : RpcRequest) (after : RpcServer) → Round

-- One round of `deadlineLoop`, up to the end of its critical section.
unfoldable pub deadline_round : RpcServer → ℕ → Round
deadline_round s now = elim (earliest s.pending_calls none) [
  | none ↦ Round.wait
  | some (d, k, request) ↦
      if ltb now d
      then Round.wait_until d
      else Round.expire request (record s { pending_calls = erase s.pending_calls k })
]

-- Rounds of `deadlineLoop` at one time, until it waits or the server has ended, when no other thread
-- takes the mutex between them (Rpc.Server.Once has the interleavings): the requests that it takes
-- out, in order. `send_expired` is what it then sends for each.
unfoldable pub expire_all : ℕ → RpcServer → ℕ → Option (List RpcRequest × RpcServer)
expire_all zero s now = none
expire_all (suc fuel) s now = elim s.active [
  | false ↦ some ([], s)
  | true ↦ elim (deadline_round s now) [
    | Round.wait ↦ some ([], s)
    | Round.wait_until d ↦ some ([], s)
    | Round.expire request u ↦ do (rest, v) ← expire_all fuel u now; some (request ∷ rest, v)
  ]
]

-- The deadline of a new request that is read at `start`.
unfoldable pub deadline_of : RpcHeader → ℕ → Option (Option ℕ)
deadline_of h start = elim h.has_timeout [
  | true ↦ do t ← get_timeout_ms h; some (some (start + t * 1000))
  | false ↦ some none
]

-- The critical section of `handleRequest`; `none` is an early return.
unfoldable pub admit : RpcServer → ℕ → RpcHeader → ℕ → Option ℕ → Option RpcServer
admit s connection_id h function_id deadline = elim (lookup s.pending_calls h.stream_id) [
  | some request ↦ none
  | none ↦
      if not s.active
      then none
      else some (record s {
        pending_calls = insert s.pending_calls h.stream_id (record {
          connection_id = connection_id;
          function_id = function_id;
          stream_id = h.stream_id;
          deadline = deadline;
          client_closed = h.last_message;
          server_closed = false;
        });
        deadline_running = s.deadline_running || h.has_timeout;
      })
]

module _ (io : StreamIo) where
  -- `sendResponse`: the CHECK of the header may abort.
  unfoldable pub send_response : ℕ → ℕ → RpcStatus → List ℕ → Option Effect
  send_response connection_id stream_id status payload = do
    header ← serialize io (new_unary_response stream_id status) max_serialized_size
    some (Effect.send_continuation connection_id header payload)

  unfoldable pub send_success_response :
      RpcServer → ℕ → ℕ → List ℕ → ℕ → Option (List Effect × RpcServer)
  send_success_response s connection_id stream_id payload now =
      elim (prep_for_response s connection_id stream_id status_ok now) [
        | none ↦ some ([], s)
        | some (status, u) ↦ do
          e ←
              send_response connection_id stream_id status
                (if status == deadline_exceeded then [] else payload)
          some (e ∷ [], u)
      ]

  unfoldable pub send_failure_response :
      RpcServer → ℕ → ℕ → RpcStatus → List ℕ → ℕ → Option (List Effect × RpcServer)
  send_failure_response s connection_id stream_id failure message now =
      elim (prep_for_response s connection_id stream_id failure now) [
        | none ↦ some ([], s)
        | some (status, u) ↦ do
          e ←
              send_response connection_id stream_id status
                (if status == deadline_exceeded then deadline_text else message)
          some (e ∷ [], u)
      ]

  -- `kDeadlineExceeded` with no payload, once the mutex is released.
  unfoldable pub send_expired : RpcRequest → Option Effect
  send_expired request = send_response request.connection_id request.stream_id deadline_exceeded []

  -- `known` tells which functions the table has. The clock is read three times, the last time in
  -- `prepForResponse`.
  module _ (known : ℕ → Bool) where
    -- From the end of the critical section on.
    unfoldable pub dispatch :
        RpcServer → ℕ → RpcHeader → ℕ → Option ℕ → List ℕ → ℕ → ℕ → Option (List Effect × RpcServer)
    dispatch s connection_id h function_id deadline payload now later =
        elim (is_expired deadline now) [
          | true ↦
              send_failure_response s connection_id h.stream_id deadline_exceeded deadline_text
                later
          | false ↦ elim (known function_id) [
            | false ↦
                send_failure_response s connection_id h.stream_id unimplemented unknown_text later
            | true ↦
                some (
                  Effect.invoke connection_id h.stream_id function_id payload h.last_message ∷ [],
                  s,
                )
          ]
        ]

    -- `handleRequest`: `none` is the LOG(FATAL), or a failed CHECK.
    unfoldable pub handle_request :
        RpcServer → ℕ → List ℕ → ℕ → ℕ → ℕ → Option (List Effect × RpcServer)
    handle_request s connection_id data' start now later =
        let u = reconnected s connection_id in
        elim (deserialize io data') [
          | none ↦ some ([], u)
          | some (h, payload) ↦ elim (is_request h) [
            | false ↦ some ([], u)
            | true ↦ elim h.first_message [
              | false ↦ none
              | true ↦ do
                function_id ← get_function_id h
                deadline ← deadline_of h start
                elim (admit u connection_id h function_id deadline) [
                  | none ↦ some ([], u)
                  | some v ↦ dispatch v connection_id h function_id deadline payload now later
                ]
            ]
          ]
        ]

-- ===== src/Tests/RpcTests.antt =====
-- Remote calls at concrete inputs.
use roo_transport.Prelude.{
  ℕ, ◌+◌, ◌≤◌, ◌≡◌, refl, Bool, true, false, ◌==◌, Option, none, some, List, [], ◌∷◌, ◌++◌, All,
  arith,
}
use roo_transport.Table.{lookup, insert}
use roo_transport.Rpc.{status_ok, unavailable}
use roo_transport.Rpc.Header.{
  RpcHeader, new_unary_request, new_unary_request_timeout, new_unary_response,
}
use roo_transport.Rpc.Header.Laws.{ReadsBack, header_round_trip}
use roo_transport.Rpc.Server
use roo_transport.Rpc.Server.{
  RpcServer, RpcRequest, Effect, handle_request, reconnected, send_success_response, expire_all,
}
use roo_transport.Rpc.Server.Laws.{Answer, handle_request-Answer}
use roo_transport.Rpc.Server.Once as ServerOnce
use roo_transport.Rpc.Server.Once.{answered_once, times, open_times, IsKeyed}
use roo_transport.Rpc.Server.Deadline.{Expired, expire_all-Expired}
use roo_transport.Rpc.Client.{
  RpcClient, Completion, send_unary_rpc, handle_response, connection_reset,
}
use roo_transport.Rpc.Client.Laws.{runs, armed, connection_reset-completes}
use roo_transport.Rpc.Client.Once as ClientOnce
use roo_transport.Rpc.Client.Once.{completed_once}
use roo_transport.Rpc.EndToEnd.{call_round_trip}
use roo_transport.Tests.ConcreteStream.{memory}

header_round_trip_example :
    ReadsBack memory (new_unary_request 1000 7)
    × ReadsBack memory (new_unary_request_timeout 1000 7 5000)
    × ReadsBack memory (new_unary_response 7 14)
header_round_trip_example =
    header_round_trip memory 1000 7 5000 14 (omega arith) (omega arith) (omega arith) (omega arith)

-- Function 1000 only.
abbrev known : ℕ → Bool
known f = f == 1000

-- Connected as 3, with the calls of two streams pending.
abbrev request : ℕ → Option ℕ → RpcRequest
request id deadline = record {
  connection_id = 3;
  function_id = 1000;
  stream_id = id;
  deadline = deadline;
  client_closed = true;
  server_closed = false;
}

abbrev serving : RpcServer
serving = record {
  connection_id = 3;
  active = true;
  deadline_running = true;
  pending_calls = (5, request 5 (some 90)) ∷ (6, request 6 (some 200)) ∷ [];
}

abbrev client : RpcClient
client = record {
  next_stream_id = 7;
  outgoing_calls = (5, 0) ∷ (6, 1) ∷ [];
  next_call = 2;
  callbacks = (0, 40) ∷ (1, 41) ∷ [];
}

abbrev timed_header : RpcHeader
unfolding new_unary_request_timeout
timed_header = new_unary_request_timeout 1000 7 5000

handle_request-Answer_example :
    (v : RpcServer) × (e : Effect) × (handle_request memory known serving 3
        ((header_round_trip memory 1000 7 5000 14
            (omega arith)
            (omega arith)
            (omega arith)
            (omega arith)).1.0
          ++ 1 ∷ 2 ∷ [])
        100
        110
        120
      ≡ some (e ∷ [], v))
    × Answer memory known v 3 (new_unary_request_timeout 1000 7 5000) 100 110 (1 ∷ 2 ∷ []) e
unfolding new_unary_request_timeout reconnected lookup
handle_request-Answer_example =
    handle_request-Answer memory known serving 3 _ (new_unary_request_timeout 1000 7 5000)
      (1 ∷ 2 ∷ []) 100 110 120
      (((header_round_trip memory 1000 7 5000 14 (omega arith) (omega arith) (omega arith)
          (omega arith)).1.3)
        (1 ∷ 2 ∷ []))
      refl refl (omega arith) refl refl

call_round_trip_example :
    (header : List ℕ) × (reply : List ℕ) × (d : RpcClient) × (t : RpcServer) × (u : RpcServer)
    × (e : RpcClient) × (send_unary_rpc memory client 1000 42 true ≡ some (status_ok, header, d))
    × (handle_request memory known serving 3 (header ++ 1 ∷ []) 100 110 120
        ≡ some (Effect.invoke 3 7 1000 (1 ∷ []) true ∷ [], t))
    × (send_success_response memory t 3 7 (2 ∷ []) 130
        ≡ some (Effect.send_continuation 3 reply (2 ∷ []) ∷ [], u))
    × (handle_response memory d (reply ++ 2 ∷ [])
        ≡ some (record { call = 2; callback = 42; payload = 2 ∷ []; status = status_ok } ∷ [], e))
    × (lookup u.pending_calls 7 ≡ none)
    × (lookup e.outgoing_calls 7 ≡ none)
unfolding reconnected lookup
call_round_trip_example =
    call_round_trip memory known client 1000 42 serving 3 (1 ∷ []) (2 ∷ []) 100 110 120 130
      (omega arith) (omega arith) refl refl refl refl refl

expire_all-Expired_example :
    (rs : List RpcRequest) × (v : RpcServer) × (expire_all 3 serving 100 ≡ some (rs, v))
    × Expired serving 100 rs v
unfolding lookup
expire_all-Expired_example =
    expire_all-Expired 3 serving 100 (refl, refl, (refl, refl, tt)) refl (omega arith)

connection_reset-completes_example :
    let (xs, u) = connection_reset client in
    (u.outgoing_calls ≡ [])
    × (lookup u.callbacks 1 ≡ none)
    × (runs 1 xs ≡ armed (lookup client.callbacks 1))
    × All (λ (x : Completion). (x.status ≡ unavailable) × (x.payload ≡ [])) xs
unfolding lookup
connection_reset-completes_example = connection_reset-completes client 6 1 refl

-- The server began, a peer connected, and one of its requests was accepted.
abbrev accepting : ServerOnce.World
unfolding Server.new_server Server.begin_server reconnected insert lookup
accepting = record {
  server = record {
    connection_id = 3;
    active = true;
    deadline_running = false;
    pending_calls = (7, request 7 none) ∷ [];
  };
  accepted = (3, 7) ∷ [];
  answered = [];
}

accepting_reached : ServerOnce.Reach accepting
unfolding Server.new_server Server.begin_server reconnected insert lookup Server.admit
    new_unary_request
accepting_reached =
    ServerOnce.Reach.later
      (ServerOnce.Reach.later (ServerOnce.Reach.later ServerOnce.Reach.start ServerOnce.Step.begins)
        (ServerOnce.Step.connects 3))
      (ServerOnce.Step.admits 3 (new_unary_request 1000 7) 1000 none _ refl)

answered_once_example :
    times (3, 7) accepting.answered + open_times (3, 7) accepting.server.pending_calls
    ≤ times (3, 7) accepting.accepted
answered_once_example = answered_once accepting (3, 7) accepting_reached

-- A call was made and registered, and the connection reset.
abbrev reset_once : (w : ClientOnce.World) × ClientOnce.Reach w
reset_once = (
  _,
  ClientOnce.Reach.later
      (ClientOnce.Reach.later
        (ClientOnce.Reach.later ClientOnce.Reach.start (ClientOnce.Step.makes 40))
        (ClientOnce.Step.registers 0))
      ClientOnce.Step.resets,
)

completed_once_example :
    (runs 0 reset_once.0.completed + armed (lookup reset_once.0.client.callbacks 0) ≤ 1)
    × (1 ≤ reset_once.0.client.next_stream_id)
    × (reset_once.0.client.next_stream_id ≤ 0xFFFFFF)
completed_once_example = completed_once reset_once.0 0 reset_once.1

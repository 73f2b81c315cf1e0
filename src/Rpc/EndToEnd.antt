-- ===== src/Rpc/EndToEnd.antt =====
-- A call from its client to a server, and back.
use roo_transport.Prelude.{
  ℕ, ◌^◌, ◌<◌, ◌≡◌, inl, inr, refl, ap, ◌∙◌, Bool, true, lt→ltb, none, some, List, [], ◌∷◌, ◌++◌,
  length, arith,
}
use roo_transport.Table.{lookup, erase, insert_free, lookup_here, lookup-erase}
use roo_transport.Rpc.{status_ok}
use roo_transport.Rpc.Header.{
  StreamIo, RpcHeader, new_unary_request, new_unary_response, serialize, deserialize,
  response_status, max_serialized_size,
}
use roo_transport.Rpc.Header.Laws.{header_round_trip}
use roo_transport.Rpc.Server.{
  RpcServer, RpcRequest, Effect, handle_request, reconnected, send_response, send_success_response,
}
use roo_transport.Rpc.Server.Laws.{handle_request-Answer, request_of, prep-some}
use roo_transport.Rpc.Client.{
  RpcClient, new_call, new_stream, send_call, send_unary_rpc, handle_response,
}
use roo_transport.Rpc.Client.Laws.{complete_held}

module _ (io : StreamIo) where
  sent :
      (c : RpcClient) (header_of : ℕ → RpcHeader) (cb : ℕ) (header : List ℕ)
      → lookup c.outgoing_calls c.next_stream_id ≡ none
      → lookup c.callbacks c.next_call ≡ none
      → serialize io (header_of c.next_stream_id) max_serialized_size ≡ some header
      → 0 < length header
      → (d : RpcClient) × (send_call io c header_of cb true ≡ some (status_ok, header, d))
        × (lookup d.outgoing_calls c.next_stream_id ≡ some c.next_call)
        × (lookup d.callbacks c.next_call ≡ some cb)
  unfolding send_call new_call new_stream
  sent c header_of cb header free unused ser some_bytes = (
    (new_stream (new_call c cb).1 c.next_call).1,
    rw (send_call, ser, lt→ltb 0 (length header) some_bytes) refl,
    ap (λ t. lookup t c.next_stream_id)
          (insert_free c.outgoing_calls c.next_stream_id c.next_call free)
        ∙ lookup_here c.outgoing_calls c.next_stream_id c.next_call,
    ap (λ t. lookup t c.next_call) (insert_free c.callbacks c.next_call cb unused)
        ∙ lookup_here c.callbacks c.next_call cb,
  )

  succeeded :
      (s : RpcServer) (c id : ℕ) (r : RpcRequest) (payload header : List ℕ) (now : ℕ)
      → s.connection_id ≡ c
      → lookup s.pending_calls id ≡ some r
      → r.connection_id ≡ c
      → r.deadline ≡ none
      → serialize io (new_unary_response id status_ok) max_serialized_size ≡ some header
      → send_success_response io s c id payload now
        ≡ some (
          Effect.send_continuation c header payload ∷ [],
          record s { pending_calls = erase s.pending_calls id },
        )
  unfolding send_success_response send_response
  succeeded s c id r payload header now e found owner untimed ser =
      rw (send_success_response, prep-some s c id r status_ok now e found owner, untimed, ser) refl

  answered :
      (d : RpcClient) (message : List ℕ) (id call cb : ℕ) (payload : List ℕ)
      → deserialize io message ≡ some (new_unary_response id status_ok, payload)
      → lookup d.outgoing_calls id ≡ some call
      → lookup d.callbacks call ≡ some cb
      → (e : RpcClient) × (handle_response io d message
          ≡ some (
            record { call = call; callback = cb; payload = payload; status = status_ok } ∷ [],
            e,
          ))
        × (lookup e.outgoing_calls id ≡ none)
  unfolding handle_response new_unary_response response_status
  answered d message id call cb payload read found held = (
    _,
    run (record d { outgoing_calls = erase d.outgoing_calls id }) refl,
    lookup-erase d.outgoing_calls id,
  )
    where
      run :
          (u : RpcClient)
          → u ≡ record d { outgoing_calls = erase d.outgoing_calls id }
          → handle_response io d message
            ≡ some (
              record { call = call; callback = cb; payload = payload; status = status_ok } ∷ [],
              record d {
                outgoing_calls = erase d.outgoing_calls id;
                callbacks = erase d.callbacks call;
              },
            )
      run u e =
          rw (handle_response, read, found)
            (ap some (
              complete_held (record d { outgoing_calls = erase d.outgoing_calls id }) call payload
                status_ok cb held))

-- A call comes back. A client calls a known function without a timeout, the send is accepted, and
-- the server, which is active and has no pending call for the stream, calls the handler with the
-- function, the stream and the request that the client sent; when the handler responds, the server
-- sends the response with a header, and the client, given that message, runs the callback of the
-- call, once, with the response and the status of success; then the call is neither pending at the
-- server nor outstanding at the client. The function has 32 bits and the stream 24, and the stream
-- and the call are new to the client.
pub call_round_trip :
    (io : StreamIo) (known : ℕ → Bool) (c : RpcClient) (function_id cb : ℕ) (s : RpcServer)
    (connection_id : ℕ) (request response : List ℕ) (start now later at : ℕ)
    → function_id < 2 ^ 32
    → c.next_stream_id < 2 ^ 24
    → lookup c.outgoing_calls c.next_stream_id ≡ none
    → lookup c.callbacks c.next_call ≡ none
    → s.active ≡ true
    → lookup (reconnected s connection_id).pending_calls c.next_stream_id ≡ none
    → known function_id ≡ true
    → (header : List ℕ) × (reply : List ℕ) × (d : RpcClient) × (t : RpcServer) × (u : RpcServer)
      × (e : RpcClient) × (send_unary_rpc io c function_id cb true ≡ some (status_ok, header, d))
      × (handle_request io known s connection_id (header ++ request) start now later
          ≡ some (Effect.invoke connection_id c.next_stream_id function_id request true ∷ [], t))
      × (send_success_response io t connection_id c.next_stream_id response at
          ≡ some (Effect.send_continuation connection_id reply response ∷ [], u))
      × (handle_response io d (reply ++ response)
          ≡ some (
            record { call = c.next_call; callback = cb; payload = response; status = status_ok }
                ∷ [],
            e,
          ))
      × (lookup u.pending_calls c.next_stream_id ≡ none)
      × (lookup e.outgoing_calls c.next_stream_id ≡ none)
unfolding send_unary_rpc new_unary_request
call_round_trip io known c f cb s conn request response start now later at hf hs free unused on
      vacant k =
    let id = c.next_stream_id in
    let (req, _, resp) = header_round_trip io f id 0 status_ok hf hs (omega arith) (omega arith) in
    let (header, ser, some_bytes, back) = req in
    let (reply, ser', some_reply, back') = resp in
    let (d, send, out, held) =
      sent io c (new_unary_request f) cb header free unused ser some_bytes in
    let (t, e, run, answer) =
      handle_request-Answer io known s conn (header ++ request) (new_unary_request f id) request
        start now later (back request) refl refl hs on vacant in
    elim answer [
      | inl (e_eq, kn, early, same, pend) ↦
          let reply_sent =
            succeeded io t conn id (request_of conn (new_unary_request f id) none) response reply at
              same pend refl refl ser' in
          let (w, done, closed) =
            answered io d (reply ++ response) id c.next_call cb response (back' response) out
              held in
          (
            header,
            reply,
            d,
            t,
            record t { pending_calls = erase t.pending_calls id },
            w,
            send,
            run ∙ ap (λ (x : Effect). some (x ∷ [], t)) e_eq,
            reply_sent,
            done,
            lookup-erase t.pending_calls id,
            closed,
          )
      | inr (h', m, st, e_eq, hs', which, inl late, gone) ↦ absurd (cc late)
      | inr (h', m, st, e_eq, hs', which, inr unknown, gone) ↦ absurd (cc (k, unknown))
    ]

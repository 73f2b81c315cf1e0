-- ===== src/Rpc/Server/Laws.antt =====
-- Every accepted request gets one answer.
use roo_transport.Prelude.{
  ℕ, ◌+◌, ◌*◌, ◌^◌, ◌<◌, ◌≡◌, ◌⊎◌, inl, inr, refl, sym, ◌∙◌, Bool, true, false, ◌==◌, ==_iff, ◌||◌,
  Bool-cases, ◌>>=◌, Option, none, some, List, [], ◌∷◌, if◌then◌else◌, arith,
}
use roo_transport.Table.{lookup, erase, insert_free, lookup_here, lookup-erase}
use roo_transport.Rpc.{RpcStatus, deadline_exceeded, unimplemented}
use roo_transport.Rpc.Header.{
  StreamIo, RpcHeader, is_request, new_unary_response, serialize, deserialize, get_function_id,
  get_timeout_ms, max_serialized_size,
}
use roo_transport.Rpc.Header.Laws.{header_round_trip}
use roo_transport.Rpc.Server.{
  RpcRequest, RpcServer, Effect, reconnected, is_expired, prep_for_response, deadline_of, admit,
  dispatch, send_response, send_failure_response, handle_request, deadline_text, unknown_text,
}

reconnected-id : (s : RpcServer) (c : ℕ) → (reconnected s c).connection_id ≡ c
unfolding reconnected
reconnected-id s c = elim (Bool-cases (c == s.connection_id)) [
  | inl e ↦ rw e (sym ((==_iff _ _).0 e))
  | inr e ↦ rw e refl
]

reconnected-active : (s : RpcServer) (c : ℕ) → (reconnected s c).active ≡ s.active
unfolding reconnected
reconnected-active s c = elim (Bool-cases (c == s.connection_id)) [
  | inl e ↦ rw e refl
  | inr e ↦ rw e refl
]

-- The call of a request is pending, and its handle may answer.
pub prep-some :
    (s : RpcServer) (c id : ℕ) (r : RpcRequest) (status : RpcStatus) (now : ℕ)
    → s.connection_id ≡ c
    → lookup s.pending_calls id ≡ some r
    → r.connection_id ≡ c
    → prep_for_response s c id status now
      ≡ some (
        if is_expired r.deadline now then deadline_exceeded else status,
        record s { pending_calls = erase s.pending_calls id },
      )
unfolding prep_for_response
prep-some s c id r status now e found owner =
    let here : (c == s.connection_id) ≡ true = (==_iff _ _).1 (sym e) in
    let its : (r.connection_id == c) ≡ true = (==_iff _ _).1 owner in
    rw (prep_for_response, here, found, its) refl

abbrev pub request_of : ℕ → RpcHeader → Option ℕ → RpcRequest
request_of c h deadline = record {
  connection_id = c;
  function_id = h.function_id;
  stream_id = h.stream_id;
  deadline = deadline;
  client_closed = h.last_message;
  server_closed = false;
}

admit-some :
    (s : RpcServer) (c : ℕ) (h : RpcHeader) (deadline : Option ℕ)
    → s.active ≡ true
    → lookup s.pending_calls h.stream_id ≡ none
    → admit s c h h.function_id deadline
      ≡ some (record s {
        pending_calls = (h.stream_id, request_of c h deadline) ∷ s.pending_calls;
        deadline_running = s.deadline_running || h.has_timeout;
      })
unfolding admit
admit-some s c h deadline on free =
    rw (admit, free, on, insert_free s.pending_calls h.stream_id (request_of c h deadline) free)
      refl

-- The deadline of a request, worked out.
abbrev pub due : RpcHeader → ℕ → Option ℕ
due h start = elim h.has_timeout [ true ↦ some (start + h.timeout_ms * 1000) | false ↦ none ]

deadline_of-some :
    (h : RpcHeader) (start : ℕ)
    → is_request h ≡ true
    → h.first_message ≡ true
    → deadline_of h start ≡ some (due h start)
unfolding deadline_of get_timeout_ms
deadline_of-some h start req first = ground arith

get_function_id-some :
    (h : RpcHeader)
    → is_request h ≡ true
    → h.first_message ≡ true
    → get_function_id h ≡ some h.function_id
unfolding get_function_id
get_function_id-some h req first = ground arith

module _ (io : StreamIo) (known : ℕ → Bool) where
  response_sent :
      (c id : ℕ) (status : RpcStatus) (payload : List ℕ)
      → id < 2 ^ 24
      → status < 2 ^ 8
      → (header : List ℕ) × (serialize io (new_unary_response id status) max_serialized_size
          ≡ some header)
        × (send_response io c id status payload ≡ some (Effect.send_continuation c header payload))
  unfolding send_response
  response_sent c id status payload small st =
      let back = (header_round_trip io 0 id 0 status (omega arith) small (omega arith) st).2 in
      (back.0, back.1, rw (send_response, back.1) refl)

  failure_sent :
      (s : RpcServer) (c id : ℕ) (r : RpcRequest) (failure : RpcStatus) (message : List ℕ)
      (later : ℕ)
      → s.connection_id ≡ c
      → lookup s.pending_calls id ≡ some r
      → r.connection_id ≡ c
      → id < 2 ^ 24
      → failure < 2 ^ 8
      → (header : List ℕ) × (message' : List ℕ) × (status : RpcStatus) × (serialize io
            (new_unary_response id status)
            max_serialized_size
          ≡ some header)
        × ((status ≡ deadline_exceeded) ⊎ (status ≡ failure))
        × (send_failure_response io s c id failure message later
            ≡ some (
              Effect.send_continuation c header message' ∷ [],
              record s { pending_calls = erase s.pending_calls id },
            ))
  unfolding send_failure_response
  failure_sent s c id r failure message later e found owner small st =
      elim (Bool-cases (is_expired r.deadline later)) [
        | inl late ↦
            let (header, ser, sent) =
              response_sent c id deadline_exceeded deadline_text small (omega arith) in
            (
              header,
              deadline_text,
              deadline_exceeded,
              ser,
              inl refl,
              rw (send_failure_response, prep-some s c id r failure later e found owner, late, sent)
                  refl,
            )
        | inr early ↦
            let (header, ser, sent) =
              response_sent c id failure
                (if failure == deadline_exceeded then deadline_text else message) small st in
            (
              header,
              if failure == deadline_exceeded then deadline_text else message,
              failure,
              ser,
              inr refl,
              rw
                  (
                    send_failure_response,
                    prep-some s c id r failure later e found owner,
                    early,
                    sent,
                  )
                  refl,
            )
      ]

  -- What a handled request comes to: the handler is called and its call is pending, or one response
  -- is sent and the call is not pending.
  abbrev pub Answer : RpcServer → ℕ → RpcHeader → ℕ → ℕ → List ℕ → Effect → Type 0
  Answer v c h start now payload e =
      ((e ≡ Effect.invoke c h.stream_id h.function_id payload h.last_message)
        × (known h.function_id ≡ true)
        × (is_expired (due h start) now ≡ false)
        × (v.connection_id ≡ c)
        × (lookup v.pending_calls h.stream_id ≡ some (request_of c h (due h start))))
      ⊎ ((header : List ℕ) × (message : List ℕ) × (status : RpcStatus) × (e
            ≡ Effect.send_continuation c header message)
          × (serialize io (new_unary_response h.stream_id status) max_serialized_size ≡ some header)
          × ((status ≡ deadline_exceeded)
              ⊎ ((status ≡ unimplemented) × (known h.function_id ≡ false)))
          × ((is_expired (due h start) now ≡ true) ⊎ (known h.function_id ≡ false))
          × (lookup v.pending_calls h.stream_id ≡ none))

  dispatch-Answer :
      (s : RpcServer) (c : ℕ) (h : RpcHeader) (payload : List ℕ) (start now later : ℕ)
      → s.connection_id ≡ c
      → lookup s.pending_calls h.stream_id ≡ some (request_of c h (due h start))
      → h.stream_id < 2 ^ 24
      → (v : RpcServer) × (e : Effect) × (dispatch io known s c h h.function_id
            (due h start)
            payload
            now
            later
          ≡ some (e ∷ [], v))
        × Answer v c h start now payload e
  unfolding dispatch
  dispatch-Answer s c h payload start now later e found small =
      elim (Bool-cases (is_expired (due h start) now)) [
        | inl late ↦
            let (header, message, status, ser, cases, run) =
              failure_sent s c h.stream_id (request_of c h (due h start)) deadline_exceeded
                deadline_text later e found refl small (omega arith) in
            (
              record s { pending_calls = erase s.pending_calls h.stream_id },
              Effect.send_continuation c header message,
              rw (dispatch, late) run,
              inr (
                header,
                message,
                status,
                refl,
                ser,
                inl (either status cases),
                inl late,
                lookup-erase s.pending_calls h.stream_id,
              ),
            )
        | inr early ↦ elim (Bool-cases (known h.function_id)) [
          | inl k ↦ (
            s,
            Effect.invoke c h.stream_id h.function_id payload h.last_message,
            rw (dispatch, early, k) refl,
            inl (refl, k, early, e, found),
          )
          | inr k ↦
              let (header, message, status, ser, cases, run) =
                failure_sent s c h.stream_id (request_of c h (due h start)) unimplemented
                  unknown_text later e found refl small (omega arith) in
              (
                record s { pending_calls = erase s.pending_calls h.stream_id },
                Effect.send_continuation c header message,
                rw (dispatch, early, k) run,
                inr (
                  header,
                  message,
                  status,
                  refl,
                  ser,
                  which status k cases,
                  inr k,
                  lookup-erase s.pending_calls h.stream_id,
                ),
              )
        ]
      ]
    where
      either :
          (status : RpcStatus)
          → (status ≡ deadline_exceeded) ⊎ (status ≡ deadline_exceeded)
          → status ≡ deadline_exceeded
      either status (inl e) = e
      either status (inr e) = e

      which :
          (status : RpcStatus)
          → known h.function_id ≡ false
          → (status ≡ deadline_exceeded) ⊎ (status ≡ unimplemented)
          → (status ≡ deadline_exceeded)
            ⊎ ((status ≡ unimplemented) × (known h.function_id ≡ false))
      which status k (inl e) = inl e
      which status k (inr e) = inr (e, k)

  handled :
      (s : RpcServer) (c : ℕ) (message : List ℕ) (h : RpcHeader) (payload : List ℕ)
      (start now later : ℕ) (v : RpcServer) (o : Option (List Effect × RpcServer))
      → deserialize io message ≡ some (h, payload)
      → is_request h ≡ true
      → h.first_message ≡ true
      → get_function_id h ≡ some h.function_id
      → deadline_of h start ≡ some (due h start)
      → admit (reconnected s c) c h h.function_id (due h start) ≡ some v
      → dispatch io known v c h h.function_id (due h start) payload now later ≡ o
      → handle_request io known s c message start now later ≡ o
  unfolding handle_request
  handled s c message h payload start now later v o read req first fn dl ad run =
      rw (handle_request, read, req, first, fn, dl, ◌>>=◌, ad) run

  -- A message with the header of a new request, for a stream that has no pending call on this
  -- connection, has exactly one effect at an active server: either the function is known, the deadline
  -- has not passed, the handler is called with the payload and the call is pending; or one response
  -- for the stream is sent, with the status for a deadline or, if the function is not known, that for
  -- an unknown function, and the call is not pending. The server does not abort. The stream has 24
  -- bits.
  pub handle_request-Answer :
      (s : RpcServer) (c : ℕ) (message : List ℕ) (h : RpcHeader) (payload : List ℕ)
      (start now later : ℕ)
      → deserialize io message ≡ some (h, payload)
      → is_request h ≡ true
      → h.first_message ≡ true
      → h.stream_id < 2 ^ 24
      → s.active ≡ true
      → lookup (reconnected s c).pending_calls h.stream_id ≡ none
      → (v : RpcServer) × (e : Effect) × (handle_request io known s c message start now later
          ≡ some (e ∷ [], v))
        × Answer v c h start now payload e
  handle_request-Answer s c message h payload start now later read req first small on free =
      let u = reconnected s c in
      let v : RpcServer = record u {
        pending_calls = (h.stream_id, request_of c h (due h start)) ∷ u.pending_calls;
        deadline_running = u.deadline_running || h.has_timeout;
      } in
      let (w, e, run, answer) =
        dispatch-Answer v c h payload start now later (reconnected-id s c)
          (lookup_here u.pending_calls h.stream_id (request_of c h (due h start))) small in
      (
        w,
        e,
        handled s c message h payload start now later v (some (e ∷ [], w)) read req first
            (get_function_id-some h req first) (deadline_of-some h start req first)
            (admit-some u c h (due h start) (reconnected-active s c ∙ on) free) run,
        answer,
      )

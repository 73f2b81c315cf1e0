-- ===== src/Rpc/Client/Once.antt =====
-- No callback is run twice, whatever the order in which the client's threads run.
use roo_transport.Prelude.{
  ℕ, ◌+◌, ◌≤◌, ◌≡◌, ◌≢◌, refl, sym, ap, ◌∙◌, subst, none, List, [], ◌∷◌, ◌++◌, arith,
}
use native.Mathlib.Decide.{ℕ_discrete}
use roo_transport.Table.{
  lookup, erase, insert_free, lookup_here, lookup_there, lookup-erase, lookup-erase_ne,
}
use roo_transport.Rpc.{RpcStatus}
use roo_transport.Rpc.Client.{
  RpcClient, Completion, new_client, new_call, new_stream, cancel_send, complete, connection_reset,
}
use roo_transport.Rpc.Client.Laws.{
  runs, armed, complete-count, runs-append, complete_next, armed-none, complete_all-count,
}

-- The client, and every completion so far.
pub record World : Type 0 where
  pub client : RpcClient
  pub completed : List Completion

-- The critical sections of the client's threads, in any order. A call to complete is one that a
-- thread took from the registry, and a call to cancel is one that it made.
pub data Step (w : World) : World → Type 0 where
  makes : (cb : ℕ) → Step w (record w { client = (new_call w.client cb).1 })
  registers : (call : ℕ) → Step w (record w { client = (new_stream w.client call).1 })
  cancels :
      (stream_id call : ℕ) → Step w (record w { client = cancel_send w.client stream_id call })
  takes :
      (stream_id : ℕ)
      → Step w (record w {
        client = record w.client { outgoing_calls = erase w.client.outgoing_calls stream_id };
      })
  completes :
      (call : ℕ) (payload : List ℕ) (status : RpcStatus)
      → Step w (record {
        client = (complete w.client call payload status).1;
        completed = (complete w.client call payload status).0 ++ w.completed;
      })
  resets : Step w (record {
    client = (connection_reset w.client).1;
    completed = (connection_reset w.client).0 ++ w.completed;
  })

abbrev pub begun : World
begun = record { client = new_client; completed = [] }

pub data Reach : World → Type 0 where
  start : Reach begun
  later : {v w : World} → Reach v → Step v w → Reach w

record Inv (c : RpcClient) (xs : List Completion) : Type 0 where
  once : (call : ℕ) → runs call xs + armed (lookup c.callbacks call) ≤ 1
  fresh : (call : ℕ) → c.next_call ≤ call → (runs call xs ≡ 0) × (lookup c.callbacks call ≡ none)
  stream : (1 ≤ c.next_stream_id) × (c.next_stream_id ≤ 0xFFFFFF)

-- Completions that only use up callbacks keep the invariant.
counted-Inv :
    (c u : RpcClient) (xs new : List Completion)
    → ((k : ℕ) → runs k new + armed (lookup u.callbacks k) ≡ armed (lookup c.callbacks k))
    → u.next_call ≡ c.next_call
    → u.next_stream_id ≡ c.next_stream_id
    → Inv c xs
    → Inv u (new ++ xs)
counted-Inv c u xs new count calls streams v = record {
  once = λ k. omega (arith, runs-append k new xs, count k, v.once k);
  fresh = λ k h.
      let (zero_runs, unheld) = v.fresh k (omega arith) in
      let nothing : armed (lookup c.callbacks k) ≡ 0 = ap armed unheld in
      (
        omega (arith, runs-append k new xs, count k),
        armed-none (lookup u.callbacks k) (omega (arith, count k)),
      );
  stream = omega (arith, v.stream);
}

makes-Inv : (c : RpcClient) (xs : List Completion) (cb : ℕ) → Inv c xs → Inv (new_call c cb).1 xs
unfolding new_call
makes-Inv c xs cb v =
    let (no_runs, unheld) = v.fresh c.next_call (omega arith) in
    let put = insert_free c.callbacks c.next_call cb unheld in
    record {
      once = λ k.
          subst (λ t. runs k xs + armed (lookup t k) ≤ 1) (sym put)
            (placed no_runs k (ℕ_discrete c.next_call k));
      fresh = λ k h.
          let ne : c.next_call ≢ k = λ e. absurd (omega arith) in
          let (zero_runs, free) = v.fresh k (omega arith) in
          (
            zero_runs,
            ap (λ t. lookup t k) put ∙ lookup_there c.callbacks c.next_call k cb ne ∙ free,
          );
      stream = v.stream;
    }
  where
    placed :
        runs c.next_call xs ≡ 0
        → (k : ℕ) → Dec (c.next_call ≡ k)
        → runs k xs + armed (lookup ((c.next_call, cb) ∷ c.callbacks) k) ≤ 1
    placed z k (yes e) =
        subst (λ j. runs j xs + armed (lookup ((c.next_call, cb) ∷ c.callbacks) j) ≤ 1) e
          (rw (lookup_here c.callbacks c.next_call cb) (omega arith))
    placed z k (no ne) = rw (lookup_there c.callbacks c.next_call k cb ne) (v.once k)

registers-Inv :
    (c : RpcClient) (xs : List Completion) (call : ℕ) → Inv c xs → Inv (new_stream c call).1 xs
unfolding new_stream
registers-Inv c xs call v = record {
  once = v.once;
  fresh = v.fresh;
  stream = ground (arith, v.stream);
}

cancels-Inv :
    (c : RpcClient) (xs : List Completion) (stream_id call : ℕ)
    → Inv c xs
    → Inv (cancel_send c stream_id call) xs
unfolding cancel_send
cancels-Inv c xs stream_id call v = record {
  once = λ k. dropped k (ℕ_discrete call k);
  fresh = λ k h. ((v.fresh k h).0, erased k (v.fresh k h).1 (ℕ_discrete call k));
  stream = v.stream;
}
  where
    dropped : (k : ℕ) → Dec (call ≡ k) → runs k xs + armed (lookup (erase c.callbacks call) k) ≤ 1
    dropped k (yes e) =
        let none_there : lookup (erase c.callbacks call) k ≡ none =
          ap (lookup (erase c.callbacks call)) (sym e) ∙ lookup-erase c.callbacks call in
        rw none_there (omega (arith, v.once k))
    dropped k (no ne) = rw (lookup-erase_ne c.callbacks call k ne) (v.once k)

    erased :
        (k : ℕ)
        → lookup c.callbacks k ≡ none
        → Dec (call ≡ k)
        → lookup (erase c.callbacks call) k ≡ none
    erased k e (yes q) =
        ap (lookup (erase c.callbacks call)) (sym q) ∙ lookup-erase c.callbacks call
    erased k e (no ne) = lookup-erase_ne c.callbacks call k ne ∙ e

Step-Inv : (v w : World) → Inv v.client v.completed → Step v w → Inv w.client w.completed
unfolding connection_reset
Step-Inv v w i (makes cb) = makes-Inv v.client v.completed cb i
Step-Inv v w i (registers call) = registers-Inv v.client v.completed call i
Step-Inv v w i (cancels id call) = cancels-Inv v.client v.completed id call i
Step-Inv v w i (takes id) = record { once = i.once; fresh = i.fresh; stream = i.stream }
Step-Inv v w i (completes call payload status) =
    let (calls_eq, streams_eq, out_eq) = complete_next v.client call payload status in
    counted-Inv v.client (complete v.client call payload status).1 v.completed _
      (complete-count v.client call payload status) calls_eq streams_eq i
Step-Inv v w i resets =
    let (count, calls_eq, streams_eq, out_eq) =
      complete_all-count (record v.client { outgoing_calls = [] }) v.client.outgoing_calls in
    counted-Inv v.client _ v.completed _ count calls_eq streams_eq i

Inv-start : Inv new_client []
unfolding new_client runs lookup
Inv-start = record { once = λ k. omega arith; fresh = λ k h. (refl, refl); stream = omega arith }

Reach-Inv : (w : World) → Reach w → Inv w.client w.completed
Reach-Inv w start = Inv-start
Reach-Inv w (later {v} reach step) = Step-Inv v w (Reach-Inv v reach) step

-- In every state of a client, however calls, responses, failed sends and resets interleave: the
-- callback of a call was run at most once, and if it was, it is gone; and the next stream has an
-- identifier from 1 to 0xFFFFFF, so it fits the 24 bits of the header.
pub completed_once :
    (w : World) (call : ℕ)
    → Reach w
    → (runs call w.completed + armed (lookup w.client.callbacks call) ≤ 1)
      × (1 ≤ w.client.next_stream_id)
      × (w.client.next_stream_id ≤ 0xFFFFFF)
completed_once w call reach = let i = Reach-Inv w reach in (i.once call, i.stream.0, i.stream.1)

-- ===== src/Rpc/Client/Laws.antt =====
-- What completions do, and that a reset runs every callback that is left.
use roo_transport.Prelude.{
  ℕ, suc, ◌+◌, ◌≡◌, inl, inr, refl, sym, ap, ◌∙◌, subst, true, false, ◌==◌, ==_iff, ==_ne, ◌⊎◌,
  Bool-cases, Option, none, some, Option-cases, List, [], ◌∷◌, ◌++◌, All, if◌then◌else◌, arith,
}
use roo_transport.Table.{Table, lookup, erase, lookup-erase, lookup-erase_ne}
use roo_transport.Rpc.{RpcStatus, unavailable}
use roo_transport.Rpc.Client.{RpcClient, Completion, complete, complete_all, connection_reset}

-- How often the callback of a call was run, and how often it can be.
unfoldable pub runs : ℕ → List Completion → ℕ
runs call [] = 0
runs call (x ∷ rest) = let n = runs call rest in if x.call == call then suc n else n

abbrev pub armed : Option ℕ → ℕ
armed none = 0
armed (some cb) = 1

-- What `complete` comes to.
complete_gone :
    (c : RpcClient) (call : ℕ) (payload : List ℕ) (status : RpcStatus)
    → lookup c.callbacks call ≡ none
    → complete c call payload status ≡ ([], c)
unfolding complete
complete_gone c call payload status e = rw (complete, e) refl

pub complete_held :
    (c : RpcClient) (call : ℕ) (payload : List ℕ) (status : RpcStatus) (cb : ℕ)
    → lookup c.callbacks call ≡ some cb
    → complete c call payload status ≡ (
      record { call = call; callback = cb; payload = payload; status = status } ∷ [],
      record c { callbacks = erase c.callbacks call },
    )
unfolding complete
complete_held c call payload status cb e = rw (complete, e) refl

-- A call's count of runs and of what is left.
pub complete-count :
    (c : RpcClient) (call : ℕ) (payload : List ℕ) (status : RpcStatus) (k : ℕ)
    → runs k (complete c call payload status).0
        + armed (lookup (complete c call payload status).1.callbacks k)
      ≡ armed (lookup c.callbacks k)
unfolding runs
complete-count c call payload status k = elim (Option-cases (lookup c.callbacks call)) [
  | inl gone ↦
      subst
        (λ (o : List Completion × RpcClient).
          runs k o.0 + armed (lookup o.1.callbacks k) ≡ armed (lookup c.callbacks k))
        (sym (complete_gone c call payload status gone)) (omega arith)
  | inr (cb, held) ↦
      subst
        (λ (o : List Completion × RpcClient).
          runs k o.0 + armed (lookup o.1.callbacks k) ≡ armed (lookup c.callbacks k))
        (sym (complete_held c call payload status cb held))
        (counted cb held (Bool-cases (call == k)))
]
  where
    counted :
        (cb : ℕ)
        → lookup c.callbacks call ≡ some cb
        → ((call == k) ≡ true) ⊎ ((call == k) ≡ false)
        → (if call == k then suc 0 else 0) + armed (lookup (erase c.callbacks call) k)
          ≡ armed (lookup c.callbacks k)
    counted cb held (inl e) =
        let k_eq : call ≡ k = (==_iff call k).0 e in
        rw
          (
            e,
            ap (λ j. lookup (erase c.callbacks call) j) (sym k_eq) ∙ lookup-erase c.callbacks call,
            ap (lookup c.callbacks) (sym k_eq) ∙ held,
          )
          refl
    counted cb held (inr e) =
        rw (e, lookup-erase_ne c.callbacks call k (==_ne call k e)) (omega arith)

pub runs-append : (k : ℕ) (xs ys : List Completion) → runs k (xs ++ ys) ≡ runs k xs + runs k ys
unfolding runs
runs-append k [] ys = omega arith
runs-append k (x ∷ xs) ys = elim (Bool-cases (x.call == k)) [
  | inl e ↦ rw e (omega (arith, runs-append k xs ys))
  | inr e ↦ rw e (runs-append k xs ys)
]

pub complete_next :
    (c : RpcClient) (call : ℕ) (payload : List ℕ) (status : RpcStatus)
    → ((complete c call payload status).1.next_call ≡ c.next_call)
      × ((complete c call payload status).1.next_stream_id ≡ c.next_stream_id)
      × ((complete c call payload status).1.outgoing_calls ≡ c.outgoing_calls)
unfolding complete
complete_next c call payload status = elim (Option-cases (lookup c.callbacks call)) [
  | inl e ↦ (ground arith, ground arith, ground arith)
  | inr (cb, e) ↦ (ground arith, ground arith, ground arith)
]

pub armed-none : (o : Option ℕ) → armed o ≡ 0 → o ≡ none
armed-none none e = refl
armed-none (some x) e = absurd (omega arith)

pub complete_all-count :
    (c : RpcClient) (calls : Table ℕ)
    → ((k : ℕ)
        → runs k (complete_all c calls).0 + armed (lookup (complete_all c calls).1.callbacks k)
          ≡ armed (lookup c.callbacks k))
      × ((complete_all c calls).1.next_call ≡ c.next_call)
      × ((complete_all c calls).1.next_stream_id ≡ c.next_stream_id)
      × ((complete_all c calls).1.outgoing_calls ≡ c.outgoing_calls)
unfolding complete_all runs
complete_all-count c [] = (λ k. omega arith, refl, refl, refl)
complete_all-count c ((id, call) ∷ calls) =
    let u = (complete c call [] unavailable).1 in
    let (count, calls_eq, streams_eq, out_eq) = complete_all-count u calls in
    let (calls_eq', streams_eq', out_eq') = complete_next c call [] unavailable in
    (
      λ k. omega (
        arith,
        runs-append k (complete c call [] unavailable).0 (complete_all u calls).0,
        count k,
        complete-count c call [] unavailable k,
      ),
      calls_eq ∙ calls_eq',
      streams_eq ∙ streams_eq',
      out_eq ∙ out_eq',
    )

-- After the loop, no call of the table has its callback.
complete_all-gone :
    (c : RpcClient) (calls : Table ℕ) (k : ℕ)
    → lookup c.callbacks k ≡ none
    → lookup (complete_all c calls).1.callbacks k ≡ none
complete_all-gone c calls k e =
    let count = (complete_all-count c calls).0 k in
    let nothing : armed (lookup c.callbacks k) ≡ 0 = ap armed e in
    armed-none (lookup (complete_all c calls).1.callbacks k) (omega arith)

complete-gone :
    (c : RpcClient) (call : ℕ) (payload : List ℕ) (status : RpcStatus)
    → lookup (complete c call payload status).1.callbacks call ≡ none
complete-gone c call payload status = elim (Option-cases (lookup c.callbacks call)) [
  | inl gone ↦
      subst (λ (o : List Completion × RpcClient). lookup o.1.callbacks call ≡ none)
        (sym (complete_gone c call payload status gone)) gone
  | inr (cb, held) ↦
      subst (λ (o : List Completion × RpcClient). lookup o.1.callbacks call ≡ none)
        (sym (complete_held c call payload status cb held)) (lookup-erase c.callbacks call)
]

complete_all-done :
    (c : RpcClient) (calls : Table ℕ) (stream_id call : ℕ)
    → lookup calls stream_id ≡ some call
    → lookup (complete_all c calls).1.callbacks call ≡ none
unfolding complete_all lookup
complete_all-done c [] stream_id call e = absurd (ground arith)
complete_all-done c ((id, first) ∷ calls) stream_id call e =
    let u = (complete c first [] unavailable).1 in
    elim (Bool-cases (id == stream_id)) [
      | inl hit ↦
          let same : first ≡ call = ground arith in
          complete_all-gone u calls call
            (subst (λ k. lookup u.callbacks k ≡ none) same (complete-gone c first [] unavailable))
      | inr miss ↦ complete_all-done u calls stream_id call (ground arith)
    ]

-- Every completion of the loop reports that the connection is gone.
complete_all-unavailable :
    (c : RpcClient) (calls : Table ℕ)
    → All (λ (x : Completion). (x.status ≡ unavailable) × (x.payload ≡ [])) (complete_all c calls).0
unfolding complete_all
complete_all-unavailable c [] = tt
complete_all-unavailable c ((id, call) ∷ calls) =
    let u = (complete c call [] unavailable).1 in
    let ih = complete_all-unavailable u calls in
    elim (Option-cases (lookup c.callbacks call)) [
      | inl gone ↦
          subst
            (λ (o : List Completion × RpcClient).
              All (λ (x : Completion). (x.status ≡ unavailable) × (x.payload ≡ []))
                (o.0 ++ (complete_all u calls).0))
            (sym (complete_gone c call [] unavailable gone)) ih
      | inr (cb, held) ↦
          subst
            (λ (o : List Completion × RpcClient).
              All (λ (x : Completion). (x.status ≡ unavailable) × (x.payload ≡ []))
                (o.0 ++ (complete_all u calls).0))
            (sym (complete_held c call [] unavailable cb held)) ((refl, refl), ih)
    ]

-- When the connection is reset, no call is outstanding any more, and every call that was has its
-- callback run once, if it still had one, and never again: with no payload, and the status of a
-- connection that is not there.
pub connection_reset-completes :
    (c : RpcClient) (stream_id call : ℕ)
    → lookup c.outgoing_calls stream_id ≡ some call
    → let (xs, u) = connection_reset c in
      (u.outgoing_calls ≡ [])
      × (lookup u.callbacks call ≡ none)
      × (runs call xs ≡ armed (lookup c.callbacks call))
      × All (λ (x : Completion). (x.status ≡ unavailable) × (x.payload ≡ [])) xs
unfolding connection_reset
connection_reset-completes c stream_id call e =
    let taken = record c { outgoing_calls = [] } in
    let (count, calls_eq, streams_eq, out_eq) = complete_all-count taken c.outgoing_calls in
    let gone = complete_all-done taken c.outgoing_calls stream_id call e in
    let nothing : armed (lookup (complete_all taken c.outgoing_calls).1.callbacks call) ≡ 0 =
      ap armed gone in
    (out_eq, gone, omega (arith, count call), complete_all-unavailable taken c.outgoing_calls)

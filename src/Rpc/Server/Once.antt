-- ===== src/Rpc/Server/Once.antt =====
-- No request is answered twice. The critical sections of the server's threads run one after another,
-- in any order: each step is one of them.
use roo_transport.Prelude.{
  ℕ, suc, ◌+◌, ◌≤◌, ◌≡◌, inl, inr, refl, sym, ap, ◌∙◌, subst, false, ltb, ◌==◌, ==_iff, ◌&&◌,
  Bool-cases, Option, none, some, Option-cases, List, [], ◌∷◌, if◌then◌else◌, arith,
}
use roo_transport.Table.{Table, lookup, insert, erase, lookup_here, lookup_there}
use roo_transport.Rpc.{RpcStatus}
use roo_transport.Rpc.Header.{RpcHeader}
use roo_transport.Rpc.Server.{
  RpcRequest, RpcServer, Round, new_server, begin_server, end_server, reconnected, connection_reset,
  prep_for_response, admit, deadline_round, earliest,
}

-- A request: its connection and its stream.
abbrev pub Call : Type 0
Call = ℕ × ℕ

-- The server, the requests that it accepted, and those that a response was sent to.
pub record World : Type 0 where
  pub server : RpcServer
  pub accepted : List Call
  pub answered : List Call

pub data Step (w : World) : World → Type 0 where
  begins : Step w (record w { server = begin_server w.server })
  ends : Step w (record w { server = end_server w.server })
  connects : (connection_id : ℕ) → Step w (record w { server = reconnected w.server connection_id })
  resets :
      (connection_id : ℕ) → Step w (record w { server = connection_reset w.server connection_id })
  admits :
      (connection_id : ℕ) (h : RpcHeader) (function_id : ℕ) (deadline : Option ℕ) (s : RpcServer)
      → admit w.server connection_id h function_id deadline ≡ some s
      → Step w (record w { server = s; accepted = (connection_id, h.stream_id) ∷ w.accepted })
  responds :
      (connection_id stream_id : ℕ) (status : RpcStatus) (now : ℕ) (sent : RpcStatus)
      (s : RpcServer)
      → prep_for_response w.server connection_id stream_id status now ≡ some (sent, s)
      → Step w (record w { server = s; answered = (connection_id, stream_id) ∷ w.answered })
  expires :
      (now : ℕ) (request : RpcRequest) (s : RpcServer)
      → deadline_round w.server now ≡ Round.expire request s
      → Step w (record w {
        server = s;
        answered = (request.connection_id, request.stream_id) ∷ w.answered;
      })

abbrev pub begun : World
begun = record { server = new_server; accepted = []; answered = [] }

pub data Reach : World → Type 0 where
  start : Reach begun
  later : {v w : World} → Reach v → Step v w → Reach w

-- How often a request is in a list.
unfoldable pub times : Call → List Call → ℕ
times q [] = 0
times q ((c, id) ∷ rest) = let n = times q rest in if c == q.0 && id == q.1 then suc n else n

-- How often it is pending.
unfoldable pub open_times : Call → Table RpcRequest → ℕ
open_times q [] = 0
open_times q ((k, r) ∷ rest) =
    let n = open_times q rest in if r.connection_id == q.0 && r.stream_id == q.1 then suc n else n

-- An entry stands under its own stream, of which there is no other.
abbrev pub IsKeyed : Table RpcRequest → Type 0
IsKeyed [] = Unit
IsKeyed ((k, r) ∷ t) = (k ≡ r.stream_id) × (lookup t k ≡ none) × IsKeyed t

record Inv (w : World) : Type 0 where
  keyed : IsKeyed w.server.pending_calls
  balance :
      (q : Call) → times q w.answered + open_times q w.server.pending_calls ≤ times q w.accepted

pub erase-none : (t : Table RpcRequest) (k : ℕ) → lookup t k ≡ none → erase t k ≡ t
unfolding lookup erase
erase-none [] k e = refl
erase-none ((j, r) ∷ t) k e = elim (Bool-cases (j == k)) [
  | inl hit ↦ absurd (ground arith)
  | inr miss ↦
      let rest : lookup t k ≡ none = ground arith in
      rw miss (ap (λ xs. (j, r) ∷ xs) (erase-none t k rest))
]

lookup-erase-none :
    (t : Table RpcRequest) (j k : ℕ) → lookup t j ≡ none → lookup (erase t k) j ≡ none
unfolding lookup erase
lookup-erase-none [] j k e = refl
lookup-erase-none ((i, r) ∷ t) j k e = elim (Bool-cases (i == j)) [
  | inl hit ↦ absurd (ground arith)
  | inr miss ↦
      let rest : lookup t j ≡ none = ground arith in
      let ih = lookup-erase-none t j k rest in
      elim (Bool-cases (i == k)) [ inl q ↦ rw q ih | inr q ↦ rw (q, miss) ih ]
]

pub erase-IsKeyed : (t : Table RpcRequest) (k : ℕ) → IsKeyed t → IsKeyed (erase t k)
unfolding erase
erase-IsKeyed [] k v = tt
erase-IsKeyed ((j, r) ∷ t) k (own, alone, rest) = elim (Bool-cases (j == k)) [
  | inl hit ↦ rw hit (erase-IsKeyed t k rest)
  | inr miss ↦ rw miss (own, lookup-erase-none t j k alone, erase-IsKeyed t k rest)
]

-- Taking an entry out takes one from its request's count, and none from the others'.
open_times-erase :
    (t : Table RpcRequest) (k : ℕ) (r : RpcRequest) (q : Call)
    → IsKeyed t
    → lookup t k ≡ some r
    → open_times q t ≡ open_times q ((k, r) ∷ erase t k)
unfolding open_times lookup erase
open_times-erase [] k r q v e = absurd (ground arith)
open_times-erase ((j, x) ∷ t) k r q (own, alone, rest) e = elim (Bool-cases (j == k)) [
  | inl hit ↦
      let j_eq : j ≡ k = (==_iff j k).0 hit in
      let same : x ≡ r = ground arith in
      let gone : erase t k ≡ t = erase-none t k (subst (λ i. lookup t i ≡ none) j_eq alone) in
      rw (hit, gone, same) refl
  | inr miss ↦
      let found : lookup t k ≡ some r = ground arith in
      let ih = open_times-erase t k r q rest found in rw (miss, ih) (ground arith)
]

prep_cases :
    (s : RpcServer) (c id : ℕ) (status : RpcStatus) (now : ℕ) (sent : RpcStatus) (u : RpcServer)
    → prep_for_response s c id status now ≡ some (sent, u)
    → (r : RpcRequest) × (lookup s.pending_calls id ≡ some r)
      × (r.connection_id ≡ c)
      × (u.pending_calls ≡ erase s.pending_calls id)
unfolding prep_for_response
prep_cases s c id status now sent u e = elim (Bool-cases (c == s.connection_id)) [
  | inr ne ↦ absurd (ground arith)
  | inl yes' ↦ elim (Option-cases (lookup s.pending_calls id)) [
    | inl gone ↦ absurd (ground arith)
    | inr (r, found) ↦ elim (Bool-cases (r.connection_id == c)) [
      | inr ne ↦ absurd (ground arith)
      | inl owner ↦ (r, found, (==_iff _ _).0 owner, ground arith)
    ]
  ]
]

admit_cases :
    (s : RpcServer) (c : ℕ) (h : RpcHeader) (f : ℕ) (deadline : Option ℕ) (u : RpcServer)
    → admit s c h f deadline ≡ some u
    → (r : RpcRequest) × (lookup s.pending_calls h.stream_id ≡ none)
      × (r.connection_id ≡ c)
      × (r.stream_id ≡ h.stream_id)
      × (u.pending_calls ≡ (h.stream_id, r) ∷ s.pending_calls)
unfolding admit insert
admit_cases s c h f deadline u e = elim (Option-cases (lookup s.pending_calls h.stream_id)) [
  | inr (r, found) ↦ absurd (ground arith)
  | inl free ↦ elim (Bool-cases s.active) [
    | inr off ↦ absurd (ground arith)
    | inl on ↦ (
      record {
        connection_id = c;
        function_id = f;
        stream_id = h.stream_id;
        deadline = deadline;
        client_closed = h.last_message;
        server_closed = false;
      },
      free,
      refl,
      refl,
      ground arith,
    )
  ]
]

-- What the search for the earliest deadline finds is an entry of the table.
pub earliest-lookup :
    (t whole : Table RpcRequest) (best : Option (ℕ × ℕ × RpcRequest))
    → IsKeyed t
    → ((k : ℕ) (r : RpcRequest) → lookup t k ≡ some r → lookup whole k ≡ some r)
    → ((d k : ℕ) (r : RpcRequest) → best ≡ some (d, k, r) → lookup whole k ≡ some r)
    → (d k : ℕ) (r : RpcRequest) → earliest t best ≡ some (d, k, r)
    → lookup whole k ≡ some r
unfolding earliest lookup
earliest-lookup [] whole best v within known d k r e = known d k r e
earliest-lookup ((j, x) ∷ t) whole best (own, alone, rest) within known d k r e =
    elim (Option-cases x.deadline) [
      | inl never ↦
          let run : earliest t best ≡ some (d, k, r) = ground arith in
          earliest-lookup t whole best rest below known d k r run
      | inr (d', at_d) ↦ elim (Option-cases best) [
        | inl first ↦
            let run : earliest t (some (d', j, x)) ≡ some (d, k, r) = ground arith in
            earliest-lookup t whole (some (d', j, x)) rest below (new d') d k r run
        | inr ((d2, k2, r2), have) ↦ elim (Bool-cases (ltb d' d2)) [
          | inl lt ↦
              let run : earliest t (some (d', j, x)) ≡ some (d, k, r) = ground arith in
              earliest-lookup t whole (some (d', j, x)) rest below (new d') d k r run
          | inr ge ↦
              let run : earliest t (some (d2, k2, r2)) ≡ some (d, k, r) = ground arith in
              earliest-lookup t whole (some (d2, k2, r2)) rest below
                (λ a b c q. known a b c (have ∙ q)) d k r run
        ]
      ]
    ]
  where
    below : (i : ℕ) (y : RpcRequest) → lookup t i ≡ some y → lookup whole i ≡ some y
    below i y q =
        within i y (lookup_there t j i x (λ same. absurd (cc (alone, q, ap (lookup t) same))) ∙ q)

    new :
        (d' a b : ℕ) (y : RpcRequest)
        → ◌≡◌ {A = Option (ℕ × ℕ × RpcRequest)} (some (d', j, x)) (some (a, b, y))
        → lookup whole b ≡ some y
    new d' a b y q =
        let b_eq : j ≡ b = ground arith in
        let y_eq : x ≡ y = ground arith in
        within b y (ap (λ i. lookup ((j, x) ∷ t) i) (sym b_eq) ∙ lookup_here t j x ∙ ap some y_eq)

Inv-start : Inv begun
unfolding new_server times open_times
Inv-start = record { keyed = tt; balance = λ q. omega arith }

-- The state with fewer pending calls, or none.
cleared : (w : World) (s : RpcServer) → s.pending_calls ≡ [] → Inv w → Inv (record w { server = s })
unfolding open_times
cleared w s e v = record {
  keyed = subst IsKeyed (sym e) tt;
  balance = λ q.
      subst (λ t. times q w.answered + open_times q t ≤ times q w.accepted) (sym e)
        (omega (arith, v.balance q));
}

unchanged :
    (w : World) (s : RpcServer)
    → s.pending_calls ≡ w.server.pending_calls
    → Inv w
    → Inv (record w { server = s })
unchanged w s e v = record {
  keyed = subst IsKeyed (sym e) v.keyed;
  balance = λ q.
      subst (λ t. times q w.answered + open_times q t ≤ times q w.accepted) (sym e) (v.balance q);
}

-- A pending call is taken out and answered.
taken :
    (w : World) (s : RpcServer) (k : ℕ) (r : RpcRequest)
    → lookup w.server.pending_calls k ≡ some r
    → s.pending_calls ≡ erase w.server.pending_calls k
    → Inv w
    → Inv (record w { server = s; answered = (r.connection_id, r.stream_id) ∷ w.answered })
unfolding times open_times
taken w s k r found e v = record {
  keyed = subst IsKeyed (sym e) (erase-IsKeyed w.server.pending_calls k v.keyed);
  balance = λ q.
      let counted = open_times-erase w.server.pending_calls k r q v.keyed found in
      let b = v.balance q in
      subst
        (λ t.
          times q ((r.connection_id, r.stream_id) ∷ w.answered) + open_times q t
          ≤ times q w.accepted)
        (sym e) (ground arith);
}

-- The entry of a stream is for that stream.
keyed_stream :
    (t : Table RpcRequest) (k : ℕ) (r : RpcRequest)
    → IsKeyed t
    → lookup t k ≡ some r
    → k ≡ r.stream_id
unfolding lookup
keyed_stream [] k r v e = absurd (ground arith)
keyed_stream ((j, x) ∷ t) k r (own, alone, rest) e = elim (Bool-cases (j == k)) [
  | inl hit ↦
      let same : x ≡ r = ground arith in
      sym ((==_iff j k).0 hit) ∙ own ∙ ap (λ (y : RpcRequest). y.stream_id) same
  | inr miss ↦ keyed_stream t k r rest (ground arith)
]

-- An accepted request is pending.
added :
    (w : World) (s : RpcServer) (k : ℕ) (r : RpcRequest)
    → lookup w.server.pending_calls k ≡ none
    → k ≡ r.stream_id
    → s.pending_calls ≡ (k, r) ∷ w.server.pending_calls
    → Inv w
    → Inv (record w { server = s; accepted = (r.connection_id, r.stream_id) ∷ w.accepted })
unfolding times open_times
added w s k r free own e v = record {
  keyed = subst IsKeyed (sym e) (own, free, v.keyed);
  balance = λ q.
      let b = v.balance q in
      subst
        (λ t.
          times q w.answered + open_times q t
          ≤ times q ((r.connection_id, r.stream_id) ∷ w.accepted))
        (sym e) (ground arith);
}

pub round_cases :
    (s : RpcServer) (now : ℕ) (r : RpcRequest) (u : RpcServer)
    → IsKeyed s.pending_calls
    → deadline_round s now ≡ Round.expire r u
    → (k : ℕ) × (lookup s.pending_calls k ≡ some r) × (u.pending_calls ≡ erase s.pending_calls k)
unfolding deadline_round
round_cases s now r u v e = elim (Option-cases (earliest s.pending_calls none)) [
  | inl idle ↦ absurd (ground arith)
  | inr ((d, k, x), first) ↦ elim (Bool-cases (ltb now d)) [
    | inl early ↦ absurd (ground arith)
    | inr late ↦
        let same : x ≡ r = ground arith in
        let found =
          earliest-lookup s.pending_calls s.pending_calls none v (λ i y q. q)
            (λ a b c q. absurd (cc q)) d k x first in
        (k, found ∙ ap some same, ground arith)
  ]
]

connects-Inv : (w : World) (c : ℕ) → Inv w → Inv (record w { server = reconnected w.server c })
unfolding reconnected
connects-Inv w c v = elim (Bool-cases (c == w.server.connection_id)) [
  | inl same ↦ unchanged w (reconnected w.server c) (rw same refl) v
  | inr new ↦ cleared w (reconnected w.server c) (rw new refl) v
]

resets-Inv : (w : World) (c : ℕ) → Inv w → Inv (record w { server = connection_reset w.server c })
unfolding connection_reset
resets-Inv w c v = elim (Bool-cases (c == w.server.connection_id)) [
  | inl same ↦ cleared w (connection_reset w.server c) (rw same refl) v
  | inr old ↦ unchanged w (connection_reset w.server c) (rw old refl) v
]

Step-Inv : (v w : World) → Inv v → Step v w → Inv w
unfolding begin_server end_server
Step-Inv v w i begins = unchanged v (begin_server v.server) refl i
Step-Inv v w i ends = cleared v (end_server v.server) refl i
Step-Inv v w i (connects c) = connects-Inv v c i
Step-Inv v w i (resets c) = resets-Inv v c i
Step-Inv v w i (admits c h f deadline s e) =
    let (r, free, owner, stream, after) = admit_cases v.server c h f deadline s e in
    subst (λ (q : Call). Inv (record v { server = s; accepted = q ∷ v.accepted }))
      (λ j. (owner j, stream j)) (added v s h.stream_id r free (sym stream) after i)
Step-Inv v w i (responds c id status now sent s e) =
    let (r, found, owner, after) = prep_cases v.server c id status now sent s e in
    let stream = keyed_stream v.server.pending_calls id r i.keyed found in
    subst (λ (q : Call). Inv (record v { server = s; answered = q ∷ v.answered }))
      (λ j. (owner j, sym stream j)) (taken v s id r found after i)
Step-Inv v w i (expires now r s e) =
    let (k, found, after) = round_cases v.server now r s i.keyed e in taken v s k r found after i

Reach-Inv : (w : World) → Reach w → Inv w
Reach-Inv w start = Inv-start
Reach-Inv w (later {v} reach step) = Step-Inv v w (Reach-Inv v reach) step

-- In every state of a server, however the handlers, the deadline thread, and the messages and resets
-- of the connections interleave, and however often a handler responds: each request, by its
-- connection and stream, was sent at most as many responses as requests were accepted for it, less
-- those that are still pending.
pub answered_once :
    (w : World) (q : Call)
    → Reach w
    → times q w.answered + open_times q w.server.pending_calls ≤ times q w.accepted
answered_once w q reach = (Reach-Inv w reach).balance q

-- ===== src/Rpc/Server/Deadline.antt =====
-- The deadline thread answers every request whose time has come, and no other.
use roo_transport.Prelude.{
  ℕ, zero, suc, ◌+◌, ◌≤◌, ◌<◌, ◌≡◌, ◌≢◌, ◌⊎◌, inl, inr, refl, sym, ap, ◌∙◌, subst, true, false, ltb,
  ◌==◌, ==_iff, Bool-cases, Option, none, some, Option-cases, List, [], ◌∷◌, All, length, arith,
}
use native.Mathlib.Decide.{ℕ_discrete}
use roo_transport.Table.{Table, lookup, erase, lookup-erase, lookup-erase_ne}
use roo_transport.Rpc.Server.{
  RpcRequest, RpcServer, Round, is_expired, earliest, deadline_round, expire_all,
}
use roo_transport.Rpc.Server.Once.{IsKeyed, erase-IsKeyed, erase-none, round_cases}

-- No earlier than what the search has found.
abbrev IsFrom : Option ℕ → Option (ℕ × ℕ × RpcRequest) → Type 0
IsFrom none best = Unit
IsFrom (some e) none = ⊥
IsFrom (some e) (some (d, k, r)) = d ≤ e

-- What the search finds is no later than what it started from.
earliest-le :
    (t : Table RpcRequest) (best : Option (ℕ × ℕ × RpcRequest)) (e : Option ℕ)
    → IsFrom e best
    → IsFrom e (earliest t best)
unfolding earliest
earliest-le t best none h = tt
earliest-le [] best (some e) h = h
earliest-le ((j, x) ∷ t) none (some e) h = absurd h
earliest-le ((j, x) ∷ t) (some (d, k, r)) (some e) h = elim (Option-cases x.deadline) [
  | inl never ↦ rw never (earliest-le t (some (d, k, r)) (some e) h)
  | inr (d', at_d) ↦ elim (Bool-cases (ltb d' d)) [
    | inl lt ↦
        let le : d' ≤ e = ground arith in
        rw (at_d, lt) (earliest-le t (some (d', j, x)) (some e) le)
    | inr ge ↦ rw (at_d, ge) (earliest-le t (some (d, k, r)) (some e) h)
  ]
]

-- One entry: the search goes on from the entry, or from what it had, and from nothing later than
-- the entry.
Goes : ℕ → RpcRequest → Table RpcRequest → Option (ℕ × ℕ × RpcRequest) → Type 0
Goes j x t best =
    (best' : Option (ℕ × ℕ × RpcRequest)) × (earliest ((j, x) ∷ t) best ≡ earliest t best')
    × IsFrom x.deadline best'

goes :
    (j : ℕ) (x : RpcRequest) (t : Table RpcRequest) (best : Option (ℕ × ℕ × RpcRequest))
    → Goes j x t best
unfolding earliest Goes
goes j x t none = elim (Option-cases x.deadline) [
  | inl never ↦ (none, ground arith, subst (λ o. IsFrom o none) (sym never) tt)
  | inr (d', at_d) ↦ (
    some (d', j, x),
    ground arith,
    subst (λ o. IsFrom o (some (d', j, x))) (sym at_d) (omega arith),
  )
]
goes j x t (some (d, k, r)) = elim (Option-cases x.deadline) [
  | inl never ↦
      (some (d, k, r), ground arith, subst (λ o. IsFrom o (some (d, k, r))) (sym never) tt)
  | inr (d', at_d) ↦ elim (Bool-cases (ltb d' d)) [
    | inl lt ↦ (
      some (d', j, x),
      ground arith,
      subst (λ o. IsFrom o (some (d', j, x))) (sym at_d) (omega arith),
    )
    | inr ge ↦
        let le : d ≤ d' = ground arith in
        (some (d, k, r), ground arith, subst (λ o. IsFrom o (some (d, k, r))) (sym at_d) le)
  ]
]

-- What the search finds is no later than any entry of the table.
earliest-first :
    (t : Table RpcRequest) (best : Option (ℕ × ℕ × RpcRequest)) (k : ℕ) (r : RpcRequest)
    → lookup t k ≡ some r
    → IsFrom r.deadline (earliest t best)
unfolding lookup Goes
earliest-first [] best k r e = absurd (ground arith)
earliest-first ((j, x) ∷ t) best k r e =
    let (best', run, from) = goes j x t best in
    subst (IsFrom r.deadline) (sym run) (elim (Bool-cases (j == k)) [
      | inr miss ↦
          let found : lookup t k ≡ some r = ground arith in earliest-first t best' k r found
      | inl hit ↦
          let same : x ≡ r = ground arith in
          earliest-le t best' r.deadline
            (subst (λ (y : RpcRequest). IsFrom y.deadline best') same from)
    ])

not_expired :
    (s : RpcServer) (now : ℕ) (best : Option (ℕ × ℕ × RpcRequest)) (o : Option ℕ)
    → IsFrom o best
    → (best ≡ none) ⊎ ((d k : ℕ) (r : RpcRequest) → best ≡ some (d, k, r) → now < d)
    → is_expired o now ≡ false
not_expired s now best none h late = refl
not_expired s now none (some e) h late = absurd h
not_expired s now (some (d, k, r)) (some e) h (inl none_found) = absurd (cc none_found)
not_expired s now (some (d, k, r)) (some e) h (inr late) =
    let lt : now < d = late d k r refl in ground arith

-- A round that waits leaves nothing expired.
waits :
    (s : RpcServer) (now k : ℕ) (r : RpcRequest)
    → (deadline_round s now ≡ Round.wait) ⊎ ((d : ℕ) × (deadline_round s now ≡ Round.wait_until d))
    → lookup s.pending_calls k ≡ some r
    → is_expired r.deadline now ≡ false
unfolding deadline_round
waits s now k r w found =
    let from = earliest-first s.pending_calls none k r found in
    elim (Option-cases (earliest s.pending_calls none)) [
      | inl idle ↦ not_expired s now (earliest s.pending_calls none) r.deadline from (inl idle)
      | inr ((d, j, x), first) ↦ elim (Bool-cases (ltb now d)) [
        | inl early ↦
            not_expired s now (earliest s.pending_calls none) r.deadline from
              (inr (λ d' k' r' q. ground arith))
        | inr late ↦ absurd (elim w [ inl idle ↦ ground arith | inr (d2, waiting) ↦ ground arith ])
      ]
    ]

-- What the search holds is a request with its deadline.
abbrev IsDue : Option (ℕ × ℕ × RpcRequest) → Type 0
IsDue none = Unit
IsDue (some (d, k, r)) = r.deadline ≡ some d

earliest-IsDue :
    (t : Table RpcRequest) (best : Option (ℕ × ℕ × RpcRequest))
    → IsDue best
    → IsDue (earliest t best)
unfolding earliest
earliest-IsDue [] best h = h
earliest-IsDue ((j, x) ∷ t) none h = elim (Option-cases x.deadline) [
  | inl never ↦ rw never (earliest-IsDue t none tt)
  | inr (d', at_d) ↦
      let run : earliest ((j, x) ∷ t) none ≡ earliest t (some (d', j, x)) = ground arith in
      subst IsDue (sym run) (earliest-IsDue t (some (d', j, x)) at_d)
]
earliest-IsDue ((j, x) ∷ t) (some (d, k, r)) h = elim (Option-cases x.deadline) [
  | inl never ↦ rw never (earliest-IsDue t (some (d, k, r)) h)
  | inr (d', at_d) ↦ elim (Bool-cases (ltb d' d)) [
    | inl lt ↦
        let run : earliest ((j, x) ∷ t) (some (d, k, r)) ≡ earliest t (some (d', j, x)) =
          ground arith in
        subst IsDue (sym run) (earliest-IsDue t (some (d', j, x)) at_d)
    | inr ge ↦
        let run : earliest ((j, x) ∷ t) (some (d, k, r)) ≡ earliest t (some (d, k, r)) =
          ground arith in
        subst IsDue (sym run) (earliest-IsDue t (some (d, k, r)) h)
  ]
]

-- A request is answered only when its time has come.
expires_due :
    (s : RpcServer) (now : ℕ) (r : RpcRequest) (u : RpcServer)
    → deadline_round s now ≡ Round.expire r u
    → is_expired r.deadline now ≡ true
unfolding deadline_round
expires_due s now r u e = elim (Option-cases (earliest s.pending_calls none)) [
  | inl idle ↦ absurd (ground arith)
  | inr ((d, k, x), first) ↦ elim (Bool-cases (ltb now d)) [
    | inl early ↦ absurd (ground arith)
    | inr late ↦
        let same : x ≡ r = ground arith in
        let due : x.deadline ≡ some d =
          subst IsDue first (earliest-IsDue s.pending_calls none tt) in
        let due' : r.deadline ≡ some d = ap (λ (y : RpcRequest). y.deadline) (sym same) ∙ due in
        ground arith
  ]
]

round-active :
    (s : RpcServer) (now : ℕ) (r : RpcRequest) (u : RpcServer)
    → deadline_round s now ≡ Round.expire r u
    → u.active ≡ s.active
unfolding deadline_round
round-active s now r u e = elim (Option-cases (earliest s.pending_calls none)) [
  | inl idle ↦ absurd (ground arith)
  | inr ((d, k, x), first) ↦ elim (Bool-cases (ltb now d)) [
    | inl early ↦ absurd (ground arith)
    | inr late ↦ ground arith
  ]
]

length-erase :
    (t : Table RpcRequest) (k : ℕ) (r : RpcRequest)
    → IsKeyed t
    → lookup t k ≡ some r
    → length (erase t k) + 1 ≡ length t
unfolding lookup erase
length-erase [] k r v e = absurd (ground arith)
length-erase ((j, x) ∷ t) k r (own, alone, rest) e = elim (Bool-cases (j == k)) [
  | inl hit ↦
      let j_eq : j ≡ k = (==_iff j k).0 hit in
      let gone : erase t k ≡ t = erase-none t k (subst (λ i. lookup t i ≡ none) j_eq alone) in
      rw (hit, gone) (omega arith)
  | inr miss ↦
      let found : lookup t k ≡ some r = ground arith in
      let ih = length-erase t k r rest found in rw miss (omega (arith, ih))
]

Round-cases :
    (o : Round)
    → ((o ≡ Round.wait) ⊎ ((d : ℕ) × (o ≡ Round.wait_until d)))
      ⊎ ((r : RpcRequest) × (u : RpcServer) × (o ≡ Round.expire r u))
Round-cases Round.wait = inl (inl refl)
Round-cases (Round.wait_until d) = inl (inr (d, refl))
Round-cases (Round.expire r u) = inr (r, u, refl)

abbrev pub IsAmong : RpcRequest → List RpcRequest → Type 0
IsAmong q [] = ⊥
IsAmong q (r ∷ rs) = (q ≡ r) ⊎ IsAmong q rs

own_key :
    (t : Table RpcRequest) (k : ℕ) (r : RpcRequest)
    → IsKeyed t
    → lookup t k ≡ some r
    → k ≡ r.stream_id
unfolding lookup
own_key [] k r v e = absurd (ground arith)
own_key ((j, x) ∷ t) k r (own, alone, rest) e = elim (Bool-cases (j == k)) [
  | inl hit ↦
      let same : x ≡ r = ground arith in
      sym ((==_iff j k).0 hit) ∙ own ∙ ap (λ (y : RpcRequest). y.stream_id) same
  | inr miss ↦ let found : lookup t k ≡ some r = ground arith in own_key t k r rest found
]

All-map :
    (P Q : RpcRequest → Type 0) (rs : List RpcRequest)
    → ((r : RpcRequest) → P r → Q r)
    → All P rs
    → All Q rs
All-map P Q [] f h = tt
All-map P Q (r ∷ rs) f (h, hs) = (f r h, All-map P Q rs f hs)

-- The result of the deadline thread: the requests `rs` were taken, each the pending call of its
-- stream and each that has expired, and the rest are pending.
pub record Expired (s : RpcServer) (now : ℕ) (rs : List RpcRequest) (v : RpcServer) : Type 0 where
  pub due :
      All
        (λ (r : RpcRequest).
          (is_expired r.deadline now ≡ true) × (lookup s.pending_calls r.stream_id ≡ some r))
        rs
  pub each :
      (k : ℕ) (r : RpcRequest)
      → lookup s.pending_calls k ≡ some r
      → is_expired r.deadline now ≡ true
      → IsAmong r rs
  pub kept :
      (k : ℕ) (r : RpcRequest)
      → lookup s.pending_calls k ≡ some r
      → is_expired r.deadline now ≡ false
      → lookup v.pending_calls k ≡ some r
  pub left :
      (k : ℕ) (r : RpcRequest)
      → lookup v.pending_calls k ≡ some r
      → (lookup s.pending_calls k ≡ some r) × (is_expired r.deadline now ≡ false)
  pub count : length rs + length v.pending_calls ≡ length s.pending_calls

-- If each pending call is listed under its stream once, as in every state that a server reaches, and
-- the server is active, then the deadline thread, at one time and with no other thread in between,
-- ends its rounds after at most one for each pending call: it has taken the pending calls whose
-- deadline has passed, each of them once, and no other; those whose deadline has not passed are all
-- still pending, and nothing else is.
pub expire_all-Expired :
    (fuel : ℕ) (s : RpcServer) (now : ℕ)
    → IsKeyed s.pending_calls
    → s.active ≡ true
    → length s.pending_calls < fuel
    → (rs : List RpcRequest) × (v : RpcServer) × (expire_all fuel s now ≡ some (rs, v))
      × Expired s now rs v
unfolding expire_all
expire_all-Expired zero s now v on h = absurd (omega arith)
expire_all-Expired (suc fuel) s now v on h = elim (Round-cases (deadline_round s now)) [
  | inl w ↦ (
    [],
    s,
    stop w,
    record {
      due = tt;
      each = λ k r e x. cc (x, waits s now k r w e);
      kept = λ k r e l. e;
      left = λ k r e. (e, waits s now k r w e);
      count = omega arith;
    },
  )
  | inr (r, u, round) ↦
      let (k, found, after) = round_cases s now r u v round in
      let len = length-erase s.pending_calls k r v found in
      let (rs, t, run, x) =
        expire_all-Expired fuel u now
          (subst IsKeyed (sym after) (erase-IsKeyed s.pending_calls k v))
          (round-active s now r u round ∙ on) (omega (arith, ap length after, len)) in
      (
        r ∷ rs,
        t,
        next r u rs t round run,
        record {
          due = (
            (
              expires_due s now r u round,
              ap (lookup s.pending_calls) (sym (own_key s.pending_calls k r v found)) ∙ found,
            ),
            All-map _ _ rs
                (λ q (d, e). (
                  d,
                  back q.stream_id q k (ℕ_discrete k q.stream_id)
                      (sym (ap (λ p. lookup p q.stream_id) after) ∙ e),
                ))
                x.due,
          );
          each = λ j y e l. each_of j y e l r k found after rs x.each (ℕ_discrete k j);
          kept = λ j y e l.
              x.kept j y
                (ap (λ p. lookup p j) after
                  ∙ lookup-erase_ne s.pending_calls k j
                      (other j y r k found e l (expires_due s now r u round))
                  ∙ e)
                l;
          left = λ j y e.
              let (there, l) = x.left j y e in
              (back j y k (ℕ_discrete k j) (sym (ap (λ p. lookup p j) after) ∙ there), l);
          count = omega (arith, x.count, ap length after, len);
        },
      )
]
  where
    each_of :
        (j : ℕ) (y : RpcRequest)
        → lookup s.pending_calls j ≡ some y
        → is_expired y.deadline now ≡ true
        → (r : RpcRequest) (k : ℕ) → lookup s.pending_calls k ≡ some r
        → {t : Table RpcRequest} → t ≡ erase s.pending_calls k
        → (rs : List RpcRequest)
        → ((j : ℕ) (y : RpcRequest)
            → lookup t j ≡ some y
            → is_expired y.deadline now ≡ true
            → IsAmong y rs)
        → Dec (k ≡ j)
        → IsAmong y (r ∷ rs)
    each_of j y e l r k found after rs rest (yes q) =
        let both : some y ≡ some r = sym e ∙ ap (lookup s.pending_calls) (sym q) ∙ found in
        let same : y ≡ r = ground arith in inl same
    each_of j y e l r k found after rs rest (no ne) =
        inr (rest j y (ap (λ p. lookup p j) after ∙ lookup-erase_ne s.pending_calls k j ne ∙ e) l)

    stop :
        (deadline_round s now ≡ Round.wait)
          ⊎ ((d : ℕ) × (deadline_round s now ≡ Round.wait_until d))
        → expire_all (suc fuel) s now ≡ some ([], s)
    stop (inl e) = simp (expire_all, on, e) refl
    stop (inr (d, e)) = simp (expire_all, on, e) refl

    next :
        (r : RpcRequest) (u : RpcServer) (rs : List RpcRequest) (t : RpcServer)
        → deadline_round s now ≡ Round.expire r u
        → expire_all fuel u now ≡ some (rs, t)
        → expire_all (suc fuel) s now ≡ some (r ∷ rs, t)
    next r u rs t e run = simp (expire_all, on, e, run) refl

    other :
        (j : ℕ) (y r : RpcRequest) (k : ℕ)
        → lookup s.pending_calls k ≡ some r
        → lookup s.pending_calls j ≡ some y
        → is_expired y.deadline now ≡ false
        → is_expired r.deadline now ≡ true
        → k ≢ j
    other j y r k found e l due q =
        let both : some r ≡ some y = sym found ∙ ap (lookup s.pending_calls) q ∙ e in
        let same : r ≡ y = ground arith in
        cc (l, due, ap (λ (z : RpcRequest). is_expired z.deadline now) same)

    back :
        (j : ℕ) (y : RpcRequest) (k : ℕ)
        → Dec (k ≡ j)
        → lookup (erase s.pending_calls k) j ≡ some y
        → lookup s.pending_calls j ≡ some y
    back j y k (yes q) e =
        absurd (cc (e, lookup-erase s.pending_calls k, ap (lookup (erase s.pending_calls k)) q))
    back j y k (no ne) e = sym (lookup-erase_ne s.pending_calls k j ne) ∙ e

-- ===== src/Mux/Laws.antt =====
-- A message reaches the channel that it was sent on.
use roo_transport.Prelude.{
  ℕ, ◌%◌, ◌<◌, ◌≡◌, ◌≢◌, refl, sym, ◌==◌, ==_iff, Bool-cases, inl, inr, none, some, List, ◌∷◌, ◌++◌,
  arith,
}
use roo_transport.Mux.{Receivers, find, register_channel, new_header, received}

module _ {A : Type 0} where
  find_here : (rs : Receivers A) (id : ℕ) (a : A) → find ((id, a) ∷ rs) id ≡ some a
  unfolding find
  find_here rs id a = rw ((==_iff id id).1 refl)

  -- The message of a channel, its header and payload, sent under its identifier.
  received_known :
      (rs : Receivers A) (id : ℕ) (a : A) (header payload : List ℕ)
      → id < 256
      → find rs id ≡ some a
      → received rs (new_header id header ++ payload) ≡ some (a, header ++ payload)
  unfolding received new_header
  received_known rs id a header payload lt e =
      let id_eq : id % 256 ≡ id = omega arith in rw (id_eq, received, e)

  find_other : (rs : Receivers A) (id k : ℕ) (a : A) → id ≢ k → find ((id, a) ∷ rs) k ≡ find rs k
  unfolding find
  find_other rs id k a ne = elim (Bool-cases (id == k)) [
    | inl e ↦ absurd (ne ((==_iff id k).0 e))
    | inr e ↦ rw e
  ]

-- A channel that registers under a free identifier of one byte gets every message that is sent on
-- it, whole and without the identifier, and the messages of the other channels still go where they
-- went.
pub register_channel-received :
    {A : Type 0} (rs : Receivers A) (id : ℕ) (a : A) (header payload : List ℕ)
    → id < 256
    → find rs id ≡ none
    → (rs' : Receivers A) × (register_channel rs id a ≡ some rs')
      × (received rs' (new_header id header ++ payload) ≡ some (a, header ++ payload))
      × ((k : ℕ) (message : List ℕ)
          → k ≢ id
          → received rs' (k ∷ message) ≡ received rs (k ∷ message))
unfolding register_channel received
register_channel-received rs id a header payload lt free = (
  (id, a) ∷ rs,
  rw (register_channel, free),
  received_known ((id, a) ∷ rs) id a header payload lt (find_here rs id a),
  λ k message ne. other k message ne,
)
  where
    other :
        (k : ℕ) (message : List ℕ)
        → k ≢ id
        → received ((id, a) ∷ rs) (k ∷ message) ≡ received rs (k ∷ message)
    other k message ne = rw (received, find_other rs id k a (λ e. ne (sym e)))

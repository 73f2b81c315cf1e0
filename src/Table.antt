-- ===== src/Table.antt =====
-- What the code uses of roo_collections' FlatSmallHashMap: a map from identifiers, where `insert` does
-- nothing if the key is there.
use roo_transport.Prelude.{
  ℕ, ◌≡◌, ◌≢◌, refl, sym, ◌∙◌, inl, inr, ◌==◌, ==_iff, Bool-cases, Option, none, some, List, [],
  ◌∷◌, if◌then◌else◌,
}

abbrev pub Table : Type 0 → Type 0
Table A = List (ℕ × A)

unfoldable pub lookup : {A : Type 0} → Table A → ℕ → Option A
lookup [] k = none
lookup ((j, a) ∷ t) k = if j == k then some a else lookup t k

unfoldable pub insert : {A : Type 0} → Table A → ℕ → A → Table A
insert t k a = elim (lookup t k) [ none ↦ (k, a) ∷ t | some b ↦ t ]

unfoldable pub erase : {A : Type 0} → Table A → ℕ → Table A
erase [] k = []
erase ((j, a) ∷ t) k = let rest = erase t k in if j == k then rest else (j, a) ∷ rest

module _ {A : Type 0} where
  pub lookup_here : (t : Table A) (k : ℕ) (a : A) → lookup ((k, a) ∷ t) k ≡ some a
  unfolding lookup
  lookup_here t k a = rw ((==_iff k k).1 refl)

  pub lookup_there : (t : Table A) (j k : ℕ) (a : A) → j ≢ k → lookup ((j, a) ∷ t) k ≡ lookup t k
  unfolding lookup
  lookup_there t j k a ne = elim (Bool-cases (j == k)) [
    | inl e ↦ absurd (ne ((==_iff j k).0 e))
    | inr e ↦ rw e
  ]

  pub lookup-erase : (t : Table A) (k : ℕ) → lookup (erase t k) k ≡ none
  unfolding lookup erase
  lookup-erase [] k = refl
  lookup-erase ((j, a) ∷ t) k = elim (Bool-cases (j == k)) [
    | inl e ↦ rw e (lookup-erase t k)
    | inr e ↦ rw (e, e) (lookup-erase t k)
  ]

  pub lookup-erase_ne : (t : Table A) (j k : ℕ) → j ≢ k → lookup (erase t j) k ≡ lookup t k
  unfolding lookup erase
  lookup-erase_ne [] j k ne = refl
  lookup-erase_ne ((i, a) ∷ t) j k ne = elim (Bool-cases (i == j)) [
    | inl e ↦
        let i_eq : i ≡ j = (==_iff i j).0 e in
        rw e (lookup-erase_ne t j k ne ∙ sym (lookup_there t i k a (λ q. ne (sym i_eq ∙ q))))
    | inr e ↦ elim (Bool-cases (i == k)) [
      | inl q ↦ rw (e, q) refl
      | inr q ↦ rw (e, q) (lookup-erase_ne t j k ne)
    ]
  ]

  pub insert_free : (t : Table A) (k : ℕ) (a : A) → lookup t k ≡ none → insert t k a ≡ (k, a) ∷ t
  unfolding insert
  insert_free t k a e = rw (insert, e)

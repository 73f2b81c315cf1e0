-- ===== src/Backoff/Bounds.antt =====
-- The delay stays within a fifth of a base that grows from the initial delay up to the cap.
use roo_transport.Prelude.{
  ℕ, zero, suc, ◌+◌, ◌-◌, ◌*◌, ◌/◌, ◌%◌, ◌^◌, ◌≤◌, ◌<◌, ◌≡◌, refl, ap, ◌∙◌, subst, true, false, min,
  ltb, ltb→lt, Bool-cases, inl, inr, arith,
}
use native.Mathlib.Nat.{mod-eq_of_lt}
use roo_transport.Backoff.{grow_once, grow, retry_backoff_micros}

grow_once_bounds : (d m : ℕ) → d < m → m ≤ 1000000 → (d ≤ grow_once m d) × (grow_once m d ≤ m)
unfolding grow_once
grow_once_bounds d m h hm = ground arith

pub grow_bounds : (n m d : ℕ) → d ≤ m → m ≤ 1000000 → (d ≤ grow n m d) × (grow n m d ≤ m)
unfolding grow
grow_bounds zero m d h hm = omega arith
grow_bounds (suc n) m d h hm = elim (Bool-cases (ltb d m)) [
  | inl e ↦ ground (arith, grow_once_bounds d m, grow_bounds n m (grow_once m d))
  | inr e ↦ ground arith
]

-- What is left of the growth by rounds, with no cap.
abbrev grown : ℕ → ℕ → ℕ
grown zero l = l
grown (suc n) l = grown n ((l * 133 + 50) / 100)

grown_mono : (n a b : ℕ) → a ≤ b → grown n a ≤ grown n b
grown_mono zero a b h = h
grown_mono (suc n) a b h = grown_mono n ((a * 133 + 50) / 100) ((b * 133 + 50) / 100) (omega arith)

grow_full : (n m : ℕ) → grow n m m ≡ m
unfolding grow
grow_full zero m = refl
grow_full (suc n) m = ground arith

grow_reaches : (n m d : ℕ) → d ≤ m → m ≤ 1000000 → m ≤ grown n d → grow n m d ≡ m
unfolding grow grow_once
grow_reaches zero m d h hm r = omega arith
grow_reaches (suc n) m d h hm r = elim (Bool-cases (ltb d m)) [
  | inl e ↦ elim (Bool-cases (ltb m ((d * 133 + 50) / 100))) [
    | inl f ↦ ground (arith, grow_full n m)
    | inr f ↦ ground (arith, grow_reaches n m ((d * 133 + 50) / 100))
  ]
  | inr e ↦ ground arith
]

grown_ge : (n l : ℕ) → l ≤ grown n l
grown_ge zero l = omega arith
grown_ge (suc n) l = omega (arith, grown_ge n ((l * 133 + 50) / 100))

grown_more : (n k l : ℕ) → n ≤ k → grown n l ≤ grown k l
grown_more zero k l h = grown_ge k l
grown_more (suc n) zero l h = absurd (omega arith)
grown_more (suc n) (suc k) l h = grown_more n k ((l * 133 + 50) / 100) (omega arith)

grown_25 : grown 25 1000 ≡ 1248225
grown_25 = refl

-- Twenty-five rounds reach the cap from any initial delay of at least 1000 us, for a cap of at most
-- 1000000 us, and further rounds change nothing.
pub grow_saturates : (n m d : ℕ) → 25 ≤ n → 1000 ≤ d → d ≤ m → m ≤ 1000000 → grow n m d ≡ m
grow_saturates n m d hn h hd hm =
    grow_reaches n m d hd hm (omega (arith, grown_25, grown_mono 25 1000 d h, grown_more 25 n d hn))

bin_lt : (draw k : ℕ) → draw < k → draw * 8192 / k < 8192
bin_lt draw k h = grind arith

scaled_lt : (a r : ℕ) → a < 8192 → a * r ≤ 8191 * r
scaled_lt a r h = grind arith

bin_eq :
    (draw rm : ℕ)
    → draw ≤ rm
    → rm < 2 ^ 32
    → draw * 8192 % 2 ^ 64 / ((rm + 1) % 2 ^ 64) % 2 ^ 32 ≡ draw * 8192 / (rm + 1)
bin_eq draw rm h hr = rw (
  mod-eq_of_lt {n = draw * 8192} {m = 2 ^ 64} (omega arith),
  mod-eq_of_lt {n = rm + 1} {m = 2 ^ 64} (omega arith),
  mod-eq_of_lt {n = draw * 8192 / (rm + 1)} {m = 2 ^ 32}
      (omega (arith, bin_lt draw (rm + 1) (omega arith))),
)

spread :
    (d b : ℕ)
    → b < 8192
    → d ≤ 1000000
    → let out = (d - d / 5 + b * (2 * (d / 5) % 2 ^ 32) % 2 ^ 32 / 2 ^ 13) % 2 ^ 32 in
      (d - d / 5 ≤ out) × (out ≤ d + d / 5)
spread d b hb hd =
    rw
      (
        mod-eq_of_lt {n = 2 * (d / 5)} {m = 2 ^ 32} (omega arith),
        mod-eq_of_lt {n = b * (2 * (d / 5))} {m = 2 ^ 32}
            (omega (arith, scaled_lt b (2 * (d / 5)) hb)),
      )
      (omega (arith, scaled_lt b (2 * (d / 5)) hb))

-- The growth with the numbers of mathematics, which have no width.
unfoldable pub base_of : ℕ → ℕ → ℕ → ℕ
base_of zero m d = d
base_of (suc n) m d = elim (ltb d m) [
  | true ↦ base_of n m (min m ((d * 133 + 50) / 100))
  | false ↦ d
]

grow_once-exact : (d m : ℕ) → d < m → m ≤ 1000000 → grow_once m d ≡ min m ((d * 133 + 50) / 100)
unfolding grow_once
grow_once-exact d m h hm = ground arith

grow-exact : (n m d : ℕ) → m ≤ 1000000 → grow n m d ≡ base_of n m d
unfolding grow base_of
grow-exact zero m d hm = refl
grow-exact (suc n) m d hm = elim (Bool-cases (ltb d m)) [
  | inl e ↦
      simp (grow, base_of, e)
        (ap (grow n m) (grow_once-exact d m (ltb→lt d m e) hm)
          ∙ grow-exact n m (min m ((d * 133 + 50) / 100)) hm)
  | inr e ↦ simp (grow, base_of, e) refl
]

delay-exact :
    (d b : ℕ)
    → b < 8192
    → d ≤ 1000000
    → (d - d / 5 + b * (2 * (d / 5) % 2 ^ 32) % 2 ^ 32 / 2 ^ 13) % 2 ^ 32
      ≡ d - d / 5 + b * (2 * (d / 5)) / 8192
delay-exact d b hb hd =
    rw
      (
        mod-eq_of_lt {n = 2 * (d / 5)} {m = 2 ^ 32} (omega arith),
        mod-eq_of_lt {n = b * (2 * (d / 5))} {m = 2 ^ 32}
            (omega (arith, scaled_lt b (2 * (d / 5)) hb)),
      )
      (omega (arith, scaled_lt b (2 * (d / 5)) hb))

-- The delay is what the same formulas give on numbers that have no width, so no operation of 32 or
-- 64 bits wraps, whatever number is drawn; it differs from its base by at most a fifth of it, and the
-- base lies between the initial delay and the cap, which is at most a second.
pub retry_backoff_micros_bounds :
    (random_max initial m count draw : ℕ)
    → initial ≤ m
    → m ≤ 1000000
    → draw ≤ random_max
    → random_max < 2 ^ 32
    → let base = base_of count m initial in
      let delay = retry_backoff_micros random_max initial m count draw in
      (delay ≡ base - base / 5 + draw * 8192 / (random_max + 1) * (2 * (base / 5)) / 8192)
      × (initial ≤ base)
      × (base ≤ m)
      × (base - base / 5 ≤ delay)
      × (delay ≤ base + base / 5)
unfolding retry_backoff_micros
retry_backoff_micros_bounds random_max initial m count draw h hm hd hr =
    let g = grow_bounds count m initial h hm in
    let s =
      spread (grow count m initial) (draw * 8192 / (random_max + 1))
        (bin_lt draw (random_max + 1) (omega arith)) (omega arith) in
    let b = draw * 8192 / (random_max + 1) in
    let small = bin_lt draw (random_max + 1) (omega arith) in
    let same = grow-exact count m initial hm in
    let exact : retry_backoff_micros random_max initial m count draw
        ≡ base_of count m initial
          - base_of count m initial / 5
          + b * (2 * (base_of count m initial / 5)) / 8192 =
      rw
        (
          bin_eq draw random_max hd hr,
          delay-exact (grow count m initial) b small (omega (arith, g.1)),
        )
        (ap (λ n. n - n / 5 + b * (2 * (n / 5)) / 8192) same) in
    let delay = retry_backoff_micros random_max initial m count draw in
    let near : (initial ≤ base_of count m initial)
        × (base_of count m initial ≤ m)
        × (base_of count m initial - base_of count m initial / 5 ≤ delay)
        × (delay ≤ base_of count m initial + base_of count m initial / 5) =
      subst (λ n. (initial ≤ n) × (n ≤ m) × (n - n / 5 ≤ delay) × (delay ≤ n + n / 5)) same
        (g.0, g.1, rw (bin_eq draw random_max hd hr) s.0, rw (bin_eq draw random_max hd hr) s.1) in
    (exact, near.0, near.1, near.2, near.3)

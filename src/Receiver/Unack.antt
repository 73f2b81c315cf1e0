-- ===== src/Receiver/Unack.antt =====
-- `handleDataPacket`: the newest unacknowledged number runs over what has been received.
use roo_transport.Prelude.{
  ℕ, zero, suc, ◌+◌, ◌%◌, ◌^◌, ◌≤◌, ◌<◌, ◌≡◌, ◌⊎◌, inl, inr, ap, ◌∙◌, true, false, ltb, Bool-cases,
  ltb-false, ltb→lt, Option, some, arith,
}
use native.Mathlib.Decide.{dec_lt}
use roo_transport.Seq.{seq_add}
use roo_transport.Seq.Order.{sub16-seq_add, seq_add-seq_add, seq_add-lt}
use roo_transport.Ring
use roo_transport.Ring.{capacity, slots_used}
use roo_transport.Ring.Window.{IsValid, used-le, contains-distance}
use roo_transport.Receiver.{Receiver, get_in_buffer, is_unset}
use roo_transport.Receiver.Packet.{unack_loop}
use roo_transport.Receiver.Inv.{nth}

-- The receiver with the acknowledgement at distance `y`, and some count of packets.
abbrev pub moved : Receiver → ℕ → ℕ → Receiver
moved r y n = record r { unack_seq = seq_add r.ring.begin y; packets_received = n }

-- From the distance `x` on, every buffer up to the distance `y` is filled, and `y` is the first that
-- is not, or the end of the window.
pub record Reaches (r : Receiver) (x y : ℕ) : Type 0 where
  pub after : x ≤ y
  pub within : y ≤ slots_used r.ring
  pub filled : (k : ℕ) → x ≤ k → k < y → is_unset (nth r k) ≡ false
  pub stops : (y ≡ slots_used r.ring) ⊎ (is_unset (nth r y) ≡ true)

contains-at :
    (r : Receiver) (x : ℕ)
    → IsValid r.ring
    → x ≤ slots_used r.ring
    → Ring.contains r.ring (seq_add r.ring.begin x) ≡ ltb x (slots_used r.ring)
contains-at r x v h =
    let d = sub16-seq_add r.ring.begin x (omega (arith, used-le v)) in
    contains-distance (seq_add r.ring.begin x) v (seq_add-lt r.ring.begin x)
      (omega (arith, used-le v))
    ∙ ap (λ k. ltb k (slots_used r.ring)) d

module _ (fuel : ℕ) (r : Receiver) (x n : ℕ) where
  abbrev next : Receiver
  next = moved r (x + 1) ((n + 1) % 2 ^ 32)

  same_end :
      ◌≡◌ {A = Option Receiver}
        (some (record r {
          unack_seq = seq_add (seq_add r.ring.begin x) 1;
          packets_received = (n + 1) % 2 ^ 32;
        }))
        (some next)
  same_end =
      ap (λ k. some (record r { unack_seq = k; packets_received = (n + 1) % 2 ^ 32 }))
        (seq_add-seq_add r.ring.begin x 1)

  loop_on :
      Ring.contains r.ring (seq_add r.ring.begin (x + 1)) ≡ true
      → is_unset (nth r (x + 1)) ≡ false
      → unack_loop (suc fuel) (moved r x n) ≡ unack_loop fuel next
  unfolding unack_loop get_in_buffer Ring.offset_for
  loop_on c f =
      rw (unack_loop, seq_add-seq_add r.ring.begin x 1, c, f)
        (ap (λ k. unack_loop fuel (record r { unack_seq = k; packets_received = (n + 1) % 2 ^ 32 }))
          (seq_add-seq_add r.ring.begin x 1))

  loop_end :
      (Ring.contains r.ring (seq_add r.ring.begin (x + 1)) ≡ false)
        ⊎ (is_unset (nth r (x + 1)) ≡ true)
      → unack_loop (suc fuel) (moved r x n) ≡ some next
  unfolding unack_loop get_in_buffer Ring.offset_for
  loop_end (inl c) = rw (unack_loop, seq_add-seq_add r.ring.begin x 1, c) same_end
  loop_end (inr u) = elim (Bool-cases (Ring.contains r.ring (seq_add r.ring.begin (x + 1)))) [
    | inl c ↦ rw (unack_loop, seq_add-seq_add r.ring.begin x 1, c, u) same_end
    | inr c ↦ rw (unack_loop, seq_add-seq_add r.ring.begin x 1, c) same_end
  ]

-- Started at a number that has been received, the loop ends within the fuel, and stops where the
-- received buffers end.
pub unack_loop-Reaches :
    (fuel : ℕ) (r : Receiver) (x n : ℕ)
    → IsValid r.ring
    → x < slots_used r.ring
    → slots_used r.ring ≤ fuel + x
    → is_unset (nth r x) ≡ false
    → (y : ℕ) × (m : ℕ) × (unack_loop fuel (moved r x n) ≡ some (moved r y m))
      × Reaches r x y
      × (x < y)
unack_loop-Reaches zero r x n v h f filled = absurd (omega arith)
unack_loop-Reaches (suc fuel) r x n v h f filled =
    elim (Bool-cases (ltb (x + 1) (slots_used r.ring))) [
      | inr out ↦
          let y_eq : x + 1 ≡ slots_used r.ring = omega (arith, ltb-false _ _ out) in
          (
            x + 1,
            _,
            loop_end fuel r x n (inl (contains-at r (x + 1) v (omega arith) ∙ out)),
            one (omega arith) (inl y_eq),
            omega arith,
          )
      | inl inside ↦
          let c = contains-at r (x + 1) v (omega arith) ∙ inside in
          elim (Bool-cases (is_unset (nth r (x + 1)))) [
            | inl gap ↦
                (x + 1, _, loop_end fuel r x n (inr gap), one (omega arith) (inr gap), omega arith)
            | inr more ↦
                let (y, m, eq, rest, lt) =
                  unack_loop-Reaches fuel r (x + 1) ((n + 1) % 2 ^ 32) v (ltb→lt _ _ inside)
                    (omega arith) more in
                (
                  y,
                  m,
                  loop_on fuel r x n c more ∙ eq,
                  record {
                    after = omega arith;
                    within = rest.within;
                    filled = λ k p q. join k (dec_lt x k) p q rest;
                    stops = rest.stops;
                  },
                  omega arith,
                )
          ]
    ]
  where
    one :
        x + 1 ≤ slots_used r.ring
        → (x + 1 ≡ slots_used r.ring) ⊎ (is_unset (nth r (x + 1)) ≡ true)
        → Reaches r x (x + 1)
    one w s = record {
      after = omega arith;
      within = w;
      filled =
          λ k p q. let k_eq : k ≡ x = omega arith in ap (λ j. is_unset (nth r j)) k_eq ∙ filled;
      stops = s;
    }

    join :
        {y : ℕ} (k : ℕ)
        → Dec (x < k)
        → x ≤ k
        → k < y
        → Reaches r (x + 1) y
        → is_unset (nth r k) ≡ false
    join k (yes lt) p q rest = rest.filled k (omega arith) q
    join k (no ge) p q rest =
        let k_eq : k ≡ x = omega arith in ap (λ j. is_unset (nth r j)) k_eq ∙ filled

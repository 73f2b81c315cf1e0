-- ===== src/Backoff.antt =====
-- roo_transport/link/internal/retry_backoff.h: the delay before a retry, in microseconds.
pub mod Bounds
use roo_transport.Prelude.{
  ℕ, zero, suc, ◌+◌, ◌-◌, ◌*◌, ◌/◌, ◌%◌, ◌^◌, Bool, true, false, ltb, if◌then◌else◌,
}

-- One round of the loop, in uint32_t.
unfoldable pub grow_once : ℕ → ℕ → ℕ
grow_once max_delay delay =
    let grown = (delay * 133 % 2 ^ 32 + 50) % 2 ^ 32 / 100 in
    if ltb max_delay grown then max_delay else grown

-- `for (retry = 0; retry < retry_count && delay < max_delay; ++retry)`: the first argument counts
-- the rounds left.
unfoldable pub grow : ℕ → ℕ → ℕ → ℕ
grow zero max_delay delay = delay
grow (suc n) max_delay delay = elim (ltb delay max_delay) [
  | true ↦ grow n max_delay (grow_once max_delay delay)
  | false ↦ delay
]

-- `RetryBackoffMicros<kRandomMax>`; the draw is an argument.
unfoldable pub retry_backoff_micros : ℕ → ℕ → ℕ → ℕ → ℕ → ℕ
retry_backoff_micros random_max initial_delay max_delay retry_count random_draw =
    let delay = grow retry_count max_delay initial_delay in
    let bin = random_draw * 8192 % 2 ^ 64 / ((random_max + 1) % 2 ^ 64) % 2 ^ 32 in
    let radius = delay / 5 in
    (delay - radius + bin * (2 * radius % 2 ^ 32) % 2 ^ 32 / 2 ^ 13) % 2 ^ 32

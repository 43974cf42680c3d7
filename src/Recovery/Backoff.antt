-- ===== src/Recovery/Backoff.antt =====
-- The delay before each attempt to restart.
use host_container.Prelude.{ℕ, zero, suc, ◌≤◌, ◌<◌, ◌≡◌, arith, length, get_or}
use host_container.Recovery.{backoff_delays, delay_idx}

-- The delay of an attempt, in seconds.
delay : ℕ → ℕ
delay n = get_or backoff_delays (delay_idx n) 0

delay_late : (n : ℕ) → delay (suc (suc (suc (suc n)))) ≡ 60
unfolding delay delay_idx
delay_late n = ground arith

-- The index is in range at every count, and the delays begin at 5 seconds, never fall from one
-- attempt to the next, and stop at 60.
delay_bounds :
    (n : ℕ)
    → (delay_idx n < length backoff_delays)
      × (5 ≤ delay n)
      × (delay n ≤ delay (suc n))
      × (delay n ≤ 60)
unfolding delay delay_idx
delay_bounds zero = ground arith
delay_bounds (suc zero) = ground arith
delay_bounds (suc (suc zero)) = ground arith
delay_bounds (suc (suc (suc zero))) = ground arith
delay_bounds (suc (suc (suc (suc n)))) = ground arith

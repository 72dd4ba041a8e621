-- ===== src/Supervisor/Backoff/Delays.antt =====
-- toad/internal/supervisor/backoff.go: the waits that one call of Next after another gives.
use kikimora.Prelude.{ℕ, suc, zero, ◌≡◌, ◌≤◌, ◌<◌, ◌*◌, ◌^◌, arith, nat_eq, nat_beq_iff, pos}
use kikimora.Supervisor.Backoff.{
  Backoff, second, retry_delays, delay_at, incremented, clamped, next,
}

-- The table without its end.
abbrev delay : ℕ → ℕ
delay n = delay_at retry_delays (clamped (pos n))

delay_last : (n : ℕ) → 5 ≤ n → delay n ≡ 60 * second
unfolding clamped
delay_last n h = ground arith

delay-suc : (n : ℕ) → delay n ≤ delay (suc n)
unfolding clamped
delay-suc zero = omega arith
delay-suc (suc zero) = omega arith
delay-suc (suc (suc zero)) = omega arith
delay-suc (suc (suc (suc zero))) = omega arith
delay-suc (suc (suc (suc (suc zero)))) = omega arith
delay-suc (suc (suc (suc (suc (suc n))))) = omega (
  arith,
  delay_last (suc (suc (suc (suc (suc n))))) (omega arith),
  delay_last (suc (suc (suc (suc (suc (suc n)))))) (omega arith),
)

delay_bounds : (n : ℕ) → (second ≤ delay n) × (delay n ≤ 60 * second)
unfolding clamped
delay_bounds zero = (omega arith, omega arith)
delay_bounds (suc zero) = (omega arith, omega arith)
delay_bounds (suc (suc zero)) = (omega arith, omega arith)
delay_bounds (suc (suc (suc zero))) = (omega arith, omega arith)
delay_bounds (suc (suc (suc (suc zero)))) = (omega arith, omega arith)
delay_bounds (suc (suc (suc (suc (suc n))))) = (
  omega (arith, delay_last (suc (suc (suc (suc (suc n))))) (omega arith)),
  omega (arith, delay_last (suc (suc (suc (suc (suc n))))) (omega arith)),
)

incremented_pos : (n : ℕ) → suc n < 2 ^ 63 → incremented (pos n) ≡ pos (suc n)
unfolding incremented
incremented_pos n h = ground (arith, nat_beq_iff (suc n) (2 ^ 63))

-- While the attempts are counted from 0 and do not reach 2^63: the wait is between a second and a minute,
-- the wait after it is not shorter, and from the sixth attempt on it is a minute.
pub next-next :
    (b : Backoff) (n : ℕ)
    → b.attempt ≡ pos n
    → suc n < 2 ^ 63
    → (second ≤ (next b).0)
      × ((next b).0 ≤ (next (next b).1).0)
      × ((next (next b).1).0 ≤ 60 * second)
      × (5 ≤ n → (next b).0 ≡ 60 * second)
unfolding next
next-next b n a h =
    rw (a, incremented_pos n h)
      ((delay_bounds n).0, delay-suc n, (delay_bounds (suc n)).1, delay_last n)

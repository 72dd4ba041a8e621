-- ===== src/Supervisor/Backoff.antt =====
-- toad/internal/supervisor/backoff.go: Backoff. Durations and times are nanoseconds.
pub mod Delays
use kikimora.Prelude.{
  ℕ, suc, zero, Bool, true, false, not, ◌&&◌, List, [], ◌∷◌, if◌then◌else◌, ◌==◌, nat_eq, leb, ◌*◌,
  ◌^◌, ◌-◌, length, ℤ, pos, negsuc,
}

abbrev pub second : ℕ
second = 1000000000

abbrev pub retry_delays : List ℕ
retry_delays = second ∷ 2 * second ∷ 5 * second ∷ 10 * second ∷ 30 * second ∷ 60 * second ∷ []

pub record Backoff : Type 0 where
  pub attempt : ℤ  -- int
  pub stable_since : ℕ  -- 0 is the zero time

-- `b.Attempt++` on a 64-bit int.
unfoldable pub incremented : ℤ → ℤ
incremented (pos n) = if suc n == 2 ^ 63 then negsuc (2 ^ 63 - 1) else pos (suc n)
incremented (negsuc zero) = pos 0
incremented (negsuc (suc n)) = negsuc n

-- The attempt, put into the range of the table.
unfoldable pub clamped : ℤ → ℕ
clamped (negsuc n) = 0
clamped (pos n) = if leb (length retry_delays) n then length retry_delays - 1 else n

abbrev pub delay_at : List ℕ → ℕ → ℕ
delay_at [] n = 0
delay_at (d ∷ ds) zero = d
delay_at (d ∷ ds) (suc n) = delay_at ds n

unfoldable pub next : Backoff → ℕ × Backoff
next b = (delay_at retry_delays (clamped b.attempt), record b { attempt = incremented b.attempt })

unfoldable pub reset_if_stable : ℕ → Backoff → Backoff
reset_if_stable now b =
    if not (b.stable_since == 0) && leb (60 * second) (now - b.stable_since)
    then record b { attempt = pos 0 }
    else b

unfoldable pub mark_ready : ℕ → Backoff → Backoff
mark_ready now b = if b.stable_since == 0 then record b { stable_since = now } else b

unfoldable pub clear_ready : Backoff → Backoff
clear_ready b = record b { stable_since = 0 }

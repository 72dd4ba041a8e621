-- ===== src/Tests/Supervisor.antt =====
-- toad/internal/supervisor/backoff.go: the third wait and the one after it.
use kikimora.Prelude.{◌≡◌, ◌≤◌, ◌*◌, refl, arith, pos}
use kikimora.Supervisor.Backoff.{Backoff, second, next}
use kikimora.Supervisor.Backoff.Delays.{next-next}

abbrev third : Backoff
third = record { attempt = pos 2; stable_since = 0 }

next-next_example :
    (second ≤ (next third).0)
    × ((next third).0 ≤ (next (next third).1).0)
    × ((next (next third).1).0 ≤ 60 * second)
    × (5 ≤ 2 → (next third).0 ≡ 60 * second)
next-next_example = next-next third 2 refl (omega arith)

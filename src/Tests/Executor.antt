-- ===== src/Tests/Executor.antt =====
-- toad/internal/core/role_executor.go: one work takes the place of another.
use kikimora.Prelude.{ℕ, ◌≡◌, refl, true, false, some, List, [], ◌∷◌, none, string_eq, nat_eq}
use kikimora.Core.RoleExecutor.{
  ExecutorEvent, submits, finishes, run_events, executor_step, submit, finished,
}
use kikimora.Core.RoleExecutor.Single.{is_live, Unrepeated, run_events-single}

-- The work 0 is stopped by the second submission, and the work 1 waits to report.
abbrev events : List ExecutorEvent
events =
    finishes 1 (record { err = none; reason = "" }) ∷ submits "vpn" 2 1 ∷ submits "vpn" 1 1 ∷ []

events-Unrepeated : Unrepeated events
events-Unrepeated = (refl, (refl, tt))

live : is_live ((run_events events).workers 1).phase ≡ true
unfolding run_events executor_step submit finished
live = refl

running : (run_events events).stopped 1 ≡ false
unfolding run_events executor_step submit finished
running = refl

run_events-single_example :
    let e = run_events events in
    (e.cancel (e.workers 1).role ≡ some 1)
    × (is_live (e.workers 0).phase ≡ true
        → e.stopped 0 ≡ false
        → (e.workers 0).role ≡ (e.workers 1).role
        → ◌≡◌ {A = ℕ} 0 1)
run_events-single_example = run_events-single events 1 0 events-Unrepeated live running

-- ===== src/Tests/Observation.antt =====
-- toad/internal/netstate: two observations of the underlay, and a burst of invalidations.
use kikimora.Prelude.{
  ℕ, ◌+◌, ◌≡◌, ◌⊎◌, refl, true, false, ◌||◌, none, some, [], ◌∷◌, arith, nat_eq, string_eq, ok, pos,
}
use kikimora.Netip.{v4}
use kikimora.Netstate.{UnderlayPath, Snapshot, identity_equal, compare_snapshots, change_reason}
use kikimora.Netstate.Epochs.{observe_all, identity_changes, observe_all-epoch}
use kikimora.Netstate.Coalescer.{Change, Env, Loop, runs, timer_fired, invalidated, publish, step}
use kikimora.Netstate.Coalescer.Publishing.{
  carries_resume, step_delivers, is_resume, step_keeps_resume,
}
use kikimora.Netstate.Coalescer.Bursts.{
  started_loop, Reached, starts, steps, Bounded, Reached-Bounded,
}
use kikimora.Core.Controller.{no_underlay}

abbrev wired : ℕ → UnderlayPath
wired i = record {
  family = pos 4;
  if_index = pos i;
  interface = "eth0";
  gateway = v4 3232235777;
  preferred_src = v4 3232235876;
  mtu = pos 1500;
  table = pos 254;
  metric = 100;
}

abbrev pub seen : ℕ → Snapshot
seen i = record no_underlay { ipv4 = some (wired i); observed_at = 5 }

observe_all-epoch_example :
    (observe_all no_underlay (seen 2 ∷ seen 2 ∷ seen 3 ∷ [])).epoch
    ≡ 0 + identity_changes no_underlay (seen 2 ∷ seen 2 ∷ seen 3 ∷ [])
observe_all-epoch_example =
    observe_all-epoch no_underlay (seen 2 ∷ seen 2 ∷ seen 3 ∷ []) (omega arith)

changes : identity_changes no_underlay (seen 2 ∷ seen 2 ∷ seen 3 ∷ []) ≡ 2
unfolding identity_equal compare_snapshots
changes = refl

abbrev calm : Env
calm = record { now = 10; build = ok (seen 3); ctx_err = none; handler = λ c. none }

abbrev idle : Loop
idle = record {
  current = record (seen 2) { epoch = 4 };
  timer_at = none;
  burst = none;
  resume = false;
}

-- The change that is delivered when the timer fires.
abbrev moved : Change
moved = record {
  snapshot = record (seen 3) { epoch = 5 };
  reason = "default-interface-changed";
  resume = false;
}

abbrev moved_on : Loop
moved_on = record { current = moved.snapshot; timer_at = none; burst = none; resume = false }

timer_delivers : step (pos 0) (pos 0) calm idle timer_fired ≡ runs moved_on (some moved)
unfolding step publish compare_snapshots identity_equal change_reason
timer_delivers = refl

step_delivers_example :
    (moved_on.current ≡ moved.snapshot)
    × (calm.handler moved ≡ none)
    × ((identity_equal idle.current moved.snapshot ≡ false) ⊎ (moved.resume ≡ true))
    × (moved_on.resume ≡ false)
    × (moved_on.burst ≡ none)
    × (moved_on.timer_at ≡ none)
step_delivers_example =
    step_delivers (pos 0) (pos 0) calm idle moved_on timer_fired moved timer_delivers

-- A resume that is put off by the default settle time.
abbrev waits : Loop
waits = record idle { timer_at = some 150000010; burst = some 10; resume = true }

resume_waits : step (pos 0) (pos 0) calm idle (invalidated "resume") ≡ runs waits none
unfolding step
resume_waits = refl

step_keeps_resume_example :
    waits.resume || carries_resume none ≡ idle.resume || is_resume (invalidated "resume")
step_keeps_resume_example =
    step_keeps_resume (pos 0) (pos 0) calm idle waits (invalidated "resume") none resume_waits

-- A second invalidation, 50 nanoseconds later, moves the timer and not the start of the burst.
abbrev later : Env
later = record calm { now = 60 }

abbrev waits_on : Loop
waits_on = record (started_loop (seen 2)) { timer_at = some 150000060; burst = some 10 }

one_waits :
    Reached
      (pos 0)
      (pos 0)
      (some (10, 10))
      (record (started_loop (seen 2)) { timer_at = some 150000010; burst = some 10 })
unfolding step
one_waits = steps {d = none} calm (invalidated "link") (starts (seen 2)) refl

two_wait : Reached (pos 0) (pos 0) (some (10, 60)) waits_on
unfolding step
two_wait = steps {d = none} later (invalidated "route") one_waits refl

Reached-Bounded_example : Bounded (pos 0) (pos 0) (some (10, 60)) waits_on
Reached-Bounded_example = Reached-Bounded (pos 0) (pos 0) (some (10, 60)) waits_on two_wait

-- ===== src/Netstate/Coalescer.antt =====
-- toad/internal/netstate/coalescer.go: the loop as one step for each value that its `select` receives.
-- What the loop reads from outside in that step is an `Env`: the clock, the snapshot builder, the
-- context's error and the change handler.
pub mod Publishing
pub mod Bursts
use kikimora.Prelude.{
  ℕ, ◌+◌, ◌-◌, String, Bool, true, false, not, ◌&&◌, ◌||◌, Option, none, some, if◌then◌else◌, ◌==◌,
  string_eq, leb, Result, ok, err, ℤ, pos, negsuc, nat_eq,
}
use kikimora.Netstate.Reason
use kikimora.Netstate.{Snapshot, compare_snapshots}

pub record Change : Type 0 where
  pub snapshot : Snapshot
  pub reason : String
  pub resume : Bool

-- Errors are those of the builder, of the context and of the handler.
pub record Env : Type 0 where
  pub now : ℕ
  pub build : Result String Snapshot
  pub ctx_err : Option String
  pub handler : Change → Option String

-- `timer_at` is set while the timer's channel is selected.
pub record Loop : Type 0 where
  pub current : Snapshot
  pub timer_at : Option ℕ
  pub burst : Option ℕ
  pub resume : Bool

-- What publish leaves: the current snapshot, the change that the handler was called with, the error.
pub record Published : Type 0 where
  pub current : Snapshot
  pub delivered : Option Change
  pub error : Option String

publish_changed : Env → Snapshot → String → Bool → Published
publish_changed env merged reason resume =
    let change : Change = record { snapshot = merged; reason = reason; resume = resume } in
    elim env.ctx_err [
      | none ↦ record { current = merged; delivered = some change; error = env.handler change }
      | some e ↦ record { current = merged; delivered = none; error = some e }
    ]

unfoldable pub publish : Env → Snapshot → Bool → Published
unfolding publish_changed
publish env current resume = elim env.build [
  | err e ↦ record { current = current; delivered = none; error = some e }
  | ok next ↦
      let (merged, reason, changed) = compare_snapshots current next in
      if changed
      then publish_changed env merged reason resume
      else if resume
      then publish_changed env (record next { epoch = current.epoch }) Reason.resume_validation
          resume
      else record { current = current; delivered = none; error = none }
]

-- The loop goes on, or Run returns nil or an error.
pub data Next : Type 0 where
  runs : Loop → Option Change → Next
  returns : Option String → Option Change → Next

-- After a publish: the burst is over.
abbrev settled : Loop → Published → Next
settled l p = elim p.error [
  | none ↦
      runs (record { current = p.current; timer_at = none; burst = none; resume = false })
        p.delivered
  | some e ↦ returns (some e) p.delivered
]

pub data Received : Type 0 where
  ctx_done closed timer_fired : Received
  invalidated : String → Received

abbrev pub duration_or : ℤ → ℕ → ℕ
duration_or (pos n) d = if n == 0 then d else n
duration_or (negsuc n) d = d

abbrev pub burst_start : Option ℕ → ℕ → ℕ
burst_start none now = now
burst_start (some t) now = t

module _ (settle maximum : ℤ) where
  unfoldable pub step : Env → Loop → Received → Next
  step env l ctx_done = returns env.ctx_err none
  step env l closed = returns none none
  step env l timer_fired = settled l (publish env l.current l.resume)
  step env l (invalidated source) =
      let resume = l.resume || source == "resume" in
      let start = burst_start l.burst env.now in
      if leb (duration_or maximum 1000000000) (env.now - start)
      then settled l (publish env l.current resume)
      else runs
          (record {
            current = l.current;
            timer_at = some (env.now + duration_or settle 150000000);
            burst = some start;
            resume = resume;
          })
          none

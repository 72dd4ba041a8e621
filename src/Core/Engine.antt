-- ===== src/Core/Engine.antt =====
-- toad/internal/core/engine.go: Recover, one recovery transaction of a role. The world is the controller
-- and whatever else (`X`) the driver's steps read and change; a driver may write the controller too.
pub mod Outcome
use kikimora.Prelude.{
  ℕ, String, ◌≡◌, ◌≢◌, ◌⊎◌, refl, sym, ap, subst, inl, inr, Bool, true, false, ◌||◌, Option, none,
  some, List, [], ◌∷◌, arith, if◌then◌else◌, Option-cases, Bool-cases, ◌==◌, string_eq,
}
use kikimora.Prelude.Map.{lookup, lookup-insert}
use kikimora.Core.Model.{
  RoleState, ready, recovering, failed, starting, RecoveryStep, RecoveryState, RoleRuntime,
}
use kikimora.Core.Controller.{Controller, role_of, set_recovery, on_role, commit}
use kikimora.Core.Reconciler.{decide_role}
use kikimora.Core.Recovery.{
  ErrorKind, cancelled, routes_still_parked, validation_pending, underlay_path_unavailable,
  endpoint_resolution_pending, toad_restart_pending, other_error, RecoveryError, run_recovery_steps,
}
use kikimora.Core.Recovery.Sequences.{sequence_of}
use kikimora.Core.Recovery.Running.{Ran, Finished, StoppedAt, run_recovery_steps_lem}

abbrev pub cancelled_error : RecoveryError
cancelled_error = record { kind = cancelled; message = "recovery transaction was cancelled" }

abbrev pub unknown_role : RecoveryError
unknown_role = record { kind = other_error; message = "unknown role" }

-- The product state of a role whose recovery failed.
unfoldable pub failed_state : ErrorKind → RoleState
failed_state routes_still_parked = recovering
failed_state validation_pending = recovering
failed_state underlay_path_unavailable = recovering
failed_state endpoint_resolution_pending = recovering
failed_state toad_restart_pending = starting
failed_state _ = failed

abbrev pub is_cancelled : ErrorKind → Bool
is_cancelled cancelled = true
is_cancelled _ = false

module _ {X : Type 0}
    (driver : RecoveryStep → Controller × X → (Controller × X) × Option RecoveryError)
    (aborted : Controller × X → Bool) (managed : String → Bool) where
  -- A step asks first whether the transaction was cancelled.
  unfoldable pub guarded : RecoveryStep → Controller × X → (Controller × X) × Option RecoveryError
  guarded s w = if aborted w then (w, some cancelled_error) else driver s w

  -- What Recover commits after the run.
  unfoldable pub conclude_recovery :
      String
      → RecoveryState × (Controller × X) × Option RecoveryError
      → (Controller × X) × Option RecoveryError
  conclude_recovery role (rec, (c, x), some e) =
      if is_cancelled e.kind || aborted (c, x)
      then ((c, x), some e)
      else (((set_recovery role rec (failed_state e.kind) rec.last_error c).0, x), some e)
  conclude_recovery role (rec, (c, x), none) =
      if aborted (c, x)
      then ((c, x), some cancelled_error)
      else (((set_recovery role rec ready "recovery complete" c).0, x), none)

  abbrev pub steps_for : String → Controller → RoleRuntime → List RecoveryStep
  steps_for role c r = sequence_of (managed role) (decide_role r c.underlay r.toad.capabilities)

  -- The run of the chosen steps; nothing is done where there are none.
  unfoldable pub transact :
      String
      → ℕ
      → ℕ
      → RecoveryState
      → List RecoveryStep
      → Controller × X
      → (Controller × X) × Option RecoveryError
  transact role operation epoch rec [] w = (w, none)
  transact role operation epoch rec (s ∷ ss) w =
      conclude_recovery role (run_recovery_steps guarded operation epoch (s ∷ ss) rec w)

  unfoldable pub recover_found :
      String → ℕ → ℕ → Option RoleRuntime → Controller × X → (Controller × X) × Option RecoveryError
  recover_found role operation epoch none w = (w, some unknown_role)
  recover_found role operation epoch (some r) (c, x) =
      transact role operation epoch r.recovery (steps_for role c r) (c, x)

  unfoldable pub recover : String → ℕ → ℕ → Controller × X → (Controller × X) × Option RecoveryError
  recover role operation epoch w = recover_found role operation epoch (role_of role w.0) w

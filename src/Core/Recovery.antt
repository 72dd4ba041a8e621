-- ===== src/Core/Recovery.antt =====
-- toad/internal/core/recovery_runner.go: the step sequences and the runner. The world `W` is all that
-- the driver's steps read and change.
pub mod Sequences
pub mod Running
use kikimora.Prelude.{ℕ, String, Bool, true, false, Option, none, some, List, [], ◌∷◌, u64_suc}
use kikimora.Core.Model.{
  RecoveryStep, no_step, observe_routes, park, withdraw_selected, withdraw, quiesce, apply_endpoint,
  rebind, start_transport, validate, publish, resync_leshy, observe_restoration, freeze_selected,
  restore_selected, unfreeze_selected, RecoveryState,
}
use kikimora.Core.Reconciler.{RecoveryAction, restart_transport, restart_toad}

unfoldable pub recovery_sequence : List RecoveryStep
recovery_sequence =
    observe_routes ∷ park ∷ withdraw ∷ quiesce ∷ apply_endpoint ∷ start_transport ∷ validate
    ∷ publish ∷ resync_leshy ∷ observe_restoration ∷ []

unfoldable pub recovery_sequence_for_action : RecoveryAction → List RecoveryStep
unfolding recovery_sequence
recovery_sequence_for_action RecoveryAction.validate = validate ∷ []
recovery_sequence_for_action RecoveryAction.rebind =
    observe_routes ∷ park ∷ withdraw ∷ quiesce ∷ apply_endpoint ∷ rebind ∷ validate ∷ publish
    ∷ resync_leshy ∷ observe_restoration ∷ []
recovery_sequence_for_action restart_transport =
    observe_routes ∷ park ∷ withdraw ∷ quiesce ∷ apply_endpoint ∷ start_transport ∷ validate
    ∷ publish ∷ resync_leshy ∷ observe_restoration ∷ []
recovery_sequence_for_action restart_toad = recovery_sequence
recovery_sequence_for_action _ = []

unfoldable pub managed_recovery_sequence_for_action : RecoveryAction → List RecoveryStep
managed_recovery_sequence_for_action RecoveryAction.validate = validate ∷ []
managed_recovery_sequence_for_action RecoveryAction.rebind =
    freeze_selected ∷ observe_routes ∷ park ∷ withdraw_selected ∷ withdraw ∷ quiesce
    ∷ apply_endpoint ∷ rebind ∷ validate ∷ restore_selected ∷ observe_restoration ∷ publish
    ∷ resync_leshy ∷ unfreeze_selected ∷ []
managed_recovery_sequence_for_action restart_transport =
    freeze_selected ∷ observe_routes ∷ park ∷ withdraw_selected ∷ withdraw ∷ quiesce
    ∷ apply_endpoint ∷ start_transport ∷ validate ∷ restore_selected ∷ observe_restoration ∷ publish
    ∷ resync_leshy ∷ unfreeze_selected ∷ []
managed_recovery_sequence_for_action restart_toad =
    freeze_selected ∷ observe_routes ∷ park ∷ withdraw_selected ∷ withdraw ∷ quiesce
    ∷ apply_endpoint ∷ start_transport ∷ validate ∷ restore_selected ∷ observe_restoration ∷ publish
    ∷ resync_leshy ∷ unfreeze_selected ∷ []
managed_recovery_sequence_for_action _ = []

-- The errors that the engine tells apart by errors.Is, in the order of its tests.
pub data ErrorKind : Type 0 where
  cancelled routes_still_parked validation_pending underlay_path_unavailable : ErrorKind
  endpoint_resolution_pending toad_restart_pending other_error : ErrorKind

pub record RecoveryError : Type 0 where
  pub kind : ErrorKind
  pub message : String

module _ {ℓ} {W : Type ℓ} (work : RecoveryStep → W → W × Option RecoveryError) where
  unfoldable pub after_step :
      RecoveryState
      → (W → RecoveryState × W × Option RecoveryError)
      → W × Option RecoveryError
      → RecoveryState × W × Option RecoveryError
  after_step at rest (w, none) = rest w
  after_step at rest (w, some e) = (record at { last_error = e.message }, w, some e)

  -- The loop: the recovery record, the world, and the error that stopped it.
  unfoldable pub run_steps :
      List RecoveryStep → RecoveryState → W → RecoveryState × W × Option RecoveryError
  unfolding after_step
  run_steps [] rec w = (record rec { step = no_step; last_error = "" }, w, none)
  run_steps (s ∷ steps) rec w =
      let at : RecoveryState = record rec { step = s; last_error = "" } in
      after_step at (run_steps steps at) (work s w)

  unfoldable pub run_recovery_steps :
      ℕ → ℕ → List RecoveryStep → RecoveryState → W → RecoveryState × W × Option RecoveryError
  run_recovery_steps operation epoch steps rec w =
      run_steps steps
        (record rec { operation = operation; epoch = epoch; attempt = u64_suc rec.attempt }) w

  unfoldable pub run_recovery : ℕ → ℕ → RecoveryState → W → RecoveryState × W × Option RecoveryError
  unfolding run_recovery_steps
  run_recovery operation epoch = run_recovery_steps operation epoch recovery_sequence

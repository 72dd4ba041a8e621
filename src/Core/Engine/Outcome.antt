-- ===== src/Core/Engine/Outcome.antt =====
-- toad/internal/core/engine.go: what a cancelled recovery transaction leaves.
use kikimora.Prelude.{ℕ, String, ◌≡◌, refl, ap, Bool, true, Option, none, some, List, [], ◌∷◌}
use kikimora.Core.Model.{RecoveryStep, RecoveryState, RoleRuntime}
use kikimora.Core.Controller.{Controller, role_of}
use kikimora.Core.Recovery.{RecoveryError, run_recovery_steps}
use kikimora.Core.Recovery.Running.{run_steps-stop}
use kikimora.Core.Engine.{
  cancelled_error, guarded, conclude_recovery, steps_for, transact, recover_found, recover,
}

module _ {X : Type 0}
    (driver : RecoveryStep → Controller × X → (Controller × X) × Option RecoveryError)
    (aborted : Controller × X → Bool) (managed : String → Bool) where
  guarded-aborted :
      (s : RecoveryStep) (w : Controller × X)
      → aborted w ≡ true
      → guarded driver aborted managed s w ≡ (w, some cancelled_error)
  unfolding guarded
  guarded-aborted s w a = rw a refl

  transact_aborted :
      (role : String) (operation epoch : ℕ) (rec : RecoveryState) (steps : List RecoveryStep)
      (w : Controller × X)
      → aborted w ≡ true
      → (transact driver aborted managed role operation epoch rec steps w).0 ≡ w
  unfolding transact run_recovery_steps conclude_recovery
  transact_aborted role operation epoch rec [] w a = refl
  transact_aborted role operation epoch rec (s ∷ ss) (c, x) a =
      ap (λ r. (conclude_recovery driver aborted managed role r).0)
        (run_steps-stop (guarded driver aborted managed) s ss _ (c, x) (c, x) cancelled_error
          (guarded-aborted s (c, x) a))

  recover_found_aborted :
      (role : String) (operation epoch : ℕ) (found : Option RoleRuntime) (w : Controller × X)
      → aborted w ≡ true
      → (recover_found driver aborted managed role operation epoch found w).0 ≡ w
  unfolding recover_found
  recover_found_aborted role operation epoch none w a = refl
  recover_found_aborted role operation epoch (some r) (c, x) a =
      transact_aborted role operation epoch r.recovery (steps_for driver aborted managed role c r)
        (c, x) a

  -- A recovery that is cancelled before its first step leaves the controller and all else as it was,
  -- whatever the role, its sequence and the driver.
  pub recover_aborted :
      (role : String) (operation epoch : ℕ) (w : Controller × X)
      → aborted w ≡ true
      → (recover driver aborted managed role operation epoch w).0 ≡ w
  unfolding recover
  recover_aborted role operation epoch w a =
      recover_found_aborted role operation epoch (role_of role w.0) w a

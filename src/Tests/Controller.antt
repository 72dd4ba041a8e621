-- ===== src/Tests/Controller.antt =====
-- toad/internal/core: a controller of two roles, and recoveries that fail or are cancelled.
use mathlib.Core.List.{Permᴰ}
use kikimora.Prelude.{
  ℕ, suc, String, ◌≡◌, ◌≢◌, ◌↔◌, ◌⊎◌, refl, Bool, true, false, not, ◌&&◌, Option, none, some, List,
  [], ◌∷◌, ◌==◌, nat_eq, string_eq, arith, all,
}
use kikimora.Prelude.Map.{insert}
use kikimora.Netstate.{Snapshot}
use kikimora.Toadctl.{Capabilities}
use kikimora.Core.Model.{
  stopped, validating, ready, recovering, failed, RecoveryStep, observe_routes, park,
  withdraw_selected, withdraw, quiesce, apply_endpoint, freeze_selected, RoleRuntime, RoleSpec,
  Event, desired_role_changed, underlay_changed, operation_completed, new_role, no_recovery,
}
use kikimora.Core.Controller.{Controller, new_controller, underlay_available, no_underlay}
use kikimora.Core.Events.{run}
use kikimora.Core.Events.Authority.{ReadyCurrent, run-ReadyCurrent}
use kikimora.Core.Aggregate.{aggregate}
use kikimora.Core.Aggregate.Order.{aggregate_of, aggregate-eq, aggregate-perm}
use kikimora.Core.Reconciler.{
  action_none, rebind, decide_role, decide_role-action_none_iff, decide_role-rebind,
}
use kikimora.Core.Recovery.{
  other_error, RecoveryError, run_steps, run_recovery_steps, managed_recovery_sequence_for_action,
}
use kikimora.Core.Recovery.Sequences.{contains, requires, sequence_of, recovery_requires}
use kikimora.Core.Recovery.Running.{here, then, StoppedAt, Finished, run_recovery_steps_lem}
use kikimora.Core.Engine.{recover}
use kikimora.Core.Engine.Outcome.{recover_aborted}
use kikimora.Tests.Observation.{seen}

abbrev spec : String → RoleSpec
spec name = record { id = name; protocol = "awg2"; interface = name; leshy_zone = name }

abbrev two_roles : Controller
two_roles = new_controller (spec "work" ∷ spec "home" ∷ [])

-- A role is enabled, its operation completes for the observed epoch, and the underlay moves.
abbrev events : List (ℕ × Event)
events =
    (1, desired_role_changed "work" true)
    ∷ (2, underlay_changed no_underlay (seen 2) "")
    ∷ (3, operation_completed "work" 1 1 (record { err = none; reason = "" }))
    ∷ (4, underlay_changed (seen 2) (seen 3) "")
    ∷ []

two_roles-ReadyCurrent : ReadyCurrent two_roles
unfolding new_controller insert
two_roles-ReadyCurrent = ((λ d s. cc), ((λ d s. cc), tt))

run-ReadyCurrent_example : ReadyCurrent (run events two_roles)
run-ReadyCurrent_example =
    run-ReadyCurrent events two_roles (tt, (tt, ((λ _ z. ground arith), (tt, tt))))
      two_roles-ReadyCurrent

abbrev up : RoleRuntime
up = record new_role { desired = true; state = ready; validated_epoch = 1; toad_generation = 1 }

abbrev down : RoleRuntime
down = record new_role { desired = true; state = failed }

aggregate-eq_example : aggregate (up ∷ down ∷ []) ≡ aggregate_of (up ∷ down ∷ [])
aggregate-eq_example = aggregate-eq (up ∷ down ∷ [])

aggregate-perm_example : aggregate (up ∷ down ∷ []) ≡ aggregate (down ∷ up ∷ [])
aggregate-perm_example = aggregate-perm ∣ Permᴰ.swap refl refl ∣₁

abbrev able : Capabilities
able = record {
  validate = true;
  rebind = true;
  restart_transport_keeping_tun = true;
  reports_live_endpoints = false;
}

abbrev current : Snapshot
current = record (seen 2) { epoch = 1 }

abbrev later : Snapshot
later = record (seen 3) { epoch = 2 }

decide_role-action_none_iff_example : (decide_role up current able ≡ action_none) ↔ (
    (up.desired ≡ true)
    × (underlay_available current ≡ true)
    × (up.state ≡ ready)
    × (up.validated_epoch ≡ current.epoch)
    × ((not (up.toad_generation == 0) && (up.toad.route_ready && up.toad.state == "reconnecting"))
        ≡ false))
decide_role-action_none_iff_example = decide_role-action_none_iff up current able

rebinds : decide_role up later able ≡ rebind
unfolding decide_role
rebinds = refl

decide_role-rebind_example :
    (able.rebind ≡ true)
    × (up.validated_epoch ≢ later.epoch)
    × (up.state ≢ stopped)
    × (up.state ≢ failed)
    × (up.state ≢ validating)
    × (up.state ≡ recovering → up.toad_generation ≢ 0 → up.toad.route_ready ≡ true)
decide_role-rebind_example = decide_role-rebind up later able rebinds

abbrev refused : RecoveryError
refused = record { kind = other_error; message = "endpoint refused" }

-- A driver that counts its steps and fails where the endpoint is applied.
abbrev work : RecoveryStep → ℕ → ℕ × Option RecoveryError
work apply_endpoint n = (n, some refused)
work _ n = (suc n, none)

abbrev steps : List RecoveryStep
steps = sequence_of true rebind

run_recovery_steps_lem_example :
    Finished work steps 0 (run_recovery_steps work 3 1 steps no_recovery 0)
    ⊎ StoppedAt work steps 0 (run_recovery_steps work 3 1 steps no_recovery 0)
run_recovery_steps_lem_example = run_recovery_steps_lem work 3 1 steps no_recovery 0

abbrev endpoint_fails : StoppedAt work steps 0 (run_recovery_steps work 3 1 steps no_recovery 0)
unfolding run_recovery_steps run_steps managed_recovery_sequence_for_action
endpoint_fails = record {
  before = freeze_selected ∷ observe_routes ∷ park ∷ withdraw_selected ∷ withdraw ∷ quiesce ∷ [];
  at = apply_endpoint;
  rest =
      RecoveryStep.rebind ∷ RecoveryStep.validate ∷ RecoveryStep.restore_selected
      ∷ RecoveryStep.observe_restoration ∷ RecoveryStep.publish ∷ RecoveryStep.resync_leshy
      ∷ RecoveryStep.unfreeze_selected ∷ [];
  met = 6;
  error = refused;
  split = refl;
  ran = then refl (then refl (then refl (then refl (then refl (then refl here)))));
  failed = refl;
  returned = refl;
  recorded = refl;
  explained = refl;
}

recovery_requires_example :
    all (λ s. contains s endpoint_fails.before) (requires endpoint_fails.at) ≡ true
recovery_requires_example = recovery_requires work true rebind 3 1 no_recovery 0 endpoint_fails

-- Whether a transaction is cancelled is what the world beside the controller says.
abbrev driver : RecoveryStep → Controller × Bool → (Controller × Bool) × Option RecoveryError
driver s w = (w, none)

recover_aborted_example :
    (recover driver (λ w. w.1) (λ role. true) "work" 3 1 (two_roles, true)).0 ≡ (two_roles, true)
recover_aborted_example =
    recover_aborted driver (λ w. w.1) (λ role. true) "work" 3 1 (two_roles, true) refl

-- ===== src/Core/Recovery/Sequences.antt =====
-- The order of the steps, for every action.
use mathlib.Core.List.{append-nil, append_assoc}
use kikimora.Prelude.{
  Option, ℕ, ◌≡◌, refl, Bool, true, false, ◌&&◌, List, [], ◌∷◌, ◌++◌, arith, all, any, nat_beq,
  subst,
}
use kikimora.Core.Model.{
  RecoveryStep, no_step, observe_routes, park, withdraw_selected, withdraw, quiesce, apply_endpoint,
  rebind, start_transport, validate, publish, resync_leshy, observe_restoration, freeze_selected,
  restore_selected, unfreeze_selected, RecoveryState,
}
use kikimora.Core.Reconciler.{RecoveryAction}
use kikimora.Core.Recovery.Running.{StoppedAt}
use kikimora.Core.Recovery.{
  RecoveryError, run_recovery_steps, recovery_sequence_for_action,
  managed_recovery_sequence_for_action,
}

abbrev step_index : RecoveryStep → ℕ
step_index no_step = 0
step_index observe_routes = 1
step_index park = 2
step_index withdraw_selected = 3
step_index withdraw = 4
step_index quiesce = 5
step_index apply_endpoint = 6
step_index rebind = 7
step_index start_transport = 8
step_index validate = 9
step_index publish = 10
step_index resync_leshy = 11
step_index observe_restoration = 12
step_index freeze_selected = 13
step_index restore_selected = 14
step_index unfreeze_selected = 15

abbrev pub contains : RecoveryStep → List RecoveryStep → Bool
contains s = any λ t. nat_beq (step_index s) (step_index t)

-- The steps that must have succeeded before a step is taken: nothing is withdrawn unless the routes were
-- observed and the parks installed, the transport is touched only behind the withdrawal with the endpoint
-- applied, and nothing is published or re-routed unless the transport was validated.
abbrev pub requires : RecoveryStep → List RecoveryStep
requires park = observe_routes ∷ []
requires withdraw = observe_routes ∷ park ∷ []
requires quiesce = park ∷ withdraw ∷ []
requires rebind = withdraw ∷ quiesce ∷ apply_endpoint ∷ []
requires start_transport = withdraw ∷ quiesce ∷ apply_endpoint ∷ []
requires publish = park ∷ validate ∷ []
requires resync_leshy = validate ∷ publish ∷ []
requires observe_restoration = park ∷ validate ∷ []
requires withdraw_selected = freeze_selected ∷ park ∷ []
requires restore_selected = freeze_selected ∷ withdraw_selected ∷ validate ∷ []
requires unfreeze_selected = freeze_selected ∷ restore_selected ∷ observe_restoration ∷ publish ∷ []
requires _ = []

-- Every step of the list finds what it requires among those before it.
in_order : List RecoveryStep → List RecoveryStep → Bool
in_order before [] = true
in_order before (s ∷ ss) =
    all (λ t. contains t before) (requires s) && in_order (before ++ s ∷ []) ss

in_order_lem :
    (before done rest : List RecoveryStep) (s : RecoveryStep)
    → in_order before (done ++ s ∷ rest) ≡ true
    → all (λ t. contains t (before ++ done)) (requires s) ≡ true
unfolding in_order
in_order_lem before [] rest s h = rw append-nil (ground arith)
in_order_lem before (d ∷ ds) rest s h =
    rw (← append_assoc before (d ∷ []) ds)
      (in_order_lem (before ++ d ∷ []) ds rest s (ground arith))

-- The engine's choice of the sequence.
abbrev pub sequence_of : Bool → RecoveryAction → List RecoveryStep
sequence_of true a = managed_recovery_sequence_for_action a
sequence_of false a = recovery_sequence_for_action a

sequence_of-in_order :
    (managed : Bool) (a : RecoveryAction) → in_order [] (sequence_of managed a) ≡ true
unfolding in_order recovery_sequence_for_action managed_recovery_sequence_for_action
sequence_of-in_order true RecoveryAction.validate = refl
sequence_of-in_order true _ = refl
sequence_of-in_order false RecoveryAction.validate = refl
sequence_of-in_order false _ = refl

module _ {W : Type 0} (work : RecoveryStep → W → W × Option RecoveryError) where
  -- Wherever a recovery of any action, managed or not, is stopped, all that the step it stopped at
  -- requires had succeeded: nothing was withdrawn unparked, and nothing published unvalidated.
  pub recovery_requires :
      (managed : Bool) (a : RecoveryAction) (operation epoch : ℕ) (rec : RecoveryState) (w : W)
      → (t : StoppedAt work
          (sequence_of managed a)
          w
          (run_recovery_steps work operation epoch (sequence_of managed a) rec w))
      → all (λ s. contains s t.before) (requires t.at) ≡ true
  recovery_requires managed a operation epoch rec w t =
      in_order_lem [] t.before t.rest t.at
        (subst (λ steps. in_order [] steps ≡ true) t.split (sequence_of-in_order managed a))

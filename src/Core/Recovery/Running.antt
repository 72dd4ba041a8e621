-- ===== src/Core/Recovery/Running.antt =====
-- How far a recovery came, and what its record says of it.
use kikimora.Prelude.{ℕ, ◌≡◌, refl, ap, ◌⊎◌, inl, inr, Option, none, some, List, [], ◌∷◌, ◌++◌}
use kikimora.Core.Model.{RecoveryStep, no_step, RecoveryState}
use kikimora.Core.Recovery.{RecoveryError, after_step, run_steps, run_recovery_steps}

module _ {W : Type 0} (work : RecoveryStep → W → W × Option RecoveryError) where
  -- All the steps were taken, one after the other, and each succeeded.
  pub data Ran : List RecoveryStep → W → W → Type 0 where
    here : {w : W} → Ran [] w w
    then :
        {s : RecoveryStep} {ss : List RecoveryStep} {w w' w'' : W}
        → work s w ≡ (w', none)
        → Ran ss w' w''
        → Ran (s ∷ ss) w w''

  -- A run stopped with the error of the step `at`, after all the steps before it.
  pub record StoppedAt (steps : List RecoveryStep) (w : W)
      (r : RecoveryState × W × Option RecoveryError) : Type 0 where
    pub before : List RecoveryStep
    pub at : RecoveryStep
    pub rest : List RecoveryStep
    pub met : W
    pub error : RecoveryError
    pub split : steps ≡ before ++ at ∷ rest
    pub ran : Ran before w met
    pub failed : work at met ≡ (r.1, some error)
    pub returned : r.2 ≡ some error
    pub recorded : r.0.step ≡ at
    pub explained : r.0.last_error ≡ error.message

  abbrev pub Finished : List RecoveryStep → W → RecoveryState × W × Option RecoveryError → Type 0
  Finished steps w r = (r.2 ≡ none) × Ran steps w r.1 × (r.0.step ≡ no_step) × (r.0.last_error ≡ "")

  outcome :
      (p : W × Option RecoveryError)
      → ((w' : W) × (p ≡ (w', none))) ⊎ ((w' : W) × (e : RecoveryError) × (p ≡ (w', some e)))
  outcome (w', none) = inl (w', refl)
  outcome (w', some e) = inr (w', e, refl)

  abbrev pub entered : RecoveryStep → RecoveryState → RecoveryState
  entered s rec = record rec { step = s; last_error = "" }

  run_steps-then :
      (s : RecoveryStep) (ss : List RecoveryStep) (rec : RecoveryState) (w w' : W)
      → work s w ≡ (w', none)
      → run_steps work (s ∷ ss) rec w ≡ run_steps work ss (entered s rec) w'
  unfolding run_steps
  run_steps-then s ss rec w w' q =
      ap (after_step work (entered s rec) (run_steps work ss (entered s rec))) q

  pub run_steps-stop :
      (s : RecoveryStep) (ss : List RecoveryStep) (rec : RecoveryState) (w w' : W)
      (e : RecoveryError)
      → work s w ≡ (w', some e)
      → run_steps work (s ∷ ss) rec w
        ≡ (record (entered s rec) { last_error = e.message }, w', some e)
  unfolding run_steps
  run_steps-stop s ss rec w w' e q =
      ap (after_step work (entered s rec) (run_steps work ss (entered s rec))) q

  later :
      (s : RecoveryStep) (ss : List RecoveryStep) (w w' : W)
      (r : RecoveryState × W × Option RecoveryError)
      → work s w ≡ (w', none)
      → StoppedAt ss w' r
      → StoppedAt (s ∷ ss) w r
  later s ss w w' r q t = record {
    before = s ∷ t.before;
    at = t.at;
    rest = t.rest;
    met = t.met;
    error = t.error;
    split = ap (◌∷◌ s) t.split;
    ran = then q t.ran;
    failed = t.failed;
    returned = t.returned;
    recorded = t.recorded;
    explained = t.explained;
  }

  run_steps_lem :
      (steps : List RecoveryStep) (rec : RecoveryState) (w : W)
      → Finished steps w (run_steps work steps rec w)
        ⊎ StoppedAt steps w (run_steps work steps rec w)
  run_steps_lem [] rec w = inl (unfold run_steps in (refl, here, refl, refl))
  run_steps_lem (s ∷ ss) rec w = elim (outcome (work s w)) [
    | inl (w', q) ↦
        rw (run_steps-then s ss rec w w' q) (elim (run_steps_lem ss (entered s rec) w') [
          | inl (none_left, ran, idle, clean) ↦ inl (none_left, then q ran, idle, clean)
          | inr t ↦ inr (later s ss w w' _ q t)
        ])
    | inr (w', e, q) ↦ rw (run_steps-stop s ss rec w w' e q) (
        inr (record {
          before = [];
          at = s;
          rest = ss;
          met = w;
          error = e;
          split = refl;
          ran = here;
          failed = q;
          returned = refl;
          recorded = refl;
          explained = refl;
        }))
  ]

  -- A recovery either takes all its steps and leaves no step and no error in the record, or stops at
  -- the step that the record names, with that step's error, after every step before it succeeded; no
  -- later step was taken.
  pub run_recovery_steps_lem :
      (operation epoch : ℕ) (steps : List RecoveryStep) (rec : RecoveryState) (w : W)
      → let r = run_recovery_steps work operation epoch steps rec w in
        Finished steps w r ⊎ StoppedAt steps w r
  unfolding run_recovery_steps
  run_recovery_steps_lem operation epoch steps rec w = run_steps_lem steps _ w

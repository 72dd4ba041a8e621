-- ===== src/Control/Ownership/Delta.antt =====
-- toad/internal/control/recovery_driver.go: captureOwnedDelta after captureOwnershipBaseline.
use kikimora.Prelude.{
  String, ◌≡◌, refl, ◌∙◌, sym, subst, Option, none, some, List, [], ◌∷◌, ◌==◌, string_eq, eq_iff,
  arith, ok, Bool-cases, Option-cases, Result-cases, inl, inr,
}
use kikimora.Prelude.Map.{lookup, insert, lookup-insert}
use kikimora.Netip.{Prefix}
use kikimora.Routing.Ownership.{listed}
use kikimora.Routing.Executor.{Executor, KernelState}
use kikimora.Parking.{OwnedRoute}
use kikimora.Control.Ownership.{
  RoleView, Driver, Files, checkpoint_of, loaded_now, selected_route_candidates, Outcome, written,
  write_ownership_checkpoint, capture_ownership_baseline, capture_against, capture_owned_delta,
}

module _ (show_prefix : Prefix → String) (parse_prefix : String → Option Prefix) {S : Type 0}
    (x : Executor S) (files : Files S) (roles : String → Option RoleView) where
  abbrev delta :
      String → RoleView → Driver → S → Outcome show_prefix parse_prefix (some x) files roles
  delta = capture_owned_delta show_prefix parse_prefix (some x) files roles

  written-driver :
      (d : Driver) (o : Option String × S)
      → (written show_prefix parse_prefix (some x) files roles d o).1 ≡ d
  written-driver d (none, s) = refl
  written-driver d (some e, s) = refl

  -- Writing the file changes nothing that the driver holds.
  pub write-driver :
      (role : String) (d : Driver) (s : S)
      → (write_ownership_checkpoint show_prefix parse_prefix (some x) files roles role d s).1 ≡ d
  unfolding write_ownership_checkpoint
  write-driver role d s = elim (Option-cases (roles role)) [
    | inl q ↦ rw (q, write_ownership_checkpoint) refl
    | inr (r, q) ↦ elim (Bool-cases (r.state_dir == "")) [
      | inl e ↦ rw (q, write_ownership_checkpoint, e) refl
      | inr e ↦
          rw (q, write_ownership_checkpoint, e)
            (written-driver d (files.write role (checkpoint_of role r d) s))
    ]
  ]

  nothing_against :
      (role : String) (current baseline : List OwnedRoute) (d : Driver) (s : S)
      → baseline ≡ []
      → (capture_against show_prefix parse_prefix (some x) files roles role current baseline d s).1
        ≡ d
  unfolding capture_against
  nothing_against role current [] d s h = refl
  nothing_against role current (b ∷ bs) d s h = absurd (cc)

  delta_nothing :
      (role : String) (r : RoleView) (d : Driver) (s : S)
      → listed (lookup role d.baselines) ≡ []
      → (delta role r d s).1 ≡ d
  unfolding capture_owned_delta
  delta_nothing role r d s h = elim (Result-cases (x.snapshot s)) [
    | inr (e, q) ↦ rw (q, capture_owned_delta) refl
    | inl (k, q) ↦
        rw (q, capture_owned_delta)
          (nothing_against role (selected_route_candidates parse_prefix k role r) _ d s h)
  ]

  -- The driver after a baseline.
  abbrev based : String → List OwnedRoute → Driver → Driver
  based role current d = loaded_now role (record d { baselines = insert role current d.baselines })

  baseline-driver :
      (role : String) (r : RoleView) (d : Driver) (s : S) (k : KernelState)
      → x.snapshot s ≡ ok k
      → (capture_ownership_baseline show_prefix parse_prefix (some x) files roles role r d s).1
        ≡ based role (selected_route_candidates parse_prefix k role r) d
  unfolding capture_ownership_baseline
  baseline-driver role r d s k q = rw (q, capture_ownership_baseline) (write-driver role _ s)

  lookup-based :
      (role : String) (current : List OwnedRoute) (d : Driver)
      → listed (lookup role (based role current d).baselines) ≡ current
  lookup-based role current d =
      ground (arith, lookup-insert role role current d.baselines, eq_iff role role)

  -- After a baseline that was taken while the kernel showed no route of the role, no later delta records
  -- any ownership, whatever routes the kernel shows by then.
  pub capture_ownership_baseline-delta :
      (role : String) (r r' : RoleView) (d : Driver) (s s' : S) (k : KernelState)
      → x.snapshot s ≡ ok k
      → selected_route_candidates parse_prefix k role r ≡ []
      → let d1 =
          (capture_ownership_baseline show_prefix parse_prefix (some x) files roles role r d s).1 in
        (delta role r' d1 s').1 ≡ d1
  capture_ownership_baseline-delta role r r' d s s' k q h =
      subst (λ (y : Driver). (delta role r' y s').1 ≡ y) (sym (baseline-driver role r d s k q))
        (delta_nothing role r' (based role (selected_route_candidates parse_prefix k role r) d) s'
          (lookup-based role (selected_route_candidates parse_prefix k role r) d ∙ h))

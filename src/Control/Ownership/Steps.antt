-- ===== src/Control/Ownership/Steps.antt =====
-- toad/internal/control/recovery_driver.go: ObserveRoutes, Park and ObserveRestoration for a role that is
-- not managed. What they report of the parking to the product is the state of the driver's parks.
use kikimora.Prelude.{
  String, string_eq, Bool, true, false, Option, none, some, if◌then◌else◌, Result, ok, err, ℕ,
}
use kikimora.Netip.{Prefix}
use kikimora.Routing.Ownership.{owners_of}
use kikimora.Routing.Executor.{Executor, KernelState}
use kikimora.Parking.{
  ParkingError, States, parked_of, prepare_owned_withdrawal, observe_restoration_from_kernel,
}
use kikimora.Control.Ownership.{
  RoleView, Driver, outside, parking, routes_still_parked, Files, Outcome,
  restore_ownership_checkpoint, write_ownership_checkpoint, capture_owned_delta,
}

abbrev is_missing {ℓ} : {A : Type ℓ} → Option A → Bool
is_missing none = true
is_missing (some x) = false

abbrev failure : Result String KernelState → Option String
failure (ok k) = none
failure (err e) = some e

-- Why the kernel's routes cannot be read.
abbrev unreadable : {S : Type 0} → Option (Executor S) → S → Option String
unreadable none s = none
unreadable (some x) s = failure (x.snapshot s)

module _ (show_prefix : Prefix → String) (parse_prefix : String → Option Prefix) {S : Type 0}
    (routes : Option (Executor S)) (files : Files S) (roles : String → Option RoleView) where
  abbrev Ended : Type 0
  Ended = Outcome show_prefix parse_prefix routes files roles

  -- The next step, after one that reported no error.
  abbrev unless_failed : (Driver → S → Ended) → Ended → Ended
  unless_failed next (none, d, s) = next d s
  unless_failed next (some e, d, s) = (some e, d, s)

  unfoldable pub observe_routes : String → Driver → S → Ended
  observe_routes role d s = if is_missing routes then (none, d, s) else elim (unreadable routes s) [
    | some e ↦ (some (outside e), d, s)
    | none ↦ restore_ownership_checkpoint show_prefix parse_prefix routes files roles role d s
  ]

  unfoldable pub parked_outcome : String → Driver → Result ParkingError States × S → Ended
  parked_outcome role d (err e, s) = (some (parking e), d, s)
  parked_outcome role d (ok m, s) =
      write_ownership_checkpoint show_prefix parse_prefix routes files roles role
        (record d { parks = m }) s

  -- Parks that are known to be in the kernel are not replaced.
  unfoldable pub park_owned : String → Driver → S → Ended
  park_owned role d s =
      if (parked_of role d.parks).active
      then write_ownership_checkpoint show_prefix parse_prefix routes files roles role d s
      else parked_outcome role d
          (prepare_owned_withdrawal show_prefix routes role (owners_of role d.ownership) d.parks s)

  unfoldable pub park_legacy : String → Driver → S → Ended
  park_legacy role d s =
      if is_missing routes
      then (none, d, s)
      else unless_failed (park_owned role)
          (restore_ownership_checkpoint show_prefix parse_prefix routes files roles role d s)

  abbrev still_parked_in : String → Driver → S → Ended
  still_parked_in role d s =
      if (parked_of role d.parks).active then (some routes_still_parked, d, s) else (none, d, s)

  unfoldable pub restoration_outcome : String → Driver → Result ParkingError ℕ × States × S → Ended
  restoration_outcome role d (err e, m, s) = (some (parking e), record d { parks = m }, s)
  restoration_outcome role d (ok n, m, s) = unless_failed (still_parked_in role) (
      write_ownership_checkpoint show_prefix parse_prefix routes files roles role
        (record d { parks = m }) s)

  unfoldable pub release_parks : String → Driver → S → Ended
  release_parks role d s =
      restoration_outcome role d (observe_restoration_from_kernel show_prefix routes role d.parks s)

  unfoldable pub observe_legacy_restoration : String → Driver → S → Ended
  observe_legacy_restoration role d s =
      if is_missing routes then (none, d, s) else elim (roles role) [
        | none ↦ release_parks role d s
        | some r ↦
            unless_failed (release_parks role)
              (capture_owned_delta show_prefix parse_prefix routes files roles role r d s)
      ]

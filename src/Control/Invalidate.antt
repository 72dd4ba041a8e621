-- ===== src/Control/Invalidate.antt =====
-- toad/internal/control/selected_reconcile_support.go: what an invalidation of the kernel's routes makes of
-- the managed roles, and the quarantine of a role. The recoveries that are requested of the product
-- manager are part of the outcome; its diagnostics are left out.
use kikimora.Prelude.{
  String, string_eq, Bool, true, false, not, ◌&&◌, Option, none, some, List, [], ◌∷◌, if◌then◌else◌,
  ◌==◌, Result, ok, err, any, keep, ℤ,
}
use kikimora.Prelude.Int.{int_eq}
use kikimora.Prelude.Map.{lookup, update_all}
use kikimora.Netip.{Prefix, prefix_eq}
use kikimora.Routing.Record.{
  SelectedRouteState, pending, applying, active, retiring, other_state, SelectedPark, SelectedRoute,
}
use kikimora.Routing.Plan.{SelectedKernelRow, is_foreign}
use kikimora.Control.World.{
  Env, RoleFlags, World, Failure, no_writer, not_quarantined, conflict_remains, snapshot_rows, Act,
  ◌>>=◌, ◌>>◌, require, gets, role_state, set_role_state, flags_or_fresh, ask, registry_snapshot,
  registry_entry,
}
use kikimora.Control.Transactions.{clear_verification_for_prefix, reconcile_record, retire_record}

-- ClearAllVerification.
unfoldable pub clear_all_verification : World → World
clear_all_verification w = record w {
  roles = update_all (λ _ s. record s { verification = [] }) w.roles;
}

unfoldable pub clear_verification_for_ifindex : ℤ → World → World
clear_verification_for_ifindex i w = record w {
  roles =
      update_all
        (λ _ s. record s {
          verification = keep (λ t. not (t.1.identity.if_index == i)) s.verification;
        })
        w.roles;
}

abbrev has_park : Option SelectedPark → Bool
has_park none = false
has_park (some p) = true

-- A turn of the loop over the roles: it returns, or the loop goes on with the turn's error.
pub data Turn : Type 0 where
  returns : Turn
  goes_on : Option Failure → Turn

abbrev turned {ℓ} : {A : Type ℓ} → Result Failure A × World → Turn × World
turned (ok a, w) = (goes_on none, w)
turned (err e, w) = (goes_on (some e), w)

abbrev first_of : Option Failure → Option Failure → Option Failure
first_of none e = e
first_of (some e) _ = some e

module _ (env : Env) where
  -- The switch on the state of the record.
  unfoldable pub invalidated_in : SelectedRouteState → String → Prefix → World → Turn × World
  invalidated_in retiring role prefix w = turned (retire_record env role prefix w)
  invalidated_in pending role prefix w = turned (reconcile_record env role prefix w)
  invalidated_in applying role prefix w = turned (reconcile_record env role prefix w)
  invalidated_in active role prefix w = turned (reconcile_record env role prefix w)
  invalidated_in (other_state s) role prefix w = (goes_on none, w)

  unfoldable pub invalidated_record :
      RoleFlags → String → Prefix → Option SelectedRoute → World → Turn × World
  invalidated_record s role prefix none w = (goes_on none, w)
  invalidated_record s role prefix (some e) w =
      if s.restore_pending && has_park e.park
      then (returns, w)
      else (if s.integrity_quarantined
          then (goes_on none, w)
          else (if s.frozen && not s.restore_pending
              then (goes_on none, w)
              else invalidated_in e.state role prefix w))

  abbrev turn : String → Prefix → World → Turn × World
  turn role prefix w =
      let w0 : World = (role_state role w).1 in
      invalidated_record (flags_or_fresh (lookup role w.roles)) role prefix
        (registry_entry env role prefix w0) w0

  -- The loop; where it returns, the error so far is dropped and the role's recovery is requested.
  unfoldable pub invalidated_roles :
      Prefix → List String → Option Failure → World → (Option Failure × List String) × World
  invalidated_roles prefix [] first w = ((first, []), w)
  invalidated_roles prefix (role ∷ roles) first w =
      let (t, w') = turn role prefix w in
      elim t [
        | returns ↦ ((none, role ∷ []), w')
        | goes_on e ↦ invalidated_roles prefix roles (first_of first e) w'
      ]

  unfoldable pub handle_prefix_invalidation :
      List String → Prefix → World → (Option Failure × List String) × World
  handle_prefix_invalidation managed prefix w =
      invalidated_roles prefix managed none (clear_verification_for_prefix prefix w).1

  abbrev is_quarantined : Option RoleFlags → Bool
  is_quarantined none = false
  is_quarantined (some s) = s.integrity_quarantined

  unfoldable pub handle_interface_invalidation : List String → ℤ → World → List String × World
  handle_interface_invalidation managed i w = (
    keep (λ role. not (is_quarantined (lookup role w.roles))) managed,
    clear_verification_for_ifindex i w,
  )

  unfoldable pub fail_selected_route_integrity : String → Act (Unit {0})
  fail_selected_route_integrity role = do
    s ← role_state role
    set_role_state role
        (record s { frozen = true; integrity_quarantined = true; verification = [] })

  abbrev rows_found : Option (List SelectedKernelRow) → List SelectedKernelRow
  rows_found none = []
  rows_found (some rows) = rows

  abbrev is_conflicting : List (Prefix × List SelectedKernelRow) → SelectedRoute → Bool
  is_conflicting rows e = any (λ row. is_foreign row.kind) (rows_found (lookup e.prefix rows))

  unfoldable pub retry_quarantined_role : String → Act (Unit {0})
  retry_quarantined_role role = do
    s ← role_state role
    require s.integrity_quarantined not_quarantined
    require env.routes_resolved no_writer
    rows ← gets (λ w. env.rows snapshot_rows w.history)
    ask env snapshot_rows
    entries ← gets (registry_snapshot env role)
    require (not (any (is_conflicting rows) entries)) conflict_remains
    now ← role_state role
    set_role_state role (record now { integrity_quarantined = false })

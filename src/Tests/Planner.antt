-- ===== src/Tests/Planner.antt =====
-- toad/internal/routing/selected_plan.go: plans for a record and the rows of its prefix.
use mathlib.Core.Logic.{◌≢◌}
use mathlib.Core.List.{Permᴰ}
use kikimora.Prelude.{
  ℕ, ◌≡◌, refl, true, false, not, ◌&&◌, none, some, [], ◌∷◌, if◌then◌else◌, ◌==◌, all, count, ltb,
  nat_eq, ok, length,
}
use kikimora.Netip.{masked}
use kikimora.Routing.Identity.{is_canonical_prefix, validate_route}
use kikimora.Routing.Record.{SelectedRoute, active, applying}
use kikimora.Routing.Machine.{reserve_entry, mark_applying_entry, mark_active_entry}
use kikimora.Routing.Machine.Restorable.{IsRestorable}
use kikimora.Routing.Restore.{restorable}
use kikimora.Routing.Plan.{
  SelectedKernelRow, route_row, foreign_row, action_none, action_add, action_replace,
  row_matches_identity, plan_selected_route,
}
use kikimora.Routing.Plan.Order.{
  accounted, is_desired, planned, action_of, plan_selected_route-eq, plan_selected_route-perm,
}
use kikimora.Routing.Plan.Lifecycle.{
  plan_of, plan_selected_route-reserve_entry, plan_selected_route-mark_applying,
  plan_selected_route-mark_active, plan_selected_route-reserve_moved, plan_selected_route_active,
}
use kikimora.Tests.Registry.{no_names, destination, direct, parked, through}

abbrev row : ℕ → SelectedKernelRow
row i = record { kind = route_row; route = direct i; park = parked; description = "" }

abbrev alien : SelectedKernelRow
alien = record { kind = foreign_row; route = direct 7; park = parked; description = "" }

abbrev reserved : SelectedRoute
reserved = record {
  role = "vpn";
  zone = "vpn";
  prefix = destination;
  source = (through 7).source;
  toad_generation = 1;
  route_generation = 1;
  interface = "kikimora0";
  desired = direct 7;
  owned = none;
  state = applying;
  retire_desired = false;
  park = none;
}

abbrev installed : SelectedRoute
installed = record reserved { owned = some (direct 7); state = active }

-- The record of a destination that moves from one interface to another.
abbrev moved : SelectedRoute
moved = record installed { desired = direct 8 }

plan_selected_route-eq_example :
    action_of (plan_selected_route (row 7 ∷ row 8 ∷ []) (some moved))
    ≡ planned moved (row 7 ∷ row 8 ∷ [])
plan_selected_route-eq_example = plan_selected_route-eq (row 7 ∷ row 8 ∷ []) moved

plan_selected_route-perm_example :
    action_of (plan_selected_route (row 7 ∷ alien ∷ []) (some moved))
    ≡ action_of (plan_selected_route (alien ∷ row 7 ∷ []) (some moved))
plan_selected_route-perm_example = plan_selected_route-perm moved ∣ Permᴰ.swap refl refl ∣₁

plan_selected_route-reserve_entry_example :
    plan_of (row 7 ∷ []) (reserve_entry "vpn" destination (through 7) none)
    ≡ (if length (row 7 ∷ []) == 0 then some action_add else none)
plan_selected_route-reserve_entry_example =
    plan_selected_route-reserve_entry (row 7 ∷ []) "vpn" destination (through 7)

reserved_applying :
    mark_applying_entry (reserve_entry "vpn" destination (through 7) none) ≡ ok reserved
unfolding reserve_entry mark_applying_entry
reserved_applying = refl

row_is_direct : row_matches_identity (row 7) (direct 7) ≡ true
unfolding row_matches_identity
row_is_direct = refl

plan_selected_route-mark_applying_example : plan_of (row 7 ∷ []) reserved ≡ some action_none
plan_selected_route-mark_applying_example =
    plan_selected_route-mark_applying (row 7) "vpn" destination (through 7) reserved_applying
      row_is_direct

reserved_active : mark_active_entry (direct 7) reserved ≡ ok installed
unfolding mark_active_entry
reserved_active = refl

plan_selected_route-mark_active_example : plan_of (row 7 ∷ []) installed ≡ some action_none
plan_selected_route-mark_active_example =
    plan_selected_route-mark_active (row 7) (direct 7) reserved reserved_active row_is_direct

interfaces_differ : direct 7 ≢ direct 8
interfaces_differ h = cc

plan_selected_route-reserve_moved_example :
    plan_of (row 7 ∷ []) (reserve_entry "vpn" destination (through 8) (some installed))
    ≡ some action_replace
plan_selected_route-reserve_moved_example =
    plan_selected_route-reserve_moved (row 7) "vpn" destination (through 8) installed refl refl
      interfaces_differ row_is_direct

installed-IsRestorable : IsRestorable no_names installed
unfolding restorable validate_route is_canonical_prefix masked
installed-IsRestorable = refl

plan_selected_route_active_example : plan_of (row 7 ∷ row 7 ∷ []) installed ≡ (
    if all (accounted installed) (row 7 ∷ row 7 ∷ [])
      && not (ltb 1 (count (is_desired installed) (row 7 ∷ row 7 ∷ [])))
    then some
        (if count (is_desired installed) (row 7 ∷ row 7 ∷ []) == 0 then action_add else action_none)
    else none)
plan_selected_route_active_example =
    plan_selected_route_active no_names (row 7 ∷ row 7 ∷ []) installed installed-IsRestorable refl

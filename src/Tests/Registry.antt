-- ===== src/Tests/Registry.antt =====
-- toad/internal/routing/selected_registry.go: one destination from its reservation to its repair.
use kikimora.Prelude.{
  ℕ, String, ◌≡◌, ◌≢◌, refl, false, Option, none, List, [], ◌∷◌, if◌then◌else◌, ◌==◌, arith,
  string_eq, eq_iff, ok, map, pos,
}
use kikimora.Prelude.Map.{lookup, insert}
use kikimora.Netip.{Addr, v4, Prefix, prefix_eq, masked}
use kikimora.Routing.Identity.{
  SelectedRouteIdentity, SelectedParkIdentity, unreachable, managed_park_metric,
  managed_selected_route_table, is_canonical_prefix, validate_route, validate_park,
}
use kikimora.Routing.Record.{dns, active, pending, SelectedRouteKey, key_eq}
use kikimora.Routing.Machine.{
  Reservation, reserve_entry, mark_applying_entry, mark_active_entry, begin_repair_entry,
  reserve_park_tx, mark_park_applying_tx, mark_park_active_tx, on_park,
}
use kikimora.Routing.Registry.{
  Registry, new_registry, transition, reserve, reserve_park, mark_applying, mark_active,
  begin_repair, mark_park_applying, mark_park_active,
}
use kikimora.Routing.Restore.{restore_role}
use kikimora.Routing.Snapshot.{snapshot}
use kikimora.Routing.History.{
  Call, reserves, marks_applying, marks_active, begins_repair, reserves_park, marks_park_applying,
  marks_park_active, call, run_calls,
}
use kikimora.Routing.History.Sound.{IsSound, history-IsSound}
use kikimora.Routing.History.Roundtrip.{or_else, restore_role-snapshot}

-- No next hop is used, so no address is parsed.
abbrev pub no_names : String → Option Addr
no_names s = none

abbrev pub destination : Prefix
destination = record { ip = v4 167838211; bits_plus_one = 33 }

abbrev neighbour : Prefix
neighbour = record { ip = v4 167838212; bits_plus_one = 33 }

abbrev pub show_prefix : Prefix → String
show_prefix p = if p == destination then "10.1.2.3/32" else "10.1.2.4/32"

abbrev pub direct : ℕ → SelectedRouteIdentity
direct i = record {
  table = managed_selected_route_table;
  if_index = pos i;
  next_hop = "";
  protocol = pos 186;
  metric = 0;
  scope = pos 253;
  interface_luid = 0;
}

abbrev pub parked : SelectedParkIdentity
parked = record {
  kind = unreachable;
  table = managed_selected_route_table;
  if_index = pos 0;
  next_hop = "";
  protocol = pos 186;
  metric = managed_park_metric;
  scope = pos 0;
  interface_luid = 0;
}

abbrev pub through : ℕ → Reservation
through i = record {
  zone = "vpn";
  source = dns;
  toad_generation = 1;
  route_generation = 1;
  interface = "kikimora0";
  desired = direct i;
}

-- The second reservation is refused for its role, the last repair for its state.
abbrev calls : List Call
calls =
    reserves "vpn" destination (through 7)
    ∷ reserves "" destination (through 7)
    ∷ marks_applying "vpn" destination
    ∷ marks_active "vpn" destination (direct 7)
    ∷ reserves_park "vpn" destination parked false
    ∷ marks_park_applying "vpn" destination
    ∷ marks_park_active "vpn" destination parked
    ∷ reserves "vpn" neighbour (through 7)
    ∷ begins_repair "vpn" neighbour
    ∷ []

abbrev registry : Registry
registry = run_calls no_names calls new_registry

states : map (λ t. t.1.state) registry ≡ active ∷ pending ∷ []
unfolding run_calls call reserve reserve_park transition begin_repair mark_applying mark_active
    mark_park_applying mark_park_active reserve_entry mark_applying_entry mark_active_entry
    begin_repair_entry mark_park_applying_tx mark_park_active_tx on_park reserve_park_tx
    validate_route validate_park is_canonical_prefix masked lookup insert
states = refl

history-IsSound_example : IsSound no_names registry
history-IsSound_example = history-IsSound no_names calls

pub role_named : ◌≢◌ {A = String} "vpn" ""
role_named h = ground (arith, eq_iff "vpn" "")

restore_role-snapshot_example :
    (r' : Registry) × (restore_role no_names "vpn"
        (snapshot show_prefix "vpn" registry)
        new_registry
      ≡ ok r')
    × ((k : SelectedRouteKey)
        → lookup k r' ≡ (
            if k.role == "vpn"
            then or_else (lookup k registry) (lookup k new_registry)
            else lookup k new_registry))
restore_role-snapshot_example =
    restore_role-snapshot no_names show_prefix "vpn" registry new_registry role_named
      (history-IsSound no_names calls)

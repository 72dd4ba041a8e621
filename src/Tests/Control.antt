-- ===== src/Tests/Control.antt =====
-- toad/internal/control: the selected-route manager over an outside that refuses nothing.
use kikimora.Prelude.{
  not, ◌&&◌, all, length, ◌==◌, nat_eq, ◌⊎◌, ◌≡◌, ◌≢◌, refl, true, false, Option, none, some, List,
  [], ◌∷◌, arith, string_eq, ok, is_ok, pos,
}
use kikimora.Prelude.Map.{lookup, insert}
use kikimora.Prelude.Sort.{insert_by, sort}
use kikimora.Netip.{prefix_eq, masked}
use kikimora.Routing.Identity.{is_canonical_prefix, validate_route, validate_park}
use kikimora.Routing.Record.{
  dns, SelectedRouteState, pending, applying, park_pending, park_applying, SelectedPark,
  SelectedRoute,
}
use kikimora.Routing.Machine.{
  reserve_entry, mark_applying_entry, reserve_park_tx, mark_park_applying_tx, on_park,
}
use kikimora.Routing.Registry.{
  Registry, new_registry, transition, reserve, reserve_park, mark_applying, mark_park_applying,
}
use kikimora.Routing.History.{
  Call, reserves, marks_applying, marks_active, marks_park_active, reserves_park,
  marks_park_applying, call, run_calls,
}
use kikimora.Routing.History.Sound.{history-IsSound}
use kikimora.Routing.Snapshot.{snapshot, kept}
use kikimora.Control.World.{Env, World, checkpoint, find_prefix, registry_snapshot, registry_entry}
use kikimora.Control.Transactions.{apply_reserved, retire_record}
use kikimora.Control.Parking.{park_one}
use kikimora.Control.Restore.{Target, restore_entry}
use kikimora.Control.WriteAhead.{durable, Held}
use kikimora.Control.WriteAhead.Rules.{Post, Knows, Sure, Verified}
use kikimora.Control.WriteAhead.Selected.{apply_reserved-Verified}
use kikimora.Control.WriteAhead.Retired.{retire_record-Sure}
use kikimora.Control.WriteAhead.Parked.{park_one-Sure}
use kikimora.Control.WriteAhead.Ahead.{Ahead}
use kikimora.Control.WriteAhead.Ahead.Restored.{restore_entry-Ahead}
use kikimora.Control.Withdrawal.{removals, AllProtected}
use kikimora.Control.Withdrawal.Seeing.{withdraw_selected-AllProtected}
use kikimora.Control.Parking.{withdraw_selected}
use kikimora.Control.Parking.{parking_state}
use kikimora.Control.Protection.{counts, parking_state-active}
use kikimora.Control.Stuck.{park_one-applying}
use kikimora.Tests.Registry.{
  no_names, destination, show_prefix, direct, parked, through, role_named,
}

-- The interface is 9 from the first checkpoint on.
abbrev pub env : Env
env = record {
  routes_resolved = true;
  parse_addr = no_names;
  show_prefix = show_prefix;
  state_dir = λ _. some "/state";
  foreign_row_error = λ _. false;
  refuses = λ _ _. none;
  reconciled = λ _ _. record { verified = direct 7; mutated = true };
  park_verified = λ _ _. parked;
  normalized = λ _ _. direct 9;
  park_normalized = λ _ _. parked;
  observed = λ _ _. true;
  rows = λ _ _. [];
}

abbrev world : Registry → World
world r = record {
  registry = r;
  roles = [];
  history = (checkpoint "vpn" 1 (snapshot show_prefix "vpn" r), true) ∷ [];
}

abbrev pub applying_calls : List Call
applying_calls = reserves "vpn" destination (through 7) ∷ marks_applying "vpn" destination ∷ []

abbrev park_pending_calls : List Call
park_pending_calls =
    reserves "vpn" destination (through 7) ∷ reserves_park "vpn" destination parked false ∷ []

abbrev park_applying_calls : List Call
park_applying_calls =
    reserves "vpn" destination (through 7)
    ∷ reserves_park "vpn" destination parked false
    ∷ marks_park_applying "vpn" destination
    ∷ []

abbrev pub after_calls : List Call → World
after_calls cs = world (run_calls no_names cs new_registry)

abbrev pub entry : SelectedRouteState → Option SelectedPark → SelectedRoute
entry state park = record {
  role = "vpn";
  zone = "vpn";
  source = dns;
  prefix = destination;
  toad_generation = 1;
  route_generation = 1;
  interface = "kikimora0";
  desired = direct 7;
  owned = none;
  state = state;
  retire_desired = false;
  park = park;
}

abbrev pending_park : SelectedPark
pending_park = record {
  desired = parked;
  owned = none;
  state = park_pending;
  retire_desired = false;
}

abbrev applying_park : SelectedPark
applying_park = record {
  desired = parked;
  owned = none;
  state = park_applying;
  retire_desired = false;
}

applying_registered :
    registry_entry env "vpn" destination (after_calls applying_calls) ≡ some (entry applying none)
unfolding registry_entry registry_snapshot snapshot kept find_prefix run_calls call reserve
    transition mark_applying reserve_entry mark_applying_entry validate_route is_canonical_prefix
    masked lookup insert insert_by sort
applying_registered = refl

parking_registered :
    registry_entry env "vpn" destination (after_calls park_pending_calls)
    ≡ some (entry pending (some pending_park))
unfolding registry_entry registry_snapshot snapshot kept find_prefix run_calls call reserve
    reserve_park transition reserve_entry reserve_park_tx validate_route validate_park
    is_canonical_prefix masked lookup insert insert_by sort
parking_registered = refl

park_applying_registered :
    registry_entry env "vpn" destination (after_calls park_applying_calls)
    ≡ some (entry pending (some applying_park))
unfolding registry_entry registry_snapshot snapshot kept find_prefix run_calls call reserve
    reserve_park transition reserve_entry reserve_park_tx mark_park_applying mark_park_applying_tx
    on_park validate_route validate_park is_canonical_prefix masked lookup insert insert_by sort
park_applying_registered = refl

pub sure : (cs : List Call) → Sure env "vpn" refl (after_calls cs)
unfolding durable registry_snapshot
sure cs = (((tt, tt), history-IsSound no_names cs), refl)

held :
    (cs : List Call) (e : SelectedRoute)
    → registry_entry env "vpn" destination (after_calls cs) ≡ some e
    → Held "vpn" destination e (after_calls cs).history
unfolding durable registry_entry registry_snapshot
held cs e at = (snapshot show_prefix "vpn" (run_calls no_names cs new_registry), refl, at)

valid : validate_route no_names (direct 9) destination ≡ ok tt
unfolding validate_route is_canonical_prefix masked
valid = refl

other_interface : direct 9 ≢ direct 7
other_interface h = ground arith

abbrev present : Target
present = record {
  if_index = pos 9;
  interface = "kikimora0";
  toad_generation = 2;
  v4_ready = true;
  v6_ready = true;
}

-- The record that Applying was written for, reserved anew by Ensure.
apply_reserved-Verified_example :
    Post
      (λ _. Verified env "vpn" refl destination)
      (Knows env)
      (apply_reserved env "vpn" destination (through 7) 1 (after_calls applying_calls))
apply_reserved-Verified_example =
    apply_reserved-Verified env "vpn" refl destination (through 7) 1 (after_calls applying_calls)
      (sure applying_calls).0

retire_record-Sure_example :
    Post
      (λ _. Sure env "vpn" refl)
      (Knows env)
      (retire_record env "vpn" destination (after_calls park_applying_calls))
retire_record-Sure_example =
    retire_record-Sure env "vpn" refl destination (after_calls park_applying_calls)
      (sure park_applying_calls)

park_one-Sure_example :
    Post
      (λ _. Sure env "vpn" refl)
      (Knows env)
      (park_one env "vpn" (entry pending (some pending_park)) (after_calls park_pending_calls))
park_one-Sure_example =
    park_one-Sure env "vpn" refl (entry pending (some pending_park))
      (after_calls park_pending_calls) (sure park_pending_calls, parking_registered)

restore_entry-Ahead_example :
    Ahead (restore_entry env "vpn" present (entry applying none) (after_calls applying_calls)).1
restore_entry-Ahead_example =
    restore_entry-Ahead env "vpn" present (entry applying none) (after_calls applying_calls) refl
      (history-IsSound no_names applying_calls) applying_registered
      (held applying_calls _ applying_registered) refl role_named refl other_interface valid

park_one-applying_example :
    is_ok (
      (park_one env "vpn" (entry pending (some applying_park)) (after_calls park_applying_calls)).0)
    ≡ false
park_one-applying_example =
    park_one-applying env "vpn" (entry pending (some applying_park)) applying_park
      (after_calls park_applying_calls) (history-IsSound no_names park_applying_calls)
      park_applying_registered refl refl

-- The route and its park are Active, and the role is frozen.
abbrev pub frozen_world : World
frozen_world =
    record (after_calls (
      reserves "vpn" destination (through 7)
      ∷ marks_applying "vpn" destination
      ∷ marks_active "vpn" destination (direct 7)
      ∷ reserves_park "vpn" destination parked false
      ∷ marks_park_applying "vpn" destination
      ∷ marks_park_active "vpn" destination parked
      ∷ [])) {
        roles =
            (
              "vpn",
              record {
                frozen = true;
                route_generation = 1;
                restore_pending = false;
                integrity_quarantined = false;
                verification = [];
              },
            )
            ∷ [];
      }

withdraw_selected-AllProtected_example :
    Post
      (λ _ w'. AllProtected env (registry_snapshot env "vpn" frozen_world) w'.history)
      (λ w'.
        (removals w'.history ≡ removals frozen_world.history)
        ⊎ AllProtected env (registry_snapshot env "vpn" frozen_world) w'.history)
      (withdraw_selected env "vpn" frozen_world)
withdraw_selected-AllProtected_example = withdraw_selected-AllProtected env "vpn" frozen_world

abbrev parked_entries : List SelectedRoute
parked_entries = entry pending (some pending_park) ∷ entry applying (some applying_park) ∷ []

parking_state-active_example :
    (parking_state parked_entries).active
    ≡ (not (length parked_entries == 0) && all counts parked_entries)
parking_state-active_example = parking_state-active parked_entries

-- ===== src/Control/Ownership.antt =====
-- toad/internal/control/recovery_driver.go: which routes of the kernel a role owns where Leshy writes
-- them itself: the baseline before a publication, what came after it, and the checkpoint of both.
pub mod Delta
pub mod Roundtrip
pub mod Steps
use kikimora.Prelude.{
  ℕ, ℤ, pos, String, Bool, true, false, ◌&&◌, ◌||◌, not, Option, none, some, List, [], ◌∷◌, map,
  if◌then◌else◌, ◌==◌, string_eq, Result, ok, err, keep,
}
use kikimora.Prelude.Int.{int_eq, is_positive}
use kikimora.Prelude.Map.{lookup, insert}
use kikimora.Netip.{Prefix}
use kikimora.Routing.Identity.{is_host_prefix}
use kikimora.Routing.Ownership.{
  SelectedRouteOwner, Owners, listed, owners_of, replace, remove_owners,
}
use kikimora.Routing.Executor.{Operation, KernelState, Executor}
use kikimora.Parking.{
  OwnedRoute, Checkpoint, ParkingError, States, parked_of, member, is_candidate, endpoint_table,
  static_protocol, restore_checkpoint,
}

-- What the driver reads of a role: its observed interface and its state directory.
pub record RoleView : Type 0 where
  pub interface : String
  pub if_index : ℤ
  pub state_dir : String

pub record Driver : Type 0 where
  pub ownership : Owners
  pub loaded : List (String × Bool)
  pub baselines : List (String × List OwnedRoute)
  pub parks : States

pub data DriverError : Type 0 where
  unknown_role no_state_dir role_mismatch routes_still_parked : DriverError
  outside : String → DriverError
  parking : ParkingError → DriverError

pub data Saved : Type 0 where
  missing undecodable : Saved
  holds : Checkpoint → Saved

-- parking.json of a role; a file that does not decode is renamed.
pub record Files (S : Type 0) : Type 0 where
  pub read : String → S → Saved
  pub write : String → Checkpoint → S → Option String × S
  pub quarantine : String → S → S

abbrev pub taken_row : RoleView → Operation → Bool
taken_row r row =
    row.kind == "route"
    && (not (row.table == endpoint_table)
        && (row.if_index == r.if_index && row.protocol == static_protocol))

abbrev pub owned_route : String → RoleView → Prefix → OwnedRoute
owned_route role r prefix = record {
  role = role;
  interface = r.interface;
  if_index = r.if_index;
  prefix = prefix;
}

abbrev pub owner : String → OwnedRoute → SelectedRouteOwner
owner role v = record {
  role = role;
  interface = v.interface;
  if_index = v.if_index;
  prefix = v.prefix;
}

-- The prefix of a row, where it is a host prefix that was not met yet.
abbrev fresh : List Prefix → Option Prefix → Option Prefix
fresh seen none = none
fresh seen (some p) = if is_host_prefix p && not (member p seen) then some p else none

module _ (parse_prefix : String → Option Prefix) where
  unfoldable pub candidates_from :
      String → RoleView → List Prefix → List Operation → List OwnedRoute
  candidates_from role r seen [] = []
  candidates_from role r seen (row ∷ rows) =
      elim (if taken_row r row then fresh seen (parse_prefix row.prefix) else none) [
        | none ↦ candidates_from role r seen rows
        | some p ↦ owned_route role r p ∷ candidates_from role r (p ∷ seen) rows
      ]

  unfoldable pub selected_route_candidates : KernelState → String → RoleView → List OwnedRoute
  selected_route_candidates k role r =
      if role == "" || (r.interface == "" || not (is_positive r.if_index))
      then []
      else candidates_from role r [] k.routes

-- The loop of captureOwnedDelta.
unfoldable pub added : String → List Prefix → List OwnedRoute → List SelectedRouteOwner
added role baseline [] = []
added role baseline (v ∷ vs) =
    let rest = added role baseline vs in
    if is_candidate v baseline then owner role v ∷ rest else rest

-- The loop of restoreOwnershipCheckpoint.
unfoldable pub still_owned : String → Checkpoint → List OwnedRoute → List SelectedRouteOwner
still_owned role c [] = []
still_owned role c (v ∷ vs) =
    let rest = still_owned role c vs in
    if v.role == role && (v.if_index == c.if_index && is_host_prefix v.prefix)
    then owner role v ∷ rest
    else rest

abbrev is_empty {ℓ} : {A : Type ℓ} → List A → Bool
is_empty [] = true
is_empty (x ∷ xs) = false

abbrev pub loaded_now : String → Driver → Driver
loaded_now role d = record d { loaded = insert role true d.loaded }

abbrev pub is_loaded : Option Bool → Bool
is_loaded none = false
is_loaded (some b) = b

abbrev pub checkpoint_of : String → RoleView → Driver → Checkpoint
checkpoint_of role r d = record {
  boot_id = "";
  core_instance_id = "";
  role = role;
  interface = r.interface;
  if_index = r.if_index;
  baseline = listed (lookup role d.baselines);
  observed =
      map
        (λ o. record {
          role = o.role;
          interface = o.interface;
          if_index = o.if_index;
          prefix = o.prefix;
        })
        (owners_of role d.ownership);
  parked = map (owned_route role r) (parked_of role d.parks).prefixes;
}

module _ (show_prefix : Prefix → String) (parse_prefix : String → Option Prefix) {S : Type 0}
    (routes : Option (Executor S)) (files : Files S) (roles : String → Option RoleView) where
  abbrev Outcome : Type 0
  Outcome = Option DriverError × Driver × S

  abbrev written : Driver → Option String × S → Outcome
  written d (none, s) = (none, d, s)
  written d (some e, s) = (some (outside e), d, s)

  unfoldable pub write_ownership_checkpoint : String → Driver → S → Outcome
  write_ownership_checkpoint role d s = elim (roles role) [
    | none ↦ (some unknown_role, d, s)
    | some r ↦
        if r.state_dir == ""
        then (some no_state_dir, d, s)
        else written d (files.write role (checkpoint_of role r d) s)
  ]

  unfoldable pub capture_ownership_baseline : String → RoleView → Driver → S → Outcome
  capture_ownership_baseline role r d s = elim routes [
    | none ↦ (none, d, s)
    | some x ↦ elim (x.snapshot s) [
      | err e ↦ (some (outside e), d, s)
      | ok k ↦
          write_ownership_checkpoint role
            (loaded_now role (record d {
              baselines = insert role (selected_route_candidates parse_prefix k role r) d.baselines;
            }))
            s
    ]
  ]

  -- `append(nil, baseline...)` is nil exactly where the baseline has no element.
  unfoldable pub capture_against : String → List OwnedRoute → List OwnedRoute → Driver → S → Outcome
  capture_against role current [] d s = (none, d, s)
  capture_against role current (b ∷ bs) d s =
      let owned = added role (map (λ (v : OwnedRoute). v.prefix) (b ∷ bs)) current in
      write_ownership_checkpoint role
        (if not (is_empty owned) || is_empty (owners_of role d.ownership)
          then record d { ownership = replace role owned d.ownership }
          else d)
        s

  unfoldable pub capture_owned_delta : String → RoleView → Driver → S → Outcome
  capture_owned_delta role r d s = elim routes [
    | none ↦ (none, d, s)
    | some x ↦ elim (x.snapshot s) [
      | err e ↦ (some (outside e), d, s)
      | ok k ↦
          capture_against role (selected_route_candidates parse_prefix k role r)
            (listed (lookup role d.baselines)) d s
    ]
  ]

  abbrev pub same_interface : String → RoleView → Checkpoint → Bool
  same_interface role r c =
      c.role == role && (c.interface == r.interface && c.if_index == r.if_index)

  -- Of a checkpoint of another interface only the parks are kept.
  unfoldable pub adopt : String → RoleView → Checkpoint → Driver → S → Outcome
  adopt role r c d s =
      if same_interface role r c
      then (
        none,
        loaded_now role (record d {
          ownership = replace role (still_owned role c c.observed) d.ownership;
          baselines = insert role c.baseline d.baselines;
        }),
        s,
      )
      else write_ownership_checkpoint role
          (loaded_now role (record d {
            ownership = remove_owners role d.ownership;
            baselines = insert role [] d.baselines;
          }))
          s

  unfoldable pub restore_held : String → RoleView → Checkpoint → Driver → S → Outcome
  restore_held role r c d s =
      if c.role == role
      then elim (restore_checkpoint show_prefix routes c d.parks s) [
        | err e ↦ (some (parking e), d, s)
        | ok m ↦ adopt role r c (record d { parks = m }) s
      ]
      else (some role_mismatch, d, s)

  unfoldable pub restore_read : String → RoleView → Saved → Driver → S → Outcome
  restore_read role r missing d s = (none, loaded_now role d, s)
  restore_read role r undecodable d s = (none, loaded_now role d, files.quarantine role s)
  restore_read role r (holds c) d s = restore_held role r c d s

  unfoldable pub restore_ownership_checkpoint : String → Driver → S → Outcome
  restore_ownership_checkpoint role d s =
      if is_loaded (lookup role d.loaded) then (none, d, s) else elim (roles role) [
        | none ↦ (some unknown_role, d, s)
        | some r ↦
            if r.state_dir == ""
            then (some no_state_dir, d, s)
            else restore_read role r (files.read role s) d s
      ]

-- ===== src/Tests/Driver.antt =====
-- toad/internal/parking and the legacy ownership of the recovery driver, over the executor in memory.
use kikimora.Prelude.{
  ℕ, pos, String, ◌≡◌, ◌⊎◌, refl, false, ◌&&◌, Option, none, some, List, [], ◌∷◌, if◌then◌else◌,
  ◌==◌, string_eq, nat_eq, ok, any, All,
}
use kikimora.Prelude.Int.{int_eq}
use kikimora.Prelude.Map.{lookup, insert}
use kikimora.Netip.{Prefix, prefix_eq}
use kikimora.Routing.Identity.{is_host_prefix}
use kikimora.Routing.Executor.{Operation, Fake, fake}
use kikimora.Routing.Ownership.{SelectedRouteOwner, listed, owners_of}
use kikimora.Parking.{
  States, park_operation, active_state, observe_restoration_from_kernel, prepare_owned_withdrawal,
}
use kikimora.Parking.Guarded.{HasPark, Wins, observe_restoration_from_kernel-Guarded}
use kikimora.Parking.Covered.{verified, Covers, prepare_owned_withdrawal-Covers}
use kikimora.Control.Ownership.{
  RoleView, Driver, Saved, missing, holds, Files, checkpoint_of, candidates_from,
  selected_route_candidates, capture_ownership_baseline, capture_owned_delta, is_loaded,
  restore_ownership_checkpoint,
}
use kikimora.Control.Ownership.Delta.{capture_ownership_baseline-delta}
use kikimora.Control.Ownership.Roundtrip.{Own, parks_left, restore-checkpoint_of}
use kikimora.Tests.Registry.{destination, show_prefix}

abbrev row : String → ℕ → Operation
row kind metric = record (park_operation kind "10.1.2.3/32") { if_index = pos 7; metric = metric }

abbrev kernel : List Operation → Fake
kernel rows = record { transactions = []; state = record { routes = rows; rules = [] } }

-- The destination is parked and a real route is back.
abbrev back : Fake
back = kernel (park_operation "park" "10.1.2.3/32" ∷ row "route" 0 ∷ [])

abbrev away : States
away = insert "vpn" (active_state (destination ∷ [])) []

observe_restoration_from_kernel-Guarded_example :
    let r = observe_restoration_from_kernel show_prefix (some fake) "vpn" away back in
    (Wins "10.1.2.3/32" back.state → Wins "10.1.2.3/32" (r.2).state)
    × (HasPark "10.1.2.3/32" back.state
        → HasPark "10.1.2.3/32" (r.2).state ⊎ Wins "10.1.2.3/32" (r.2).state)
observe_restoration_from_kernel-Guarded_example =
    observe_restoration_from_kernel-Guarded show_prefix "vpn" "10.1.2.3/32" away back

abbrev owner_of : String → SelectedRouteOwner
owner_of role = record {
  role = role;
  interface = "kikimora0";
  if_index = pos 7;
  prefix = destination;
}

vpn_named : ◌==◌ {T = String} "vpn" "" ≡ false
vpn_named = refl

-- Of two owners the second is another role's.
prepare_owned_withdrawal-Covers_example :
    let owners = owner_of "vpn" ∷ owner_of "work" ∷ [] in
    let r =
      prepare_owned_withdrawal show_prefix
        (some fake)
        "vpn"
        owners
        []
        (kernel (row "route" 0 ∷ [])) in
    (m' : States) × (r.0 ≡ ok m')
    × Covers show_prefix "vpn"
        (λ p.
          any
            (λ o. verified show_prefix "vpn" (kernel (row "route" 0 ∷ [])).state o && o.prefix == p)
            owners)
        m'
        r.1.state
prepare_owned_withdrawal-Covers_example =
    prepare_owned_withdrawal-Covers show_prefix "vpn" (owner_of "vpn" ∷ owner_of "work" ∷ []) []
      (kernel (row "route" 0 ∷ [])) vpn_named

abbrev parse_prefix : String → Option Prefix
parse_prefix s = if s == "10.1.2.3/32" then some destination else none

abbrev view : RoleView
view = record { interface = "kikimora0"; if_index = pos 7; state_dir = "/state" }

abbrev roles : String → Option RoleView
roles role = if role == "vpn" then some view else none

abbrev no_driver : Driver
no_driver = record { ownership = []; loaded = []; baselines = []; parks = [] }

abbrev files : Saved → Files Fake
files saved = record {
  read = λ role s. saved;
  write = λ role c s. (none, s);
  quarantine = λ role s. s;
}

no_candidate : selected_route_candidates parse_prefix (kernel []).state "vpn" view ≡ []
unfolding selected_route_candidates candidates_from
no_candidate = refl

-- The route comes after the baseline, and stays unrecorded.
capture_ownership_baseline-delta_example :
    let d1 =
      (capture_ownership_baseline show_prefix parse_prefix
        (some fake)
        (files missing)
        roles
        "vpn"
        view
        no_driver
        (kernel [])).1 in
    (capture_owned_delta show_prefix parse_prefix
      (some fake)
      (files missing)
      roles
      "vpn"
      view
      d1
      (kernel (row "route" 0 ∷ []))).1
    ≡ d1
capture_ownership_baseline-delta_example =
    capture_ownership_baseline-delta show_prefix parse_prefix fake (files missing) roles "vpn" view
      view no_driver (kernel []) (kernel (row "route" 0 ∷ [])) (kernel []).state refl no_candidate

-- A driver that owns the destination and has parked it.
abbrev owning : Driver
owning = record no_driver { ownership = ("vpn", owner_of "vpn" ∷ []) ∷ []; parks = away }

abbrev wrote : Files Fake
wrote = files (holds (checkpoint_of "vpn" view owning))

abbrev parked_kernel : Fake
parked_kernel = kernel (park_operation "park" "10.1.2.3/32" ∷ [])

owning-Own : All (Own "vpn" (pos 7)) (owners_of "vpn" owning.ownership)
unfolding owners_of lookup is_host_prefix
owning-Own = ((refl, refl, refl), tt)

unloaded : is_loaded (lookup "vpn" no_driver.loaded) ≡ false
unfolding lookup
unloaded = refl

restore-checkpoint_of_example :
    (d' : Driver) × (restore_ownership_checkpoint show_prefix parse_prefix
        (some fake)
        wrote
        roles
        "vpn"
        no_driver
        parked_kernel
      ≡ (none, d', parked_kernel))
    × (owners_of "vpn" d'.ownership ≡ owners_of "vpn" owning.ownership)
    × (listed (lookup "vpn" d'.baselines) ≡ listed (lookup "vpn" owning.baselines))
    × (d'.parks
        ≡ parks_left show_prefix parse_prefix fake wrote roles "vpn" view owning no_driver
            parked_kernel.state)
restore-checkpoint_of_example =
    restore-checkpoint_of show_prefix parse_prefix fake wrote roles "vpn" view owning no_driver
      parked_kernel parked_kernel.state vpn_named refl refl unloaded refl refl owning-Own

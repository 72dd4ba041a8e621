-- ===== src/Control/Parking.antt =====
-- toad/internal/control/selected_parking.go: parking the registered destinations, withdrawing their
-- routes, and the product's view of the parks. A record in Go shares its park with the registry, so a
-- record that was read before a park transition shows the park as it is after it: `live`.
use kikimora.Prelude.{
  String, Bool, true, false, not, ◌&&◌, ◌||◌, Option, none, some, List, [], ◌∷◌, if◌then◌else◌,
  ◌==◌, nat_eq, option_beq, ok, length,
}
use kikimora.Netip.{Prefix, prefix_eq}
use kikimora.Routing.Identity.{SelectedParkIdentity, route_identity_eq, park_identity_eq}
use kikimora.Routing.Record.{
  SelectedParkState, park_pending, park_applying, park_active, park_retiring, other_park_state,
  SelectedPark, SelectedRoute,
}
use kikimora.Routing.Machine.{is_retiring, is_park_active}
use kikimora.Routing.Registry.{reserve_park, mark_park_applying, mark_park_active}
use kikimora.Core.Model.{ParkingState}
use kikimora.Control.World.{
  failpoint, normalize_park, preflight_park, reconcile_park, observe_park, remove_selected,
  park_after_pending_checkpoint, park_after_preflight, park_after_applying_checkpoint,
  park_after_kernel_reconcile, park_after_mark_active, park_after_active_checkpoint, Env,
  no_exact_park, park_missing, not_frozen, no_writer, verified_other, Act, and_then, ◌>>=◌, ◌>>◌,
  done, fail, require, gets, role_state, registering, ask, registry_snapshot, registry_entry, save,
}
use kikimora.Control.Transactions.{reread, park_of, remove_and_clear_park}

-- The park is proven: Active, and owning exactly what it desires.
abbrev pub exact_park : Option SelectedPark → Bool
exact_park none = false
exact_park (some p) = is_park_active p.state && option_beq p.owned (some p.desired)

abbrev proven_state : SelectedParkState → Bool
proven_state park_active = true
proven_state park_retiring = true
proven_state _ = false

abbrev is_owned {ℓ} : {A : Type ℓ} → Option A → Bool
is_owned none = false
is_owned (some a) = true

abbrev pub reported : Option SelectedPark → Bool
reported none = false
reported (some p) = is_owned p.owned && proven_state p.state

-- The loop of parkingState: the reported prefixes, and whether every record is proven.
unfoldable pub reported_prefixes : List SelectedRoute → List Prefix
reported_prefixes [] = []
reported_prefixes (e ∷ es) =
    let rest = reported_prefixes es in if reported e.park then e.prefix ∷ rest else rest

unfoldable pub all_proven : List SelectedRoute → Bool
all_proven [] = true
all_proven (e ∷ es) = (is_retiring e.state || exact_park e.park) && all_proven es

unfoldable pub parking_state : List SelectedRoute → ParkingState
unfolding reported_prefixes all_proven
parking_state es =
    let prefixes = reported_prefixes es in
    record {
      active = not (length es == 0) && all_proven es && length prefixes == length es;
      count = length prefixes;
      prefixes = prefixes;
    }

module _ (env : Env) where
  abbrev pub live : SelectedRoute → Option SelectedPark → SelectedRoute
  live e p = record e { park = p }

  -- ReconcileManagedPark on the record with its live park.
  unfoldable pub reconcile_live : String → Prefix → SelectedRoute → Act SelectedParkIdentity
  reconcile_live role prefix e w =
      and_then (λ _ w'. (ok (env.park_verified (reconcile_park role prefix e) w.history), w'))
        (ask env (reconcile_park role prefix e) w)

  unfoldable pub settle_park :
      String → Prefix → SelectedParkIdentity → SelectedParkIdentity → Act (Unit {0})
  settle_park role prefix desired verified = do
    ask env (failpoint park_after_kernel_reconcile role prefix)
    require (verified == desired) verified_other
    registering (mark_park_active role prefix verified)
    ask env (failpoint park_after_mark_active role prefix)
    save env role
    ask env (failpoint park_after_active_checkpoint role prefix)

  unfoldable pub apply_park_transaction :
      String → Prefix → SelectedParkIdentity → SelectedRoute → Act (Unit {0})
  apply_park_transaction role prefix desired e = do
    registering (mark_park_applying role prefix)
    save env role
    ask env (failpoint park_after_applying_checkpoint role prefix)
    park ← gets λ w. park_of env (registry_entry env role prefix w)
    verified ← reconcile_live role prefix (live e park)
    settle_park role prefix desired verified

  unfoldable pub park_preflight :
      String → Prefix → SelectedParkIdentity → SelectedRoute → Bool → Act (Unit {0})
  park_preflight role prefix desired e true =
      ask env (preflight_park prefix desired e)
      >> ask env (failpoint park_after_preflight role prefix)
  park_preflight role prefix desired e false = done tt

  unfoldable pub run_park_transaction :
      String → Prefix → SelectedParkIdentity → Bool → Act (Unit {0})
  run_park_transaction role prefix desired preflight = do
    registering (reserve_park env.parse_addr role prefix desired false)
    save env role
    ask env (failpoint park_after_pending_checkpoint role prefix)
    e ← reread env role prefix
    park_preflight role prefix desired e preflight
    latest ← reread env role prefix
    apply_park_transaction role prefix desired latest

  -- Reserve again with the present identity, keeping the previous owner, and go on from Pending.
  unfoldable pub rereserve_park : String → Prefix → SelectedParkIdentity → Act (Unit {0})
  rereserve_park role prefix desired = do
    registering (reserve_park env.parse_addr role prefix desired true)
    save env role
    e ← reread env role prefix
    ask env (preflight_park prefix desired e)
    apply_park_transaction role prefix desired e

  -- ObserveManagedPark.
  unfoldable pub observe_present : Prefix → SelectedParkIdentity → Act Bool
  observe_present prefix owned w =
      and_then (λ _ w'. (ok (env.observed (observe_park prefix owned) w.history), w'))
        (ask env (observe_park prefix owned) w)

  -- The observation of what an Active park owns, if it still is the desired one.
  unfoldable pub still_there :
      Prefix → SelectedParkIdentity → SelectedPark → Option SelectedParkIdentity → Act Bool
  still_there prefix desired p none = done false
  still_there prefix desired p (some owned) =
      if p.desired == desired then observe_present prefix owned else done false

  unfoldable pub repark : Bool → String → Prefix → SelectedParkIdentity → Act (Unit {0})
  repark true role prefix desired = done tt
  repark false role prefix desired = rereserve_park role prefix desired

  unfoldable pub resume_pending :
      Bool → String → Prefix → SelectedParkIdentity → SelectedRoute → Act (Unit {0})
  resume_pending true role prefix desired e = do
    ask env (preflight_park prefix desired e)
    apply_park_transaction role prefix desired e
  resume_pending false role prefix desired e = rereserve_park role prefix desired

  -- The switch of parkOne on the state of the record's park.
  unfoldable pub park_in :
      SelectedParkState
      → String
      → Prefix
      → SelectedParkIdentity
      → SelectedPark
      → SelectedRoute
      → Act (Unit {0})
  park_in park_pending role prefix desired p e =
      resume_pending (p.desired == desired) role prefix desired e
  park_in park_applying role prefix desired p e = apply_park_transaction role prefix desired e
  park_in park_active role prefix desired p e =
      still_there prefix desired p p.owned >>= λ present. repark present role prefix desired
  park_in park_retiring role prefix desired p e = do
    remove_and_clear_park env role prefix (some p)
    run_park_transaction role prefix desired true
  park_in (other_park_state s) role prefix desired p e =
      run_park_transaction role prefix desired false

  unfoldable pub park_found :
      Option SelectedPark → String → Prefix → SelectedParkIdentity → SelectedRoute → Act (Unit {0})
  park_found none role prefix desired e = run_park_transaction role prefix desired true
  park_found (some p) role prefix desired e = park_in p.state role prefix desired p e

  unfoldable pub normalize_park_identity : Prefix → Act SelectedParkIdentity
  normalize_park_identity prefix w =
      and_then (λ _ w'. (ok (env.park_normalized (normalize_park prefix) w.history), w'))
        (ask env (normalize_park prefix) w)

  unfoldable pub park_one : String → SelectedRoute → Act (Unit {0})
  park_one role e =
      normalize_park_identity e.prefix >>= λ desired. park_found e.park role e.prefix desired e

  -- `if entry.State == routing.SelectedRetiring { continue }`
  unfoldable pub unless_retiring : SelectedRoute → Act (Unit {0}) → Act (Unit {0})
  unless_retiring e m = if is_retiring e.state then done tt else m

  unfoldable pub park_entries : String → List SelectedRoute → Act (Unit {0})
  park_entries role [] = done tt
  park_entries role (e ∷ es) = unless_retiring e (park_one role e) >> park_entries role es

  -- ParkRegistered: only while the role is frozen.
  unfoldable pub park_registered : String → Act (Unit {0})
  park_registered role = do
    s ← role_state role
    require s.frozen not_frozen
    require env.routes_resolved no_writer
    es ← gets (registry_snapshot env role)
    park_entries role es

  -- The park that a record owns is observed in the kernel.
  unfoldable pub observe_identity : Prefix → Option SelectedParkIdentity → Act (Unit {0})
  observe_identity prefix none = fail no_exact_park
  observe_identity prefix (some owned) =
      observe_present prefix owned >>= λ present. require present park_missing

  abbrev pub owned_of : Option SelectedPark → Option SelectedParkIdentity
  owned_of none = none
  owned_of (some p) = p.owned

  unfoldable pub observe_owned : Prefix → Option SelectedPark → Act (Unit {0})
  observe_owned prefix park = observe_identity prefix (owned_of park)

  -- The three passes of WithdrawSelected over the records that do not retire.
  unfoldable pub prove_parks : List SelectedRoute → Act (Unit {0})
  prove_parks [] = done tt
  prove_parks (e ∷ es) =
      unless_retiring e (require (exact_park e.park) no_exact_park >> observe_owned e.prefix e.park)
      >> prove_parks es

  unfoldable pub remove_routes : List SelectedRoute → Act (Unit {0})
  remove_routes [] = done tt
  remove_routes (e ∷ es) = unless_retiring e (ask env (remove_selected e)) >> remove_routes es

  unfoldable pub observe_parks : List SelectedRoute → Act (Unit {0})
  observe_parks [] = done tt
  observe_parks (e ∷ es) = unless_retiring e (observe_owned e.prefix e.park) >> observe_parks es

  unfoldable pub withdraw_selected : String → Act (Unit {0})
  withdraw_selected role = do
    s ← role_state role
    require s.frozen not_frozen
    require env.routes_resolved no_writer
    es ← gets (registry_snapshot env role)
    prove_parks es
    remove_routes es
    observe_parks es

-- ===== src/Control/Unpark.antt =====
-- toad/internal/control/selected_parking.go: ObserveRestoration and retireProvenPark, which take a park
-- away. The proof of the effective metric is a surface that a platform may lack; it is read only.
pub mod Calls
pub mod Proof
use kikimora.Prelude.{
  String, Bool, true, false, not, ◌&&◌, ◌||◌, Option, none, some, List, [], ◌∷◌, if◌then◌else◌,
  ◌==◌, option_beq, Result, ok, err, any, ltb,
}
use kikimora.Prelude.Map.{lookup}
use kikimora.Netip.{Prefix, prefix_eq}
use kikimora.Routing.Identity.{
  SelectedRouteIdentity, SelectedParkIdentity, route_identity_eq, park_identity_eq,
}
use kikimora.Routing.Record.{
  SelectedParkState, park_pending, park_applying, park_active, park_retiring, other_park_state,
  SelectedPark, SelectedRoute,
}
use kikimora.Routing.Machine.{is_active}
use kikimora.Routing.Registry.{mark_park_retiring, clear_park}
use kikimora.Routing.Plan.{SelectedKernelRow, is_foreign, is_park, row_matches_identity}
use kikimora.Control.World.{
  failpoint, snapshot_rows, remove_park, park_after_retiring_checkpoint, park_after_kernel_delete,
  History, Env, World, Failure, no_writer, still_parked, not_proven, not_winning, foreign_row,
  unexpected_park, park_still_present, selected_vanished, outside, Act, and_then, ◌>>=◌, ◌>>◌, done,
  fail, require, gets, role_state, registering, ask, registry_snapshot, registry_entry, save,
}
use kikimora.Control.Transactions.{park_of, remove_and_clear_park}
use kikimora.Control.Parking.{observe_present}

-- SelectedWinsOverPark, where the platform has it.
abbrev pub Prover : Type 0
Prover =
    Option (Prefix → SelectedRouteIdentity → SelectedParkIdentity → History → Result String Bool)

abbrev rows_at : Prefix → Option (List SelectedKernelRow) → List SelectedKernelRow
rows_at prefix none = []
rows_at prefix (some rows) = rows

-- The loop over the rows before the unpark: whether the selected row is present.
unfoldable pub present_before :
    SelectedRoute → SelectedParkIdentity → Bool → List SelectedKernelRow → Result Failure Bool
present_before e owned found [] = ok found
present_before e owned found (row ∷ rows) =
    let rest = present_before e owned (found || row_matches_identity row e.desired) rows in
    if is_foreign row.kind
    then err foreign_row
    else (if is_park row.kind && not (row.park == owned) then err unexpected_park else rest)

-- The loop over the rows after it.
unfoldable pub present_after :
    SelectedRoute → SelectedParkIdentity → Bool → List SelectedKernelRow → Result Failure Bool
present_after e owned found [] = ok found
present_after e owned found (row ∷ rows) =
    let rest = present_after e owned (found || row_matches_identity row e.desired) rows in
    if is_park row.kind && row.park == owned then err park_still_present else rest

abbrev outside_error : Result String Bool → Result Failure Bool
outside_error (ok b) = ok b
outside_error (err e) = err (outside e)

abbrev judged {ℓ} : {A : Type ℓ} → Result Failure A → Act A
judged r w = (r, w)

-- A park is a pointer into the registry: it is read again after a transition.
abbrev or_read : SelectedPark → Option SelectedPark → SelectedPark
or_read p none = p
or_read p (some q) = q

abbrev is_none {ℓ} : {A : Type ℓ} → Option A → Bool
is_none none = true
is_none (some x) = false

module _ (env : Env) (prover : Prover) where
  abbrev pub wins_at : SelectedRoute → SelectedParkIdentity → History → Result Failure Bool
  wins_at e owned h = elim prover [
    | none ↦ ok (ltb e.desired.metric owned.metric)
    | some prove ↦ outside_error (prove e.prefix e.desired owned h)
  ]

  abbrev pub listed_rows : Prefix → History → List SelectedKernelRow
  listed_rows prefix h = rows_at prefix (lookup prefix (env.rows snapshot_rows h))

  -- SnapshotSelectedRoutes, at one prefix.
  unfoldable pub snapshot_selected : Prefix → Act (List SelectedKernelRow)
  snapshot_selected prefix w =
      and_then (λ _ w'. (ok (listed_rows prefix w.history), w')) (ask env snapshot_rows w)

  unfoldable pub prove_restored : SelectedRoute → SelectedParkIdentity → Bool → Act (Unit {0})
  prove_restored e owned false = done tt
  prove_restored e owned true = do
    rows ← snapshot_selected e.prefix
    found ← judged (present_before e owned false rows)
    require found not_proven
    wins ← (λ w. (wins_at e owned w.history, w))
    require wins not_winning

  unfoldable pub unpark :
      String → SelectedRoute → SelectedPark → SelectedParkIdentity → Act (Unit {0})
  unpark role e p owned = do
    registering (mark_park_retiring role e.prefix)
    save env role
    ask env (failpoint park_after_retiring_checkpoint role e.prefix)
    live ← gets λ w. or_read p (park_of env (registry_entry env role e.prefix w))
    ask env (remove_park role e.prefix live)
    ask env (failpoint park_after_kernel_delete role e.prefix)
    after ← snapshot_selected e.prefix
    found ← judged (present_after e owned false after)
    require found selected_vanished
    registering (clear_park role e.prefix)
    save env role

  abbrev pub is_selected : SelectedRoute → Bool
  is_selected e = is_active e.state && option_beq e.owned (some e.desired)

  unfoldable pub retire_owned :
      String → SelectedRoute → SelectedPark → Option SelectedParkIdentity → Act (Unit {0})
  retire_owned role e p none = fail not_proven
  retire_owned role e p (some owned) = do
    require (owned == p.desired) not_proven
    present ← observe_present env e.prefix owned
    prove_restored e owned present
    unpark role e p owned

  unfoldable pub retire_proven_park : String → SelectedRoute → SelectedPark → Act (Unit {0})
  retire_proven_park role e p = do require (is_selected e) not_proven; retire_owned role e p p.owned

  -- A park that is not proven yet stays, and the loop goes on.
  abbrev unless_unproven : Result Failure (Unit {0}) × World → Result Failure (Unit {0}) × World
  unless_unproven (err not_proven, w) = (ok tt, w)
  unless_unproven r = r

  unfoldable pub observe_park_in :
      SelectedParkState → String → SelectedRoute → SelectedPark → Act (Unit {0})
  observe_park_in park_pending role e p = fail still_parked
  observe_park_in park_applying role e p = fail still_parked
  observe_park_in park_active role e p = λ w. unless_unproven (retire_proven_park role e p w)
  observe_park_in park_retiring role e p = remove_and_clear_park env role e.prefix (some p)
  observe_park_in (other_park_state s) role e p = done tt

  unfoldable pub observe_entries : String → List SelectedRoute → Act (Unit {0})
  observe_entries role [] = done tt
  observe_entries role (e ∷ es) = elim e.park [
    | none ↦ observe_entries role es
    | some p ↦ observe_park_in p.state role e p >> observe_entries role es
  ]

  unfoldable pub observe_selected_restoration : String → Act (Unit {0})
  observe_selected_restoration role = do
    require env.routes_resolved no_writer
    role_state role
    entries ← gets (registry_snapshot env role)
    observe_entries role entries
    left ← gets (registry_snapshot env role)
    require (not (any (λ e. not (is_none e.park)) left)) still_parked

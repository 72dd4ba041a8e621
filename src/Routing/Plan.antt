-- ===== src/Routing/Plan.antt =====
-- toad/internal/routing/selected_plan.go: the verdict on the kernel rows of one prefix.
pub mod Order
pub mod Lifecycle
use kikimora.Prelude.{
  ℕ, suc, ◌+◌, String, Bool, true, false, not, ◌&&◌, ◌||◌, Option, none, some, List, [], ◌∷◌,
  if◌then◌else◌, ltb, ◌==◌, nat_eq, Result, ok, err, ◌>>=◌, ◌>>◌, fail_if, length,
}
use kikimora.Routing.Identity.{
  SelectedRouteIdentity, SelectedParkIdentity, route_identity_eq, park_identity_eq,
}
use kikimora.Routing.Record.{
  SelectedRouteState, SelectedPark, SelectedRoute, retiring, park_pending, park_applying,
  park_active, park_retiring,
}
use kikimora.Routing.Machine.{is_applying, is_retiring}

pub data SelectedKernelRowKind : Type 0 where
  route_row park_row foreign_row : SelectedKernelRowKind
  other_row : String → SelectedKernelRowKind

pub record SelectedKernelRow : Type 0 where
  pub kind : SelectedKernelRowKind
  pub route : SelectedRouteIdentity
  pub park : SelectedParkIdentity
  pub description : String

pub data SelectedReconcileAction : Type 0 where
  action_none action_add action_replace : SelectedReconcileAction

pub data PlanError : Type 0 where
  no_record is_retired foreign_conflict unauthorized_park duplicate_desired unauthorized_row :
      PlanError

abbrev pub is_route : SelectedKernelRowKind → Bool
is_route route_row = true
is_route _ = false

abbrev pub is_park : SelectedKernelRowKind → Bool
is_park park_row = true
is_park _ = false

abbrev pub is_foreign : SelectedKernelRowKind → Bool
is_foreign foreign_row = true
is_foreign _ = false

unfoldable pub row_matches_identity : SelectedKernelRow → SelectedRouteIdentity → Bool
row_matches_identity row i = is_route row.kind && row.route == i

unfoldable pub park_matches_identity : SelectedKernelRow → SelectedParkIdentity → Bool
park_matches_identity row i = is_park row.kind && row.park == i

abbrev pub matches_owned_park : SelectedKernelRow → Option SelectedParkIdentity → Bool
matches_owned_park row none = false
matches_owned_park row (some i) = park_matches_identity row i

unfoldable pub park_row_authorized : SelectedKernelRow → Option SelectedPark → Bool
park_row_authorized row none = false
park_row_authorized row (some p) = elim p.state [
  | park_pending ↦ matches_owned_park row p.owned
  | park_applying ↦ park_matches_identity row p.desired || matches_owned_park row p.owned
  | park_active ↦ matches_owned_park row p.owned
  | park_retiring ↦
      matches_owned_park row p.owned || p.retire_desired && park_matches_identity row p.desired
  | _ ↦ false
]

abbrev pub matches_owned : SelectedKernelRow → Option SelectedRouteIdentity → Bool
matches_owned row none = false
matches_owned row (some i) = row_matches_identity row i

-- The classification loop, with the counts of Desired-exact and of previously Owned rows so far.
unfoldable pub count_rows :
    SelectedRoute → List SelectedKernelRow → ℕ → ℕ → Result PlanError (ℕ × ℕ)
count_rows e [] desired owned = ok (desired, owned)
count_rows e (row ∷ rows) desired owned =
    let next = count_rows e rows desired owned in
    let next_desired = count_rows e rows (desired + 1) owned in
    let next_owned = count_rows e rows desired (owned + 1) in
    if is_foreign row.kind
    then err foreign_conflict
    else if is_park row.kind
    then (if park_row_authorized row e.park then next else err unauthorized_park)
    else if row_matches_identity row e.desired
    then next_desired
    else if matches_owned row e.owned
    then next_owned
    else err foreign_conflict

abbrev pub is_none {ℓ} : {A : Type ℓ} → Option A → Bool
is_none none = true
is_none (some a) = false

abbrev pub verdict : ℕ → ℕ → SelectedReconcileAction
verdict desired owned =
    if desired == 1 && owned == 0
    then action_none
    else if desired == 0 && owned == 0
    then action_add
    else action_replace

unfoldable pub plan_selected_route :
    List SelectedKernelRow → Option SelectedRoute → Result PlanError SelectedReconcileAction
plan_selected_route rows none = if length rows == 0 then ok action_add else err no_record
plan_selected_route rows (some e) = do
  fail_if (is_retiring e.state) is_retired
  (desired, owned) ← count_rows e rows 0 0
  fail_if (ltb 1 desired) duplicate_desired
  fail_if (is_none e.owned && (owned == 0 && (ltb 0 desired && not (is_applying e.state))))
      unauthorized_row
  ok (verdict desired owned)

-- ===== src/Routing/Plan/Order.antt =====
-- The planner against a description that does not speak of the order of the rows.
use mathlib.Core.List.{Perm}
use mathlib.Core.Logic.{∥∥₁_elim}
use kikimora.Prelude.{
  ℕ, ◌+◌, ◌≡◌, sym, ◌∙◌, Bool, true, false, not, ◌&&◌, ◌||◌, Option, none, some, List, [], ◌∷◌, inl,
  inr, arith, if◌then◌else◌, ltb, ◌==◌, nat_eq, Result, ok, err, all, count, is_ok, Bool-cases,
  Result-cases,
}
use kikimora.Prelude.Perms.{all-perm, count-perm}
use kikimora.Routing.Record.{SelectedRoute}
use kikimora.Routing.Machine.{is_applying, is_retiring}
use kikimora.Routing.Plan.{
  SelectedKernelRow, SelectedReconcileAction, action_none, action_add, action_replace, PlanError,
  is_foreign, is_park, is_none, row_matches_identity, matches_owned, park_row_authorized,
  count_rows, plan_selected_route,
}

-- A row that the record accounts for.
abbrev pub accounted : SelectedRoute → SelectedKernelRow → Bool
accounted e row =
    not (is_foreign row.kind)
    && (if is_park row.kind
        then park_row_authorized row e.park
        else row_matches_identity row e.desired || matches_owned row e.owned)

abbrev pub is_desired : SelectedRoute → SelectedKernelRow → Bool
is_desired e row = row_matches_identity row e.desired

abbrev pub is_stale : SelectedRoute → SelectedKernelRow → Bool
is_stale e row = not (is_desired e row) && matches_owned row e.owned

-- The action, none where the plan is refused: a stale row is replaced, the desired row alone is kept,
-- and without either the desired row is added.
abbrev pub planned : SelectedRoute → List SelectedKernelRow → Option SelectedReconcileAction
planned e rows =
    let desired = count (is_desired e) rows in
    let stale = count (is_stale e) rows in
    let adopts = is_none e.owned && (stale == 0 && ltb 0 desired) in
    if is_retiring e.state
      || not (all (accounted e) rows)
      || ltb 1 desired
      || (adopts && not (is_applying e.state))
    then none
    else some
        (if ltb 0 stale then action_replace else if ltb 0 desired then action_none else action_add)

abbrev pub action_of : Result PlanError SelectedReconcileAction → Option SelectedReconcileAction
action_of (ok a) = some a
action_of (err x) = none

count_rows_lem :
    (e : SelectedRoute) (rows : List SelectedKernelRow) (d o : ℕ)
    → all (accounted e) rows ≡ true
    → count_rows e rows d o ≡ ok (d + count (is_desired e) rows, o + count (is_stale e) rows)
unfolding count_rows row_matches_identity
count_rows_lem e [] d o h = ground arith
count_rows_lem e (row ∷ rows) d o h = ground (
  arith,
  count_rows_lem e rows d o,
  count_rows_lem e rows (d + 1) o,
  count_rows_lem e rows d (o + 1),
)

count_rows_refused :
    (e : SelectedRoute) (rows : List SelectedKernelRow) (d o : ℕ)
    → all (accounted e) rows ≡ false
    → is_ok (count_rows e rows d o) ≡ false
unfolding count_rows
count_rows_refused e [] d o h = cc
count_rows_refused e (row ∷ rows) d o h = ground (
  arith,
  count_rows_refused e rows d o,
  count_rows_refused e rows (d + 1) o,
  count_rows_refused e rows d (o + 1),
)

-- The plan for a record succeeds exactly when the record does not retire, accounts for every row, at
-- most one row is the desired one, and a desired row is adopted without proof of ownership only while
-- applying. It then replaces where there is a stale owned row, does nothing where there is only the
-- desired row, and adds the route where there is neither.
pub plan_selected_route-eq :
    (rows : List SelectedKernelRow) (e : SelectedRoute)
    → action_of (plan_selected_route rows (some e)) ≡ planned e rows
unfolding plan_selected_route
plan_selected_route-eq rows e = elim (Bool-cases (all (accounted e) rows)) [
  | inl q ↦ rw (count_rows_lem e rows 0 0 q, plan_selected_route) (ground arith)
  | inr q ↦ elim (Result-cases (count_rows e rows 0 0)) [
    | inl (c, t) ↦ absurd (cc (count_rows_refused e rows 0 0 q))
    | inr (x, t) ↦ rw (t, q) (ground arith)
  ]
]

action-set : IsSet (Option SelectedReconcileAction)
action-set = hlevel

-- The order in which the kernel lists the rows changes no verdict, nor whether there is one.
pub plan_selected_route-perm :
    {rows rows' : List SelectedKernelRow} (e : SelectedRoute)
    → Perm rows rows'
    → action_of (plan_selected_route rows (some e)) ≡ action_of (plan_selected_route rows' (some e))
plan_selected_route-perm {rows} {rows'} e h = ∥∥₁_elim h (action-set _ _) λ p.
    plan_selected_route-eq rows e
    ∙ rw (all-perm (accounted e) p, count-perm (is_desired e) p, count-perm (is_stale e) p)
        (sym (plan_selected_route-eq rows' e))

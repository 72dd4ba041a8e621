-- ===== src/Routing/Plan/Lifecycle.antt =====
-- The verdicts along the life of one record, from its reservation to its retirement.
use kikimora.Prelude.{
  String, ◌≡◌, ◌≢◌, ◌∙◌, true, not, ◌&&◌, Option, none, some, List, [], ◌∷◌, arith, if◌then◌else◌,
  ltb, ◌==◌, nat_eq, ok, all, count, length, option_beq_iff,
}
use kikimora.Netip.{Addr, Prefix}
use kikimora.Routing.Identity.{SelectedRouteIdentity, route_identity_beq_iff, route_identity_eq}
use kikimora.Routing.Record.{SelectedRoute, active}
use kikimora.Routing.Machine.{Reservation, reserve_entry, mark_applying_entry, mark_active_entry}
use kikimora.Routing.Machine.Restorable.{IsRestorable}
use kikimora.Routing.Restore.{restorable}
use kikimora.Routing.Plan.{
  SelectedKernelRow, SelectedReconcileAction, action_none, action_add, action_replace,
  row_matches_identity, park_row_authorized, plan_selected_route,
}
use kikimora.Routing.Plan.Order.{
  accounted, is_desired, is_stale, planned, action_of, plan_selected_route-eq,
}

abbrev pub plan_of : List SelectedKernelRow → SelectedRoute → Option SelectedReconcileAction
plan_of rows e = action_of (plan_selected_route rows (some e))

count_stale_none :
    (e : SelectedRoute) (rows : List SelectedKernelRow)
    → e.owned ≡ none
    → count (is_stale e) rows ≡ 0
count_stale_none e [] h = ground arith
count_stale_none e (row ∷ rows) h = ground (arith, count_stale_none e rows h)

planned_new :
    (rows : List SelectedKernelRow) (role : String) (prefix : Prefix) (a : Reservation)
    → planned (reserve_entry role prefix a none) rows
      ≡ (if length rows == 0 then some action_add else none)
unfolding reserve_entry row_matches_identity park_row_authorized
planned_new [] role prefix a = ground arith
planned_new (row ∷ rows) role prefix a =
    ground (arith, count_stale_none (reserve_entry role prefix a none) rows)

-- A destination that was just reserved for the first time is added where the kernel has no row of its
-- prefix, and any row that is already there, also one equal to what is wanted, refuses the plan.
pub plan_selected_route-reserve_entry :
    (rows : List SelectedKernelRow) (role : String) (prefix : Prefix) (a : Reservation)
    → plan_of rows (reserve_entry role prefix a none)
      ≡ (if length rows == 0 then some action_add else none)
plan_selected_route-reserve_entry rows role prefix a =
    plan_selected_route-eq rows (reserve_entry role prefix a none) ∙ planned_new rows role prefix a

-- A reservation whose mutation was authorized and interrupted adopts the one row that is exactly its
-- desired identity.
pub plan_selected_route-mark_applying :
    (row : SelectedKernelRow) (role : String) (prefix : Prefix) (a : Reservation)
    {e : SelectedRoute}
    → mark_applying_entry (reserve_entry role prefix a none) ≡ ok e
    → row_matches_identity row a.desired ≡ true
    → plan_of (row ∷ []) e ≡ some action_none
unfolding reserve_entry mark_applying_entry row_matches_identity plan_selected_route
plan_selected_route-mark_applying row role prefix a {e} m h =
    plan_selected_route-eq (row ∷ []) e ∙ ground arith

-- Once the read-back of a row made the record active, the same row needs no further action.
pub plan_selected_route-mark_active :
    (row : SelectedKernelRow) (observed : SelectedRouteIdentity) (e : SelectedRoute)
    {e' : SelectedRoute}
    → mark_active_entry observed e ≡ ok e'
    → row_matches_identity row observed ≡ true
    → plan_of (row ∷ []) e' ≡ some action_none
unfolding mark_active_entry row_matches_identity
plan_selected_route-mark_active row observed e {e'} m h =
    plan_selected_route-eq (row ∷ []) e' ∙ ground (arith, route_identity_beq_iff observed e.desired)

-- When an active destination is reserved with a new identity, the row that it still owns is replaced.
pub plan_selected_route-reserve_moved :
    (row : SelectedKernelRow) (role : String) (prefix : Prefix) (a : Reservation)
    (e : SelectedRoute)
    → e.state ≡ active
    → e.owned ≡ some e.desired
    → e.desired ≢ a.desired
    → row_matches_identity row e.desired ≡ true
    → plan_of (row ∷ []) (reserve_entry role prefix a (some e)) ≡ some action_replace
unfolding reserve_entry row_matches_identity
plan_selected_route-reserve_moved row role prefix a e s o n h =
    plan_selected_route-eq (row ∷ []) (reserve_entry role prefix a (some e))
    ∙ ground (
      arith,
      route_identity_beq_iff row.route e.desired,
      route_identity_beq_iff row.route a.desired,
      route_identity_beq_iff e.desired a.desired,
    )

count_stale :
    (e : SelectedRoute) (rows : List SelectedKernelRow)
    → e.owned ≡ some e.desired
    → count (is_stale e) rows ≡ 0
count_stale e [] h = ground arith
count_stale e (row ∷ rows) h = ground (arith, count_stale e rows h)

active_owned :
    (parse_addr : String → Option Addr) (e : SelectedRoute)
    → IsRestorable parse_addr e
    → e.state ≡ active
    → e.owned ≡ some e.desired
unfolding restorable
active_owned parse_addr e h s = ground (arith, option_beq_iff e.owned (some e.desired))

-- For an active record that satisfies the registry's invariant the planner never replaces a row: if it
-- accounts for every row and at most one is the desired one, that row stays as it is, and where there
-- is none it is added; otherwise the plan is refused.
pub plan_selected_route_active :
    (parse_addr : String → Option Addr) (rows : List SelectedKernelRow) (e : SelectedRoute)
    → IsRestorable parse_addr e
    → e.state ≡ active
    → plan_of rows e ≡ (
        if all (accounted e) rows && not (ltb 1 (count (is_desired e) rows))
        then some (if count (is_desired e) rows == 0 then action_add else action_none)
        else none)
plan_selected_route_active parse_addr rows e h s =
    plan_selected_route-eq rows e
    ∙ ground (arith, active_owned parse_addr e h s, count_stale e rows)

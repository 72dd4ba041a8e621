-- ===== src/Core/Aggregate.antt =====
-- toad/internal/core/snapshot.go: snapshotLocked, the aggregate state of all roles. The loop is over a
-- map, in an order that Go does not fix.
pub mod Order
use kikimora.Prelude.{
  ℕ, suc, String, Bool, true, false, not, ◌&&◌, ◌||◌, List, [], ◌∷◌, if◌then◌else◌, ltb,
}
use kikimora.Netstate
use kikimora.Core.Model.{RoleState, RoleRuntime}
use kikimora.Core.Controller.{Controller}
use kikimora.Core.Observe.{is_ready, is_waiting, is_recovering}

abbrev pub is_stopped : RoleState → Bool
is_stopped RoleState.stopped = true
is_stopped _ = false

abbrev pub is_failed : RoleState → Bool
is_failed RoleState.failed = true
is_failed _ = false

pub data Aggregate : Type 0 where
  stopped connecting recovering ready waiting_for_underlay partially_ready failed : Aggregate

-- The loop's variables.
pub record Tally : Type 0 where
  pub state : Aggregate
  pub any_desired : Bool
  pub all_ready : Bool
  pub ready_count : ℕ
  pub waiting : Bool
  pub recovering : Bool
  pub failed : Bool

abbrev pub start : Tally
start = record {
  state = Aggregate.stopped;
  any_desired = false;
  all_ready = true;
  ready_count = 0;
  waiting = false;
  recovering = false;
  failed = false;
}

unfoldable pub tally_role : Tally → RoleRuntime → Tally
tally_role t r = record {
  state =
      if is_recovering r.state
      then Aggregate.recovering
      else if not (is_stopped r.state) && not (is_failed r.state)
      then Aggregate.connecting
      else t.state;
  any_desired = r.desired || t.any_desired;
  all_ready = not (r.desired && not (is_ready r.state)) && t.all_ready;
  ready_count = if r.desired && is_ready r.state then suc t.ready_count else t.ready_count;
  waiting = t.waiting || is_waiting r.state;
  recovering = t.recovering || is_recovering r.state;
  failed = t.failed || is_failed r.state;
}

unfoldable pub tally_from : Tally → List RoleRuntime → Tally
tally_from t [] = t
tally_from t (r ∷ rs) = tally_from (tally_role t r) rs

unfoldable pub conclude : Tally → Aggregate
conclude t =
    if t.any_desired && t.all_ready
    then Aggregate.ready
    else if t.recovering
    then Aggregate.recovering
    else if t.waiting
    then Aggregate.waiting_for_underlay
    else if ltb 0 t.ready_count
    then Aggregate.partially_ready
    else if t.failed
    then Aggregate.failed
    else t.state

-- The aggregate state where the loop meets the roles in this order.
unfoldable pub aggregate : List RoleRuntime → Aggregate
unfolding tally_from conclude
aggregate rs = conclude (tally_from start rs)

-- ===== src/Core/Events.antt =====
-- toad/internal/core/snapshot.go: apply and the loop of Run, an event at a time with the clock that it
-- reads.
pub mod Authority
use kikimora.Prelude.{
  ℕ, String, Bool, true, false, not, ◌&&◌, List, [], ◌∷◌, if◌then◌else◌, ◌==◌, nat_eq,
}
use kikimora.Prelude.Map.{update_all}
use kikimora.Core.Model.{
  validating, RoleRuntime, Event, underlay_invalidated, underlay_changed, resume_validation,
  route_state_changed, desired_role_changed, toad_state_changed, operation_completed, retry_due,
}
use kikimora.Core.Controller.{Controller, bump, set_role_desired, complete}
use kikimora.Core.Observe.{is_ready, set_underlay, observe_toad}

unfoldable pub resume_role : RoleRuntime → RoleRuntime
resume_role r =
    if r.desired && is_ready r.state
    then record r {
      validated_epoch = 0;
      state = validating;
      reason = "resume validation requested";
    }
    else r

unfoldable pub apply : ℕ → Event → Controller → Controller
unfolding bump resume_role
apply now (underlay_invalidated source) c = c
apply now (underlay_changed old new reason) c = set_underlay now new reason c
apply now resume_validation c = bump (record c { roles = update_all (λ _. resume_role) c.roles })
apply now route_state_changed c = c
apply now (desired_role_changed role enabled) c = (set_role_desired role enabled c).0
apply now (toad_state_changed role generation s) c = (observe_toad role s c).0
apply now (operation_completed role op epoch result) c = (complete role op epoch result c).0
apply now (retry_due role op) c = c

unfoldable pub run : List (ℕ × Event) → Controller → Controller
run [] c = c
run ((now, e) ∷ es) c = run es (apply now e c)

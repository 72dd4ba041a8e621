-- ===== src/Core/Reconciler.antt =====
-- toad/internal/core/reconciler.go: DecideRole, the least disruptive action for a role.
use kikimora.Prelude.{
  ◌≡◌, ◌≢◌, ◌↔◌, Bool, true, false, not, ◌&&◌, ◌||◌, arith, if◌then◌else◌, ◌==◌, nat_eq, string_eq,
}
use kikimora.Netstate
use kikimora.Toadctl.{Capabilities}
use kikimora.Core.Model.{RoleState, stopped, failed, validating, ready, recovering, RoleRuntime}
use kikimora.Core.Controller.{underlay_available}
use kikimora.Core.Observe.{is_ready, is_recovering}
use kikimora.Core.Aggregate.{is_stopped, is_failed}

pub data RecoveryAction : Type 0 where
  stop wait_for_underlay validate rebind restart_transport restart_toad action_none : RecoveryAction

abbrev is_validating : RoleState → Bool
is_validating validating = true
is_validating _ = false

-- Prefer a transport restart that keeps the TUN.
abbrev restart : Capabilities → RecoveryAction
restart caps = if caps.restart_transport_keeping_tun then restart_transport else restart_toad

unfoldable pub decide_role : RoleRuntime → Netstate.Snapshot → Capabilities → RecoveryAction
decide_role r underlay caps =
    if not r.desired
    then stop
    else if not (underlay_available underlay)
    then wait_for_underlay
    else if is_stopped r.state || is_failed r.state
    then restart_toad
    else if is_validating r.state
    then validate
    else if is_recovering r.state && (not (r.toad_generation == 0) && not r.toad.route_ready)
    then restart caps
    else if not (r.toad_generation == 0) && (r.toad.route_ready && r.toad.state == "reconnecting")
    then restart caps
    else if not (r.validated_epoch == underlay.epoch)
    then (if caps.rebind then rebind else restart caps)
    else if is_ready r.state
    then action_none
    else validate

-- Nothing is done for a role exactly when it is desired and Ready, the underlay is there and is the one
-- it was validated for, and its Toad does not report a stale session.
pub decide_role-action_none_iff :
    (r : RoleRuntime) (underlay : Netstate.Snapshot) (caps : Capabilities)
    → (decide_role r underlay caps ≡ action_none) ↔ (
        (r.desired ≡ true)
        × (underlay_available underlay ≡ true)
        × (r.state ≡ ready)
        × (r.validated_epoch ≡ underlay.epoch)
        × ((not (r.toad_generation == 0) && (r.toad.route_ready && r.toad.state == "reconnecting"))
            ≡ false))
unfolding decide_role
decide_role-action_none_iff r underlay caps = ground arith

-- A Toad is rebound only if it can be, it is neither stopped, failed nor under validation, the epoch it
-- was validated for has passed, and its route target is there if it recovers.
pub decide_role-rebind :
    (r : RoleRuntime) (underlay : Netstate.Snapshot) (caps : Capabilities)
    → decide_role r underlay caps ≡ rebind
    → (caps.rebind ≡ true)
      × (r.validated_epoch ≢ underlay.epoch)
      × (r.state ≢ stopped)
      × (r.state ≢ failed)
      × (r.state ≢ validating)
      × (r.state ≡ recovering → r.toad_generation ≢ 0 → r.toad.route_ready ≡ true)
unfolding decide_role
decide_role-rebind r underlay caps h = ground arith

-- ===== src/Core/Observe.antt =====
-- toad/internal/core/snapshot.go: SetUnderlay and ObserveToad, the two ingresses of observations.
use kikimora.Prelude.{
  ℕ, String, Bool, true, false, not, ◌&&◌, ◌||◌, none, some, if◌then◌else◌, ◌==◌, nat_eq, string_eq,
  ltb,
}
use kikimora.Prelude.Map.{lookup, update_all}
use kikimora.Netstate
use kikimora.Netstate.{identity_equal, compare_snapshots}
use kikimora.Toadctl
use kikimora.Toadctl.{deep_equal}
use kikimora.Core.Model.{
  RoleState, stopped, waiting_for_underlay, validating, ready, recovering, failed, RoleRuntime,
}
use kikimora.Core.Controller.{Controller, underlay_available, bump, commit}

-- What SetUnderlay makes of the observation.
pub data Accepted : Type 0 where
  ignored : Accepted
  same_identity : Accepted
  accepted : Netstate.Snapshot → String → Accepted

unfoldable pub accept_underlay : Netstate.Snapshot → Netstate.Snapshot → String → Accepted
accept_underlay current next reason =
    if next.epoch == 0
    then (let (merged, computed, changed) = compare_snapshots current next in
        if changed then accepted merged (if reason == "" then computed else reason) else ignored)
    else if ltb next.epoch current.epoch
    then ignored
    else if next.epoch == current.epoch
    then (if identity_equal current next then same_identity else ignored)
    else accepted next reason

abbrev pub is_ready : RoleState → Bool
is_ready ready = true
is_ready _ = false

abbrev pub is_waiting : RoleState → Bool
is_waiting waiting_for_underlay = true
is_waiting _ = false

abbrev pub is_recovering : RoleState → Bool
is_recovering recovering = true
is_recovering _ = false

-- What the new underlay does to one role; `initial` says that there was no epoch before.
unfoldable pub meet_underlay : Bool → Netstate.Snapshot → String → RoleRuntime → RoleRuntime
meet_underlay initial next reason r =
    if not r.desired
    then r
    else if not (underlay_available next)
    then record r {
      validated_epoch = 0;
      state = waiting_for_underlay;
      reason = "physical underlay unavailable";
    }
    else if not initial
        && ((is_ready r.state || is_waiting r.state) && not (r.validated_epoch == next.epoch))
    then record r { state = recovering; validated_epoch = 0; reason = reason }
    else r

-- `now` is the clock that bumpReason reads.
unfoldable pub take_underlay : ℕ → Netstate.Snapshot → Accepted → Controller → Controller
unfolding bump
take_underlay now next ignored c = c
take_underlay now next same_identity c = record c {
  underlay = record c.underlay { observed_at = next.observed_at };
}
take_underlay now next (accepted next' reason) c = bump (record c {
  underlay = next';
  roles = update_all (λ _. meet_underlay (c.underlay.epoch == 0) next' reason) c.roles;
  last_reason = reason;
  last_change_at = now;
})

unfoldable pub set_underlay : ℕ → Netstate.Snapshot → String → Controller → Controller
unfolding take_underlay
set_underlay now next reason c = take_underlay now next (accept_underlay c.underlay next reason) c

-- The cases of the two switches on the Toad's state: "recovering", "quiesced" and "reconnecting" have
-- the same effect, and so have "ready" and "online".
pub data ToadPhase : Type 0 where
  toad_failed toad_stopped toad_unsettled toad_up toad_other : ToadPhase

unfoldable pub phase_of : String → ToadPhase
phase_of s =
    if s == "failed"
    then toad_failed
    else if s == "stopped"
    then toad_stopped
    else if s == "recovering" || (s == "quiesced" || s == "reconnecting")
    then toad_unsettled
    else if s == "ready" || s == "online"
    then toad_up
    else toad_other

unfoldable pub observe_unready : ToadPhase → String → RoleRuntime → RoleRuntime
observe_unready phase why r =
    let r0 : RoleRuntime = record r { validated_epoch = 0 } in
    if not r.desired then r0 else elim phase [
      | toad_failed ↦ record r0 { state = failed; last_error = why }
      | toad_stopped ↦ record r0 { state = stopped }
      | _ ↦
          if is_recovering r.state
          then r0
          else record r0 { state = validating; reason = "managed route target requires validation" }
    ]

unfoldable pub observe_ready : ℕ → ToadPhase → String → RoleRuntime → RoleRuntime
observe_ready epoch phase why r = elim phase [
  | toad_failed ↦ record r { state = failed; validated_epoch = 0; last_error = why }
  | toad_stopped ↦ record r { state = stopped; validated_epoch = 0 }
  | toad_unsettled ↦ record r { state = recovering; validated_epoch = 0 }
  | toad_up ↦
      if r.desired && (not (r.validated_epoch == epoch) && not (is_recovering r.state))
      then record r {
        state = validating;
        reason = "managed route target ready; validation required";
      }
      else r
  | toad_other ↦ r
]

abbrev pub default_reason : String → RoleRuntime → RoleRuntime
default_reason reason r = if r.reason == "" then record r { reason = reason } else r

unfoldable pub observed_role : ℕ → Toadctl.Snapshot → RoleRuntime → RoleRuntime
observed_role epoch s r =
    let r1 : RoleRuntime = record r { toad_generation = s.generation; toad = s } in
    default_reason s.reason (
      if s.route_ready
      then observe_ready epoch (phase_of s.state) s.reason r1
      else observe_unready (phase_of s.state) s.reason r1)

unfoldable pub observe_toad : String → Toadctl.Snapshot → Controller → Controller × Bool
observe_toad role s c = elim (lookup role c.roles) [
  | none ↦ (c, false)
  | some r ↦
      if not (r.toad_generation == 0) && not (r.toad_generation == s.generation)
      then (c, false)
      else if r.toad_generation == s.generation && deep_equal r.toad s
      then (c, true)
      else (commit role (observed_role c.underlay.epoch s r) c, true)
]

-- ===== src/Core/Controller.antt =====
-- toad/internal/core/controller.go and snapshot.go: the controller's state and its methods on one role.
-- A method returns the new state and its result; the mutex makes each one step. `revision` stands for
-- the `changed` channel too, which is closed and replaced exactly where the revision grows.
pub mod Cases
use kikimora.Prelude.{
  ℕ, suc, String, Bool, true, false, not, ◌&&◌, ◌||◌, Option, none, some, List, [], ◌∷◌,
  if◌then◌else◌, ◌==◌, nat_eq, string_eq, bool_eq, u64_suc,
}
use kikimora.Prelude.Map.{lookup, insert}
use kikimora.Netip.{no_addr}
use kikimora.Netstate
use kikimora.Netstate.{has_path}
use kikimora.Toadctl.{ValidationResult, no_snapshot, no_validation}
use kikimora.Core.Model.{
  RoleState, stopped, starting, validating, ready, recovering, failed, RecoveryState, RoleSpec,
  ValidationToken, EndpointState, PublicationState, ParkingState, RoleRuntime, OperationResult,
  new_role,
}

pub record Controller : Type 0 where
  pub roles : List (String × RoleRuntime)
  pub specs : List (String × RoleSpec)
  pub underlay : Netstate.Snapshot
  pub revision : ℕ  -- uint64
  pub active_profile : String
  pub last_reason : String
  pub last_change_at : ℕ

abbrev pub no_underlay : Netstate.Snapshot
no_underlay = record {
  epoch = 0;
  ipv4 = none;
  ipv6 = none;
  metadata = record { connection_id = ""; bssid = "" };
  observed_at = 0;
}

add_specs : List RoleSpec → Controller → Controller
add_specs [] c = c
add_specs (s ∷ rest) c =
    add_specs rest
      (record c { roles = insert s.id new_role c.roles; specs = insert s.id s c.specs })

unfoldable pub new_controller : List RoleSpec → Controller
unfolding add_specs
new_controller specs = add_specs specs (record {
  roles = [];
  specs = [];
  underlay = no_underlay;
  revision = 1;
  active_profile = "default";
  last_reason = "";
  last_change_at = 0;
})

unfoldable pub bump : Controller → Controller
bump c = record c { revision = u64_suc c.revision }

-- Each of these methods reads a role, writes it back and bumps, or changes nothing.
unfoldable pub commit : String → RoleRuntime → Controller → Controller
unfolding bump
commit role r c = bump (record c { roles = insert role r c.roles })

unfoldable pub on_role :
    String → (RoleRuntime → Option RoleRuntime) → Controller → Controller × Bool
on_role role f c = elim (lookup role c.roles) [
  | none ↦ (c, false)
  | some r ↦ elim (f r) [ none ↦ (c, false) | some r' ↦ (commit role r' c, true) ]
]

unfoldable pub role_of : String → Controller → Option RoleRuntime
role_of role c = lookup role c.roles

abbrev pub underlay_available : Netstate.Snapshot → Bool
underlay_available u = has_path u.ipv4 || has_path u.ipv6

unfoldable pub desire : Bool → RoleRuntime → RoleRuntime
desire true r = record r {
  desired = true;
  operation = u64_suc r.operation;
  state = starting;
  reason = "desired state enabled";
}
desire false r = record r {
  desired = false;
  operation = u64_suc r.operation;
  state = stopped;
  reason = "desired state disabled";
}

-- false is the error for an unknown role; a role that is as desired already is left alone.
unfoldable pub set_role_desired : String → Bool → Controller → Controller × Bool
set_role_desired role enabled c = elim (lookup role c.roles) [
  | none ↦ (c, false)
  | some r ↦ if r.desired == enabled then (c, true) else (commit role (desire enabled r) c, true)
]

unfoldable pub set_recovery :
    String → RecoveryState → RoleState → String → Controller → Controller × Bool
unfolding on_role
set_recovery role recovery state reason = on_role role λ r. some (record r {
  recovery = record recovery { next_retry_at = r.recovery.next_retry_at };
  state = state;
  reason = reason;
})

-- The zero time clears the schedule.
unfoldable pub set_retry_schedule : String → ℕ → Controller → Controller × Bool
unfolding on_role
set_retry_schedule role next = on_role role λ r. some (record r {
  recovery = record r.recovery { next_retry_at = if next == 0 then none else some next };
})

unfoldable pub may_validate : Netstate.Snapshot → RoleRuntime → Bool
may_validate underlay r =
    r.desired
    && (not (r.toad_generation == 0)
        && (r.toad.route_ready && (not (underlay.epoch == 0) && underlay_available underlay)))

unfoldable pub begin_validation : String → Controller → Controller × Option ValidationToken
begin_validation role c = elim (lookup role c.roles) [
  | none ↦ (c, none)
  | some r ↦
      if may_validate c.underlay r
      then (
        commit role (record r { state = validating; reason = "validation requested" }) c,
        some (record {
          role = role;
          operation = r.operation;
          toad_generation = r.toad_generation;
          underlay_epoch = c.underlay.epoch;
        }),
      )
      else (c, none)
]

-- The result is bound to the same operation, generation and epoch as the token.
unfoldable pub token_is_current : ValidationToken → ℕ → RoleRuntime → Bool
token_is_current token epoch r =
    r.desired
    && (r.toad.route_ready
        && (r.operation == token.operation
            && (r.toad_generation == token.toad_generation && epoch == token.underlay_epoch)))

abbrev or_reason : String → String → String
or_reason reason default = if reason == "" then default else reason

unfoldable pub validated_role : ValidationToken → ValidationResult → RoleRuntime → RoleRuntime
validated_role token result r =
    if result.healthy
    then record r {
      validation = result;
      state = ready;
      validated_epoch = token.underlay_epoch;
      last_error = "";
      reason = or_reason result.reason "validation complete";
    }
    else record r {
      validation = result;
      state = failed;
      validated_epoch = 0;
      last_error = or_reason result.reason "validation failed";
      reason = or_reason result.reason "validation failed";
    }

unfoldable pub complete_validation :
    ValidationToken → ValidationResult → Controller → Controller × Bool
unfolding on_role token_is_current validated_role
complete_validation token result c =
    on_role token.role
      (λ r.
        if token_is_current token c.underlay.epoch r
        then some (validated_role token result r)
        else none)
      c

unfoldable pub complete_validation_pending :
    ValidationToken → ValidationResult → Controller → Controller × Bool
unfolding on_role token_is_current
complete_validation_pending token result c =
    on_role token.role
      (λ r.
        if token_is_current token c.underlay.epoch r
        then some (record r {
          validation = result;
          state = recovering;
          validated_epoch = 0;
          last_error = or_reason result.reason "validation temporarily unhealthy";
          reason = or_reason result.reason "validation temporarily unhealthy";
        })
        else none)
      c

unfoldable pub request_role_validation : String → String → Controller → Controller × Bool
unfolding on_role
request_role_validation role reason = on_role role λ r.
    if r.desired && (not (r.toad_generation == 0) && r.toad.route_ready)
    then some (record r {
      validated_epoch = 0;
      state = validating;
      reason = or_reason reason "validation requested";
    })
    else none

unfoldable pub mark_recovering : String → String → Controller → Controller × Bool
unfolding on_role
mark_recovering role reason = on_role role λ r.
    if r.desired
    then some (record r { state = recovering; validated_epoch = 0; reason = reason })
    else none

unfoldable pub begin_toad_generation : String → Controller → Controller × Bool
unfolding on_role
begin_toad_generation role = on_role role λ r. some (record r {
  toad_generation = 0;
  toad = no_snapshot;
  validated_epoch = 0;
  validation = no_validation;
  state = if r.desired then starting else r.state;
})

unfoldable pub set_role_diagnostic : String → String → Controller → Controller × Bool
unfolding on_role
set_role_diagnostic role reason = on_role role λ r. some (record r { last_error = reason })

unfoldable pub update_role_resources :
    String
    → EndpointState
    → PublicationState
    → ParkingState
    → ValidationResult
    → Controller
    → Controller × Bool
unfolding on_role
update_role_resources role endpoint publication parking validation = on_role role λ r.
    some (record r {
      endpoint = endpoint;
      publication = publication;
      parking = parking;
      validation = validation;
      last_error =
          if not (validation.state == "") || (not (validation.reason == "") || validation.healthy)
          then (if not validation.healthy && not (validation.reason == "")
              then validation.reason
              else "")
          else r.last_error;
    })

unfoldable pub completed_role : ℕ → ℕ → ℕ → OperationResult → RoleRuntime → Option RoleRuntime
completed_role op epoch current result r =
    if not (r.operation == op) || not (current == epoch) then none else elim result.err [
      | some e ↦ some (record r { state = failed; last_error = e; reason = result.reason })
      | none ↦ some (record r {
        state = ready;
        validated_epoch = epoch;
        last_error = "";
        reason = result.reason;
      })
    ]

unfoldable pub complete : String → ℕ → ℕ → OperationResult → Controller → Controller × Bool
complete role op epoch result c = on_role role (completed_role op epoch c.underlay.epoch result) c

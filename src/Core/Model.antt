-- ===== src/Core/Model.antt =====
-- toad/internal/core/model.go, events.go and recovery.go: the state of a role and the controller's
-- events. Times are nanoseconds; a pointer to a time is an Option.
use kikimora.Prelude.{ℕ, String, Bool, false, Option, none, List, []}
use kikimora.Netip.{Prefix}
use kikimora.Toadctl
use kikimora.Toadctl.{
  AddrPort, RouteFamilies, ValidationResult, no_families, no_validation, no_snapshot,
}
use kikimora.Netstate

pub data RoleState : Type 0 where
  stopped waiting_for_underlay preparing_endpoint starting validating : RoleState
  ready recovering stopping failed : RoleState

pub data RecoveryStep : Type 0 where
  no_step observe_routes park withdraw_selected withdraw quiesce apply_endpoint rebind :
      RecoveryStep
  start_transport validate publish resync_leshy observe_restoration : RecoveryStep
  freeze_selected restore_selected unfreeze_selected : RecoveryStep

pub record RecoveryState : Type 0 where
  pub step : RecoveryStep
  pub operation : ℕ  -- uint64
  pub epoch : ℕ  -- uint64
  pub attempt : ℕ  -- int, as its bit pattern
  pub last_error : String
  pub next_retry_at : Option ℕ

pub record RoleSpec : Type 0 where
  pub id : String
  pub protocol : String
  pub interface : String
  pub leshy_zone : String

pub record ValidationToken : Type 0 where
  pub role : String
  pub operation : ℕ
  pub toad_generation : ℕ
  pub underlay_epoch : ℕ

-- toad/internal/endpoint/state.go
pub record EndpointState : Type 0 where
  pub state : String
  pub applied_underlay_epoch : ℕ
  pub configured : List String
  pub resolved : List AddrPort
  pub live : List AddrPort
  pub last_error : String

-- toad/internal/leshy/publication.go
pub record PublicationState : Type 0 where
  pub published : Bool
  pub zone : String
  pub interface : String
  pub generation : ℕ
  pub families : RouteFamilies

-- toad/internal/parking/manager.go: State
pub record ParkingState : Type 0 where
  pub active : Bool
  pub count : ℕ
  pub prefixes : List Prefix

pub record RoleRuntime : Type 0 where
  pub desired : Bool
  pub state : RoleState
  pub reason : String
  pub operation : ℕ  -- uint64
  pub toad_generation : ℕ  -- uint64
  pub validated_epoch : ℕ  -- uint64
  pub toad : Toadctl.Snapshot
  pub endpoint : EndpointState
  pub publication : PublicationState
  pub parking : ParkingState
  pub recovery : RecoveryState
  pub validation : ValidationResult
  pub last_error : String

-- An error of an operation, by its message.
pub record OperationResult : Type 0 where
  pub err : Option String
  pub reason : String

pub data Event : Type 0 where
  underlay_invalidated : String → Event
  underlay_changed : Netstate.Snapshot → Netstate.Snapshot → String → Event
  resume_validation route_state_changed : Event
  desired_role_changed : String → Bool → Event
  toad_state_changed : String → ℕ → Toadctl.Snapshot → Event
  operation_completed : String → ℕ → ℕ → OperationResult → Event
  retry_due : String → ℕ → Event

-- The zero values.
abbrev pub no_endpoint : EndpointState
no_endpoint = record {
  state = "";
  applied_underlay_epoch = 0;
  configured = [];
  resolved = [];
  live = [];
  last_error = "";
}

abbrev pub no_publication : PublicationState
no_publication = record {
  published = false;
  zone = "";
  interface = "";
  generation = 0;
  families = no_families;
}

abbrev pub no_parking : ParkingState
no_parking = record { active = false; count = 0; prefixes = [] }

abbrev pub no_recovery : RecoveryState
no_recovery = record {
  step = no_step;
  operation = 0;
  epoch = 0;
  attempt = 0;
  last_error = "";
  next_retry_at = none;
}

-- RoleRuntime{State: RoleStopped}
abbrev pub new_role : RoleRuntime
new_role = record {
  desired = false;
  state = stopped;
  reason = "";
  operation = 0;
  toad_generation = 0;
  validated_epoch = 0;
  toad = no_snapshot;
  endpoint = no_endpoint;
  publication = no_publication;
  parking = no_parking;
  recovery = no_recovery;
  validation = no_validation;
  last_error = "";
}

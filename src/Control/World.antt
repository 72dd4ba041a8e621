-- ===== src/Control/World.antt =====
-- toad/internal/control/selected_routes.go: the state of SelectedRouteManager and what it asks of the
-- outside. Every call of the platform's RouteManager, of the checkpoint file and of the failpoint is a
-- `Request`; the history keeps the requests with whether they succeeded, newest first, and the `Env`
-- answers a request by all that was asked before. A mutex makes each call one step.
use kikimora.Prelude.{
  ℕ, String, Bool, true, false, Option, none, some, List, [], ◌∷◌, if◌then◌else◌, ◌==◌, string_eq,
  ℤ, Result, ok, err,
}
use kikimora.Prelude.Map.{lookup, insert}
use kikimora.Netip.{Addr, Prefix, prefix_eq}
use kikimora.Routing.Identity.{SelectedRouteIdentity, SelectedParkIdentity}
use kikimora.Routing.Record.{SelectedPark, SelectedRoute}
use kikimora.Routing.Machine.{RegistryError}
use kikimora.Routing.Registry.{Registry}
use kikimora.Routing.Snapshot.{snapshot}
use kikimora.Routing.Plan.{SelectedKernelRow}

-- The boundaries at which a failpoint may interrupt a transaction.
pub data Point : Type 0 where
  route_after_pending_checkpoint route_after_preflight route_after_applying_checkpoint : Point
  route_after_kernel_reconcile route_after_mark_active route_after_active_checkpoint : Point
  park_after_pending_checkpoint park_after_preflight park_after_applying_checkpoint : Point
  park_after_kernel_reconcile park_after_mark_active park_after_active_checkpoint : Point
  park_after_retiring_checkpoint park_after_kernel_delete : Point

pub data Request : Type 0 where
  checkpoint : String → ℕ → List SelectedRoute → Request
  failpoint : Point → String → Prefix → Request
  normalize_selected : String → Prefix → ℤ → Request
  preflight_selected : Prefix → SelectedRouteIdentity → SelectedRoute → Request
  reconcile_selected : String → Prefix → ℤ → SelectedRoute → Request
  remove_selected : SelectedRoute → Request
  normalize_park : Prefix → Request
  preflight_park : Prefix → SelectedParkIdentity → SelectedRoute → Request
  reconcile_park : String → Prefix → SelectedRoute → Request
  observe_park : Prefix → SelectedParkIdentity → Request
  remove_park : String → Prefix → SelectedPark → Request
  snapshot_rows : Request

abbrev pub History : Type 0
History = List (Request × Bool)

pub record Reconciled : Type 0 where
  pub verified : SelectedRouteIdentity
  pub mutated : Bool

pub record Env : Type 0 where
  pub routes_resolved : Bool  -- the platform has a writer of selected routes and parks
  pub parse_addr : String → Option Addr
  pub show_prefix : Prefix → String
  pub state_dir : String → Option String
  pub foreign_row_error : String → Bool
  pub refuses : Request → History → Option String
  pub reconciled : Request → History → Reconciled
  pub park_verified : Request → History → SelectedParkIdentity
  pub normalized : Request → History → SelectedRouteIdentity
  pub park_normalized : Request → History → SelectedParkIdentity
  pub observed : Request → History → Bool
  pub rows : Request → History → List (Prefix × List SelectedKernelRow)

pub record Verification : Type 0 where
  pub toad_generation : ℕ  -- uint64
  pub route_generation : ℕ  -- uint64
  pub identity : SelectedRouteIdentity

-- The counters and the in-flight signal of a role's state are left out.
pub record RoleFlags : Type 0 where
  pub frozen : Bool
  pub route_generation : ℕ  -- uint64
  pub restore_pending : Bool
  pub integrity_quarantined : Bool
  pub verification : List (Prefix × Verification)

pub record World : Type 0 where
  pub registry : Registry
  pub roles : List (String × RoleFlags)
  pub history : History

-- Why an intent is denied.
pub data Denial : Type 0 where
  unknown_zone bad_prefix initializing frozen_role unconfigured undesired : Denial
  no_managed_interface over_capacity unwritable : Denial
  unhealthy : String → Denial
  family_not_ready : ℕ → String → Denial

pub data Failure : Type 0 where
  denied : Denial → Failure
  no_writer not_registered owned_by_retirement unknown_state not_applying verified_other : Failure
  not_frozen no_exact_park park_missing still_parked not_proven not_winning foreign_row : Failure
  unexpected_park park_still_present selected_vanished no_interface not_configured : Failure
  not_quarantined conflict_remains : Failure
  conflict : String → Prefix → Failure
  refused : RegistryError → Failure
  outside : String → Failure

-- A method: the result, and the state after it, which stays written after an error too.
abbrev pub Act {ℓ} : Type ℓ → Type ℓ
Act A = World → Result Failure A × World

infixl 5 ◌>>=◌ ◌>>◌
unfoldable pub and_then {ℓ κ} :
    {A : Type ℓ} {B : Type κ} → (A → Act B) → Result Failure A × World → Result Failure B × World
and_then f (ok a, w) = f a w
and_then f (err e, w) = (err e, w)

abbrev pub ◌>>=◌ {ℓ κ} : {A : Type ℓ} {B : Type κ} → Act A → (A → Act B) → Act B
◌>>=◌ m f w = and_then f (m w)

abbrev pub ◌>>◌ {ℓ κ} : {A : Type ℓ} {B : Type κ} → Act A → Act B → Act B
m >> k = m >>= λ _. k

abbrev pub done {ℓ} : {A : Type ℓ} → A → Act A
done a w = (ok a, w)

abbrev pub fail {ℓ} : {A : Type ℓ} → Failure → Act A
fail e w = (err e, w)

abbrev pub require : Bool → Failure → Act (Unit {0})
require true e = done tt
require false e = fail e

abbrev pub gets {ℓ} : {A : Type ℓ} → (World → A) → Act A
gets f w = (ok (f w), w)

-- `roleState` makes the state of a role that has none.
abbrev pub fresh_role : RoleFlags
fresh_role = record {
  frozen = false;
  route_generation = 1;
  restore_pending = false;
  integrity_quarantined = false;
  verification = [];
}

abbrev pub flags_or_fresh : Option RoleFlags → RoleFlags
flags_or_fresh none = fresh_role
flags_or_fresh (some s) = s

unfoldable pub role_state : String → Act RoleFlags
role_state role w =
    let s : RoleFlags = flags_or_fresh (lookup role w.roles) in
    (ok s, record w { roles = insert role s w.roles })

unfoldable pub set_role_state : String → RoleFlags → Act (Unit {0})
set_role_state role s w = (ok tt, record w { roles = insert role s w.roles })

-- A method of the registry.
unfoldable pub registered : Result RegistryError Registry → Act (Unit {0})
registered (ok r) w = (ok tt, record w { registry = r })
registered (err e) w = (err (refused e), w)

unfoldable pub registering : (Registry → Result RegistryError Registry) → Act (Unit {0})
registering f w = registered (f w.registry) w

-- The first entry of a snapshot with this prefix.
unfoldable pub find_prefix : Prefix → List SelectedRoute → Option SelectedRoute
find_prefix prefix [] = none
find_prefix prefix (e ∷ es) = if e.prefix == prefix then some e else find_prefix prefix es

module _ (env : Env) where
  unfoldable pub answered : Request → Option String → Act (Unit {0})
  answered q none w = (ok tt, record w { history = (q, true) ∷ w.history })
  answered q (some e) w = (err (outside e), record w { history = (q, false) ∷ w.history })

  -- One call of the outside.
  unfoldable pub ask : Request → Act (Unit {0})
  ask q w = answered q (env.refuses q w.history) w

  unfoldable pub registry_snapshot : String → World → List SelectedRoute
  registry_snapshot role w = snapshot env.show_prefix role w.registry

  unfoldable pub registry_entry : String → Prefix → World → Option SelectedRoute
  registry_entry role prefix w = find_prefix prefix (registry_snapshot role w)

  -- The role has a state directory.
  abbrev pub has_dir : String → Bool
  has_dir role = elim (env.state_dir role) [
    | none ↦ false
    | some dir ↦ if dir == "" then false else true
  ]

  unfoldable pub write_to : Bool → String → ℕ → Act (Unit {0})
  write_to true role generation w = ask (checkpoint role generation (registry_snapshot role w)) w
  write_to false role generation w = (ok tt, w)

  unfoldable pub write_checkpoint : String → ℕ → Act (Unit {0})
  write_checkpoint role generation w = write_to (has_dir role) role generation w

  -- writeCheckpoint(role, m.routeGenerationLocked(role))
  unfoldable pub save : String → Act (Unit {0})
  save role = role_state role >>= λ s. write_checkpoint role s.route_generation

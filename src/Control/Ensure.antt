-- ===== src/Control/Ensure.antt =====
-- toad/internal/control/selected_routes.go: Ensure, from the intent on the wire to the transaction.
-- Of a role's counters nothing is kept.
pub mod Admission
pub mod Routed
use kikimora.Prelude.{
  ℕ, ℤ, String, Bool, true, false, not, ◌&&◌, ◌||◌, Option, none, some, List, [], ◌∷◌,
  if◌then◌else◌, ◌==◌, nat_eq, string_eq, option_beq, Result, ok, err, length, count, any, all, leb,
}
use kikimora.Prelude.Int.{int_eq, is_positive}
use kikimora.Prelude.Map.{lookup}
use kikimora.Netip.{Prefix, prefix_eq, is4, is4in6, masked}
use kikimora.Routing.Identity.{SelectedRouteIdentity, route_identity_eq, is_host_prefix}
use kikimora.Routing.Record.{
  SelectedRouteSource, dns, static_source, source_beq, SelectedPark, SelectedRoute,
}
use kikimora.Routing.Machine.{Reservation, is_active}
use kikimora.Core.Model.{RoleRuntime}
use kikimora.Control.World.{
  Env, Verification, RoleFlags, World, Failure, Denial, unknown_zone, bad_prefix, initializing,
  frozen_role, unconfigured, undesired, unhealthy, family_not_ready, no_managed_interface,
  over_capacity, unwritable, denied, conflict, Act, and_then, ◌>>=◌, ◌>>◌, done, fail, require,
  gets, role_state, registry_snapshot,
}
use kikimora.Control.Transactions.{apply_reserved}
use kikimora.Control.Restore.{normalize_route}

pub record LeshyRouteIntent : Type 0 where
  pub zone : String
  pub prefix : String
  pub source : String

pub data WireState : Type 0 where
  unset applied already_applied denied_state conflict_state : WireState

pub record LeshyRouteResult : Type 0 where
  pub role : String
  pub zone : String
  pub prefix : Option Prefix
  pub family : ℕ
  pub generation : ℕ  -- uint64
  pub state : WireState
  pub reason : Option Denial

-- What Ensure reads of the configuration, of the product's roles and of the reconciler.
pub record Authority : Type 0 where
  pub zone_roles : String → List String
  pub parse_prefix : String → Option Prefix
  pub capacity : ℤ
  pub managed : String → Bool
  pub ready : Bool
  pub fast_path_allowed : Bool
  pub role_runtime : String → Option RoleRuntime

abbrev wire_source : String → Option SelectedRouteSource
wire_source s =
    if s == "dns" then some dns else (if s == "static" then some static_source else none)

-- Where the source allows the prefix.
abbrev sourced : Prefix → Option SelectedRouteSource → Option (Prefix × SelectedRouteSource)
sourced p none = none
sourced p (some s) = if source_beq s dns && not (is_host_prefix p) then none else some (p, s)

abbrev canonical : String → Option Prefix → Option (Prefix × SelectedRouteSource)
canonical source none = none
canonical source (some p) =
    if not (p == masked p)
    then none
    else (if is4in6 p.ip then none else sourced p (wire_source source))

unfoldable pub canonical_intent_prefix :
    Authority → LeshyRouteIntent → Option (Prefix × SelectedRouteSource)
canonical_intent_prefix a i = canonical i.source (a.parse_prefix i.prefix)

-- The state of the product role that the checks go by, read at once.
pub record Admitted : Type 0 where
  pub role : String
  pub prefix : Prefix
  pub reservation_source : SelectedRouteSource
  pub if_index : ℤ
  pub interface : String
  pub toad_generation : ℕ
  pub generation : ℕ

abbrev pub family_of : Prefix → ℕ
family_of p = if is4 p.ip then 4 else 6

abbrev pub is_family_ready : Prefix → RoleRuntime → Bool
is_family_ready p r =
    if is4 p.ip then r.validation.families.ipv4.ready else r.validation.families.ipv6.ready

abbrev family_reason : Prefix → RoleRuntime → String
family_reason p r =
    if is4 p.ip then r.validation.families.ipv4.reason else r.validation.families.ipv6.reason

abbrev counted : Prefix → SelectedRoute → Bool
counted p e = source_beq e.source dns && not (e.prefix == p)

-- `used >= m.capacity`, which no count is where the capacity is not positive.
abbrev reaches : ℕ → ℤ → Bool
reaches used (ℤ.pos n) = leb n used
reaches used (ℤ.negsuc n) = true

-- The checks on the role's runtime, in their order.
unfoldable pub check_runtime :
    Authority
    → String
    → Prefix
    → SelectedRouteSource
    → List SelectedRoute
    → RoleFlags
    → RoleRuntime
    → Result Denial Admitted
check_runtime a role p source entries s r =
    if not r.desired
    then err undesired
    else (if not r.validation.healthy
        then err (unhealthy r.validation.reason)
        else (if not (is_family_ready p r)
            then err (family_not_ready (family_of p) (family_reason p r))
            else (if not (is_positive r.toad.if_index)
                then err no_managed_interface
                else (if source_beq source dns && reaches (count (counted p) entries) a.capacity
                    then err over_capacity
                    else ok (record {
                      role = role;
                      prefix = p;
                      reservation_source = source;
                      if_index = r.toad.if_index;
                      interface = r.toad.interface_name;
                      toad_generation = r.toad_generation;
                      generation = s.route_generation;
                    })))))

unfoldable pub check_configured :
    Authority
    → String
    → Prefix
    → SelectedRouteSource
    → List SelectedRoute
    → RoleFlags
    → Option RoleRuntime
    → Result Denial Admitted
check_configured a role p source entries s none = err unconfigured
check_configured a role p source entries s (some r) = check_runtime a role p source entries s r

unfoldable pub check_role :
    Authority
    → String
    → Prefix
    → SelectedRouteSource
    → List SelectedRoute
    → RoleFlags
    → Result Denial Admitted
check_role a role p source entries s =
    if s.frozen
    then err frozen_role
    else check_configured a role p source entries s (a.role_runtime role)

abbrev is_token : SelectedRouteIdentity → Admitted → Option Verification → Bool
is_token identity t none = false
is_token identity t (some v) =
    v.identity == identity
    && (v.toad_generation == t.toad_generation && v.route_generation == t.generation)

-- An entry that the fast path takes for verified.
abbrev pub is_verified_entry : String → SelectedRouteIdentity → Admitted → SelectedRoute → Bool
is_verified_entry zone identity t e =
    e.prefix == t.prefix
    && (is_active e.state
        && (e.zone == zone
            && (source_beq e.source t.reservation_source
                && (e.desired == identity && option_beq e.owned (some e.desired)))))

abbrev pub reservation : String → SelectedRouteIdentity → Admitted → Reservation
reservation zone identity t = record {
  zone = zone;
  source = t.reservation_source;
  toad_generation = t.toad_generation;
  route_generation = t.generation;
  interface = t.interface;
  desired = identity;
}

abbrev answer : LeshyRouteIntent → String → Option Prefix → ℕ → LeshyRouteResult
answer i role p family = record {
  role = role;
  zone = i.zone;
  prefix = p;
  family = family;
  generation = 0;
  state = unset;
  reason = none;
}

abbrev pub Verdict : Type 0
Verdict = LeshyRouteResult × Option Failure × World

abbrev denied_answer : LeshyRouteIntent → LeshyRouteResult
denied_answer i = record (answer i "" none 0) { state = denied_state }

-- The reason goes on the wire only where a family is not ready.
abbrev wire_reason : Denial → Option Denial
wire_reason (family_not_ready n reason) = some (family_not_ready n reason)
wire_reason _ = none

module _ (env : Env) (a : Authority) where
  unfoldable pub fast_path : String → SelectedRouteIdentity → Admitted → RoleFlags → World → Bool
  fast_path zone identity t s w =
      is_token identity t (lookup t.prefix s.verification)
      && (a.fast_path_allowed
          && any (is_verified_entry zone identity t) (registry_snapshot env t.role w))

  unfoldable pub apply_unless : Bool → String → SelectedRouteIdentity → Admitted → Act Bool
  apply_unless true zone identity t = done true
  apply_unless false zone identity t =
      apply_reserved env t.role t.prefix (reservation zone identity t) t.generation

  -- applySelectedRouteCanonical
  unfoldable pub apply_canonical : String → Admitted → Act Bool
  apply_canonical zone t = do
    require env.routes_resolved (denied unwritable)
    identity ← normalize_route env t.role t.prefix t.if_index
    s ← role_state t.role
    fast ← gets (fast_path zone identity t s)
    apply_unless fast zone identity t

  -- What is answered after the transaction.
  unfoldable pub settled : LeshyRouteResult → Result Failure Bool × World → Verdict
  settled result (ok fast, w) =
      (record result { state = if fast then already_applied else applied }, none, w)
  settled result (err e, w) = (result, some e, w)

  unfoldable pub ensure_checked :
      LeshyRouteIntent → LeshyRouteResult → Result Denial Admitted → World → Verdict
  ensure_checked i result (err d) w = (record result { reason = wire_reason d }, some (denied d), w)
  ensure_checked i result (ok t) w =
      settled (record result { generation = t.generation }) (apply_canonical i.zone t w)

  abbrev role_checked :
      LeshyRouteIntent
      → String
      → Prefix
      → SelectedRouteSource
      → Result Failure RoleFlags × World
      → Verdict
  role_checked i role p source (ok s, w) =
      ensure_checked i (answer i role (some p) (family_of p))
        (check_role a role p source (registry_snapshot env role w) s) w
  role_checked i role p source (err e, w) = (answer i role (some p) (family_of p), some e, w)

  unfoldable pub ensure_canonical :
      LeshyRouteIntent → String → Option (Prefix × SelectedRouteSource) → World → Verdict
  ensure_canonical i role none w = (denied_answer i, some (denied bad_prefix), w)
  ensure_canonical i role (some (p, source)) w =
      if a.managed role && not a.ready
      then (answer i role (some p) (family_of p), some (denied initializing), w)
      else role_checked i role p source (role_state role w)

  unfoldable pub ensure_zone : LeshyRouteIntent → List String → World → Verdict
  ensure_zone i (role ∷ []) w = ensure_canonical i role (canonical_intent_prefix a i) w
  ensure_zone i _ w = (denied_answer i, some (denied unknown_zone), w)

  -- The wrapper's switch on the error.
  abbrev named_state : Option Failure → LeshyRouteResult → LeshyRouteResult
  named_state (some (conflict role p)) result = record result { state = conflict_state }
  named_state (some (denied d)) result = record result { state = denied_state }
  named_state _ result = result

  unfoldable pub ensure : LeshyRouteIntent → World → Verdict
  ensure i w =
      let (result, e, w') = ensure_zone i (a.zone_roles i.zone) w in (named_state e result, e, w')

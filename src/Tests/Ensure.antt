-- ===== src/Tests/Ensure.antt =====
-- toad/internal/control/selected_routes.go: an intent for a role that is ready, whose route was being applied.
use kikimora.Prelude.{
  ◌≡◌, ◌⊎◌, refl, none, some, [], ◌∷◌, true, ◌==◌, string_eq, if◌then◌else◌, pos,
}
use kikimora.Prelude.Map.{lookup, insert}
use kikimora.Prelude.Sort.{insert_by, sort}
use kikimora.Netip.{masked}
use kikimora.Routing.Identity.{is_host_prefix, is_canonical_prefix, validate_route}
use kikimora.Routing.Machine.{reserve_entry, mark_applying_entry, mark_active_entry}
use kikimora.Routing.Registry.{transition, reserve, mark_applying, mark_active}
use kikimora.Routing.Snapshot.{snapshot, kept}
use kikimora.Routing.History.{call, run_calls}
use kikimora.Control.Transactions.{
  registered_entry, reread, typed_conflict, reconcile_route, settle_active, drive_transaction,
  reconcile_in, reconcile_record, minted_token, mint_verification_token, apply_reserved,
}
use kikimora.Control.Restore.{normalize_route}
use kikimora.Core.Model.{RoleRuntime, new_role}
use kikimora.Control.World.{
  Env, World, and_then, role_state, registered, registering, find_prefix, answered, ask,
  registry_snapshot, registry_entry, write_to, write_checkpoint, save,
}
use kikimora.Control.Ensure.{
  LeshyRouteIntent, Authority, canonical_intent_prefix, check_runtime, check_configured, check_role,
  fast_path, apply_unless, apply_canonical, settled, ensure_checked, ensure_canonical, ensure_zone,
  ensure,
}
use kikimora.Control.Ensure.Admission.{Untouched, Admits, ensure-Admits}
use kikimora.Control.Ensure.Routed.{Answered, ensure-Answered}
use kikimora.Tests.Registry.{destination, direct}
use kikimora.Tests.Control.{env, after_calls, applying_calls, sure}

abbrev up : RoleRuntime
up = record new_role {
  desired = true;
  toad_generation = 1;
  toad = record new_role.toad { if_index = pos 9; interface_name = "kikimora0" };
  validation = record new_role.validation {
    healthy = true;
    families = record new_role.validation.families {
      ipv4 = record new_role.validation.families.ipv4 { ready = true };
    };
  };
}

abbrev authority : Authority
authority = record {
  zone_roles = λ zone. if zone == "vpn" then "vpn" ∷ [] else [];
  parse_prefix = λ s. if s == "10.1.2.3/32" then some destination else none;
  capacity = pos 16;
  managed = λ role. true;
  ready = true;
  fast_path_allowed = true;
  role_runtime = λ role. if role == "vpn" then some up else none;
}

abbrev intent : LeshyRouteIntent
intent = record { zone = "vpn"; prefix = "10.1.2.3/32"; source = "dns" }

abbrev world : World
world = after_calls applying_calls

ensure-Admits_example :
    let v = ensure env authority intent world in
    Untouched world v.1 v.2 ⊎ Admits authority intent world
ensure-Admits_example = ensure-Admits env authority intent world

-- A platform that verifies the route on the present interface.
abbrev verifying : Env
verifying = record env { reconciled = λ _ _. record { verified = direct 9; mutated = true } }

-- The record that was being applied is Active now, and Ensure reports no error.
granted : (ensure verifying authority intent world).1 ≡ none
unfolding ensure ensure_zone ensure_canonical canonical_intent_prefix masked is_host_prefix
    role_state ensure_checked check_role lookup insert check_configured check_runtime
    registry_snapshot registry_entry find_prefix snapshot kept run_calls call reserve mark_applying
    mark_active transition reserve_entry mark_applying_entry mark_active_entry validate_route
    is_canonical_prefix insert_by sort settled apply_canonical fast_path apply_unless
    normalize_route and_then registered registering ask answered write_to write_checkpoint save
    apply_reserved typed_conflict reconcile_record reread registered_entry reconcile_in
    drive_transaction reconcile_route settle_active mint_verification_token minted_token
granted = refl

ensure-Answered_example :
    Answered verifying authority (λ role. refl) intent (ensure verifying authority intent world).2
ensure-Answered_example =
    (ensure-Answered verifying authority (λ role. refl) intent world (sure applying_calls).0).0
      granted

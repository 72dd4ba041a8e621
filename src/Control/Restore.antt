-- ===== src/Control/Restore.antt =====
-- toad/internal/control/selected_routes.go: Restore, the registered routes on the present interface.
use kikimora.Prelude.{
  ℕ, String, Bool, true, false, not, ◌&&◌, ◌||◌, Option, none, some, List, [], ◌∷◌, if◌then◌else◌,
  ◌==◌, nat_eq, option_beq, ok, ℤ,
}
use kikimora.Prelude.Int.{int_eq, is_positive}
use kikimora.Netip.{Prefix, is4}
use kikimora.Routing.Identity.{SelectedRouteIdentity, route_identity_eq, is_host_prefix}
use kikimora.Routing.Record.{dns, source_beq, SelectedRoute}
use kikimora.Routing.Machine.{Reservation, is_active, is_retiring}
use kikimora.Routing.Registry.{reserve}
use kikimora.Control.World.{
  normalize_selected, no_interface, no_writer, not_configured, fail, Env, Act, and_then, ◌>>=◌,
  ◌>>◌, done, require, gets, role_state, registering, ask, registry_snapshot, save,
}
use kikimora.Control.Transactions.{reconcile_record}

-- What Restore reads of the role's product state, and its two arguments.
pub record Target : Type 0 where
  pub if_index : ℤ
  pub interface : String
  pub toad_generation : ℕ
  pub v4_ready : Bool
  pub v6_ready : Bool

-- The entries that the loop leaves alone.
unfoldable pub left_alone : Target → SelectedRoute → Bool
left_alone t e =
    source_beq e.source dns && not (is_host_prefix e.prefix)
    || (is_retiring e.state
        || ((if is4 e.prefix.ip then not t.v4_ready else not t.v6_ready)
            || is_active e.state
              && (option_beq e.owned (some e.desired) && e.desired.if_index == t.if_index)))

abbrev pub moved_to : Target → SelectedRouteIdentity → ℕ → SelectedRoute → Reservation
moved_to t identity generation e = record {
  zone = e.zone;
  source = e.source;
  toad_generation = t.toad_generation;
  route_generation = generation;
  interface = t.interface;
  desired = identity;
}

module _ (env : Env) where
  unfoldable pub normalize_route : String → Prefix → ℤ → Act SelectedRouteIdentity
  normalize_route role prefix i w =
      and_then (λ _ w'. (ok (env.normalized (normalize_selected role prefix i) w.history), w'))
        (ask env (normalize_selected role prefix i) w)

  -- One turn of the loop, for an entry that is not left alone.
  unfoldable pub restore_entry : String → Target → SelectedRoute → Act Bool
  restore_entry role t e = do
    identity ← normalize_route role e.prefix t.if_index
    s ← role_state role
    registering (reserve env.parse_addr role e.prefix (moved_to t identity s.route_generation e))
    reconcile_record env role e.prefix

  unfoldable pub restore_unless : Bool → String → Target → SelectedRoute → Act (Unit {0})
  restore_unless true role t e = done tt
  restore_unless false role t e = restore_entry role t e >>= λ _. done tt

  unfoldable pub restore_loop : String → Target → List SelectedRoute → Act (Unit {0})
  restore_loop role t [] = done tt
  restore_loop role t (e ∷ es) = restore_unless (left_alone t e) role t e >> restore_loop role t es

  -- Restore, with what the product state has of the role.
  unfoldable pub restore : String → Option Target → Act (Unit {0})
  restore role none = require env.routes_resolved no_writer >> fail not_configured
  restore role (some t) = do
    require env.routes_resolved no_writer
    _ ← role_state role
    require (is_positive t.if_index) no_interface
    es ← gets (registry_snapshot env role)
    restore_loop role t es
    save env role

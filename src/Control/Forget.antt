-- ===== src/Control/Forget.antt =====
-- toad/internal/control/selected_transactions.go: Forget and FlushZone from the names on the wire, and
-- ClearVerification of selected_routes.go.
use kikimora.Prelude.{String, string_eq, Option, none, some, List, [], ◌∷◌}
use kikimora.Prelude.Map.{lookup, insert}
use kikimora.Netip.{Prefix}
use kikimora.Routing.Record.{SelectedRouteSource}
use kikimora.Control.World.{
  Env, RoleFlags, World, Failure, unknown_zone, bad_prefix, denied, Act, ◌>>◌, fail, role_state,
}
use kikimora.Control.Transactions.{retire_record, flush_zone}
use kikimora.Control.Ensure.{LeshyRouteIntent, Authority, canonical_intent_prefix}

module _ (env : Env) (a : Authority) where
  unfoldable pub forget_in : Prefix → List String → Act (Unit {0})
  forget_in prefix (role ∷ []) = role_state role >> retire_record env role prefix
  forget_in prefix _ = fail (denied unknown_zone)

  unfoldable pub forget_canonical : String → Option (Prefix × SelectedRouteSource) → Act (Unit {0})
  forget_canonical zone none = fail (denied bad_prefix)
  forget_canonical zone (some (prefix, source)) = forget_in prefix (a.zone_roles zone)

  unfoldable pub forget : LeshyRouteIntent → Act (Unit {0})
  forget i = forget_canonical i.zone (canonical_intent_prefix a i)

  unfoldable pub flush_in : String → List String → World → Option Failure × World
  flush_in zone (role ∷ []) w = flush_zone env role zone w
  flush_in zone _ w = (some (denied unknown_zone), w)

  unfoldable pub flush_named : String → World → Option Failure × World
  flush_named zone w = flush_in zone (a.zone_roles zone) w

unfoldable pub cleared : String → Option RoleFlags → World → World
cleared role none w = w
cleared role (some s) w = record w { roles = insert role (record s { verification = [] }) w.roles }

unfoldable pub clear_verification : String → World → World
clear_verification role w = cleared role (lookup role w.roles) w

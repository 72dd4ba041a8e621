-- ===== src/Control/Startup.antt =====
-- toad/internal/control/selected_routes.go: Freeze, Unfreeze and the startup restore.
use kikimora.Prelude.{
  ℕ, String, Bool, true, false, not, ◌&&◌, Option, none, some, List, [], ◌∷◌, if◌then◌else◌, ◌==◌,
  nat_eq, string_eq, option_beq, all, ltb, u64_suc,
}
use kikimora.Prelude.Int.{int_eq}
use kikimora.Prelude.Map.{lookup, insert}
use kikimora.Netip.{prefix_eq}
use kikimora.Routing.Identity.{route_identity_eq}
use kikimora.Routing.Record.{SelectedRoute}
use kikimora.Routing.Machine.{is_active, is_retiring}
use kikimora.Control.World.{
  Env, Verification, RoleFlags, World, Act, ◌>>=◌, ◌>>◌, done, gets, role_state, set_role_state,
  registering, registry_snapshot,
}
use kikimora.Routing.Restore.{restore_role}

module _ (env : Env) where
  -- Freeze, once no call is in flight.
  unfoldable pub freeze : String → Act (List SelectedRoute × ℕ)
  freeze role = do
    s ← role_state role
    set_role_state role (record s { frozen = true })
    es ← gets (registry_snapshot env role)
    done (es, s.route_generation)

  unfoldable pub unfreeze : String → Act ℕ
  unfreeze role = do
    s ← role_state role
    set_role_state role (record s { frozen = false; route_generation = u64_suc s.route_generation })
    done (u64_suc s.route_generation)

  abbrev is_none {ℓ} : {A : Type ℓ} → Option A → Bool
  is_none none = true
  is_none (some x) = false

  abbrev is_current : RoleFlags → SelectedRoute → Option Verification → Bool
  is_current s e none = false
  is_current s e (some v) =
      v.identity == e.desired
      && (v.toad_generation == e.toad_generation && v.route_generation == s.route_generation)

  -- CompleteStartupRestore's condition on one entry.
  abbrev pub is_restored : RoleFlags → SelectedRoute → Bool
  is_restored s e =
      not (is_retiring e.state)
      && (is_active e.state
          && (option_beq e.owned (some e.desired)
              && (is_none e.park && is_current s e (lookup e.prefix s.verification))))

  unfoldable pub complete_found : String → Option RoleFlags → World → Bool × World
  complete_found role none w = (false, w)
  complete_found role (some s) w =
      if all (is_restored s) (registry_snapshot env role w)
      then (
        true,
        record w {
          roles = insert role (record s { frozen = false; restore_pending = false }) w.roles;
        },
      )
      else (false, w)

  unfoldable pub complete_startup_restore : String → World → Bool × World
  complete_startup_restore role w = complete_found role (lookup role w.roles) w

  abbrev larger : ℕ → ℕ → ℕ
  larger m n = if ltb n m then m else n

  abbrev is_empty : List SelectedRoute → Bool
  is_empty [] = true
  is_empty (e ∷ es) = false

  -- What a checkpoint that was read makes of the role: a new generation, and a freeze if it has entries.
  abbrev seeded : ℕ → List SelectedRoute → RoleFlags → RoleFlags
  seeded generation es s = record s {
    route_generation = larger (u64_suc generation) s.route_generation;
    frozen = if is_empty es then s.frozen else true;
    restore_pending = if is_empty es then s.restore_pending else true;
    verification = [];
  }

  unfoldable pub restore_managed_checkpoint : String → ℕ → List SelectedRoute → Act (Unit {0})
  restore_managed_checkpoint role generation es = do
    registering (restore_role env.parse_addr role es)
    s ← role_state role
    set_role_state role (seeded generation es s)

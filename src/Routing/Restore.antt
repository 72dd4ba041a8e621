-- ===== src/Routing/Restore.antt =====
-- toad/internal/routing/selected_registry.go: RestoreRole and the validation of what it restores.
pub mod Inversion
use kikimora.Prelude.{
  String, Bool, true, false, not, ◌&&◌, Option, none, some, List, [], ◌∷◌, ◌==◌, nat_eq, string_eq,
  option_beq, Result, ok, err, ◌>>=◌, ◌>>◌, fail_if, map_err,
}
use kikimora.Prelude.Map.{lookup, insert}
use kikimora.Netip.{Addr, Prefix, prefix_eq}
use kikimora.Routing.Identity.{validate_route, validate_park, route_identity_eq, park_identity_eq}
use kikimora.Routing.Record.{
  SelectedRouteState, retiring, other_state, park_pending, park_applying, park_active,
  park_retiring, other_park_state, SelectedPark, SelectedRoute, key_eq,
}
use kikimora.Routing.Machine.{
  RegistryError, role_required, duplicate_prefix, invalid_desired, active_needs_owned,
  stray_retire_desired, illegal_state, illegal_park_state, is_active, is_retiring, known_state,
}
use kikimora.Routing.Registry.{Registry, key}

-- `for key, entry := range restored { r.entries[key] = entry }`
unfoldable pub insert_all : Registry → Registry → Registry
insert_all [] r = r
insert_all ((k, e) ∷ es) r = insert_all es (insert k e r)

module _ (parse_addr : String → Option Addr) where
  -- The invariants of one restored park transaction.
  unfoldable pub validate_park_transaction : SelectedPark → Prefix → Result RegistryError (Unit {0})
  validate_park_transaction p prefix = do
    map_err (λ _. invalid_desired) (validate_park parse_addr p.desired prefix)
    elim p.state [
      | park_pending ↦ fail_if p.retire_desired stray_retire_desired
      | park_applying ↦ fail_if p.retire_desired stray_retire_desired
      | park_active ↦
          fail_if (not (option_beq p.owned (some p.desired))) active_needs_owned
          >> fail_if p.retire_desired stray_retire_desired
      | park_retiring ↦ ok tt
      | other_park_state s ↦ err (illegal_park_state (other_park_state s))
    ]

  abbrev pub check_park : Option SelectedPark → Prefix → Result RegistryError (Unit {0})
  check_park none prefix = ok tt
  check_park (some p) prefix = validate_park_transaction p prefix

  -- What RestoreRole asks of one entry of the checkpoint.
  unfoldable pub restorable : SelectedRoute → Result RegistryError (Unit {0})
  unfolding validate_park_transaction
  restorable e = do
    fail_if (not (known_state e.state)) (illegal_state e.state)
    map_err (λ _. invalid_desired) (validate_route parse_addr e.desired e.prefix)
    fail_if (is_active e.state && not (option_beq e.owned (some e.desired))) active_needs_owned
    fail_if (not (is_retiring e.state) && e.retire_desired) stray_retire_desired
    check_park e.park e.prefix

  -- The validation loop: `seen` holds the keys met so far, `restored` the map that is built.
  unfoldable pub restore_entries : List SelectedRoute → Registry → Result RegistryError Registry
  restore_entries [] restored = ok restored
  restore_entries (e ∷ es) restored = do
    elim (lookup (key e.role e.prefix) restored) [ none ↦ ok tt | some _ ↦ err duplicate_prefix ]
    restorable e
    restore_entries es (insert (key e.role e.prefix) e restored)

  unfoldable pub restore_role :
      String → List SelectedRoute → Registry → Result RegistryError Registry
  restore_role role entries r = do
    fail_if (role == "") role_required
    restored ← restore_entries entries []
    ok (insert_all restored r)

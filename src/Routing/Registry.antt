-- ===== src/Routing/Registry.antt =====
-- toad/internal/routing/selected_registry.go: MemorySelectedRegistry. A method returns the new map or
-- the reason of its refusal; the mutex makes each method one step. A park is held by one entry, so
-- what Go writes through the entry's pointer is written into the entry.
pub mod Transition
use kikimora.Prelude.{
  String, Bool, not, ◌||◌, Option, none, some, List, [], ◌∷◌, if◌then◌else◌, ◌==◌, nat_eq,
  string_eq, Result, ok, err, ◌>>=◌, ◌>>◌, fail_if, map_err,
}
use kikimora.Prelude.Map.{lookup, insert, erase}
use kikimora.Netip.{Addr, Prefix, is_valid, prefix_eq}
use kikimora.Routing.Identity.{
  SelectedRouteIdentity, SelectedParkIdentity, is_canonical_prefix, validate_route, validate_park,
  route_identity_eq, park_identity_eq,
}
use kikimora.Routing.Record.{SelectedRoute, SelectedRouteKey, key_eq}
use kikimora.Routing.Machine.{
  RegistryError, role_required, not_canonical, not_registered, identity, Reservation, reserve_entry,
  mark_applying_entry, mark_active_entry, mark_retiring_entry, begin_repair_entry, reserve_park_tx,
  mark_park_applying_tx, mark_park_active_tx, mark_park_retiring_tx, on_park, clear_park_entry,
}

abbrev pub Registry : Type 0
Registry = List (SelectedRouteKey × SelectedRoute)

abbrev pub key : String → Prefix → SelectedRouteKey
key role prefix = record { role = role; prefix = prefix }

abbrev pub new_registry : Registry
new_registry = []

-- The locked read-modify-write that every transition method goes through.
unfoldable pub transition :
    String
    → Prefix
    → (SelectedRoute → Result RegistryError SelectedRoute)
    → Registry
    → Result RegistryError Registry
transition role prefix mutate r = do
  fail_if (not (is_valid prefix) || not (is_canonical_prefix prefix)) not_canonical
  elim (lookup (key role prefix) r) [
    | none ↦ err not_registered
    | some entry ↦ mutate entry >>= λ entry'. ok (insert (key role prefix) entry' r)
  ]

unfoldable pub mark_applying : String → Prefix → Registry → Result RegistryError Registry
unfolding transition mark_applying_entry
mark_applying role prefix = transition role prefix mark_applying_entry

unfoldable pub mark_active :
    String → Prefix → SelectedRouteIdentity → Registry → Result RegistryError Registry
unfolding transition mark_active_entry
mark_active role prefix observed = transition role prefix (mark_active_entry observed)

unfoldable pub mark_retiring : String → Prefix → Registry → Result RegistryError Registry
unfolding transition mark_retiring_entry
mark_retiring role prefix = transition role prefix mark_retiring_entry

unfoldable pub begin_repair : String → Prefix → Registry → Result RegistryError Registry
unfolding transition begin_repair_entry
begin_repair role prefix = transition role prefix begin_repair_entry

unfoldable pub mark_park_applying : String → Prefix → Registry → Result RegistryError Registry
unfolding transition on_park mark_park_applying_tx
mark_park_applying role prefix = transition role prefix (on_park mark_park_applying_tx)

unfoldable pub mark_park_active :
    String → Prefix → SelectedParkIdentity → Registry → Result RegistryError Registry
unfolding transition on_park mark_park_active_tx
mark_park_active role prefix observed =
    transition role prefix (on_park (mark_park_active_tx observed))

unfoldable pub mark_park_retiring : String → Prefix → Registry → Result RegistryError Registry
unfolding transition on_park mark_park_retiring_tx
mark_park_retiring role prefix = transition role prefix (on_park mark_park_retiring_tx)

unfoldable pub clear_park : String → Prefix → Registry → Result RegistryError Registry
unfolding transition clear_park_entry
clear_park role prefix = transition role prefix clear_park_entry

unfoldable pub remove : String → Prefix → Registry → Registry
remove role prefix = erase (key role prefix)

unfoldable pub remove_role : String → Registry → Registry
remove_role role [] = []
remove_role role ((k, e) ∷ r) =
    let rest = remove_role role r in if k.role == role then rest else (k, e) ∷ rest

module _ (parse_addr : String → Option Addr) where
  unfoldable pub reserve : String → Prefix → Reservation → Registry → Result RegistryError Registry
  unfolding reserve_entry
  reserve role prefix a r = do
    fail_if (role == "") role_required
    map_err identity (validate_route parse_addr a.desired prefix)
    ok (insert (key role prefix) (reserve_entry role prefix a (lookup (key role prefix) r)) r)

  unfoldable pub reserve_park :
      String → Prefix → SelectedParkIdentity → Bool → Registry → Result RegistryError Registry
  reserve_park role prefix desired force r = do
    map_err identity (validate_park parse_addr desired prefix)
    transition role prefix
        (λ e. ok (record e { park = some (reserve_park_tx desired force e.park) })) r

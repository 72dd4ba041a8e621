-- ===== src/Routing/History/Naming.antt =====
-- toad/internal/routing/selected_registry.go: MemorySelectedRegistry.
-- What the registry's methods leave of a record's own role and prefix, and of the keys of the map.
use kikimora.Prelude.{string_eq, String, ◌≡◌, refl, Option, none, some, [], ◌∷◌, arith, Result, ok}
use kikimora.Prelude.Map.{Fresh, Distinct}
use kikimora.Netip.{Prefix}
use kikimora.Routing.Record.{SelectedPark, SelectedRoute, SelectedRouteKey, key_eq}
use kikimora.Routing.Machine.{
  RegistryError, Reservation, reserve_entry, mark_applying_entry, mark_active_entry,
  mark_retiring_entry, begin_repair_entry, on_park, clear_park_entry,
}
use kikimora.Routing.Identity.{SelectedRouteIdentity}
use kikimora.Routing.Registry.{Registry, remove_role}

abbrev pub SameName : SelectedRoute → SelectedRoute → Type 0
SameName e e' = (e'.role ≡ e.role) × (e'.prefix ≡ e.prefix)

pub mark_applying_entry_name :
    (e : SelectedRoute) {e' : SelectedRoute} → mark_applying_entry e ≡ ok e' → SameName e e'
unfolding mark_applying_entry
mark_applying_entry_name e m = ground arith

pub mark_active_entry_name :
    (o : SelectedRouteIdentity) (e : SelectedRoute) {e' : SelectedRoute}
    → mark_active_entry o e ≡ ok e'
    → SameName e e'
unfolding mark_active_entry
mark_active_entry_name o e m = ground arith

pub mark_retiring_entry_name :
    (e : SelectedRoute) {e' : SelectedRoute} → mark_retiring_entry e ≡ ok e' → SameName e e'
unfolding mark_retiring_entry
mark_retiring_entry_name e m = ground arith

pub begin_repair_entry_name :
    (e : SelectedRoute) {e' : SelectedRoute} → begin_repair_entry e ≡ ok e' → SameName e e'
unfolding begin_repair_entry
begin_repair_entry_name e m = ground arith

pub clear_park_entry_name :
    (e : SelectedRoute) {e' : SelectedRoute} → clear_park_entry e ≡ ok e' → SameName e e'
unfolding clear_park_entry
clear_park_entry_name e m = ground arith

pub on_park_name :
    (f : SelectedPark → Result RegistryError SelectedPark) (e : SelectedRoute) {e' : SelectedRoute}
    → on_park f e ≡ ok e'
    → SameName e e'
unfolding on_park
on_park_name f e m = ground arith

pub reserve_entry_name :
    (role : String) (prefix : Prefix) (a : Reservation) (old : Option SelectedRoute)
    → ((e : SelectedRoute) → old ≡ some e → (e.role ≡ role) × (e.prefix ≡ prefix))
    → ((reserve_entry role prefix a old).role ≡ role)
      × ((reserve_entry role prefix a old).prefix ≡ prefix)
unfolding reserve_entry
reserve_entry_name role prefix a none h = (refl, refl)
reserve_entry_name role prefix a (some e) h = ground (arith, h e)

remove_role-Fresh :
    (role : String) (k : SelectedRouteKey) (r : Registry) → Fresh k r → Fresh k (remove_role role r)
unfolding remove_role
remove_role-Fresh role k [] f = tt
remove_role-Fresh role k ((j, e) ∷ r) f = ground (arith, remove_role-Fresh role k r f.1)

pub remove_role-Distinct :
    (role : String) (r : Registry) → Distinct r → Distinct (remove_role role r)
unfolding remove_role
remove_role-Distinct role [] d = tt
remove_role-Distinct role ((k, e) ∷ r) d =
    ground (arith, remove_role-Fresh role k r d.0, remove_role-Distinct role r d.1)

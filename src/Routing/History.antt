-- ===== src/Routing/History.antt =====
-- toad/internal/routing/selected_registry.go: the methods of SelectedRouteRegistry as one call type,
-- and a registry's history from empty. A call that is refused leaves the map as it was.
pub mod Naming
pub mod Sound
pub mod Named
pub mod Roundtrip
use kikimora.Prelude.{String, Bool, Option, List, [], ◌∷◌, Result, ok, err}
use kikimora.Netip.{Addr, Prefix}
use kikimora.Routing.Identity.{SelectedRouteIdentity, SelectedParkIdentity}
use kikimora.Routing.Record.{SelectedRoute}
use kikimora.Routing.Machine.{RegistryError, Reservation}
use kikimora.Routing.Registry.{
  Registry, new_registry, mark_applying, mark_active, mark_retiring, begin_repair,
  mark_park_applying, mark_park_active, mark_park_retiring, clear_park, remove, remove_role,
  reserve, reserve_park,
}
use kikimora.Routing.Restore.{restore_role}

pub data Call : Type 0 where
  reserves : String → Prefix → Reservation → Call
  marks_applying marks_retiring begins_repair : String → Prefix → Call
  marks_active : String → Prefix → SelectedRouteIdentity → Call
  reserves_park : String → Prefix → SelectedParkIdentity → Bool → Call
  marks_park_applying marks_park_retiring clears_park removes : String → Prefix → Call
  marks_park_active : String → Prefix → SelectedParkIdentity → Call
  restores : String → List SelectedRoute → Call
  removes_role : String → Call

abbrev pub after : Registry → Result RegistryError Registry → Registry
after r (ok r') = r'
after r (err e) = r

module _ (parse_addr : String → Option Addr) where
  unfoldable pub call : Call → Registry → Result RegistryError Registry
  call (reserves role prefix a) r = reserve parse_addr role prefix a r
  call (marks_applying role prefix) r = mark_applying role prefix r
  call (marks_retiring role prefix) r = mark_retiring role prefix r
  call (begins_repair role prefix) r = begin_repair role prefix r
  call (marks_active role prefix observed) r = mark_active role prefix observed r
  call (reserves_park role prefix desired force) r =
      reserve_park parse_addr role prefix desired force r
  call (marks_park_applying role prefix) r = mark_park_applying role prefix r
  call (marks_park_retiring role prefix) r = mark_park_retiring role prefix r
  call (clears_park role prefix) r = clear_park role prefix r
  call (removes role prefix) r = ok (remove role prefix r)
  call (marks_park_active role prefix observed) r = mark_park_active role prefix observed r
  call (restores role entries) r = restore_role parse_addr role entries r
  call (removes_role role) r = ok (remove_role role r)

  unfoldable pub run_calls : List Call → Registry → Registry
  run_calls [] r = r
  run_calls (c ∷ cs) r = run_calls cs (after r (call c r))

-- ===== src/Routing/Machine.antt =====
-- toad/internal/routing/selected_registry.go: the two transaction machines, as what each transition
-- method does to one record. The selected machine moves `state`, `owned` and `retire_desired`; the
-- park machine moves the record's park transaction.
pub mod Restorable
use kikimora.Prelude.{
  ℕ, String, Bool, true, false, not, ◌&&◌, ◌||◌, Option, none, some, if◌then◌else◌, ◌==◌, nat_eq,
  string_eq, Result, ok, err, ◌>>=◌, ◌>>◌, fail_if,
}
use kikimora.Netip.{Prefix, prefix_eq}
use kikimora.Routing.Identity.{
  SelectedRouteIdentity, SelectedParkIdentity, IdentityError, route_identity_eq, park_identity_eq,
}
use kikimora.Routing.Record.{
  SelectedRouteSource, source_beq, SelectedRouteState, pending, applying, active, retiring,
  other_state, SelectedParkState, park_pending, park_applying, park_active, park_retiring,
  SelectedPark, SelectedRoute, key_eq,
}

pub data RegistryError : Type 0 where
  role_required not_canonical not_registered observed_not_desired no_park : RegistryError
  duplicate_prefix invalid_desired active_needs_owned stray_retire_desired : RegistryError
  illegal_state : SelectedRouteState → RegistryError
  illegal_park_state : SelectedParkState → RegistryError
  identity : IdentityError → RegistryError

abbrev pub is_active : SelectedRouteState → Bool
is_active active = true
is_active _ = false

abbrev pub is_applying : SelectedRouteState → Bool
is_applying applying = true
is_applying _ = false

abbrev pub known_state : SelectedRouteState → Bool
known_state (other_state s) = false
known_state _ = true

abbrev pub is_retiring : SelectedRouteState → Bool
is_retiring retiring = true
is_retiring _ = false

-- The arguments of Reserve beside the key.
pub record Reservation : Type 0 where
  pub zone : String
  pub source : SelectedRouteSource
  pub toad_generation : ℕ
  pub route_generation : ℕ
  pub interface : String
  pub desired : SelectedRouteIdentity

abbrev pub same_reservation : SelectedRoute → Reservation → Bool
same_reservation e a =
    e.desired == a.desired
    && (e.zone == a.zone
        && (source_beq e.source a.source
            && (e.interface == a.interface
                && (e.toad_generation == a.toad_generation
                    && e.route_generation == a.route_generation))))

unfoldable pub reserve_entry : String → Prefix → Reservation → Option SelectedRoute → SelectedRoute
reserve_entry role prefix a none = record {
  role = role;
  zone = a.zone;
  prefix = prefix;
  source = a.source;
  toad_generation = a.toad_generation;
  route_generation = a.route_generation;
  interface = a.interface;
  desired = a.desired;
  owned = none;
  state = pending;
  retire_desired = false;
  park = none;
}
reserve_entry role prefix a (some existing) =
    if same_reservation existing a then existing else record existing {
      role = role;
      zone = a.zone;
      prefix = prefix;
      source = a.source;
      toad_generation = a.toad_generation;
      route_generation = a.route_generation;
      interface = a.interface;
      desired = a.desired;
      state =
          if is_active existing.state && not (existing.desired == a.desired)
          then pending
          else existing.state;
    }

unfoldable pub mark_applying_entry : SelectedRoute → Result RegistryError SelectedRoute
mark_applying_entry e = elim e.state [
  | pending ↦ ok (record e { state = applying })
  | applying ↦ ok e
  | other ↦ err (illegal_state other)
]

unfoldable pub mark_active_entry :
    SelectedRouteIdentity → SelectedRoute → Result RegistryError SelectedRoute
mark_active_entry observed e = do
  fail_if (not (is_applying e.state) && not (is_active e.state)) (illegal_state e.state)
  fail_if (not (observed == e.desired)) observed_not_desired
  ok (record e { owned = some observed; state = active })

unfoldable pub mark_retiring_entry : SelectedRoute → Result RegistryError SelectedRoute
mark_retiring_entry e = elim e.state [
  | pending ↦ ok (record e { retire_desired = false; state = retiring })
  | applying ↦ ok (record e { retire_desired = true; state = retiring })
  | active ↦ ok (record e { retire_desired = false; state = retiring })
  | other ↦ err (illegal_state other)
]

unfoldable pub begin_repair_entry : SelectedRoute → Result RegistryError SelectedRoute
begin_repair_entry e = do
  fail_if (not (is_active e.state)) (illegal_state e.state)
  ok (record e { state = pending; retire_desired = false })

abbrev pub is_park_active : SelectedParkState → Bool
is_park_active park_active = true
is_park_active _ = false

unfoldable pub reserve_park_tx : SelectedParkIdentity → Bool → Option SelectedPark → SelectedPark
reserve_park_tx desired force none = record {
  state = park_pending;
  desired = desired;
  owned = none;
  retire_desired = false;
}
reserve_park_tx desired force (some p) =
    if p.desired == desired && (not force && is_park_active p.state)
    then p
    else if not (p.desired == desired) || force
    then record p { state = park_pending; retire_desired = false; desired = desired }
    else p

unfoldable pub mark_park_applying_tx : SelectedPark → Result RegistryError SelectedPark
mark_park_applying_tx p = elim p.state [
  | park_pending ↦ ok (record p { state = park_applying })
  | other ↦ err (illegal_park_state other)
]

unfoldable pub mark_park_active_tx :
    SelectedParkIdentity → SelectedPark → Result RegistryError SelectedPark
mark_park_active_tx observed p = elim p.state [
  | park_applying ↦
      if observed == p.desired
      then ok (record p { owned = some observed; state = park_active })
      else err observed_not_desired
  | park_active ↦
      if observed == p.desired
      then ok (record p { owned = some observed; state = park_active })
      else err observed_not_desired
  | other ↦ err (illegal_park_state other)
]

unfoldable pub mark_park_retiring_tx : SelectedPark → Result RegistryError SelectedPark
mark_park_retiring_tx p = elim p.state [
  | park_applying ↦ ok (record p { retire_desired = true; state = park_retiring })
  | park_active ↦ ok (record p { retire_desired = false; state = park_retiring })
  | other ↦ err (illegal_park_state other)
]

-- A park transition on an entry: refused where the entry has no park transaction.
unfoldable pub on_park :
    (SelectedPark → Result RegistryError SelectedPark)
    → SelectedRoute
    → Result RegistryError SelectedRoute
on_park f e = elim e.park [
  | none ↦ err no_park
  | some p ↦ f p >>= λ p'. ok (record e { park = some p' })
]

unfoldable pub clear_park_entry : SelectedRoute → Result RegistryError SelectedRoute
clear_park_entry e = elim e.park [
  | none ↦ ok e
  | some p ↦ elim p.state [
    | park_pending ↦ ok (record e { park = none })
    | park_retiring ↦ ok (record e { park = none })
    | other ↦ err (illegal_park_state other)
  ]
]

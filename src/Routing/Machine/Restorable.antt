-- ===== src/Routing/Machine/Restorable.antt =====
-- What the transitions of one record keep of what RestoreRole asks of it.
use kikimora.Prelude.{
  subst, sym, inl, inr, Option-cases, Result-cases, String, ◌≡◌, Bool, Option, none, some, arith,
  Result, ok,
}
use kikimora.Netip.{Addr, Prefix}
use kikimora.Routing.Identity.{
  SelectedRouteIdentity, SelectedParkIdentity, validate_route, validate_park,
  route_identity_beq_iff, park_identity_beq_iff,
}
use kikimora.Routing.Record.{SelectedPark, SelectedRoute}
use kikimora.Routing.Machine.{
  RegistryError, Reservation, reserve_entry, mark_applying_entry, mark_active_entry,
  mark_retiring_entry, begin_repair_entry, reserve_park_tx, mark_park_applying_tx,
  mark_park_active_tx, mark_park_retiring_tx, on_park, clear_park_entry,
}
use kikimora.Routing.Restore.{restorable, validate_park_transaction, check_park}

-- A park transition that succeeds moved the record's park and nothing else.
pub on_park-eq-ok :
    (f : SelectedPark → Result RegistryError SelectedPark) (e : SelectedRoute) {e' : SelectedRoute}
    → on_park f e ≡ ok e'
    → (p p' : SelectedPark) × (e.park ≡ some p) × (f p ≡ ok p') × (e' ≡ record e { park = some p' })
unfolding on_park
on_park-eq-ok f e m = elim (Option-cases e.park) [
  | inl q ↦ ground arith
  | inr (p, q) ↦ elim (Result-cases (f p)) [
    | inl (p', t) ↦ (p, p', q, t, ground arith)
    | inr (x, t) ↦ ground arith
  ]
]

module _ (parse_addr : String → Option Addr) where
  abbrev pub IsRestorable : SelectedRoute → Type 0
  IsRestorable e = restorable parse_addr e ≡ ok tt

  pub mark_applying_entry-IsRestorable :
      (e : SelectedRoute) {e' : SelectedRoute}
      → IsRestorable e
      → mark_applying_entry e ≡ ok e'
      → IsRestorable e'
  unfolding restorable mark_applying_entry
  mark_applying_entry-IsRestorable e h m = ground arith

  pub mark_active_entry-IsRestorable :
      (observed : SelectedRouteIdentity) (e : SelectedRoute) {e' : SelectedRoute}
      → IsRestorable e
      → mark_active_entry observed e ≡ ok e'
      → IsRestorable e'
  unfolding restorable mark_active_entry
  mark_active_entry-IsRestorable observed e h m =
      ground (arith, route_identity_beq_iff observed e.desired)

  pub mark_retiring_entry-IsRestorable :
      (e : SelectedRoute) {e' : SelectedRoute}
      → IsRestorable e
      → mark_retiring_entry e ≡ ok e'
      → IsRestorable e'
  unfolding restorable mark_retiring_entry
  mark_retiring_entry-IsRestorable e h m = ground arith

  pub begin_repair_entry-IsRestorable :
      (e : SelectedRoute) {e' : SelectedRoute}
      → IsRestorable e
      → begin_repair_entry e ≡ ok e'
      → IsRestorable e'
  unfolding restorable begin_repair_entry
  begin_repair_entry-IsRestorable e h m = ground arith

  pub clear_park_entry-IsRestorable :
      (e : SelectedRoute) {e' : SelectedRoute}
      → IsRestorable e
      → clear_park_entry e ≡ ok e'
      → IsRestorable e'
  unfolding restorable clear_park_entry
  clear_park_entry-IsRestorable e h m = ground arith

  pub reserve_entry-IsRestorable :
      (role : String) (prefix : Prefix) (a : Reservation) (old : Option SelectedRoute)
      → validate_route parse_addr a.desired prefix ≡ ok tt
      → ((e : SelectedRoute)
          → old ≡ some e
          → IsRestorable e × (e.role ≡ role) × (e.prefix ≡ prefix))
      → IsRestorable (reserve_entry role prefix a old)
  unfolding restorable reserve_entry
  reserve_entry-IsRestorable role prefix a none v h = ground arith
  reserve_entry-IsRestorable role prefix a (some e) v h =
      ground (arith, h e, route_identity_beq_iff e.desired a.desired)

  abbrev pub IsSoundPark : Prefix → SelectedPark → Type 0
  IsSoundPark prefix p = validate_park_transaction parse_addr p prefix ≡ ok tt

  pub mark_park_applying_tx-IsSoundPark :
      (prefix : Prefix) (p : SelectedPark) {p' : SelectedPark}
      → IsSoundPark prefix p
      → mark_park_applying_tx p ≡ ok p'
      → IsSoundPark prefix p'
  unfolding validate_park_transaction mark_park_applying_tx
  mark_park_applying_tx-IsSoundPark prefix p h m = ground arith

  pub mark_park_active_tx-IsSoundPark :
      (observed : SelectedParkIdentity) (prefix : Prefix) (p : SelectedPark) {p' : SelectedPark}
      → IsSoundPark prefix p
      → mark_park_active_tx observed p ≡ ok p'
      → IsSoundPark prefix p'
  unfolding validate_park_transaction mark_park_active_tx
  mark_park_active_tx-IsSoundPark observed prefix p h m =
      ground (arith, park_identity_beq_iff observed p.desired)

  pub mark_park_retiring_tx-IsSoundPark :
      (prefix : Prefix) (p : SelectedPark) {p' : SelectedPark}
      → IsSoundPark prefix p
      → mark_park_retiring_tx p ≡ ok p'
      → IsSoundPark prefix p'
  unfolding validate_park_transaction mark_park_retiring_tx
  mark_park_retiring_tx-IsSoundPark prefix p h m = ground arith

  pub reserve_park_tx-IsSoundPark :
      (desired : SelectedParkIdentity) (force : Bool) (prefix : Prefix) (p : Option SelectedPark)
      → validate_park parse_addr desired prefix ≡ ok tt
      → check_park parse_addr p prefix ≡ ok tt
      → IsSoundPark prefix (reserve_park_tx desired force p)
  unfolding validate_park_transaction reserve_park_tx
  reserve_park_tx-IsSoundPark desired force prefix none v h = ground arith
  reserve_park_tx-IsSoundPark desired force prefix (some p) v h = ground arith

  -- A new park leaves the rest of the record restorable.
  pub set_park-IsRestorable :
      (e : SelectedRoute) (p : SelectedPark)
      → IsRestorable e
      → IsSoundPark e.prefix p
      → IsRestorable (record e { park = some p })
  unfolding restorable
  set_park-IsRestorable e p h s = ground arith

  pub park_of-IsRestorable :
      (e : SelectedRoute) → IsRestorable e → check_park parse_addr e.park e.prefix ≡ ok tt
  unfolding restorable
  park_of-IsRestorable e h = ground arith

  pub on_park-IsRestorable :
      (f : SelectedPark → Result RegistryError SelectedPark) (e : SelectedRoute)
      {e' : SelectedRoute}
      → ((p p' : SelectedPark) → IsSoundPark e.prefix p → f p ≡ ok p' → IsSoundPark e.prefix p')
      → IsRestorable e
      → on_park f e ≡ ok e'
      → IsRestorable e'
  on_park-IsRestorable f e k h m =
      let (p, p', has, moved, same) = on_park-eq-ok f e m in
      subst IsRestorable (sym same)
        (set_park-IsRestorable e p' h (k p p' (rw has at (park_of-IsRestorable e h)) moved))

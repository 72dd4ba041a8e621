-- ===== src/Routing/Registry/Transition.antt =====
-- What a transition that succeeds has found and written.
use kikimora.Prelude.{
  String, ◌≡◌, Bool, true, Option, some, inl, inr, arith, Result, ok, Result-cases, Option-cases,
}
use kikimora.Prelude.Map.{lookup, insert}
use kikimora.Netip.{Addr, Prefix}
use kikimora.Routing.Identity.{
  SelectedParkIdentity, is_canonical_prefix, validate_route, validate_park,
}
use kikimora.Routing.Record.{SelectedRoute, key_eq}
use kikimora.Routing.Machine.{RegistryError, Reservation, reserve_entry, reserve_park_tx}
use kikimora.Routing.Registry.{Registry, key, transition, reserve, reserve_park}

pub transition-eq-ok :
    (role : String) (prefix : Prefix) (f : SelectedRoute → Result RegistryError SelectedRoute)
    (r : Registry) {r' : Registry}
    → transition role prefix f r ≡ ok r'
    → (e e' : SelectedRoute) × (lookup (key role prefix) r ≡ some e)
      × (f e ≡ ok e')
      × (r' ≡ insert (key role prefix) e' r)
      × (is_canonical_prefix prefix ≡ true)
unfolding transition
transition-eq-ok role prefix f r m = elim (Option-cases (lookup (key role prefix) r)) [
  | inl q ↦ ground arith
  | inr (e, q) ↦ elim (Result-cases (f e)) [
    | inl (e', t) ↦ (e, e', q, t, ground arith, ground arith)
    | inr (x, t) ↦ ground arith
  ]
]

module _ (parse_addr : String → Option Addr) where
  pub reserve-eq-ok :
      (role : String) (prefix : Prefix) (a : Reservation) (r : Registry) {r' : Registry}
      → reserve parse_addr role prefix a r ≡ ok r'
      → (validate_route parse_addr a.desired prefix ≡ ok tt)
        × (r'
            ≡ insert (key role prefix) (reserve_entry role prefix a (lookup (key role prefix) r)) r)
  unfolding reserve
  reserve-eq-ok role prefix a r m = ground arith

  pub reserve_park-eq-ok :
      (role : String) (prefix : Prefix) (desired : SelectedParkIdentity) (force : Bool)
      (r : Registry) {r' : Registry}
      → reserve_park parse_addr role prefix desired force r ≡ ok r'
      → (validate_park parse_addr desired prefix ≡ ok tt)
        × (transition role prefix
              (λ e. ok (record e { park = some (reserve_park_tx desired force e.park) }))
              r
            ≡ ok r')
  unfolding reserve_park
  reserve_park-eq-ok role prefix desired force r m = ground arith

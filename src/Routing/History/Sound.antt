-- ===== src/Routing/History/Sound.antt =====
-- Every record that a registry holds after any calls is one that RestoreRole accepts, under its own
-- key, and no key stands twice.
use kikimora.Prelude.{
  Bool-cases, ◌==◌, string_eq, ok-injective, subst, sym, ◌∙◌, String, ◌≡◌, refl, Bool, Option, some,
  List, [], ◌∷◌, inl, inr, Result, ok, Result-cases,
}
use kikimora.Prelude.Map.{
  lookup, insert, Distinct, Entries, Distinct-insert, Distinct-erase, Entries-insert, Entries-erase,
  Entries-lookup,
}
use kikimora.Netip.{Addr, Prefix}
use kikimora.Routing.Record.{SelectedPark, SelectedRoute, SelectedRouteKey, key_eq}
use kikimora.Routing.Machine.{
  RegistryError, Reservation, reserve_entry, mark_applying_entry, mark_active_entry,
  mark_retiring_entry, begin_repair_entry, mark_park_applying_tx, mark_park_active_tx,
  mark_park_retiring_tx, on_park, clear_park_entry,
}
use kikimora.Routing.Identity.{SelectedParkIdentity, validate_route, validate_park}
use kikimora.Routing.Machine.Restorable
use kikimora.Routing.Machine.Restorable.{IsRestorable, IsSoundPark}
use kikimora.Routing.Registry.{
  Registry, new_registry, key, transition, reserve, reserve_park, mark_applying, mark_active,
  mark_retiring, begin_repair, mark_park_applying, mark_park_active, mark_park_retiring, clear_park,
  remove, remove_role,
}
use kikimora.Routing.Registry.Transition.{transition-eq-ok, reserve-eq-ok, reserve_park-eq-ok}
use kikimora.Routing.Restore.{restore_role, restore_entries, insert_all}
use kikimora.Routing.Restore.Inversion.{restore_entries-eq-ok, restore_role-eq-ok}
use kikimora.Routing.History.{
  Call, reserves, marks_applying, marks_retiring, begins_repair, marks_active, reserves_park,
  marks_park_applying, marks_park_retiring, clears_park, removes, marks_park_active, restores,
  removes_role, after, call, run_calls,
}
use kikimora.Routing.History.Naming.{
  SameName, mark_applying_entry_name, mark_active_entry_name, mark_retiring_entry_name,
  begin_repair_entry_name, clear_park_entry_name, on_park_name, reserve_entry_name,
  remove_role-Distinct,
}

module _ (parse_addr : String → Option Addr) where
  -- A record stands under its own key, and can be restored.
  abbrev pub Holds : SelectedRouteKey → SelectedRoute → Type 0
  Holds k e = (e.role ≡ k.role) × (e.prefix ≡ k.prefix) × IsRestorable parse_addr e

  pub record IsSound (r : Registry) : Type 0 where
    pub distinct : Distinct r
    pub entries : Entries Holds r

  insert-IsSound :
      (k : SelectedRouteKey) (e : SelectedRoute) (r : Registry)
      → Holds k e
      → IsSound r
      → IsSound (insert k e r)
  insert-IsSound k e r h s = record {
    distinct = Distinct-insert k e r s.distinct;
    entries = Entries-insert Holds k e r h s.entries;
  }

  -- A transition that keeps each record's soundness keeps the registry's.
  transition-IsSound :
      (role : String) (prefix : Prefix) (f : SelectedRoute → Result RegistryError SelectedRoute)
      (r : Registry) {r' : Registry}
      → ((e e' : SelectedRoute)
          → Holds (key role prefix) e
          → f e ≡ ok e'
          → Holds (key role prefix) e')
      → IsSound r
      → transition role prefix f r ≡ ok r'
      → IsSound r'
  transition-IsSound role prefix f r k s m =
      let (e, e', found, moved, same, _) = transition-eq-ok role prefix f r m in
      subst IsSound (sym same) (
        insert-IsSound (key role prefix) e' r
          (k e e' (Entries-lookup Holds (key role prefix) r s.entries found) moved) s)

  keeps :
      (k : SelectedRouteKey) (e e' : SelectedRoute)
      → Holds k e
      → SameName e e'
      → IsRestorable parse_addr e'
      → Holds k e'
  keeps k e e' h n s = (n.0 ∙ h.0, n.1 ∙ h.1, s)

  selected-IsSound :
      (role : String) (prefix : Prefix) (f : SelectedRoute → Result RegistryError SelectedRoute)
      (r : Registry) {r' : Registry}
      → ((e e' : SelectedRoute) → f e ≡ ok e' → SameName e e')
      → ((e e' : SelectedRoute)
          → IsRestorable parse_addr e
          → f e ≡ ok e'
          → IsRestorable parse_addr e')
      → IsSound r
      → transition role prefix f r ≡ ok r'
      → IsSound r'
  selected-IsSound role prefix f r named sound s m =
      transition-IsSound role prefix f r
        (λ e e' h q. keeps (key role prefix) e e' h (named e e' q) (sound e e' h.2 q)) s m

  park-IsSound :
      (role : String) (prefix : Prefix) (f : SelectedPark → Result RegistryError SelectedPark)
      (r : Registry) {r' : Registry}
      → ((at : Prefix) (p p' : SelectedPark)
          → IsSoundPark parse_addr at p
          → f p ≡ ok p'
          → IsSoundPark parse_addr at p')
      → IsSound r
      → transition role prefix (on_park f) r ≡ ok r'
      → IsSound r'
  park-IsSound role prefix f r sound s m =
      selected-IsSound role prefix (on_park f) r (λ e e' q. on_park_name f e q)
        (λ e e' h q. Restorable.on_park-IsRestorable parse_addr f e (sound e.prefix) h q) s m

  reserve_entry-Holds :
      (role : String) (prefix : Prefix) (a : Reservation) (r : Registry)
      → IsSound r
      → (old : Option SelectedRoute) → lookup (key role prefix) r ≡ old
      → validate_route parse_addr a.desired prefix ≡ ok tt
      → Holds (key role prefix) (reserve_entry role prefix a old)
  reserve_entry-Holds role prefix a r s old q v =
      let held : (e : SelectedRoute) → old ≡ some e → Holds (key role prefix) e =
        λ e t. Entries-lookup Holds (key role prefix) r s.entries (q ∙ t) in
      let name = reserve_entry_name role prefix a old (λ e t. ((held e t).0, (held e t).1)) in
      (
        name.0,
        name.1,
        Restorable.reserve_entry-IsRestorable parse_addr role prefix a old v
            (λ e t. ((held e t).2, (held e t).0, (held e t).1)),
      )

  reserve-IsSound :
      (role : String) (prefix : Prefix) (a : Reservation) (r : Registry) {r' : Registry}
      → IsSound r
      → reserve parse_addr role prefix a r ≡ ok r'
      → IsSound r'
  reserve-IsSound role prefix a r s m =
      let (valid, same) = reserve-eq-ok parse_addr role prefix a r m in
      subst IsSound (sym same) (
        insert-IsSound (key role prefix) _ r
          (reserve_entry-Holds role prefix a r s (lookup (key role prefix) r) refl valid) s)

  reserve_park-IsSound :
      (role : String) (prefix : Prefix) (desired : SelectedParkIdentity) (force : Bool)
      (r : Registry) {r' : Registry}
      → IsSound r
      → reserve_park parse_addr role prefix desired force r ≡ ok r'
      → IsSound r'
  reserve_park-IsSound role prefix desired force r s m =
      let (valid, moved) = reserve_park-eq-ok parse_addr role prefix desired force r m in
      transition-IsSound role prefix _ r
        (λ e e' h q. subst (Holds (key role prefix)) (ok-injective q) (
          h.0,
          h.1,
          Restorable.set_park-IsRestorable parse_addr e _ h.2 (
              Restorable.reserve_park_tx-IsSoundPark parse_addr desired force e.prefix e.park
                (subst (λ p. validate_park parse_addr desired p ≡ ok tt) (sym h.1) valid)
                (Restorable.park_of-IsRestorable parse_addr e h.2)),
        ))
        s moved

  insert_all-IsSound : (m r : Registry) → IsSound m → IsSound r → IsSound (insert_all m r)
  unfolding insert_all
  insert_all-IsSound [] r sm sr = sr
  insert_all-IsSound ((k, e) ∷ m) r sm sr =
      insert_all-IsSound m (insert k e r)
        (record { distinct = sm.distinct.1; entries = sm.entries.1 })
        (insert-IsSound k e r sm.entries.0 sr)

  restore_entries-IsSound :
      (es : List SelectedRoute) (m : Registry) {m' : Registry}
      → IsSound m
      → restore_entries parse_addr es m ≡ ok m'
      → IsSound m'
  unfolding restore_entries
  restore_entries-IsSound [] m s q = subst IsSound (ok-injective q) s
  restore_entries-IsSound (e ∷ es) m s q =
      let (_, valid, more) = restore_entries-eq-ok parse_addr e es m q in
      restore_entries-IsSound es _ (insert-IsSound (key e.role e.prefix) e m (refl, refl, valid) s)
        more

  restore_role-IsSound :
      (role : String) (es : List SelectedRoute) (r : Registry) {r' : Registry}
      → IsSound r
      → restore_role parse_addr role es r ≡ ok r'
      → IsSound r'
  restore_role-IsSound role es r s m =
      let (m', built, same) = restore_role-eq-ok parse_addr role es r m in
      subst IsSound (sym same) (
        insert_all-IsSound m' r
          (restore_entries-IsSound es [] (record { distinct = tt; entries = tt }) built) s)

  remove_role-Entries :
      (role : String) (r : Registry) → Entries Holds r → Entries Holds (remove_role role r)
  unfolding remove_role
  remove_role-Entries role [] h = tt
  remove_role-Entries role ((k, e) ∷ r) h = elim (Bool-cases (k.role == role)) [
    | inl q ↦ rw q (remove_role-Entries role r h.1)
    | inr q ↦ rw q (h.0, remove_role-Entries role r h.1)
  ]

  remove_role-IsSound : (role : String) (r : Registry) → IsSound r → IsSound (remove_role role r)
  remove_role-IsSound role r s = record {
    distinct = remove_role-Distinct role r s.distinct;
    entries = remove_role-Entries role r s.entries;
  }

  -- Every call keeps it.
  pub call-IsSound :
      (c : Call) (r : Registry) {r' : Registry}
      → IsSound r
      → call parse_addr c r ≡ ok r'
      → IsSound r'
  unfolding call mark_applying mark_active mark_retiring begin_repair mark_park_applying
      mark_park_active mark_park_retiring clear_park remove
  call-IsSound (reserves role prefix a) r s m = reserve-IsSound role prefix a r s m
  call-IsSound (marks_applying role prefix) r s m =
      selected-IsSound role prefix mark_applying_entry r (λ e e' q. mark_applying_entry_name e q)
        (λ e e' h q. Restorable.mark_applying_entry-IsRestorable parse_addr e h q) s m
  call-IsSound (marks_retiring role prefix) r s m =
      selected-IsSound role prefix mark_retiring_entry r (λ e e' q. mark_retiring_entry_name e q)
        (λ e e' h q. Restorable.mark_retiring_entry-IsRestorable parse_addr e h q) s m
  call-IsSound (begins_repair role prefix) r s m =
      selected-IsSound role prefix begin_repair_entry r (λ e e' q. begin_repair_entry_name e q)
        (λ e e' h q. Restorable.begin_repair_entry-IsRestorable parse_addr e h q) s m
  call-IsSound (marks_active role prefix observed) r s m =
      selected-IsSound role prefix (mark_active_entry observed) r
        (λ e e' q. mark_active_entry_name observed e q)
        (λ e e' h q. Restorable.mark_active_entry-IsRestorable parse_addr observed e h q) s m
  call-IsSound (reserves_park role prefix desired force) r s m =
      reserve_park-IsSound role prefix desired force r s m
  call-IsSound (marks_park_applying role prefix) r s m =
      park-IsSound role prefix mark_park_applying_tx r
        (λ at p p' h q. Restorable.mark_park_applying_tx-IsSoundPark parse_addr at p h q) s m
  call-IsSound (marks_park_retiring role prefix) r s m =
      park-IsSound role prefix mark_park_retiring_tx r
        (λ at p p' h q. Restorable.mark_park_retiring_tx-IsSoundPark parse_addr at p h q) s m
  call-IsSound (clears_park role prefix) r s m =
      selected-IsSound role prefix clear_park_entry r (λ e e' q. clear_park_entry_name e q)
        (λ e e' h q. Restorable.clear_park_entry-IsRestorable parse_addr e h q) s m
  call-IsSound (removes role prefix) r s m = subst IsSound (ok-injective m) (record {
    distinct = Distinct-erase (key role prefix) r s.distinct;
    entries = Entries-erase Holds (key role prefix) r s.entries;
  })
  call-IsSound (marks_park_active role prefix observed) r s m =
      park-IsSound role prefix (mark_park_active_tx observed) r
        (λ at p p' h q. Restorable.mark_park_active_tx-IsSoundPark parse_addr observed at p h q) s m
  call-IsSound (restores role entries) r s m = restore_role-IsSound role entries r s m
  call-IsSound (removes_role role) r s m =
      subst IsSound (ok-injective m) (remove_role-IsSound role r s)

  after-IsSound : (c : Call) (r : Registry) → IsSound r → IsSound (after r (call parse_addr c r))
  after-IsSound c r s = elim (Result-cases (call parse_addr c r)) [
    | inl (r', q) ↦ rw q (call-IsSound c r s q)
    | inr (x, q) ↦ rw q s
  ]

  run_calls-IsSound :
      (cs : List Call) (r : Registry) → IsSound r → IsSound (run_calls parse_addr cs r)
  unfolding run_calls
  run_calls-IsSound [] r s = s
  run_calls-IsSound (c ∷ cs) r s = run_calls-IsSound cs _ (after-IsSound c r s)

  -- Whatever calls are made on an empty registry, refused ones included, each record stands under its
  -- own role and prefix, no two stand under one key, and RestoreRole would accept every one of them.
  pub history-IsSound : (cs : List Call) → IsSound (run_calls parse_addr cs new_registry)
  history-IsSound cs = run_calls-IsSound cs [] (record { distinct = tt; entries = tt })

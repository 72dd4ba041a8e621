-- ===== src/Routing/Restore/Inversion.antt =====
-- What a restore that succeeds has checked and built.
use kikimora.Prelude.{String, ◌≡◌, Option, none, List, [], ◌∷◌, inl, inr, arith, ok, Result-cases}
use kikimora.Prelude.Map.{lookup, insert}
use kikimora.Netip.{Addr}
use kikimora.Routing.Record.{SelectedRoute, key_eq}
use kikimora.Routing.Registry.{Registry, key}
use kikimora.Routing.Restore.{restorable, restore_entries, insert_all, restore_role}

module _ (parse_addr : String → Option Addr) where
  pub restore_entries-eq-ok :
      (e : SelectedRoute) (es : List SelectedRoute) (m : Registry) {m' : Registry}
      → restore_entries parse_addr (e ∷ es) m ≡ ok m'
      → (lookup (key e.role e.prefix) m ≡ none)
        × (restorable parse_addr e ≡ ok tt)
        × (restore_entries parse_addr es (insert (key e.role e.prefix) e m) ≡ ok m')
  unfolding restore_entries
  restore_entries-eq-ok e es m q = ground arith

  pub restore_role-eq-ok :
      (role : String) (es : List SelectedRoute) (r : Registry) {r' : Registry}
      → restore_role parse_addr role es r ≡ ok r'
      → (m : Registry) × (restore_entries parse_addr es [] ≡ ok m) × (r' ≡ insert_all m r)
  restore_role-eq-ok role es r q = elim (Result-cases (restore_entries parse_addr es [])) [
    | inl (m, built) ↦ (m, built, unfold restore_role in ground arith)
    | inr (x, failed) ↦ unfold restore_role in ground arith
  ]

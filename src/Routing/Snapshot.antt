-- ===== src/Routing/Snapshot.antt =====
-- toad/internal/routing/selected_registry.go: Snapshot, SnapshotFamily and their order. The text form
-- of a prefix (net/netip) is the parameter `show_prefix`.
use Prim.Native.Nat.{Ordering}
use Prim.Native.String.{compare}
use kikimora.Prelude.{
  ℕ, String, Bool, true, false, ◌&&◌, List, [], ◌∷◌, if◌then◌else◌, ◌==◌, string_eq, nat_eq,
}
use kikimora.Prelude.Sort.{sort}
use kikimora.Netip.{Prefix}
use kikimora.Routing.Identity.{prefix_family}
use kikimora.Routing.Record.{SelectedRoute}
use kikimora.Routing.Registry.{Registry}

-- s < t
abbrev string_ltb : String → String → Bool
string_ltb s t = elim (compare s t) [ Ordering.lt ↦ true | _ ↦ false ]

-- The entries of the map that are kept.
unfoldable pub kept : (SelectedRoute → Bool) → Registry → List SelectedRoute
kept keep [] = []
kept keep ((k, e) ∷ r) = let rest = kept keep r in if keep e then e ∷ rest else rest

module _ (show_prefix : Prefix → String) where
  abbrev pub snapshot_less : SelectedRoute → SelectedRoute → Bool
  snapshot_less a b =
      if show_prefix a.prefix == show_prefix b.prefix
      then string_ltb a.role b.role
      else string_ltb (show_prefix a.prefix) (show_prefix b.prefix)

  unfoldable pub snapshot_locked : (SelectedRoute → Bool) → Registry → List SelectedRoute
  unfolding kept sort
  snapshot_locked keep r = sort snapshot_less (kept keep r)

  unfoldable pub snapshot : String → Registry → List SelectedRoute
  unfolding snapshot_locked
  snapshot role = snapshot_locked (λ e. e.role == role)

  unfoldable pub snapshot_family : String → ℕ → Registry → List SelectedRoute
  unfolding snapshot_locked prefix_family
  snapshot_family role family =
      snapshot_locked (λ e. e.role == role && prefix_family e.prefix == family)

-- ===== src/Control/Entries.antt =====
-- toad/internal/control/selected_routes.go: registryEntry finds what the registry's map holds.
use kikimora.Prelude.{
  String, ◌≡◌, refl, ◌∙◌, some, List, [], ◌∷◌, ◌==◌, arith, string_eq, eq_iff, All, Bool-cases, inl,
  inr, Result, ok,
}
use kikimora.Prelude.Map.{lookup, lookup-insert}
use kikimora.Netip.{Prefix, prefix_eq, prefix_beq_iff}
use kikimora.Routing.Record.{SelectedRoute, key_eq, key_beq_iff}
use kikimora.Routing.Machine.{RegistryError}
use kikimora.Routing.Registry.{Registry, key, transition}
use kikimora.Routing.Registry.Transition.{transition-eq-ok}
use kikimora.Routing.Snapshot.{snapshot_less, kept, snapshot}
use kikimora.Routing.History.Named.{named, key_of, All-sort}
use kikimora.Routing.History.Sound.{IsSound}
use kikimora.Routing.History.Roundtrip.{lookup-snapshot}
use kikimora.Control.World.{find_prefix, Env, World, registry_snapshot, registry_entry}

abbrev OfRole : String → SelectedRoute → Type 0
OfRole role e = e.role ≡ role

find_prefix-lookup :
    (role : String) (prefix : Prefix) (es : List SelectedRoute)
    → All (OfRole role) es
    → find_prefix prefix es ≡ lookup (key role prefix) (named es)
unfolding find_prefix lookup
find_prefix-lookup role prefix [] h = refl
find_prefix-lookup role prefix (e ∷ es) h = ground (
  arith,
  h.0,
  find_prefix-lookup role prefix es h.1,
  key_beq_iff (key_of e) (key role prefix),
  prefix_beq_iff e.prefix prefix,
)

kept-OfRole : (role : String) (r : Registry) → All (OfRole role) (kept (λ e. e.role == role) r)
unfolding kept
kept-OfRole role [] = tt
kept-OfRole role ((k, e) ∷ r) = elim (Bool-cases (e.role == role)) [
  | inl q ↦ rw q ((eq_iff e.role role).0 q, kept-OfRole role r)
  | inr q ↦ rw q (kept-OfRole role r)
]

snapshot-OfRole :
    (show_prefix : Prefix → String) (role : String) (r : Registry)
    → All (OfRole role) (snapshot show_prefix role r)
unfolding snapshot
snapshot-OfRole show_prefix role r =
    All-sort (snapshot_less show_prefix) (OfRole role) _ (kept-OfRole role r)

module _ (env : Env) where
  pub registry_entry-lookup :
      (role : String) (prefix : Prefix) (w : World)
      → IsSound env.parse_addr w.registry
      → registry_entry env role prefix w ≡ lookup (key role prefix) w.registry
  unfolding registry_entry registry_snapshot
  registry_entry-lookup role prefix w s =
      find_prefix-lookup role prefix _ (snapshot-OfRole env.show_prefix role w.registry)
      ∙ lookup-snapshot env.parse_addr env.show_prefix role w.registry (key role prefix) s
      ∙ ground (arith, eq_iff role role)

  -- After a transition that succeeds, the entry is what the transition made of the old one.
  pub registry_entry-transition :
      (role : String) (prefix : Prefix) (f : SelectedRoute → Result RegistryError SelectedRoute)
      (w w' : World)
      → IsSound env.parse_addr w.registry
      → IsSound env.parse_addr w'.registry
      → transition role prefix f w.registry ≡ ok w'.registry
      → (e e' : SelectedRoute) × (registry_entry env role prefix w ≡ some e)
        × (f e ≡ ok e')
        × (registry_entry env role prefix w' ≡ some e')
  registry_entry-transition role prefix f w w' s s' m =
      let (e, e', found, moved, same, _) = transition-eq-ok role prefix f w.registry m in
      (
        e,
        e',
        registry_entry-lookup role prefix w s ∙ found,
        moved,
        registry_entry-lookup role prefix w' s'
            ∙ rw (same, lookup-insert (key role prefix) (key role prefix) e' w.registry)
                (ground (arith, key_beq_iff (key role prefix) (key role prefix))),
      )

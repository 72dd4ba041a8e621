-- ===== src/Routing/History/Roundtrip.antt =====
-- A registry's records come back from their checkpoint: RestoreRole of what Snapshot returned.
use mathlib.Core.List.{append_assoc, append-nil}
use kikimora.Prelude.{
  String, ◌≡◌, refl, ◌≢◌, ◌∙◌, subst, false, Option, none, some, List, [], ◌∷◌, ◌++◌, inl, inr,
  arith, if◌then◌else◌, Bool-cases, ◌==◌, string_eq, All, ok, eq_iff,
}
use kikimora.Prelude.Map.{
  Entries-map, lookup, insert, Fresh, Distinct, Entries, lookup-insert, lookup-Fresh, insert-Fresh,
}
use kikimora.Netip.{Addr, Prefix}
use kikimora.Routing.Record.{SelectedRoute, SelectedRouteKey, key_eq, key_beq_iff}
use kikimora.Routing.Registry.{Registry}
use kikimora.Routing.Restore.{restore_entries, insert_all, restore_role}
use kikimora.Routing.Machine.Restorable.{IsRestorable}
use kikimora.Routing.Snapshot.{snapshot_less, snapshot}
use kikimora.Routing.History.Named.{
  Own, key_of, named, Distinct-sort, lookup-sort, All-sort, Distinct-kept, lookup-kept, All-kept,
}
use kikimora.Routing.History.Sound.{Holds, IsSound}

lookup_new :
    (k : SelectedRouteKey) (e : SelectedRoute) (m n : Registry)
    → Distinct (m ++ (k, e) ∷ n)
    → lookup k m ≡ none
unfolding lookup
lookup_new k e [] n d = refl
lookup_new k e ((j, w) ∷ m) n d =
    ground
      (arith, fresh_after j k e m n d.0, key_beq_iff j k, key_beq_iff k j, lookup_new k e m n d.1)
  where
    fresh_after :
        (j k : SelectedRouteKey) (e : SelectedRoute) (m n : Registry)
        → Fresh j (m ++ (k, e) ∷ n)
        → (k == j) ≡ false
    fresh_after j k e [] n f = f.0
    fresh_after j k e (x ∷ m) n f = fresh_after j k e m n f.1

module _ (parse_addr : String → Option Addr) where
  restore_entries_lem :
      (es : List SelectedRoute) (m : Registry)
      → All (IsRestorable parse_addr) es
      → Distinct (m ++ named es)
      → restore_entries parse_addr es m ≡ ok (m ++ named es)
  unfolding restore_entries
  restore_entries_lem [] m h d = rw append-nil
  restore_entries_lem (e ∷ es) m h d =
      let new = lookup_new (key_of e) e m (named es) d in
      rw (new, h.0, insert-Fresh (key_of e) e m new)
        (restore_entries_lem es (m ++ (key_of e, e) ∷ []) h.1 (rw append_assoc d) ∙ rw append_assoc)

abbrev pub or_else : Option SelectedRoute → Option SelectedRoute → Option SelectedRoute
or_else none b = b
or_else (some a) b = some a

or_else_first :
    (k j : SelectedRouteKey) (e : SelectedRoute) (m r : Registry)
    → lookup j m ≡ none
    → or_else (lookup k m) (if j == k then some e else lookup k r)
      ≡ or_else (lookup k ((j, e) ∷ m)) (lookup k r)
unfolding lookup
or_else_first k j e m r f = elim (Bool-cases (j == k)) [
  | inl q ↦
      let f' : lookup k m ≡ none = subst (λ i. lookup i m ≡ none) ((key_beq_iff j k).0 q) f in
      rw (q, f')
  | inr q ↦ rw q
]

lookup-insert_all :
    (k : SelectedRouteKey) (m r : Registry)
    → Distinct m
    → lookup k (insert_all m r) ≡ or_else (lookup k m) (lookup k r)
unfolding insert_all
lookup-insert_all k [] r d = unfold lookup in refl
lookup-insert_all k ((j, e) ∷ m) r d =
    lookup-insert_all k m (insert j e r) d.1
    ∙ rw (lookup-insert j k e r) (or_else_first k j e m r (lookup-Fresh j m d.0))

module _ (parse_addr : String → Option Addr) (show_prefix : Prefix → String) where
  own : (r : Registry) → IsSound parse_addr r → Entries Own r
  own r s = Entries-map (Holds parse_addr) Own r (λ k e h. (h.0, h.1)) s.entries

  snapshot-Distinct :
      (role : String) (r : Registry)
      → IsSound parse_addr r
      → Distinct (named (snapshot show_prefix role r))
  unfolding snapshot
  snapshot-Distinct role r s =
      Distinct-sort (snapshot_less show_prefix) _ (Distinct-kept role r (own r s) s.distinct)

  snapshot-IsRestorable :
      (role : String) (r : Registry)
      → IsSound parse_addr r
      → All (IsRestorable parse_addr) (snapshot show_prefix role r)
  unfolding snapshot
  snapshot-IsRestorable role r s = All-sort (snapshot_less show_prefix) _ _ (
      All-kept role _ r (
        Entries-map (Holds parse_addr) (λ _ e. IsRestorable parse_addr e) r (λ k e h. h.2)
          s.entries))

  pub lookup-snapshot :
      (role : String) (r : Registry) (k : SelectedRouteKey)
      → IsSound parse_addr r
      → lookup k (named (snapshot show_prefix role r))
        ≡ (if k.role == role then lookup k r else none)
  unfolding snapshot
  lookup-snapshot role r k s =
      lookup-sort (snapshot_less show_prefix) k _ (Distinct-kept role r (own r s) s.distinct)
      ∙ lookup-kept role k r (own r s)

  restore_role_lem :
      (role : String) (es : List SelectedRoute) (q : Registry)
      → role ≢ ""
      → All (IsRestorable parse_addr) es
      → Distinct (named es)
      → restore_role parse_addr role es q ≡ ok (insert_all (named es) q)
  unfolding restore_role
  restore_role_lem role es q n h d =
      ground (arith, eq_iff role "", restore_entries_lem parse_addr es [] h d)

  -- Writing a role's snapshot as the checkpoint and restoring it into any registry succeeds, and gives
  -- back every record of the role exactly; the records of other roles stay as they are there.
  pub restore_role-snapshot :
      (role : String) (r q : Registry)
      → role ≢ ""
      → IsSound parse_addr r
      → (r' : Registry) × (restore_role parse_addr role (snapshot show_prefix role r) q ≡ ok r')
        × ((k : SelectedRouteKey)
            → lookup k r'
              ≡ (if k.role == role then or_else (lookup k r) (lookup k q) else lookup k q))
  restore_role-snapshot role r q n s = (
    insert_all (named (snapshot show_prefix role r)) q,
    restore_role_lem role _ q n (snapshot-IsRestorable role r s) (snapshot-Distinct role r s),
    λ k.
        lookup-insert_all k (named (snapshot show_prefix role r)) q (snapshot-Distinct role r s)
        ∙ ground (arith, lookup-snapshot role r k s),
  )

-- ===== src/Control/WriteAhead/Ahead/Restored.antt =====
-- toad/internal/control/selected_routes.go: Restore asks the kernel ahead of the file.
use kikimora.Prelude.{
  ℕ, String, ◌≡◌, ◌≢◌, refl, ◌∙◌, ap, sym, subst, true, Option, none, some, arith, Result, ok, err,
  string_eq, eq_iff, is_ok,
}
use kikimora.Prelude.Map.{lookup, insert, lookup-insert}
use kikimora.Netip.{Addr, Prefix}
use kikimora.Routing.Identity.{SelectedRouteIdentity, validate_route, route_identity_beq_iff}
use kikimora.Routing.Record.{
  SelectedRouteState, applying, SelectedRoute, SelectedRouteKey, key_eq, key_beq_iff,
}
use kikimora.Routing.Registry.{Registry, key, reserve}
use kikimora.Routing.Registry.Transition.{reserve-eq-ok}
use kikimora.Routing.History.{call, reserves}
use kikimora.Routing.History.Sound.{IsSound, call-IsSound}
use kikimora.Routing.Machine.{RegistryError, Reservation, reserve_entry}
use kikimora.Control.World.{
  Env, World, registered, registering, answered, ask, role_state, registry_snapshot,
  normalize_selected, registry_entry,
}
use kikimora.Control.Transactions.{registered_entry, reread, reconcile_in, reconcile_record}
use kikimora.Control.Entries.{registry_entry-lookup}
use kikimora.Control.Restore.{Target, moved_to, normalize_route, restore_entry}
use kikimora.Control.WriteAhead.{durable, Held}
use kikimora.Control.WriteAhead.Rules.{
  Post, succeeds, find_prefix-prefix, and_then-Post, passed-Post,
}
use kikimora.Control.WriteAhead.Ahead.{
  Ahead, drive_transaction-Ahead, Post-always, some_injective, Held-unique,
}

-- An entry that is Applying and reserved anew keeps its state and takes the new identity.
reserve_entry-applying :
    (role : String) (prefix : Prefix) (a : Reservation) (e : SelectedRoute)
    → e.state ≡ applying
    → let e' = reserve_entry role prefix a (some e) in
      (e'.state ≡ applying) × (e'.desired ≡ a.desired)
unfolding reserve_entry
reserve_entry-applying role prefix a e s =
    ground (arith, route_identity_beq_iff e.desired a.desired)

reserve-eq-err :
    (parse_addr : String → Option Addr) (role : String) (prefix : Prefix) (a : Reservation)
    (r : Registry)
    → role ≢ ""
    → validate_route parse_addr a.desired prefix ≡ ok tt
    → is_ok (reserve parse_addr role prefix a r) ≡ true
unfolding reserve
reserve-eq-err parse_addr role prefix a r n v = ground (arith, eq_iff role "")

lookup-insert_self :
    (k : SelectedRouteKey) (f : Option SelectedRoute → SelectedRoute) (m r : Registry)
    (e : SelectedRoute)
    → r ≡ insert k (f (lookup k m)) m
    → lookup k m ≡ some e
    → lookup k r ≡ some (f (some e))
lookup-insert_self k f m r e same found =
    ap (lookup k) same
    ∙ lookup-insert k k (f (lookup k m)) m
    ∙ ground (arith, key_beq_iff k k, ap f found)

module _ (env : Env) (role : String) (t : Target) (e : SelectedRoute)
    (identity : SelectedRouteIdentity) where
  abbrev Before : World → Type 0
  Before w =
      IsSound env.parse_addr w.registry
      × (registry_entry env role e.prefix w ≡ some e)
      × Held role e.prefix e w.history

  normalize_answered :
      (o : Option String) (w : World)
      → o ≡ none
      → Before w
      → Post (λ _. Before) Ahead (answered env (normalize_selected role e.prefix t.if_index) o w)
  unfolding answered durable registry_entry registry_snapshot
  normalize_answered none w n b = succeeds b
  normalize_answered (some x) w n b = absurd (cc)

  -- The entry after the reservation.
  abbrev Moved : World → Type 0
  Moved w =
      (e' : SelectedRoute) × (registry_entry env role e.prefix w ≡ some e')
      × (e'.state ≡ applying)
      × (e'.desired ≡ identity)
      × Held role e.prefix e w.history

  moved_not-Held :
      (w : World) (e' : SelectedRoute)
      → identity ≢ e.desired
      → registry_entry env role e.prefix w ≡ some e'
      → e'.desired ≡ identity
      → Held role e.prefix e w.history
      → ¬ (Held role e'.prefix e' w.history)
  unfolding registry_entry
  moved_not-Held w e' n at d held h = n (
      sym d
      ∙ ap (λ (x : SelectedRoute). x.desired)
          (Held-unique role e.prefix e' e w.history
            (subst (λ (p : Prefix). Held role p e' w.history) (find_prefix-prefix e.prefix _ e' at)
              h)
            held))

  reread-Moved :
      (found : Option SelectedRoute) (w : World)
      → registry_entry env role e.prefix w ≡ found
      → identity ≢ e.desired
      → Moved w
      → Post
          (λ x w'. (x.state ≡ applying) × ¬ (Held role x.prefix x w'.history))
          Ahead
          (registered_entry env found w)
  unfolding registered_entry
  reread-Moved none w f n (e', at, s, d, held) = absurd (cc (f, at))
  reread-Moved (some x) w f n (e', at, s, d, held) =
      let same : e' ≡ x = some_injective (sym at ∙ f) in
      succeeds (
        subst (λ (y : SelectedRoute). y.state ≡ applying) same s,
        moved_not-Held w x n f (subst (λ (y : SelectedRoute). y.desired ≡ identity) same d) held,
      )

  applying-Ahead :
      (s : SelectedRouteState) (prefix : Prefix) (x : SelectedRoute) (w : World)
      → s ≡ applying
      → x.state ≡ applying
      → ¬ (Held role x.prefix x w.history)
      → Post (λ _. Ahead) Ahead (reconcile_in env s role prefix x w)
  unfolding reconcile_in
  applying-Ahead s prefix x w q a b =
      subst
        (λ (s : SelectedRouteState). Post (λ _. Ahead) Ahead (reconcile_in env s role prefix x w))
        (sym q) (drive_transaction-Ahead env role x w a b)

  Moved-Ahead :
      (w : World)
      → env.routes_resolved ≡ true
      → identity ≢ e.desired
      → Moved w
      → Post (λ _. Ahead) Ahead (reconcile_record env role e.prefix w)
  unfolding reconcile_record reread
  Moved-Ahead w resolved n m =
      and_then-Post _ (passed-Post env.routes_resolved _ w resolved m) λ _ w m.
        and_then-Post _ (reread-Moved (registry_entry env role e.prefix w) w refl n m)
          λ x w1 (s, b). applying-Ahead x.state e.prefix x w1 s s b

  reserved-Moved :
      (generation : ℕ) (r : Result RegistryError Registry) (w : World)
      → reserve env.parse_addr role e.prefix (moved_to t identity generation e) w.registry ≡ r
      → e.state ≡ applying
      → role ≢ ""
      → validate_route env.parse_addr identity e.prefix ≡ ok tt
      → Before w
      → Post (λ _. Moved) Ahead (registered r w)
  unfolding registered
  reserved-Moved generation (err x) w m s role_named valid b = absurd (
      cc (
        m,
        reserve-eq-err env.parse_addr role e.prefix (moved_to t identity generation e) w.registry
            role_named valid,
      ))
  reserved-Moved generation (ok r) w m s role_named valid b =
      let a : Reservation = moved_to t identity generation e in
      let (_, same) = reserve-eq-ok env.parse_addr role e.prefix a w.registry m in
      let (still, takes) = reserve_entry-applying role e.prefix a e s in
      succeeds (
        reserve_entry role e.prefix a (some e),
        registry_entry-lookup env role e.prefix (record w { registry = r })
              (call-IsSound env.parse_addr (reserves role e.prefix a) w.registry b.0
                (reserves_call role e.prefix a w m))
            ∙ lookup-insert_self (key role e.prefix) (reserve_entry role e.prefix a) w.registry r e
                same (sym (registry_entry-lookup env role e.prefix w b.0) ∙ b.1),
        still,
        takes,
        b.2,
      )
    where
      reserves_call :
          (role : String) (prefix : Prefix) (a : Reservation) (w : World)
          → reserve env.parse_addr role prefix a w.registry ≡ ok r
          → call env.parse_addr (reserves role prefix a) w.registry ≡ ok r
      reserves_call role prefix a w m = unfold call in m

  normalize_route-Before :
      (w : World)
      → env.refuses (normalize_selected role e.prefix t.if_index) w.history ≡ none
      → env.normalized (normalize_selected role e.prefix t.if_index) w.history ≡ identity
      → Before w
      → Post
          (λ a w'. (a ≡ identity) × Before w')
          Ahead
          (normalize_route env role e.prefix t.if_index w)
  unfolding normalize_route ask
  normalize_route-Before w n same b =
      and_then-Post _ (normalize_answered _ w n b) λ _ w1 b1. succeeds (same, b1)

  role_state-Before : (w : World) → Before w → Post (λ _. Before) Ahead (role_state role w)
  unfolding role_state registry_entry registry_snapshot
  role_state-Before w b = succeeds b

  reserve-Moved :
      (a : SelectedRouteIdentity) (generation : ℕ) (w : World)
      → a ≡ identity
      → e.state ≡ applying
      → role ≢ ""
      → validate_route env.parse_addr identity e.prefix ≡ ok tt
      → Before w
      → Post
          (λ _. Moved)
          Ahead
          (registering (reserve env.parse_addr role e.prefix (moved_to t a generation e)) w)
  unfolding registering
  reserve-Moved a generation w q s named valid b =
      subst
        (λ (a : SelectedRouteIdentity).
          Post (λ _. Moved) Ahead
            (registered
              (reserve env.parse_addr role e.prefix (moved_to t a generation e) w.registry) w))
        (sym q) (reserved-Moved generation _ w refl s named valid b)

-- Where the platform has a writer, restoring a sound registry's record that the file holds as Applying,
-- when the platform normalizes the present interface to a valid identity other than the record's, asks
-- the kernel for a route that the file does not hold, whatever the outside answers after that.
pub restore_entry-Ahead :
    (env : Env) (role : String) (t : Target) (e : SelectedRoute) (w : World)
    → env.routes_resolved ≡ true
    → IsSound env.parse_addr w.registry
    → registry_entry env role e.prefix w ≡ some e
    → Held role e.prefix e w.history
    → e.state ≡ applying
    → role ≢ ""
    → env.refuses (normalize_selected role e.prefix t.if_index) w.history ≡ none
    → env.normalized (normalize_selected role e.prefix t.if_index) w.history ≢ e.desired
    → validate_route env.parse_addr
        (env.normalized (normalize_selected role e.prefix t.if_index) w.history)
        e.prefix
      ≡ ok tt
    → Ahead (restore_entry env role t e w).1
unfolding restore_entry
restore_entry-Ahead env role t e w resolved sound at held s named answers n valid =
    let i = env.normalized (normalize_selected role e.prefix t.if_index) w.history in
    Post-always (
      and_then-Post _ (normalize_route-Before env role t e i w answers refl (sound, at, held))
        λ a w1 (q, b1). and_then-Post _ (role_state-Before env role t e i w1 b1) λ x w2 b2.
          and_then-Post _ (reserve-Moved env role t e i a x.route_generation w2 q s named valid b2)
            λ _ w3 m. Moved-Ahead env role t e i w3 resolved n m)

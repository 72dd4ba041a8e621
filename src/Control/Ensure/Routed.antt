-- ===== src/Control/Ensure/Routed.antt =====
-- toad/internal/control/selected_routes.go: what an intent that Ensure grants has got.
use kikimora.Prelude.{
  ℤ, String, ◌≡◌, refl, sym, subst, Bool, true, false, not, ◌&&◌, Option, none, some, List, [], ◌∷◌,
  ◌==◌, string_eq, arith, any, option_beq, Result, ok, err, Bool-cases, inl, inr,
}
use kikimora.Netip.{Prefix, prefix_eq, prefix_beq_iff}
use kikimora.Routing.Identity.{SelectedRouteIdentity, route_identity_eq, route_identity_beq_iff}
use kikimora.Routing.Record.{SelectedRouteSource, active, SelectedRoute}
use kikimora.Routing.Machine.{is_active}
use kikimora.Control.World.{
  Env, World, RoleFlags, Denial, Failure, normalize_selected, role_state, has_dir, find_prefix,
  registry_snapshot, registry_entry,
}
use kikimora.Control.Restore.{normalize_route}
use kikimora.Control.Transactions.{apply_reserved}
use kikimora.Control.WriteAhead.Rules.{
  Post, succeeds, fails, and_then-Post, guard-Post, Post-weaken, Knows, ask-Knows,
  find_prefix-prefix, Verified,
}
use kikimora.Control.WriteAhead.Selected.{apply_reserved-Verified}
use kikimora.Control.Ensure.{
  LeshyRouteIntent, LeshyRouteResult, Authority, Admitted, Verdict, canonical_intent_prefix,
  is_verified_entry, fast_path, apply_unless, apply_canonical, reservation, settled, ensure_checked,
  ensure_canonical, ensure_zone, ensure,
}
use kikimora.Control.Ensure.Admission.{check_role-ok}

-- The record is Active and owns exactly what it desires.
abbrev pub is_exact : Prefix → SelectedRoute → Bool
is_exact p e = e.prefix == p && (is_active e.state && option_beq e.owned (some e.desired))

any-weaken :
    (f g : SelectedRoute → Bool) (es : List SelectedRoute)
    → ((e : SelectedRoute) → f e ≡ true → g e ≡ true)
    → any f es ≡ true
    → any g es ≡ true
any-weaken f g [] k h = h
any-weaken f g (e ∷ es) k h = elim (Bool-cases (f e)) [
  | inl q ↦ ground (arith, k e q)
  | inr q ↦ ground (arith, any-weaken f g es k (rw q at h))
]

find_prefix-any :
    (p : Prefix) (f : SelectedRoute → Bool) (es : List SelectedRoute) (e : SelectedRoute)
    → find_prefix p es ≡ some e
    → f e ≡ true
    → any f es ≡ true
unfolding find_prefix
find_prefix-any p f [] e h q = absurd (cc)
find_prefix-any p f (x ∷ es) e h q = elim (Bool-cases (x.prefix == p)) [
  | inl t ↦ ground arith
  | inr t ↦ ground (arith, find_prefix-any p f es e (rw t at h) q)
]

exact :
    (p : Prefix) (e : SelectedRoute)
    → e.state ≡ active
    → e.owned ≡ some e.desired
    → e.prefix ≡ p
    → is_exact p e ≡ true
exact p e s o q =
    rw (s, o, (prefix_beq_iff e.prefix p).1 q) ((route_identity_beq_iff e.desired e.desired).1 refl)

verified-exact :
    (zone : String) (identity : SelectedRouteIdentity) (t : Admitted) (e : SelectedRoute)
    → is_verified_entry zone identity t e ≡ true
    → is_exact t.prefix e ≡ true
verified-exact zone identity t e h = ground arith

module _ (env : Env) where
  abbrev pub Routed : String → Prefix → World → Type 0
  Routed role p w = any (is_exact p) (registry_snapshot env role w) ≡ true

  module _ (role : String) (dir : has_dir env role ≡ true) where
    abbrev Granted : Prefix → World → Type 0
    Granted p w = Routed role p w × Knows env w

    Verified-Granted : (p : Prefix) (w : World) → Verified env role dir p w → Granted p w
    unfolding registry_entry
    Verified-Granted p w (e, at, s, o) = (
      find_prefix-any p (is_exact p) (registry_snapshot env role w) e at.1
          (exact p e s o (find_prefix-prefix p _ e at.1)),
      at.0.0,
    )

    normalize-Knows :
        (p : Prefix) (i : ℤ) (w : World)
        → Knows env w
        → Post (λ _. Knows env) (Knows env) (normalize_route env role p i w)
    unfolding normalize_route
    normalize-Knows p i w k =
        and_then-Post _ (ask-Knows env role dir (normalize_selected role p i) w tt k)
          λ _ w1 k1. succeeds k1

    role_state-Knows :
        (w : World) → Knows env w → Post (λ _. Knows env) (Knows env) (role_state role w)
    unfolding role_state
    role_state-Knows w k = succeeds k

    module _ (a : Authority) (zone : String) where
      apply_unless-Granted :
          (b : Bool) (identity : SelectedRouteIdentity) (t : Admitted) (w : World)
          → t.role ≡ role
          → (b ≡ true → Routed role t.prefix w)
          → Knows env w
          → Post (λ _. Granted t.prefix) (Knows env) (apply_unless env a b zone identity t w)
      unfolding apply_unless
      apply_unless-Granted true identity t w r fast k = succeeds (fast refl, k)
      apply_unless-Granted false identity t w r fast k =
          subst
            (λ (x : String).
              Post (λ _. Granted t.prefix) (Knows env)
                (apply_reserved env x t.prefix (reservation zone identity t) t.generation w))
            (sym r)
            (Post-weaken (λ _ w1 v. Verified-Granted t.prefix w1 v)
              (apply_reserved-Verified env role dir t.prefix (reservation zone identity t)
                t.generation w k))

      fast_path-Routed :
          (identity : SelectedRouteIdentity) (t : Admitted) (s : RoleFlags) (w : World)
          → t.role ≡ role
          → fast_path env a zone identity t s w ≡ true
          → Routed role t.prefix w
      unfolding fast_path
      fast_path-Routed identity t s w r h =
          any-weaken (is_verified_entry zone identity t) (is_exact t.prefix) _
            (verified-exact zone identity t)
            (subst
              (λ (x : String).
                any (is_verified_entry zone identity t) (registry_snapshot env x w) ≡ true)
              r (ground arith))

      apply_canonical-Granted :
          (t : Admitted) (w : World)
          → t.role ≡ role
          → Knows env w
          → Post (λ _. Granted t.prefix) (Knows env) (apply_canonical env a zone t w)
      unfolding apply_canonical
      apply_canonical-Granted t w r k =
          and_then-Post _ (guard-Post env.routes_resolved _ w k k) λ _ w1 k1.
            and_then-Post _ (normalized t w1 r k1) λ identity w2 k2.
              and_then-Post _ (read t w2 r k2) λ s w3 k3.
                and_then-Post _ (tested identity t s w3 r k3)
                  λ b w4 (f, k4). apply_unless-Granted b identity t w4 r f k4
        where
          normalized :
              (t : Admitted) (w : World)
              → t.role ≡ role
              → Knows env w
              → Post (λ _. Knows env) (Knows env) (normalize_route env t.role t.prefix t.if_index w)
          normalized t w r k = rw r (normalize-Knows t.prefix t.if_index w k)

          read :
              (t : Admitted) (w : World)
              → t.role ≡ role
              → Knows env w
              → Post (λ _. Knows env) (Knows env) (role_state t.role w)
          read t w r k = rw r (role_state-Knows w k)

          tested :
              (identity : SelectedRouteIdentity) (t : Admitted) (s : RoleFlags) (w : World)
              → t.role ≡ role
              → Knows env w
              → Post
                  (λ b w'. (b ≡ true → Routed role t.prefix w') × Knows env w')
                  (Knows env)
                  (ok (fast_path env a zone identity t s w), w)
          tested identity t s w r k = succeeds (fast_path-Routed identity t s w r, k)

module _ (env : Env) (a : Authority) (dirs : (role : String) → has_dir env role ≡ true)
    (i : LeshyRouteIntent) where
  -- The destination of the intent is routed.
  abbrev pub Answered : World → Type 0
  Answered w =
      (role : String) × (p : Prefix) × (source : SelectedRouteSource) × (a.zone_roles i.zone
        ≡ role ∷ [])
      × (canonical_intent_prefix a i ≡ some (p, source))
      × Routed env role p w

  abbrev Grants : Verdict → Type 0
  Grants v = (v.1 ≡ none → Answered v.2) × Knows env v.2

  settled-Grants :
      (role : String) (p : Prefix) (source : SelectedRouteSource) (result : LeshyRouteResult)
      (r : Result Failure Bool × World)
      → a.zone_roles i.zone ≡ role ∷ []
      → canonical_intent_prefix a i ≡ some (p, source)
      → Post (λ _. Granted env role (dirs role) p) (Knows env) r
      → Grants (settled env a result r)
  unfolding settled
  settled-Grants role p source result _ z c (succeeds g) =
      ((λ _. (role, p, source, z, c, g.0)), g.1)
  settled-Grants role p source result _ z c (fails k) = ((λ n. absurd (cc)), k)

  checked-Grants :
      (role : String) (p : Prefix) (source : SelectedRouteSource) (result : LeshyRouteResult)
      (c : Result Denial Admitted) (w : World)
      → a.zone_roles i.zone ≡ role ∷ []
      → canonical_intent_prefix a i ≡ some (p, source)
      → ((t : Admitted) → c ≡ ok t → (t.role ≡ role) × (t.prefix ≡ p))
      → Knows env w
      → Grants (ensure_checked env a i result c w)
  unfolding ensure_checked
  checked-Grants role p source result (err d) w z q same k = ((λ n. absurd (cc)), k)
  checked-Grants role p source result (ok t) w z q same k =
      let (tr, tp) = same t refl in
      settled-Grants role p source _ _ z q (
        subst
          (λ (x : Prefix).
            Post (λ _. Granted env role (dirs role) x) (Knows env)
              (apply_canonical env a i.zone t w))
          tp (apply_canonical-Granted env role (dirs role) a i.zone t w tr k))

  canonical-Grants :
      (role : String) (o : Option (Prefix × SelectedRouteSource)) (w : World)
      → a.zone_roles i.zone ≡ role ∷ []
      → canonical_intent_prefix a i ≡ o
      → Knows env w
      → Grants (ensure_canonical env a i role o w)
  unfolding ensure_canonical role_state
  canonical-Grants role none w z q k = ((λ n. absurd (cc)), k)
  canonical-Grants role (some (p, source)) w z q k =
      elim (Bool-cases (a.managed role && not a.ready)) [
        | inl m ↦ rw (m, ensure_canonical) ((λ n. absurd (cc)), k)
        | inr m ↦
            rw (m, ensure_canonical)
              (checked-Grants role p source _ _ _ z q
                (λ t c. let (_, _, tr, tp) = check_role-ok a role p source _ _ t c in (tr, tp)) k)
      ]

  zone-Grants :
      (roles : List String) (w : World)
      → a.zone_roles i.zone ≡ roles
      → Knows env w
      → Grants (ensure_zone env a i roles w)
  unfolding ensure_zone
  zone-Grants [] w z k = ((λ n. absurd (cc)), k)
  zone-Grants (role ∷ []) w z k = canonical-Grants role (canonical_intent_prefix a i) w z refl k
  zone-Grants (role ∷ other ∷ roles) w z k = ((λ n. absurd (cc)), k)

  -- Where every role has a state directory, from a sound registry after requests that were all allowed and
  -- whatever the outside answers: if Ensure reports no error, fast path or not, then the intent's zone has
  -- one role, its prefix is canonical, and the registry has its record as Active, owning exactly what it
  -- desires; and in any case all requests were allowed and the registry is sound.
  pub ensure-Answered :
      (w : World)
      → Knows env w
      → let v = ensure env a i w in (v.1 ≡ none → Answered v.2) × Knows env v.2
  unfolding ensure
  ensure-Answered w k = zone-Grants (a.zone_roles i.zone) w refl k

-- ===== src/Control/Ensure/Admission.antt =====
-- toad/internal/control/selected_routes.go: what Ensure requires before it reserves or asks for anything.
use kikimora.Prelude.{
  String, ◌≡◌, ◌≢◌, refl, string_eq, Bool, true, false, not, ◌&&◌, Option, none, some, List, [],
  ◌∷◌, if◌then◌else◌, arith, Result, ok, err, Bool-cases, ◌⊎◌, inl, inr, bool_eq,
}
use kikimora.Prelude.Int.{is_positive}
use kikimora.Prelude.Map.{lookup}
use kikimora.Netip.{Prefix}
use kikimora.Routing.Record.{SelectedRouteSource, SelectedRoute}
use kikimora.Core.Model.{RoleRuntime}
use kikimora.Control.World.{Env, World, RoleFlags, Denial, Failure, role_state, flags_or_fresh}
use kikimora.Control.Ensure.{
  LeshyRouteIntent, LeshyRouteResult, Authority, Admitted, Verdict, canonical_intent_prefix,
  is_family_ready, check_runtime, check_configured, check_role, ensure_checked, ensure_canonical,
  ensure_zone, ensure,
}

-- The runtime that admits an intent for the prefix.
abbrev pub Allows : Authority → String → Prefix → Type 0
Allows a role p =
    (r : RoleRuntime) × (a.role_runtime role ≡ some r)
    × (r.desired ≡ true)
    × (r.validation.healthy ≡ true)
    × (is_family_ready p r ≡ true)
    × (is_positive r.toad.if_index ≡ true)

unless_ok {ℓ κ} :
    {E : Type ℓ} {A : Type κ} (b : Bool) (e : E) (r : Result E A) (t : A)
    → (if b then err e else r) ≡ ok t
    → (b ≡ false) × (r ≡ ok t)
unless_ok true e r t h = absurd (cc)
unless_ok false e r t h = (refl, h)

module _ (a : Authority) (role : String) (p : Prefix) (source : SelectedRouteSource)
    (entries : List SelectedRoute) (s : RoleFlags) where
  check_runtime-ok :
      (r : RoleRuntime) (t : Admitted)
      → check_runtime a role p source entries s r ≡ ok t
      → (r.desired ≡ true)
        × (r.validation.healthy ≡ true)
        × (is_family_ready p r ≡ true)
        × (is_positive r.toad.if_index ≡ true)
        × (t.role ≡ role)
        × (t.prefix ≡ p)
  unfolding check_runtime
  check_runtime-ok r t h = ground arith

  check_configured-ok :
      (o : Option RoleRuntime) (t : Admitted)
      → a.role_runtime role ≡ o
      → check_configured a role p source entries s o ≡ ok t
      → Allows a role p × (t.role ≡ role) × (t.prefix ≡ p)
  unfolding check_configured
  check_configured-ok none t q h = absurd (cc)
  check_configured-ok (some r) t q h =
      let (d, v, f, i, tr, tp) = check_runtime-ok r t h in ((r, q, d, v, f, i), tr, tp)

  pub check_role-ok :
      (t : Admitted)
      → check_role a role p source entries s ≡ ok t
      → (s.frozen ≡ false) × Allows a role p × (t.role ≡ role) × (t.prefix ≡ p)
  unfolding check_role
  check_role-ok t h =
      let (q, c) = unless_ok s.frozen _ _ t h in
      let (allows, tr, tp) = check_configured-ok (a.role_runtime role) t refl c in
      (q, allows, tr, tp)

-- Everything that Ensure requires of an intent.
abbrev pub Admits : Authority → LeshyRouteIntent → World → Type 0
Admits a i w =
    (role : String) × (p : Prefix) × (source : SelectedRouteSource) × (a.zone_roles i.zone
      ≡ role ∷ [])
    × (canonical_intent_prefix a i ≡ some (p, source))
    × ((a.managed role && not a.ready) ≡ false)
    × ((flags_or_fresh (lookup role w.roles)).frozen ≡ false)
    × Allows a role p

-- An error, and nothing asked for or reserved.
abbrev pub Untouched : World → Option Failure → World → Type 0
Untouched w e w' = (e ≢ none) × (w'.history ≡ w.history) × (w'.registry ≡ w.registry)

some_none {ℓ} : {A : Type ℓ} (x : A) → ◌≢◌ {A = Option A} (some x) none
some_none x h = cc

module _ (env : Env) (a : Authority) (i : LeshyRouteIntent) (w : World) where
  abbrev Either : Verdict → Type 0
  Either v = Untouched w v.1 v.2 ⊎ Admits a i w

  checked-Either :
      (result : LeshyRouteResult) (c : Result Denial Admitted) (w' : World)
      → w'.history ≡ w.history
      → w'.registry ≡ w.registry
      → ((t : Admitted) → c ≡ ok t → Admits a i w)
      → Either (ensure_checked env a i result c w')
  unfolding ensure_checked
  checked-Either result (err d) w' h r k = inl (some_none _, h, r)
  checked-Either result (ok t) w' h r k = inr (k t refl)

  canonical-Either :
      (role : String) (o : Option (Prefix × SelectedRouteSource))
      → a.zone_roles i.zone ≡ role ∷ []
      → canonical_intent_prefix a i ≡ o
      → Either (ensure_canonical env a i role o w)
  unfolding ensure_canonical role_state
  canonical-Either role none z q = inl (some_none _, refl, refl)
  canonical-Either role (some (p, source)) z q = elim (Bool-cases (a.managed role && not a.ready)) [
    | inl m ↦ rw (m, ensure_canonical) (inl (some_none _, refl, refl))
    | inr m ↦
        rw (m, ensure_canonical)
          (checked-Either _ _ _ refl refl λ t c.
            let (f, allows, _, _) = check_role-ok a role p source _ _ t c in
            (role, p, source, z, q, m, f, allows))
  ]

  zone-Either :
      (roles : List String) → a.zone_roles i.zone ≡ roles → Either (ensure_zone env a i roles w)
  unfolding ensure_zone
  zone-Either [] z = inl (some_none _, refl, refl)
  zone-Either (role ∷ []) z = canonical-Either role (canonical_intent_prefix a i) z refl
  zone-Either (role ∷ other ∷ roles) z = inl (some_none _, refl, refl)

-- Ensure denies an intent with an error, no request to the outside and no change of the registry; or its
-- zone has one role, which has its authority and is not frozen, its prefix is canonical for its source,
-- and the role is desired, healthy, ready for the prefix's family and has an interface.
pub ensure-Admits :
    (env : Env) (a : Authority) (i : LeshyRouteIntent) (w : World)
    → let v = ensure env a i w in Untouched w v.1 v.2 ⊎ Admits a i w
unfolding ensure
ensure-Admits env a i w = zone-Either env a i w (a.zone_roles i.zone) refl

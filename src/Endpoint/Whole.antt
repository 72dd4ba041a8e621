-- ===== src/Endpoint/Whole.antt =====
-- toad/internal/endpoint/manager.go: what a refresh commits or keeps.
use mathlib.Core.List.{append_assoc, append-nil}
use kikimora.Prelude.{
  ℕ, String, ◌≡◌, ◌≢◌, refl, ◌∙◌, sym, none, List, [], ◌∷◌, ◌++◌, map, Result, ok, err,
  Result-cases, ok-injective, subst, inl, inr, ◌⊎◌,
}
use kikimora.Toadctl.{AddrPort}
use kikimora.Core.Model.{EndpointState}
use kikimora.Endpoint.{
  EndpointSpec, Resolver, Stop, degraded, unavailable, resolve_spec, resolve_specs, keep_degraded,
  named, commit, refreshed, refresh_specs_with_error,
}

-- The addresses of all specifications, in their order.
pub data Resolves (r : Resolver) : List EndpointSpec → List AddrPort → Type 0 where
  nothing : Resolves r [] []
  next :
      {s : EndpointSpec} {ss : List EndpointSpec} {xs ys : List AddrPort}
      → resolve_spec r s ≡ ok xs
      → Resolves r ss ys
      → Resolves r (s ∷ ss) (xs ++ ys)

resolve_more :
    (r : Resolver) (found : List AddrPort) (s : EndpointSpec) (ss : List EndpointSpec)
    (xs : List AddrPort)
    → resolve_spec r s ≡ ok xs
    → resolve_specs r found (s ∷ ss) ≡ resolve_specs r (found ++ xs) ss
unfolding resolve_specs
resolve_more r found s ss xs q = rw (resolve_specs, q) refl

resolve_none :
    (r : Resolver) (found : List AddrPort) (s : EndpointSpec) (ss : List EndpointSpec) (e : Stop)
    → resolve_spec r s ≡ err e
    → resolve_specs r found (s ∷ ss) ≡ err e
unfolding resolve_specs
resolve_none r found s ss e q = rw (resolve_specs, q) refl

resolved_all :
    (r : Resolver) (found : List AddrPort) (ss : List EndpointSpec) (out : List AddrPort)
    → resolve_specs r found ss ≡ ok out
    → (ys : List AddrPort) × Resolves r ss ys × (out ≡ found ++ ys)
unfolding resolve_specs
resolved_all r found [] out h = ([], nothing, sym (ok-injective h) ∙ sym (append-nil found))
resolved_all r found (s ∷ ss) out h = elim (Result-cases (resolve_spec r s)) [
  | inr (e, q) ↦ absurd (ok-err (sym h ∙ resolve_none r found s ss e q))
  | inl (xs, q) ↦
      let (ys, all_of, e) =
        resolved_all r (found ++ xs) ss out (sym (resolve_more r found s ss xs q) ∙ h) in
      (xs ++ ys, next q all_of, e ∙ append_assoc found xs ys)
]
  where
    ok-err : {e : Stop} → ◌≢◌ {A = Result Stop (List AddrPort)} (ok out) (err e)
    ok-err z = cc

-- Every specification's addresses are committed, as resolved and as live.
abbrev pub Committed :
    (AddrPort → String) → ℕ → List EndpointSpec → Resolver → EndpointState → Type 0
Committed show epoch specs r e =
    (addresses : List AddrPort) × Resolves r specs addresses
    × (e ≡ record {
      state = "ready";
      applied_underlay_epoch = epoch;
      configured = map (named show) specs;
      resolved = addresses;
      live = addresses;
      last_error = "";
    })

-- What was known stays, and the state says that it is degraded and why.
abbrev pub Kept : EndpointState → EndpointState → Type 0
Kept previous e = (why : String) × (e ≡ record previous { state = "degraded"; last_error = why })

module _ (show : AddrPort → String) (epoch : ℕ) (specs : List EndpointSpec) (r : Resolver)
    (previous : EndpointState) where
  refreshed-either :
      (o : Result Stop (List AddrPort))
      → ((out : List AddrPort) → o ≡ ok out → Resolves r specs out)
      → let v = refreshed show epoch specs o previous in
        (Committed show epoch specs r v.0 × (v.1 ≡ none)) ⊎ Kept previous v.0
  unfolding refreshed commit keep_degraded
  refreshed-either (ok out) k = inl ((out, k out refl, refl), refl)
  refreshed-either (err (degraded why)) k = inr (why, refl)
  refreshed-either (err (unavailable why)) k = inr (why, refl)

-- A refresh either commits, without an error, the addresses of all specifications in their order under the new epoch, as
-- resolved and as live; or keeps the previous addresses, configuration and epoch, and the state is degraded.
pub refresh_specs_with_error-Whole :
    (show : AddrPort → String) (epoch : ℕ) (specs : List EndpointSpec) (r : Resolver)
    (previous : EndpointState)
    → let v = refresh_specs_with_error show epoch specs r previous in
      (Committed show epoch specs r v.0 × (v.1 ≡ none)) ⊎ Kept previous v.0
unfolding refresh_specs_with_error keep_degraded
refresh_specs_with_error-Whole show epoch [] r previous = inr (_, refl)
refresh_specs_with_error-Whole show epoch (s ∷ ss) r previous =
    refreshed-either show epoch (s ∷ ss) r previous (resolve_specs r [] (s ∷ ss)) λ out h.
      let (ys, all_of, e) = resolved_all r [] (s ∷ ss) out h in
      subst (Resolves r (s ∷ ss)) (sym e) all_of

-- ===== src/Control/Withdrawal/Seeing.antt =====
-- toad/internal/control/selected_parking.go: WithdrawSelected sees every park before it deletes a route.
use kikimora.Prelude.{
  String, ◌≡◌, refl, Bool, true, false, List, [], ◌∷◌, Result, ok, ◌⊎◌, inl, inr,
}
use kikimora.Routing.Identity.{park_identity_eq}
use kikimora.Routing.Record.{SelectedRoute}
use kikimora.Routing.Machine.{is_retiring}
use kikimora.Control.World.{
  remove_selected, observe_park, History, Env, World, Failure, and_then, require, role_state,
  registry_snapshot, no_exact_park,
}
use kikimora.Control.Parking.{
  exact_park, owned_of, observe_owned, unless_retiring, prove_parks, remove_routes, observe_parks,
  withdraw_selected,
}
use kikimora.Control.WriteAhead.Rules.{
  Post, succeeds, fails, and_then-Post, if-Post, guard-Post, Post-weaken,
}
use kikimora.Control.Withdrawal.{
  removals, Protected, AllProtected, Stable, Protected-more, AllProtected-more, remove_routes-more,
  observe_identity-Seen, observe_parks-Stable,
}

Post-fails {ℓ} :
    {A : Type ℓ} {S : A → World → Type 0} {R T : World → Type 0} {r : Result Failure A × World}
    → ((w : World) → R w → T w)
    → Post S R r
    → Post S T r
Post-fails f (succeeds s) = succeeds s
Post-fails f (fails {e} {w} r) = fails (f w r)

module _ (env : Env) where
  -- Nothing was deleted, and `Q` holds.
  abbrev Looked : List SelectedRoute → (History → Type 0) → History → Type 0
  Looked asked Q h = (removals h ≡ asked) × Q h

  module _ (asked : List SelectedRoute) (Q : History → Type 0) (stable : Stable env Q) where
    observed-Protected :
        (e : SelectedRoute) (w : World)
        → exact_park e.park ≡ true
        → Looked asked Q w.history
        → Post
            (λ _ w'. Looked asked Q w'.history × Protected env e w'.history)
            (λ w'. removals w'.history ≡ asked)
            (observe_owned env e.prefix e.park w)
    unfolding observe_owned
    observed-Protected e w x h =
        Post-fails (λ _ r. r.0)
          (Post-weaken (λ _ _ (owned, o, s, k). (k, (owned, o, x, s)))
            (observe_identity-Seen env (Looked asked Q)
              (λ prefix owned b h (r, k). (r, stable prefix owned b h k)) e.prefix
              (owned_of env e.park) w h))

    required :
        (b : Bool) (x : Failure) (w : World)
        → Looked asked Q w.history
        → Post
            (λ _ w'. (b ≡ true) × Looked asked Q w'.history)
            (λ w'. removals w'.history ≡ asked)
            (require b x w)
    required true x w h = succeeds (refl, h)
    required false x w h = fails h.0

    proved-Protected :
        (e : SelectedRoute) (w : World)
        → Looked asked Q w.history
        → Post
            (λ _ w'.
              Looked asked Q w'.history
              × (is_retiring e.state ≡ false → Protected env e w'.history))
            (λ w'. removals w'.history ≡ asked)
            (unless_retiring env e
              (λ w.
                and_then
                  (λ _. observe_owned env e.prefix e.park)
                  (require (exact_park e.park) no_exact_park w))
              w)
    unfolding unless_retiring
    proved-Protected e w h =
        if-Post (is_retiring e.state) _ _ w (λ t. succeeds (h, λ f. absurd (cc (t, f))))
          (λ _.
            and_then-Post _ (required (exact_park e.park) no_exact_park w h) λ _ w1 (x, h1).
              Post-weaken (λ _ _ (k, p). (k, λ _. p)) (observed-Protected e w1 x h1))

  -- The first pass deletes nothing, and every record that it passes is protected.
  prove_parks-AllProtected :
      (asked : List SelectedRoute) (Q : History → Type 0) (es : List SelectedRoute) (w : World)
      → Stable env Q
      → Looked asked Q w.history
      → Post
          (λ _ w'. Q w'.history × AllProtected env es w'.history)
          (λ w'. removals w'.history ≡ asked)
          (prove_parks env es w)
  unfolding prove_parks
  prove_parks-AllProtected asked Q [] w stable h = succeeds (h.1, tt)
  prove_parks-AllProtected asked Q (e ∷ es) w stable h =
      and_then-Post _ (proved-Protected asked Q stable e w h) λ _ w1 ((r1, h1), p).
        Post-weaken (λ _ _ ((h2, p2), ps). (h2, (p2, ps)))
          (prove_parks-AllProtected asked
            (λ h. Q h × (is_retiring e.state ≡ false → Protected env e h)) es w1
            (λ prefix owned b h (k, p). (
              stable prefix owned b h k,
              λ r. Protected-more env e (observe_park prefix owned) b h (p r),
            ))
            (r1, (h1, p)))

  withdrawn-AllProtected :
      (asked : List SelectedRoute) (es : List SelectedRoute) (w : World)
      → removals w.history ≡ asked
      → Post
          (λ _ w'. AllProtected env es w'.history)
          (λ w'. (removals w'.history ≡ asked) ⊎ AllProtected env es w'.history)
          (and_then
            (λ _ w. and_then (λ _. observe_parks env es) (remove_routes env es w))
            (prove_parks env es w))
  withdrawn-AllProtected asked es w r =
      and_then-Post _
        (Post-fails (λ _ r. inl r)
          (prove_parks-AllProtected asked (λ _. Unit {0}) es w (λ _ _ _ _ t. t) (r, tt)))
        λ _ w1 (_, p).
          and_then-Post _
            (Post-fails (λ _ p. inr p)
              (remove_routes-more env (AllProtected env es) es w1
                (λ e b h. AllProtected-more env es (remove_selected e) b h) p))
            λ _ w2 p2.
              Post-fails (λ _ p. inr p)
                (observe_parks-Stable env (AllProtected env es)
                  (λ prefix owned b h. AllProtected-more env es (observe_park prefix owned) b h) es
                  w2 p2)

  module _ (role : String) (asked es : List SelectedRoute) where
    -- The role's records, and the deletions so far.
    abbrev Begun : World → Type 0
    Begun w = (removals w.history ≡ asked) × (registry_snapshot env role w ≡ es)

    role_state-Begun :
        {T : World → Type 0} (w : World) → Begun w → Post (λ _. Begun) T (role_state role w)
    unfolding role_state registry_snapshot
    role_state-Begun w h = succeeds h

    snapshot-Begun :
        {T : World → Type 0} (w : World)
        → Begun w
        → Post (λ l w'. (l ≡ es) × Begun w') T (ok (registry_snapshot env role w), w)
    snapshot-Begun w h = succeeds (h.1, h)

    required-Begun :
        (b : Bool) (x : Failure) (w : World)
        → Begun w
        → Post
            (λ _. Begun)
            (λ w'. (removals w'.history ≡ asked) ⊎ AllProtected env es w'.history)
            (require b x w)
    required-Begun b x w h = guard-Post b x w h (inl h.0)

  -- Whatever the outside answers: WithdrawSelected asks for a deletion only after it has seen, for every
  -- record of the role that does not retire, the park that the record owns and desires; if it succeeds,
  -- it has seen them all.
  pub withdraw_selected-AllProtected :
      (role : String) (w : World)
      → Post
          (λ _ w'. AllProtected env (registry_snapshot env role w) w'.history)
          (λ w'.
            (removals w'.history ≡ removals w.history)
            ⊎ AllProtected env (registry_snapshot env role w) w'.history)
          (withdraw_selected env role w)
  unfolding withdraw_selected
  withdraw_selected-AllProtected role w =
      let es : List SelectedRoute = registry_snapshot env role w in
      let asked : List SelectedRoute = removals w.history in
      and_then-Post _ (role_state-Begun role asked es w (refl, refl)) λ s w1 h1.
        and_then-Post _ (required-Begun role asked es s.frozen _ w1 h1) λ _ w2 h2.
          and_then-Post _ (required-Begun role asked es env.routes_resolved _ w2 h2) λ _ w3 h3.
            and_then-Post _ (snapshot-Begun role asked es w3 h3)
              λ l w4 (q, h4). withdrawn_at asked es l w4 q h4.0
    where
      withdrawn_at :
          (asked es l : List SelectedRoute) (w : World)
          → l ≡ es
          → removals w.history ≡ asked
          → Post
              (λ _ w'. AllProtected env es w'.history)
              (λ w'. (removals w'.history ≡ asked) ⊎ AllProtected env es w'.history)
              (and_then
                (λ _ w. and_then (λ _. observe_parks env l) (remove_routes env l w))
                (prove_parks env l w))
      withdrawn_at asked es l w q r = rw q (withdrawn-AllProtected asked es w r)

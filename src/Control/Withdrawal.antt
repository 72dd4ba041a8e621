-- ===== src/Control/Withdrawal.antt =====
-- toad/internal/control/selected_parking.go: WithdrawSelected, and what it has seen before it deletes.
pub mod Seeing
use kikimora.Prelude.{
  String, ◌≡◌, refl, ◌∙◌, Bool, true, false, Option, none, some, List, [], ◌∷◌, if◌then◌else◌,
  Result, ok, err, arith, ◌⊎◌, inl, inr, option_beq,
}
use kikimora.Netip.{Prefix}
use kikimora.Routing.Identity.{SelectedParkIdentity, park_identity_eq}
use kikimora.Routing.Record.{SelectedPark, SelectedRoute}
use kikimora.Routing.Machine.{is_retiring, is_park_active}
use kikimora.Control.World.{
  Request, remove_selected, observe_park, History, Env, World, Failure, Act, and_then, require,
  answered, ask, role_state, RoleFlags, registry_snapshot, no_exact_park,
}
use kikimora.Control.Parking.{
  exact_park, observe_present, observe_identity, owned_of, observe_owned, unless_retiring,
  prove_parks, remove_routes, observe_parks, withdraw_selected,
}
use kikimora.Control.WriteAhead.Rules.{
  Post, succeeds, fails, and_then-Post, if-Post, guard-Post, passed-Post, Post-weaken,
}

abbrev removal : Request → List SelectedRoute → List SelectedRoute
removal (remove_selected e) es = e ∷ es
removal _ es = es

-- The deletions of selected routes that were asked for, newest first.
abbrev pub removals : History → List SelectedRoute
removals [] = []
removals ((q, succeeded) ∷ h) = removal q (removals h)

module _ (env : Env) where
  -- The request was made, succeeded, and its observation was positive.
  abbrev pub Seen : Request → History → Type 0
  Seen q [] = ⊥
  Seen q ((q', succeeded) ∷ h) =
      ((q' ≡ q) × (succeeded ≡ true) × (env.observed q h ≡ true)) ⊎ Seen q h

  -- The record owns exactly the park that it desires, and this park was seen in the kernel.
  abbrev pub Protected : SelectedRoute → History → Type 0
  Protected e h =
      (owned : SelectedParkIdentity) × (owned_of env e.park ≡ some owned)
      × (exact_park e.park ≡ true)
      × Seen (observe_park e.prefix owned) h

  abbrev pub AllProtected : List SelectedRoute → History → Type 0
  AllProtected [] h = Unit {0}
  AllProtected (e ∷ es) h = (is_retiring e.state ≡ false → Protected e h) × AllProtected es h

  pub Protected-more :
      (e : SelectedRoute) (q : Request) (b : Bool) (h : History)
      → Protected e h
      → Protected e ((q, b) ∷ h)
  Protected-more e q b h (owned, o, x, s) = (owned, o, x, inr s)

  pub AllProtected-more :
      (es : List SelectedRoute) (q : Request) (b : Bool) (h : History)
      → AllProtected es h
      → AllProtected es ((q, b) ∷ h)
  AllProtected-more [] q b h t = tt
  AllProtected-more (e ∷ es) q b h (p, ps) =
      ((λ r. Protected-more e q b h (p r)), AllProtected-more es q b h ps)

  -- What one more observation does not take away.
  abbrev pub Stable : (History → Type 0) → Type 0
  Stable Q =
      (prefix : Prefix) (owned : SelectedParkIdentity) (b : Bool) (h : History)
      → Q h
      → Q ((observe_park prefix owned, b) ∷ h)

  module _ (Q : History → Type 0) where
    pub unless_retiring-Stable :
        (e : SelectedRoute) (m : Act (Unit {0})) (w : World)
        → ((w : World) → Q w.history → Post (λ _ w'. Q w'.history) (λ w'. Q w'.history) (m w))
        → Q w.history
        → Post (λ _ w'. Q w'.history) (λ w'. Q w'.history) (unless_retiring env e m w)
    unfolding unless_retiring
    unless_retiring-Stable e m w k h =
        if-Post (is_retiring e.state) _ _ w (λ _. succeeds h) (λ _. k w h)

    answered-more :
        (q : Request) (o : Option String) (w : World)
        → ((b : Bool) (h : History) → Q h → Q ((q, b) ∷ h))
        → Q w.history
        → Post (λ _ w'. Q w'.history) (λ w'. Q w'.history) (answered env q o w)
    unfolding answered
    answered-more q none w more h = succeeds (more true w.history h)
    answered-more q (some x) w more h = fails (more false w.history h)

    ask-more :
        (q : Request) (w : World)
        → ((b : Bool) (h : History) → Q h → Q ((q, b) ∷ h))
        → Q w.history
        → Post (λ _ w'. Q w'.history) (λ w'. Q w'.history) (ask env q w)
    unfolding ask
    ask-more q w more h = answered-more q (env.refuses q w.history) w more h

    pub remove_routes-more :
        (es : List SelectedRoute) (w : World)
        → ((e : SelectedRoute) (b : Bool) (h : History) → Q h → Q ((remove_selected e, b) ∷ h))
        → Q w.history
        → Post (λ _ w'. Q w'.history) (λ w'. Q w'.history) (remove_routes env es w)
    unfolding remove_routes
    remove_routes-more [] w more h = succeeds h
    remove_routes-more (e ∷ es) w more h =
        and_then-Post _
          (unless_retiring-Stable e _ w (λ w. ask-more (remove_selected e) w (more e)) h)
          λ _ w1 h1. remove_routes-more es w1 more h1

  module _ (Q : History → Type 0) (stable : Stable Q) where
    observed-Seen :
        (prefix : Prefix) (owned : SelectedParkIdentity) (b : Bool) (o : Option String) (w : World)
        → env.observed (observe_park prefix owned) w.history ≡ b
        → Q w.history
        → Post
            (λ _ w'. (b ≡ true → Seen (observe_park prefix owned) w'.history) × Q w'.history)
            (λ w'. Q w'.history)
            (answered env (observe_park prefix owned) o w)
    unfolding answered
    observed-Seen prefix owned b none w r h =
        succeeds ((λ t. inl (refl, refl, r ∙ t)), stable prefix owned true w.history h)
    observed-Seen prefix owned b (some x) w r h = fails (stable prefix owned false w.history h)

    observe_present-Seen :
        (prefix : Prefix) (owned : SelectedParkIdentity) (w : World)
        → Q w.history
        → Post
            (λ b w'. (b ≡ true → Seen (observe_park prefix owned) w'.history) × Q w'.history)
            (λ w'. Q w'.history)
            (observe_present env prefix owned w)
    unfolding observe_present ask
    observe_present-Seen prefix owned w h =
        and_then-Post _
          (observed-Seen prefix owned (env.observed (observe_park prefix owned) w.history) _ w refl
            h)
          λ _ w1 s. succeeds s

    require-Seen :
        (b : Bool) (x : Failure) (q : Request) (w : World)
        → (b ≡ true → Seen q w.history)
        → Q w.history
        → Post (λ _ w'. Seen q w'.history × Q w'.history) (λ w'. Q w'.history) (require b x w)
    require-Seen true x q w s h = succeeds (s refl, h)
    require-Seen false x q w s h = fails h

    -- Where the observation succeeds, the park that was looked for was seen.
    pub observe_identity-Seen :
        (prefix : Prefix) (found : Option SelectedParkIdentity) (w : World)
        → Q w.history
        → Post
            (λ _ w'.
              (owned : SelectedParkIdentity) × (found ≡ some owned)
              × Seen (observe_park prefix owned) w'.history
              × Q w'.history)
            (λ w'. Q w'.history)
            (observe_identity env prefix found w)
    unfolding observe_identity
    observe_identity-Seen prefix none w h = fails h
    observe_identity-Seen prefix (some owned) w h =
        and_then-Post _ (observe_present-Seen prefix owned w h) λ b w1 (s, h1).
          Post-weaken (λ _ _ s. (owned, refl, s.0, s.1)) (require-Seen b _ _ w1 s h1)

    observe_owned-Stable :
        (prefix : Prefix) (found : Option SelectedPark) (w : World)
        → Q w.history
        → Post (λ _ w'. Q w'.history) (λ w'. Q w'.history) (observe_owned env prefix found w)
    unfolding observe_owned
    observe_owned-Stable prefix found w h =
        Post-weaken (λ _ _ (_, _, _, q). q) (observe_identity-Seen prefix (owned_of env found) w h)

    pub observe_parks-Stable :
        (es : List SelectedRoute) (w : World)
        → Q w.history
        → Post (λ _ w'. Q w'.history) (λ w'. Q w'.history) (observe_parks env es w)
    unfolding observe_parks
    observe_parks-Stable [] w h = succeeds h
    observe_parks-Stable (e ∷ es) w h =
        and_then-Post _
          (unless_retiring-Stable Q e _ w (λ w. observe_owned-Stable e.prefix e.park w) h)
          λ _ w1 h1. observe_parks-Stable es w1 h1

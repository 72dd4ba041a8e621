-- ===== src/Control/Unpark/Calls.antt =====
-- toad/internal/control/selected_parking.go: what the calls of an unpark leave.
use kikimora.Prelude.{
  ℕ, String, ◌≡◌, refl, sym, subst, Bool, true, false, Option, none, some, ◌∷◌, Result, ok, err,
}
use kikimora.Netip.{Prefix}
use kikimora.Routing.Identity.{SelectedParkIdentity, park_identity_eq}
use kikimora.Routing.Record.{SelectedPark, SelectedRoute}
use kikimora.Routing.Machine.{RegistryError}
use kikimora.Routing.Registry.{Registry, mark_park_retiring, clear_park}
use kikimora.Control.World.{
  Request, failpoint, snapshot_rows, observe_park, park_after_retiring_checkpoint,
  park_after_kernel_delete, History, Env, World, Failure, selected_vanished, Act, and_then, require,
  answered, ask, role_state, registered, registering, has_dir, write_to, write_checkpoint, save,
}
use kikimora.Control.Parking.{observe_present}
use kikimora.Control.WriteAhead.Rules.{Post, succeeds, fails, and_then-Post, require-Post}
use kikimora.Control.Unpark.{Prover, present_after, snapshot_selected, unpark}

pub Post-both {ℓ} :
    {A : Type ℓ} {Q S : A → World → Type 0} {R T : World → Type 0} {r : Result Failure A × World}
    → ((a : A) (w : World) → Q a w → S a w)
    → ((w : World) → R w → T w)
    → Post Q R r
    → Post S T r
Post-both f g (succeeds {a} {w} q) = succeeds (f a w q)
Post-both f g (fails {e} {w} r) = fails (g w r)

pub verdict-Post :
    (x : Result Failure Bool) (Q R : World → Type 0) (w : World)
    → Q w
    → R w
    → Post (λ b w'. (x ≡ ok b) × Q w') R (x, w)
verdict-Post (ok b) Q R w q r = succeeds (refl, q)
verdict-Post (err e) Q R w q r = fails r

pub true-Post :
    (b : Bool) (x : Failure) (Q R : World → Type 0) (w : World)
    → Q w
    → R w
    → Post (λ _ w'. (b ≡ true) × Q w') R (require b x w)
true-Post true x Q R w q r = succeeds (refl, q)
true-Post false x Q R w q r = fails r

module _ (env : Env) where
  answered-exact :
      (q : Request) (o : Option String) (w : World)
      → Post
          (λ _ w'. w'.history ≡ (q, true) ∷ w.history)
          (λ w'. w'.history ≡ (q, false) ∷ w.history)
          (answered env q o w)
  unfolding answered
  answered-exact q none w = succeeds refl
  answered-exact q (some e) w = fails refl

  pub ask-exact :
      (q : Request) (w : World)
      → Post
          (λ _ w'. w'.history ≡ (q, true) ∷ w.history)
          (λ w'. w'.history ≡ (q, false) ∷ w.history)
          (ask env q w)
  unfolding ask
  ask-exact q w = answered-exact q (env.refuses q w.history) w

  pub observe_present-exact :
      (prefix : Prefix) (owned : SelectedParkIdentity) (w : World)
      → let q = observe_park prefix owned in
        Post
          (λ b w'. (b ≡ env.observed q w.history) × (w'.history ≡ (q, true) ∷ w.history))
          (λ w'. w'.history ≡ (q, false) ∷ w.history)
          (observe_present env prefix owned w)
  unfolding observe_present
  observe_present-exact prefix owned w =
      and_then-Post _ (ask-exact (observe_park prefix owned) w) λ _ w1 h. succeeds (refl, h)

  module _ (Q : History → Type 0)
      (more : (q : Request) (b : Bool) (h : History) → Q h → Q ((q, b) ∷ h)) where
    abbrev Keeps {ℓ} : {A : Type ℓ} → Act A → Type ℓ
    Keeps m = (w : World) → Q w.history → Post (λ _ w'. Q w'.history) (λ w'. Q w'.history) (m w)

    ask-Keeps : (q : Request) → Keeps (ask env q)
    ask-Keeps q w h =
        Post-both (λ _ _ e. subst Q (sym e) (more q true w.history h))
          (λ _ e. subst Q (sym e) (more q false w.history h)) (ask-exact q w)

    registered-Keeps : (r : Result RegistryError Registry) → Keeps (registered r)
    unfolding registered
    registered-Keeps (ok r) w h = succeeds h
    registered-Keeps (err e) w h = fails h

    registering-Keeps : (f : Registry → Result RegistryError Registry) → Keeps (registering f)
    unfolding registering
    registering-Keeps f w h = registered-Keeps (f w.registry) w h

    write_to-Keeps :
        (b : Bool) (role : String) (generation : ℕ) → Keeps (write_to env b role generation)
    unfolding write_to
    write_to-Keeps true role generation w h = ask-Keeps _ w h
    write_to-Keeps false role generation w h = succeeds h

    save-Keeps : (role : String) → Keeps (save env role)
    unfolding save role_state write_checkpoint write_to and_then
    save-Keeps role w h = write_to-Keeps (has_dir env role) role _ _ h

    pub unpark-Keeps :
        (prover : Prover) (role : String) (e : SelectedRoute) (p : SelectedPark)
        (owned : SelectedParkIdentity)
        → Keeps (unpark env prover role e p owned)
    unfolding unpark snapshot_selected and_then
    unpark-Keeps prover role e p owned w h =
        and_then-Post _ (registering-Keeps (mark_park_retiring role e.prefix) w h) λ _ w1 h1.
          and_then-Post _ (save-Keeps role w1 h1) λ _ w2 h2.
            and_then-Post _
              (ask-Keeps (failpoint park_after_retiring_checkpoint role e.prefix) w2 h2)
              λ _ w3 h3. and_then-Post _ (ask-Keeps _ w3 h3) λ _ w4 h4.
                and_then-Post _ (ask-Keeps (failpoint park_after_kernel_delete role e.prefix) w4 h4)
                  λ _ w5 h5.
                    and_then-Post _
                      (and_then-Post _ (ask-Keeps snapshot_rows w5 h5) λ _ w6 h6. succeeds h6)
                      λ after w6 h6.
                        and_then-Post _
                          (verdict-Post (present_after e owned false after) (λ w. Q w.history)
                            (λ w. Q w.history) w6 h6 h6)
                          λ found w7 (_, h7).
                            and_then-Post _ (require-Post found selected_vanished w7 h7) λ _ w8 h8.
                              and_then-Post _ (registering-Keeps (clear_park role e.prefix) w8 h8)
                                λ _ w9 h9. save-Keeps role w9 h9

-- ===== src/Control/Stuck.antt =====
-- toad/internal/control/selected_parking.go: an interrupted park transaction, gone on with from Applying.
use kikimora.Prelude.{
  String, ◌≡◌, refl, ◌∙◌, sym, subst, false, Option, none, some, Result, ok, err, is_ok,
  Result-cases, inl, inr, string_eq,
}
use kikimora.Prelude.Map.{lookup}
use kikimora.Netip.{Prefix}
use kikimora.Routing.Identity.{SelectedParkIdentity}
use kikimora.Routing.Record.{key_eq, SelectedParkState, park_applying, SelectedPark, SelectedRoute}
use kikimora.Routing.Machine.{RegistryError, on_park, mark_park_applying_tx}
use kikimora.Routing.Registry.{Registry, key, transition, mark_park_applying}
use kikimora.Routing.Registry.Transition.{transition-eq-ok}
use kikimora.Routing.History.Sound.{IsSound}
use kikimora.Control.World.{
  Env, World, Failure, registered, registering, Request, answered, ask, registry_snapshot,
  registry_entry,
}
use kikimora.Control.Parking.{
  park_in, park_found, apply_park_transaction, normalize_park_identity, park_one,
}
use kikimora.Control.Entries.{registry_entry-lookup}
use kikimora.Control.WriteAhead.Rules.{Post, succeeds, fails, and_then-Post}

-- The marking of a record whose park is not Pending.
marking_refused :
    (e : SelectedRoute) (p : SelectedPark)
    → e.park ≡ some p
    → p.state ≡ park_applying
    → is_ok (on_park mark_park_applying_tx e) ≡ false
unfolding on_park mark_park_applying_tx
marking_refused e p a b = rw (a, b) refl

mark_park_applying-refused :
    (role : String) (prefix : Prefix) (e : SelectedRoute) (p : SelectedPark) (r : Registry)
    → lookup (key role prefix) r ≡ some e
    → e.park ≡ some p
    → p.state ≡ park_applying
    → is_ok (mark_park_applying role prefix r) ≡ false
unfolding mark_park_applying
mark_park_applying-refused role prefix e p r found a b =
    elim (Result-cases (transition role prefix (on_park mark_park_applying_tx) r)) [
      | inr (x, m) ↦ rw m refl
      | inl (r', m) ↦
          let (y, y', at, moved, _, _) =
            transition-eq-ok role prefix (on_park mark_park_applying_tx) r m in
          absurd (cc (at, found, moved, marking_refused e p a b))
    ]

-- Never: the method does not succeed.
abbrev pub Fails {ℓ} : {A : Type ℓ} → Result Failure A × World → Type ℓ
Fails r = Post (λ _ _. ⊥) (λ _. Unit {0}) r

registered-Fails :
    (r : Result RegistryError Registry) (w : World) → is_ok r ≡ false → Fails (registered r w)
unfolding registered
registered-Fails (ok r) w h = absurd (cc)
registered-Fails (err e) w h = fails tt

Fails-is_ok {ℓ} : {A : Type ℓ} (r : Result Failure A × World) → Fails r → is_ok (r.0) ≡ false
Fails-is_ok _ (succeeds p) = absurd p
Fails-is_ok _ (fails p) = refl

module _ (env : Env) (role : String) (e : SelectedRoute) (p : SelectedPark) (a : e.park ≡ some p)
    (b : p.state ≡ park_applying) where
  abbrev Registered : World → Type 0
  Registered w = IsSound env.parse_addr w.registry × (registry_entry env role e.prefix w ≡ some e)

  apply_park_transaction-Fails :
      (desired : SelectedParkIdentity) (w : World)
      → Registered w
      → Fails (apply_park_transaction env role e.prefix desired e w)
  unfolding apply_park_transaction registering
  apply_park_transaction-Fails desired w (sound, at) =
      and_then-Post _
        (registered-Fails _ w (
          mark_park_applying-refused role e.prefix e p w.registry
            (sym (registry_entry-lookup env role e.prefix w sound) ∙ at) a b))
        λ _ _ n. absurd n

  park_in-Fails :
      (state : SelectedParkState) (desired : SelectedParkIdentity) (w : World)
      → state ≡ park_applying
      → Registered w
      → Fails (park_in env state role e.prefix desired p e w)
  unfolding park_in
  park_in-Fails state desired w s r =
      subst (λ (x : SelectedParkState). Fails (park_in env x role e.prefix desired p e w)) (sym s)
        (apply_park_transaction-Fails desired w r)

  park_found-Fails :
      (desired : SelectedParkIdentity) (w : World)
      → Registered w
      → Fails (park_found env e.park role e.prefix desired e w)
  unfolding park_found
  park_found-Fails desired w r =
      subst (λ (o : Option SelectedPark). Fails (park_found env o role e.prefix desired e w))
        (sym a) (park_in-Fails p.state desired w b r)

  answered-Registered :
      (q : Request) (o : Option String) (w : World)
      → Registered w
      → Post (λ _. Registered) (λ _. Unit {0}) (answered env q o w)
  unfolding answered registry_entry registry_snapshot
  answered-Registered q none w r = succeeds r
  answered-Registered q (some x) w r = fails tt

  normalize_park-Registered :
      (w : World)
      → Registered w
      → Post (λ _. Registered) (λ _. Unit {0}) (normalize_park_identity env e.prefix w)
  unfolding normalize_park_identity ask
  normalize_park-Registered w r =
      and_then-Post _ (answered-Registered _ _ w r) λ _ w1 r1. succeeds r1

-- Parking a sound registry's record whose park is Applying fails, whatever the outside answers.
pub park_one-applying :
    (env : Env) (role : String) (e : SelectedRoute) (p : SelectedPark) (w : World)
    → IsSound env.parse_addr w.registry
    → registry_entry env role e.prefix w ≡ some e
    → e.park ≡ some p
    → p.state ≡ park_applying
    → is_ok ((park_one env role e w).0) ≡ false
unfolding park_one
park_one-applying env role e p w sound at a b = Fails-is_ok _ (
    and_then-Post _ (normalize_park-Registered env role e p a b w (sound, at))
      λ desired w1 r. park_found-Fails env role e p a b desired w1 r)

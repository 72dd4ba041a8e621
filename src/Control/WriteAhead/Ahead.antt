-- ===== src/Control/WriteAhead/Ahead.antt =====
-- Where the kernel is asked ahead of the file: a record that is Applying in memory and another on disk.
pub mod Restored
use kikimora.Prelude.{
  ℕ, String, ◌≡◌, ◌≢◌, refl, ◌∙◌, ap, sym, subst, Bool, true, false, Option, none, some, arith,
  Result, ok, err, string_eq, eq_iff, is_ok,
}
use kikimora.Prelude.Map.{lookup, insert, lookup-insert}
use kikimora.Netip.{Addr, Prefix}
use kikimora.Routing.Identity.{SelectedRouteIdentity, validate_route, route_identity_beq_iff}
use kikimora.Routing.Record.{
  SelectedRouteState, applying, SelectedRoute, SelectedRouteKey, key_eq, key_beq_iff,
}
use kikimora.Routing.Registry.{Registry, key, reserve}
use kikimora.Routing.Registry.Transition.{reserve-eq-ok}
use kikimora.Routing.History.{call, reserves}
use kikimora.Routing.History.Sound.{IsSound, call-IsSound}
use kikimora.Routing.Machine.{RegistryError, Reservation, reserve_entry, is_applying}
use kikimora.Control.World.{
  Reconciled, Request, History, find_prefix, Env, World, Failure, and_then, registered, registering,
  answered, ask, role_state, write_to, write_checkpoint, save, RoleFlags, registry_snapshot,
  normalize_selected, registry_entry, reconcile_selected,
}
use kikimora.Control.Transactions.{
  minted_token, mint_verification_token, registered_entry, reread, reconcile_route, settle_active,
  drive_transaction, reconcile_in, reconcile_record,
}
use kikimora.Control.Entries.{registry_entry-lookup}
use kikimora.Control.Restore.{Target, moved_to, normalize_route, restore_entry}
use kikimora.Control.WriteAhead.{durable, Held, May, Authorized}
use kikimora.Control.WriteAhead.Rules.{
  Post, succeeds, fails, find_prefix-prefix, and_then-Post, if-Post, require-Post, passed-Post,
}

-- Some request was made that was not allowed.
abbrev pub Ahead : World → Type 0
Ahead w = ¬ (Authorized w.history)

registered-Ahead :
    (r : Result RegistryError Registry) (w : World)
    → Ahead w
    → Post (λ _. Ahead) Ahead (registered r w)
unfolding registered
registered-Ahead (ok r) w b = succeeds b
registered-Ahead (err e) w b = fails b

registering-Ahead :
    (f : Registry → Result RegistryError Registry) (w : World)
    → Ahead w
    → Post (λ _. Ahead) Ahead (registering f w)
unfolding registering
registering-Ahead f w b = registered-Ahead (f w.registry) w b

module _ (env : Env) where
  answered-Ahead :
      (q : Request) (o : Option String) (w : World)
      → Ahead w
      → Post (λ _. Ahead) Ahead (answered env q o w)
  unfolding answered
  answered-Ahead q none w b = succeeds (λ h. b h.1)
  answered-Ahead q (some e) w b = fails (λ h. b h.1)

  ask-Ahead : (q : Request) (w : World) → Ahead w → Post (λ _. Ahead) Ahead (ask env q w)
  unfolding ask
  ask-Ahead q w b = answered-Ahead q (env.refuses q w.history) w b

  write_to-Ahead :
      (dir : Bool) (role : String) (n : ℕ) (w : World)
      → Ahead w
      → Post (λ _. Ahead) Ahead (write_to env dir role n w)
  unfolding write_to
  write_to-Ahead true role n w b = ask-Ahead _ w b
  write_to-Ahead false role n w b = succeeds b

  save-Ahead : (role : String) (w : World) → Ahead w → Post (λ _. Ahead) Ahead (save env role w)
  unfolding save role_state write_checkpoint and_then
  save-Ahead role w b = write_to-Ahead _ role _ _ b

  minted-Ahead :
      (role : String) (e : SelectedRoute) (w : World)
      → Ahead w
      → Post (λ _. Ahead) Ahead (mint_verification_token role e w)
  unfolding mint_verification_token
  minted-Ahead role e w b = minted (lookup role w.roles)
    where
      minted : (o : Option RoleFlags) → Post (λ _. Ahead) Ahead (minted_token role e o w)
      minted none = unfold minted_token in succeeds b
      minted (some s) = unfold minted_token in succeeds b

  settle_active-Ahead :
      (role : String) (e : SelectedRoute) (answer : Reconciled) (w : World)
      → Ahead w
      → Post (λ _. Ahead) Ahead (settle_active env role e answer w)
  unfolding settle_active
  settle_active-Ahead role e answer w b = and_then-Post _ (ask-Ahead _ w b) λ _ w1 b1.
      and_then-Post _ (require-Post _ _ w1 b1) λ _ w2 b2.
        and_then-Post _ (registering-Ahead _ w2 b2) λ _ w3 b3.
          and_then-Post _ (ask-Ahead _ w3 b3) λ _ w4 b4.
            and_then-Post _ (save-Ahead role w4 b4) λ _ w5 b5.
              and_then-Post _ (ask-Ahead _ w5 b5)
                λ _ w6 b6. and_then-Post _ (minted-Ahead role e w6 b6) λ _ w7 b7. succeeds b7

  -- A request that is not allowed when it is made.
  asked-Ahead :
      (q : Request) (o : Option String) (w : World)
      → ¬ (May q w.history)
      → Post (λ _. Ahead) Ahead (answered env q o w)
  unfolding answered
  asked-Ahead q none w b = succeeds (λ h. b h.0)
  asked-Ahead q (some e) w b = fails (λ h. b h.0)

  pub drive_transaction-Ahead :
      (role : String) (e : SelectedRoute) (w : World)
      → e.state ≡ applying
      → ¬ (Held role e.prefix e w.history)
      → Post (λ _. Ahead) Ahead (drive_transaction env role e w)
  unfolding drive_transaction reconcile_route ask and_then
  drive_transaction-Ahead role e w s b =
      if-Post (is_applying e.state) _ _ w
        (λ _.
          and_then-Post _
            (and_then-Post _
              (asked-Ahead (reconcile_selected role e.prefix e.desired.if_index e) _ w (λ m. b m.0))
              λ _ w1 b1. succeeds b1)
            λ answer w1 b1. settle_active-Ahead role e answer w1 b1)
        (λ n. absurd (ground arith))

-- An outcome that is so after success and after failure.
pub Post-always {ℓ} :
    {A : Type ℓ} {P : World → Type 0} {r : Result Failure A × World} → Post (λ _. P) P r → P r.1
Post-always (succeeds p) = p
Post-always (fails p) = p

pub some_injective {ℓ} : {A : Type ℓ} {a b : A} → ◌≡◌ {A = Option A} (some a) (some b) → a ≡ b
some_injective h = cc

pub Held-unique :
    (role : String) (prefix : Prefix) (a b : SelectedRoute) (h : History)
    → Held role prefix a h
    → Held role prefix b h
    → a ≡ b
Held-unique role prefix a b h (es, p, q) (es', p', q') =
    some_injective (sym q ∙ ap (find_prefix prefix) (some_injective (sym p ∙ p')) ∙ q')

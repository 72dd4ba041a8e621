-- ===== src/Control/WriteAhead/Selected.antt =====
-- toad/internal/control/selected_transactions.go: no route is written or deleted ahead of its record.
use kikimora.Prelude.{ℕ, String, ◌≡◌, refl, subst, true, some, arith, Result, ok}
use kikimora.Netip.{Prefix}
use kikimora.Routing.Identity.{SelectedRouteIdentity, route_identity_eq, route_identity_beq_iff}
use kikimora.Routing.Record.{
  SelectedRouteState, pending, applying, active, retiring, other_state, SelectedRoute,
}
use kikimora.Routing.Machine.{Reservation, is_applying, mark_active_entry}
use kikimora.Control.Entries.{registry_entry-transition}
use kikimora.Routing.Registry.{mark_active}
use kikimora.Routing.History.{call, reserves, marks_applying, marks_active, begins_repair}
use kikimora.Control.World.{Reconciled, Env, World, Failure, and_then, registry_entry, has_dir}
use kikimora.Control.Transactions.{
  typed_conflict, preflight, reconcile_route, settle_active, drive_transaction, apply_pending,
  repair_active, reconcile_in, reconcile_record, apply_reserved,
}
use kikimora.Control.WriteAhead.{Held}
use kikimora.Control.WriteAhead.Rules.{
  Post, succeeds, fails, and_then-Post, if-Post, require-Post, guard-Post, Knows,
  registering-Called, find_prefix_self, Sure, At, At-Held, save-Sure, write_checkpoint-Sure,
  ask-Knows, ask-At, ask-Sure, reread-At, mint-At, save-At, ask-Entry, Verified, find_prefix-prefix,
  Called,
}

is_applying-applying : (s : SelectedRouteState) → is_applying s ≡ true → s ≡ applying
is_applying-applying s h = ground arith

module _ (env : Env) (role : String) (dir : has_dir env role ≡ true) where
  mark_active_entry-owned :
      (observed : SelectedRouteIdentity) (e : SelectedRoute) {e' : SelectedRoute}
      → mark_active_entry observed e ≡ ok e'
      → (e'.state ≡ active) × (e'.owned ≡ some e'.desired)
  unfolding mark_active_entry
  mark_active_entry-owned observed e m = ground (arith, route_identity_beq_iff observed e.desired)

  -- MarkActive leaves the record Active and owned as desired.
  marked-active :
      (prefix : Prefix) (observed : SelectedRouteIdentity) (w w' : World)
      → Knows env w
      → Called env (marks_active role prefix observed) w w'
      → (e : SelectedRoute) × (registry_entry env role prefix w' ≡ some e)
        × (e.state ≡ active)
        × (e.owned ≡ some e.desired)
  unfolding call mark_active
  marked-active prefix observed w w' k c =
      let (old, new, _, moved, now) =
        registry_entry-transition env role prefix (mark_active_entry observed) w w' k.1 c.0.1 c.1 in
      let (is_now, owns) = mark_active_entry-owned observed old moved in (new, now, is_now, owns)

  settle_active-Verified :
      (e : SelectedRoute) (answer : Reconciled) (w : World)
      → Knows env w
      → Post (λ _. Verified env role dir e.prefix) (Knows env) (settle_active env role e answer w)
  unfolding settle_active call
  settle_active-Verified e answer w k = and_then-Post _ (ask-Knows env role dir _ w tt k) λ _ w1 k1.
      and_then-Post _ (require-Post _ _ w1 k1) λ _ w2 k2.
        and_then-Post _
          (registering-Called env (marks_active role e.prefix answer.verified) _ w2 refl k2)
          λ _ w3 k3.
            let (x, now, is_now, owns) = marked-active e.prefix answer.verified w2 w3 k2 k3 in
            and_then-Post _ (ask-Entry env role dir e.prefix x _ w3 tt k3.0 now) λ _ w4 k4.
              and_then-Post _ (save-At env role dir e.prefix x w4 k4.0 k4.1) λ _ w5 p5.
                and_then-Post _ (ask-At env role dir e.prefix x _ w5 refl tt p5) λ _ w6 p6.
                  and_then-Post _ (mint-At env role dir e.prefix x e w6 p6)
                    λ _ w7 p7. succeeds (x, p7, is_now, owns)

  At-applying :
      (prefix : Prefix) (e : SelectedRoute) (w : World)
      → At env role dir prefix e w
      → e.state ≡ applying
      → Held role e.prefix e w.history × (e.state ≡ applying)
  At-applying prefix e w p s =
      let (es, known, found) = At-Held env role dir prefix e w p in
      ((es, known, find_prefix_self prefix es e found), s)

  At-prefix :
      (prefix : Prefix) (e : SelectedRoute) (w : World)
      → At env role dir prefix e w
      → e.prefix ≡ prefix
  At-prefix prefix e w p =
      let (es, _, found) = At-Held env role dir prefix e w p in find_prefix-prefix prefix es e found

  reconcile_route-Sure :
      (prefix : Prefix) (e : SelectedRoute) (w : World)
      → e.state ≡ applying
      → At env role dir prefix e w
      → Post (λ _. Sure env role dir) (Knows env) (reconcile_route env role e w)
  unfolding reconcile_route and_then
  reconcile_route-Sure prefix e w s p =
      and_then-Post _ (ask-Sure env role dir _ w refl (At-applying prefix e w p s) p.0)
        λ _ w1 p1. succeeds p1

  drive_transaction-Verified :
      (prefix : Prefix) (e : SelectedRoute) (w : World)
      → At env role dir prefix e w
      → Post (λ _. Verified env role dir prefix) (Knows env) (drive_transaction env role e w)
  unfolding drive_transaction
  drive_transaction-Verified prefix e w p =
      if-Post (is_applying e.state) _ _ w
        (λ s.
          and_then-Post _ (reconcile_route-Sure prefix e w (is_applying-applying e.state s) p)
            λ answer w1 p1.
              subst
                (λ at.
                  Post (λ _. Verified env role dir at) (Knows env)
                    (settle_active env role e answer w1))
                (At-prefix prefix e w p) (settle_active-Verified e answer w1 p1.0))
        (λ _. fails p.0.0)

  typed_conflict-Post {ℓ} :
      {A : Type ℓ} {Q : A → World → Type 0} {R : World → Type 0} (at : String) (prefix : Prefix)
      {r : Result Failure A × World}
      → Post Q R r
      → Post Q R (typed_conflict env at prefix r)
  unfolding typed_conflict
  typed_conflict-Post at prefix (succeeds p) = succeeds p
  typed_conflict-Post at prefix (fails p) = fails p

  apply_pending-Verified :
      (prefix : Prefix) (e : SelectedRoute) (w : World)
      → Knows env w
      → Post (λ _. Verified env role dir prefix) (Knows env) (apply_pending env role prefix e w)
  unfolding apply_pending preflight call
  apply_pending-Verified prefix e w k =
      and_then-Post _ (typed_conflict-Post role prefix (ask-Knows env role dir _ w tt k)) λ _ w1 k1.
        and_then-Post _ (ask-Knows env role dir _ w1 tt k1) λ _ w2 k2.
          and_then-Post _ (registering-Called env (marks_applying role prefix) _ w2 refl k2)
            λ _ w3 k3. and_then-Post _ (save-Sure env role dir w3 k3.0) λ _ w4 k4.
              and_then-Post _ (ask-Sure env role dir _ w4 refl tt k4) λ _ w5 k5.
                and_then-Post _ (reread-At env role dir prefix w5 k5)
                  λ next w6 p6. drive_transaction-Verified prefix next w6 p6

  repair_active-Verified :
      (prefix : Prefix) (w : World)
      → Knows env w
      → Post (λ _. Verified env role dir prefix) (Knows env) (repair_active env role prefix w)
  unfolding repair_active call
  repair_active-Verified prefix w k =
      and_then-Post _ (registering-Called env (begins_repair role prefix) _ w refl k) λ _ w1 k1.
        and_then-Post _ (save-Sure env role dir w1 k1.0) λ _ w2 k2.
          and_then-Post _ (reread-At env role dir prefix w2 k2)
            λ next w3 p3. apply_pending-Verified prefix next w3 p3.0.0

  reconcile_in-Verified :
      (s : SelectedRouteState) (prefix : Prefix) (e : SelectedRoute) (w : World)
      → At env role dir prefix e w
      → Post (λ _. Verified env role dir prefix) (Knows env) (reconcile_in env s role prefix e w)
  unfolding reconcile_in
  reconcile_in-Verified active prefix e w p = repair_active-Verified prefix w p.0.0
  reconcile_in-Verified pending prefix e w p = apply_pending-Verified prefix e w p.0.0
  reconcile_in-Verified applying prefix e w p = drive_transaction-Verified prefix e w p
  reconcile_in-Verified retiring prefix e w p = fails p.0.0
  reconcile_in-Verified (other_state s) prefix e w p = fails p.0.0

  pub reconcile_record-Verified :
      (prefix : Prefix) (w : World)
      → Sure env role dir w
      → Post (λ _. Verified env role dir prefix) (Knows env) (reconcile_record env role prefix w)
  unfolding reconcile_record
  reconcile_record-Verified prefix w p =
      and_then-Post _ (guard-Post env.routes_resolved _ w p p.0) λ _ w0 p0.
        and_then-Post _ (reread-At env role dir prefix w0 p0)
          λ e w1 p1. reconcile_in-Verified e.state prefix e w1 p1

  -- Ensure's canonical apply for a role with a state directory, from a sound registry after requests that
  -- were all allowed, whatever the outside answers: the route is written only while the file holds its
  -- record as Applying, and the registry stays sound; and if it succeeds, the record is Active, owns
  -- exactly what it desires, and the file holds it so.
  pub apply_reserved-Verified :
      (prefix : Prefix) (a : Reservation) (generation : ℕ) (w : World)
      → Knows env w
      → Post
          (λ _. Verified env role dir prefix)
          (Knows env)
          (apply_reserved env role prefix a generation w)
  unfolding apply_reserved call
  apply_reserved-Verified prefix a generation w k =
      and_then-Post _ (registering-Called env (reserves role prefix a) _ w refl k) λ _ w1 k1.
        and_then-Post _ (write_checkpoint-Sure env role dir generation w1 k1.0) λ _ w2 k2.
          and_then-Post _ (ask-Sure env role dir _ w2 refl tt k2) λ _ w3 k3.
            and_then-Post _
              (typed_conflict-Post role prefix (reconcile_record-Verified prefix w3 k3))
              λ _ w4 k4. succeeds k4

-- ===== src/Control/WriteAhead/Parked.antt =====
-- toad/internal/control/selected_parking.go: no park is written ahead of its record.
use kikimora.Prelude.{
  String, ◌≡◌, refl, ◌∙◌, ap, sym, subst, Bool, true, false, Option, none, some, arith, ok, ◌==◌,
}
use kikimora.Netip.{Prefix}
use kikimora.Routing.Identity.{SelectedParkIdentity, park_identity_eq}
use kikimora.Routing.Record.{
  SelectedParkState, park_pending, park_applying, park_active, park_retiring, other_park_state,
  SelectedPark, SelectedRoute,
}
use kikimora.Routing.Machine.{on_park, mark_park_applying_tx}
use kikimora.Routing.Machine.Restorable.{on_park-eq-ok}
use kikimora.Routing.Registry.{mark_park_applying}
use kikimora.Routing.History.{call, marks_park_applying, marks_park_active, reserves_park}
use kikimora.Control.Entries.{registry_entry-transition}
use kikimora.Control.World.{Env, World, gets, reconcile_park, registry_entry, has_dir}
use kikimora.Control.Transactions.{park_of}
use kikimora.Control.Parking.{
  live, reconcile_live, settle_park, apply_park_transaction, park_preflight, run_park_transaction,
  rereserve_park, observe_present, still_there, repark, resume_pending, park_in, park_found,
  normalize_park_identity, park_one,
}
use kikimora.Control.WriteAhead.{May}
use kikimora.Control.WriteAhead.Rules.{
  Post, succeeds, and_then-Post, if-Post, require-Post, Knows, Called, registering-Called, Sure, At,
  At-Held, save-Sure, save-At, ask-Knows, ask-At, ask-Sure, reread-At,
}
use kikimora.Control.WriteAhead.Retired.{remove_and_clear_park-Sure}

mark_park_applying_tx-applying :
    (p : SelectedPark) {p' : SelectedPark}
    → mark_park_applying_tx p ≡ ok p'
    → p'.state ≡ park_applying
unfolding mark_park_applying_tx
mark_park_applying_tx-applying p m = ground arith

marked_park :
    (e : SelectedRoute) {e' : SelectedRoute}
    → on_park mark_park_applying_tx e ≡ ok e'
    → (p : SelectedPark) × (e'.park ≡ some p)
      × (p.state ≡ park_applying)
      × (record e { park = e'.park } ≡ e')
marked_park e {e'} m =
    let (p, p', has, moved, same) = on_park-eq-ok mark_park_applying_tx e m in
    let parked : e'.park ≡ some p' = ap (λ (x : SelectedRoute). x.park) same in
    (
      p',
      parked,
      mark_park_applying_tx-applying p moved,
      ap (λ (o : Option SelectedPark). record e { park = o }) parked ∙ sym same,
    )

module _ (env : Env) (role : String) (dir : has_dir env role ≡ true) where
  settle_park-Sure :
      (prefix : Prefix) (desired verified : SelectedParkIdentity) (w : World)
      → Knows env w
      → Post (λ _. Sure env role dir) (Knows env) (settle_park env role prefix desired verified w)
  unfolding settle_park call
  settle_park-Sure prefix desired verified w k =
      and_then-Post _ (ask-Knows env role dir _ w tt k) λ _ w1 k1.
        and_then-Post _ (require-Post _ _ w1 k1) λ _ w2 k2.
          and_then-Post _
            (registering-Called env (marks_park_active role prefix verified) _ w2 refl k2)
            λ _ w3 k3. and_then-Post _ (ask-Knows env role dir _ w3 tt k3.0) λ _ w4 k4.
              and_then-Post _ (save-Sure env role dir w4 k4)
                λ _ w5 p5. ask-Sure env role dir _ w5 refl tt p5

  reconcile_live-Sure :
      (prefix : Prefix) (e : SelectedRoute) (w : World)
      → May (reconcile_park role prefix e) w.history
      → Sure env role dir w
      → Post (λ _. Sure env role dir) (Knows env) (reconcile_live env role prefix e w)
  unfolding reconcile_live
  reconcile_live-Sure prefix e w m p =
      and_then-Post _ (ask-Sure env role dir _ w refl m p) λ _ w1 p1. succeeds p1

  -- The registered record after MarkParkApplying.
  abbrev Marked : Prefix → SelectedRoute → World → Type 0
  Marked prefix e w =
      (e' : SelectedRoute) × (p : SelectedPark) × (registry_entry env role prefix w ≡ some e')
      × (e'.park ≡ some p)
      × (p.state ≡ park_applying)
      × (live env e e'.park ≡ e')

  Marked-Marked :
      (prefix : Prefix) (e : SelectedRoute) (w w' : World)
      → registry_entry env role prefix w ≡ some e
      → Knows env w
      → Called env (marks_park_applying role prefix) w w'
      → Marked prefix e w'
  unfolding call mark_park_applying
  Marked-Marked prefix e w w' f k c =
      let (old, new, was, moved, now) =
        registry_entry-transition env role prefix (on_park mark_park_applying_tx) w w' k.1 c.0.1
          c.1 in
      let (p, has, at, same) = marked_park old moved in
      (
        new,
        p,
        now,
        has,
        at,
        ap (λ (o : Option SelectedRoute). elim o [ none ↦ new | some x ↦ live env x new.park ])
              (sym f ∙ was)
            ∙ same,
      )

  parked-Post :
      (prefix : Prefix) (e : SelectedRoute) (w : World)
      → At env role dir prefix e w
      → Post
          (λ park w'. (park ≡ e.park) × At env role dir prefix e w')
          (Knows env)
          (gets (λ w. park_of env (registry_entry env role prefix w)) w)
  parked-Post prefix e w p = succeeds (ap (park_of env) p.1, p)

  apply_park_transaction-Sure :
      (prefix : Prefix) (desired : SelectedParkIdentity) (e : SelectedRoute) (w : World)
      → registry_entry env role prefix w ≡ some e
      → Knows env w
      → Post
          (λ _. Sure env role dir)
          (Knows env)
          (apply_park_transaction env role prefix desired e w)
  unfolding apply_park_transaction call
  apply_park_transaction-Sure prefix desired e w f k =
      and_then-Post _ (registering-Called env (marks_park_applying role prefix) _ w refl k)
        λ _ w1 k1.
          let (e', p, now, has, at, same) = Marked-Marked prefix e w w1 f k k1 in
          and_then-Post _ (save-At env role dir prefix e' w1 k1.0 now) λ _ w2 p2.
            and_then-Post _ (ask-At env role dir prefix e' _ w2 refl tt p2) λ _ w3 p3.
              and_then-Post _ (parked-Post prefix e' w3 p3) λ park w4 q.
                and_then-Post _
                  (reconcile_live-Sure prefix (live env e park) w4
                    (subst (λ (x : SelectedRoute). May (reconcile_park role prefix x) w4.history)
                      (sym (ap (live env e) q.0 ∙ same))
                      (p, At-Held env role dir prefix e' w4 q.1, has, at))
                    q.1.0)
                  λ verified w5 p5. settle_park-Sure prefix desired verified w5 p5.0

  park_preflight-Sure :
      (prefix : Prefix) (desired : SelectedParkIdentity) (e : SelectedRoute) (b : Bool) (w : World)
      → Sure env role dir w
      → Post (λ _. Sure env role dir) (Knows env) (park_preflight env role prefix desired e b w)
  unfolding park_preflight
  park_preflight-Sure prefix desired e true w p =
      and_then-Post _ (ask-Sure env role dir _ w refl tt p)
        λ _ w1 p1. ask-Sure env role dir _ w1 refl tt p1
  park_preflight-Sure prefix desired e false w p = succeeds p

  run_park_transaction-Sure :
      (prefix : Prefix) (desired : SelectedParkIdentity) (b : Bool) (w : World)
      → Knows env w
      → Post (λ _. Sure env role dir) (Knows env) (run_park_transaction env role prefix desired b w)
  unfolding run_park_transaction call
  run_park_transaction-Sure prefix desired b w k =
      and_then-Post _ (registering-Called env (reserves_park role prefix desired false) _ w refl k)
        λ _ w1 k1. and_then-Post _ (save-Sure env role dir w1 k1.0) λ _ w2 p2.
          and_then-Post _ (ask-Sure env role dir _ w2 refl tt p2) λ _ w3 p3.
            and_then-Post _ (reread-At env role dir prefix w3 p3) λ e w4 p4.
              and_then-Post _ (park_preflight-Sure prefix desired e b w4 p4.0) λ _ w5 p5.
                and_then-Post _ (reread-At env role dir prefix w5 p5)
                  λ latest w6 p6. apply_park_transaction-Sure prefix desired latest w6 p6.1 p6.0.0

  rereserve_park-Sure :
      (prefix : Prefix) (desired : SelectedParkIdentity) (w : World)
      → Knows env w
      → Post (λ _. Sure env role dir) (Knows env) (rereserve_park env role prefix desired w)
  unfolding rereserve_park call
  rereserve_park-Sure prefix desired w k =
      and_then-Post _ (registering-Called env (reserves_park role prefix desired true) _ w refl k)
        λ _ w1 k1. and_then-Post _ (save-Sure env role dir w1 k1.0) λ _ w2 p2.
          and_then-Post _ (reread-At env role dir prefix w2 p2) λ e w3 p3.
            and_then-Post _ (ask-At env role dir prefix e _ w3 refl tt p3)
              λ _ w4 p4. apply_park_transaction-Sure prefix desired e w4 p4.1 p4.0.0

  still_there-Sure :
      (prefix : Prefix) (desired : SelectedParkIdentity) (p : SelectedPark)
      (owned : Option SelectedParkIdentity) (w : World)
      → Sure env role dir w
      → Post (λ _. Sure env role dir) (Knows env) (still_there env prefix desired p owned w)
  unfolding still_there observe_present
  still_there-Sure prefix desired p none w s = succeeds s
  still_there-Sure prefix desired p (some owned) w s =
      if-Post (p.desired == desired) _ _ w
        (λ _. and_then-Post _ (ask-Sure env role dir _ w refl tt s) λ _ w1 s1. succeeds s1)
        (λ _. succeeds s)

  repark-Sure :
      (b : Bool) (prefix : Prefix) (desired : SelectedParkIdentity) (w : World)
      → Sure env role dir w
      → Post (λ _. Sure env role dir) (Knows env) (repark env b role prefix desired w)
  unfolding repark
  repark-Sure true prefix desired w p = succeeds p
  repark-Sure false prefix desired w p = rereserve_park-Sure prefix desired w p.0

  resume_pending-Sure :
      (b : Bool) (prefix : Prefix) (desired : SelectedParkIdentity) (e : SelectedRoute) (w : World)
      → At env role dir prefix e w
      → Post (λ _. Sure env role dir) (Knows env) (resume_pending env b role prefix desired e w)
  unfolding resume_pending
  resume_pending-Sure true prefix desired e w p =
      and_then-Post _ (ask-At env role dir prefix e _ w refl tt p)
        λ _ w1 p1. apply_park_transaction-Sure prefix desired e w1 p1.1 p1.0.0
  resume_pending-Sure false prefix desired e w p = rereserve_park-Sure prefix desired w p.0.0

  park_in-Sure :
      (s : SelectedParkState) (prefix : Prefix) (desired : SelectedParkIdentity) (p : SelectedPark)
      (e : SelectedRoute) (w : World)
      → p.state ≡ s
      → e.park ≡ some p
      → At env role dir prefix e w
      → Post (λ _. Sure env role dir) (Knows env) (park_in env s role prefix desired p e w)
  unfolding park_in
  park_in-Sure park_pending prefix desired p e w s has a =
      resume_pending-Sure _ prefix desired e w a
  park_in-Sure park_applying prefix desired p e w s has a =
      apply_park_transaction-Sure prefix desired e w a.1 a.0.0
  park_in-Sure park_active prefix desired p e w s has a =
      and_then-Post _ (still_there-Sure prefix desired p p.owned w a.0)
        λ present w1 a1. repark-Sure present prefix desired w1 a1
  park_in-Sure park_retiring prefix desired p e w s has a =
      and_then-Post _
        (remove_and_clear_park-Sure env role dir prefix e (some p) w has (λ q t. ground (arith, s))
          a)
        λ _ w1 a1. run_park_transaction-Sure prefix desired true w1 a1.0
  park_in-Sure (other_park_state x) prefix desired p e w s has a =
      run_park_transaction-Sure prefix desired false w a.0.0

  park_found-Sure :
      (park : Option SelectedPark) (prefix : Prefix) (desired : SelectedParkIdentity)
      (e : SelectedRoute) (w : World)
      → e.park ≡ park
      → At env role dir prefix e w
      → Post (λ _. Sure env role dir) (Knows env) (park_found env park role prefix desired e w)
  unfolding park_found
  park_found-Sure none prefix desired e w has a =
      run_park_transaction-Sure prefix desired true w a.0.0
  park_found-Sure (some p) prefix desired e w has a =
      park_in-Sure p.state prefix desired p e w refl has a

  normalize_park_identity-At :
      (prefix : Prefix) (e : SelectedRoute) (w : World)
      → At env role dir prefix e w
      → Post (λ _. At env role dir prefix e) (Knows env) (normalize_park_identity env prefix w)
  unfolding normalize_park_identity
  normalize_park_identity-At prefix e w a =
      and_then-Post _ (ask-At env role dir prefix e _ w refl tt a) λ _ w1 a1. succeeds a1

  -- Parking one registered record, for a role with a state directory, from a sound registry after requests
  -- that were all allowed, with its records in the file: whatever the state of the park and whatever the
  -- outside answers, a park is written only while the file holds it as Applying and deleted only while
  -- the file holds it as Retiring; and if it succeeds, the file holds the registry's records again.
  pub park_one-Sure :
      (e : SelectedRoute) (w : World)
      → At env role dir e.prefix e w
      → Post (λ _. Sure env role dir) (Knows env) (park_one env role e w)
  unfolding park_one
  park_one-Sure e w a =
      and_then-Post _ (normalize_park_identity-At e.prefix e w a)
        λ desired w1 a1. park_found-Sure e.park e.prefix desired e w1 refl a1

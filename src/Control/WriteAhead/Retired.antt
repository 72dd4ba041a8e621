-- ===== src/Control/WriteAhead/Retired.antt =====
-- toad/internal/control/selected_transactions.go: no route and no park is deleted ahead of its record.
use kikimora.Prelude.{String, ◌≡◌, refl, ◌∙◌, ap, sym, subst, true, Option, none, some, arith, ok}
use kikimora.Netip.{Prefix}
use kikimora.Routing.Record.{
  SelectedRouteState, retiring, SelectedParkState, park_pending, park_applying, park_active,
  park_retiring, other_park_state, SelectedPark, SelectedRoute,
}
use kikimora.Routing.Machine.{is_retiring, on_park, mark_park_retiring_tx, mark_retiring_entry}
use kikimora.Routing.Registry.{mark_retiring, mark_park_retiring}
use kikimora.Control.Entries.{registry_entry-transition}
use kikimora.Routing.History.{call, marks_retiring, marks_park_retiring, clears_park, removes}
use kikimora.Control.World.{Env, World, and_then, registry_entry, registry_snapshot, has_dir}
use kikimora.Control.Transactions.{
  remove_and_clear_park, park_of, resume_park_retirement, retire_park, retire_live_park,
  retire_park_in, begin_retirement, finish_retirement, retire_found, retire_record,
}
use kikimora.Control.WriteAhead.Rules.{
  Post, succeeds, and_then-Post, guard-Post, if-Post, Knows, registering-Called, Sure, At, At-Held,
  save-Sure, save-Saved, reread-Found, Called, clear_verification-Sure, ask-At, ask-Sure,
}

is_retiring-retiring : (s : SelectedRouteState) → is_retiring s ≡ true → s ≡ retiring
is_retiring-retiring s h = ground arith

some-injective : {a b : SelectedRoute} → ◌≡◌ {A = Option SelectedRoute} (some a) (some b) → a ≡ b
some-injective h = cc

module _ (env : Env) (role : String) (dir : has_dir env role ≡ true) where
  pub remove_and_clear_park-Sure :
      (prefix : Prefix) (e : SelectedRoute) (found : Option SelectedPark) (w : World)
      → e.park ≡ found
      → ((p : SelectedPark) → found ≡ some p → p.state ≡ park_retiring)
      → At env role dir prefix e w
      → Post (λ _. Sure env role dir) (Knows env) (remove_and_clear_park env role prefix found w)
  unfolding remove_and_clear_park call
  remove_and_clear_park-Sure prefix e none w f h p = succeeds p.0
  remove_and_clear_park-Sure prefix e (some park) w f h p =
      and_then-Post _
        (ask-Sure env role dir _ w refl (e, At-Held env role dir prefix e w p, f, h park refl) p.0)
        λ _ w1 p1. and_then-Post _ (ask-Sure env role dir _ w1 refl tt p1) λ _ w2 p2.
          and_then-Post _ (registering-Called env (clears_park role prefix) _ w2 refl p2.0)
            λ _ w3 k3. save-Sure env role dir w3 k3.0

  resume_found-Sure :
      (prefix : Prefix) (found : Option SelectedRoute) (w : World)
      → registry_entry env role prefix w ≡ found
      → ((e : SelectedRoute) (p : SelectedPark)
          → found ≡ some e
          → e.park ≡ some p
          → p.state ≡ park_retiring)
      → Sure env role dir w
      → Post
          (λ _. Sure env role dir)
          (Knows env)
          (remove_and_clear_park env role prefix (park_of env found) w)
  resume_found-Sure prefix none w f h p = unfold remove_and_clear_park in succeeds p
  resume_found-Sure prefix (some e) w f h p =
      remove_and_clear_park-Sure prefix e e.park w refl (λ q t. h e q refl t) (p, f)

  -- The park of the registered record, if there is one, retires.
  abbrev pub ParkRetires : Prefix → World → Type 0
  ParkRetires prefix w =
      (e : SelectedRoute) (p : SelectedPark)
      → registry_entry env role prefix w ≡ some e
      → e.park ≡ some p
      → p.state ≡ park_retiring

  pub resume_park_retirement-Sure :
      (prefix : Prefix) (w : World)
      → ParkRetires prefix w
      → Sure env role dir w
      → Post (λ _. Sure env role dir) (Knows env) (resume_park_retirement env role prefix w)
  unfolding resume_park_retirement and_then
  resume_park_retirement-Sure prefix w h p =
      resume_found-Sure prefix (registry_entry env role prefix w) w refl h p

  entry_of :
      (prefix : Prefix) (w w' : World)
      → w'.registry ≡ w.registry
      → registry_entry env role prefix w' ≡ registry_entry env role prefix w
  unfolding registry_entry registry_snapshot
  entry_of prefix w w' q = rw q

  mark_park_retiring_tx-retiring :
      (e : SelectedRoute) {e' : SelectedRoute}
      → on_park mark_park_retiring_tx e ≡ ok e'
      → (p : SelectedPark) → e'.park ≡ some p
      → p.state ≡ park_retiring
  unfolding on_park mark_park_retiring_tx
  mark_park_retiring_tx-retiring e m p h = ground arith

  marked-ParkRetires :
      (prefix : Prefix) (w w' : World)
      → Knows env w
      → Called env (marks_park_retiring role prefix) w w'
      → ParkRetires prefix w'
  unfolding call mark_park_retiring
  marked-ParkRetires prefix w w' k c e p found park =
      let (old, new, _, moved, now) =
        registry_entry-transition env role prefix (on_park mark_park_retiring_tx) w w' k.1 c.0.1
          c.1 in
      mark_park_retiring_tx-retiring old moved p
        (ap (λ o. elim o [ none ↦ none | some x ↦ x.park ]) (sym now ∙ found) ∙ park)

  retire_live_park-Sure :
      (prefix : Prefix) (w : World)
      → Knows env w
      → Post (λ _. Sure env role dir) (Knows env) (retire_live_park env role prefix w)
  unfolding retire_live_park call
  retire_live_park-Sure prefix w k =
      and_then-Post _ (registering-Called env (marks_park_retiring role prefix) _ w refl k)
        λ _ w1 k1. and_then-Post _ (save-Saved env role dir w1 k1.0) λ _ w2 p2.
          resume_park_retirement-Sure prefix w2
            (λ e p found.
              marked-ParkRetires prefix w w1 k k1 e p (sym (entry_of prefix w1 w2 p2.1) ∙ found))
            p2.0

  retire_park_in-Sure :
      (s : SelectedParkState) (prefix : Prefix) (w : World)
      → (s ≡ park_retiring → ParkRetires prefix w)
      → Sure env role dir w
      → Post (λ _. Sure env role dir) (Knows env) (retire_park_in env s role prefix w)
  unfolding retire_park_in call
  retire_park_in-Sure park_pending prefix w h p =
      and_then-Post _ (registering-Called env (clears_park role prefix) _ w refl p.0)
        λ _ w1 k1. save-Sure env role dir w1 k1.0
  retire_park_in-Sure park_applying prefix w h p = retire_live_park-Sure prefix w p.0
  retire_park_in-Sure park_active prefix w h p = retire_live_park-Sure prefix w p.0
  retire_park_in-Sure park_retiring prefix w h p = resume_park_retirement-Sure prefix w (h refl) p
  retire_park_in-Sure (other_park_state s) prefix w h p = succeeds p

  retire_park-Sure :
      (prefix : Prefix) (e : SelectedRoute) (park : Option SelectedPark) (w : World)
      → e.park ≡ park
      → At env role dir prefix e w
      → Post (λ _. Sure env role dir) (Knows env) (retire_park env role prefix park w)
  unfolding retire_park
  retire_park-Sure prefix e none w f p = succeeds p.0
  retire_park-Sure prefix e (some x) w f p =
      retire_park_in-Sure x.state prefix w
        (λ r e' q found has. park_retires r e' q (sym p.1 ∙ found) has) p.0
    where
      park_retires :
          x.state ≡ park_retiring
          → (e' : SelectedRoute) (q : SelectedPark)
          → ◌≡◌ {A = Option SelectedRoute} (some e) (some e')
          → e'.park ≡ some q
          → q.state ≡ park_retiring
      park_retires r e' q same has = ground (arith, f)

  finish_retirement-Sure :
      (prefix : Prefix) (e : SelectedRoute) (w : World)
      → At env role dir prefix e w
      → e.state ≡ retiring
      → Post (λ _. Sure env role dir) (Knows env) (finish_retirement env role prefix e w)
  unfolding finish_retirement call
  finish_retirement-Sure prefix e w p r =
      and_then-Post _
        (ask-At env role dir prefix e _ w refl (role, prefix, At-Held env role dir prefix e w p, r)
          p)
        λ _ w1 p1. and_then-Post _ (retire_park-Sure prefix e e.park w1 refl p1) λ _ w2 p2.
          and_then-Post _ (registering-Called env (removes role prefix) _ w2 refl p2.0) λ _ w3 k3.
            and_then-Post _ (save-Sure env role dir w3 k3.0)
              λ _ w4 p4. clear_verification-Sure env role dir prefix w4 p4

  mark_retiring_entry-retiring :
      (e : SelectedRoute) {e' : SelectedRoute} → mark_retiring_entry e ≡ ok e' → e'.state ≡ retiring
  unfolding mark_retiring_entry
  mark_retiring_entry-retiring e m = ground arith

  marked-retiring :
      (prefix : Prefix) (w w' : World)
      → Knows env w
      → Called env (marks_retiring role prefix) w w'
      → (e : SelectedRoute) → registry_entry env role prefix w' ≡ some e
      → e.state ≡ retiring
  unfolding call mark_retiring
  marked-retiring prefix w w' k c e found =
      let (old, new, _, moved, now) =
        registry_entry-transition env role prefix mark_retiring_entry w w' k.1 c.0.1 c.1 in
      subst (λ (x : SelectedRoute). x.state ≡ retiring) (some-injective (sym now ∙ found))
        (mark_retiring_entry-retiring old moved)

  begin_retirement-Found :
      (prefix : Prefix) (e : SelectedRoute) (w : World)
      → At env role dir prefix e w
      → Post
          (λ x w'. At env role dir prefix x w' × (x.state ≡ retiring))
          (Knows env)
          (begin_retirement env role prefix e w)
  unfolding begin_retirement call
  begin_retirement-Found prefix e w p =
      if-Post (is_retiring e.state) _ _ w (λ s. succeeds (p, is_retiring-retiring e.state s))
        (λ _.
          and_then-Post _ (registering-Called env (marks_retiring role prefix) _ w refl p.0.0)
            λ _ w1 k1. and_then-Post _ (save-Saved env role dir w1 k1.0) λ _ w2 p2.
              reread-Found env role dir (λ x. x.state ≡ retiring) prefix w2
                (λ x found.
                  marked-retiring prefix w w1 p.0.0 k1 x (sym (entry_of prefix w1 w2 p2.1) ∙ found))
                p2.0)

  retire_found-Sure :
      (prefix : Prefix) (found : Option SelectedRoute) (w : World)
      → registry_entry env role prefix w ≡ found
      → Sure env role dir w
      → Post (λ _. Sure env role dir) (Knows env) (retire_found env role prefix found w)
  unfolding retire_found
  retire_found-Sure prefix none w f p = succeeds p
  retire_found-Sure prefix (some e) w f p =
      and_then-Post _ (begin_retirement-Found prefix e w (p, f))
        λ x w1 q. finish_retirement-Sure prefix x w1 q.0 q.1

  -- The retirement of a destination, for a role with a state directory, from a sound registry after
  -- requests that were all allowed, with its records in the file: a route is deleted only while the file
  -- holds its record as Retiring, a park only while the file holds the park as Retiring, also where a
  -- step fails; and if it succeeds, the file holds the registry's records again.
  pub retire_record-Sure :
      (prefix : Prefix) (w : World)
      → Sure env role dir w
      → Post (λ _. Sure env role dir) (Knows env) (retire_record env role prefix w)
  unfolding retire_record and_then
  retire_record-Sure prefix w p =
      and_then-Post _ (guard-Post env.routes_resolved _ w p p.0)
        λ _ w1 p1. retire_found-Sure prefix (registry_entry env role prefix w1) w1 refl p1

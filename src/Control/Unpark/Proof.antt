-- ===== src/Control/Unpark/Proof.antt =====
-- toad/internal/control/selected_parking.go: what retireProvenPark has seen.
use kikimora.Prelude.{
  String, ◌≡◌, refl, ◌∙◌, sym, ap, subst, Bool, true, false, not, ◌&&◌, ◌||◌, any, all, arith,
  Option, none, some, List, [], ◌∷◌, ◌++◌, ◌==◌, ok, ◌⊎◌, inl, inr,
}
use kikimora.Netip.{Prefix}
use kikimora.Routing.Identity.{SelectedParkIdentity, park_identity_eq}
use kikimora.Routing.Record.{SelectedPark, SelectedRoute}
use kikimora.Routing.Plan.{SelectedKernelRow, is_foreign, is_park, row_matches_identity}
use kikimora.Control.World.{
  Request, snapshot_rows, remove_park, observe_park, History, Env, World, not_proven, not_winning,
}
use kikimora.Control.WriteAhead.Rules.{Post, succeeds, fails, and_then-Post}
use kikimora.Control.Unpark.{
  Prover, present_before, wins_at, listed_rows, snapshot_selected, prove_restored, is_selected,
  retire_owned, retire_proven_park,
}
use kikimora.Control.Unpark.Calls.{
  Post-both, verdict-Post, true-Post, ask-exact, observe_present-exact, unpark-Keeps,
}

abbrev deletion : Request → List (Prefix × SelectedPark) → List (Prefix × SelectedPark)
deletion (remove_park role prefix p) ps = (prefix, p) ∷ ps
deletion _ ps = ps

-- The deletions of parks that were asked for, newest first.
abbrev pub deletions : History → List (Prefix × SelectedPark)
deletions [] = []
deletions ((q, succeeded) ∷ h) = deletion q (deletions h)

-- The request succeeded, after `old`, when the history before it met `P`.
abbrev pub Among : (History → Type 0) → Request → History → History → Type 0
Among P q old [] = ⊥
Among P q old ((q', succeeded) ∷ new) =
    ((q' ≡ q) × (succeeded ≡ true) × P (new ++ old)) ⊎ Among P q old new

abbrev pub Occurs : (History → Type 0) → Request → History → History → Type 0
Occurs P q old h = (new : History) × (h ≡ new ++ old) × Among P q old new

-- A row that may stand beside the selected one.
abbrev pub coexists : SelectedParkIdentity → SelectedKernelRow → Bool
coexists owned row = not (is_foreign row.kind) && (not (is_park row.kind) || row.park == owned)

present_before_lem :
    (e : SelectedRoute) (owned : SelectedParkIdentity) (found : Bool)
    (rows : List SelectedKernelRow)
    → present_before e owned found rows ≡ ok true
    → (all (coexists owned) rows ≡ true)
      × (found || any (λ row. row_matches_identity row e.desired) rows ≡ true)
unfolding present_before
present_before_lem e owned found [] h = ground arith
present_before_lem e owned found (row ∷ rows) h =
    ground (arith, present_before_lem e owned (found || row_matches_identity row e.desired) rows)

module _ (env : Env) where
  module _ (prover : Prover) where
    snapshot-exact :
        (prefix : Prefix) (w : World)
        → Post
            (λ rows w'.
              (rows ≡ listed_rows env prover prefix w.history)
              × (w'.history ≡ (snapshot_rows, true) ∷ w.history))
            (λ w'. w'.history ≡ (snapshot_rows, false) ∷ w.history)
            (snapshot_selected env prover prefix w)
    unfolding snapshot_selected
    snapshot-exact prefix w =
        and_then-Post _ (ask-exact env snapshot_rows w) λ _ w1 h. succeeds (refl, h)

    -- The rows that are asked for next have the selected one, no foreign one, and no park but the owned
    -- one; and the proof after them finds that the route wins.
    abbrev pub Cleared : SelectedRoute → SelectedParkIdentity → History → Type 0
    Cleared e owned h =
        let rows : List SelectedKernelRow = listed_rows env prover e.prefix h in
        (all (coexists owned) rows ≡ true)
        × (any (λ row. row_matches_identity row e.desired) rows ≡ true)
        × (wins_at env prover e owned ((snapshot_rows, true) ∷ h) ≡ ok true)

    -- The park was not there; or the rows had the selected one, none of another owner, and it wins.
    abbrev pub Restored : SelectedRoute → SelectedParkIdentity → History → History → Type 0
    Restored e owned old h =
        Occurs (λ h. env.observed (observe_park e.prefix owned) h ≡ false)
          (observe_park e.prefix owned) old h
        ⊎ Occurs (Cleared e owned) snapshot_rows old h

    -- The record and its park own exactly what they desire, and the route is back.
    abbrev pub Proven : SelectedRoute → SelectedPark → History → History → Type 0
    Proven e p old h =
        (owned : SelectedParkIdentity) × (p.owned ≡ some owned)
        × ((owned == p.desired) ≡ true)
        × (is_selected env prover e ≡ true)
        × Restored e owned old h

    module _ (old : History) (asked : List (Prefix × SelectedPark)) where
      abbrev Same : World → Type 0
      Same w = deletions w.history ≡ asked

      abbrev After : World → World → Type 0
      After w w' = w'.history ≡ (snapshot_rows, true) ∷ w.history

      prove_restored-Restored :
          (e : SelectedRoute) (owned : SelectedParkIdentity) (b : Bool) (w : World) (new : History)
          → w.history ≡ new ++ old
          → (b ≡ false → Restored e owned old w.history)
          → Same w
          → Post
              (λ _ w'. Restored e owned old w'.history)
              Same
              (prove_restored env prover e owned b w)
      unfolding prove_restored
      prove_restored-Restored e owned false w new n k s = succeeds (k refl)
      prove_restored-Restored e owned true w new n k s =
          and_then-Post _
            (Post-both (λ _ _ q. q) (λ _ h. ap deletions h ∙ s) (snapshot-exact e.prefix w))
            λ rows w1 (r, h1).
              let same1 : Same w1 = ap deletions h1 ∙ s in
              and_then-Post _
                (verdict-Post (present_before e owned false rows) (After w) Same w1 h1 same1)
                λ found w2 (found_is, h2).
                  and_then-Post _
                    (true-Post found not_proven (After w) Same w2 h2 (ap deletions h2 ∙ s))
                    λ _ w3 (f, h3).
                      and_then-Post _
                        (verdict-Post (wins_at env prover e owned w3.history) (After w) Same w3 h3
                          (ap deletions h3 ∙ s))
                        λ wins w4 (wins_is, h4).
                          let cleared =
                            present_before_lem e owned false
                              (listed_rows env prover e.prefix w.history)
                              (ap (present_before e owned false) (sym r) ∙ found_is ∙ ap ok f) in
                          Post-both
                            (λ _ w5 (v, h5). subst (Restored e owned old) (sym h5) (
                              inr (
                                (snapshot_rows, true) ∷ new,
                                ap (λ (h : History). (snapshot_rows, true) ∷ h) n,
                                inl (
                                  refl,
                                  refl,
                                  subst (Cleared e owned) n (
                                    cleared.0,
                                    cleared.1,
                                    ap (wins_at env prover e owned) (sym h3) ∙ wins_is ∙ ap ok v,
                                  ),
                                ),
                              )))
                            (λ _ q. q)
                            (true-Post wins not_winning (After w) Same w4 h4 (ap deletions h4 ∙ s))

module _ (env : Env) (prover : Prover) (role : String) (e : SelectedRoute) (p : SelectedPark)
    (old : History) where
  Proven-more :
      (q : Request) (b : Bool) (h : History)
      → Proven env prover e p old h
      → Proven env prover e p old ((q, b) ∷ h)
  Proven-more q b h (owned, o, d, s, inl (new, n, c)) =
      (owned, o, d, s, inl ((q, b) ∷ new, ap (λ (h : History). (q, b) ∷ h) n, inr c))
  Proven-more q b h (owned, o, d, s, inr (new, n, c)) =
      (owned, o, d, s, inr ((q, b) ∷ new, ap (λ (h : History). (q, b) ∷ h) n, inr c))

  -- A failure leaves every park, or has the proof.
  abbrev Spared : World → Type 0
  Spared w' = (deletions w'.history ≡ deletions old) ⊎ Proven env prover e p old w'.history

  retire_owned-Proven :
      (found : Option SelectedParkIdentity) (w : World)
      → w.history ≡ old
      → p.owned ≡ found
      → is_selected env prover e ≡ true
      → Post
          (λ _ w'. Proven env prover e p old w'.history)
          Spared
          (retire_owned env prover role e p found w)
  unfolding retire_owned
  retire_owned-Proven none w k o s = fails (inl (ap deletions k))
  retire_owned-Proven (some owned) w k o s =
      and_then-Post _
        (true-Post (owned == p.desired) not_proven (λ w'. w'.history ≡ old) Spared w k
          (inl (ap deletions k)))
        λ _ w1 (d, h1).
          and_then-Post _
            (Post-both (λ _ _ q. q) (λ _ h. inl (ap deletions h ∙ ap deletions h1))
              (observe_present-exact env e.prefix owned w1))
            λ present w2 (seen, h2).
              and_then-Post _
                (Post-both (λ _ _ r. r) (λ _ same. inl same)
                  (prove_restored-Restored env prover old (deletions old) e owned present w2
                    ((observe_park e.prefix owned, true) ∷ []) (again h1 h2)
                    (λ absent. inl (
                      (observe_park e.prefix owned, true) ∷ [],
                      again h1 h2,
                      inl (refl, refl, subst Absent h1 (sym seen ∙ absent)),
                    ))
                    (ap deletions h2 ∙ ap deletions h1)))
                λ _ w3 restored.
                  Post-both (λ _ _ q. q) (λ _ q. inr q)
                    (unpark-Keeps env (Proven env prover e p old) Proven-more prover role e p owned
                      w3 (owned, o, d, s, restored))
    where
      again :
          {h1 h2 : History}
          → h1 ≡ old
          → h2 ≡ (observe_park e.prefix owned, true) ∷ h1
          → h2 ≡ (observe_park e.prefix owned, true) ∷ old
      again a b = cc

      Absent : History → Type 0
      Absent h = env.observed (observe_park e.prefix owned) h ≡ false

-- Whatever the outside answers, a call of retireProvenPark that succeeds, or that asks for the deletion of a
-- park, has its proof: the record is Active, it and its park own exactly what they desire, and in this call
-- the park was seen to be gone, or the rows had the selected route, neither a foreign row nor another park,
-- and the route was then found to win.
pub retire_proven_park-Proven :
    (env : Env) (prover : Prover) (role : String) (e : SelectedRoute) (p : SelectedPark) (w : World)
    → Post
        (λ _ w'. Proven env prover e p w.history w'.history)
        (λ w'.
          (deletions w'.history ≡ deletions w.history) ⊎ Proven env prover e p w.history w'.history)
        (retire_proven_park env prover role e p w)
unfolding retire_proven_park
retire_proven_park-Proven env prover role e p w =
    and_then-Post _
      (true-Post (is_selected env prover e) not_proven (λ w'. w'.history ≡ w.history) _ w refl
        (inl refl))
      λ _ w1 (s, h1). retire_owned-Proven env prover role e p w.history p.owned w1 h1 refl s

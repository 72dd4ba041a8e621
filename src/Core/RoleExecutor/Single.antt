-- ===== src/Core/RoleExecutor/Single.antt =====
-- toad/internal/core/role_executor.go: the workers of a role that nobody has stopped.
use kikimora.Prelude.{
  ℕ, String, ◌≡◌, ◌<◌, refl, sym, ◌∙◌, ap, Bool, true, false, ◌&&◌, ◌||◌, Option, none, some, List,
  [], ◌∷◌, ◌==◌, nat_eq, nat_beq_iff, string_eq, eq_iff, arith, Bool-cases, inl, inr,
}
use kikimora.Core.Model.{OperationResult}
use kikimora.Core.RoleExecutor.{
  Phase, absent, working, holding, leaving, gone, RoleExecutor, put_at, stop, submit, cancel_role,
  enter, finished, delivered, dropped, released, left, ExecutorEvent, submits, cancels, finishes,
  delivers, drops, leaves, aborts, executor_step, run_events,
}

-- The work has not reported yet.
abbrev pub is_live : Phase → Bool
is_live working = true
is_live (holding r) = true
is_live _ = false

abbrev is_absent : Phase → Bool
is_absent absent = true
is_absent _ = false

abbrev pub used : String → ℕ → List ExecutorEvent → Bool
used role op [] = false
used role op (submits r o epoch ∷ vs) = r == role && o == op || used role op vs
used role op (v ∷ vs) = used role op vs

-- No operation number is submitted twice for a role.
abbrev pub Unrepeated : List ExecutorEvent → Type 0
Unrepeated [] = Unit {0}
Unrepeated (submits role op epoch ∷ vs) = (used role op vs ≡ false) × Unrepeated vs
Unrepeated (v ∷ vs) = Unrepeated vs

record Inv (vs : List ExecutorEvent) (e : RoleExecutor) : Type 0 where
  live :
      (i : ℕ)
      → is_live (e.workers i).phase ≡ true
      → e.stopped i ≡ false
      → e.cancel (e.workers i).role ≡ some i
  current :
      (r : String) (i : ℕ)
      → e.cancel r ≡ some i
      → ((e.workers i).role ≡ r) × ((e.workers i).op ≡ e.next r) × (i < e.count)
  bounded : (i : ℕ) → is_absent (e.workers i).phase ≡ false → i < e.count
  known : (i : ℕ) → i < e.count → used (e.workers i).role (e.workers i).op vs ≡ true
  distinct :
      (i j : ℕ)
      → i < e.count
      → j < e.count
      → (e.workers i).role ≡ (e.workers j).role
      → (e.workers i).op ≡ (e.workers j).op
      → i ≡ j

-- A worker goes on to a phase that is live only if the old one was.
enter-Inv :
    (vs : List ExecutorEvent) (i : ℕ) (p : Phase) (e : RoleExecutor)
    → (is_live p ≡ true → is_live (e.workers i).phase ≡ true)
    → is_absent (e.workers i).phase ≡ false
    → Inv vs e
    → Inv vs (enter i p e)
enter-Inv vs i p e h here n = record {
  live = λ j l s. ground (arith, nat_beq_iff j i, n.live j);
  current = λ r j c. ground (arith, nat_beq_iff j i, n.current r j);
  bounded = λ j l. ground (arith, nat_beq_iff j i, n.bounded j);
  known = λ j b. ground (arith, nat_beq_iff j i, n.known j);
  distinct = λ j k a b r o. ground (arith, nat_beq_iff j i, nat_beq_iff k i, n.distinct j k a b);
}

stop-false :
    (o : Option ℕ) (f : ℕ → Bool) (j : ℕ) → stop o f j ≡ false → (f j ≡ false) × (o ≡ some j → ⊥)
stop-false none f j h = (h, λ c. cc)
stop-false (some i) f j h = (ground (arith, nat_beq_iff j i), λ c. ground (arith, nat_beq_iff j i))

-- A live worker that nobody has stopped is not the one that a role's cancel function was for.
not_cancelled :
    (vs : List ExecutorEvent) (e : RoleExecutor) (role : String) (j : ℕ)
    → Inv vs e
    → is_live (e.workers j).phase ≡ true
    → stop (e.cancel role) e.stopped j ≡ false
    → (e.cancel (e.workers j).role ≡ some j) × (((e.workers j).role == role) ≡ false)
not_cancelled vs e role j n l s =
    let (f, o) = stop-false (e.cancel role) e.stopped j s in
    let c = n.live j l f in
    (
      c,
      elim (Bool-cases ((e.workers j).role == role)) [
        | inr q ↦ q
        | inl q ↦ absurd (o (ap e.cancel (sym ((eq_iff (e.workers j).role role).0 q)) ∙ c))
      ],
    )

cancel_role-Inv :
    (vs : List ExecutorEvent) (role : String) (e : RoleExecutor)
    → Inv vs e
    → Inv vs (cancel_role role e)
unfolding cancel_role
cancel_role-Inv vs role e n = record {
  live = λ j l s. let (c, q) = not_cancelled vs e role j n l s in rw q c;
  current = λ r j c. ground (arith, eq_iff r role, n.current r j);
  bounded = n.bounded;
  known = n.known;
  distinct = n.distinct;
}

abort-Inv :
    (vs : List ExecutorEvent) (i : ℕ) (e : RoleExecutor)
    → Inv vs e
    → Inv vs (record e { stopped = put_at i true e.stopped })
abort-Inv vs i e n = record {
  live = λ j l s. n.live j l (ground (arith, nat_beq_iff j i));
  current = n.current;
  bounded = n.bounded;
  known = n.known;
  distinct = n.distinct;
}

-- A worker that is leaving is not the live one of its role.
other_role :
    (vs : List ExecutorEvent) (i : ℕ) (e : RoleExecutor)
    → (e.workers i).phase ≡ leaving
    → i < e.count
    → Inv vs e
    → (e.next (e.workers i).role == (e.workers i).op) ≡ true
    → (j : ℕ) → is_live (e.workers j).phase ≡ true
    → e.cancel (e.workers j).role ≡ some j
    → ((e.workers j).role == (e.workers i).role) ≡ false
other_role vs i e p b n q j l c = elim (Bool-cases ((e.workers j).role == (e.workers i).role)) [
  | inr t ↦ t
  | inl t ↦
      let same = (eq_iff (e.workers j).role (e.workers i).role).0 t in
      let (_, o, bj) = n.current (e.workers j).role j c in
      let op : (e.workers j).op ≡ (e.workers i).op =
        o ∙ ap e.next same ∙ (nat_beq_iff (e.next (e.workers i).role) (e.workers i).op).0 q in
      let k = n.distinct j i bj b same op in absurd (cc (k, l, p))
]

-- The deferred section of a worker that has reported.
released-Inv :
    (vs : List ExecutorEvent) (i : ℕ) (e : RoleExecutor)
    → (e.workers i).phase ≡ leaving
    → i < e.count
    → Inv vs e
    → Inv vs (released i e)
released-Inv vs i e p b n = elim (Bool-cases (e.next (e.workers i).role == (e.workers i).op)) [
  | inr q ↦ rw q n
  | inl q ↦ rw q (record {
    live = λ j l s. let c = n.live j l s in rw (other_role vs i e p b n q j l c) c;
    current = λ r j c. ground (arith, eq_iff r (e.workers i).role, n.current r j);
    bounded = n.bounded;
    known = n.known;
    distinct = n.distinct;
  })
]

submit-Inv :
    (vs : List ExecutorEvent) (role : String) (op epoch : ℕ) (e : RoleExecutor)
    → used role op vs ≡ false
    → Inv vs e
    → Inv (submits role op epoch ∷ vs) (submit role op epoch e)
unfolding submit
submit-Inv vs role op epoch e f n = record {
  live = λ j l s. elim (Bool-cases (j == e.count)) [
    | inl q ↦ ground (arith, nat_beq_iff j e.count, eq_iff role role)
    | inr q ↦ let (c, t) = not_cancelled vs e role j n (rw q at l) s in rw (q, t) c
  ];
  current = λ r j c. ground (arith, eq_iff r role, nat_beq_iff j e.count, n.current r j);
  bounded = λ j l. ground (arith, nat_beq_iff j e.count, n.bounded j);
  known =
      λ j b. ground (arith, nat_beq_iff j e.count, n.known j, eq_iff role role, nat_beq_iff op op);
  distinct = λ j k a b r o. ground (
    arith,
    nat_beq_iff j e.count,
    nat_beq_iff k e.count,
    n.distinct j k,
    n.known j,
    n.known k,
    f,
  );
}

-- Events other than Submit use no operation number.
same-used :
    (vs : List ExecutorEvent) (v : ExecutorEvent) (e : RoleExecutor)
    → ((r : String) (o : ℕ) → used r o (v ∷ vs) ≡ used r o vs)
    → Inv vs e
    → Inv (v ∷ vs) e
same-used vs v e h n = record {
  live = n.live;
  current = n.current;
  bounded = n.bounded;
  known = λ i b. h (e.workers i).role (e.workers i).op ∙ n.known i b;
  distinct = n.distinct;
}

module _ (vs : List ExecutorEvent) (i : ℕ) (e : RoleExecutor) (n : Inv vs e) where
  finished-Inv :
      (p : Phase) (r : OperationResult) → (e.workers i).phase ≡ p → Inv vs (finished p r i e)
  unfolding finished
  finished-Inv working r h = enter-Inv vs i (holding r) e (λ _. rw h refl) (rw h refl) n
  finished-Inv absent r h = n
  finished-Inv leaving r h = n
  finished-Inv gone r h = n
  finished-Inv (holding x) r h = n

  leaving-Inv : (r : OperationResult) → (e.workers i).phase ≡ holding r → Inv vs (enter i leaving e)
  leaving-Inv r h = enter-Inv vs i leaving e (λ l. absurd (cc)) (rw h refl) n

  delivered-Inv : (p : Phase) → (e.workers i).phase ≡ p → Inv vs (delivered p i e)
  unfolding delivered
  delivered-Inv (holding r) h =
      let m = leaving-Inv r h in
      record {
        live = m.live;
        current = m.current;
        bounded = m.bounded;
        known = m.known;
        distinct = m.distinct;
      }
  delivered-Inv working h = n
  delivered-Inv absent h = n
  delivered-Inv leaving h = n
  delivered-Inv gone h = n

  dropped-Inv : (p : Phase) → (e.workers i).phase ≡ p → Inv vs (dropped p i e)
  unfolding dropped
  dropped-Inv (holding r) h = elim (Bool-cases (e.stopped i)) [
    | inl q ↦ rw (q, dropped) (leaving-Inv r h)
    | inr q ↦ rw (q, dropped) n
  ]
  dropped-Inv working h = n
  dropped-Inv absent h = n
  dropped-Inv leaving h = n
  dropped-Inv gone h = n

  released-phase : (j : ℕ) → ((released i e).workers j).phase ≡ (e.workers j).phase
  released-phase j = elim (Bool-cases (e.next (e.workers i).role == (e.workers i).op)) [
    | inl q ↦ rw q refl
    | inr q ↦ rw q refl
  ]

  left-Inv : (p : Phase) → (e.workers i).phase ≡ p → Inv vs (left p i e)
  unfolding left
  left-Inv leaving h =
      enter-Inv vs i gone (released i e) (λ l. absurd (cc)) (rw (released-phase i, h) refl)
        (released-Inv vs i e h (n.bounded i (rw h refl)) n)
  left-Inv working h = n
  left-Inv absent h = n
  left-Inv (holding r) h = n
  left-Inv gone h = n

run_events-Inv : (vs : List ExecutorEvent) → Unrepeated vs → Inv vs (run_events vs)
unfolding run_events executor_step
run_events-Inv [] u = record {
  live = λ i l s. absurd (cc);
  current = λ r i c. absurd (cc);
  bounded = λ i l. absurd (cc);
  known = λ i b. absurd (omega arith);
  distinct = λ i j a b r o. absurd (omega arith);
}
run_events-Inv (submits role op epoch ∷ vs) u =
    submit-Inv vs role op epoch (run_events vs) u.0 (run_events-Inv vs u.1)
run_events-Inv (cancels role ∷ vs) u =
    same-used vs (cancels role) _ (λ r o. refl)
      (cancel_role-Inv vs role (run_events vs) (run_events-Inv vs u))
run_events-Inv (finishes i r ∷ vs) u =
    same-used vs (finishes i r) _ (λ r o. refl)
      (finished-Inv vs i (run_events vs) (run_events-Inv vs u) _ r refl)
run_events-Inv (delivers i ∷ vs) u =
    same-used vs (delivers i) _ (λ r o. refl)
      (delivered-Inv vs i (run_events vs) (run_events-Inv vs u) _ refl)
run_events-Inv (drops i ∷ vs) u =
    same-used vs (drops i) _ (λ r o. refl)
      (dropped-Inv vs i (run_events vs) (run_events-Inv vs u) _ refl)
run_events-Inv (leaves i ∷ vs) u =
    same-used vs (leaves i) _ (λ r o. refl)
      (left-Inv vs i (run_events vs) (run_events-Inv vs u) _ refl)
run_events-Inv (aborts i ∷ vs) u =
    same-used vs (aborts i) _ (λ r o. refl) (abort-Inv vs i (run_events vs) (run_events-Inv vs u))

-- After any events in which no operation number is submitted twice for a role: a work that has not
-- reported and that nobody has stopped is the one that the role's cancel function stops, and the role has
-- no other such work.
pub run_events-single :
    (vs : List ExecutorEvent) (i j : ℕ)
    → Unrepeated vs
    → let e = run_events vs in
      is_live (e.workers i).phase ≡ true
      → e.stopped i ≡ false
      → (e.cancel (e.workers i).role ≡ some i)
        × (is_live (e.workers j).phase ≡ true
            → e.stopped j ≡ false
            → (e.workers j).role ≡ (e.workers i).role
            → j ≡ i)
run_events-single vs i j u l s =
    let n = run_events-Inv vs u in
    let c = n.live i l s in
    (c, λ lj sj r. some-eq j i (sym (n.live j lj sj) ∙ ap (run_events vs).cancel r ∙ c))
  where
    some-eq : (a b : ℕ) → ◌≡◌ {A = Option ℕ} (some a) (some b) → a ≡ b
    some-eq a b h = cc

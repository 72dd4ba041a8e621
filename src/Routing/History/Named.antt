-- ===== src/Routing/History/Named.antt =====
-- A list of records read as a map by their own role and prefix, through the selection and the sorting
-- of a snapshot.
use kikimora.Prelude.{
  String, ◌≡◌, refl, ◌∙◌, subst, Bool, false, none, some, List, [], ◌∷◌, inl, inr, arith,
  if◌then◌else◌, Bool-cases, ◌==◌, string_eq, All, eq_iff,
}
use kikimora.Prelude.Map.{lookup, Fresh, Distinct, Entries}
use kikimora.Prelude.Sort.{insert_by, sort}
use kikimora.Routing.Record.{SelectedRoute, SelectedRouteKey, key_eq, key_beq_iff}
use kikimora.Routing.Registry.{Registry, key}
use kikimora.Routing.Snapshot.{kept}

abbrev pub key_of : SelectedRoute → SelectedRouteKey
key_of e = key e.role e.prefix

abbrev pub named : List SelectedRoute → Registry
named [] = []
named (e ∷ es) = (key_of e, e) ∷ named es

module _ (less : SelectedRoute → SelectedRoute → Bool) where
  Fresh-insert_by :
      (k : SelectedRouteKey) (x : SelectedRoute) (es : List SelectedRoute)
      → (key_of x == k) ≡ false
      → Fresh k (named es)
      → Fresh k (named (insert_by less x es))
  unfolding insert_by
  Fresh-insert_by k x [] h f = (h, tt)
  Fresh-insert_by k x (e ∷ es) h f = elim (Bool-cases (less x e)) [
    | inl q ↦ rw q (h, f)
    | inr q ↦ rw q (f.0, Fresh-insert_by k x es h f.1)
  ]

  Distinct-insert_by :
      (x : SelectedRoute) (es : List SelectedRoute)
      → Fresh (key_of x) (named es)
      → Distinct (named es)
      → Distinct (named (insert_by less x es))
  unfolding insert_by
  Distinct-insert_by x [] f d = (tt, tt)
  Distinct-insert_by x (e ∷ es) f d = elim (Bool-cases (less x e)) [
    | inl q ↦ rw q (f, d)
    | inr q ↦ rw q (
      Fresh-insert_by (key_of e) x es
          (ground
            (arith, key_beq_iff (key_of x) (key_of e), key_beq_iff (key_of e) (key_of x), f.0))
          d.0,
      Distinct-insert_by x es f.1 d.1,
    )
  ]

  lookup-insert_by :
      (k : SelectedRouteKey) (x : SelectedRoute) (es : List SelectedRoute)
      → Fresh (key_of x) (named es)
      → lookup k (named (insert_by less x es))
        ≡ (if key_of x == k then some x else lookup k (named es))
  unfolding insert_by lookup
  lookup-insert_by k x [] f = refl
  lookup-insert_by k x (e ∷ es) f = elim (Bool-cases (less x e)) [
    | inl q ↦ rw q refl
    | inr q ↦
        rw (q, lookup-insert_by k x es f.1)
          (ground (
            arith,
            key_beq_iff (key_of e) k,
            key_beq_iff (key_of x) k,
            key_beq_iff (key_of e) (key_of x),
            f.0,
          ))
  ]

  -- Sorting changes neither what stands under a key nor that keys are distinct.
  Fresh-sort :
      (k : SelectedRouteKey) (es : List SelectedRoute)
      → Fresh k (named es)
      → Fresh k (named (sort less es))
  unfolding sort
  Fresh-sort k [] f = tt
  Fresh-sort k (e ∷ es) f = Fresh-insert_by k e (sort less es) f.0 (Fresh-sort k es f.1)

  pub Distinct-sort :
      (es : List SelectedRoute) → Distinct (named es) → Distinct (named (sort less es))
  unfolding sort
  Distinct-sort [] d = tt
  Distinct-sort (e ∷ es) d =
      Distinct-insert_by e (sort less es) (Fresh-sort (key_of e) es d.0) (Distinct-sort es d.1)

  pub lookup-sort :
      (k : SelectedRouteKey) (es : List SelectedRoute)
      → Distinct (named es)
      → lookup k (named (sort less es)) ≡ lookup k (named es)
  unfolding sort
  lookup-sort k [] d = refl
  lookup-sort k (e ∷ es) d =
      lookup-insert_by k e (sort less es) (Fresh-sort (key_of e) es d.0)
      ∙ rw (lookup-sort k es d.1) (unfold lookup in refl)

  All-insert_by {ℓ} :
      (P : SelectedRoute → Type ℓ) (x : SelectedRoute) (es : List SelectedRoute)
      → P x
      → All P es
      → All P (insert_by less x es)
  unfolding insert_by
  All-insert_by P x [] p h = (p, tt)
  All-insert_by P x (e ∷ es) p h = elim (Bool-cases (less x e)) [
    | inl q ↦ rw q (p, h)
    | inr q ↦ rw q (h.0, All-insert_by P x es p h.1)
  ]

  pub All-sort {ℓ} :
      (P : SelectedRoute → Type ℓ) (es : List SelectedRoute) → All P es → All P (sort less es)
  unfolding sort
  All-sort P [] h = tt
  All-sort P (e ∷ es) h = All-insert_by P e (sort less es) h.0 (All-sort P es h.1)

abbrev pub Own : SelectedRouteKey → SelectedRoute → Type 0
Own k e = (e.role ≡ k.role) × (e.prefix ≡ k.prefix)

-- The same for the selection of the records of one role.
module _ (role : String) where
  abbrev of_role : SelectedRoute → Bool
  of_role e = e.role == role

  Fresh-kept :
      (k : SelectedRouteKey) (r : Registry)
      → Entries Own r
      → Fresh k r
      → Fresh k (named (kept of_role r))
  unfolding kept
  Fresh-kept k [] o f = tt
  Fresh-kept k ((j, e) ∷ r) o f = elim (Bool-cases (e.role == role)) [
    | inl q ↦ rw q (ground (arith, f.0, o.0.0, o.0.1), Fresh-kept k r o.1 f.1)
    | inr q ↦ rw q (Fresh-kept k r o.1 f.1)
  ]

  pub Distinct-kept :
      (r : Registry) → Entries Own r → Distinct r → Distinct (named (kept of_role r))
  unfolding kept
  Distinct-kept [] o d = tt
  Distinct-kept ((j, e) ∷ r) o d = elim (Bool-cases (e.role == role)) [
    | inl q ↦ rw q (
      subst (λ i. Fresh i (named (kept of_role r))) (ground (arith, o.0.0, o.0.1))
          (Fresh-kept j r o.1 d.0),
      Distinct-kept r o.1 d.1,
    )
    | inr q ↦ rw q (Distinct-kept r o.1 d.1)
  ]

  pub lookup-kept :
      (k : SelectedRouteKey) (r : Registry)
      → Entries Own r
      → lookup k (named (kept of_role r)) ≡ (if k.role == role then lookup k r else none)
  unfolding kept lookup
  lookup-kept k [] o = ground arith
  lookup-kept k ((j, e) ∷ r) o = ground (
    arith,
    lookup-kept k r o.1,
    key_beq_iff j k,
    key_beq_iff (key_of e) k,
    o.0.0,
    o.0.1,
    eq_iff e.role role,
    eq_iff k.role role,
  )

  pub All-kept {ℓ} :
      (P : SelectedRoute → Type ℓ) (r : Registry) → Entries (λ _ e. P e) r → All P (kept of_role r)
  unfolding kept
  All-kept P [] h = tt
  All-kept P ((j, e) ∷ r) h = elim (Bool-cases (e.role == role)) [
    | inl q ↦ rw q (h.0, All-kept P r h.1)
    | inr q ↦ rw q (All-kept P r h.1)
  ]

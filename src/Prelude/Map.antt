-- ===== src/Prelude/Map.antt =====
-- A Go map as an association list: a key that is set anew keeps its place, so keys stay distinct.
use mathlib.Core.Path.{◌≡◌, refl, subst}
use mathlib.Core.Logic.{inl, inr}
use mathlib.Core.Bool.{false}
use mathlib.Core.Option
use mathlib.Core.Option.{Option, none, some}
use mathlib.Core.List.{List, [], ◌∷◌, ◌++◌}
use native.Mathlib.Omega.{arith}
use kikimora.Prelude.Tests.{if◌then◌else◌, Bool-cases}
use kikimora.Prelude.Class.{Eq, ◌==◌}

module _ {ℓ κ} {K : Type ℓ} {V : Type κ} where
  abbrev pub Entries {μ} : (K → V → Type μ) → List (K × V) → Type μ
  Entries P [] = Unit
  Entries P ((k, v) ∷ m) = P k v × Entries P m

  -- `for k, v := range m { m[k] = f(k, v) }`
  unfoldable pub update_all : (K → V → V) → List (K × V) → List (K × V)
  update_all f [] = []
  update_all f ((k, v) ∷ m) = (k, f k v) ∷ update_all f m

module _ {ℓ κ} {K : Type ℓ} {V : Type κ} ⦃e : Eq K⦄ where
  unfoldable pub lookup : K → List (K × V) → Option V
  lookup at [] = none
  lookup at ((k, v) ∷ more) = if k == at then some v else lookup at more

  unfoldable pub insert : K → V → List (K × V) → List (K × V)
  insert at v [] = (at, v) ∷ []
  insert at v ((k, w) ∷ more) = if k == at then (at, v) ∷ more else (k, w) ∷ insert at v more

  unfoldable pub erase : K → List (K × V) → List (K × V)
  erase k [] = []
  erase k ((j, w) ∷ m) = let rest = erase k m in if j == k then rest else (j, w) ∷ rest

  pub lookup-insert :
      (written read : K) (v : V) (m : List (K × V))
      → lookup read (insert written v m) ≡ (if written == read then some v else lookup read m)
  unfolding lookup insert
  lookup-insert written read v [] = refl
  lookup-insert written read v ((k, w) ∷ more) = ground (
    arith,
    lookup-insert written read v more,
    e.beq_iff written read,
    e.beq_iff k written,
    e.beq_iff k read,
  )

  pub lookup-erase :
      (k j : K) (m : List (K × V)) → lookup j (erase k m) ≡ (if k == j then none else lookup j m)
  unfolding lookup erase
  lookup-erase k j [] = ground arith
  lookup-erase k j ((i, w) ∷ m) =
      ground (arith, lookup-erase k j m, e.beq_iff i k, e.beq_iff i j, e.beq_iff k j)

  pub lookup-update_all :
      (f : K → V → V) (k : K) (m : List (K × V))
      → lookup k (update_all f m) ≡ Option.map (f k) (lookup k m)
  unfolding lookup update_all
  lookup-update_all f k [] = refl
  lookup-update_all f k ((j, v) ∷ m) = ground (arith, e.beq_iff j k, lookup-update_all f k m)

  -- No key stands twice.
  abbrev pub Fresh : K → List (K × V) → Type 0
  Fresh k [] = Unit {0}
  Fresh k ((j, v) ∷ m) = ((j == k) ≡ false) × Fresh k m

  abbrev pub Distinct : List (K × V) → Type 0
  Distinct [] = Unit {0}
  Distinct ((k, v) ∷ m) = Fresh k m × Distinct m

  pub Fresh-insert :
      (i k : K) (v : V) (m : List (K × V)) → (k == i) ≡ false → Fresh i m → Fresh i (insert k v m)
  unfolding insert
  Fresh-insert i k v [] h f = (h, tt)
  Fresh-insert i k v ((j, w) ∷ m) h f = ground (arith, Fresh-insert i k v m h f.1)

  pub Distinct-insert : (k : K) (v : V) (m : List (K × V)) → Distinct m → Distinct (insert k v m)
  unfolding insert
  Distinct-insert k v [] d = (tt, tt)
  Distinct-insert k v ((j, w) ∷ m) d =
      ground (arith, e.beq_iff j k, e.beq_iff k j, Fresh-insert j k v m, Distinct-insert k v m d.1)

  pub Fresh-erase : (i k : K) (m : List (K × V)) → Fresh i m → Fresh i (erase k m)
  unfolding erase
  Fresh-erase i k [] f = tt
  Fresh-erase i k ((j, w) ∷ m) f = ground (arith, Fresh-erase i k m f.1)

  pub Distinct-erase : (k : K) (m : List (K × V)) → Distinct m → Distinct (erase k m)
  unfolding erase
  Distinct-erase k [] d = tt
  Distinct-erase k ((j, w) ∷ m) d = ground (arith, Fresh-erase j k m d.0, Distinct-erase k m d.1)

  pub lookup-Fresh : (k : K) (m : List (K × V)) → Fresh k m → lookup k m ≡ none
  unfolding lookup
  lookup-Fresh k [] f = refl
  lookup-Fresh k ((j, v) ∷ m) f = rw f.0 (lookup-Fresh k m f.1)

  -- A key that is not there is added behind the others.
  pub insert-Fresh :
      (k : K) (v : V) (m : List (K × V)) → lookup k m ≡ none → insert k v m ≡ m ++ (k, v) ∷ []
  unfolding lookup insert
  insert-Fresh k v [] h = refl
  insert-Fresh k v ((j, w) ∷ m) h = ground (arith, insert-Fresh k v m)

  module _ {μ} (P : K → V → Type μ) where
    pub Entries-insert :
        (k : K) (v : V) (m : List (K × V)) → P k v → Entries P m → Entries P (insert k v m)
    unfolding insert
    Entries-insert k v [] p h = (p, tt)
    Entries-insert k v ((j, w) ∷ m) p h = elim (Bool-cases (j == k)) [
      | inl q ↦ rw q (p, h.1)
      | inr q ↦ rw q (h.0, Entries-insert k v m p h.1)
    ]

    pub Entries-erase : (k : K) (m : List (K × V)) → Entries P m → Entries P (erase k m)
    unfolding erase
    Entries-erase k [] h = tt
    Entries-erase k ((j, w) ∷ m) h = elim (Bool-cases (j == k)) [
      | inl q ↦ rw q (Entries-erase k m h.1)
      | inr q ↦ rw q (h.0, Entries-erase k m h.1)
    ]

    pub Entries-lookup :
        (k : K) (m : List (K × V)) {v : V} → Entries P m → lookup k m ≡ some v → P k v
    unfolding lookup
    Entries-lookup k [] h l = cc
    Entries-lookup k ((j, w) ∷ m) {v} h l = elim (Bool-cases (j == k)) [
      | inl q ↦ subst (λ i. P i v) ((e.beq_iff j k).0 q) (subst (P j) (ground arith) h.0)
      | inr q ↦ Entries-lookup k m h.1 (rw q at l)
    ]

module _ {ℓ κ μ ν} {K : Type ℓ} {V : Type κ} where
  pub Entries-map :
      (P : K → V → Type μ) (Q : K → V → Type ν) (m : List (K × V))
      → ((k : K) (v : V) → P k v → Q k v)
      → Entries P m
      → Entries Q m
  Entries-map P Q [] f h = tt
  Entries-map P Q ((k, v) ∷ m) f h = (f k v h.0, Entries-map P Q m f h.1)

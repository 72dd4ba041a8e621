-- ===== src/Routing/Executor/Rows.antt =====
-- toad/internal/routing/fake.go: which rows an operation leaves.
use kikimora.Prelude.{
  ◌≡◌, refl, Bool, true, false, ◌&&◌, ◌||◌, List, [], ◌∷◌, ◌++◌, string_eq, arith, any, Bool-cases,
  inl, inr,
}
use kikimora.Routing.Executor.{Operation, remove_operation, deleted_kind, same_key}

-- A row satisfying the test survives the removal if the test spares it.
pub any-remove_operation :
    (p : Operation → Bool) (target : Operation) (items : List Operation)
    → ((item : Operation)
        → p item ≡ true
        → (deleted_kind target item && same_key target item) ≡ false)
    → any p items ≡ true
    → any p (remove_operation items target) ≡ true
unfolding remove_operation
any-remove_operation p target [] spared h = h
any-remove_operation p target (item ∷ items) spared h = elim (Bool-cases (p item)) [
  | inl q ↦ rw (spared item q, q) refl
  | inr q ↦ elim (Bool-cases (deleted_kind target item && same_key target item)) [
    | inl d ↦ rw d (any-remove_operation p target items spared (rw q at h))
    | inr d ↦ rw (d, q) (any-remove_operation p target items spared (rw q at h))
  ]
]

pub any-append :
    (p : Operation → Bool) (xs ys : List Operation) → any p (xs ++ ys) ≡ (any p xs || any p ys)
any-append p [] ys = refl
any-append p (x ∷ xs) ys = ground (arith, any-append p xs ys)

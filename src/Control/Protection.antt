-- ===== src/Control/Protection.antt =====
-- toad/internal/control/selected_parking.go: what the reported parking state says of the records.
use kikimora.Prelude.{
  ℕ, suc, ◌≡◌, ◌≤◌, refl, Bool, true, false, not, ◌&&◌, ◌||◌, List, [], ◌∷◌, ◌==◌, nat_eq,
  nat_beq_iff, arith, length, all, Bool-cases, inl, inr,
}
use kikimora.Routing.Record.{SelectedRoute}
use kikimora.Routing.Machine.{is_retiring}
use kikimora.Control.Parking.{reported, exact_park, reported_prefixes, all_proven, parking_state}

-- A record that counts: its park is reported, and it is proven unless the record retires.
abbrev pub counts : SelectedRoute → Bool
counts e = reported e.park && (is_retiring e.state || exact_park e.park)

length-reported_prefixes : (es : List SelectedRoute) → length (reported_prefixes es) ≤ length es
unfolding reported_prefixes
length-reported_prefixes [] = omega arith
length-reported_prefixes (e ∷ es) = elim (Bool-cases (reported e.park)) [
  | inl q ↦ rw q (omega (arith, length-reported_prefixes es))
  | inr q ↦ rw q (omega (arith, length-reported_prefixes es))
]

and_both : (b x y c : Bool) → (x && y) ≡ c → ((b && x) && y) ≡ (b && c)
and_both true x y c h = h
and_both false x y c h = refl

suc_beq : (n m : ℕ) → (suc n == suc m) ≡ (n == m)
suc_beq n m = ground (arith, nat_beq_iff (suc n) (suc m), nat_beq_iff n m)

fewer_beq : (n m : ℕ) → n ≤ m → (n == suc m) ≡ false
fewer_beq n m h = ground (arith, nat_beq_iff n (suc m))

and_false : (b : Bool) → (b && false) ≡ false
and_false true = refl
and_false false = refl

all_reported :
    (es : List SelectedRoute)
    → (all_proven es && length (reported_prefixes es) == length es) ≡ all counts es
unfolding reported_prefixes all_proven
all_reported [] = ground arith
all_reported (e ∷ es) = elim (Bool-cases (reported e.park)) [
  | inl q ↦
      rw (q, suc_beq (length (reported_prefixes es)) (length es))
        (and_both (is_retiring e.state || exact_park e.park) (all_proven es) _ _ (all_reported es))
  | inr q ↦
      rw (q, fewer_beq (length (reported_prefixes es)) (length es) (length-reported_prefixes es))
        (and_false _)
]

-- The parking is reported as active exactly when there is a record and every record counts: its park is
-- owned and Active or Retiring, and a record that does not retire owns exactly the park that it desires.
pub parking_state-active :
    (es : List SelectedRoute) → (parking_state es).active ≡ (not (length es == 0) && all counts es)
unfolding parking_state
parking_state-active es = ground (arith, all_reported es)

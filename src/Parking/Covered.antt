-- ===== src/Parking/Covered.antt =====
-- toad/internal/parking/manager.go: PrepareOwnedWithdrawal over the executor in memory.
use kikimora.Prelude.{
  String, ◌≡◌, refl, ◌∙◌, sym, ap, subst, Bool, true, false, not, ◌&&◌, ◌||◌, some, List, [], ◌∷◌,
  if◌then◌else◌, ◌==◌, nat_eq, string_eq, eq_iff, arith, any, All, keep, Bool-cases, ◌⊎◌, inl, inr,
  ok, length,
}
use kikimora.Prelude.Int.{is_positive}
use kikimora.Prelude.Map.{insert, lookup-insert}
use kikimora.Netip.{Prefix, prefix_eq, prefix_beq_iff}
use kikimora.Routing.Identity.{is_host_prefix}
use kikimora.Routing.Ownership.{SelectedRouteOwner}
use kikimora.Routing.Executor.{
  Operation, KernelState, remove_operation, deleted_kind, same_key, fake_step, fake_steps,
  fake_apply, Fake, fake,
}
use kikimora.Routing.Executor.Rows.{any-remove_operation, any-append}
use kikimora.Parking.{
  States, parked_of, member, park_operation, is_park_row, is_owned_row, owned_prefixes, parks,
  applied, install_parks, active_state, prepare_withdrawal, prepare_owned_withdrawal,
}
use kikimora.Core.Model.{ParkingState, no_parking}
use kikimora.Parking.Guarded.{HasPark}

-- The owner is of this role, and the kernel shows its route.
abbrev pub verified : (Prefix → String) → String → KernelState → SelectedRouteOwner → Bool
verified show_prefix role k o =
    (o.role == role && (is_positive o.if_index && is_host_prefix o.prefix))
    && any (is_owned_row o (show_prefix o.prefix)) k.routes

and_swap : (a b c d e : Bool) → (a && (b && (c && d)) && e) ≡ (d && ((a && (b && c)) && e))
and_swap a b c d e = ground arith

taken_or :
    (b q ms mo v a r1 r2 : Bool)
    → b ≡ (not mo && v)
    → r1 ≡ (not (q || ms) && a)
    → r2 ≡ (not ms && a)
    → (q ≡ true → mo ≡ ms)
    → (if b then q || r1 else r2) ≡ (not ms && (v && q || a))
taken_or b true ms mo v a r1 r2 t h1 h2 same = ground (arith, same refl)
taken_or b false ms mo v a r1 r2 t h1 h2 same = ground arith

member-or :
    (b : Bool) (p q : Prefix) (xs ys : List Prefix)
    → member p (if b then q ∷ xs else ys) ≡ (if b then q == p || member p xs else member p ys)
member-or true p q xs ys = refl
member-or false p q xs ys = refl

module _ (show_prefix : Prefix → String) (role : String) (k : KernelState) where
  abbrev owns : Prefix → SelectedRouteOwner → Bool
  owns p o = verified show_prefix role k o && o.prefix == p

  member-if :
      (b : Bool) (p : Prefix) (seen : List Prefix) (o : SelectedRouteOwner)
      (os : List SelectedRouteOwner)
      → b ≡ (not (member o.prefix seen) && verified show_prefix role k o)
      → member p (owned_prefixes show_prefix role (o.prefix ∷ seen) k os)
        ≡ (not (member p (o.prefix ∷ seen)) && any (owns p) os)
      → member p (owned_prefixes show_prefix role seen k os)
        ≡ (not (member p seen) && any (owns p) os)
      → member p (
          if b
          then o.prefix ∷ owned_prefixes show_prefix role (o.prefix ∷ seen) k os
          else owned_prefixes show_prefix role seen k os)
        ≡ (not (member p seen) && any (owns p) (o ∷ os))
  member-if b p seen o os t h1 h2 =
      member-or b p o.prefix _ _
      ∙ taken_or b (o.prefix == p) (member p seen) (member o.prefix seen)
          (verified show_prefix role k o) (any (owns p) os) _ _ t h1 h2
          (λ q. ap (λ (x : Prefix). member x seen) ((prefix_beq_iff o.prefix p).0 q))

  -- The prefixes that are parked are those of the verified owners, once each.
  member-owned_prefixes :
      (p : Prefix) (seen : List Prefix) (os : List SelectedRouteOwner)
      → member p (owned_prefixes show_prefix role seen k os)
        ≡ (not (member p seen) && any (owns p) os)
  unfolding owned_prefixes
  member-owned_prefixes p seen [] = ground arith
  member-owned_prefixes p seen (o ∷ os) =
      member-if _ p seen o os
        (and_swap (o.role == role) (is_positive o.if_index) (is_host_prefix o.prefix)
          (not (member o.prefix seen)) (any (is_owned_row o (show_prefix o.prefix)) k.routes))
        (member-owned_prefixes p (o.prefix ∷ seen) os) (member-owned_prefixes p seen os)

park_row_spared :
    (x y : String) (item : Operation)
    → (y == x) ≡ false
    → is_park_row x item ≡ true
    → let target = park_operation "park" y in
      (deleted_kind target item && same_key target item) ≡ false
park_row_spared x y item n h =
    ground (arith, eq_iff item.prefix x, eq_iff item.prefix y, eq_iff y x)

or_true : (a b : Bool) → b ≡ true → (a || b) ≡ true
or_true a b h = ground arith

true_or : (a b : Bool) → a ≡ true → (a || b) ≡ true
true_or a b h = ground arith

-- A park operation installs its park and takes no other away.
park_step-HasPark :
    (x y : String) (k : KernelState)
    → HasPark x k ⊎ (y ≡ x)
    → HasPark x (fake_step (park_operation "park" y) k)
unfolding fake_step
park_step-HasPark x y k h =
    any-append (is_park_row x) (remove_operation k.routes (park_operation "park" y))
      (park_operation "park" y ∷ [])
    ∙ elim (Bool-cases (y == x)) [
      | inl q ↦
          or_true (any (is_park_row x) (remove_operation k.routes (park_operation "park" y)))
            (any (is_park_row x) (park_operation "park" y ∷ [])) (rw q refl)
      | inr q ↦ true_or _ _ (kept q h)
    ]
  where
    kept :
        (y == x) ≡ false
        → HasPark x k ⊎ (y ≡ x)
        → any (is_park_row x) (remove_operation k.routes (park_operation "park" y)) ≡ true
    kept q (inl h) =
        any-remove_operation (is_park_row x) (park_operation "park" y) k.routes
          (λ item i. park_row_spared x y item q i) h
    kept q (inr e) = absurd (ground (arith, eq_iff y x))

module _ (show_prefix : Prefix → String) where
  steps-HasPark :
      (x : String) (ps : List Prefix) (k : KernelState)
      → HasPark x k
      → HasPark x (fake_steps (parks show_prefix "park" ps) k)
  unfolding fake_steps
  steps-HasPark x [] k h = h
  steps-HasPark x (p ∷ ps) k h =
      steps-HasPark x ps (fake_step (park_operation "park" (show_prefix p)) k)
        (park_step-HasPark x (show_prefix p) k (inl h))

  steps-AllPark :
      (ps : List Prefix) (k : KernelState)
      → All (λ p. HasPark (show_prefix p) (fake_steps (parks show_prefix "park" ps) k)) ps
  unfolding fake_steps
  steps-AllPark [] k = tt
  steps-AllPark (p ∷ ps) k = (
    steps-HasPark (show_prefix p) ps (fake_step (park_operation "park" (show_prefix p)) k)
        (park_step-HasPark (show_prefix p) (show_prefix p) k (inr refl)),
    steps-AllPark ps (fake_step (park_operation "park" (show_prefix p)) k),
  )

  -- What a state says: the prefixes that are parked, which are those of the test.
  abbrev pub Tells : (Prefix → Bool) → KernelState → ParkingState → Type 0
  Tells owned k p =
      All (λ q. HasPark (show_prefix q) k) p.prefixes
      × ((q : Prefix) → member q p.prefixes ≡ owned q)
      × (p.active ≡ not (length p.prefixes == 0))
      × (p.count ≡ length p.prefixes)

  abbrev pub Covers : String → (Prefix → Bool) → States → KernelState → Type 0
  Covers role owned m k = Tells owned k (parked_of role m)

  parked_of-insert :
      (role : String) (p : ParkingState) (m : States) → parked_of role (insert role p m) ≡ p
  unfolding parked_of
  parked_of-insert role p m = ground (arith, lookup-insert role role p m, eq_iff role role)

  install-Covers :
      (role : String) (ps : List Prefix) (m : States) (f : Fake)
      → (m' : States) × ((install_parks show_prefix (some fake) role ps m f).0 ≡ ok m')
        × Covers role
            (λ p. member p ps)
            m'
            (install_parks show_prefix (some fake) role ps m f).1.state
  unfolding install_parks applied fake_apply
  install-Covers role [] m f = (
    _,
    refl,
    subst (Tells (λ p. false) f.state) (sym (parked_of-insert role no_parking m))
        (tt, (λ q. refl), refl, refl),
  )
  install-Covers role (p ∷ ps) m f = (
    _,
    refl,
    subst (Tells (λ q. member q (p ∷ ps)) (fake_steps (parks show_prefix "park" (p ∷ ps)) f.state))
        (sym (parked_of-insert role (active_state (p ∷ ps)) m))
        (steps-AllPark (p ∷ ps) f.state, (λ q. refl), ground arith, refl),
  )

  keep-owned :
      (role : String) (seen : List Prefix) (k : KernelState) (os : List SelectedRouteOwner)
      → keep is_host_prefix (owned_prefixes show_prefix role seen k os)
        ≡ owned_prefixes show_prefix role seen k os
  unfolding owned_prefixes
  keep-owned role seen k [] = refl
  keep-owned role seen k (o ∷ os) =
      ground (arith, keep-owned role (o.prefix ∷ seen) k os, keep-owned role seen k os)

  -- Over the executor in memory, the withdrawal of a named role succeeds; then the role's parked prefixes
  -- are exactly those that an owner of the role has, with an interface and a host prefix, whose route the
  -- kernel showed; each has its park in the kernel; and the state's count and flag agree with them.
  pub prepare_owned_withdrawal-Covers :
      (role : String) (owners : List SelectedRouteOwner) (m : States) (f : Fake)
      → (role == "") ≡ false
      → let r = prepare_owned_withdrawal show_prefix (some fake) role owners m f in
        (m' : States) × (r.0 ≡ ok m')
        × Covers role
            (λ p. any (λ o. verified show_prefix role f.state o && o.prefix == p) owners)
            m'
            r.1.state
  unfolding prepare_owned_withdrawal prepare_withdrawal
  prepare_owned_withdrawal-Covers role owners m f n =
      rw (n, keep-owned role [] f.state owners)
        (let (m', e, (parks_hold, members, flag, number)) =
            install-Covers role (owned_prefixes show_prefix role [] f.state owners) m f in
          (
            m',
            e,
            (
              parks_hold,
              (λ q. members q ∙ member-owned_prefixes show_prefix role f.state q [] owners),
              flag,
              number,
            ),
          ))

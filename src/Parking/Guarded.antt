-- ===== src/Parking/Guarded.antt =====
-- toad/internal/parking/manager.go: ObserveRestorationFromKernel over the executor in memory.
use kikimora.Prelude.{
  String, ◌≡◌, refl, subst, true, false, ◌&&◌, some, List, [], ◌∷◌, ◌==◌, string_eq, eq_iff, arith,
  any, Bool-cases, ◌⊎◌, inl, inr,
}
use kikimora.Netip.{Prefix}
use kikimora.Routing.Executor.{
  Operation, KernelState, deleted_kind, same_key, fake_step, fake_steps, fake_apply, Fake, fake,
}
use kikimora.Routing.Executor.Rows.{any-remove_operation}
use kikimora.Parking.{
  States, parked_of, member, park_operation, is_park_row, is_winning_row, delete_park,
  observe_restoration, release_won, observe_restoration_from_kernel,
}

abbrev pub HasPark : String → KernelState → Type 0
HasPark x k = any (is_park_row x) k.routes ≡ true

abbrev pub Wins : String → KernelState → Type 0
Wins x k = any (is_winning_row x) k.routes ≡ true

route_spared :
    (y : String) (item : Operation)
    → item.kind ≡ "route"
    → deleted_kind (park_operation "delete-park" y) item ≡ false
route_spared y item h = rw h refl

winning_row_spared :
    (x y : String) (item : Operation)
    → is_winning_row x item ≡ true
    → let target = park_operation "delete-park" y in
      (deleted_kind target item && same_key target item) ≡ false
winning_row_spared x y item h =
    rw (route_spared y item ((eq_iff item.kind "route").0 (ground arith))) refl

park_row_spared :
    (x y : String) (item : Operation)
    → (y == x) ≡ false
    → is_park_row x item ≡ true
    → let target = park_operation "delete-park" y in
      (deleted_kind target item && same_key target item) ≡ false
park_row_spared x y item n h =
    ground (arith, eq_iff item.prefix x, eq_iff item.prefix y, eq_iff y x)

module _ (show_prefix : Prefix → String) where
  delete_park-Wins :
      (role x : String) (p : Prefix) (f : Fake)
      → Wins x f.state
      → Wins x (delete_park show_prefix (some fake) role p f).state
  unfolding delete_park fake_apply fake_steps fake_step
  delete_park-Wins role x p f h =
      any-remove_operation (is_winning_row x) (park_operation "delete-park" (show_prefix p))
        f.state.routes (winning_row_spared x (show_prefix p)) h

  delete_park-HasPark :
      (role x : String) (p : Prefix) (f : Fake)
      → (show_prefix p == x) ≡ false
      → HasPark x f.state
      → HasPark x (delete_park show_prefix (some fake) role p f).state
  unfolding delete_park fake_apply fake_steps fake_step
  delete_park-HasPark role x p f n h =
      any-remove_operation (is_park_row x) (park_operation "delete-park" (show_prefix p))
        f.state.routes (λ item q. park_row_spared x (show_prefix p) item n q) h

  observe_restoration-Wins :
      (role x : String) (p : Prefix) (m : States) (f : Fake)
      → Wins x f.state
      → Wins x ((observe_restoration show_prefix (some fake) role p m f).2).state
  unfolding observe_restoration
  observe_restoration-Wins role x p m f h =
      elim (Bool-cases (member p (parked_of role m).prefixes)) [
        | inl q ↦ rw q (delete_park-Wins role x p f h)
        | inr q ↦ rw q h
      ]

  observe_restoration-HasPark :
      (role x : String) (p : Prefix) (m : States) (f : Fake)
      → (show_prefix p == x) ≡ false
      → HasPark x f.state
      → HasPark x ((observe_restoration show_prefix (some fake) role p m f).2).state
  unfolding observe_restoration
  observe_restoration-HasPark role x p m f n h =
      elim (Bool-cases (member p (parked_of role m).prefixes)) [
        | inl q ↦ rw q (delete_park-HasPark role x p f n h)
        | inr q ↦ rw q h
      ]

  -- Every route that won when the kernel was read still wins.
  abbrev Grown : KernelState → KernelState → Type 0
  Grown k k' = (x : String) → Wins x k → Wins x k'

  release_won-Guarded :
      (role x : String) (k : KernelState) (ps : List Prefix) (m : States) (f : Fake)
      → Grown k f.state
      → HasPark x f.state ⊎ Wins x k
      → let r = release_won show_prefix (some fake) role k ps m f in
        Grown k (r.2).state × (HasPark x (r.2).state ⊎ Wins x k)
  unfolding release_won
  release_won-Guarded role x k [] m f g h = (g, h)
  release_won-Guarded role x k (p ∷ ps) m f g h =
      elim (Bool-cases (any (is_winning_row (show_prefix p)) k.routes)) [
        | inr q ↦ rw (q, release_won) (release_won-Guarded role x k ps m f g h)
        | inl q ↦
            rw (q, release_won)
              (release_won-Guarded role x k ps
                ((observe_restoration show_prefix (some fake) role p m f).1)
                ((observe_restoration show_prefix (some fake) role p m f).2)
                (λ y w. observe_restoration-Wins role y p m f (g y w)) (kept p q h))
      ]
    where
      kept :
          (p : Prefix)
          → Wins (show_prefix p) k
          → HasPark x f.state ⊎ Wins x k
          → HasPark x ((observe_restoration show_prefix (some fake) role p m f).2).state ⊎ Wins x k
      kept p q (inr w) = inr w
      kept p q (inl h) = elim (Bool-cases (show_prefix p == x)) [
        | inl s ↦ inr (subst (λ (y : String). Wins y k) ((eq_iff (show_prefix p) x).0 s) q)
        | inr s ↦ inl (observe_restoration-HasPark role x p m f s h)
      ]

  -- Over the executor in memory, the check after a recovery takes the park of a destination out of the
  -- kernel only where a real route wins there, and leaves every winning route.
  pub observe_restoration_from_kernel-Guarded :
      (role x : String) (m : States) (f : Fake)
      → let r = observe_restoration_from_kernel show_prefix (some fake) role m f in
        (Wins x f.state → Wins x (r.2).state)
        × (HasPark x f.state → HasPark x (r.2).state ⊎ Wins x (r.2).state)
  unfolding observe_restoration_from_kernel
  observe_restoration_from_kernel-Guarded role x m f =
      let ps : List Prefix = (parked_of role m).prefixes in
      (
        (λ w. (release_won-Guarded role x f.state ps m f (λ y h. h) (inr w)).0 x w),
        (λ h.
            won (release_won show_prefix (some fake) role f.state ps m f).2.state
              (release_won-Guarded role x f.state ps m f (λ y h. h) (inl h))),
      )
    where
      won :
          (k : KernelState)
          → Grown f.state k × (HasPark x k ⊎ Wins x f.state)
          → HasPark x k ⊎ Wins x k
      won k (g, inl h) = inl h
      won k (g, inr w) = inr (g x w)

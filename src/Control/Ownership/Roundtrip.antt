-- ===== src/Control/Ownership/Roundtrip.antt =====
-- toad/internal/control/recovery_driver.go: restoreOwnershipCheckpoint of what writeOwnershipCheckpoint wrote.
use kikimora.Prelude.{
  ℤ, String, ◌≡◌, refl, ◌∙◌, sym, ap, true, false, Option, none, some, List, [], ◌∷◌, map, ◌==◌,
  string_eq, eq_iff, arith, All, ok,
}
use kikimora.Prelude.Int.{int_eq}
use kikimora.Prelude.Map.{lookup, insert, lookup-insert, lookup-erase}
use kikimora.Netip.{Prefix}
use kikimora.Routing.Identity.{is_host_prefix}
use kikimora.Routing.Ownership.{SelectedRouteOwner, Owners, listed, owners_of, replace, replaced}
use kikimora.Routing.Executor.{Executor, KernelState}
use kikimora.Parking.{OwnedRoute, Checkpoint, States, restored, verified_parks, restore_checkpoint}
use kikimora.Control.Ownership.{
  RoleView, Driver, holds, Files, owner, checkpoint_of, loaded_now, is_loaded, still_owned, adopt,
  restore_held, restore_read, restore_ownership_checkpoint,
}

-- An owner as the driver records it for the role: a host prefix on the role's interface.
abbrev pub Own : String → ℤ → SelectedRouteOwner → Type 0
Own role i o = (o.role ≡ role) × (o.if_index ≡ i) × (is_host_prefix o.prefix ≡ true)

abbrev as_route : SelectedRouteOwner → OwnedRoute
as_route o = record {
  role = o.role;
  interface = o.interface;
  if_index = o.if_index;
  prefix = o.prefix;
}

owner-as_route :
    (role : String) (o : SelectedRouteOwner) → o.role ≡ role → owner role (as_route o) ≡ o
owner-as_route role o h =
    ap
      (λ (z : String). record {
        role = z;
        interface = o.interface;
        if_index = o.if_index;
        prefix = o.prefix;
      })
      (sym h)

still_owned-map :
    (role : String) (c : Checkpoint) (os : List SelectedRouteOwner)
    → All (Own role c.if_index) os
    → still_owned role c (map as_route os) ≡ os
unfolding still_owned
still_owned-map role c [] h = refl
still_owned-map role c (o ∷ os) ((r, i, p), h) = ground (
  arith,
  still_owned-map role c os h,
  owner-as_route role o r,
  eq_iff o.role role,
  int_eq.beq_iff o.if_index c.if_index,
  r,
  i,
  p,
)

owners_of-replaced :
    (role : String) (os : List SelectedRouteOwner) (r : Owners)
    → owners_of role (replaced role os r) ≡ os
unfolding owners_of
owners_of-replaced role [] r = ground (arith, lookup-erase role role r, eq_iff role role)
owners_of-replaced role (o ∷ os) r =
    ground (arith, lookup-insert role role (o ∷ os) r, eq_iff role role)

owners_of-replace :
    (role : String) (os : List SelectedRouteOwner) (r : Owners)
    → (role == "") ≡ false
    → owners_of role (replace role os r) ≡ os
unfolding replace
owners_of-replace role os r n = rw n (owners_of-replaced role os r)

module _ (show_prefix : Prefix → String) (parse_prefix : String → Option Prefix) {S : Type 0}
    (x : Executor S) (files : Files S) (roles : String → Option RoleView) where
  abbrev adopted : String → RoleView → Driver → Driver → States → Driver
  adopted role r d d0 m = loaded_now role (record d0 {
    ownership =
        replace role (still_owned role (checkpoint_of role r d) (checkpoint_of role r d).observed)
          d0.ownership;
    baselines = insert role (checkpoint_of role r d).baseline d0.baselines;
    parks = m;
  })

  parks_restored :
      (c : Checkpoint) (m : States) (s : S) (k : KernelState)
      → x.snapshot s ≡ ok k
      → restore_checkpoint show_prefix (some x) c m s
        ≡ ok (restored show_prefix c.role (verified_parks show_prefix c.parked k) m)
  unfolding restore_checkpoint
  parks_restored c m s k q = rw (q, restore_checkpoint) refl

  -- The parks of the file that the kernel still has.
  abbrev pub parks_left : String → RoleView → Driver → Driver → KernelState → States
  parks_left role r d d0 k =
      restored show_prefix role (verified_parks show_prefix (checkpoint_of role r d).parked k)
        d0.parks

  held-adopted :
      (role : String) (r : RoleView) (d d0 : Driver) (s : S) (k : KernelState)
      → x.snapshot s ≡ ok k
      → restore_held show_prefix parse_prefix
          (some x)
          files
          roles
          role
          r
          (checkpoint_of role r d)
          d0
          s
        ≡ (none, adopted role r d d0 (parks_left role r d d0 k), s)
  unfolding restore_held adopt
  held-adopted role r d d0 s k q =
      rw
        (
          parks_restored (checkpoint_of role r d) d0.parks s k q,
          (eq_iff role role).1 refl,
          (eq_iff r.interface r.interface).1 refl,
          (int_eq.beq_iff r.if_index r.if_index).1 refl,
        )
        refl

  restore-held :
      (role : String) (r : RoleView) (c : Checkpoint) (d0 : Driver) (s : S)
      → roles role ≡ some r
      → (r.state_dir == "") ≡ false
      → is_loaded (lookup role d0.loaded) ≡ false
      → files.read role s ≡ holds c
      → restore_ownership_checkpoint show_prefix parse_prefix (some x) files roles role d0 s
        ≡ restore_held show_prefix parse_prefix (some x) files roles role r c d0 s
  unfolding restore_ownership_checkpoint restore_read
  restore-held role r c d0 s known dir unloaded file =
      rw (unloaded, restore_ownership_checkpoint, known, dir, file) refl

  -- What a driver wrote of a role is what a new driver reads, as long as the interface is the same, the
  -- kernel can be read, and the owners are the role's host prefixes on that interface: the same owners, the
  -- same baseline, and of the parks those that the kernel still has.
  pub restore-checkpoint_of :
      (role : String) (r : RoleView) (d d0 : Driver) (s : S) (k : KernelState)
      → (role == "") ≡ false
      → roles role ≡ some r
      → (r.state_dir == "") ≡ false
      → is_loaded (lookup role d0.loaded) ≡ false
      → files.read role s ≡ holds (checkpoint_of role r d)
      → x.snapshot s ≡ ok k
      → All (Own role r.if_index) (owners_of role d.ownership)
      → (d' : Driver) × (restore_ownership_checkpoint show_prefix parse_prefix
            (some x)
            files
            roles
            role
            d0
            s
          ≡ (none, d', s))
        × (owners_of role d'.ownership ≡ owners_of role d.ownership)
        × (listed (lookup role d'.baselines) ≡ listed (lookup role d.baselines))
        × (d'.parks ≡ parks_left role r d d0 k)
  restore-checkpoint_of role r d d0 s k named known dir unloaded file snap own = (
    adopted role r d d0 (parks_left role r d d0 k),
    restore-held role r (checkpoint_of role r d) d0 s known dir unloaded file
        ∙ held-adopted role r d d0 s k snap,
    owners_of-replace role _ d0.ownership named
        ∙ still_owned-map role (checkpoint_of role r d) (owners_of role d.ownership) own,
    ground (
      arith,
      lookup-insert role role (checkpoint_of role r d).baseline d0.baselines,
      eq_iff role role,
    ),
    refl,
  )

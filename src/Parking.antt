-- ===== src/Parking.antt =====
-- toad/internal/parking: which destinations of a role are parked while its tunnel is away. `S` is the
-- state of the outside that the executor works on.
pub mod Guarded
pub mod Covered
use kikimora.Prelude.{
  ℕ, suc, ℤ, pos, String, Bool, true, false, ◌&&◌, ◌||◌, not, Option, none, some, List, [], ◌∷◌,
  map, if◌then◌else◌, ◌==◌, string_eq, Result, ok, err, length, any, keep, leb, ltb, nat_eq,
}
use kikimora.Prelude.Int.{int_eq, is_positive}
use kikimora.Prelude.Map.{lookup, insert, erase}
use kikimora.Netip.{Prefix, prefix_eq}
use kikimora.Routing.Identity.{is_host_prefix}
use kikimora.Routing.Ownership.{SelectedRouteOwner}
use kikimora.Routing.Executor.{Operation, Transaction, KernelState, Executor}
use kikimora.Core.Model.{ParkingState, no_parking}

pub record OwnedRoute : Type 0 where
  pub role : String
  pub interface : String
  pub if_index : ℤ
  pub prefix : Prefix

pub record Checkpoint : Type 0 where
  pub boot_id : String
  pub core_instance_id : String
  pub role : String
  pub interface : String
  pub if_index : ℤ
  pub baseline : List OwnedRoute
  pub observed : List OwnedRoute
  pub parked : List OwnedRoute

-- A set of prefixes as the list of its members.
abbrev pub member : Prefix → List Prefix → Bool
member p = any (λ q. q == p)

unfoldable pub is_candidate : OwnedRoute → List Prefix → Bool
is_candidate r baseline = is_host_prefix r.prefix && not (member r.prefix baseline)

-- The manager's map of the roles' states.
abbrev pub States : Type 0
States = List (String × ParkingState)

abbrev state_or_none : Option ParkingState → ParkingState
state_or_none none = no_parking
state_or_none (some p) = p

unfoldable pub parked_of : String → States → ParkingState
parked_of role m = state_or_none (lookup role m)

pub data ParkingError : Type 0 where
  no_executor canceled : ParkingError
  outside : String → ParkingError

abbrev pub main_table : ℤ
main_table = pos 254

abbrev pub endpoint_table : ℤ
endpoint_table = pos 51890

abbrev pub park_metric : ℕ
park_metric = 42760

abbrev pub static_protocol : ℤ
static_protocol = pos 4

-- An operation on the park of a prefix; the fields that Go leaves out are zero.
abbrev pub park_operation : String → String → Operation
park_operation kind prefix = record {
  kind = kind;
  family = pos 0;
  prefix = prefix;
  table = main_table;
  priority = pos 0;
  if_index = pos 0;
  metric = park_metric;
  gateway = "";
  source = "";
  protocol = static_protocol;
  interface_luid = 0;
}

abbrev pub transaction : String → List Operation → Transaction
transaction role ops = record { id = 0; role = role; operations = ops }

abbrev pub is_park_row : String → Operation → Bool
is_park_row prefix r =
    (r.kind == "park" || r.kind == "unreachable")
    && (r.prefix == prefix && leb park_metric r.metric)

-- The route that a role owns, as the kernel shows it.
abbrev pub is_owned_row : SelectedRouteOwner → String → Operation → Bool
is_owned_row o prefix r =
    r.kind == "route"
    && (not (r.table == endpoint_table)
        && (r.if_index == o.if_index && (r.protocol == static_protocol && r.prefix == prefix)))

-- A real route that wins over a park.
abbrev pub is_winning_row : String → Operation → Bool
is_winning_row prefix r =
    r.kind == "route"
    && (not (r.table == endpoint_table) && (r.prefix == prefix && ltb r.metric park_metric))

abbrev pub active_state : List Prefix → ParkingState
active_state ps = record { active = true; count = length ps; prefixes = ps }

module _ (show_prefix : Prefix → String) where
  unfoldable pub verified_parks : List OwnedRoute → KernelState → List Prefix
  verified_parks [] k = []
  verified_parks (o ∷ os) k =
      let rest = verified_parks os k in
      if any (is_park_row (show_prefix o.prefix)) k.routes then o.prefix ∷ rest else rest

  abbrev pub restored : String → List Prefix → States → States
  restored role [] m = erase role m
  restored role (p ∷ ps) m = insert role (active_state (p ∷ ps)) m

  -- The loop of PrepareOwnedWithdrawal; `seen` are the prefixes taken so far.
  unfoldable pub owned_prefixes :
      String → List Prefix → KernelState → List SelectedRouteOwner → List Prefix
  owned_prefixes role seen k [] = []
  owned_prefixes role seen k (o ∷ os) =
      if o.role == role
        && (is_positive o.if_index && (is_host_prefix o.prefix && not (member o.prefix seen)))
        && any (is_owned_row o (show_prefix o.prefix)) k.routes
      then (let rest = owned_prefixes role (o.prefix ∷ seen) k os in o.prefix ∷ rest)
      else owned_prefixes role seen k os

  abbrev pub parks : String → List Prefix → List Operation
  parks kind = map (λ p. park_operation kind (show_prefix p))

  abbrev without : Prefix → ParkingState → ParkingState
  without prefix p =
      let rest : List Prefix = keep (λ q. not (q == prefix)) p.prefixes in
      record { active = not (length rest == 0); count = length rest; prefixes = rest }

  module _ {S : Type 0} (routes : Option (Executor S)) where
    -- RestoreCheckpoint: of the parks that the file names, those that the kernel has.
    unfoldable pub restore_checkpoint : Checkpoint → States → S → Result ParkingError States
    restore_checkpoint c m s = elim routes [
      | none ↦ err no_executor
      | some x ↦ elim (x.snapshot s) [
        | err e ↦ err (outside e)
        | ok k ↦ ok (restored c.role (verified_parks c.parked k) m)
      ]
    ]

    unfoldable pub applied : Option String × S → States → Result ParkingError States × S
    applied (none, s) m = (ok m, s)
    applied (some e, s) m = (err (outside e), s)

    unfoldable pub install_parks :
        String → List Prefix → States → S → Result ParkingError States × S
    install_parks role [] m s = (ok (insert role no_parking m), s)
    install_parks role (p ∷ ps) m s = elim routes [
      | none ↦ (err canceled, s)
      | some x ↦
          applied (x.apply (transaction role (parks "park" (p ∷ ps))) s)
            (insert role (active_state (p ∷ ps)) m)
    ]

    unfoldable pub prepare_withdrawal :
        String → List Prefix → States → S → Result ParkingError States × S
    prepare_withdrawal role prefixes m s =
        if role == "" then (ok m, s) else install_parks role (keep is_host_prefix prefixes) m s

    unfoldable pub prepare_owned_withdrawal :
        String → List SelectedRouteOwner → States → S → Result ParkingError States × S
    prepare_owned_withdrawal role owned m s = elim routes [
      | none ↦ (err no_executor, s)
      | some x ↦ elim (x.snapshot s) [
        | err e ↦ (err (outside e), s)
        | ok k ↦ prepare_withdrawal role (owned_prefixes role [] k owned) m s
      ]
    ]

    -- The executor's error is ignored.
    unfoldable pub delete_park : String → Prefix → S → S
    delete_park role prefix s = elim routes [
      | none ↦ s
      | some x ↦
          (x.apply (transaction role (park_operation "delete-park" (show_prefix prefix) ∷ [])) s).1
    ]

    unfoldable pub observe_restoration : String → Prefix → States → S → Bool × States × S
    observe_restoration role prefix m s =
        let p = parked_of role m in
        if member prefix p.prefixes
        then (true, insert role (without prefix p) m, delete_park role prefix s)
        else (false, m, s)

    -- The loop of ObserveRestorationFromKernel over a copy of the role's prefixes.
    unfoldable pub release_won : String → KernelState → List Prefix → States → S → ℕ × States × S
    release_won role k [] m s = (0, m, s)
    release_won role k (p ∷ ps) m s = elim (any (is_winning_row (show_prefix p)) k.routes) [
      | false ↦ release_won role k ps m s
      | true ↦
          let (released, m1, s1) = observe_restoration role p m s in
          let (n, m2, s2) = release_won role k ps m1 s1 in ((if released then suc n else n), m2, s2)
    ]

    unfoldable pub observe_restoration_from_kernel :
        String → States → S → Result ParkingError ℕ × States × S
    observe_restoration_from_kernel role m s = elim routes [
      | none ↦ (err no_executor, m, s)
      | some x ↦ elim (x.snapshot s) [
        | err e ↦ (err (outside e), m, s)
        | ok k ↦
            let (n, m', s') = release_won role k (parked_of role m).prefixes m s in (ok n, m', s')
      ]
    ]

    -- Clear: the state is dropped first.
    unfoldable pub clear : String → States → S → Option ParkingError × States × S
    clear role m s = elim routes [
      | none ↦ (none, erase role m, s)
      | some x ↦
          if (parked_of role m).active
          then (let (e, s') =
                x.apply (transaction role (parks "delete-park" (parked_of role m).prefixes)) s in
              (elim e [ none ↦ none | some why ↦ some (outside why) ], erase role m, s'))
          else (none, erase role m, s)
    ]

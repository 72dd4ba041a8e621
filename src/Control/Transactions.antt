-- ===== src/Control/Transactions.antt =====
-- toad/internal/control/selected_transactions.go: the two canonical transactions of a registered
-- destination, and what calls them.
use kikimora.Prelude.{
  ℕ, String, Bool, true, false, not, Option, none, some, List, [], ◌∷◌, if◌then◌else◌, ◌==◌, nat_eq,
  string_eq, Result, ok, err,
}
use kikimora.Prelude.Map.{lookup, insert, erase, update_all}
use kikimora.Netip.{Prefix, prefix_eq}
use kikimora.Routing.Identity.{route_identity_eq}
use kikimora.Routing.Record.{
  SelectedRouteState, pending, applying, active, retiring, other_state, SelectedParkState,
  park_pending, park_applying, park_active, park_retiring, other_park_state, SelectedPark,
  SelectedRoute,
}
use kikimora.Routing.Machine.{Reservation, is_applying, is_retiring}
use kikimora.Routing.Registry.{
  mark_applying, mark_active, mark_retiring, begin_repair, mark_park_retiring, clear_park, remove,
  reserve,
}
use kikimora.Control.World.{
  route_after_pending_checkpoint, route_after_preflight, route_after_applying_checkpoint,
  route_after_kernel_reconcile, route_after_mark_active, route_after_active_checkpoint,
  park_after_kernel_delete, failpoint, preflight_selected, reconcile_selected, remove_selected,
  remove_park, Reconciled, Env, RoleFlags, World, Failure, no_writer, not_registered,
  owned_by_retirement, unknown_state, not_applying, verified_other, conflict, outside, Act, ◌>>=◌,
  ◌>>◌, done, fail, require, gets, role_state, registering, ask, registry_snapshot, registry_entry,
  write_checkpoint, save,
}

-- mintVerificationToken: only for a role that has a state.
abbrev mint : SelectedRoute → RoleFlags → RoleFlags
mint e s = record s {
  verification =
      insert e.prefix
        (record {
          toad_generation = e.toad_generation;
          route_generation = s.route_generation;
          identity = e.desired;
        })
        s.verification;
}

unfoldable pub minted_token : String → SelectedRoute → Option RoleFlags → Act (Unit {0})
minted_token role e none w = (ok tt, w)
minted_token role e (some s) w = (ok tt, record w { roles = insert role (mint e s) w.roles })

unfoldable pub mint_verification_token : String → SelectedRoute → Act (Unit {0})
mint_verification_token role e w = minted_token role e (lookup role w.roles) w

unfoldable pub clear_verification_for_prefix : Prefix → Act (Unit {0})
clear_verification_for_prefix prefix w = (
  ok tt,
  record w {
    roles = update_all (λ _ s. record s { verification = erase prefix s.verification }) w.roles;
  },
)

module _ (env : Env) where
  -- The record of an entry that is read again after a step that keeps it registered.
  unfoldable pub registered_entry : Option SelectedRoute → Act SelectedRoute
  registered_entry none w = (err not_registered, w)
  registered_entry (some e) w = (ok e, w)

  unfoldable pub reread : String → Prefix → Act SelectedRoute
  reread role prefix w = registered_entry (registry_entry env role prefix w) w

  -- A platform error that speaks of a foreign row is the typed conflict.
  abbrev typed : String → Prefix → Failure → Failure
  typed role prefix (outside e) =
      if env.foreign_row_error e then conflict role prefix else outside e
  typed role prefix e = e

  unfoldable pub typed_conflict {ℓ} :
      {A : Type ℓ} → String → Prefix → Result Failure A × World → Result Failure A × World
  typed_conflict role prefix (err e, w) = (err (typed role prefix e), w)
  typed_conflict role prefix (ok a, w) = (ok a, w)

  unfoldable pub preflight : String → Prefix → SelectedRoute → Act (Unit {0})
  preflight role prefix e w =
      typed_conflict role prefix (ask env (preflight_selected prefix e.desired e) w)

  -- ReconcileSelectedRoute: what it verified is the answer to the request.
  unfoldable pub reconcile_route : String → SelectedRoute → Act Reconciled
  reconcile_route role e = do
    answer ←
        gets λ w. env.reconciled (reconcile_selected role e.prefix e.desired.if_index e) w.history
    ask env (reconcile_selected role e.prefix e.desired.if_index e)
    done answer

  -- The tail after the answer of the platform.
  unfoldable pub settle_active : String → SelectedRoute → Reconciled → Act Bool
  settle_active role e answer = do
    ask env (failpoint route_after_kernel_reconcile role e.prefix)
    require (answer.verified == e.desired) verified_other
    registering (mark_active role e.prefix answer.verified)
    ask env (failpoint route_after_mark_active role e.prefix)
    save env role
    ask env (failpoint route_after_active_checkpoint role e.prefix)
    mint_verification_token role e
    done answer.mutated

  unfoldable pub drive_transaction : String → SelectedRoute → Act Bool
  drive_transaction role e =
      if is_applying e.state
      then (reconcile_route role e >>= λ answer. settle_active role e answer)
      else fail not_applying

  unfoldable pub apply_pending : String → Prefix → SelectedRoute → Act Bool
  apply_pending role prefix e = do
    preflight role prefix e
    ask env (failpoint route_after_preflight role prefix)
    registering (mark_applying role prefix)
    save env role
    ask env (failpoint route_after_applying_checkpoint role prefix)
    next ← reread role prefix
    drive_transaction role next

  unfoldable pub repair_active : String → Prefix → Act Bool
  repair_active role prefix = do
    registering (begin_repair role prefix)
    save env role
    next ← reread role prefix
    apply_pending role prefix next

  -- The switch on the state of the record that was found.
  unfoldable pub reconcile_in : SelectedRouteState → String → Prefix → SelectedRoute → Act Bool
  reconcile_in active role prefix e = repair_active role prefix
  reconcile_in pending role prefix e = apply_pending role prefix e
  reconcile_in applying role prefix e = drive_transaction role e
  reconcile_in retiring role prefix e = fail owned_by_retirement
  reconcile_in (other_state s) role prefix e = fail unknown_state

  unfoldable pub reconcile_record : String → Prefix → Act Bool
  reconcile_record role prefix = do
    require env.routes_resolved no_writer
    e ← reread role prefix
    reconcile_in e.state role prefix e

  unfoldable pub remove_and_clear_park : String → Prefix → Option SelectedPark → Act (Unit {0})
  remove_and_clear_park role prefix none = done tt
  remove_and_clear_park role prefix (some p) = do
    ask env (remove_park role prefix p)
    ask env (failpoint park_after_kernel_delete role prefix)
    registering (clear_park role prefix)
    save env role

  abbrev pub park_of : Option SelectedRoute → Option SelectedPark
  park_of none = none
  park_of (some e) = e.park

  -- resumeParkRetirementLocked: nothing is left to do without a record or a park.
  unfoldable pub resume_park_retirement : String → Prefix → Act (Unit {0})
  resume_park_retirement role prefix =
      gets (λ w. park_of (registry_entry env role prefix w)) >>= λ p.
      remove_and_clear_park role prefix p

  -- The switch on the state of the park in retireRecordLocked.
  unfoldable pub retire_live_park : String → Prefix → Act (Unit {0})
  retire_live_park role prefix = do
    registering (mark_park_retiring role prefix)
    save env role
    resume_park_retirement role prefix

  unfoldable pub retire_park_in : SelectedParkState → String → Prefix → Act (Unit {0})
  retire_park_in park_pending role prefix = registering (clear_park role prefix) >> save env role
  retire_park_in park_applying role prefix = retire_live_park role prefix
  retire_park_in park_active role prefix = retire_live_park role prefix
  retire_park_in park_retiring role prefix = resume_park_retirement role prefix
  retire_park_in (other_park_state s) role prefix = done tt

  unfoldable pub retire_park : String → Prefix → Option SelectedPark → Act (Unit {0})
  retire_park role prefix none = done tt
  retire_park role prefix (some p) = retire_park_in p.state role prefix

  -- The durable evidence: a record that does not retire yet is marked and written.
  unfoldable pub begin_retirement : String → Prefix → SelectedRoute → Act SelectedRoute
  begin_retirement role prefix e =
      if is_retiring e.state
      then done e
      else (do registering (mark_retiring role prefix); save env role; reread role prefix)

  unfoldable pub finish_retirement : String → Prefix → SelectedRoute → Act (Unit {0})
  finish_retirement role prefix e = do
    ask env (remove_selected e)
    retire_park role prefix e.park
    registering (λ r. ok (remove role prefix r))
    save env role
    clear_verification_for_prefix prefix

  unfoldable pub retire_found : String → Prefix → Option SelectedRoute → Act (Unit {0})
  retire_found role prefix none = done tt
  retire_found role prefix (some e) =
      begin_retirement role prefix e >>= λ next. finish_retirement role prefix next

  unfoldable pub retire_record : String → Prefix → Act (Unit {0})
  retire_record role prefix = do
    require env.routes_resolved no_writer
    found ← gets (registry_entry env role prefix)
    retire_found role prefix found

  -- FlushZone's loop: the first error is kept and the loop goes on.
  unfoldable pub first_error : Option Failure → Result Failure (Unit {0}) → Option Failure
  first_error (some e) r = some e
  first_error none (ok _) = none
  first_error none (err e) = some e

  unfoldable pub flush_entries :
      String → String → List SelectedRoute → Option Failure → World → Option Failure × World
  flush_entries role zone [] first w = (first, w)
  flush_entries role zone (e ∷ es) first w = elim (e.zone == zone) [
    | true ↦
        let (r, w') = retire_record role e.prefix w in
        flush_entries role zone es (first_error first r) w'
    | false ↦ flush_entries role zone es first w
  ]

  unfoldable pub flush_zone : String → String → World → Option Failure × World
  flush_zone role zone w =
      let (s, w0) = role_state role w in
      let (first, w1) = flush_entries role zone (registry_snapshot env role w0) none w0 in
      let generation : ℕ = elim s [ ok f ↦ f.route_generation | err _ ↦ 0 ] in
      let (r, w2) = write_checkpoint env role generation w1 in (first_error first r, w2)

  -- Ensure's canonical apply, behind the fast path: the reservation is durable before anything else.
  unfoldable pub apply_reserved : String → Prefix → Reservation → ℕ → Act Bool
  apply_reserved role prefix a generation = do
    registering (reserve env.parse_addr role prefix a)
    write_checkpoint env role generation
    ask env (failpoint route_after_pending_checkpoint role prefix)
    mutated ← (λ w. typed_conflict role prefix (reconcile_record role prefix w))
    done (not mutated)

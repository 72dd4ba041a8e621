-- ===== src/Core/Events/Authority.antt =====
-- Who may be Ready: a desired role only under the underlay epoch it was validated for.
use kikimora.Prelude.{
  subst, sym, ap, ℕ, String, ◌≡◌, ◌≢◌, refl, Bool, true, false, none, some, List, [], ◌∷◌, inl, inr,
  arith, if◌then◌else◌, ◌==◌, nat_eq, string_eq, All,
}
use kikimora.Prelude.Map.{lookup, update_all, Entries, Entries-insert, Entries-lookup}
use kikimora.Netstate
use kikimora.Netstate.{compare_snapshots}
use kikimora.Toadctl
use kikimora.Core.Model.{
  RoleRuntime, ready, Event, underlay_invalidated, underlay_changed, resume_validation,
  route_state_changed, desired_role_changed, toad_state_changed, operation_completed, retry_due,
  OperationResult,
}
use kikimora.Core.Controller.{
  Controller, commit, desire, set_role_desired, complete, completed_role,
}
use kikimora.Core.Controller.Cases.{on_role-cases, set_role_desired-cases, observe_toad-cases}
use kikimora.Core.Observe.{
  Accepted, ignored, same_identity, accepted, accept_underlay, meet_underlay, take_underlay,
  set_underlay, ToadPhase, phase_of, default_reason, observe_unready, observe_ready, observed_role,
  observe_toad,
}
use kikimora.Core.Events.{resume_role, apply, run}

-- A desired role that is Ready was validated for this epoch, and there is one.
abbrev pub IsCurrent : ℕ → RoleRuntime → Type 0
IsCurrent epoch r = r.desired ≡ true → r.state ≡ ready → (r.validated_epoch ≡ epoch) × (epoch ≢ 0)

abbrev pub ReadyCurrent : Controller → Type 0
ReadyCurrent c = Entries (λ _ r. IsCurrent c.underlay.epoch r) c.roles

-- A completion reports success only for a real epoch.
abbrev pub IsBound : Event → Type 0
IsBound (operation_completed role op epoch result) = result.err ≡ none → epoch ≢ 0
IsBound _ = Unit {0}

desire-IsCurrent : (epoch : ℕ) (b : Bool) (r : RoleRuntime) → IsCurrent epoch (desire b r)
unfolding desire
desire-IsCurrent epoch true r d s = cc
desire-IsCurrent epoch false r d s = cc

resume_role-IsCurrent :
    (epoch : ℕ) (r : RoleRuntime) → IsCurrent epoch r → IsCurrent epoch (resume_role r)
unfolding resume_role
resume_role-IsCurrent epoch r h d s = ground (arith, h)

observe_unready-IsCurrent :
    (epoch : ℕ) (phase : ToadPhase) (why : String) (r : RoleRuntime)
    → IsCurrent epoch (observe_unready phase why r)
unfolding observe_unready
observe_unready-IsCurrent epoch phase why r d q = ground arith

observe_ready-IsCurrent :
    (epoch : ℕ) (phase : ToadPhase) (why : String) (r : RoleRuntime)
    → IsCurrent epoch r
    → IsCurrent epoch (observe_ready epoch phase why r)
unfolding observe_ready
observe_ready-IsCurrent epoch phase why r h d q = ground (arith, h)

default_reason-IsCurrent :
    (epoch : ℕ) (reason : String) (r : RoleRuntime)
    → IsCurrent epoch r
    → IsCurrent epoch (default_reason reason r)
default_reason-IsCurrent epoch reason r h d q = ground (arith, h)

choose-IsCurrent :
    (epoch : ℕ) (b : Bool) (x y : RoleRuntime)
    → IsCurrent epoch x
    → IsCurrent epoch y
    → IsCurrent epoch (if b then x else y)
choose-IsCurrent epoch true x y h k = h
choose-IsCurrent epoch false x y h k = k

observed_role-IsCurrent :
    (epoch : ℕ) (s : Toadctl.Snapshot) (r : RoleRuntime)
    → IsCurrent epoch r
    → IsCurrent epoch (observed_role epoch s r)
unfolding observed_role
observed_role-IsCurrent epoch s r h =
    let r1 : RoleRuntime = record r { toad_generation = s.generation; toad = s } in
    default_reason-IsCurrent epoch s.reason _ (
      choose-IsCurrent epoch s.route_ready _ _
        (observe_ready-IsCurrent epoch (phase_of s.state) s.reason r1 h)
        (observe_unready-IsCurrent epoch (phase_of s.state) s.reason r1))

meet_underlay-IsCurrent :
    (epoch : ℕ) (next : Netstate.Snapshot) (reason : String) (r : RoleRuntime)
    → epoch ≢ next.epoch
    → IsCurrent epoch r
    → IsCurrent next.epoch (meet_underlay (epoch == 0) next reason r)
unfolding meet_underlay
meet_underlay-IsCurrent epoch next reason r n h d q = ground (arith, h)

accept_underlay-epoch :
    (current next : Netstate.Snapshot) (reason : String) {next' : Netstate.Snapshot}
    {reason' : String}
    → accept_underlay current next reason ≡ accepted next' reason'
    → current.epoch ≢ next'.epoch
unfolding accept_underlay compare_snapshots
accept_underlay-epoch current next reason h e = ground arith

-- One role is written back with its new value.
commit-ReadyCurrent :
    (role : String) (r : RoleRuntime) (c : Controller)
    → IsCurrent c.underlay.epoch r
    → ReadyCurrent c
    → ReadyCurrent (commit role r c)
unfolding commit
commit-ReadyCurrent role r c h k =
    Entries-insert (λ _ r. IsCurrent c.underlay.epoch r) role r c.roles h k

role_IsCurrent :
    (role : String) (c : Controller) {r : RoleRuntime}
    → ReadyCurrent c
    → lookup role c.roles ≡ some r
    → IsCurrent c.underlay.epoch r
role_IsCurrent role c k q = Entries-lookup (λ _ r. IsCurrent c.underlay.epoch r) role c.roles k q

set_role_desired-ReadyCurrent :
    (role : String) (enabled : Bool) (c : Controller)
    → ReadyCurrent c
    → ReadyCurrent (set_role_desired role enabled c).0
set_role_desired-ReadyCurrent role enabled c k = elim (set_role_desired-cases role enabled c) [
  | inl q ↦ subst ReadyCurrent (sym q) k
  | inr (r, _, q) ↦
      subst ReadyCurrent (sym (ap (λ p. p.0) q))
        (commit-ReadyCurrent role (desire enabled r) c (desire-IsCurrent _ enabled r) k)
]

observe_toad-ReadyCurrent :
    (role : String) (s : Toadctl.Snapshot) (c : Controller)
    → ReadyCurrent c
    → ReadyCurrent (observe_toad role s c).0
observe_toad-ReadyCurrent role s c k = elim (observe_toad-cases role s c) [
  | inl q ↦ subst ReadyCurrent (sym q) k
  | inr (r, found, q) ↦ subst ReadyCurrent (sym (ap (λ p. p.0) q)) (
      commit-ReadyCurrent role _ c (observed_role-IsCurrent _ s r (role_IsCurrent role c k found))
        k)
]

completed-IsCurrent :
    (op epoch current : ℕ) (result : OperationResult) (r : RoleRuntime) {r' : RoleRuntime}
    → (result.err ≡ none → epoch ≢ 0)
    → completed_role op epoch current result r ≡ some r'
    → IsCurrent current r'
unfolding completed_role
completed-IsCurrent op epoch current result r n h d q = ground (arith, n)

complete-ReadyCurrent :
    (role : String) (op epoch : ℕ) (result : OperationResult) (c : Controller)
    → (result.err ≡ none → epoch ≢ 0)
    → ReadyCurrent c
    → ReadyCurrent (complete role op epoch result c).0
unfolding complete
complete-ReadyCurrent role op epoch result c n k =
    elim (on_role-cases role (completed_role op epoch c.underlay.epoch result) c) [
      | inl q ↦ subst ReadyCurrent (sym (ap (λ p. p.0) q)) k
      | inr (r, r', _, moved, q) ↦ subst ReadyCurrent (sym (ap (λ p. p.0) q)) (
          commit-ReadyCurrent role r' c
            (completed-IsCurrent op epoch c.underlay.epoch result r n moved) k)
    ]

update_all-Entries :
    (P Q : RoleRuntime → Type 0) (f : RoleRuntime → RoleRuntime) (m : List (String × RoleRuntime))
    → ((r : RoleRuntime) → P r → Q (f r))
    → Entries (λ _ r. P r) m
    → Entries (λ _ r. Q r) (update_all (λ _. f) m)
unfolding update_all
update_all-Entries P Q f [] h k = tt
update_all-Entries P Q f ((i, r) ∷ m) h k = (h r k.0, update_all-Entries P Q f m h k.1)

take_underlay-ReadyCurrent :
    (now : ℕ) (next : Netstate.Snapshot) (reason : String) (a : Accepted) (c : Controller)
    → accept_underlay c.underlay next reason ≡ a
    → ReadyCurrent c
    → ReadyCurrent (take_underlay now next a c)
unfolding take_underlay
take_underlay-ReadyCurrent now next reason ignored c q k = k
take_underlay-ReadyCurrent now next reason same_identity c q k = k
take_underlay-ReadyCurrent now next reason (accepted next' reason') c q k =
    update_all-Entries _ _ _ c.roles
      (λ r h.
        meet_underlay-IsCurrent c.underlay.epoch next' reason' r
          (accept_underlay-epoch c.underlay next reason q) h)
      k

set_underlay-ReadyCurrent :
    (now : ℕ) (next : Netstate.Snapshot) (reason : String) (c : Controller)
    → ReadyCurrent c
    → ReadyCurrent (set_underlay now next reason c)
unfolding set_underlay
set_underlay-ReadyCurrent now next reason c k =
    take_underlay-ReadyCurrent now next reason (accept_underlay c.underlay next reason) c refl k

-- Every event keeps it.
apply-ReadyCurrent :
    (now : ℕ) (e : Event) (c : Controller)
    → IsBound e
    → ReadyCurrent c
    → ReadyCurrent (apply now e c)
unfolding apply
apply-ReadyCurrent now (underlay_invalidated source) c b k = k
apply-ReadyCurrent now (underlay_changed old new reason) c b k =
    set_underlay-ReadyCurrent now new reason c k
apply-ReadyCurrent now resume_validation c b k =
    update_all-Entries _ _ resume_role c.roles (resume_role-IsCurrent c.underlay.epoch) k
apply-ReadyCurrent now route_state_changed c b k = k
apply-ReadyCurrent now (desired_role_changed role enabled) c b k =
    set_role_desired-ReadyCurrent role enabled c k
apply-ReadyCurrent now (toad_state_changed role generation s) c b k =
    observe_toad-ReadyCurrent role s c k
apply-ReadyCurrent now (operation_completed role op epoch result) c b k =
    complete-ReadyCurrent role op epoch result c b k
apply-ReadyCurrent now (retry_due role op) c b k = k

-- After any events, whose successful completions are for a real epoch, every desired role that is Ready
-- was validated for the current underlay epoch, if that held before them.
pub run-ReadyCurrent :
    (es : List (ℕ × Event)) (c : Controller)
    → All (λ t. IsBound t.1) es
    → ReadyCurrent c
    → ReadyCurrent (run es c)
unfolding run
run-ReadyCurrent [] c b k = k
run-ReadyCurrent ((now, e) ∷ es) c b k =
    run-ReadyCurrent es (apply now e c) b.1 (apply-ReadyCurrent now e c b.0 k)

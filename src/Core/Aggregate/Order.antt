-- ===== src/Core/Aggregate/Order.antt =====
-- The aggregate state against a description that does not speak of the order of the roles.
use mathlib.Core.List.{Perm}
use mathlib.Core.Logic.{∥∥₁_elim}
use kikimora.Prelude.{
  ◌≡◌, sym, ◌∙◌, Bool, false, not, ◌&&◌, ◌||◌, List, [], ◌∷◌, arith, if◌then◌else◌, ltb, any,
}
use kikimora.Prelude.Perms.{any-perm}
use kikimora.Core.Model.{RoleRuntime}
use kikimora.Core.Observe.{is_ready, is_waiting, is_recovering}
use kikimora.Core.Aggregate.{
  Aggregate, Tally, is_stopped, is_failed, start, tally_role, tally_from, aggregate,
}

abbrev desired : RoleRuntime → Bool
desired r = r.desired

abbrev desired_ready : RoleRuntime → Bool
desired_ready r = r.desired && is_ready r.state

abbrev desired_unready : RoleRuntime → Bool
desired_unready r = r.desired && not (is_ready r.state)

abbrev busy : RoleRuntime → Bool
busy r = not (is_stopped r.state) && not (is_failed r.state)

-- The state by what some role is: the first line that holds.
abbrev pub aggregate_of : List RoleRuntime → Aggregate
aggregate_of rs =
    if any desired rs && not (any desired_unready rs)
    then Aggregate.ready
    else if any (λ r. is_recovering r.state) rs
    then Aggregate.recovering
    else if any (λ r. is_waiting r.state) rs
    then Aggregate.waiting_for_underlay
    else if any desired_ready rs
    then Aggregate.partially_ready
    else if any (λ r. is_failed r.state) rs
    then Aggregate.failed
    else if any busy rs
    then Aggregate.connecting
    else Aggregate.stopped

-- What the loop adds to the flags of a tally.
tally_from_flags :
    (t : Tally) (rs : List RoleRuntime)
    → let u = tally_from t rs in
      (u.any_desired ≡ (any desired rs || t.any_desired))
      × (u.all_ready ≡ (not (any desired_unready rs) && t.all_ready))
      × (ltb 0 u.ready_count ≡ (any desired_ready rs || ltb 0 t.ready_count))
      × (u.waiting ≡ (any (λ r. is_waiting r.state) rs || t.waiting))
      × (u.recovering ≡ (any (λ r. is_recovering r.state) rs || t.recovering))
      × (u.failed ≡ (any (λ r. is_failed r.state) rs || t.failed))
unfolding tally_from tally_role
tally_from_flags t [] = ground arith
tally_from_flags t (r ∷ rs) = ground (arith, tally_from_flags (tally_role t r) rs)

tally_from_state :
    (t : Tally) (rs : List RoleRuntime)
    → any (λ r. is_recovering r.state) rs ≡ false
    → (tally_from t rs).state ≡ (if any busy rs then Aggregate.connecting else t.state)
unfolding tally_from tally_role
tally_from_state t [] h = ground arith
tally_from_state t (r ∷ rs) h = ground (arith, tally_from_state (tally_role t r) rs)

-- The aggregate state is what some role is, by the first that holds of: all desired roles ready (and
-- there is one), one recovering, one waiting for the underlay, one desired and ready, one failed, one
-- neither stopped nor failed.
pub aggregate-eq : (rs : List RoleRuntime) → aggregate rs ≡ aggregate_of rs
unfolding aggregate
aggregate-eq rs = ground (arith, tally_from_flags start rs, tally_from_state start rs)

Aggregate-set : IsSet Aggregate
Aggregate-set = hlevel

-- The order in which the loop meets the roles does not matter.
pub aggregate-perm : {rs rs' : List RoleRuntime} → Perm rs rs' → aggregate rs ≡ aggregate rs'
aggregate-perm {rs} {rs'} h = ∥∥₁_elim h (Aggregate-set _ _) λ p.
    aggregate-eq rs
    ∙ rw
        (
          any-perm desired p,
          any-perm desired_unready p,
          any-perm (λ r. is_recovering r.state) p,
          any-perm (λ r. is_waiting r.state) p,
          any-perm desired_ready p,
          any-perm (λ r. is_failed r.state) p,
          any-perm busy p,
        )
        (sym (aggregate-eq rs'))

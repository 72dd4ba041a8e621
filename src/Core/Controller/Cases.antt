-- ===== src/Core/Controller/Cases.antt =====
-- The two outcomes of a method on one role: nothing changes, or the role is written back.
use kikimora.Prelude.{
  String, ◌≡◌, ◌⊎◌, Bool, true, false, not, ◌&&◌, Option, some, inl, inr, arith, Option-cases,
  Bool-cases, ◌==◌, nat_eq, string_eq, bool_eq,
}
use kikimora.Prelude.Map.{lookup}
use kikimora.Toadctl
use kikimora.Toadctl.{deep_equal}
use kikimora.Core.Model.{RoleRuntime}
use kikimora.Core.Controller.{Controller, commit, on_role, desire, set_role_desired}
use kikimora.Core.Observe.{observed_role, observe_toad}

-- A method on a role that does not know the role, or declines, returns false and changes nothing.
pub on_role-cases :
    (role : String) (f : RoleRuntime → Option RoleRuntime) (c : Controller)
    → (on_role role f c ≡ (c, false))
      ⊎ ((r r' : RoleRuntime) × (lookup role c.roles ≡ some r)
          × (f r ≡ some r')
          × (on_role role f c ≡ (commit role r' c, true)))
unfolding on_role
on_role-cases role f c = elim (Option-cases (lookup role c.roles)) [
  | inl q ↦ inl (ground arith)
  | inr (r, q) ↦ elim (Option-cases (f r)) [
    | inl t ↦ inl (ground arith)
    | inr (r', t) ↦ inr (r, r', q, t, ground arith)
  ]
]

pub set_role_desired-cases :
    (role : String) (enabled : Bool) (c : Controller)
    → ((set_role_desired role enabled c).0 ≡ c)
      ⊎ ((r : RoleRuntime) × (lookup role c.roles ≡ some r)
          × (set_role_desired role enabled c ≡ (commit role (desire enabled r) c, true)))
set_role_desired-cases role enabled c = elim (Option-cases (lookup role c.roles)) [
  | inl q ↦ inl (unfold set_role_desired in ground arith)
  | inr (r, q) ↦ elim (Bool-cases (r.desired == enabled)) [
    | inl t ↦ inl (unfold set_role_desired in ground arith)
    | inr t ↦ inr (r, q, unfold set_role_desired in ground arith)
  ]
]

pub observe_toad-cases :
    (role : String) (s : Toadctl.Snapshot) (c : Controller)
    → ((observe_toad role s c).0 ≡ c)
      ⊎ ((r : RoleRuntime) × (lookup role c.roles ≡ some r)
          × (observe_toad role s c ≡ (commit role (observed_role c.underlay.epoch s r) c, true)))
unfolding observe_toad
observe_toad-cases role s c = elim (Option-cases (lookup role c.roles)) [
  | inl q ↦ inl (unfold observe_toad in ground arith)
  | inr (r, q) ↦
      elim (Bool-cases (not (r.toad_generation == 0) && not (r.toad_generation == s.generation))) [
        | inl t ↦ inl (rw (q, t, observe_toad))
        | inr t ↦ elim (Bool-cases (r.toad_generation == s.generation && deep_equal r.toad s)) [
          | inl u ↦ inl (rw (q, t, u, observe_toad))
          | inr u ↦ inr (r, q, rw (q, t, u, observe_toad))
        ]
      ]
]

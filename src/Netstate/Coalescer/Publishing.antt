-- ===== src/Netstate/Coalescer/Publishing.antt =====
-- What a step of the coalescer delivers, and what it keeps for later.
use kikimora.Prelude.{
  ℕ, ◌≡◌, ◌⊎◌, refl, Bool, true, false, ◌||◌, Option, none, some, ℤ, arith, Result-cases, u64_suc,
  ◌==◌, string_eq, inl, inr,
}
use kikimora.Netstate.{Snapshot, identity_equal, compare_snapshots}
use kikimora.Netstate.Coalescer.{
  Change, Env, Loop, runs, Received, ctx_done, closed, timer_fired, invalidated, publish, step,
}

identity_equal-epoch :
    (a b : Snapshot) (n : ℕ) → identity_equal a (record b { epoch = n }) ≡ identity_equal a b
unfolding identity_equal
identity_equal-epoch a b n = refl

publish-delivered :
    (env : Env) (current : Snapshot) (resume : Bool) (c : Change)
    → (publish env current resume).error ≡ none
    → (publish env current resume).delivered ≡ some c
    → ((publish env current resume).current ≡ c.snapshot)
      × (env.handler c ≡ none)
      × (c.resume ≡ resume)
      × ((identity_equal current c.snapshot ≡ false) ⊎ (resume ≡ true))
unfolding publish compare_snapshots
publish-delivered env current resume c h d = elim (Result-cases env.build) [
  | inl (next, q) ↦ ground (
    arith,
    identity_equal-epoch current next 1,
    identity_equal-epoch current next (u64_suc current.epoch),
  )
  | inr (x, q) ↦ ground arith
]

abbrev pub carries_resume : Option Change → Bool
carries_resume none = false
carries_resume (some c) = c.resume

publish-resume :
    (env : Env) (current : Snapshot) (resume : Bool)
    → (publish env current resume).error ≡ none
    → carries_resume (publish env current resume).delivered ≡ resume
unfolding publish compare_snapshots
publish-resume env current resume h = ground arith

-- A change that the loop delivers and survives is the new current snapshot, was accepted by the handler,
-- and has a new identity or answers a resume; the burst and its timer are over.
pub step_delivers :
    (settle maximum : ℤ) (env : Env) (l l' : Loop) (e : Received) (c : Change)
    → step settle maximum env l e ≡ runs l' (some c)
    → (l'.current ≡ c.snapshot)
      × (env.handler c ≡ none)
      × ((identity_equal l.current c.snapshot ≡ false) ⊎ (c.resume ≡ true))
      × (l'.resume ≡ false)
      × (l'.burst ≡ none)
      × (l'.timer_at ≡ none)
unfolding step
step_delivers settle maximum env l l' ctx_done c h = ground arith
step_delivers settle maximum env l l' closed c h = ground arith
step_delivers settle maximum env l l' timer_fired c h =
    ground (arith, publish-delivered env l.current l.resume c)
step_delivers settle maximum env l l' (invalidated source) c h =
    ground (arith, publish-delivered env l.current (l.resume || source == "resume") c)

abbrev pub is_resume : Received → Bool
is_resume (invalidated source) = source == "resume"
is_resume _ = false

-- A resume is neither dropped nor invented: after any step that the loop survives, a resume is pending or
-- carried by the change that the step delivered exactly when one was pending or came in before.
pub step_keeps_resume :
    (settle maximum : ℤ) (env : Env) (l l' : Loop) (e : Received) (d : Option Change)
    → step settle maximum env l e ≡ runs l' d
    → l'.resume || carries_resume d ≡ l.resume || is_resume e
unfolding step
step_keeps_resume settle maximum env l l' ctx_done d h = ground arith
step_keeps_resume settle maximum env l l' closed d h = ground arith
step_keeps_resume settle maximum env l l' timer_fired d h =
    ground (arith, publish-resume env l.current l.resume)
step_keeps_resume settle maximum env l l' (invalidated source) d h =
    ground (arith, publish-resume env l.current (l.resume || source == "resume"))

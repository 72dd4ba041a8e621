-- ===== src/Netstate/Coalescer/Bursts.antt =====
-- toad/internal/netstate/coalescer.go: how long the loop puts off a burst of invalidations.
use kikimora.Prelude.{
  ℕ, ◌+◌, ◌-◌, ◌<◌, String, ◌≡◌, refl, sym, subst, false, Option, none, some, ℤ, arith, ◌⊎◌,
  Bool-cases, inl, inr, leb, string_eq,
}
use kikimora.Netstate.{Snapshot}
use kikimora.Netstate.Coalescer.{
  Change, Env, Loop, runs, Received, ctx_done, closed, timer_fired, invalidated, step, duration_or,
  burst_start,
}

-- The loop that Run starts with.
abbrev pub started_loop : Snapshot → Loop
started_loop s = record { current = s; timer_at = none; burst = none; resume = false }

-- The times of the first and of the last invalidation that wait for the timer, after a step.
abbrev pub waiting : Option ℕ → Option (ℕ × ℕ) → ℕ → Option (ℕ × ℕ)
waiting none before now = none
waiting (some t) none now = some (now, now)
waiting (some t) (some (first, last)) now = some (first, now)

-- A loop after any steps that it survived, with the times of the invalidations that wait.
pub data Reached (settle maximum : ℤ) : Option (ℕ × ℕ) → Loop → Type 0 where
  starts : (s : Snapshot) → Reached settle maximum none (started_loop s)
  steps :
      {since : Option (ℕ × ℕ)} {l l' : Loop} {d : Option Change} (env : Env) (e : Received)
      → Reached settle maximum since l
      → step settle maximum env l e ≡ runs l' d
      → Reached settle maximum (waiting l'.timer_at since env.now) l'

-- Nothing waits and no timer runs; or the burst began with the first invalidation that waits, the timer
-- is one settle time after the last one, and the last one came less than the maximum after the first.
abbrev pub Bounded : ℤ → ℤ → Option (ℕ × ℕ) → Loop → Type 0
Bounded settle maximum none l = (l.burst ≡ none) × (l.timer_at ≡ none)
Bounded settle maximum (some (first, last)) l =
    (l.burst ≡ some first)
    × (l.timer_at ≡ some (last + duration_or settle 150000000))
    × (last - first < duration_or maximum 1000000000)

stopped :
    (settle maximum : ℤ) (since : Option (ℕ × ℕ)) (now : ℕ) (l : Loop)
    → (l.burst ≡ none) × (l.timer_at ≡ none)
    → Bounded settle maximum (waiting l.timer_at since now) l
stopped settle maximum since now l (b, t) =
    subst (λ (x : Option ℕ). Bounded settle maximum (waiting x since now) l) (sym t) (b, t)

timer-stops :
    (settle maximum : ℤ) (env : Env) (l l' : Loop) (d : Option Change)
    → step settle maximum env l timer_fired ≡ runs l' d
    → (l'.burst ≡ none) × (l'.timer_at ≡ none)
unfolding step
timer-stops settle maximum env l l' d h = ground arith

-- What an invalidation leaves, by the start of its burst: the burst is over, or it waits.
invalidated-leaves :
    (settle maximum : ℤ) (env : Env) (source : String) (l l' : Loop) (d : Option Change) (start : ℕ)
    → burst_start l.burst env.now ≡ start
    → step settle maximum env l (invalidated source) ≡ runs l' d
    → ((l'.burst ≡ none) × (l'.timer_at ≡ none))
      ⊎ ((l'.burst ≡ some start)
          × (l'.timer_at ≡ some (env.now + duration_or settle 150000000))
          × (env.now - start < duration_or maximum 1000000000))
unfolding step
invalidated-leaves settle maximum env source l l' d start s h =
    elim (Bool-cases (leb (duration_or maximum 1000000000) (env.now - start))) [
      | inl q ↦ ground arith
      | inr q ↦ ground arith
    ]

step-Bounded :
    (settle maximum : ℤ) (since : Option (ℕ × ℕ)) (env : Env) (e : Received) (l l' : Loop)
    (d : Option Change)
    → Bounded settle maximum since l
    → step settle maximum env l e ≡ runs l' d
    → Bounded settle maximum (waiting l'.timer_at since env.now) l'
unfolding step
step-Bounded settle maximum since env ctx_done l l' d b h = absurd (cc)
step-Bounded settle maximum since env closed l l' d b h = absurd (cc)
step-Bounded settle maximum since env timer_fired l l' d b h =
    stopped settle maximum since env.now l' (timer-stops settle maximum env l l' d h)
step-Bounded settle maximum none env (invalidated source) l l' d b h =
    elim (invalidated-leaves settle maximum env source l l' d env.now (rw b.0 refl) h) [
      | inl over ↦ stopped settle maximum none env.now l' over
      | inr w ↦
          subst (λ (x : Option ℕ). Bounded settle maximum (waiting x none env.now) l') (sym w.1) w
    ]
step-Bounded settle maximum (some (first, last)) env (invalidated source) l l' d b h =
    elim (invalidated-leaves settle maximum env source l l' d first (rw b.0 refl) h) [
      | inl over ↦ stopped settle maximum (some (first, last)) env.now l' over
      | inr w ↦
          subst
            (λ (x : Option ℕ). Bounded settle maximum (waiting x (some (first, last)) env.now) l')
            (sym w.1) w
    ]

-- In every run, while the loop puts off a burst its timer stands one settle time after the last
-- invalidation of the burst, and this one came less than the maximum after the first one since the loop
-- last published; where nothing waits, there is neither a burst nor a timer.
pub Reached-Bounded :
    (settle maximum : ℤ) (since : Option (ℕ × ℕ)) (l : Loop)
    → Reached settle maximum since l
    → Bounded settle maximum since l
Reached-Bounded settle maximum _ _ (starts s) = (refl, refl)
Reached-Bounded settle maximum _ _ (steps {since} {l} {l'} {d} env e r h) =
    step-Bounded settle maximum since env e l l' d (Reached-Bounded settle maximum since l r) h

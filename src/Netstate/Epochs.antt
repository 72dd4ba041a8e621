-- ===== src/Netstate/Epochs.antt =====
-- What Compare does to epochs.
use kikimora.Prelude.{
  ℕ, suc, ◌+◌, ◌<◌, ◌≡◌, List, [], ◌∷◌, arith, if◌then◌else◌, nat_eq, string_eq, length, Bool-cases,
  inl, inr,
}
use kikimora.Netstate.{Snapshot, identity_equal, compare_snapshots}

-- The observations of a run, each merged with the one before it.
abbrev pub observe_all : Snapshot → List Snapshot → Snapshot
observe_all s [] = s
observe_all s (next ∷ rest) = observe_all (compare_snapshots s next).0 rest

-- How many observations differ in identity from the one before them.
abbrev pub identity_changes : Snapshot → List Snapshot → ℕ
identity_changes s [] = 0
identity_changes s (next ∷ rest) =
    let more = identity_changes (compare_snapshots s next).0 rest in
    if identity_equal s next then more else suc more

pub compare_snapshots-epoch :
    (old next : Snapshot)
    → suc old.epoch < 18446744073709551616
    → (compare_snapshots old next).0.epoch
      ≡ (if identity_equal old next then old.epoch else old.epoch + 1)
unfolding compare_snapshots
compare_snapshots-epoch old next h = ground arith

-- While no epoch reaches 2^64, the epoch counts the changes of identity.
pub observe_all-epoch :
    (s : Snapshot) (rest : List Snapshot)
    → s.epoch + length rest + 1 < 18446744073709551616
    → (observe_all s rest).epoch ≡ s.epoch + identity_changes s rest
observe_all-epoch s [] h = omega arith
observe_all-epoch s (next ∷ rest) h = elim (Bool-cases (identity_equal s next)) [
  | inl q ↦
      ground
        (arith, compare_snapshots-epoch s next, observe_all-epoch (compare_snapshots s next).0 rest)
  | inr q ↦
      ground
        (arith, compare_snapshots-epoch s next, observe_all-epoch (compare_snapshots s next).0 rest)
]

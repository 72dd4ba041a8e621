-- ===== src/Core/RoleExecutor.antt =====
-- toad/internal/core/role_executor.go: RoleExecutor and its workers. Each locked section, each end of a
-- work, and each choice of the select is an event; an event that is not possible changes nothing.
pub mod Single
use kikimora.Prelude.{
  ℕ, suc, String, Bool, true, false, not, ◌&&◌, ◌||◌, Option, none, some, List, [], ◌∷◌,
  if◌then◌else◌, ◌==◌, nat_eq, string_eq,
}
use kikimora.Core.Model.{OperationResult}

-- A worker is not started, works, holds its result before the select, leaves, or is gone.
pub data Phase : Type 0 where
  absent working leaving gone : Phase
  holding : OperationResult → Phase

pub record Worker : Type 0 where
  pub role : String
  pub op : ℕ  -- uint64
  pub epoch : ℕ  -- uint64
  pub phase : Phase

pub record Completed : Type 0 where
  pub role : String
  pub operation : ℕ
  pub epoch : ℕ
  pub result : OperationResult

-- Workers and their contexts are numbered in the order of Submit; a map is a function here.
pub record RoleExecutor : Type 0 where
  pub count : ℕ
  pub next : String → ℕ
  pub cancel : String → Option ℕ
  pub stopped : ℕ → Bool
  pub workers : ℕ → Worker
  pub completed : List Completed

abbrev nobody : Worker
nobody = record { role = ""; op = 0; epoch = 0; phase = absent }

abbrev pub new_role_executor : RoleExecutor
new_role_executor = record {
  count = 0;
  next = λ _. 0;
  cancel = λ _. none;
  stopped = λ _. false;
  workers = λ _. nobody;
  completed = [];
}

abbrev pub put_role {ℓ} : {A : Type ℓ} → String → A → (String → A) → String → A
put_role role x f r = if r == role then x else f r

abbrev pub put_at {ℓ} : {A : Type ℓ} → ℕ → A → (ℕ → A) → ℕ → A
put_at i x f j = if j == i then x else f j

abbrev pub stop : Option ℕ → (ℕ → Bool) → ℕ → Bool
stop none f = f
stop (some i) f = put_at i true f

unfoldable pub submit : String → ℕ → ℕ → RoleExecutor → RoleExecutor
submit role op epoch e = record e {
  count = suc e.count;
  next = put_role role op e.next;
  cancel = put_role role (some e.count) e.cancel;
  stopped = stop (e.cancel role) e.stopped;
  workers =
      put_at e.count (record { role = role; op = op; epoch = epoch; phase = working }) e.workers;
}

unfoldable pub cancel_role : String → RoleExecutor → RoleExecutor
cancel_role role e = record e {
  cancel = put_role role none e.cancel;
  stopped = stop (e.cancel role) e.stopped;
}

abbrev pub enter : ℕ → Phase → RoleExecutor → RoleExecutor
enter i p e = record e { workers = put_at i (record (e.workers i) { phase = p }) e.workers }

unfoldable pub finished : Phase → OperationResult → ℕ → RoleExecutor → RoleExecutor
finished working r i e = enter i (holding r) e
finished _ r i e = e

abbrev message : Worker → OperationResult → Completed
message w r = record { role = w.role; operation = w.op; epoch = w.epoch; result = r }

unfoldable pub delivered : Phase → ℕ → RoleExecutor → RoleExecutor
delivered (holding r) i e = record (enter i leaving e) {
  completed = message (e.workers i) r ∷ e.completed;
}
delivered _ i e = e

-- The other arm of the select, once the context is done.
unfoldable pub dropped : Phase → ℕ → RoleExecutor → RoleExecutor
dropped (holding r) i e = if e.stopped i then enter i leaving e else e
dropped _ i e = e

-- The deferred section.
abbrev pub released : ℕ → RoleExecutor → RoleExecutor
released i e =
    if e.next (e.workers i).role == (e.workers i).op
    then record e { cancel = put_role (e.workers i).role none e.cancel }
    else e

unfoldable pub left : Phase → ℕ → RoleExecutor → RoleExecutor
left leaving i e = enter i gone (released i e)
left _ i e = e

pub data ExecutorEvent : Type 0 where
  submits : String → ℕ → ℕ → ExecutorEvent
  cancels : String → ExecutorEvent
  finishes : ℕ → OperationResult → ExecutorEvent
  delivers drops leaves aborts : ℕ → ExecutorEvent

-- `aborts`: the context that Submit was given is done.
unfoldable pub executor_step : ExecutorEvent → RoleExecutor → RoleExecutor
executor_step (submits role op epoch) e = submit role op epoch e
executor_step (cancels role) e = cancel_role role e
executor_step (finishes i r) e = finished (e.workers i).phase r i e
executor_step (delivers i) e = delivered (e.workers i).phase i e
executor_step (drops i) e = dropped (e.workers i).phase i e
executor_step (leaves i) e = left (e.workers i).phase i e
executor_step (aborts i) e = record e { stopped = put_at i true e.stopped }

-- The newest event first.
unfoldable pub run_events : List ExecutorEvent → RoleExecutor
run_events [] = new_role_executor
run_events (v ∷ vs) = executor_step v (run_events vs)

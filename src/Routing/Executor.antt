-- ===== src/Routing/Executor.antt =====
-- toad/internal/routing/transaction.go, executor.go and fake.go: route transactions, and the executor
-- that keeps the rows in memory.
pub mod Rows
use kikimora.Prelude.{
  ℕ, ℤ, String, Bool, true, false, ◌&&◌, ◌||◌, not, Option, none, some, List, [], ◌∷◌, ◌++◌,
  if◌then◌else◌, ◌==◌, string_eq, Result, ok, err,
}
use kikimora.Prelude.Int.{int_eq}

pub record Operation : Type 0 where
  pub kind : String
  pub family : ℤ
  pub prefix : String
  pub table : ℤ
  pub priority : ℤ
  pub if_index : ℤ
  pub metric : ℕ  -- uint32
  pub gateway : String
  pub source : String
  pub protocol : ℤ
  pub interface_luid : ℕ  -- uint64

pub record Transaction : Type 0 where
  pub id : ℕ
  pub role : String
  pub operations : List Operation

pub record KernelState : Type 0 where
  pub routes : List Operation
  pub rules : List Operation

-- The interface over any state of the outside; an error is its message.
pub record Executor (S : Type 0) : Type 0 where
  pub apply : Transaction → S → Option String × S
  pub snapshot : S → Result String KernelState

-- Serialized without an inner executor does nothing; its mutex makes each call one step.
unfoldable pub serialized_apply :
    {S : Type 0} → Option (Executor S) → Transaction → S → Option String × S
serialized_apply none t s = (none, s)
serialized_apply (some x) t s = x.apply t s

unfoldable pub serialized_snapshot :
    {S : Type 0} → Option (Executor S) → S → Result String KernelState
serialized_snapshot none s = ok (record { routes = []; rules = [] })
serialized_snapshot (some x) s = x.snapshot s

abbrev pub same_key : Operation → Operation → Bool
same_key target item =
    if target.kind == "rule" || target.kind == "delete-rule"
    then item.prefix == target.prefix
      && (item.table == target.table && item.priority == target.priority)
    else item.prefix == target.prefix
      && (item.table == target.table && item.if_index == target.if_index)

abbrev pub deleted_kind : Operation → Operation → Bool
deleted_kind target item =
    item.kind == target.kind
    || (target.kind == "delete-park" && item.kind == "park"
        || target.kind == "delete-route" && item.kind == "route")

unfoldable pub remove_operation : List Operation → Operation → List Operation
remove_operation [] target = []
remove_operation (item ∷ items) target =
    let rest = remove_operation items target in
    if deleted_kind target item && same_key target item then rest else item ∷ rest

abbrev pub adds_route : String → Bool
adds_route kind = kind == "route" || (kind == "unreachable" || kind == "park")

abbrev pub removes_route : String → Bool
removes_route kind = kind == "delete-route" || kind == "delete-park"

-- One turn of the loop of Fake.Apply.
unfoldable pub fake_step : Operation → KernelState → KernelState
fake_step op k =
    if adds_route op.kind
    then record k { routes = remove_operation k.routes op ++ op ∷ [] }
    else (if removes_route op.kind
        then record k { routes = remove_operation k.routes op }
        else (if op.kind == "rule"
            then record k { rules = remove_operation k.rules op ++ op ∷ [] }
            else (if op.kind == "delete-rule"
                then record k { rules = remove_operation k.rules op }
                else k)))

unfoldable pub fake_steps : List Operation → KernelState → KernelState
fake_steps [] k = k
fake_steps (op ∷ ops) k = fake_steps ops (fake_step op k)

pub record Fake : Type 0 where
  pub transactions : List Transaction
  pub state : KernelState

unfoldable pub fake_apply : Transaction → Fake → Option String × Fake
fake_apply t f = (
  none,
  record { transactions = f.transactions ++ t ∷ []; state = fake_steps t.operations f.state },
)

abbrev pub fake : Executor Fake
fake = record { apply = fake_apply; snapshot = λ f. ok f.state }

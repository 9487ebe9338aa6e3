-- ===== src/Store/Idempotency.antt =====
-- internal/storage/sqlite/idempotency.go: one record for each (scope, key).
pub mod Replay
use fleetplane.Prelude.{
  ℕ, ◌-◌, Bool, true, false, not, ◌&&◌, ◌||◌, Option, none, some, List, [], ◌∷◌, ◌==◌, ltb,
  if◌then◌else◌,
}
use fleetplane.Prelude.Outcome.{Outcome, ok, err, conflict, guard, or_fail, ◌>>=◌, ◌>>◌}
use fleetplane.Prelude.Json.{Json}
use fleetplane.Store.{Db, IdemRecord, IdemState, Operation}
use fleetplane.Store.Rows.{get_row}
use fleetplane.Store.Resources.{is_none}
use fleetplane.Store.Operations.{op_id}

pub data BeginOutcome : Type 0 where
  begin_new begin_in_progress begin_completed begin_mismatch : BeginOutcome

abbrev pub keyed : ℕ → ℕ → IdemRecord → Bool
keyed scope key r = r.scope == scope && r.key == key

unfoldable pub find : ℕ → ℕ → List IdemRecord → Option IdemRecord
find scope key [] = none
find scope key (r ∷ rs) = let rest = find scope key rs in if keyed scope key r then some r else rest

unfoldable pub update : ℕ → ℕ → (IdemRecord → IdemRecord) → List IdemRecord → List IdemRecord
update scope key f [] = []
update scope key f (r ∷ rs) =
    let rest = update scope key f rs in if keyed scope key r then f r ∷ rs else r ∷ rest

abbrev pub is_in_progress : IdemState → Bool
is_in_progress IdemState.in_progress = true
is_in_progress IdemState.completed = false
is_in_progress IdemState.failed = false

-- The empty operation id is stored as NULL.
abbrev pub op_or_null : ℕ → Option ℕ
op_or_null op = if op == 0 then none else some op

abbrev pub claim : ℕ → ℕ → ℕ → ℕ → ℕ → IdemRecord
claim scope key hash op now = record {
  scope = scope;
  key = key;
  request_hash = hash;
  state = IdemState.in_progress;
  operation_id = op_or_null op;
  http_status = 0;
  result = Json.blank;
  created_at = now;
  completed_at = none;
  expires_at = none;
}

-- The answer for a key that was already claimed.
abbrev pub judge : IdemRecord → ℕ → BeginOutcome
judge r hash =
    if not (r.request_hash == hash)
    then begin_mismatch
    else if is_in_progress r.state
    then begin_in_progress
    else begin_completed

pub record Begun : Type 0 where
  pub db : Db
  pub outcome : BeginOutcome
  pub rec : IdemRecord

-- INSERT … ON CONFLICT DO NOTHING, then the read-back.
unfoldable pub begin : ℕ → ℕ → ℕ → ℕ → ℕ → Db → Begun
unfolding find
begin scope key hash op now db = elim (find scope key db.idem) [
  | none ↦ record {
    db = record db { idem = claim scope key hash op now ∷ db.idem };
    outcome = begin_new;
    rec = claim scope key hash op now;
  }
  | some r ↦ record { db = db; outcome = judge r hash; rec = r }
]

abbrev pub outcome_of : IdemState → ℕ → Json ℕ → ℕ → ℕ → IdemRecord → IdemRecord
outcome_of state status result now expires r = record r {
  state = state;
  http_status = status;
  result = result;
  completed_at = some now;
  expires_at = some expires;
}

-- UPDATE … WHERE scope=? AND key=? AND state='in_progress'.
unfoldable pub finish : ℕ → ℕ → IdemState → ℕ → Json ℕ → ℕ → ℕ → Db → Outcome Db
unfolding find update
finish scope key state status result now expires db = do
  r ← or_fail (find scope key db.idem) conflict
  guard (is_in_progress r.state) conflict
  ok (record db { idem = update scope key (outcome_of state status result now expires) db.idem })

unfoldable pub complete : ℕ → ℕ → ℕ → Json ℕ → ℕ → ℕ → Db → Outcome Db
unfolding finish
complete scope key status result now expires db =
    finish scope key IdemState.completed status result now expires db

unfoldable pub fail : ℕ → ℕ → ℕ → Json ℕ → ℕ → ℕ → Db → Outcome Db
unfolding finish
fail scope key status result now expires db =
    finish scope key IdemState.failed status result now expires db

abbrev expired_before : Option ℕ → ℕ → Bool
expired_before none now = false
expired_before (some e) now = ltb e now

-- LEFT JOIN operations: no operation, or one that is terminal.
abbrev op_settled : Option ℕ → Db → Bool
op_settled none db = true
op_settled (some o) db = elim (get_row op_id o db.operations) [
  | none ↦ false
  | some op ↦ not (is_none op.terminal_at)
]

abbrev pub collectable : ℕ → Db → IdemRecord → Bool
collectable now db r = expired_before r.expires_at now && op_settled r.operation_id db

-- DELETE of at most `limit` collectable records.
unfoldable pub gc_rows : ℕ → ℕ → Db → List IdemRecord → List IdemRecord
gc_rows limit now db [] = []
gc_rows limit now db (r ∷ rs) =
    let drop = collectable now db r && ltb 0 limit in
    let rest = gc_rows (if drop then limit - 1 else limit) now db rs in
    if drop then rest else r ∷ rest

unfoldable pub gc : ℕ → ℕ → Db → Db
unfolding gc_rows
gc limit now db = record db { idem = gc_rows limit now db db.idem }

-- ===== src/Service.antt =====
-- internal/app/service.go, CreateResource and DeleteResource from their transaction on, and
-- internal/provision/provision.go, Journal: one request with its idempotency key.
pub mod Replays
pub mod Deletes
pub mod Acquire
pub mod Accepts
use fleetplane.Prelude.{ℕ, ◌+◌, Bool, true, false, Option, none, some, List, [], ◌∷◌}
use fleetplane.Prelude.Outcome.{
  Outcome, ok, err, conflict, idem_mismatch, idem_in_flight, guard, ◌>>=◌, ◌>>◌,
}
use fleetplane.Prelude.Json.{Json}
use fleetplane.Phase.{Phase, can_transition}
use fleetplane.Provider.{ActionKind, ExternalRef}
use fleetplane.Store.{Db, Resource, Operation, OpKind, EventType}
use fleetplane.Store.Resources
use fleetplane.Store.Operations
use fleetplane.Store.Events
use fleetplane.Store.Idempotency.{
  BeginOutcome, begin_new, begin_in_progress, begin_completed, begin_mismatch, Begun, begin,
  complete,
}
use fleetplane.Machines.{ref_for, action_of, journaled_op, delete_gates}
use fleetplane.Engine.Drive.{idem_retention_ms}

-- The key of a request; a request without one has none.
pub record Key : Type 0 where
  pub scope : ℕ
  pub key : ℕ
  pub request_hash : ℕ

pub record Answer : Type 0 where
  pub status : ℕ
  pub body : Json ℕ
  pub replayed : Bool

-- What the body of a request leaves: the database and the response that BuildResponse made.
pub record Done : Type 0 where
  pub db : Db
  pub status : ℕ
  pub body : Json ℕ

-- The database after a request, with its answer.
pub record Served : Type 0 where
  pub db : Db
  pub answer : Answer

abbrev pub fresh : Done → Answer
fresh d = record { status = d.status; body = d.body; replayed = false }

unfoldable pub store_answer : Key → ℕ → Done → Outcome Served
store_answer k now d =
    complete k.scope k.key d.status d.body now (now + idem_retention_ms) d.db >>= λ db1.
    ok (record { db = db1; answer = fresh d })

abbrev pub replay : Begun → Served
replay b = record {
  db = b.db;
  answer = record { status = b.rec.http_status; body = b.rec.result; replayed = true };
}

-- The switch on the outcome of Begin.
abbrev pub on_begun : Key → ℕ → (Db → Outcome Done) → Begun → BeginOutcome → Outcome Served
on_begun k now work b begin_completed = ok (replay b)
on_begun k now work b begin_in_progress = err idem_in_flight
on_begun k now work b begin_mismatch = err idem_mismatch
on_begun k now work b begin_new = work b.db >>= store_answer k now

-- The transaction of a request around its body.
unfoldable pub keyed_request : Option Key → ℕ → ℕ → (Db → Outcome Done) → Db → Outcome Served
unfolding store_answer
keyed_request none op now work db = work db >>= λ d. ok (record { db = d.db; answer = fresh d })
keyed_request (some k) op now work db =
    let b = begin k.scope k.key k.request_hash op now db in on_begun k now work b b.outcome

abbrev pub with_key : Option Key → Operation → Operation
with_key none o = o
with_key (some k) o = record o { idem_scope = some k.scope; idem_key = some k.key }

-- Journal: the resource, the operation and the event.
unfoldable pub journal_create : Resource → Operation → Db → Outcome Db
journal_create r o db = do
  db1 ← Resources.insert r db
  db2 ← Operations.append o db1
  ok (Events.append r.created_at EventType.resource_create (some r.id) (some o.id) db2)

-- The body of CreateResource, for what Prepare made.
unfoldable pub create_work : (Resource → ℕ × Json ℕ) → Resource → Operation → Db → Outcome Done
unfolding journal_create
create_work build r o db = journal_create r o db >>= λ db1.
    ok (record { db = db1; status = (build r).0; body = (build r).1 })

unfoldable pub create_resource :
    (Resource → ℕ × Json ℕ) → Option Key → ℕ → Resource → Operation → Db → Outcome Served
unfolding keyed_request create_work
create_resource build k now r o db =
    keyed_request k o.id now (create_work build r (with_key k o)) db

abbrev pub deletion : Option Key → ℕ → ℕ → Resource → ℕ → Operation
deletion k op now r ext =
    with_key k
      (record (journaled_op op OpKind.delete r
        (action_of op ActionKind.delete_action r.id (ref_for r ext) true) now) { pool_id = none })

-- A resource that never came to exist at the provider is tombstoned; else the delete is journaled.
abbrev pub delete_found : Option Key → ℕ → ℕ → Resource → Option ℕ → Db → Outcome Db
delete_found k op now r none db = Resources.mark_deleted r.id now db
delete_found k op now r (some ext) db = do
  guard (can_transition r.phase Phase.deleting) conflict
  db1 ← Resources.cas_phase r.id r.phase Phase.deleting now db
  db2 ← Operations.append (deletion k op now r ext) db1
  ok (Events.append now EventType.resource_delete (some r.id) (some op) db2)

unfoldable pub delete_work : (Resource → ℕ × Json ℕ) → Option Key → ℕ → ℕ → ℕ → Db → Outcome Done
unfolding ref_for
delete_work build k op now res db = do
  r ← Resources.get res db
  delete_gates r db
  db1 ← delete_found k op now r r.external_id db
  ok (record { db = db1; status = (build r).0; body = (build r).1 })

unfoldable pub delete_resource :
    (Resource → ℕ × Json ℕ) → Option Key → ℕ → ℕ → ℕ → Db → Outcome Served
unfolding keyed_request delete_work
delete_resource build k op now res db = keyed_request k op now (delete_work build k op now res) db

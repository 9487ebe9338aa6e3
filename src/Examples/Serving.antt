-- ===== src/Examples/Serving.antt =====
-- The theorems on requests with an idempotency key: a create and a delete that a client repeats, and
-- what is refused of a machine in use.
use fleetplane.Prelude.{ℕ, ◌≡◌, refl, true, false, none, some, [], ◌∷◌, arith}
use fleetplane.Prelude.Outcome.{Outcome, ok, err, is_ok}
use fleetplane.Prelude.Json.{Json}
use fleetplane.Phase.{Phase}
use fleetplane.Store.{Db, Resource, Operation, OpState, OpKind}
use fleetplane.Store.Resources
use fleetplane.Store.Operations
use fleetplane.Store.Events
use fleetplane.Store.Idempotency.{find, begin, complete}
use fleetplane.Service.{Key, Served, create_resource}
use fleetplane.Store.Rows.{get_row}
use fleetplane.Store.Resources.{res_id}
use fleetplane.Service.{Done, delete_work}
use fleetplane.Service.Deletes.{delete_work-tombstones, leased-refused}
use fleetplane.Machines.{journal_stop, journal_delete}
use fleetplane.Machines.Operator.{park_resource}
use fleetplane.Service.Replays.{create_resource-replay}
use fleetplane.Examples.{machine, operation, lease, tables}

-- Every response has status 202 and the machine's id.
abbrev build : Resource → ℕ × Json ℕ
build r = (202, Json.doc r.id)

abbrev a_key : Key
a_key = record { scope = 1; key = 2; request_hash = 77 }

abbrev empty : Db
empty = tables [] [] [] []

abbrev new_machine : Resource
new_machine = machine 1 Phase.provisioning none

abbrev create_op : Operation
create_op = operation 5 OpKind.create OpState.journaled (some 1)

abbrev served_or : Db → Outcome Served → Served
served_or db (ok s) = s
served_or db (err e) = record {
  db = db;
  answer = record { status = 0; body = Json.blank; replayed = false };
}

abbrev created : Served
created = served_or empty (create_resource build (some a_key) 1000 new_machine create_op empty)

was_created : create_resource build (some a_key) 1000 new_machine create_op empty ≡ ok created
unfolding create_resource begin complete Resources.insert Operations.append Events.append
was_created = refl

no_key : find 1 2 empty.idem ≡ none
unfolding find
no_key = refl

create_resource-replay_example :
    create_resource build
      (some a_key)
      2000
      (machine 2 Phase.provisioning none)
      (operation 6 OpKind.create OpState.journaled (some 2))
      created.db
    ≡ ok (record { db = created.db; answer = record created.answer { replayed = true } })
create_resource-replay_example =
    create_resource-replay build build a_key 1000 new_machine create_op empty 77 2000
      (machine 2 Phase.provisioning none) (operation 6 OpKind.create OpState.journaled (some 2))
      no_key was_created

-- The create is open, and its machine has no external id yet.
abbrev creating : Db
creating = tables (new_machine ∷ []) [] [] (create_op ∷ [])

delete_work-tombstones_example :
    (d : Done) × (delete_work build none 7 2000 1 creating ≡ ok d)
    × (d.db.operations ≡ create_op ∷ [])
    × ((r : Resource) × (get_row res_id 1 d.db.resources ≡ some r) × (r.deleted_at ≡ some 2000))
delete_work-tombstones_example =
    delete_work-tombstones build none 7 2000 1 creating new_machine refl refl refl refl refl refl

abbrev rented : Db
rented = tables (machine 1 Phase.allocated (some 9) ∷ []) (lease 10 21 1 [] ∷ []) [] []

leased-refused_example :
    (is_ok (journal_stop (λ provider kind. true) 30 1 1000 false rented) ≡ false)
    × (is_ok (park_resource (λ provider kind. true) 30 1 1000 rented) ≡ false)
    × (is_ok (journal_delete 30 1 1000 rented) ≡ false)
    × (is_ok (delete_work build none 30 1000 1 rented) ≡ false)
leased-refused_example =
    leased-refused build none (λ provider kind. true) 30 1 1000 false rented (omega arith)

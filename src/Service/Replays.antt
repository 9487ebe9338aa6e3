-- ===== src/Service/Replays.antt =====
-- A request with an idempotency key takes effect once (internal/app/service.go).
use fleetplane.Prelude.{
  ℕ, ◌≡◌, refl, sym, ◌∙◌, ap, ◌+◌, true, Option, none, some, ◌==◌, if◌then◌else◌, arith,
}
use fleetplane.Prelude.Outcome.{Outcome, ok, err, OnOk, OnOk-of, OnOk-ok, >>=-eq-ok, idem_mismatch}
use fleetplane.Prelude.Json.{Json}
use fleetplane.Store.{Db, Resource, Operation, IdemRecord, IdemState}
use fleetplane.Store.Rows.{map_row}
use fleetplane.Store.Resources
use fleetplane.Store.Operations
use fleetplane.Store.Events
use fleetplane.Store.Idempotency.{
  find, begin, complete, claim, outcome_of, update, finish, begin_new,
}
use fleetplane.Store.Idempotency.Replay.{find-update}
use fleetplane.Machines.{delete_gates}
use fleetplane.Service.{
  Key, Done, Served, keyed_request, store_answer, on_begun, fresh, create_work, create_resource,
  delete_found, delete_work, delete_resource, with_key,
}

-- The body of a request leaves the idempotency records alone.
abbrev pub KeepsIdem : (Db → Outcome Done) → Type 0
KeepsIdem work = (db : Db) → OnOk (λ d. d.db.idem ≡ db.idem) (work db)

create_work-KeepsIdem :
    (build : Resource → ℕ × Json ℕ) (r : Resource) (o : Operation)
    → KeepsIdem (create_work build r o)
unfolding create_work Resources.insert Operations.append Events.append
create_work-KeepsIdem build r o db = OnOk-of (λ d. d.db.idem ≡ db.idem) _ (λ d h. ground arith)

found-KeepsIdem :
    (k : Option Key) (op now : ℕ) (r : Resource) (ext : Option ℕ) (db : Db) {d : Db}
    → delete_found k op now r ext db ≡ ok d
    → d.idem ≡ db.idem
unfolding Resources.mark_deleted Resources.cas_phase Operations.append Events.append
found-KeepsIdem k op now r none db h = ground arith
found-KeepsIdem k op now r (some ext) db h = ground arith

delete_work-KeepsIdem :
    (build : Resource → ℕ × Json ℕ) (k : Option Key) (op now res : ℕ)
    → KeepsIdem (delete_work build k op now res)
unfolding delete_work
delete_work-KeepsIdem build k op now res db =
    OnOk-of (λ d. d.db.idem ≡ db.idem) _
      (λ d h.
        let (r, _, h1) = >>=-eq-ok (Resources.get res db) _ h in
        let (_, _, h2) = >>=-eq-ok (delete_gates r db) _ h1 in
        let (db1, e, h3) = >>=-eq-ok (delete_found k op now r r.external_id db) _ h2 in
        ground (arith, found-KeepsIdem k op now r r.external_id db e))

claimed :
    (k : Key) (op now : ℕ) (db : Db)
    → find k.scope k.key db.idem ≡ none
    → ((begin k.scope k.key k.request_hash op now db).outcome ≡ begin_new)
      × (find k.scope k.key (begin k.scope k.key k.request_hash op now db).db.idem
          ≡ some (claim k.scope k.key k.request_hash op now))
unfolding begin find
claimed k op now db h = (ground (arith, h), ground (arith, h))

-- The record of a key after its answer is stored.
store_answer-find :
    (k : Key) (now : ℕ) (d : Done) (r : IdemRecord) {s : Served}
    → find k.scope k.key d.db.idem ≡ some r
    → store_answer k now d ≡ ok s
    → (s.answer ≡ fresh d)
      × (find k.scope k.key s.db.idem
          ≡ some (outcome_of IdemState.completed d.status d.body now (now + 172800000) r))
unfolding store_answer complete finish
store_answer-find k now d r {s} g h =
    let (db1, e, h1) =
      >>=-eq-ok (complete k.scope k.key d.status d.body now (now + 172800000) d.db) _ h in
    let stored : s.db.idem
        ≡ update k.scope k.key
            (outcome_of IdemState.completed d.status d.body now (now + 172800000)) d.db.idem =
      ground (arith, g) in
    (
      ground arith,
      ap (find k.scope k.key) stored
          ∙ find-update k.scope k.key
              (outcome_of IdemState.completed d.status d.body now (now + 172800000)) d.db.idem
              (λ _. refl)
          ∙ ap (map_row (outcome_of IdemState.completed d.status d.body now (now + 172800000))) g,
    )

-- A later request with a key whose record is completed.
replayed :
    (k : Key) (op now : ℕ) (work : Db → Outcome Done) (db : Db) (hash status : ℕ) (body : Json ℕ)
    (at expires first_op first : ℕ)
    → find k.scope k.key db.idem
      ≡ some (
          outcome_of IdemState.completed status body at expires
            (claim k.scope k.key hash first_op first))
    → keyed_request (some k) op now work db ≡ (
        if hash == k.request_hash
        then ok
            (record { db = db; answer = record { status = status; body = body; replayed = true } })
        else err idem_mismatch)
unfolding keyed_request begin
replayed k op now work db hash status body at expires first_op first g = ground (arith, g)

-- A request whose key is fresh and that succeeds; any later request under the key, on a database with
-- the same idempotency records.
pub keyed_request-replay :
    (k : Key) (op now : ℕ) (work : Db → Outcome Done) (db : Db) {s : Served}
    (hash later_op later : ℕ) (later_work : Db → Outcome Done) (later_db : Db)
    → KeepsIdem work
    → find k.scope k.key db.idem ≡ none
    → keyed_request (some k) op now work db ≡ ok s
    → later_db.idem ≡ s.db.idem
    → keyed_request (some (record k { request_hash = hash })) later_op later later_work later_db ≡ (
        if k.request_hash == hash
        then ok (record { db = later_db; answer = record s.answer { replayed = true } })
        else err idem_mismatch)
unfolding keyed_request
keyed_request-replay k op now work db {s} hash later_op later later_work later_db keeps none_yet h
      same =
    let b = begin k.scope k.key k.request_hash op now db in
    let (bo, bf) = claimed k op now db none_yet in
    let (d, e, h1) =
      >>=-eq-ok (work b.db) (store_answer k now) (sym (ap (on_begun k now work b) bo) ∙ h) in
    let kept : d.db.idem ≡ b.db.idem =
      OnOk-ok (λ x. x.db.idem ≡ b.db.idem) (work b.db) d e (keeps b.db) in
    let (ans, row) =
      store_answer-find k now d (claim k.scope k.key k.request_hash op now)
        (ap (find k.scope k.key) kept ∙ bf) h1 in
    replayed (record k { request_hash = hash }) later_op later later_work later_db k.request_hash
      d.status d.body now (now + 172800000) op now (ap (find k.scope k.key) same ∙ row)
    ∙ ap
        (λ a.
          if k.request_hash == hash
          then ok (record { db = later_db; answer = record a { replayed = true } })
          else err idem_mismatch)
        (sym ans)

-- A create with a fresh idempotency key that succeeds takes effect once: any later create under
-- the key changes nothing; with the same request hash it gets the same status and body, marked as
-- replayed, and with another hash it is refused.
pub create_resource-replay :
    (build later_build : Resource → ℕ × Json ℕ) (k : Key) (now : ℕ) (r : Resource) (o : Operation)
    (db : Db) {s : Served} (hash later : ℕ) (later_r : Resource) (later_o : Operation)
    → find k.scope k.key db.idem ≡ none
    → create_resource build (some k) now r o db ≡ ok s
    → create_resource later_build
        (some (record k { request_hash = hash }))
        later
        later_r
        later_o
        s.db
      ≡ (if k.request_hash == hash
          then ok (record { db = s.db; answer = record s.answer { replayed = true } })
          else err idem_mismatch)
unfolding create_resource
create_resource-replay build later_build k now r o db {s} hash later later_r later_o none_yet h =
    keyed_request-replay k o.id now (create_work build r (with_key (some k) o)) db hash later_o.id
      later
      (create_work later_build later_r (with_key (some (record k { request_hash = hash })) later_o))
      s.db (create_work-KeepsIdem build r (with_key (some k) o)) none_yet h refl

-- A delete with a fresh idempotency key that succeeds takes effect once: any later delete under
-- the key changes nothing; with the same request hash it gets the same status and body, marked as
-- replayed, and with another hash it is refused.
pub delete_resource-replay :
    (build later_build : Resource → ℕ × Json ℕ) (k : Key) (op now res : ℕ) (db : Db) {s : Served}
    (hash later_op later later_res : ℕ)
    → find k.scope k.key db.idem ≡ none
    → delete_resource build (some k) op now res db ≡ ok s
    → delete_resource later_build
        (some (record k { request_hash = hash }))
        later_op
        later
        later_res
        s.db
      ≡ (if k.request_hash == hash
          then ok (record { db = s.db; answer = record s.answer { replayed = true } })
          else err idem_mismatch)
unfolding delete_resource
delete_resource-replay build later_build k op now res db {s} hash later_op later later_res none_yet
      h =
    keyed_request-replay k op now (delete_work build (some k) op now res) db hash later_op later
      (delete_work later_build (some (record k { request_hash = hash })) later_op later later_res)
      s.db (delete_work-KeepsIdem build (some k) op now res) none_yet h refl

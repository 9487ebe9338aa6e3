-- ===== src/Store/Idempotency/Replay.antt =====
-- Replay of a request by its idempotency key (internal/storage/sqlite/idempotency.go).
use fleetplane.Prelude.{
  ℕ, ◌≡◌, refl, ◌∙◌, ap, false, none, some, List, [], ◌∷◌, ◌==◌, if◌then◌else◌, arith, Option-cases,
  inl, inr,
}
use fleetplane.Prelude.Outcome.{ok, err, conflict}
use fleetplane.Prelude.Json.{Json}
use fleetplane.Store.{Db, IdemRecord, IdemState}
use fleetplane.Store.Rows.{map_row}
use fleetplane.Store.Idempotency.{
  begin_new, begin_in_progress, begin_completed, begin_mismatch, keyed, find, update, begin,
  outcome_of, finish, complete, is_in_progress,
}

pub find-update :
    (scope key : ℕ) (f : IdemRecord → IdemRecord) (rs : List IdemRecord)
    → ((r : IdemRecord) → keyed scope key (f r) ≡ keyed scope key r)
    → find scope key (update scope key f rs) ≡ map_row f (find scope key rs)
unfolding find update
find-update scope key f [] h = refl
find-update scope key f (r ∷ rs) h = ground (arith, h r, find-update scope key f rs h)

-- A fresh key is claimed by the first request alone: until that one finishes, a request with the
-- same content is told that it is in progress, one with another content that it does not match,
-- and neither changes the database.
pub begin-claims :
    (scope key hash other op op2 now later : ℕ) (db : Db)
    → find scope key db.idem ≡ none
    → ((begin scope key hash op now db).outcome ≡ begin_new)
      × ((begin scope key other op2 later (begin scope key hash op now db).db).outcome
          ≡ (if hash == other then begin_in_progress else begin_mismatch))
      × ((begin scope key other op2 later (begin scope key hash op now db).db).db
          ≡ (begin scope key hash op now db).db)
unfolding begin find
begin-claims scope key hash other op op2 now later db h = ground (arith, h)

-- A retry replays the stored answer: when the first request of a key completes, every later
-- request with the same content gets its status and its result and changes nothing, and one with
-- another content is refused.
pub begin-complete :
    (scope key hash other op op2 now at later expires status : ℕ) (result : Json ℕ) (db : Db)
    → find scope key db.idem ≡ none
    → (db2 : Db) × (complete scope key status result at expires (begin scope key hash op now db).db
        ≡ ok db2)
      × ((begin scope key other op2 later db2).outcome
          ≡ (if hash == other then begin_completed else begin_mismatch))
      × ((begin scope key other op2 later db2).rec.http_status ≡ status)
      × ((begin scope key other op2 later db2).rec.result ≡ result)
      × ((begin scope key other op2 later db2).db ≡ db2)
unfolding begin complete finish find update
begin-complete scope key hash other op op2 now at later expires status result db h =
    let claimed = (begin scope key hash op now db).db in
    (
      record claimed {
        idem =
            update scope key (outcome_of IdemState.completed status result at expires) claimed.idem;
      },
      ground (arith, h),
      ground (arith, h),
      ground (arith, h),
      ground (arith, h),
      ground (arith, h),
    )

-- A claim is finished once: after a completion or a failure another one is a conflict, so that a
-- stored answer is never overwritten.
pub finish-once :
    (scope key : ℕ) (first second : IdemState) (s1 s2 : ℕ) (r1 r2 : Json ℕ) (t1 t2 e1 e2 : ℕ)
    (db : Db) {db' : Db}
    → is_in_progress first ≡ false
    → finish scope key first s1 r1 t1 e1 db ≡ ok db'
    → finish scope key second s2 r2 t2 e2 db' ≡ err conflict
unfolding finish
finish-once scope key first second s1 s2 r1 r2 t1 t2 e1 e2 db {db'} ends h =
    let row = find-update scope key (outcome_of first s1 r1 t1 e1) db.idem (λ _. refl) in
    elim (Option-cases (find scope key db.idem)) [
      | inl e ↦ ground (arith, e)
      | inr (r, e) ↦
          let now : db'.idem ≡ update scope key (outcome_of first s1 r1 t1 e1) db.idem =
            ground (arith, e) in
          let found : find scope key db'.idem ≡ some (outcome_of first s1 r1 t1 e1 r) =
            ap (find scope key) now ∙ row ∙ ap (map_row (outcome_of first s1 r1 t1 e1)) e in
          ground (arith, found, ends)
    ]

-- ===== src/Engine/Trail/Committed.antt =====
-- A committed transaction of the engine as a trail of the journal (internal/operations/engine.go).
use fleetplane.Prelude.{ℕ, ◌≡◌, refl, sym, subst, ◌∙◌, ap, some}
use fleetplane.Prelude.Outcome.{Outcome, ok, err, OnOk, ◌>>=◌}
use fleetplane.Store.{Db, Operation, OpState}
use fleetplane.Store.Rows.{get_row, put_row}
use fleetplane.Store.Operations.{op_id, move, transition}
use fleetplane.Store.Operations.Journal.{LeavesState, transition-inv}
use fleetplane.Engine.Base.{commit, commit_terminal}
use fleetplane.Engine.Trail.{Moves, Trail, still, moved}

module _ {E : Moves} (id wall : ℕ) (from to : OpState) (mut : Operation → Operation) (e : E from to)
    (q : LeavesState mut) where
  settle :
      (db d : Db) (o : Operation)
      → d.operations ≡ put_row op_id id (move to wall mut) db.operations
      → get_row op_id id db.operations ≡ some o
      → o.state ≡ from
      → (n : Outcome Db) → OnOk (λ d'. d'.operations ≡ d.operations) n
      → Trail E id db.operations (commit db n).operations
  settle db d o same g s (err x) h = still
  settle db d o same g s (ok d') h = moved from to wall mut o e q g s (
      subst (Trail E id (put_row op_id id (move to wall mut) db.operations)) (sym (h ∙ same)) still)

commit_terminal-db :
    (id : ℕ) (db : Db) (m : Outcome Db) → (commit_terminal id db m).db ≡ commit db m
unfolding commit_terminal
commit_terminal-db id db (ok d) = refl
commit_terminal-db id db (err e) = refl

>>=-ok : (m : Outcome Db) → (m >>= ok) ≡ m
>>=-ok (ok d) = refl
>>=-ok (err e) = refl

-- A committed Transition along an edge, with a rest of the transaction that leaves the journal
-- alone, is a trail; a transaction that fails is rolled back.
pub commit-Trail :
    {E : Moves} (wall id : ℕ) (from to : OpState) (mut : Operation → Operation) (db : Db)
    (k : Db → Outcome Db)
    → E from to
    → LeavesState mut
    → ((d : Db) → OnOk (λ d'. d'.operations ≡ d.operations) (k d))
    → Trail E id db.operations (commit db (transition wall id from to mut db >>= k)).operations
commit-Trail {E} wall id from to mut db k e q keep =
    by_outcome (transition wall id from to mut db) refl
  where
    by_outcome :
        (m : Outcome Db)
        → transition wall id from to mut db ≡ m
        → Trail E id db.operations (commit db (m >>= k)).operations
    by_outcome (err x) eq = still
    by_outcome (ok d) eq =
        let (o, g, s, same) = transition-inv wall id from to mut db eq in
        settle id wall from to mut e q db d o (ap (λ x. x.operations) same) g s (k d) (keep d)

-- The same where a terminal callback follows the commit.
pub commit_terminal-Trail :
    {E : Moves} (wall id : ℕ) (from to : OpState) (mut : Operation → Operation) (db : Db)
    (k : Db → Outcome Db)
    → E from to
    → LeavesState mut
    → ((d : Db) → OnOk (λ d'. d'.operations ≡ d.operations) (k d))
    → Trail E id db.operations
        (commit_terminal id db (transition wall id from to mut db >>= k)).db.operations
commit_terminal-Trail wall id from to mut db k e q keep =
    rw (commit_terminal-db id db (transition wall id from to mut db >>= k))
      (commit-Trail wall id from to mut db k e q keep)

-- A Transition alone.
pub transition-Trail :
    {E : Moves} (wall id : ℕ) (from to : OpState) (mut : Operation → Operation) (db : Db)
    → E from to
    → LeavesState mut
    → Trail E id db.operations (commit db (transition wall id from to mut db)).operations
transition-Trail wall id from to mut db e q =
    rw (← >>=-ok (transition wall id from to mut db))
      (commit-Trail wall id from to mut db ok e q (λ d. refl))

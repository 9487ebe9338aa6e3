-- ===== src/Engine/Handlers.antt =====
-- Each handler of the engine leaves a trail of documented transitions of its own operation in the
-- journal, and nothing else (internal/operations/engine.go).
use fleetplane.Prelude.{
  ℕ, ◌≡◌, refl, subst, Bool, true, false, Option, none, some, List, if◌then◌else◌, All, arith,
}
use fleetplane.Prelude.Json.{Json}
use fleetplane.Prelude.Outcome.{Outcome, ok, err, OnOk, OnOk-of, ◌>>=◌}
use fleetplane.Phase.{Phase}
use fleetplane.Capacity.{Vector}
use fleetplane.Provider.{ExternalRef, GoError}
use fleetplane.Store.{Db, Operation, OpState, ObservedSnapshot}
use fleetplane.Store.Resources
use fleetplane.Store.Operations
use fleetplane.Store.Operations.Journal.{LeavesState}
use fleetplane.Store.Events
use fleetplane.Engine.Base.{
  World, Driven, Call, applied, discovered, observed, fetched, notified, quiet, commit,
  commit_terminal, set_err, set_err_opt, reschedule, fail_op, fail_op_phases, fail_found, fail_kind,
  succeed_delete, try_cas, tombstone, next_attempt, fail_from, fail_to,
}
use fleetplane.Engine.Trail.{Moves, Trail}
use fleetplane.Engine.Trail.Committed.{commit_terminal-Trail, commit-Trail, transition-Trail}

-- The handlers that follow leave the journal of another operation alone.
abbrev pub Leaves : Moves → Operation → Db → Driven → Type 0
Leaves E op db d = Trail E op.id db.operations d.db.operations

-- Calls that only read at the provider or notify.
abbrev pub reads : Call → Bool
reads (applied j clean) = false
reads (discovered j absent) = false
reads (observed j) = true
reads (fetched j) = true
reads (notified j) = true

abbrev pub Silent : List Call → Type 0
Silent cs = All (λ c. reads c ≡ true) cs

-- … and makes no other calls.
abbrev pub Settles : Moves → Operation → Db → Driven → Type 0
Settles E op db d = Leaves E op db d × Silent d.calls

abbrev pub SameJournal : Db → Db → Type 0
SameJournal db d = d.operations ≡ db.operations

-- The operations on resources that a handler's transaction goes on with.
pub cas-SameJournal :
    (id : ℕ) (from to : Phase) (at : ℕ) (db : Db)
    → OnOk (SameJournal db) (Resources.cas_phase id from to at db)
unfolding Resources.cas_phase
cas-SameJournal id from to at db = OnOk-of (SameJournal db) _ (λ d h. ground arith)

mark-SameJournal : (id at : ℕ) (db : Db) → OnOk (SameJournal db) (Resources.mark_deleted id at db)
unfolding Resources.mark_deleted
mark-SameJournal id at db = OnOk-of (SameJournal db) _ (λ d h. ground arith)

pub ref-SameJournal :
    (id ext : ℕ) (ref : Json ExternalRef) (db : Db)
    → OnOk (SameJournal db) (Resources.set_external_ref id ext ref db)
unfolding Resources.set_external_ref
ref-SameJournal id ext ref db = OnOk-of (SameJournal db) _ (λ d h. ground arith)

pub facts-SameJournal :
    (id : ℕ) (ext : Json ℕ) (cap : Json Vector) (at : ℕ) (db : Db)
    → OnOk (SameJournal db) (Resources.set_provider_facts id ext cap at db)
unfolding Resources.set_provider_facts
facts-SameJournal id ext cap at db = OnOk-of (SameJournal db) _ (λ d h. ground arith)

pub observed-SameJournal :
    (snap : ObservedSnapshot) (db : Db) → OnOk (SameJournal db) (Resources.put_observed snap db)
unfolding Resources.put_observed
observed-SameJournal snap db = OnOk-of (SameJournal db) _ (λ d h. ground arith)

-- A step whose failure is ignored.
pub commit-SameJournal :
    (db : Db) (m : Outcome Db) → OnOk (SameJournal db) m → SameJournal db (commit db m)
commit-SameJournal db (ok d) h = h
commit-SameJournal db (err e) h = refl

pub try_cas-SameJournal :
    (id : Option ℕ) (from to : Phase) (at : ℕ) (db : Db) → SameJournal db (try_cas id from to at db)
try_cas-SameJournal none from to at db = refl
try_cas-SameJournal (some id) from to at db =
    commit-SameJournal db _ (cas-SameJournal id from to at db)

-- A chain of steps.
pub chain-SameJournal :
    (db : Db) (m : Outcome Db) (k : Db → Outcome Db)
    → OnOk (SameJournal db) m
    → ((d : Db) → OnOk (SameJournal d) (k d))
    → OnOk (SameJournal db) (m >>= k)
chain-SameJournal db (err e) k h g = tt
chain-SameJournal db (ok d) k h g = subst (λ ops. OnOk (λ d'. d'.operations ≡ ops) (k d)) h (g d)

pub set_err-LeavesState : (cause : GoError) → LeavesState (set_err cause)
unfolding set_err
set_err-LeavesState cause o = (refl, refl)

pub if-Settles :
    {E : Moves} (op : Operation) (db : Db) (b : Bool) (x y : Driven)
    → (b ≡ true → Settles E op db x)
    → (b ≡ false → Settles E op db y)
    → Settles E op db (if b then x else y)
if-Settles op db true x y h k = h refl
if-Settles op db false x y h k = k refl

pub if-Leaves :
    {E : Moves} (op : Operation) (db : Db) (b : Bool) (x y : Driven)
    → (b ≡ true → Leaves E op db x)
    → (b ≡ false → Leaves E op db y)
    → Leaves E op db (if b then x else y)
if-Leaves op db true x y h k = h refl
if-Leaves op db false x y h k = k refl

commit_terminal-Silent :
    (id : ℕ) (db : Db) (m : Outcome Db) → Silent (commit_terminal id db m).calls
unfolding commit_terminal
commit_terminal-Silent id db (ok d) = (refl, tt)
commit_terminal-Silent id db (err e) = tt

-- A transaction that begins with a Transition and leaves the journal alone after it.
module _ {E : Moves} (wall : ℕ) (op : Operation) (from to : OpState) (mut : Operation → Operation)
    (db : Db) (k : Db → Outcome Db) (e : E from to) (q : LeavesState mut)
    (keep : (d : Db) → OnOk (SameJournal d) (k d)) where
  pub commit-Settles :
      Settles E op db (quiet (commit db (Operations.transition wall op.id from to mut db >>= k)))
  commit-Settles = (commit-Trail wall op.id from to mut db k e q keep, tt)

  pub commit_terminal-Settles :
      Settles E op db
        (commit_terminal op.id db (Operations.transition wall op.id from to mut db >>= k))
  commit_terminal-Settles = (
    commit_terminal-Trail wall op.id from to mut db k e q keep,
    commit_terminal-Silent op.id db _,
  )

pub transition-Settles :
    {E : Moves} (wall : ℕ) (op : Operation) (from to : OpState) (mut : Operation → Operation)
    (db : Db)
    → E from to
    → LeavesState mut
    → Settles E op db (quiet (commit db (Operations.transition wall op.id from to mut db)))
transition-Settles wall op from to mut db e q = (transition-Trail wall op.id from to mut db e q, tt)

fail_found-Settles :
    {E : Moves} (w : World) (op : Operation) (from : OpState) (cause : GoError) (f t : Phase)
    (db : Db) (m : Outcome Operation)
    → E from OpState.failed
    → Settles E op db (fail_found w op.id from cause f t db m)
unfolding fail_found Events.append
fail_found-Settles w op from cause f t db (err x) e = (Trail.still, tt)
fail_found-Settles w op from cause f t db (ok o) e =
    commit_terminal-Settles w.wall op from OpState.failed (set_err cause) db _ e
      (set_err-LeavesState cause) (λ d. try_cas-SameJournal o.resource_id f t w.now d)

pub fail_op_phases-Settles :
    {E : Moves} (w : World) (op : Operation) (from : OpState) (cause : GoError) (f t : Phase)
    (db : Db)
    → E from OpState.failed
    → Settles E op db (fail_op_phases w op.id from cause f t db)
unfolding fail_op_phases
fail_op_phases-Settles w op from cause f t db = fail_found-Settles w op from cause f t db _

fail_kind-Settles :
    {E : Moves} (w : World) (op : Operation) (from : OpState) (cause : GoError) (db : Db)
    (m : Outcome Operation)
    → E from OpState.failed
    → Settles E op db (fail_kind w op.id from cause db m)
unfolding fail_kind
fail_kind-Settles w op from cause db (err x) e = (Trail.still, tt)
fail_kind-Settles w op from cause db (ok o) e =
    fail_op_phases-Settles w op from cause (fail_from o.kind) (fail_to o.kind) db e

pub fail_op-Settles :
    {E : Moves} (w : World) (op : Operation) (from : OpState) (cause : GoError) (db : Db)
    → E from OpState.failed
    → Settles E op db (fail_op w op.id from cause db)
unfolding fail_op
fail_op-Settles w op from cause db = fail_kind-Settles w op from cause db _

tombstone-SameJournal :
    (id : Option ℕ) (at : ℕ) (db : Db) → OnOk (SameJournal db) (tombstone id at db)
tombstone-SameJournal none at db = refl
tombstone-SameJournal (some id) at db = mark-SameJournal id at db

pub succeed_delete-Settles :
    {E : Moves} (w : World) (op : Operation) (from : OpState) (db : Db)
    → E from OpState.succeeded
    → Settles E op db (succeed_delete w op from db)
unfolding succeed_delete Events.append
succeed_delete-Settles w op from db e =
    commit_terminal-Settles w.wall op from OpState.succeeded Operations.no_change db _ e
      (λ o. (refl, refl))
      (λ d.
        chain-SameJournal d (tombstone op.resource_id w.now d) _
          (tombstone-SameJournal op.resource_id w.now d) (λ d2. refl))

set_err_opt-LeavesState :
    (cause : Option GoError) (n : ℕ)
    → LeavesState (λ o. set_err_opt cause (record o { next_attempt_at = some n }))
unfolding set_err
set_err_opt-LeavesState none n o = (refl, refl)
set_err_opt-LeavesState (some c) n o = (refl, refl)

pub reschedule-Settles :
    {E : Moves} (w : World) (op : Operation) (cause : Option GoError) (db : Db)
    → E op.state op.state
    → Settles E op db (reschedule w op cause db)
unfolding reschedule
reschedule-Settles w op cause db e =
    transition-Settles w.wall op op.state op.state _ db e
      (set_err_opt-LeavesState cause (next_attempt w op cause))

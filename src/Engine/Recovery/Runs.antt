-- ===== src/Engine/Recovery/Runs.antt =====
-- Runs of the engine through any number of restarts (internal/operations/engine.go).
use fleetplane.Prelude.{
  ℕ, ◌≡◌, ◌≢◌, refl, sym, subst, ◌∙◌, ap, Bool, true, false, List, [], ◌∷◌, ◌==◌, if◌then◌else◌,
  arith,
}
use fleetplane.Prelude.Outcome.{Outcome, ok, err, OnOk, OnOk-of, OnOk-bind}
use fleetplane.Store.{Db, Operation, OpState}
use fleetplane.Store.Rows.{get_row}
use fleetplane.Store.Operations
use fleetplane.Store.Operations.{op_id, transition, append}
use fleetplane.Store.Operations.Journal.{LeavesState}
use fleetplane.Engine.Handlers.{try_cas-SameJournal}
use fleetplane.Phase.{Phase}
use fleetplane.Store.Events
use fleetplane.Engine.Base.{World, Call, commit, try_cas}
use fleetplane.Engine.Drive.{
  resume, resume_all, resume_one, resume_next, ResolveAction, retry_verification, mark_failed,
  resolve, failed_from,
}
use fleetplane.Engine.Dispatch.{tx_b, mark_in_flight}
use fleetplane.Engine.Progress.{mark_in_flight-LeavesState}
use fleetplane.Engine.Recovery.{Turn, Run, doubt, doubt-++, IsClear}
use fleetplane.Engine.Recovery.Turns.{transition-journaled, transition-IsKnown, IsKnown}
use fleetplane.Engine.Safety.{drive-Walk}
use fleetplane.Engine.Recovery.Creates.{drive-IsClear}

-- What holds of a journaled create between turns, with `b` for the doubt about it.
abbrev pub Good : ℕ → Bool → Db → Type 0
Good j b db = IsKnown j db × IsClear j db b

transition-Good :
    (wall id : ℕ) (from to : OpState) (mut : Operation → Operation) (db : Db) (j : ℕ) (b : Bool)
    → LeavesState mut
    → to ≢ OpState.journaled
    → Good j b db
    → OnOk (Good j b) (transition wall id from to mut db)
transition-Good wall id from to mut db j b q ne (known, clear) = OnOk-of (Good j b) _ (λ d h. (
  transition-IsKnown wall id from to mut db j h known,
  λ o go k s. clear o (transition-journaled wall id from to mut db j o q ne h go s).1 k s,
))

resume_one-Good :
    (wall : ℕ) (op : Operation) (db : Db) (s : OpState) (j : ℕ) (b : Bool)
    → Good j b db
    → OnOk (Good j b) (resume_one wall op db s)
resume_one-Good wall op db OpState.in_flight j b c =
    transition-Good wall op.id OpState.in_flight OpState.verifying _ db j b (λ x. (refl, refl))
      (λ q. ground arith) c
resume_one-Good wall op db OpState.journaled j b c = c
resume_one-Good wall op db OpState.external_accepted j b c = c
resume_one-Good wall op db OpState.verifying j b c = c
resume_one-Good wall op db OpState.uncertain j b c = c
resume_one-Good wall op db OpState.succeeded j b c = c
resume_one-Good wall op db OpState.failed j b c = c
resume_one-Good wall op db OpState.aborted j b c = c

resumed-Good :
    (wall : ℕ) (ops : List Operation) (db : Db) (j : ℕ) (b : Bool) (m : Outcome Db)
    → Good j b db
    → OnOk (Good j b) m
    → ((d : Db) → Good j b d → Good j b (resume_all wall ops d).0)
    → Good j b (resume_next db (λ d. resume_all wall ops d) m).0
resumed-Good wall ops db j b (err e) c h rest = c
resumed-Good wall ops db j b (ok d) c h rest = rest d h

resume_all-Good :
    (wall : ℕ) (ops : List Operation) (db : Db) (j : ℕ) (b : Bool)
    → Good j b db
    → Good j b (resume_all wall ops db).0
unfolding resume_all
resume_all-Good wall [] db j b c = c
resume_all-Good wall (op ∷ ops) db j b c =
    resumed-Good wall ops db j b (resume_one wall op db op.state) c
      (resume_one-Good wall op db op.state j b c) (λ d h. resume_all-Good wall ops d j b h)

commit-Good :
    (j : ℕ) (b : Bool) (db : Db) (m : Outcome Db)
    → Good j b db
    → OnOk (Good j b) m
    → Good j b (commit db m)
commit-Good j b db (ok d) c h = h
commit-Good j b db (err e) c h = c

same-Good : (j : ℕ) (b : Bool) (db d : Db) → d.operations ≡ db.operations → Good j b db → Good j b d
same-Good j b db d e ((o, g), c) =
    ((o, ap (get_row op_id j) e ∙ g), λ p gp. c p (ap (get_row op_id j) (sym e) ∙ gp))

resolve-Good :
    (w : World) (id : ℕ) (a : ResolveAction) (db : Db) (j : ℕ) (b : Bool)
    → Good j b db
    → OnOk (Good j b) (resolve w id a db)
unfolding resolve Events.append Operations.get
resolve-Good w id retry_verification db j b c =
    OnOk-bind (Good j b) (Good j b) _ _
      (transition-Good w.wall id OpState.uncertain OpState.verifying _ db j b (λ x. (refl, refl))
        (λ q. ground arith) c)
      (λ d _ h. h)
resolve-Good w id mark_failed db j b c =
    OnOk-bind (λ _. Unit {0}) (Good j b) (Operations.get id db) _
      (OnOk-of (λ _. Unit {0}) _ (λ _ _. tt))
      (λ op _ _.
        OnOk-bind (Good j b) (Good j b) _ _
          (transition-Good w.wall id OpState.uncertain OpState.failed _ db j b (λ x. (refl, refl))
            (λ q. ground arith) c)
          (λ d _ h.
            same-Good j b d (try_cas op.resource_id (failed_from op.kind) Phase.failed w.now d)
              (try_cas-SameJournal op.resource_id (failed_from op.kind) Phase.failed w.now d) h))

append-Good :
    (op : Operation) (db : Db) {db1 : Db} (j : ℕ) (b : Bool)
    → append op db ≡ ok db1
    → Good j b db
    → Good j b db1
unfolding append
append-Good op db {db1} j b h ((o, g), c) =
    let fresh : (op.id == j) ≡ false = ground (arith, g) in
    let rest : get_row op_id j db1.operations ≡ get_row op_id j db.operations =
      ground (arith, g, fresh) in
    ((o, rest ∙ g), λ p gp. c p (sym rest ∙ gp))

dies-Good :
    (w : World) (op : Operation) (db : Db) {db1 : Db} (j : ℕ) (b c : Bool)
    → tx_b w op db ≡ ok db1
    → Good j b db
    → Good j (if op.id == j then c else b) db1
unfolding tx_b
dies-Good w op db j b c h (known, clear) = (
  transition-IsKnown w.wall op.id OpState.journaled OpState.in_flight (mark_in_flight w) db j h
      known,
  λ o go k s.
      let (n, before) =
        transition-journaled w.wall op.id OpState.journaled OpState.in_flight (mark_in_flight w) db
          j o (mark_in_flight-LeavesState w) (λ q. ground arith) h go s in
      ap (λ x. if x then c else b) n ∙ clear o before k s,
)

either_same : (c b : Bool) → (if c then b else b) ≡ b
either_same true b = refl
either_same false b = refl

Turn-Good :
    {db db1 : Db} {calls : List Call} (j : ℕ) (b : Bool)
    → Turn db calls db1
    → Good j b db
    → Good j (doubt j b calls) db1
unfolding resume
Turn-Good j b (Turn.drives w op db g) ((o, h), clear) =
    let (o', h', _) = drive-Walk w op db j o h in ((o', h'), drive-IsClear w op db j b g clear)
Turn-Good j b (Turn.dies_before_apply w op db db1 h) good =
    subst (λ x. Good j x db1) (either_same (op.id == j) b) (dies-Good w op db j b b h good)
Turn-Good j b (Turn.dies_after_apply w op db db1 h) good = dies-Good w op db j b true h good
Turn-Good j b (Turn.resumes wall db) good =
    resume_all-Good wall (Operations.non_terminal db) db j b good
Turn-Good j b (Turn.resolves w id a db) good =
    commit-Good j b db (resolve w id a db) good (resolve-Good w id a db j b good)
Turn-Good j b (Turn.journals op db db1 h) good = append-Good op db j b h good

pub Run-Good :
    {start db : Db} {log : List Call} (j : ℕ)
    → Run start log db
    → IsKnown j start
    → Good j (doubt j false log) db
Run-Good j Run.begins known = (known, λ o g k s. refl)
Run-Good {start} {db} j (Run.then_turn {log} {calls} run turn) known =
    subst (λ b. Good j b db) (sym (doubt-++ j log calls false))
      (Turn-Good j (doubt j false log) turn (Run-Good j run known))

-- ===== src/Engine/Trail.antt =====
-- What the engine's handlers do to the journal, as a trail of transitions along the edges of the
-- operation state machine (internal/storage/types.go, OpState; internal/operations/engine.go).
pub mod Committed
use fleetplane.Prelude.{
  ℕ, ◌≡◌, ◌≢◌, refl, sym, subst, ◌∙◌, ap, inl, inr, true, false, Option, none, some, List, ◌==◌,
  if◌then◌else◌, arith, Bool-cases,
}
use fleetplane.Prelude.Outcome.{Outcome, ok, err, OnOk, ◌>>=◌}
use fleetplane.Store.{Db, Operation, OpState, terminal, op_eq}
use fleetplane.Store.Rows.{get_row, put_row, map_row, get_row-put_row}
use fleetplane.Store.Operations.{op_id, move, transition}
use fleetplane.Store.Operations.Journal.{
  LeavesState, OneOpen, transition-inv, move-state, put_row-OneOpen, op_eq→≡,
}
use fleetplane.Engine.Base.{commit, commit_terminal}

-- The edges that the engine and the manual resolution take.
pub data Edge : OpState → OpState → Type 0 where
  dispatched : Edge OpState.journaled OpState.in_flight
  accepted : Edge OpState.in_flight OpState.external_accepted
  in_doubt : Edge OpState.in_flight OpState.verifying
  not_reached : Edge OpState.in_flight OpState.journaled
  gone : Edge OpState.in_flight OpState.succeeded
  refused : Edge OpState.in_flight OpState.failed
  finished : Edge OpState.external_accepted OpState.succeeded
  reported_failed : Edge OpState.external_accepted OpState.failed
  vanished : Edge OpState.external_accepted OpState.verifying
  found : Edge OpState.verifying OpState.external_accepted
  absent : Edge OpState.verifying OpState.journaled
  deleted : Edge OpState.verifying OpState.succeeded
  frozen : Edge OpState.verifying OpState.uncertain
  verify_failed : Edge OpState.verifying OpState.failed
  not_dispatched : Edge OpState.journaled OpState.failed
  thawed : Edge OpState.uncertain OpState.verifying
  written_off : Edge OpState.uncertain OpState.failed
  rescheduled_accepted : Edge OpState.external_accepted OpState.external_accepted
  rescheduled_verifying : Edge OpState.verifying OpState.verifying

pub ruleset edges = (
  dispatched, accepted, in_doubt, not_reached, gone, refused, finished, reported_failed, vanished,
  found, absent, deleted, frozen, verify_failed, not_dispatched, rescheduled_accepted,
  rescheduled_verifying,
)

-- No edge leaves a terminal state.
pub Edge-live : {a b : OpState} → Edge a b → terminal a ≡ false
unfolding terminal
Edge-live dispatched = refl
Edge-live accepted = refl
Edge-live in_doubt = refl
Edge-live not_reached = refl
Edge-live gone = refl
Edge-live refused = refl
Edge-live finished = refl
Edge-live reported_failed = refl
Edge-live vanished = refl
Edge-live found = refl
Edge-live absent = refl
Edge-live deleted = refl
Edge-live frozen = refl
Edge-live verify_failed = refl
Edge-live not_dispatched = refl
Edge-live thawed = refl
Edge-live written_off = refl
Edge-live rescheduled_accepted = refl
Edge-live rescheduled_verifying = refl

-- A walk of the state machine.
pub data Walk : OpState → OpState → Type 0 where
  stay : {s : OpState} → Walk s s
  go : {s t u : OpState} → Edge s t → Walk t u → Walk s u

-- A relation between the states of an operation: which transitions are meant.
abbrev pub Moves : Type 1
Moves = OpState → OpState → Type 0

-- A journal that differs from another by such transitions of the operation `id`.
pub data Trail (E : Moves) (id : ℕ) : List Operation → List Operation → Type 0 where
  still : {ops : List Operation} → Trail E id ops ops
  moved :
      {ops ops' : List Operation} (from to : OpState) (wall : ℕ) (mut : Operation → Operation)
      (o : Operation)
      → E from to
      → LeavesState mut
      → get_row op_id id ops ≡ some o
      → o.state ≡ from
      → Trail E id (put_row op_id id (move to wall mut) ops) ops'
      → Trail E id ops ops'

move-id :
    (to : OpState) (wall : ℕ) (mut : Operation → Operation) (o : Operation)
    → op_id (move to wall mut o) ≡ op_id o
unfolding move
move-id to wall mut o = refl

-- The other operations are as they were.
pub Trail-other :
    {E : Moves} {id : ℕ} {ops ops' : List Operation} (j : ℕ)
    → Trail E id ops ops'
    → (id == j) ≡ false
    → get_row op_id j ops' ≡ get_row op_id j ops
Trail-other j still ne = refl
Trail-other {E} {id} j (moved {ops} from to wall mut o e q g s t) ne =
    Trail-other j t ne
    ∙ get_row-put_row op_id id j (move to wall mut) ops (move-id to wall mut)
    ∙ ap (λ b. if b then map_row (move to wall mut) (get_row op_id j ops) else get_row op_id j ops)
        ne

self : (i : ℕ) → (i == i) ≡ true
self i = ground arith

pub put_self :
    (id : ℕ) (to : OpState) (wall : ℕ) (mut : Operation → Operation) (ops : List Operation)
    (o : Operation)
    → get_row op_id id ops ≡ some o
    → get_row op_id id (put_row op_id id (move to wall mut) ops) ≡ some (move to wall mut o)
put_self id to wall mut ops o g =
    get_row-put_row op_id id id (move to wall mut) ops (move-id to wall mut)
    ∙ ground (arith, self id)

retype : {a b a' b' : OpState} → Edge a b → a' ≡ a → b' ≡ b → Edge a' b'
retype e p q = rw (p, q) e

state_of :
    (id : ℕ) (ops : List Operation) {o p : Operation} {from : OpState}
    → get_row op_id id ops ≡ some o
    → get_row op_id id ops ≡ some p
    → p.state ≡ from
    → o.state ≡ from
state_of id ops g g' s = ap state_or (sym g ∙ g') ∙ s
  where
    state_or : Option Operation → OpState
    state_or none = OpState.journaled
    state_or (some x) = x.state

-- The operation itself is there, in a state that a walk of the state machine leads to.
pub Trail-Walk :
    {id : ℕ} {ops ops' : List Operation} (o : Operation)
    → Trail Edge id ops ops'
    → get_row op_id id ops ≡ some o
    → (o' : Operation) × (get_row op_id id ops' ≡ some o') × Walk o.state o'.state
Trail-Walk o still g = (o, g, stay)
Trail-Walk {id} o (moved {ops} from to wall mut p e q g' s t) g =
    let (o', g2, w) = Trail-Walk (move to wall mut p) t (put_self id to wall mut ops p g') in
    (o', g2, go (retype e (state_of id ops g g' s) (move-state to wall mut p q)) w)

-- What each of its transitions keeps of the state of the operation.
pub Trail-keeps :
    (P : OpState → Type 0) {id : ℕ} {ops ops' : List Operation} (o : Operation)
    → Trail (λ a b. P a → P b) id ops ops'
    → get_row op_id id ops ≡ some o
    → P o.state
    → (o' : Operation) × (get_row op_id id ops' ≡ some o') × P o'.state
Trail-keeps P o still g h = (o, g, h)
Trail-keeps P {id} o (moved {ops} from to wall mut p e q g' s t) g h =
    Trail-keeps P (move to wall mut p) t (put_self id to wall mut ops p g')
      (subst P (sym (move-state to wall mut p q)) (e (subst P (state_of id ops g g' s) h)))

-- A trail from an operation in a terminal state changes nothing.
pub Trail-terminal :
    {id : ℕ} {ops ops' : List Operation} (o : Operation)
    → Trail Edge id ops ops'
    → get_row op_id id ops ≡ some o
    → terminal o.state ≡ true
    → ops' ≡ ops
Trail-terminal o still g h = refl
Trail-terminal {id} o (moved {ops} from to wall mut p e q g' s t) g h =
    cc (Edge-live e, ap terminal (state_of id ops g g' s))

pub Trail-trans :
    {E : Moves} {id : ℕ} {a b c : List Operation} → Trail E id a b → Trail E id b c → Trail E id a c
Trail-trans still u = u
Trail-trans (moved from to wall mut o e q g s t) u =
    moved from to wall mut o e q g s (Trail-trans t u)

-- Transitions that enter the state `s` only when P holds.
abbrev pub Only : OpState → Type 0 → Moves
Only s P a b = b ≡ s → P

-- An operation that enters `s` along such a trail shows P.
pub Trail-Only :
    {s : OpState} {P : Type 0} {id : ℕ} {ops ops' : List Operation} (o' : Operation)
    → Trail (Only s P) id ops ops'
    → ((o : Operation) → get_row op_id id ops ≡ some o → o.state ≢ s)
    → get_row op_id id ops' ≡ some o'
    → o'.state ≡ s
    → P
Trail-Only o' still h g q = absurd (h o' g q)
Trail-Only {s} {P} {id} o' (moved {ops} {ops'} from to wall mut o e l g0 s0 t) h g q =
    elim (Bool-cases (op_eq to s)) [
      | inl y ↦ e (op_eq→≡ to s y)
      | inr n ↦
          Trail-Only o' t
            (λ p gp ps. ne_of n (
              sym (move-state to wall mut o l)
              ∙ ap state_or (sym (put_self id to wall mut ops o g0) ∙ gp)
              ∙ ps))
            g q
    ]
  where
    state_or : Option Operation → OpState
    state_or none = OpState.journaled
    state_or (some x) = x.state

    ne_of : {a b : OpState} → op_eq a b ≡ false → a ≢ b
    ne_of h e = ground arith

-- ===== src/Engine/Recovery/Reasons.antt =====
-- Why a create may go back to journaled (internal/operations/engine.go, handleApplyError and verify).
use fleetplane.Prelude.{
  ℕ, ◌≡◌, ◌≢◌, ◌⊎◌, inl, inr, refl, Bool, true, false, not, ◌&&◌, ◌==◌, if◌then◌else◌, arith,
}
use fleetplane.Store.{OpState, OpKind}
use fleetplane.Engine.Base.{Driven, is_delete, is_park_op}
use fleetplane.Engine.Trail.{Edge, Only}
use fleetplane.Engine.Recovery.{doubt, IsClear}

pub if-Clear :
    (j : ℕ) (b c : Bool) (x y : Driven)
    → (c ≡ true → IsClear j x.db (doubt j b x.calls))
    → (c ≡ false → IsClear j y.db (doubt j b y.calls))
    → IsClear j (if c then x else y).db (doubt j b (if c then x else y).calls)
if-Clear j b true x y h k = h refl
if-Clear j b false x y h k = k refl

pub settled_by :
    (kind : OpKind) (i j : ℕ) (clean b : Bool)
    → (clean ≡ true) ⊎ (is_park_op kind ≡ true)
    → (i == j) ≡ true
    → kind ≡ OpKind.create
    → (if i == j then not clean else b) ≡ false
unfolding is_park_op
settled_by kind i j clean b (inl c) same k = ground arith
settled_by kind i j clean b (inr p) same k = ground arith

pub polled :
    (t : OpState)
    → Edge OpState.external_accepted t
    → Only OpState.journaled ⊥ OpState.external_accepted t
polled t Edge.finished q = ground arith
polled t Edge.reported_failed q = ground arith
polled t Edge.vanished q = ground arith
polled t Edge.rescheduled_accepted q = ground arith

pub verifies :
    {P : Type 0} (t : OpState)
    → Edge OpState.verifying t
    → t ≢ OpState.journaled
    → Only OpState.journaled P OpState.verifying t
verifies t e ne q = absurd (ne q)

pub lowered : (c b : Bool) → b ≡ false → (if c then false else b) ≡ false
lowered true b h = refl
lowered false b h = h

pub absent_settles :
    (kind : OpKind) (i j : ℕ) (found b : Bool)
    → (is_park_op kind ≡ true) ⊎ (is_delete kind ≡ true) ⊎ (found ≡ true)
    → (i == j) ≡ true
    → kind ≡ OpKind.create
    → (if i == j && found then false else b) ≡ false
unfolding is_park_op
absent_settles kind i j found b (inl p) same k = ground arith
absent_settles kind i j found b (inr (inl d)) same k = ground arith
absent_settles kind i j found b (inr (inr f)) same k = ground arith

pub not_create :
    (kind : OpKind) (b : Bool)
    → (is_park_op kind ≡ true) ⊎ (is_delete kind ≡ true)
    → kind ≡ OpKind.create
    → b ≡ false
unfolding is_park_op
not_create kind b (inl p) k = ground arith
not_create kind b (inr d) k = ground arith

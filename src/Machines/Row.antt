-- ===== src/Machines/Row.antt =====
-- What the transactions on machines (internal/provision, internal/storage/sqlite) leave of one row of
-- the resource table and of the leases.
use fleetplane.Prelude.{
  ℕ, ◌≡◌, inl, inr, refl, ap, ◌∙◌, Bool, true, false, Option, none, some, List, ◌∷◌, ◌==◌,
  if◌then◌else◌, arith, Bool-cases, Option-cases,
}
use fleetplane.Prelude.Outcome.{
  Outcome, Error, ok, guard, OnOk, OnOk-bind, OnOk-of, OnOk-ok, ◌>>=◌, ◌>>◌,
}
use fleetplane.Phase.{Phase}
use fleetplane.Provider.{ActionKind}
use fleetplane.Store.{Db, Resource, Lease, Operation, OpKind, EventType}
use fleetplane.Store.Rows.{get_row, put_row, get_row-put_row, get_row-key, map_row}
use fleetplane.Store.Resources
use fleetplane.Store.Resources.{res_id, enter_phase}
use fleetplane.Store.Resources.Phases.{cas_phase-inv}
use fleetplane.Store.Operations
use fleetplane.Store.Events
use fleetplane.Machines.{journal_op, journal_phase_op, journaled_op, action_of, ref_for}
use fleetplane.Scheduler.Steps.{num_eq}

append-tables :
    (o : Operation) (db : Db)
    → OnOk (λ d. (d.resources ≡ db.resources) × (d.leases ≡ db.leases)) (Operations.append o db)
unfolding Operations.append
append-tables o db = ground arith

insert-inv :
    (r : Resource) (db : Db) {d : Db}
    → Resources.insert r db ≡ ok d
    → (d ≡ record db { resources = r ∷ db.resources }) × (get_row res_id r.id db.resources ≡ none)
unfolding Resources.insert
insert-inv r db h = (ground arith, ground arith)

-- The machine `j`, of whose row `V` holds, when the leases are `ls`.
module _ (j : ℕ) (ls : List Lease) (V : Resource → Type 0) where
  abbrev pub OnRow : Db → Type 0
  OnRow d = (d.leases ≡ ls) × ((r : Resource) × (get_row res_id j d.resources ≡ some r) × V r)

  pub same-OnRow :
      (d d' : Db)
      → d'.leases ≡ d.leases
      → get_row res_id j d'.resources ≡ get_row res_id j d.resources
      → OnRow d
      → OnRow d'
  same-OnRow d d' l g (k, (r, h, v)) = (l ∙ k, (r, g ∙ h, v))

  -- An UPDATE of a row, which is that of the machine only if `V` survives it.
  pub put-OnRow :
      (id : ℕ) (f : Resource → Resource) (d d' : Db)
      → ((x : Resource) → res_id (f x) ≡ res_id x)
      → ((r : Resource) → (id == j) ≡ true → get_row res_id id d.resources ≡ some r → V r → V (f r))
      → d' ≡ record d { resources = put_row res_id id f d.resources }
      → OnRow d
      → OnRow d'
  put-OnRow id f d d' key keeps same (k, (r, g, v)) =
      let row : get_row res_id j d'.resources ≡ (
          if id == j
          then map_row f (get_row res_id j d.resources)
          else get_row res_id j d.resources) =
        ap (λ e. get_row res_id j e.resources) same
        ∙ get_row-put_row res_id id j f d.resources key in
      let leases : d'.leases ≡ ls = ap (λ e. e.leases) same ∙ k in
      elim (Bool-cases (id == j)) [
        | inr n ↦ (leases, (r, row ∙ ground (arith, n, g), v))
        | inl y ↦
            let mine = ap (λ i. get_row res_id i d.resources) (num_eq y) ∙ g in
            (leases, (f r, row ∙ ground (arith, y, g), keeps r y mine v))
      ]

  -- A change of phase on which `V` survives.
  abbrev pub Enters : ℕ → Phase → Phase → ℕ → Type 0
  Enters id from to at =
      (r : Resource) → (id == j) ≡ true → r.phase ≡ from → V r → V (enter_phase from to at r)

  pub cas-OnRow :
      (id : ℕ) (from to : Phase) (at : ℕ) (d : Db)
      → Enters id from to at
      → OnRow d
      → OnOk OnRow (Resources.cas_phase id from to at d)
  unfolding enter_phase
  cas-OnRow id from to at d keeps h = OnOk-of OnRow (Resources.cas_phase id from to at d) (λ d' k.
      let (x, gx, px, _, same) = cas_phase-inv id from to at d k in
      put-OnRow id (enter_phase from to at) d d' (λ _. refl)
        (λ r y g v. keeps r y (ground (arith, g, gx, px)) v) same h)

  pub append-OnRow : (o : Operation) (d : Db) → OnRow d → OnOk OnRow (Operations.append o d)
  append-OnRow o d h = OnOk-of OnRow (Operations.append o d) (λ d' k.
      let (rs, l) =
        OnOk-ok (λ e. (e.resources ≡ d.resources) × (e.leases ≡ d.leases)) (Operations.append o d)
          d' k (append-tables o d) in
      same-OnRow d d' l (ap (get_row res_id j) rs) h)

  -- An operation and an event leave machines and leases alone.
  pub journal_op-OnRow :
      (op : ℕ) (kind : OpKind) (action : ActionKind) (destructive : Bool) (event : EventType)
      (r : Resource) (ext now : ℕ) (from to : Phase) (d : Db)
      → Enters r.id from to now
      → OnRow d
      → OnOk OnRow (journal_op op kind action destructive event r ext now from to d)
  unfolding journal_op Events.append
  journal_op-OnRow op kind action destructive event r ext now from to d keeps h =
      let o : Operation =
        journaled_op op kind r (action_of op action r.id (ref_for r ext) destructive) now in
      OnOk-bind OnRow OnRow (Resources.cas_phase r.id from to now d) _
        (cas-OnRow r.id from to now d keeps h)
        (λ d1 _ h1.
          OnOk-bind OnRow OnRow (Operations.append o d1) _ (append-OnRow o d1 h1) (λ d2 _ h2.
            same-OnRow d2 (Events.append now event (some r.id) (some op) d2) refl refl h2))

  pub phase_op-OnRow :
      (op : ℕ) (kind : OpKind) (action : ActionKind) (event : EventType) (r : Resource)
      (ext : Option ℕ) (now : ℕ) (from to : Phase) (d : Db)
      → Enters r.id from to now
      → OnRow d
      → OnOk OnRow (journal_phase_op op kind action event r ext now from to d)
  unfolding journal_phase_op
  phase_op-OnRow op kind action event r none now from to d keeps h = tt
  phase_op-OnRow op kind action event r (some x) now from to d keeps h =
      journal_op-OnRow op kind action false event r x now from to d keeps h

  pub guarded :
      (b : Bool) (e : Error) (m : Outcome Db)
      → (b ≡ true → OnOk OnRow m)
      → OnOk OnRow (guard b e >> m)
  guarded true e m h = h refl
  guarded false e m h = tt

  -- The row that a transaction reads.
  pub reading :
      (id : ℕ) (d : Db) (f : Resource → Outcome Db)
      → ((r : Resource) → get_row res_id id d.resources ≡ some r → r.id ≡ id → OnOk OnRow (f r))
      → OnOk OnRow (Resources.get id d >>= f)
  unfolding Resources.get
  reading id d f h = elim (Option-cases (get_row res_id id d.resources)) [
    | inl n ↦ rw n tt
    | inr (r, y) ↦ rw y (h r y (get_row-key res_id id d.resources r y))
  ]

  -- A new machine has another id: its own is free.
  pub insert-OnRow : (r : Resource) (d : Db) → OnRow d → OnOk OnRow (Resources.insert r d)
  insert-OnRow r d h = OnOk-of OnRow (Resources.insert r d) (λ d' k.
      let (same, fresh) = insert-inv r d k in
      same-OnRow d d' (ap (λ e. e.leases) same)
        (ap (λ e. get_row res_id j e.resources) same
          ∙ ground (arith, fresh_id r d h.1.0 fresh h.1.1))
        h)
    where
      fresh_id :
          (r : Resource) (d : Db) (x : Resource)
          → get_row res_id r.id d.resources ≡ none
          → get_row res_id j d.resources ≡ some x
          → (r.id == j) ≡ false
      fresh_id r d x f g = elim (Bool-cases (r.id == j)) [
        | inr n ↦ n
        | inl y ↦ absurd (
            let e : get_row res_id r.id d.resources ≡ get_row res_id j d.resources =
              ap (λ i. get_row res_id i d.resources) (num_eq y) in
            cc)
      ]

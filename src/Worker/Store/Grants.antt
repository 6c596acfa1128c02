-- ===== src/Worker/Store/Grants.antt =====
-- What holds where a worker is handed a lease.
use prometheist.Base.{
  ℕ, ◌≤◌, ◌≡◌, refl, true, Option, none, some, List, [], ◌∷◌, String, ltb, contains, ◌==◌, ℕ_eq,
  String_eq, arith, Bool-cases, inl, inr, Option-cases, All, false, ◌&&◌,
}
use prometheist.Attention.Resources.{ResourceReservation}
use prometheist.Attention.Observation.{
  ResourceSafetyPolicy, ObservedResourceCapacity, ResourceObservationSnapshot,
  available_for_new_work, is_some,
}
use prometheist.Worker.Protocol.{WorkerStep, WorkerClaim, WorkerResult}
use prometheist.Worker.Store.Tables.{SchedulerRow, EpochRow, Store, find_row, is_live}
use prometheist.Worker.Store.Register.{find_task_row}
use prometheist.Worker.Store.Denials.{
  is_revision, find_capacity, capacity_denial, resource_claim_denial, binding_denial, epoch_denial,
  observation_denial, or_else, claim_denial, structural_claim_denial,
}

-- The pool of a reservation is observed to have room for it.
abbrev pub HasRoom : ResourceObservationSnapshot → ResourceReservation → Type 0
HasRoom snapshot r =
    (c : ObservedResourceCapacity) × (find_capacity snapshot.capacities r.resource_id ≡ some c)
    × (r.units ≤ available_for_new_work c)

capacity_denial-HasRoom :
    (snapshot : ResourceObservationSnapshot) (rs : List ResourceReservation)
    → capacity_denial snapshot rs ≡ none
    → All (HasRoom snapshot) rs
unfolding capacity_denial
capacity_denial-HasRoom snapshot [] h = tt
capacity_denial-HasRoom snapshot (r ∷ rest) h =
    elim (Option-cases (find_capacity snapshot.capacities r.resource_id)) [
      | inl e ↦ absurd (cc (rw (capacity_denial, e) at h))
      | inr (c, e) ↦
          let checked = rw (capacity_denial, e) at h in
          elim (Bool-cases (ltb (available_for_new_work c) r.units)) [
            | inl short ↦ absurd (cc (rw short at checked))
            | inr enough ↦ (
              (c, e, ground (arith, enough)),
              capacity_denial-HasRoom snapshot rest (rw enough at checked),
            )
          ]
    ]

pub resource_claim_denial-none :
    (snapshot : ResourceObservationSnapshot) (rs : List ResourceReservation)
    → resource_claim_denial snapshot rs ≡ none
    → (snapshot.healthy ≡ true) × All (HasRoom snapshot) rs
unfolding resource_claim_denial
resource_claim_denial-none snapshot rs h = elim (Bool-cases snapshot.healthy) [
  | inl e ↦ (e, capacity_denial-HasRoom snapshot rs (rw e at h))
  | inr e ↦ absurd (cc (rw e at h))
]

-- The step's assignment stands in the current epoch, and its task has not moved on.
abbrev pub IsCurrent : String → SchedulerRow → WorkerStep → Store → Type 0
IsCurrent key state step s =
    (epoch_id : ℕ) × (epoch : EpochRow) × (state.current_epoch_id ≡ some epoch_id)
    × (find_row key (λ e. e.epoch_id == epoch_id) s.scheduler.epochs ≡ some epoch)
    × (contains epoch.assignment_ids step.assignment_id ≡ true)
    × (is_revision step.task_revision (find_task_row s.scheduler.tasks step.task_id) ≡ true)

binding_denial-none :
    (epoch : EpochRow) (step : WorkerStep) (o : ResourceObservationSnapshot) (s : Store)
    → binding_denial epoch step o s ≡ none
    → (contains epoch.assignment_ids step.assignment_id ≡ true)
      × (is_revision step.task_revision (find_task_row s.scheduler.tasks step.task_id) ≡ true)
unfolding binding_denial
binding_denial-none epoch step o s h = ground arith

epoch_denial-none :
    (key : String) (state : SchedulerRow) (epoch_id : Option ℕ) (step : WorkerStep)
    (o : ResourceObservationSnapshot) (s : Store)
    → state.current_epoch_id ≡ epoch_id
    → epoch_denial key epoch_id step o s ≡ none
    → IsCurrent key state step s
unfolding epoch_denial
epoch_denial-none key state none step o s e h = absurd (cc h)
epoch_denial-none key state (some k) step o s e h =
    elim (Option-cases (find_row key (λ w. w.epoch_id == k) s.scheduler.epochs)) [
      | inl missing ↦ absurd (cc (rw (epoch_denial, missing) at h))
      | inr (epoch, there) ↦
          let (current, fresh) =
            binding_denial-none epoch step o s (rw (epoch_denial, there) at h) in
          (k, epoch, e, there, current, fresh)
    ]

pub observation_denial-none :
    (key : String) (state : SchedulerRow) (step : WorkerStep)
    (expected : Option ResourceSafetyPolicy) (committed : Option ResourceObservationSnapshot)
    (s : Store)
    → observation_denial key state step expected committed s ≡ none
    → IsCurrent key state step s
unfolding observation_denial
observation_denial-none key state step expected none s h = absurd (cc h)
observation_denial-none key state step expected (some o) s h =
    epoch_denial-none key state state.current_epoch_id step o s refl (ground arith)

or_else_first : (first later : Option String) → or_else first later ≡ none → first ≡ none
or_else_first none later h = refl
or_else_first (some reason) later h = absurd (cc h)

not_some : {A : Type 0} (o : Option A) → is_some o ≡ false → o ≡ none
not_some none h = refl
not_some (some a) h = absurd (cc h)

pub structural_claim_denial-none :
    (key : String) (state : SchedulerRow) (step : WorkerStep) (latest : Option WorkerClaim)
    (existing : Option WorkerResult) (at : ℕ) (policy : ResourceSafetyPolicy)
    (expected : Option ResourceSafetyPolicy) (committed : Option ResourceObservationSnapshot)
    (s : Store)
    → structural_claim_denial key state step latest existing at policy expected committed s ≡ none
    → (state.resource_safety_required ≡ true)
      × (observation_denial key state step expected committed s ≡ none)
unfolding structural_claim_denial
structural_claim_denial-none key state step latest existing at policy expected committed s h =
    ground (
      arith,
      h,
      or_else_first (observation_denial key state step expected committed s)
          (claim_denial key step latest existing at s),
    )

pub claim_denial-none :
    (key : String) (step : WorkerStep) (latest : Option WorkerClaim)
    (existing : Option WorkerResult) (at : ℕ) (s : Store)
    → claim_denial key step latest existing at s ≡ none
    → (existing ≡ none)
      × (find_row key (λ c. c.assignment_id == step.assignment_id && is_live at c) s.claims ≡ none)
unfolding claim_denial
claim_denial-none key step latest existing at s h = ground (
  arith,
  h,
  not_some existing,
  not_some (find_row key (λ c. c.assignment_id == step.assignment_id && is_live at c) s.claims),
)

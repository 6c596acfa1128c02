-- ===== src/Worker/Store/Tables.antt =====
-- worker_store.py: the tables that the statements read and write (schema.sql), and the statements
-- by what they do to the rows.
use prometheist.Base.{
  ℕ, ◌+◌, Bool, true, false, ◌&&◌, ◌||◌, Option, none, some, List, [], ◌∷◌, ◌++◌, String,
  if◌then◌else◌, ltb, any, ◌==◌, ℕ_eq, String_eq,
}
use prometheist.Attention.Resources.{ExecutionResource, ResourceReservation}
use prometheist.Attention.Observation.{ResourceObservationSnapshot}
use prometheist.Attention.Assignments.{DurableAssignment}
use prometheist.Worker.Protocol.{
  WorkerStep, WorkerClaim, active, checkpointed, abandoned, released, WorkerCheckpoint,
  WorkerResult, WorkerClaimResourceObservation,
}

-- The columns of attention_scheduler_state, attention_scheduling_epochs and attention_tasks that
-- are read.
pub record SchedulerRow : Type 0 where
  pub cycle : ℕ
  pub current_epoch_id : Option ℕ
  pub resource_safety_required : Bool
  pub resource_safety_policy_version : Option String
  pub current_resource_observation_id : Option ℕ

pub record EpochRow : Type 0 where
  pub epoch_id : ℕ
  pub assignment_ids : List ℕ
  pub resource_observation_id : Option ℕ
  pub resource_safety_policy_version : Option String

pub record TaskRow : Type 0 where
  pub task_id : ℕ
  pub revision : ℕ
  pub required_capabilities : List String

-- A row of a table that has the column scheduler_key.
abbrev pub Rows : Type 0 → Type 0
Rows Value = List (String × Value)

-- The tables that the scheduler writes.
pub record SchedulerTables : Type 0 where
  pub scheduler_state : Rows SchedulerRow
  pub epochs : Rows EpochRow
  pub assignments : Rows DurableAssignment
  pub tasks : List TaskRow
  pub reservations : Rows ResourceReservation
  pub resources : List ExecutionResource
  pub resource_observations : Rows ResourceObservationSnapshot

pub record Store : Type 0 where
  pub scheduler : SchedulerTables
  pub steps : Rows WorkerStep
  pub observations : Rows WorkerClaimResourceObservation
  pub claims : Rows WorkerClaim
  pub checkpoints : Rows WorkerCheckpoint
  pub results : Rows WorkerResult

module _ {Value : Type 0} (key : String) (test : Value → Bool) where
  -- WHERE scheduler_key = %s AND test
  abbrev pub is_row : String × Value → Bool
  is_row (k, v) = k == key && test v

  -- SELECT ... WHERE ..., and fetchone
  unfoldable pub find_row : Rows Value → Option Value
  find_row [] = none
  find_row (row ∷ rows) = let rest = find_row rows in if is_row row then some row.1 else rest

  -- SELECT ... WHERE ..., and fetchall
  unfoldable pub find_rows : Rows Value → List Value
  find_rows [] = []
  find_rows (row ∷ rows) = let rest = find_rows rows in if is_row row then row.1 ∷ rest else rest

  -- UPDATE ... SET ... WHERE ...
  unfoldable pub update_rows : (Value → Value) → Rows Value → Rows Value
  update_rows change [] = []
  update_rows change (row ∷ rows) =
      let rest = update_rows change rows in
      (if is_row row then (row.0, change row.1) else row) ∷ rest

  -- The rowcount of that statement.
  unfoldable pub count_rows : Rows Value → ℕ
  count_rows [] = 0
  count_rows (row ∷ rows) = let rest = count_rows rows in if is_row row then 1 + rest else rest

-- INSERT ... ON CONFLICT DO NOTHING, where `conflicts` are the unique constraints of the table.
unfoldable pub insert_row :
    {Value : Type 0}
    → (String × Value → String × Value → Bool)
    → String × Value
    → Rows Value
    → Rows Value
insert_row conflicts row rows = if any (conflicts row) rows then rows else rows ++ row ∷ []

-- ORDER BY ... DESC LIMIT 1, on a column that the constraints keep distinct.
unfoldable pub latest_by : {Value : Type 0} → (Value → ℕ) → List Value → Option Value
latest_by column [] = none
latest_by column (v ∷ vs) = elim (latest_by column vs) [
  | none ↦ some v
  | some w ↦ if ltb (column w) (column v) then some v else some w
]

-- coalesce(max(...), 0)
unfoldable pub max_of : {Value : Type 0} → (Value → ℕ) → List Value → ℕ
max_of column [] = 0
max_of column (v ∷ vs) =
    let rest = max_of column vs in if ltb rest (column v) then column v else rest

abbrev pub is_active : WorkerClaim → Bool
is_active c = elim c.status [ active ↦ true | _ ↦ false ]

abbrev pub is_checkpointed : WorkerClaim → Bool
is_checkpointed c = elim c.status [ checkpointed ↦ true | _ ↦ false ]

abbrev pub is_abandoned : WorkerClaim → Bool
is_abandoned c = elim c.status [ abandoned ↦ true | _ ↦ false ]

abbrev pub is_released : WorkerClaim → Bool
is_released c = elim c.status [ released ↦ true | _ ↦ false ]

-- status = 'ACTIVE' AND lease_expires_at > %s
abbrev pub is_live : ℕ → WorkerClaim → Bool
is_live at c = is_active c && ltb at c.lease_expires_at

-- PRIMARY KEY (scheduler_key, claim_id), UNIQUE (scheduler_key, step_id, attempt), and the two
-- unique indexes on active claims.
abbrev pub claims_conflict : String × WorkerClaim → String × WorkerClaim → Bool
claims_conflict (k, c) (j, d) =
    k == j
    && (c.claim_id == d.claim_id
        || c.step_id == d.step_id && c.attempt == d.attempt
        || is_active c
          && is_active d
          && (c.step_id == d.step_id || c.assignment_id == d.assignment_id))

-- The unique constraints of attention_worker_steps.
abbrev pub steps_conflict : String × WorkerStep → String × WorkerStep → Bool
steps_conflict (k, s) (j, t) =
    k == j
      && (s.step_id == t.step_id || s.assignment_id == t.assignment_id && s.step_key == t.step_key)
    || s.idempotency_key == t.idempotency_key

-- The unique constraints of attention_worker_claim_observations.
abbrev pub observations_conflict :
    String × WorkerClaimResourceObservation → String × WorkerClaimResourceObservation → Bool
observations_conflict (k, o) (j, n) = k == j && o.observation_id == n.observation_id

-- The unique constraints of attention_worker_checkpoints.
abbrev pub checkpoints_conflict : String × WorkerCheckpoint → String × WorkerCheckpoint → Bool
checkpoints_conflict (k, c) (j, d) =
    k == j
    && (c.checkpoint_id == d.checkpoint_id || c.step_id == d.step_id && c.revision == d.revision)

-- The unique constraints of attention_worker_results.
abbrev pub results_conflict : String × WorkerResult → String × WorkerResult → Bool
results_conflict (k, r) (j, s) =
    k == j && (r.result_id == s.result_id || r.step_id == s.step_id)
    || r.idempotency_key == s.idempotency_key

-- ===== src/Worker/Store/Samples.antt =====
-- One step, its claims, and a scheduler that admits it.
use Prim.Native.Char.{code}
use prometheist.Base.{ℕ, ◌+◌, ◌*◌, true, none, some, [], ◌∷◌, String}
use prometheist.Attention.Resources.{Uuid, cpu_general, ExecutionResource, ResourceReservation}
use prometheist.Attention.Observation.{
  ResourceSafetyPolicy, HostResourceMetrics, ResourceObservationSnapshot,
  deterministic_resource_observation_id,
}
use prometheist.Worker.Protocol.{
  WorkerEffectPolicy, no_external_effect, WorkerStep, WorkerClaim, active,
  WorkerClaimResourceObservation, worker_protocol_version, step_uuid, claim_uuid,
  deterministic_worker_idempotency_key,
}
use prometheist.Worker.Store.Tables.{SchedulerTables, Store}
use prometheist.Worker.Store.Leases.{seconds}
use prometheist.Worker.Store.Claiming.{ClaimCall, captured}

unfoldable pub code_sum : String → ℕ
code_sum String.[] = 0
code_sum (String.◌∷◌ c s) = code c + code_sum s

instance abbrev pub toy_uuid : Uuid
toy_uuid = record { uuid5 = λ n name. 100000 * (n + 1) + code_sum name; text = λ n. "u" }

abbrev pub step_of : WorkerEffectPolicy → WorkerStep
step_of policy = record {
  protocol_version = worker_protocol_version;
  step_id = step_uuid 5 "answer";
  assignment_id = 5;
  task_id = 7;
  task_revision = 2;
  created_epoch_sequence = 1;
  step_key = "answer";
  capability = "respond";
  reservation_ids = [];
  input_refs = [];
  idempotency_key = deterministic_worker_idempotency_key (step_uuid 5 "answer");
  effect_policy = policy;
}

abbrev pub first_claim : WorkerEffectPolicy → WorkerClaim
first_claim policy = record {
  claim_id = claim_uuid (step_of policy).step_id 1;
  step_id = (step_of policy).step_id;
  assignment_id = 5;
  task_id = 7;
  worker_id = "w1";
  attempt = 1;
  checkpoint_revision = 0;
  observation_id = 3;
  claimed_at = 10;
  lease_expires_at = 10 + seconds 30;
  last_heartbeat_at = 10;
  status = active;
}

abbrev no_tables : SchedulerTables
no_tables = record {
  scheduler_state = [];
  epochs = [];
  assignments = [];
  tasks = [];
  reservations = [];
  resources = [];
  resource_observations = [];
}

abbrev pub leased : WorkerEffectPolicy → Store
leased policy = record {
  scheduler = no_tables;
  steps = ("main", step_of policy) ∷ [];
  observations = [];
  claims = ("main", first_claim policy) ∷ [];
  checkpoints = [];
  results = [];
}

abbrev pub id1 : ℕ
id1 = claim_uuid (step_uuid 5 "answer") 1

abbrev pub policy : ResourceSafetyPolicy
policy = record {
  policy_version = "p1";
  observation_max_age_seconds = 5;
  cpu_system_headroom_percent = 10;
  max_cpu_pressure_percent = 85;
  memory_system_headroom_percent = 10;
  memory_system_headroom_min_mib = 1024;
  uncertainty_headroom_percent = 20;
  llm_concurrency_limit = 1;
  default_process_cpu_units = 1;
  default_process_memory_mib = 512;
  default_llm_process_memory_mib = 4096;
}

abbrev pub laptop : HostResourceMetrics
laptop = record {
  platform = "Linux";
  logical_cpu_count = 8;
  cpu_utilization_percent = 12;
  load_1m = none;
  memory_total_mib = 16000;
  memory_available_mib = 8000;
}

abbrev pub snapshot_json : ResourceObservationSnapshot → String
snapshot_json o = o.host_id

abbrev pub claim_json : WorkerClaimResourceObservation → String
claim_json o = o.reason

-- The observation that the scheduler committed.
abbrev pub unnamed : ResourceObservationSnapshot
unnamed = record {
  observation_id = 0;
  scheduler_cycle = 4;
  captured_at = 1;
  valid_until = 5000001;
  safety_policy_version = "p1";
  policy = policy;
  host_id = "local";
  healthy = true;
  probe_errors = [];
  metrics = some laptop;
  capacities = [];
}

abbrev committed_id : ℕ
committed_id = deterministic_resource_observation_id snapshot_json unnamed

abbrev tables : SchedulerTables
tables = record {
  scheduler_state =
      (
        "main",
        record {
          cycle = 4;
          current_epoch_id = some 8;
          resource_safety_required = true;
          resource_safety_policy_version = some "p1";
          current_resource_observation_id = some committed_id;
        },
      )
      ∷ [];
  epochs =
      (
        "main",
        record {
          epoch_id = 8;
          assignment_ids = 5 ∷ [];
          resource_observation_id = some committed_id;
          resource_safety_policy_version = some "p1";
        },
      )
      ∷ [];
  assignments = [];
  tasks = record { task_id = 7; revision = 2; required_capabilities = "respond" ∷ [] } ∷ [];
  reservations = [];
  resources = [];
  resource_observations = ("main", record unnamed { observation_id = committed_id }) ∷ [];
}

abbrev pub waiting : WorkerEffectPolicy → Store
waiting effect_policy = record (leased effect_policy) { scheduler = tables; claims = [] }

-- Half of the processor is reserved for the task.
abbrev half : ResourceReservation
half = record {
  reservation_id = 21;
  task_id = 7;
  resource_id = "host-cpu";
  resource_class = cpu_general;
  units = 4;
}

abbrev processor : ExecutionResource
processor = record {
  resource_id = "host-cpu";
  resource_class = cpu_general;
  capacity = 8;
  system_headroom = 1;
  enabled = true;
}

abbrev pub reserving : WorkerStep
reserving = record (step_of no_external_effect) { reservation_ids = 21 ∷ [] }

abbrev pub reserved : Store
reserved = record (waiting no_external_effect) {
  scheduler = record tables { reservations = ("main", half) ∷ []; resources = processor ∷ [] };
  steps = ("main", reserving) ∷ [];
}

abbrev pub claim_call : ℕ → ClaimCall
claim_call at = record {
  step_id = step_uuid 5 "answer";
  worker_id = " w1 ";
  probe = captured laptop;
  policy = none;
  captured_at = at;
  evaluated_at = at + 7;
  lease_seconds = 30;
}

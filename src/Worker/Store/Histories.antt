-- ===== src/Worker/Store/Histories.antt =====
-- Calls on the samples, and what they come to.
use prometheist.Base.{◌+◌, refl, none, some, List, [], ◌∷◌, String, strip}
use prometheist.Attention.Resources.{cpu_general}
use prometheist.Attention.Observation.{ResourceObservationSnapshot, host}
use prometheist.Worker.Protocol.{
  completed, deterministic_worker_result_id, WorkerEffectPolicy, no_external_effect, at_most_once,
  WorkerClaim, abandoned, WorkerResult, WorkerClaimAttempt, WorkerClaimEnvelope, granted,
  worker_claim_policy_version, step_uuid, deterministic_worker_idempotency_key,
}
use prometheist.Worker.Store.Tables.{Store, find_row, find_rows, latest_by}
use prometheist.Worker.Store.Leases.{seconds}
use prometheist.Worker.Store.Claiming.{Reading}
use prometheist.Worker.Store.Calls.{Call, claims_step, heartbeats, completes}
use prometheist.Worker.Store.Runs.{perform_all}
use prometheist.Worker.Store.AtMostOnce.{IsStuck}
use prometheist.Worker.Store.Samples.{
  code_sum, toy_uuid, step_of, first_claim, leased, id1, policy, snapshot_json, claim_json, unnamed,
  waiting, claim_call, reserving, reserved,
}

-- A grant, a heartbeat, and the completion of the step; then another attempt at it.
abbrev pub history : List (String × Call)
history =
    ("main", claims_step (claim_call 100))
    ∷ ("main", heartbeats id1 "w1" 60 200)
    ∷ ("main", completes id1 "w1" "{}" [] 400)
    ∷ ("main", claims_step (claim_call 500))
    ∷ []

abbrev pub after_history : WorkerEffectPolicy → Store
after_history effect_policy =
    perform_all snapshot_json claim_json policy history (waiting effect_policy)

-- The result of the step, as it stands after the history.
abbrev pub answer : WorkerResult
answer = record {
  result_id = 0;
  step_id = step_uuid 5 "answer";
  claim_id = id1;
  checkpoint_revision = 0;
  idempotency_key = "key";
  output = "{}";
  output_refs = [];
  completed_at = 400;
}

-- The worker of a step that may take effect once at most has vanished.
abbrev pub lost : WorkerClaim
lost = record (first_claim at_most_once) { status = abandoned }

abbrev pub stuck : Store
stuck = record (waiting at_most_once) { claims = ("main", lost) ∷ [] }

abbrev pub stuck-IsStuck : IsStuck "main" (step_uuid 5 "answer") lost (1 ∷ []) stuck
unfolding find_row find_rows latest_by code_sum strip
stuck-IsStuck = record {
  step = step_of at_most_once;
  registered = refl;
  once = refl;
  is_latest = refl;
  attempts = refl;
  gone = refl;
}

abbrev pub offered : WorkerClaimEnvelope
offered = record {
  step = step_of no_external_effect;
  claim = record (first_claim no_external_effect) {
    observation_id = 1834270093224845760408033327889652535604292;
    claimed_at = 107;
    lease_expires_at = 107 + seconds 30;
    last_heartbeat_at = 107;
  };
  checkpoint = none;
}

-- What the host is observed to have at the first claim.
abbrev pub seen : ResourceObservationSnapshot
seen = record unnamed {
  observation_id = 13387790592431235990221382128526392644101708;
  captured_at = 100;
  valid_until = 5000100;
  host_id = "worker-claim:main";
}

abbrev pub attempted : WorkerClaimAttempt
attempted = record {
  observation = record {
    observation_id = 1834270093224845760408033327889652535604292;
    step_id = step_uuid 5 "answer";
    assignment_id = 5;
    captured_at = 100;
    evaluated_at = 107;
    valid_until = 5000100;
    claim_policy_version = worker_claim_policy_version;
    resource_safety_policy_version = "p1";
    decision = granted;
    reason = "fresh resource gate admitted the worker step";
    active_claim_ids = [];
    target_reservation_ids = [];
    resource_snapshot = seen;
  };
  envelope = some offered;
}

-- The claim of a step that has half of the processor: all of what is offered of it.
abbrev pub seen_half : ResourceObservationSnapshot
seen_half = record seen {
  capacities =
      record {
        resource_id = "host-cpu";
        resource_class = cpu_general;
        measurement = host;
        configured_capacity = 8;
        configured_headroom_units = 1;
        committed_units = 0;
        observed_available_units = 7;
        uncertainty_headroom_units = 2;
        admission_capacity = 4;
      }
      ∷ [];
}

abbrev pub offered_half : WorkerClaimEnvelope
offered_half = record offered { step = reserving }

abbrev pub attempted_half : WorkerClaimAttempt
attempted_half = record {
  observation = record attempted.observation {
    target_reservation_ids = 21 ∷ [];
    resource_snapshot = seen_half;
  };
  envelope = some offered_half;
}

-- The same step with a lease on it that has run out when the next worker comes.
abbrev pub run_out : Store
run_out = record reserved { claims = ("main", first_claim no_external_effect) ∷ [] }

abbrev pub reading_half : Reading
reading_half = record {
  step = reserving;
  checkpoint = none;
  snapshot = record seen_half { captured_at = 40000000; valid_until = 45000000 };
  active_claim_ids = [];
  reason = none;
}

abbrev pub closed : Store
closed = record reserved {
  claims = ("main", record (first_claim no_external_effect) { status = abandoned }) ∷ [];
}

-- The step with an active claim on it, and what its completion comes to.
abbrev pub answered : WorkerResult
answered = record answer {
  result_id = deterministic_worker_result_id (step_uuid 5 "answer");
  idempotency_key = deterministic_worker_idempotency_key (step_uuid 5 "answer");
  output_refs = "artifact" ∷ [];
}

abbrev pub finished : Store
finished = record (leased at_most_once) {
  claims = ("main", record (first_claim at_most_once) { status = completed }) ∷ [];
  results = ("main", answered) ∷ [];
}

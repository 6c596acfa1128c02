-- ===== src/Worker/Launch/Tests.antt =====
-- A launch whose first probe fails, and a reservation of a pool that is not observed.
use prometheist.Base.{
  err, Error, runtime_error, ℕ, zero, suc, ◌≡◌, refl, none, List, [], ◌∷◌, String, Result, ok,
  no_duplicates, keep, sum_of, sorted_by, strip, decimal, any, is_subset, contains,
}
use prometheist.Attention.Resources.{ResourceReservation, llm_inference}
use prometheist.Attention.Observation.{is_some}
use prometheist.Worker.Protocol.{
  no_external_effect, denied, WorkerStep, WorkerClaimResourceObservation,
}
use prometheist.Worker.Store.Tables.{Store, find_rows}
use prometheist.Worker.Store.Load.{load_target_reservations}
use prometheist.Worker.Store.Denials.{resource_claim_denial}
use prometheist.Worker.Store.Claiming.{captured, failed}
use prometheist.Worker.Store.Samples.{
  code_sum, toy_uuid, policy, laptop, snapshot_json, claim_json, waiting, step_of,
}
use prometheist.Worker.Store.Histories.{offered, attempted}
use prometheist.Worker.Store.Runs.{perform_all}
use prometheist.Worker.Launch.Gate.{is_transient_resource_denial, is_transient_resource_denial-gate}
use prometheist.Worker.Launch.Retries.{claim, GuardedWorkerLauncher, ClaimRound, IsClaimed}
use prometheist.Worker.Launch.Failed.{GivesBack, launch-GivesBack}
use prometheist.Worker.Launch.Start.{
  LaunchedWorker, Environment, child_env, launch, launch-IsClaimed,
}

abbrev launcher : GuardedWorkerLauncher
launcher = record { policy = none; claim_retry_attempts = 4 }

-- The first probe fails, and the later ones do not.
abbrev rounds : ℕ → ClaimRound
rounds zero = record {
  probe = failed "no metrics";
  captured_at = 50;
  evaluated_at = 57;
  recorded = ok tt;
  before_test = [];
  meanwhile = [];
}
rounds (suc n) = record {
  probe = captured laptop;
  captured_at = 100;
  evaluated_at = 107;
  recorded = ok tt;
  before_test = [];
  meanwhile = [];
}

abbrev factory : List String → Environment → Result ℕ
factory command env = ok 77

abbrev worker : LaunchedWorker ℕ
worker = record { envelope = offered; process = 77 }

launch_test :
    (launch snapshot_json claim_json policy factory "main" launcher rounds offered.step.step_id "w1"
      ("worker" ∷ [])
      30
      []
      []
      (waiting no_external_effect)).0
    ≡ ok worker
unfolding launch code_sum strip no_duplicates any sorted_by is_subset sum_of keep decimal
launch_test = refl

launch-IsClaimed_example :
    IsClaimed snapshot_json claim_json policy "main" launcher rounds offered.step.step_id "w1" 30
      (waiting no_external_effect)
      offered
    × (factory ("worker" ∷ []) (child_env "main" offered []) ≡ ok 77)
launch-IsClaimed_example =
    launch-IsClaimed snapshot_json claim_json policy factory "main" launcher rounds
      offered.step.step_id "w1" ("worker" ∷ []) 30 [] [] (waiting no_external_effect) worker
      launch_test

abbrev held : ResourceReservation
held = record {
  reservation_id = 21;
  task_id = 7;
  resource_id = "gpu";
  resource_class = llm_inference;
  units = 1;
}

abbrev reserving : WorkerStep
reserving = record (step_of no_external_effect) { reservation_ids = 21 ∷ [] }

abbrev pressed : Store
pressed =
    let s = waiting no_external_effect in
    record s { scheduler = record s.scheduler { reservations = ("main", held) ∷ [] } }

abbrev refused : WorkerClaimResourceObservation
refused = record attempted.observation { decision = denied; target_reservation_ids = 21 ∷ [] }

is_transient_resource_denial-gate_example :
    is_transient_resource_denial "main" refused pressed
    ≡ is_some (resource_claim_denial refused.resource_snapshot (held ∷ []))
unfolding load_target_reservations find_rows sorted_by is_subset any contains
is_transient_resource_denial-gate_example =
    is_transient_resource_denial-gate "main" refused reserving pressed (held ∷ []) refl refl refl
      refl

abbrev missing : Error
missing = runtime_error "no such file"

abbrev no_factory : List String → Environment → Result ℕ
no_factory command env = err missing

abbrev claimed : Store
claimed =
    (claim snapshot_json claim_json policy "main" launcher rounds offered.step.step_id "w1" 30
      (waiting no_external_effect)).1

claim_test :
    claim snapshot_json claim_json policy "main" launcher rounds offered.step.step_id "w1" 30
      (waiting no_external_effect)
    ≡ (ok offered, claimed)
unfolding claim code_sum strip no_duplicates any sorted_by is_subset sum_of keep decimal
claim_test = refl

launch-GivesBack_example :
    GivesBack snapshot_json claim_json policy no_factory "main" launcher rounds offered.step.step_id
      "w1"
      ("worker" ∷ [])
      30
      []
      []
      offered
      missing
      claimed
      (launch snapshot_json claim_json policy no_factory "main" launcher rounds offered.step.step_id
        "w1"
        ("worker" ∷ [])
        30
        []
        []
        (waiting no_external_effect))
unfolding any claim perform_all
launch-GivesBack_example =
    launch-GivesBack snapshot_json claim_json policy no_factory "main" launcher rounds
      offered.step.step_id "w1" ("worker" ∷ []) 30 [] [] (waiting no_external_effect) claimed
      offered missing refl claim_test refl

-- ===== src/Worker/Launch/Start.antt =====
-- worker_runtime.py: GuardedWorkerLauncher.launch.
use prometheist.Base.{
  ℕ, ◌≡◌, ap, subst, not, ◌||◌, List, ◌∷◌, String, Error, Result, ok, err, value_error,
  worker_protocol_error, if◌then◌else◌, is_empty, any, keep, decimal, ◌==◌, String_eq, Bool-cases,
  inl, inr, ok-injective,
}
use prometheist.Attention.Resources.{Uuid}
use prometheist.Attention.Observation.{ResourceSafetyPolicy, ResourceObservationSnapshot}
use prometheist.Worker.Protocol.{WorkerClaim, WorkerClaimResourceObservation, WorkerClaimEnvelope}
use prometheist.Worker.Store.Tables.{Store}
use prometheist.Worker.Store.Leases.{release_worker_claim}
use prometheist.Worker.Store.Calls.{Call}
use prometheist.Worker.Store.Runs.{perform_all}
use prometheist.Worker.Launch.Retries.{
  GuardedWorkerLauncher, ClaimRound, claim, IsClaimed, claim-IsClaimed,
}

-- The handle of a process, as `process_factory` gave it, with its lease.
pub record LaunchedWorker (Process : Type 0) : Type 0 where
  pub envelope : WorkerClaimEnvelope
  pub process : Process

abbrev pub Environment : Type 0
Environment = List (String × String)

-- An entry of dict.update
abbrev put : String → String → Environment → Environment
put name value env = (name, value) ∷ keep (λ entry. not (entry.0 == name)) env

module _ ⦃u : Uuid⦄ where
  unfoldable pub child_env : String → WorkerClaimEnvelope → Environment → Environment
  unfolding keep decimal
  child_env key e env =
      put "PROMETHEIST_WORKER_CHECKPOINT_REVISION" (decimal e.claim.checkpoint_revision) (
        put "PROMETHEIST_WORKER_IDEMPOTENCY_KEY" e.step.idempotency_key (
          put "PROMETHEIST_WORKER_SCHEDULER_KEY" key (
            put "PROMETHEIST_WORKER_ASSIGNMENT_ID" (u.text e.step.assignment_id) (
              put "PROMETHEIST_WORKER_TASK_ID" (u.text e.step.task_id) (
                put "PROMETHEIST_WORKER_ID" e.claim.worker_id (
                  put "PROMETHEIST_WORKER_STEP_ID" (u.text e.step.step_id)
                    (put "PROMETHEIST_WORKER_CLAIM_ID" (u.text e.claim.claim_id) env)))))))

-- `env` is what `dict(os.environ if env is None else env)` came to, and `process_factory` what it
-- does with a command and an environment: a handle, or what it raised. `before_release` are the calls
-- that other workers make between a start that fails and the release.
module _ ⦃u : Uuid⦄ (observation_json : ResourceObservationSnapshot → String)
    (claim_json : WorkerClaimResourceObservation → String) (default_policy : ResourceSafetyPolicy)
    {Process : Type 0} (process_factory : List String → Environment → Result Process) (key : String)
    (l : GuardedWorkerLauncher) (rounds : ℕ → ClaimRound) (step_id : ℕ) (worker_id : String)
    (command : List String) (lease_seconds : ℕ) (env : Environment)
    (before_release : List (String × Call)) where
  -- The release of a lease whose process did not start: what was raised at the start is raised.
  abbrev pub after_release :
      Error → Result WorkerClaim × Store → Result (LaunchedWorker Process) × Store
  after_release e (ok c, t) = (err e, t)
  after_release e (err f, t) = (
    err (
        worker_protocol_error "worker process failed to start and its claim could not be released"),
    t,
  )

  abbrev pub tables_at_release : Store → Store
  tables_at_release s = perform_all observation_json claim_json default_policy before_release s

  abbrev pub start :
      WorkerClaimEnvelope → Store → Result Process → Result (LaunchedWorker Process) × Store
  start envelope s (ok process) = (ok (record { envelope = envelope; process = process }), s)
  start envelope s (err e) =
      after_release e
        (release_worker_claim key envelope.claim.claim_id worker_id (tables_at_release s))

  abbrev pub start_claimed :
      Result WorkerClaimEnvelope × Store → Result (LaunchedWorker Process) × Store
  start_claimed (err e, s) = (err e, s)
  start_claimed (ok envelope, s) =
      start envelope s (process_factory command (child_env key envelope env))

  -- GuardedWorkerLauncher.launch
  unfoldable pub launch : Store → Result (LaunchedWorker Process) × Store
  unfolding claim release_worker_claim child_env perform_all any
  launch s =
      if is_empty command || any (λ value. value == "") command
      then (err (value_error "worker command must contain nonempty arguments"), s)
      else start_claimed (
          claim observation_json claim_json default_policy key l rounds step_id worker_id
            lease_seconds s)

  not_started :
      (e : Error) (released_claim : Result WorkerClaim × Store) (w : LaunchedWorker Process)
      → (after_release e released_claim).0 ≡ ok w
      → ⊥
  not_started e (ok c, t) w h = cc h
  not_started e (err f, t) w h = cc h

  started :
      (envelope : WorkerClaimEnvelope) (s : Store) (process : Result Process)
      (w : LaunchedWorker Process)
      → (start envelope s process).0 ≡ ok w
      → (envelope ≡ w.envelope) × (process ≡ ok w.process)
  started envelope s (ok process) w h =
      let same = ok-injective h in
      (
        ap (λ (n : LaunchedWorker Process). n.envelope) same,
        ap (λ (n : LaunchedWorker Process). ok n.process) same,
      )
  started envelope s (err e) w h = absurd (
      not_started e
        (release_worker_claim key envelope.claim.claim_id worker_id (tables_at_release s)) w h)

  claimed_and_started :
      (claimed : Result WorkerClaimEnvelope × Store) (w : LaunchedWorker Process)
      → (start_claimed claimed).0 ≡ ok w
      → (claimed.0 ≡ ok w.envelope)
        × (process_factory command (child_env key w.envelope env) ≡ ok w.process)
  claimed_and_started (err e, s) w h = absurd (cc h)
  claimed_and_started (ok envelope, s) w h =
      let (same, made) =
        started envelope s (process_factory command (child_env key envelope env)) w h in
      (
        ap (λ (e : WorkerClaimEnvelope). ok e) same,
        subst (λ e. process_factory command (child_env key e env) ≡ ok w.process) same made,
      )

  -- A worker that `launch` returns has a lease that was handed out in one of the rounds that the
  -- launcher is allowed, and that was authorized on the tables of that round, whatever other
  -- workers did in between; its process is what the process factory made of the command and of the
  -- environment that names that lease.
  pub launch-IsClaimed :
      (s : Store) (w : LaunchedWorker Process)
      → (launch s).0 ≡ ok w
      → IsClaimed observation_json claim_json default_policy key l rounds step_id worker_id
          lease_seconds s w.envelope
        × (process_factory command (child_env key w.envelope env) ≡ ok w.process)
  unfolding launch
  launch-IsClaimed s w h =
      elim (Bool-cases (is_empty command || any (λ value. value == "") command)) [
        | inl refused ↦ absurd (cc (rw refused at h))
        | inr fine ↦
            let claimed =
              claim observation_json claim_json default_policy key l rounds step_id worker_id
                lease_seconds s in
            let (e, made) = claimed_and_started claimed w (rw fine at h) in
            (
              claim-IsClaimed observation_json claim_json default_policy key l rounds step_id
                  worker_id lease_seconds s w.envelope e,
              made,
            )
      ]

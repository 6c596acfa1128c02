-- ===== src/Worker/Launch/Failed.antt =====
-- A launch whose process does not start.
use prometheist.Base.{
  ◌≡◌, refl, false, ◌||◌, List, String, Error, Result, ok, err, worker_protocol_error, is_empty,
  any, ◌==◌, String_eq, ◌⊎◌, inl, inr, ℕ,
}
use prometheist.Attention.Resources.{Uuid}
use prometheist.Attention.Observation.{ResourceSafetyPolicy, ResourceObservationSnapshot}
use prometheist.Worker.Protocol.{WorkerClaim, WorkerClaimResourceObservation, WorkerClaimEnvelope}
use prometheist.Worker.Store.Tables.{Store}
use prometheist.Worker.Store.Leases.{release_worker_claim}
use prometheist.Worker.Store.Releases.{IsReleased, release_worker_claim-IsReleased}
use prometheist.Worker.Store.Raises.{release_raised}
use prometheist.Worker.Store.Calls.{Call}
use prometheist.Worker.Store.Runs.{perform_all}
use prometheist.Worker.Launch.Retries.{GuardedWorkerLauncher, ClaimRound, claim}
use prometheist.Worker.Launch.Start.{LaunchedWorker, Environment, child_env, after_release, launch}

module _ ⦃u : Uuid⦄ (observation_json : ResourceObservationSnapshot → String)
    (claim_json : WorkerClaimResourceObservation → String) (default_policy : ResourceSafetyPolicy)
    {Process : Type 0} (process_factory : List String → Environment → Result Process) (key : String)
    (l : GuardedWorkerLauncher) (rounds : ℕ → ClaimRound) (step_id : ℕ) (worker_id : String)
    (command : List String) (lease_seconds : ℕ) (env : Environment)
    (before_release : List (String × Call)) where
  -- The error of the start with the lease released, or the other error with nothing changed.
  abbrev pub GivesBack :
      WorkerClaimEnvelope → Error → Store → Result (LaunchedWorker Process) × Store → Type 0
  GivesBack envelope e t outcome =
      ((outcome.0 ≡ err e) × IsReleased key envelope.claim.claim_id outcome.1)
      ⊎ ((outcome.0
            ≡ err (
                worker_protocol_error
                  "worker process failed to start and its claim could not be released"))
          × (outcome.1 ≡ t))

  abbrev finish : Error → Result WorkerClaim × Store → Result (LaunchedWorker Process) × Store
  finish =
      after_release observation_json claim_json default_policy process_factory key l rounds step_id
        worker_id command lease_seconds env before_release

  finish-GivesBack :
      (envelope : WorkerClaimEnvelope) (e : Error) (t : Store)
      (outcome : Result WorkerClaim × Store)
      → ((c : WorkerClaim) → outcome.0 ≡ ok c → IsReleased key envelope.claim.claim_id outcome.1)
      → ((f : Error) → outcome.0 ≡ err f → outcome.1 ≡ t)
      → GivesBack envelope e t (finish e outcome)
  finish-GivesBack envelope e t (ok c, v) released kept = inl (refl, released c refl)
  finish-GivesBack envelope e t (err f, v) released kept = inr (refl, kept f refl)

  -- Where the command is not empty and has no empty argument, the claim gave a lease and the
  -- process factory raises, `launch` raises: either what the factory raised, and the lease is then
  -- RELEASED, or that the claim could not be released, and the tables are as the claim and the
  -- calls of other workers since then left them.
  pub launch-GivesBack :
      (s t : Store) (envelope : WorkerClaimEnvelope) (e : Error)
      → (is_empty command || any (λ value. value == "") command) ≡ false
      → claim observation_json claim_json default_policy key l rounds step_id worker_id
          lease_seconds s
        ≡ (ok envelope, t)
      → process_factory command (child_env key envelope env) ≡ err e
      → GivesBack envelope e
          (perform_all observation_json claim_json default_policy before_release t)
          (launch observation_json claim_json default_policy process_factory key l rounds step_id
            worker_id command lease_seconds env before_release s)
  unfolding launch
  launch-GivesBack s t envelope e sound claimed fails =
      let m = perform_all observation_json claim_json default_policy before_release t in
      rw (sound, claimed, fails)
        (finish-GivesBack envelope e m
          (release_worker_claim key envelope.claim.claim_id worker_id m)
          (release_worker_claim-IsReleased key envelope.claim.claim_id worker_id m)
          (release_raised observation_json claim_json default_policy key envelope.claim.claim_id
            worker_id m))

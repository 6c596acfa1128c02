-- ===== src/Worker/Store/Authorized.antt =====
-- What a lease rests on where it is handed out.
use prometheist.Base.{
  ◌+◌, ◌≤◌, ◌≡◌, ap, ◌∙◌, true, ◌&&◌, Option, none, List, String, ok, ◌==◌, ℕ_eq, String_eq, All,
}
use prometheist.Attention.Resources.{Uuid, ResourceReservation}
use prometheist.Attention.Observation.{ResourceObservationSnapshot}
use prometheist.Worker.Protocol.{WorkerClaim, WorkerResult, WorkerClaimEnvelope}
use prometheist.Worker.Store.Tables.{SchedulerRow, Store, find_row, is_live}
use prometheist.Worker.Store.Load.{
  lock_scheduler_state, load_step, load_result_row, load_target_reservations,
}
use prometheist.Worker.Store.Leases.{seconds}
use prometheist.Worker.Store.Claiming.{ClaimCall, Reading, expire_claims}
use prometheist.Worker.Store.Admitted.{Admitted, claims_admit}
use prometheist.Worker.Store.Grants.{
  structural_claim_denial-none, claim_denial-none, HasRoom, resource_claim_denial-none, IsCurrent,
  observation_denial-none,
}

-- The tables whose expired claims are closed.
abbrev pub swept : ClaimCall → Store → Store
swept call s = record s { claims = expire_claims call.captured_at s.claims }

-- What a lease for a step rests on.
pub record Authorized ⦃u : Uuid⦄ (key : String) (call : ClaimCall) (m : Store)
    (snapshot : ResourceObservationSnapshot) (e : WorkerClaimEnvelope) : Type 0 where
  pub state : SchedulerRow
  pub locked : lock_scheduler_state key m ≡ ok state
  pub guarded_host : state.resource_safety_required ≡ true
  pub current : IsCurrent key state e.step m
  pub registered : load_step key call.step_id m ≡ ok e.step
  pub unresolved : load_result_row key e.step.step_id m ≡ ok none
  pub unclaimed :
      find_row key
        (λ c. c.assignment_id == e.step.assignment_id && is_live call.captured_at c)
        m.claims
      ≡ none
  pub target : List ResourceReservation
  pub reserved : load_target_reservations key e.step m ≡ ok target
  pub healthy : snapshot.healthy ≡ true
  pub room : All (HasRoom snapshot) target
  pub not_early : snapshot.captured_at ≤ call.evaluated_at
  pub not_late : call.evaluated_at ≤ snapshot.valid_until
  pub lease : e.claim.lease_expires_at ≡ call.evaluated_at + seconds call.lease_seconds

module _ ⦃u : Uuid⦄ (key : String) where
  pub authorizes :
      (call : ClaimCall) (m : Store) (r : Reading) (claim : WorkerClaim)
      → Admitted key call m r
      → claim.lease_expires_at ≡ call.evaluated_at + seconds call.lease_seconds
      → Authorized key call m r.snapshot
          (record { step = r.step; claim = claim; checkpoint = r.checkpoint })
  authorizes call m r claim a expires =
      let (guarded_host, observed) =
        structural_claim_denial-none key a.state r.step a.latest a.existing call.captured_at
          a.policy call.policy a.committed m a.structure_admits in
      let (unresolved, unclaimed) =
        claim_denial-none key r.step a.latest a.existing call.captured_at m (
          claims_admit key a.state r.step a.latest a.existing call.captured_at a.policy call.policy
            a.committed m a.structure_admits) in
      let (healthy, room) = resource_claim_denial-none r.snapshot a.target a.resources_admit in
      record {
        state = a.state;
        locked = a.locked;
        guarded_host = guarded_host;
        current = observation_denial-none key a.state r.step call.policy a.committed m observed;
        registered = a.loaded;
        unresolved = a.has_existing ∙ ap (λ (o : Option WorkerResult). ok o) unresolved;
        unclaimed = unclaimed;
        target = a.target;
        reserved = a.has_target;
        healthy = healthy;
        room = room;
        not_early = a.not_early;
        not_late = a.not_late;
        lease = expires;
      }

-- ===== src/Worker/Store/Moves.antt =====
-- The moves that the operations make on the tables: claims change in place, a claim is granted, or
-- a result is stored.
use prometheist.Base.{
  ℕ, ◌≤◌, ◌≡◌, refl, ap, sym, ◌∙◌, subst, Bool, true, false, not, Option, none, some, List, [], ◌∷◌,
  ◌++◌, String, ok, nat_eq, any, ◌==◌, ℕ_eq, String_eq, arith, inl, inr, Option-cases, guarded,
  ok-injective,
}
use prometheist.Attention.Resources.{Uuid}
use prometheist.Worker.Protocol.{
  WorkerStep, WorkerClaim, WorkerClaimStatus, WorkerResult, worker_claim,
}
use prometheist.Worker.Store.Tables.{
  Rows, Store, find_row, update_rows, count_rows, is_active, claims_conflict, results_conflict,
}
use prometheist.Worker.Store.Load.{
  max_worker_lease_seconds, lock_claim, load_step, load_latest_claim, load_result_row,
}
use prometheist.Worker.Store.Writes.{set_claim_status}
use prometheist.Worker.Store.Leases.{extended}
use prometheist.Worker.Store.Denials.{claim_denial}
use prometheist.Worker.Store.Evolves.{IsBounded, Evolves, AreDistinct, update_rows-Evolves}

-- What holds where a claim is added: nothing denied it, and no unique constraint is broken.
pub record Granting ⦃u : Uuid⦄ (key : String) (s t : Store) : Type 0 where
  pub requested : ℕ
  pub step : WorkerStep
  pub loaded : load_step key requested s ≡ ok step
  pub existing : Option WorkerResult
  pub has_existing : load_result_row key step.step_id s ≡ ok existing
  pub latest : Option WorkerClaim
  pub has_latest : load_latest_claim key step.step_id s ≡ ok latest
  pub at : ℕ
  pub admitted : claim_denial key step latest existing at s ≡ none
  pub claim : WorkerClaim
  pub same_step_id : claim.step_id ≡ step.step_id
  pub bounded : IsBounded claim
  pub apart : any (claims_conflict (key, claim)) s.claims ≡ false
  pub added : t.claims ≡ s.claims ++ (key, claim) ∷ []
  pub same_results : t.results ≡ s.results
  pub same_steps : t.steps ≡ s.steps

abbrev pub StepsKept : Store → Store → Type 0
StepsKept s t = (more : Rows WorkerStep) × (t.steps ≡ s.steps ++ more)

pub data Move ⦃u : Uuid⦄ (key : String) (s t : Store) : Type 0 where
  evolves : Evolves s.claims t.claims → t.results ≡ s.results → StepsKept s t → Move key s t
  grants : Granting key s t → Move key s t
  resolves :
      (result : WorkerResult)
      → any (results_conflict (key, result)) s.results ≡ false
      → t.results ≡ s.results ++ (key, result) ∷ []
      → t.claims ≡ s.claims
      → t.steps ≡ s.steps
      → Move key s t

-- A row of moves.
pub data Moves ⦃u : Uuid⦄ (key : String) : Store → Store → Type 0 where
  stays : {s : Store} → Moves key s s
  moves : {s m t : Store} → Move key s m → Moves key m t → Moves key s t

module _ ⦃u : Uuid⦄ (key : String) where
  abbrev pub one_move : {s t : Store} → Move key s t → Moves key s t
  one_move m = moves m stays

  pub append_nil : {A : Type 0} (xs : List A) → xs ≡ xs ++ []
  append_nil [] = refl
  append_nil (x ∷ xs) = ap (λ ys. x ∷ ys) (append_nil xs)

  pub StepsKept-refl : (s : Store) → StepsKept s s
  StepsKept-refl s = ([], append_nil s.steps)

  pub worker_claim_returns :
      (row c : WorkerClaim)
      → worker_claim row ≡ ok c
      → (c.status ≡ row.status)
        × (c.claim_id ≡ row.claim_id)
        × (c.step_id ≡ row.step_id)
        × (c.attempt ≡ row.attempt)
        × (c.lease_expires_at ≡ row.lease_expires_at)
        × (c.last_heartbeat_at ≡ row.last_heartbeat_at)
  unfolding worker_claim
  worker_claim_returns row c h = ground arith

  -- The row that a locked claim was read from.
  pub lock_claim_row :
      (claim_id : ℕ) (s : Store) (c : WorkerClaim)
      → lock_claim key claim_id s ≡ ok c
      → (row : WorkerClaim) × (find_row key (λ d. d.claim_id == claim_id) s.claims ≡ some row)
        × (worker_claim row ≡ ok c)
  unfolding lock_claim
  lock_claim_row claim_id s c h =
      elim (Option-cases (find_row key (λ d. d.claim_id == claim_id) s.claims)) [
        | inl e ↦ absurd (cc (rw e at h))
        | inr (row, e) ↦ (row, e, rw e at h)
      ]

  pub find_row_holds :
      {V : Type 0} (test : V → Bool) (rows : Rows V) (v : V)
      → find_row key test rows ≡ some v
      → test v ≡ true
  unfolding find_row
  find_row_holds test [] v h = absurd (cc h)
  find_row_holds test ((k, x) ∷ rows) v h = ground (arith, find_row_holds test rows v)

  -- A locked claim carries the id that it was looked up by.
  pub relock :
      (claim_id : ℕ) (s : Store) (c : WorkerClaim)
      → lock_claim key claim_id s ≡ ok c
      → lock_claim key c.claim_id s ≡ ok c
  relock claim_id s c h =
      let (row, found, valid) = lock_claim_row claim_id s c h in
      let chosen = find_row_holds (λ d. d.claim_id == claim_id) s.claims row found in
      let same : c.claim_id ≡ claim_id =
        (worker_claim_returns row c valid).1 ∙ (ℕ_eq.beq_iff row.claim_id claim_id).0 chosen in
      subst (λ k. lock_claim key k s ≡ ok c) (sym same) h

  pub set_claim_status-Move :
      (claim_id : ℕ) (status : WorkerClaimStatus) (s t : Store) (row : WorkerClaim)
      → AreDistinct s.claims
      → find_row key (λ d. d.claim_id == claim_id) s.claims ≡ some row
      → is_active row ≡ true
      → set_claim_status key claim_id status s ≡ ok t
      → Move key s t
  unfolding set_claim_status
  set_claim_status-Move claim_id status s t row d found live h =
      let change : WorkerClaim → WorkerClaim = λ c. record c { status = status } in
      let e =
        ok-injective (
          guarded (not (nat_eq (count_rows key (λ c. c.claim_id == claim_id) s.claims) 1)) _ _ h) in
      subst (λ n. Move key s n) e
        (evolves
          (update_rows-Evolves key claim_id change s.claims row d found
            λ k. (refl, refl, refl, refl, refl, (λ i. absurd (cc (live, i))), λ b. b))
          refl (StepsKept-refl s))

  pub extended-Move :
      (claim_id at lease_seconds : ℕ) (s : Store) (row : WorkerClaim)
      → AreDistinct s.claims
      → find_row key (λ d. d.claim_id == claim_id) s.claims ≡ some row
      → is_active row ≡ true
      → lease_seconds ≤ max_worker_lease_seconds
      → Move key s (record s {
        claims =
            update_rows key (λ c. c.claim_id == claim_id) (extended key at lease_seconds) s.claims;
      })
  extended-Move claim_id at lease_seconds s row d found live h =
      evolves
        (update_rows-Evolves key claim_id (extended key at lease_seconds) s.claims row d found
          λ k. (refl, refl, refl, refl, refl, (λ i. absurd (cc (live, i))), λ b. omega (arith, h)))
        refl (StepsKept-refl s)

-- ===== src/Worker/Store/AtMostOnce.antt =====
-- A step whose effect may happen once at most is not claimed again after a claim was abandoned.
use prometheist.Base.{
  ℕ, ◌≡◌, refl, ap, sym, ◌∙◌, subst, true, false, not, ◌||◌, Option, none, some, List, [], ◌∷◌,
  ◌++◌, map, String, ok, leb, strip, is_blank, no_duplicates, ◌==◌, ℕ_eq, String_eq, arith,
  Bool-cases, inl, inr, Option-cases, some-injective, ok-injective, >>=-eq-ok, OnOk, OnOk-bind,
  OnOk-raise, OnOk_value,
}
use prometheist.Attention.Resources.{Uuid}
use prometheist.Attention.Observation.{ResourceSafetyPolicy, ResourceObservationSnapshot}
use prometheist.Worker.Protocol.{
  WorkerStep, WorkerClaim, WorkerResult, worker_step, worker_claim, abandoned_retry_is_safe,
  normalize_refs, deterministic_worker_step_id, deterministic_worker_idempotency_key,
  worker_protocol_version, WorkerClaimResourceObservation,
}
use prometheist.Worker.Store.Tables.{
  Rows, Store, is_row, find_row, find_rows, latest_by, is_active, is_abandoned,
}
use prometheist.Worker.Store.Load.{load_step, load_latest_claim}
use prometheist.Worker.Store.Denials.{claim_denial, is_abandoned_latest}
use prometheist.Worker.Store.Evolves.{Evolves, Evolves-refl, AreDistinct}
use prometheist.Worker.Store.Kept.{
  claims_of, attempts_of, attempts_of-Evolves, latest_of, LatestEvolves, latest_of-Evolves,
}
use prometheist.Worker.Store.Moves.{
  Granting, Move, evolves, grants, resolves, append_nil, worker_claim_returns, find_row_holds,
}
use prometheist.Worker.Store.Calls.{Call}
use prometheist.Worker.Store.Runs.{perform_all, perform_all-keeps}
use prometheist.Worker.Store.Published.{find_row-append}

-- A step that may take effect once at most, whose latest claim was abandoned, and the numbers of
-- the attempts at it.
pub record IsStuck (key : String) (step_id : ℕ) (c : WorkerClaim) (numbers : List ℕ) (s : Store)
    : Type 0 where
  pub step : WorkerStep
  pub registered : find_row key (λ t. t.step_id == step_id) s.steps ≡ some step
  pub once : abandoned_retry_is_safe step.effect_policy ≡ false
  pub is_latest : latest_of key step_id s.claims ≡ some c
  pub attempts : attempts_of key step_id s.claims ≡ numbers
  pub gone : is_abandoned c ≡ true

still_abandoned :
    (c d : WorkerClaim) → d.status ≡ c.status → is_abandoned c ≡ true → is_abandoned d ≡ true
still_abandoned c d same gone = ground arith

not_active : (c : WorkerClaim) → is_abandoned c ≡ true → is_active c ≡ false
not_active c gone = ground arith

-- A row of another step adds nothing to the claims of a step.
claims_of-other :
    (key : String) (step_id : ℕ) (xs : Rows WorkerClaim) (y : String × WorkerClaim)
    → is_row key (λ c. c.step_id == step_id) y ≡ false
    → claims_of key step_id (xs ++ y ∷ []) ≡ claims_of key step_id xs
unfolding find_rows
claims_of-other key step_id [] y h = rw h refl
claims_of-other key step_id (x ∷ xs) y h = ground (arith, claims_of-other key step_id xs y h)

module _ ⦃u : Uuid⦄ where
  -- A step that is read has the id and the policy of its row.
  abbrev SameStep : WorkerStep → WorkerStep → Type 0
  SameStep row step = (step.step_id ≡ row.step_id) × (step.effect_policy ≡ row.effect_policy)

  worker_step_returns : (row : WorkerStep) → OnOk (SameStep row) (worker_step row)
  unfolding worker_step
  worker_step_returns row =
      let P = SameStep row in
      OnOk-raise P (not (leb 1 row.created_epoch_sequence)) _ _ λ positive.
        OnOk-raise P
          (is_blank (strip row.step_key)
            || is_blank (strip row.capability)
            || is_blank (strip row.idempotency_key))
          _ _
          λ filled. OnOk-bind P (normalize_refs row.input_refs) _ λ refs normal.
            OnOk-raise P (not (row.protocol_version == worker_protocol_version)) _ _ λ supported.
              OnOk-raise P (not (no_duplicates row.reservation_ids)) _ _ λ distinct.
                OnOk-bind P (deterministic_worker_step_id row.assignment_id (strip row.step_key)) _
                  λ step_id made. OnOk-raise P (not (row.step_id == step_id)) _ _ λ own.
                    OnOk-raise P
                      (not (
                        strip row.idempotency_key
                        == deterministic_worker_idempotency_key row.step_id))
                      _ _ λ keyed. (refl, refl)

  -- The row that a step was read from.
  pub load_step_row :
      (key : String) (step_id : ℕ) (s : Store) (step : WorkerStep)
      → load_step key step_id s ≡ ok step
      → (row : WorkerStep) × (find_row key (λ t. t.step_id == step_id) s.steps ≡ some row)
        × (step.step_id ≡ step_id)
        × (step.effect_policy ≡ row.effect_policy)
  unfolding load_step
  load_step_row key step_id s step h =
      elim (Option-cases (find_row key (λ t. t.step_id == step_id) s.steps)) [
        | inl e ↦ absurd (cc (rw e at h))
        | inr (row, e) ↦
            let valid : worker_step row ≡ ok step = rw e at h in
            let same =
              OnOk_value (SameStep row) (worker_step row) (worker_step_returns row) valid in
            let chosen = find_row_holds key (λ t. t.step_id == step_id) s.steps row e in
            (row, e, same.0 ∙ (ℕ_eq.beq_iff row.step_id step_id).0 chosen, same.1)
      ]

  -- The latest claim that is read has the status of its row.
  latest_is_abandoned :
      (key : String) (step_id : ℕ) (s : Store) (c : WorkerClaim) (latest : Option WorkerClaim)
      → latest_of key step_id s.claims ≡ some c
      → is_abandoned c ≡ true
      → load_latest_claim key step_id s ≡ ok latest
      → is_abandoned_latest latest ≡ true
  unfolding load_latest_claim
  latest_is_abandoned key step_id s c latest found gone h =
      let (d, valid, e) = >>=-eq-ok (worker_claim c) _ (rw found at h) in
      let same = (worker_claim_returns key c d valid).0 in
      subst (λ o. is_abandoned_latest o ≡ true) (ok-injective e) (still_abandoned c d same gone)

  claim_denial-abandoned :
      (key : String) (step : WorkerStep) (latest : Option WorkerClaim)
      (existing : Option WorkerResult) (at : ℕ) (s : Store)
      → is_abandoned_latest latest ≡ true
      → abandoned_retry_is_safe step.effect_policy ≡ false
      → ¬ (claim_denial key step latest existing at s ≡ none)
  unfolding claim_denial
  claim_denial-abandoned key step latest existing at s gone unsafe h = ground arith

  -- A grant for the step would have been denied.
  not-Granting :
      (key : String) (step_id : ℕ) (c : WorkerClaim) (numbers : List ℕ) (s t : Store)
      → IsStuck key step_id c numbers s
      → (g : Granting key s t) → ¬ (g.claim.step_id ≡ step_id)
  not-Granting key step_id c numbers s t stuck g same =
      let (row, found, requested, policy) = load_step_row key g.requested s g.step g.loaded in
      let this : g.step.step_id ≡ step_id = sym g.same_step_id ∙ same in
      let asked : g.requested ≡ step_id = sym requested ∙ this in
      let found_here : find_row key (λ t. t.step_id == step_id) s.steps ≡ some row =
        subst (λ (k : ℕ). find_row key (λ t. t.step_id == k) s.steps ≡ some row) asked found in
      let one : row ≡ stuck.step = some-injective _ _ (sym found_here ∙ stuck.registered) in
      let unsafe : abandoned_retry_is_safe g.step.effect_policy ≡ false =
        ap abandoned_retry_is_safe (policy ∙ ap (λ (w : WorkerStep). w.effect_policy) one)
        ∙ stuck.once in
      let latest_here : load_latest_claim key step_id s ≡ ok g.latest =
        subst (λ (k : ℕ). load_latest_claim key k s ≡ ok g.latest) this g.has_latest in
      claim_denial-abandoned key g.step g.latest g.existing g.at s
        (latest_is_abandoned key step_id s c g.latest stuck.is_latest stuck.gone latest_here) unsafe
        g.admitted

  more_steps :
      (key : String) (step_id : ℕ) (s t : Store) (step : WorkerStep) (more : Rows WorkerStep)
      → t.steps ≡ s.steps ++ more
      → find_row key (λ w. w.step_id == step_id) s.steps ≡ some step
      → find_row key (λ w. w.step_id == step_id) t.steps ≡ some step
  more_steps key step_id s t step more e h =
      rw (e, find_row-append key (λ w. w.step_id == step_id) s.steps more, h) refl

  same_latest :
      (c : WorkerClaim) (o : Option WorkerClaim)
      → is_active c ≡ false
      → LatestEvolves "" 0 (some c) o
      → o ≡ some c
  same_latest c none idle e = elim e [ ]
  same_latest c (some d) idle e = ap (λ (w : WorkerClaim). some w) (e.1 idle)

  module _ (key : String) (step_id : ℕ) (c : WorkerClaim) (numbers : List ℕ) where
    evolves-IsStuck :
        (s t : Store) (more : Rows WorkerStep)
        → Evolves s.claims t.claims
        → t.steps ≡ s.steps ++ more
        → IsStuck key step_id c numbers s
        → IsStuck key step_id c numbers t
    evolves-IsStuck s t more e kept stuck = record {
      step = stuck.step;
      registered = more_steps key step_id s t stuck.step more kept stuck.registered;
      once = stuck.once;
      is_latest = same_latest c (latest_of key step_id t.claims) (not_active c stuck.gone) (
          subst (λ o. LatestEvolves key step_id o (latest_of key step_id t.claims)) stuck.is_latest
            (latest_of-Evolves key step_id s.claims t.claims e));
      attempts = attempts_of-Evolves key step_id s.claims t.claims e ∙ stuck.attempts;
      gone = stuck.gone;
    }

    grants-IsStuck :
        (k : String) (s t : Store)
        → Granting k s t
        → IsStuck key step_id c numbers s
        → IsStuck key step_id c numbers t
    grants-IsStuck k s t g stuck =
        elim (Bool-cases (is_row key (λ (w : WorkerClaim). w.step_id == step_id) (k, g.claim))) [
          | inl e ↦
              let here : k ≡ key = (String_eq.beq_iff k key).0 (ground (arith, e)) in
              let this : g.claim.step_id ≡ step_id =
                (ℕ_eq.beq_iff g.claim.step_id step_id).0 (ground (arith, e)) in
              absurd (
                not-Granting k step_id c numbers s t
                  (subst (λ n. IsStuck n step_id c numbers s) (sym here) stuck) g this)
          | inr e ↦
              let same : claims_of key step_id t.claims ≡ claims_of key step_id s.claims =
                ap (claims_of key step_id) g.added
                ∙ claims_of-other key step_id s.claims (k, g.claim) e in
              record {
                step = stuck.step;
                registered =
                    ap (find_row key (λ (w : WorkerStep). w.step_id == step_id)) g.same_steps
                    ∙ stuck.registered;
                once = stuck.once;
                is_latest = ap (latest_by (λ (w : WorkerClaim). w.attempt)) same ∙ stuck.is_latest;
                attempts = ap (map (λ (w : WorkerClaim). w.attempt)) same ∙ stuck.attempts;
                gone = stuck.gone;
              }
        ]

    Move-IsStuck :
        (k : String) (s t : Store)
        → Move k s t
        → IsStuck key step_id c numbers s
        → IsStuck key step_id c numbers t
    Move-IsStuck k s t (evolves e same (more, kept)) stuck = evolves-IsStuck s t more e kept stuck
    Move-IsStuck k s t (grants g) stuck = grants-IsStuck k s t g stuck
    Move-IsStuck k s t (resolves result new added same steps) stuck =
        evolves-IsStuck s t [] (subst (Evolves s.claims) (sym same) (Evolves-refl s.claims))
          (steps ∙ append_nil k s.steps) stuck

  -- Where the claims break no unique constraint, the latest claim of a registered step whose effect
  -- may happen once at most is abandoned, and any calls follow, of any schedulers and in any order,
  -- that claim is still the latest one, still abandoned, and the numbers of the attempts at the
  -- step are the same: the step is not claimed again.
  pub perform_all-IsStuck :
      (observation_json : ResourceObservationSnapshot → String)
      (claim_json : WorkerClaimResourceObservation → String) (default_policy : ResourceSafetyPolicy)
      (calls : List (String × Call)) (s : Store) (key : String) (step_id : ℕ) (c : WorkerClaim)
      (numbers : List ℕ)
      → AreDistinct s.claims
      → IsStuck key step_id c numbers s
      → IsStuck key step_id c numbers
          (perform_all observation_json claim_json default_policy calls s)
  perform_all-IsStuck observation_json claim_json default_policy calls s key step_id c numbers d =
      perform_all-keeps observation_json claim_json default_policy (IsStuck key step_id c numbers)
        (Move-IsStuck key step_id c numbers) calls s d

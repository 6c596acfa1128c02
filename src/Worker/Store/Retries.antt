-- ===== src/Worker/Store/Retries.antt =====
-- A completion, and the same call again.
use prometheist.Base.{
  ℕ, ◌≡◌, ap, ◌∙◌, subst, Bool, true, not, ◌||◌, Option, none, some, List, String, Error, Result,
  ok, err, worker_protocol_error, ◌>>◌, raise_if, if◌then◌else◌, leb, ◌==◌, ℕ_eq, String_eq, arith,
  OnOk, OnOk-bind, OnOk-raise, OnOk-if, OnOk_value, ok-injective,
}
use prometheist.Attention.Resources.{Uuid}
use prometheist.Worker.Protocol.{
  WorkerStep, WorkerClaim, abandoned, completed, WorkerResult, worker_result,
}
use prometheist.Worker.Store.Tables.{Store, find_row, is_active}
use prometheist.Worker.Store.Load.{lock_claim, load_step, load_result_row, require_worker}
use prometheist.Worker.Store.Writes.{texts_eq, set_claim_status, insert_immutable_result}
use prometheist.Worker.Store.Leases.{
  Outcome, done, expired, transaction, abandon, complete_again, complete_now, complete_or_retry,
  complete_body, complete_worker_claim,
}
use prometheist.Worker.Store.Moves.{lock_claim_row}
use prometheist.Worker.Store.AtMostOnce.{load_step_row}
use prometheist.Worker.Store.Settling.{
  worker_result_returns, insert_immutable_result_loads, set_status, load_step_same,
  load_result_row_same, same_id,
}

module _ ⦃u : Uuid⦄ (key : String) where
  guard_then :
      {V : Type 0} (b : Bool) (e : Error) (v : V)
      → (raise_if (not b) e >> ok v) ≡ (if b then ok v else err e)
  guard_then b e v = ground arith

  -- What the next call of the same worker finds.
  record Settled (claim_id : ℕ) (worker_id output : String) (r : WorkerResult) (t : Store)
      : Type 0 where
    pub claim : WorkerClaim
    pub step : WorkerStep
    pub locked : lock_claim key claim_id t ≡ ok claim
    pub owned : require_worker claim worker_id ≡ ok tt
    pub registered : load_step key claim.step_id t ≡ ok step
    pub resolved : load_result_row key claim.step_id t ≡ ok (some r)
    pub same_claim : (r.claim_id == claim.claim_id) ≡ true
    pub same_output : (r.output == output) ≡ true

  Settled-again :
      (claim_id : ℕ) (worker_id output : String) (r : WorkerResult) (t : Store) (refs : List String)
      (at : ℕ)
      → Settled claim_id worker_id output r t
      → complete_body key claim_id worker_id output refs at t ≡ (
          if texts_eq r.output_refs refs
          then ok (done r, t)
          else err (worker_protocol_error "conflicting worker result retry"))
  unfolding complete_body complete_or_retry complete_again
  Settled-again claim_id worker_id output r t refs at h = rw h.locked (
      rw h.owned (
        rw h.registered (
          rw h.resolved
            (rw h.same_claim (rw h.same_output (guard_then (texts_eq r.output_refs refs) _ _))))))

  abbrev Settles : ℕ → String → String → Outcome WorkerResult × Store → Type 0
  Settles claim_id worker_id output (done r, t) = Settled claim_id worker_id output r t
  Settles claim_id worker_id output (expired, t) = Unit

  complete_now-Settles :
      (claim_id : ℕ) (worker_id output : String) (step : WorkerStep) (c : WorkerClaim)
      (refs : List String) (at : ℕ) (s : Store)
      → lock_claim key claim_id s ≡ ok c
      → require_worker c worker_id ≡ ok tt
      → load_step key c.step_id s ≡ ok step
      → OnOk (Settles claim_id worker_id output) (complete_now key step c output refs at s)
  unfolding complete_now
  complete_now-Settles claim_id worker_id output step c refs at s locked owned registered =
      let P = Settles claim_id worker_id output in
      let (row, found, valid) = lock_claim_row key claim_id s c locked in
      let (_, _, same_step, _) = load_step_row key c.step_id s step registered in
      OnOk-bind P (worker_result _) _ λ result made.
        OnOk-bind P (insert_immutable_result key result s) _ λ m stored.
          OnOk-bind P (set_claim_status key c.claim_id completed m) _ λ t set.
            let (same_claims, same_steps, loaded) =
              OnOk_value _ _ (insert_immutable_result_loads key result s) stored in
            let m_row : find_row key (λ (d : WorkerClaim). d.claim_id == claim_id) m.claims
                ≡ some row =
              ap (find_row key (λ (d : WorkerClaim). d.claim_id == claim_id)) same_claims ∙ found in
            let closed : set_claim_status key claim_id completed m ≡ ok t =
              subst (λ k. set_claim_status key k completed m ≡ ok t)
                (same_id key claim_id s c locked) set in
            let (relocked, steps, results) =
              OnOk_value _ _ (set_status key claim_id completed m row c m_row valid) closed in
            let (p, q, o) = worker_result_returns key _ result made in
            record {
              claim = record c { status = completed };
              step = step;
              locked = relocked;
              owned = owned;
              registered = load_step_same key c.step_id s t (steps ∙ same_steps) ∙ registered;
              resolved =
                  load_result_row_same key c.step_id m t results
                  ∙ subst (λ k. load_result_row key k m ≡ ok (some result)) (p ∙ same_step) loaded;
              same_claim = (ℕ_eq.beq_iff result.claim_id c.claim_id).1 q;
              same_output = (String_eq.beq_iff result.output output).1 o;
            }

  complete_or_retry-Settles :
      (claim_id : ℕ) (worker_id output : String) (step : WorkerStep) (c : WorkerClaim)
      (existing : Option WorkerResult) (refs : List String) (at : ℕ) (s : Store)
      → lock_claim key claim_id s ≡ ok c
      → require_worker c worker_id ≡ ok tt
      → load_step key c.step_id s ≡ ok step
      → load_result_row key c.step_id s ≡ ok existing
      → OnOk
          (Settles claim_id worker_id output)
          (complete_or_retry key step c existing output refs at s)
  unfolding complete_or_retry complete_again abandon
  complete_or_retry-Settles claim_id worker_id output step c none refs at s locked owned registered
        read =
      let P = Settles claim_id worker_id output in
      OnOk-if P (not (is_active c)) _ _ (λ closed. tt)
        λ running.
          OnOk-if P (leb c.lease_expires_at at) _ _
            (λ over. OnOk-bind P (set_claim_status key c.claim_id abandoned s) _ λ t set. tt)
            λ fresh.
              complete_now-Settles claim_id worker_id output step c refs at s locked owned
                registered
  complete_or_retry-Settles claim_id worker_id output step c (some existing) refs at s locked owned
        registered read =
      OnOk-raise (Settles claim_id worker_id output)
        (not (existing.claim_id == c.claim_id)
          || not (existing.output == output)
          || not (texts_eq existing.output_refs refs))
        _ _
        λ same. record {
          claim = c;
          step = step;
          locked = locked;
          owned = owned;
          registered = registered;
          resolved = read;
          same_claim = ground (arith, same);
          same_output = ground (arith, same);
        }

  complete_body-Settles :
      (claim_id : ℕ) (worker_id output : String) (refs : List String) (at : ℕ) (s : Store)
      → OnOk
          (Settles claim_id worker_id output)
          (complete_body key claim_id worker_id output refs at s)
  unfolding complete_body
  complete_body-Settles claim_id worker_id output refs at s =
      let P = Settles claim_id worker_id output in
      OnOk-bind P (lock_claim key claim_id s) _ λ c locked.
        OnOk-bind P (require_worker c worker_id) _ λ o owned.
          OnOk-bind P (load_step key c.step_id s) _ λ step loaded.
            OnOk-bind P (load_result_row key c.step_id s) _ λ existing read.
              complete_or_retry-Settles claim_id worker_id output step c existing refs at s locked
                owned loaded read

  returned-Settles :
      (claim_id : ℕ) (worker_id output : String) (body : Result (Outcome WorkerResult × Store))
      (s t : Store) (r : WorkerResult)
      → OnOk (Settles claim_id worker_id output) body
      → transaction body s ≡ (ok r, t)
      → Settled claim_id worker_id output r t
  returned-Settles claim_id worker_id output (ok (done v, m)) s t r h e =
      subst (λ n. Settled claim_id worker_id output r n) (ap (λ x. x.1) e)
        (subst (λ n. Settled claim_id worker_id output n m) (ok-injective (ap (λ x. x.0) e)) h)
  returned-Settles claim_id worker_id output (ok (expired, m)) s t r h e =
      absurd (cc (ap (λ x. x.0) e))
  returned-Settles claim_id worker_id output (err error) s t r h e = absurd (cc (ap (λ x. x.0) e))

  after_choice :
      (b : Bool) (r : WorkerResult) (e : Error) (t : Store)
      → transaction (if b then ok (done r, t) else err e) t ≡ (if b then (ok r, t) else (err e, t))
  after_choice b r e t = ground arith

  -- Where `complete_worker_claim` has returned a result, the same call of the same worker, at any
  -- time, leaves the tables as they are, and returns that result if its references are those of the
  -- result; otherwise it raises the error of a conflicting retry.
  pub complete_worker_claim_again :
      (claim_id : ℕ) (worker_id output : String) (refs again : List String) (at later : ℕ)
      (s t : Store) (r : WorkerResult)
      → complete_worker_claim key claim_id worker_id output refs at s ≡ (ok r, t)
      → complete_worker_claim key claim_id worker_id output again later t ≡ (
          if texts_eq r.output_refs again
          then (ok r, t)
          else (err (worker_protocol_error "conflicting worker result retry"), t))
  unfolding complete_worker_claim
  complete_worker_claim_again claim_id worker_id output refs again at later s t r h =
      ap (λ body. transaction body t)
        (Settled-again claim_id worker_id output r t again later (
          returned-Settles claim_id worker_id output _ s t r
            (complete_body-Settles claim_id worker_id output refs at s) h))
      ∙ after_choice (texts_eq r.output_refs again) r _ t

-- ===== src/Worker/Store/Closings.antt =====
-- What the operations on a lease leave of the tables where they raise after their commit.
use prometheist.Base.{
  ℕ, ◌+◌, ◌≤◌, ◌≡◌, sym, subst, true, not, ◌||◌, Option, none, some, List, String, ok, leb,
  contains, ◌==◌, ℕ_eq, String_eq, arith, String_ordered, ℕ_ordered, OnOk, OnOk-bind, OnOk-raise,
  OnOk-if,
}
use prometheist.Attention.Resources.{Uuid}
use prometheist.Worker.Protocol.{
  WorkerStep, WorkerClaim, WorkerEffectPolicy, WorkerCheckpoint, abandoned, checkpointed, completed,
  released, WorkerResult, worker_step, worker_result, worker_checkpoint,
  deterministic_worker_step_id, deterministic_worker_checkpoint_id,
}
use prometheist.Worker.Store.Tables.{Store, is_active, is_released, is_checkpointed, update_rows}
use prometheist.Worker.Store.Load.{
  lock_claim, load_step, load_result_row, load_checkpoint_for_claim, require_worker, required,
}
use prometheist.Worker.Store.Writes.{
  texts_eq, set_claim_status, insert_immutable_result, insert_immutable_checkpoint,
  insert_immutable_step, same_checkpoint,
}
use prometheist.Worker.Store.Register.{new_step, register_body, current_assignment, find_task_row}
use prometheist.Worker.Store.Leases.{
  extended, Outcome, done, expired, abandon, heartbeat_body, checkpoint_again, checkpoint_now,
  checkpoint_body, complete_again, complete_now, complete_or_retry, complete_body, release_body,
}
use prometheist.Worker.Store.Settling.{same_id}

-- `Closes` holds of the tables that a transaction commits before it raises.
abbrev pub Leaves : {V : Type 0} → (Store → Type 0) → Outcome V × Store → Type 0
Leaves Closes (done v, t) = Unit
Leaves Closes (expired, t) = Closes t

abbrev pub Never : Store → Type 0
Never t = ⊥

-- The lease of an active claim had run out, and the claim was closed.
abbrev pub RanOut : ⦃u : Uuid⦄ → String → ℕ → ℕ → Store → Store → Type 0
RanOut key claim_id at s t =
    (c : WorkerClaim) × (lock_claim key claim_id s ≡ ok c)
    × (is_active c ≡ true)
    × (c.lease_expires_at ≤ at)
    × (set_claim_status key claim_id abandoned s ≡ ok t)

module _ ⦃u : Uuid⦄ (key : String) where
  abandon-Leaves :
      (V : Type 0) (claim_id at : ℕ) (s : Store) (c : WorkerClaim)
      → lock_claim key claim_id s ≡ ok c
      → is_active c ≡ true
      → leb c.lease_expires_at at ≡ true
      → OnOk (Leaves {V = V} (RanOut key claim_id at s)) (abandon key claim_id s)
  unfolding abandon
  abandon-Leaves V claim_id at s c locked live over =
      OnOk-bind (Leaves {V = V} (RanOut key claim_id at s))
        (set_claim_status key claim_id abandoned s) _
        λ t set. (c, locked, live, ground (arith, over), set)

  pub heartbeat_body-Leaves :
      (claim_id : ℕ) (worker_id : String) (lease_seconds at : ℕ) (s : Store)
      → OnOk
          (Leaves (RanOut key claim_id at s))
          (heartbeat_body key claim_id worker_id lease_seconds at s)
  unfolding heartbeat_body
  heartbeat_body-Leaves claim_id worker_id lease_seconds at s =
      let P = Leaves {V = WorkerClaim} (RanOut key claim_id at s) in
      OnOk-bind P (lock_claim key claim_id s) _ λ c locked.
        OnOk-bind P (require_worker c worker_id) _ λ o owned.
          OnOk-raise P (not (is_active c)) _ _ λ running.
            OnOk-if P (leb c.lease_expires_at at) _ _
              (λ over. abandon-Leaves _ claim_id at s c locked (ground (arith, running)) over)
              λ fresh.
                let next = record s {
                  claims =
                      update_rows key (λ e. e.claim_id == claim_id) (extended key at lease_seconds)
                        s.claims;
                } in
                OnOk-bind P (lock_claim key claim_id next) _ λ updated relocked. tt

  checkpoint_now-Leaves :
      (Closes : Store → Type 0) (c : WorkerClaim) (state : String) (refs : List String) (at : ℕ)
      (s : Store)
      → OnOk (Leaves Closes) (checkpoint_now key c state refs at s)
  unfolding checkpoint_now
  checkpoint_now-Leaves Closes c state refs at s =
      let P = Leaves {V = WorkerCheckpoint} Closes in
      OnOk-bind P (deterministic_worker_checkpoint_id c.step_id (c.checkpoint_revision + 1)) _
        λ k made. OnOk-bind P (worker_checkpoint _) _ λ checkpoint valid.
          OnOk-bind P (insert_immutable_checkpoint key checkpoint s) _
            λ m stored. OnOk-bind P (set_claim_status key c.claim_id checkpointed m) _ λ t set. tt

  checkpoint_again-Leaves :
      (Closes : Store → Type 0) (claim_id : ℕ) (state : String) (refs : List String) (s : Store)
      → OnOk (Leaves Closes) (checkpoint_again key claim_id state refs s)
  unfolding checkpoint_again
  checkpoint_again-Leaves Closes claim_id state refs s =
      let P = Leaves {V = WorkerCheckpoint} Closes in
      OnOk-bind P (load_checkpoint_for_claim key claim_id s) _ λ found loaded.
        OnOk-bind P (required _ found) _
          λ checkpoint there. OnOk-raise P (not (same_checkpoint _ checkpoint)) _ _ λ same. tt

  pub checkpoint_body-Leaves :
      (claim_id : ℕ) (worker_id state : String) (refs : List String) (at : ℕ) (s : Store)
      → OnOk
          (Leaves (RanOut key claim_id at s))
          (checkpoint_body key claim_id worker_id state refs at s)
  unfolding checkpoint_body
  checkpoint_body-Leaves claim_id worker_id state refs at s =
      let P = Leaves {V = WorkerCheckpoint} (RanOut key claim_id at s) in
      OnOk-bind P (lock_claim key claim_id s) _ λ c locked.
        OnOk-bind P (require_worker c worker_id) _ λ o owned.
          OnOk-if P (is_checkpointed c) _ _
            (λ again. checkpoint_again-Leaves _ claim_id state refs s)
            λ first.
              OnOk-if P (not (is_active c)) _ _ (λ closed. tt)
                λ running.
                  OnOk-if P (leb c.lease_expires_at at) _ _
                    (λ over. abandon-Leaves _ claim_id at s c locked (ground (arith, running)) over)
                    λ fresh. checkpoint_now-Leaves _ c state refs at s

  complete_now-Leaves :
      (Closes : Store → Type 0) (step : WorkerStep) (c : WorkerClaim) (output : String)
      (refs : List String) (at : ℕ) (s : Store)
      → OnOk (Leaves Closes) (complete_now key step c output refs at s)
  unfolding complete_now
  complete_now-Leaves Closes step c output refs at s =
      let P = Leaves {V = WorkerResult} Closes in
      OnOk-bind P (worker_result _) _ λ result made.
        OnOk-bind P (insert_immutable_result key result s) _
          λ m stored. OnOk-bind P (set_claim_status key c.claim_id completed m) _ λ t set. tt

  complete_or_retry-Leaves :
      (claim_id : ℕ) (step : WorkerStep) (c : WorkerClaim) (existing : Option WorkerResult)
      (output : String) (refs : List String) (at : ℕ) (s : Store)
      → lock_claim key claim_id s ≡ ok c
      → c.claim_id ≡ claim_id
      → OnOk
          (Leaves (RanOut key claim_id at s))
          (complete_or_retry key step c existing output refs at s)
  unfolding complete_or_retry complete_again
  complete_or_retry-Leaves claim_id step c (some existing) output refs at s locked same =
      OnOk-raise (Leaves (RanOut key claim_id at s))
        (not (existing.claim_id == c.claim_id)
          || not (existing.output == output)
          || not (texts_eq existing.output_refs refs))
        _ _ λ fits. tt
  complete_or_retry-Leaves claim_id step c none output refs at s locked same =
      let P = Leaves {V = WorkerResult} (RanOut key claim_id at s) in
      OnOk-if P (not (is_active c)) _ _ (λ closed. tt)
        λ running.
          OnOk-if P (leb c.lease_expires_at at) _ _
            (λ over.
              subst (λ k. OnOk P (abandon key k s)) (sym same)
                (abandon-Leaves _ claim_id at s c locked (ground (arith, running)) over))
            λ fresh. complete_now-Leaves _ step c output refs at s

  pub complete_body-Leaves :
      (claim_id : ℕ) (worker_id output : String) (refs : List String) (at : ℕ) (s : Store)
      → OnOk
          (Leaves (RanOut key claim_id at s))
          (complete_body key claim_id worker_id output refs at s)
  unfolding complete_body
  complete_body-Leaves claim_id worker_id output refs at s =
      let P = Leaves {V = WorkerResult} (RanOut key claim_id at s) in
      OnOk-bind P (lock_claim key claim_id s) _ λ c locked.
        OnOk-bind P (require_worker c worker_id) _ λ o owned.
          OnOk-bind P (load_step key c.step_id s) _ λ step loaded.
            OnOk-bind P (load_result_row key c.step_id s) _ λ existing read.
              complete_or_retry-Leaves claim_id step c existing output refs at s locked
                (same_id key claim_id s c locked)

  pub release_body-Leaves :
      (claim_id : ℕ) (worker_id : String) (s : Store)
      → OnOk (Leaves Never) (release_body key claim_id worker_id s)
  unfolding release_body
  release_body-Leaves claim_id worker_id s =
      let P = Leaves {V = WorkerClaim} Never in
      OnOk-bind P (lock_claim key claim_id s) _ λ c locked.
        OnOk-bind P (require_worker c worker_id) _ λ o owned.
          OnOk-if P (is_released c) _ _ (λ again. tt)
            λ unreleased.
              OnOk-if P (not (is_active c)) _ _ (λ closed. tt)
                λ running.
                  OnOk-bind P (set_claim_status key claim_id released s) _
                    λ t set. OnOk-bind P (lock_claim key claim_id t) _ λ e relocked. tt

  pub register_body-Leaves :
      (assignment_id : ℕ) (step_key capability : String) (refs : List String)
      (policy : WorkerEffectPolicy) (s : Store)
      → OnOk (Leaves Never) (register_body key assignment_id step_key capability refs policy s)
  unfolding register_body
  register_body-Leaves assignment_id step_key capability refs policy s =
      let P = Leaves {V = WorkerStep} Never in
      OnOk-bind P (current_assignment key assignment_id s) _ λ a current.
        OnOk-bind P (required _ (find_task_row s.scheduler.tasks a.task_id)) _ λ task there.
          OnOk-raise P (not (task.revision == a.task_revision)) _ _ λ same.
            OnOk-raise P (not (contains task.required_capabilities capability)) _ _ λ declared.
              OnOk-bind P (deterministic_worker_step_id assignment_id step_key) _ λ step_id made.
                OnOk-bind P (worker_step (new_step key a step_id step_key capability refs policy)) _
                  λ step valid. OnOk-bind P (insert_immutable_step key step s) _ λ t stored. tt

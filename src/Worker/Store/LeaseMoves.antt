-- ===== src/Worker/Store/LeaseMoves.antt =====
-- What a worker does with its claim, as moves.
use prometheist.Base.{
  ℕ, ◌+◌, ◌≤◌, ◌≡◌, refl, ap, sym, ◌∙◌, subst, true, false, not, ◌||◌, Option, none, some, List, [],
  ◌∷◌, ◌++◌, String, ok, leb, any, ◌==◌, ℕ_eq, String_eq, arith, inl, inr, OnOk, OnOk-bind,
  OnOk-raise, OnOk-if, OnOk_value, type_error, ◌⊎◌,
}
use prometheist.Attention.Resources.{Uuid}
use prometheist.Attention.Assignments.{list_eq}
use prometheist.Worker.Protocol.{
  WorkerStep, WorkerClaim, WorkerClaimStatus, abandoned, checkpointed, completed, released,
  WorkerCheckpoint, WorkerResult, worker_claim, worker_checkpoint, worker_result,
  deterministic_worker_checkpoint_id,
}
use prometheist.Worker.Store.Tables.{
  Rows, Store, find_row, update_rows, is_active, is_released, is_checkpointed, insert_row,
  results_conflict, checkpoints_conflict,
}
use prometheist.Worker.Store.Load.{
  max_worker_lease_seconds, required, lock_claim, load_step, load_result_row,
  load_checkpoint_for_claim, require_worker,
}
use prometheist.Worker.Store.Writes.{
  set_claim_status, insert_immutable_checkpoint, insert_immutable_result, same_checkpoint,
  same_result,
}
use prometheist.Worker.Store.Leases.{
  extended, Outcome, abandon, heartbeat_body, checkpoint_again, checkpoint_now, checkpoint_body,
  complete_again, complete_now, complete_or_retry, complete_body, release_body,
}
use prometheist.Worker.Store.Evolves.{Evolves-refl, AreDistinct}
use prometheist.Worker.Store.Moves.{
  Move, evolves, resolves, StepsKept-refl, Moves, stays, moves, one_move, lock_claim_row, relock,
  worker_claim_returns, set_claim_status-Move, extended-Move,
}

module _ ⦃u : Uuid⦄ (key : String) where
  -- Whatever the body returns, the tables that it leaves are moves away.
  abbrev pub Reached : {V : Type 0} → Store → Outcome V × Store → Type 0
  Reached s (o, t) = Moves key s t

  active_row :
      (row c : WorkerClaim) → worker_claim row ≡ ok c → is_active c ≡ true → is_active row ≡ true
  active_row row c h a = ground (arith, worker_claim_returns key row c h)

  module _ (claim_id : ℕ) (s : Store) (d : AreDistinct s.claims) (c : WorkerClaim)
      (locked : lock_claim key claim_id s ≡ ok c) (live : is_active c ≡ true) where
    abandon-Moves : (V : Type 0) → OnOk (Reached {V = V} s) (abandon key claim_id s)
    unfolding abandon
    abandon-Moves V =
        let (row, found, valid) = lock_claim_row key claim_id s c locked in
        OnOk-bind (Reached s) (set_claim_status key claim_id abandoned s) _ λ t h. one_move key (
          set_claim_status-Move key claim_id abandoned s t row d found (active_row row c valid live)
            h)

  pub heartbeat_body-Moves :
      (claim_id : ℕ) (worker_id : String) (lease_seconds at : ℕ) (s : Store)
      → AreDistinct s.claims
      → lease_seconds ≤ max_worker_lease_seconds
      → OnOk (Reached s) (heartbeat_body key claim_id worker_id lease_seconds at s)
  unfolding heartbeat_body
  heartbeat_body-Moves claim_id worker_id lease_seconds at s d within =
      OnOk-bind (Reached s) (lock_claim key claim_id s) _ λ c locked.
        OnOk-bind (Reached s) (require_worker c worker_id) _ λ o owned.
          OnOk-raise (Reached s) (not (is_active c)) _ _ λ running.
            OnOk-if (Reached s) (leb c.lease_expires_at at) _ _
              (λ over. abandon-Moves claim_id s d c locked (ground (arith, running)) _)
              λ fresh.
                let (row, found, valid) = lock_claim_row key claim_id s c locked in
                let next = record s {
                  claims =
                      update_rows key (λ e. e.claim_id == claim_id) (extended key at lease_seconds)
                        s.claims;
                } in
                OnOk-bind (Reached s) (lock_claim key claim_id next) _ λ updated relocked.
                  one_move key (
                    extended-Move key claim_id at lease_seconds s row d found
                      (active_row row c valid (ground (arith, running))) within)

  -- A claim that was active, closed after a write that left the claims alone.
  close-Moves :
      (claim_id : ℕ) (status : WorkerClaimStatus) (s m t : Store) (c : WorkerClaim)
      → AreDistinct s.claims
      → lock_claim key claim_id s ≡ ok c
      → is_active c ≡ true
      → m.claims ≡ s.claims
      → set_claim_status key claim_id status m ≡ ok t
      → Move key m t
  close-Moves claim_id status s m t c d locked live same h =
      let (row, found, valid) = lock_claim_row key claim_id s c locked in
      set_claim_status-Move key claim_id status m t row (subst AreDistinct (sym same) d)
        (ap (find_row key (λ (e : WorkerClaim). e.claim_id == claim_id)) same ∙ found)
        (active_row row c valid live) h

  pub release_body-Moves :
      (claim_id : ℕ) (worker_id : String) (s : Store)
      → AreDistinct s.claims
      → OnOk (Reached s) (release_body key claim_id worker_id s)
  unfolding release_body
  release_body-Moves claim_id worker_id s d =
      OnOk-bind (Reached s) (lock_claim key claim_id s) _ λ c locked.
        OnOk-bind (Reached s) (require_worker c worker_id) _ λ o owned.
          OnOk-if (Reached s) (is_released c) _ _ (λ again. stays)
            λ unreleased.
              OnOk-if (Reached s) (not (is_active c)) _ _ (λ closed. tt)
                λ running. OnOk-bind (Reached s) (set_claim_status key claim_id released s) _ λ t h.
                  OnOk-bind (Reached s) (lock_claim key claim_id t) _ λ e relocked. one_move key (
                    close-Moves claim_id released s s t c d locked (ground (arith, running)) refl h)

  -- A write that leaves the claims alone.
  abbrev Written : Store → Store → Type 0
  Written s t = Move key s t × (t.claims ≡ s.claims)

  insert_immutable_checkpoint-Move :
      (checkpoint : WorkerCheckpoint) (s : Store)
      → OnOk (Written s) (insert_immutable_checkpoint key checkpoint s)
  unfolding insert_immutable_checkpoint
  insert_immutable_checkpoint-Move checkpoint s =
      let rows = insert_row checkpoints_conflict (key, checkpoint) s.checkpoints in
      OnOk-bind (Written s)
        (required type_error (find_row key (λ c. c.checkpoint_id == checkpoint.checkpoint_id) rows))
        _
        λ row there. OnOk-bind (Written s) (worker_checkpoint row) _ λ stored valid.
          OnOk-raise (Written s) (not (same_checkpoint stored checkpoint)) _ _
            λ same. (evolves (Evolves-refl s.claims) refl (StepsKept-refl key s), refl)

  checkpoint_now-Moves :
      (c : WorkerClaim) (state : String) (output_refs : List String) (at : ℕ) (s : Store)
      → AreDistinct s.claims
      → lock_claim key c.claim_id s ≡ ok c
      → is_active c ≡ true
      → OnOk (Reached s) (checkpoint_now key c state output_refs at s)
  unfolding checkpoint_now
  checkpoint_now-Moves c state output_refs at s d locked live =
      OnOk-bind (Reached {V = WorkerCheckpoint} s)
        (deterministic_worker_checkpoint_id c.step_id (c.checkpoint_revision + 1)) _
        λ k made.
          OnOk-bind (Reached {V = WorkerCheckpoint} s) (worker_checkpoint _) _ λ checkpoint valid.
            OnOk-bind (Reached {V = WorkerCheckpoint} s)
              (insert_immutable_checkpoint key checkpoint s) _
              λ m stored.
                OnOk-bind (Reached {V = WorkerCheckpoint} s)
                  (set_claim_status key c.claim_id checkpointed m) _
                  λ t h.
                    let (first, same) =
                      OnOk_value (Written s) _ (insert_immutable_checkpoint-Move checkpoint s)
                        stored in
                    moves first (
                      one_move key
                        (close-Moves c.claim_id checkpointed s m t c d locked live same h))

  checkpoint_again-Moves :
      (claim_id : ℕ) (state : String) (output_refs : List String) (s : Store)
      → OnOk (Reached s) (checkpoint_again key claim_id state output_refs s)
  unfolding checkpoint_again
  checkpoint_again-Moves claim_id state output_refs s =
      OnOk-bind (Reached s) (load_checkpoint_for_claim key claim_id s) _ λ found loaded.
        OnOk-bind (Reached s) (required _ found) _ λ checkpoint there.
          OnOk-raise (Reached s) (not (same_checkpoint _ checkpoint)) _ _ λ same. stays

  pub checkpoint_body-Moves :
      (claim_id : ℕ) (worker_id state : String) (output_refs : List String) (at : ℕ) (s : Store)
      → AreDistinct s.claims
      → OnOk (Reached s) (checkpoint_body key claim_id worker_id state output_refs at s)
  unfolding checkpoint_body
  checkpoint_body-Moves claim_id worker_id state output_refs at s d =
      OnOk-bind (Reached s) (lock_claim key claim_id s) _ λ c locked.
        OnOk-bind (Reached s) (require_worker c worker_id) _ λ o owned.
          OnOk-if (Reached s) (is_checkpointed c) _ _
            (λ again. checkpoint_again-Moves claim_id state output_refs s)
            λ first.
              OnOk-if (Reached s) (not (is_active c)) _ _ (λ closed. tt)
                λ running.
                  OnOk-if (Reached s) (leb c.lease_expires_at at) _ _
                    (λ over. abandon-Moves claim_id s d c locked (ground (arith, running)) _)
                    λ fresh.
                      checkpoint_now-Moves c state output_refs at s d
                        (relock key claim_id s c locked) (ground (arith, running))

  insert_row-cases :
      (row : String × WorkerResult) (rows : Rows WorkerResult)
      → (insert_row results_conflict row rows ≡ rows)
        ⊎ ((any (results_conflict row) rows ≡ false)
            × (insert_row results_conflict row rows ≡ rows ++ row ∷ []))
  unfolding insert_row
  insert_row-cases row rows = ground arith

  insert_immutable_result-Move :
      (result : WorkerResult) (s : Store) → OnOk (Written s) (insert_immutable_result key result s)
  unfolding insert_immutable_result
  insert_immutable_result-Move result s =
      let rows = insert_row results_conflict (key, result) s.results in
      OnOk-bind (Written s) (load_result_row key result.step_id (record s { results = rows })) _
        λ found loaded. OnOk-bind (Written s) (required _ found) _ λ stored there.
          OnOk-raise (Written s) (not (same_result stored result)) _ _ λ same.
            elim (insert_row-cases (key, result) s.results) [
              | inl old ↦ (evolves (Evolves-refl s.claims) old (StepsKept-refl key s), refl)
              | inr (new, added) ↦ (resolves result new added refl refl, refl)
            ]

  complete_now-Moves :
      (step : WorkerStep) (c : WorkerClaim) (output : String) (output_refs : List String) (at : ℕ)
      (s : Store)
      → AreDistinct s.claims
      → lock_claim key c.claim_id s ≡ ok c
      → is_active c ≡ true
      → OnOk (Reached s) (complete_now key step c output output_refs at s)
  unfolding complete_now
  complete_now-Moves step c output output_refs at s d locked live =
      OnOk-bind (Reached s) (worker_result _) _ λ result valid.
        OnOk-bind (Reached s) (insert_immutable_result key result s) _ λ m stored.
          OnOk-bind (Reached s) (set_claim_status key c.claim_id completed m) _ λ t h.
            let (first, same) =
              OnOk_value (Written s) _ (insert_immutable_result-Move result s) stored in
            moves first
              (one_move key (close-Moves c.claim_id completed s m t c d locked live same h))

  complete_or_retry-Moves :
      (step : WorkerStep) (c : WorkerClaim) (existing : Option WorkerResult) (output : String)
      (output_refs : List String) (at : ℕ) (s : Store)
      → AreDistinct s.claims
      → lock_claim key c.claim_id s ≡ ok c
      → OnOk (Reached s) (complete_or_retry key step c existing output output_refs at s)
  unfolding complete_or_retry complete_again
  complete_or_retry-Moves step c (some existing) output output_refs at s d locked =
      OnOk-raise (Reached {V = WorkerResult} s)
        (not (existing.claim_id == c.claim_id)
          || not (existing.output == output)
          || not (list_eq (λ v w. v == w) existing.output_refs output_refs))
        _ _ λ same. stays
  complete_or_retry-Moves step c none output output_refs at s d locked =
      OnOk-if (Reached s) (not (is_active c)) _ _ (λ closed. tt)
        λ running.
          OnOk-if (Reached s) (leb c.lease_expires_at at) _ _
            (λ over. abandon-Moves c.claim_id s d c locked (ground (arith, running)) _)
            λ fresh.
              complete_now-Moves step c output output_refs at s d locked (ground (arith, running))

  pub complete_body-Moves :
      (claim_id : ℕ) (worker_id output : String) (output_refs : List String) (at : ℕ) (s : Store)
      → AreDistinct s.claims
      → OnOk (Reached s) (complete_body key claim_id worker_id output output_refs at s)
  unfolding complete_body
  complete_body-Moves claim_id worker_id output output_refs at s d =
      OnOk-bind (Reached s) (lock_claim key claim_id s) _ λ c locked.
        OnOk-bind (Reached s) (require_worker c worker_id) _ λ o owned.
          OnOk-bind (Reached s) (load_step key c.step_id s) _ λ step loaded.
            OnOk-bind (Reached s) (load_result_row key c.step_id s) _ λ existing read.
              complete_or_retry-Moves step c existing output output_refs at s d
                (relock key claim_id s c locked)

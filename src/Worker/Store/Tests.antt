-- ===== src/Worker/Store/Tests.antt =====
-- Runs of the store on the samples, and the theorems about it at them.
use prometheist.Base.{
  All, ◌++◌, ◌⊎◌, err, worker_protocol_error, ok, ℕ, ◌≡◌, refl, some, [], ◌∷◌, no_duplicates, keep,
  sum_of, sorted_by, strip, decimal, map, any, is_subset,
}
use prometheist.Attention.Resources.{admissible_capacity}
use prometheist.Attention.Assignments.{list_eq}
use prometheist.Worker.Protocol.{
  no_external_effect, at_most_once, step_uuid, claim_uuid, WorkerClaim,
}
use prometheist.Worker.Store.Leases.{complete_worker_claim}
use prometheist.Worker.Store.Tables.{find_rows, max_of}
use prometheist.Worker.Store.Writes.{insert_claim}
use prometheist.Worker.Store.Claiming.{guarded_claim_worker_step, read_for_claim}
use prometheist.Worker.Store.Inserted.{Fits, next_lease, read_for_claim-insert_claim}
use prometheist.Worker.Store.Runs.{AreBounded, perform_all, perform_all-AreBounded}
use prometheist.Worker.Store.Published.{published, PublishesAll, perform_all-PublishesAll}
use prometheist.Worker.Store.Authorized.{Authorized, swept}
use prometheist.Worker.Store.HandedOut.{guarded_claim_worker_step-Authorized}
use prometheist.Worker.Store.Calls.{Call, heartbeats, perform}
use prometheist.Worker.Store.Raises.{raised, LeaseExpired, Closes, perform-raised}
use prometheist.Worker.Store.Retries.{complete_worker_claim_again}
use prometheist.Worker.Store.AtMostOnce.{IsStuck, perform_all-IsStuck}
use prometheist.Worker.Store.Samples.{
  code_sum, toy_uuid, leased, id1, policy, snapshot_json, claim_json, waiting, claim_call, reserved,
}
use prometheist.Worker.Store.Histories.{
  history, after_history, lost, stuck, stuck-IsStuck, attempted, answered, finished, seen_half,
  offered_half, attempted_half, run_out, reading_half, closed,
}

grant_test :
    map {B = ℕ × ℕ}
      (λ row. (row.1.attempt, row.1.lease_expires_at))
      (after_history no_external_effect).claims
    ≡ (1, 60000200) ∷ []
unfolding perform_all code_sum strip no_duplicates any sorted_by is_subset sum_of keep decimal
grant_test = refl

complete_test :
    map {B = ℕ × ℕ}
      (λ row. (row.1.claim_id, row.1.completed_at))
      (after_history no_external_effect).results
    ≡ (id1, 400) ∷ []
unfolding perform_all code_sum strip no_duplicates any sorted_by is_subset sum_of keep decimal
complete_test = refl

perform_all-AreBounded_example : AreBounded (after_history no_external_effect).claims
perform_all-AreBounded_example =
    perform_all-AreBounded snapshot_json claim_json policy history (waiting no_external_effect) tt
      tt

perform_all-PublishesAll_example :
    PublishesAll
      (published (waiting no_external_effect))
      (published (after_history no_external_effect))
perform_all-PublishesAll_example =
    perform_all-PublishesAll snapshot_json claim_json policy history (waiting no_external_effect) tt

perform_all-IsStuck_example :
    IsStuck "main"
      (step_uuid 5 "answer")
      lost
      (1 ∷ [])
      (perform_all snapshot_json claim_json policy history stuck)
perform_all-IsStuck_example =
    perform_all-IsStuck snapshot_json claim_json policy history stuck "main" (step_uuid 5 "answer")
      lost (1 ∷ []) (tt, tt) stuck-IsStuck

attempt_test :
    (guarded_claim_worker_step snapshot_json claim_json policy "main"
      (claim_call 100)
      (waiting no_external_effect)).0
    ≡ ok attempted
unfolding guarded_claim_worker_step code_sum strip no_duplicates any sorted_by is_subset sum_of keep
    decimal
attempt_test = refl

-- The same with a reservation of the processor.
reserved_test :
    (guarded_claim_worker_step snapshot_json claim_json policy "main" (claim_call 100) reserved).0
    ≡ ok attempted_half
unfolding guarded_claim_worker_step code_sum strip no_duplicates any sorted_by is_subset sum_of keep
    decimal admissible_capacity
reserved_test = refl

guarded_claim_worker_step-Authorized_example :
    Authorized "main" (claim_call 100) (swept (claim_call 100) reserved) seen_half offered_half
guarded_claim_worker_step-Authorized_example =
    guarded_claim_worker_step-Authorized snapshot_json claim_json policy "main" (claim_call 100)
      reserved attempted_half offered_half reserved_test refl

reading_test :
    read_for_claim snapshot_json claim_json policy "main" (claim_call 40000000) run_out
    ≡ ok (reading_half, closed)
unfolding read_for_claim code_sum strip no_duplicates any sorted_by is_subset sum_of keep decimal
    admissible_capacity
reading_test = refl

abbrev second : WorkerClaim
second =
    next_lease snapshot_json claim_json policy "main" (claim_call 40000000) reading_half closed 3
      (claim_uuid (step_uuid 5 "answer") 2)

abbrev second-Fits : All (Fits "main" second) run_out.claims
unfolding code_sum strip find_rows max_of decimal
second-Fits = (λ own. (refl, λ same. refl), tt)

read_for_claim-insert_claim_example :
    insert_claim "main" second closed
    ≡ ok (record closed { claims = closed.claims ++ ("main", second) ∷ [] })
read_for_claim-insert_claim_example =
    read_for_claim-insert_claim snapshot_json claim_json policy "main" (claim_call 40000000) run_out
      closed reading_half 3 (claim_uuid (step_uuid 5 "answer") 2) [] reading_test refl second-Fits

completion_test :
    complete_worker_claim "main" id1 "w1" "{}" (" artifact" ∷ []) 400 (leased at_most_once)
    ≡ (ok answered, finished)
unfolding complete_worker_claim code_sum strip no_duplicates any sorted_by is_subset sum_of keep
    decimal
completion_test = refl

-- The same call again, with the reference as it was written the first time.
complete_worker_claim_again_example :
    complete_worker_claim "main" id1 "w1" "{}" (" artifact" ∷ []) 500 finished
    ≡ (err (worker_protocol_error "conflicting worker result retry"), finished)
unfolding list_eq
complete_worker_claim_again_example =
    complete_worker_claim_again "main" id1 "w1" "{}" (" artifact" ∷ []) (" artifact" ∷ []) 400 500
      (leased at_most_once) finished answered completion_test

-- A sign of life at the instant at which the lease ends.
abbrev too_late : Call
too_late = heartbeats id1 "w1" 60 30000010

late_test :
    raised snapshot_json claim_json policy "main" too_late (leased no_external_effect)
    ≡ some (worker_protocol_error "worker claim lease has expired")
unfolding raised code_sum strip decimal
late_test = refl

perform-raised_example :
    (perform snapshot_json claim_json policy "main" too_late (leased no_external_effect)
      ≡ leased no_external_effect)
    ⊎ (LeaseExpired (worker_protocol_error "worker claim lease has expired")
        × Closes snapshot_json claim_json policy "main" too_late
            (leased no_external_effect)
            (perform snapshot_json claim_json policy "main" too_late (leased no_external_effect)))
perform-raised_example =
    perform-raised snapshot_json claim_json policy "main" too_late (leased no_external_effect)
      (worker_protocol_error "worker claim lease has expired") late_test

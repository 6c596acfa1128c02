-- ===== src/Worker/Store/Settling.antt =====
-- What a result that is stored and a status that is set leave in the tables.
use prometheist.Base.{
  ℕ, ◌≡◌, refl, ap, ◌∙◌, Bool, true, not, ◌&&◌, Option, none, some, List, [], ◌∷◌, String, Error,
  ok, worker_protocol_error, nat_eq, ◌==◌, ℕ_eq, String_eq, arith, Bool-cases, inl, inr, OnOk,
  OnOk-bind, OnOk-raise, ok-injective,
}
use prometheist.Attention.Resources.{Uuid}
use prometheist.Attention.Assignments.{list_eq}
use prometheist.Worker.Protocol.{
  WorkerClaim, WorkerClaimStatus, WorkerResult, worker_claim, worker_result,
}
use prometheist.Worker.Store.Tables.{
  Rows, Store, find_row, update_rows, count_rows, insert_row, results_conflict,
}
use prometheist.Worker.Store.Load.{lock_claim, load_step, load_result_row, required}
use prometheist.Worker.Store.Writes.{
  texts_eq, set_claim_status, insert_immutable_result, same_result,
}
use prometheist.Worker.Store.Moves.{worker_claim_returns, find_row_holds, lock_claim_row}

-- The row of a claim whose status was set.
find_row-update_rows :
    (key : String) (claim_id : ℕ) (status : WorkerClaimStatus) (xs : Rows WorkerClaim)
    (row : WorkerClaim)
    → find_row key (λ c. c.claim_id == claim_id) xs ≡ some row
    → find_row key
        (λ c. c.claim_id == claim_id)
        (update_rows key (λ c. c.claim_id == claim_id) (λ c. record c { status = status }) xs)
      ≡ some (record row { status = status })
unfolding find_row update_rows
find_row-update_rows key claim_id status [] row h = absurd (cc h)
find_row-update_rows key claim_id status ((k, c) ∷ xs) row h =
    elim (Bool-cases (k == key && c.claim_id == claim_id)) [
      | inl e ↦
          let same : c ≡ row = cc (rw e at h) in
          rw e (rw e (ap (λ (n : WorkerClaim). some (record n { status = status })) same))
      | inr e ↦ rw e (rw e (find_row-update_rows key claim_id status xs row (rw e at h)))
    ]

module _ ⦃u : Uuid⦄ (key : String) where
  worker_claim_at :
      (status : WorkerClaimStatus) (row c : WorkerClaim)
      → worker_claim row ≡ ok c
      → worker_claim (record row { status = status }) ≡ ok (record c { status = status })
  unfolding worker_claim
  worker_claim_at status row c h = ground (arith, h)

  texts_eq_sound : (vs ws : List String) → texts_eq vs ws ≡ true → vs ≡ ws
  unfolding list_eq
  texts_eq_sound [] [] h = refl
  texts_eq_sound [] (w ∷ ws) h = absurd (cc h)
  texts_eq_sound (v ∷ vs) [] h = absurd (cc h)
  texts_eq_sound (v ∷ vs) (w ∷ ws) h =
      ground (arith, h, String_eq.beq_iff v w, texts_eq_sound vs ws)

  both_hold : (a b : Bool) → (a && b) ≡ true → (a ≡ true) × (b ≡ true)
  both_hold a b h = ground (arith, h)

  same_result_sound : (r n : WorkerResult) → same_result r n ≡ true → r ≡ n
  unfolding same_result list_eq
  same_result_sound r n h =
      let (h6, k) = both_hold _ _ h in
      let (h5, g) = both_hold _ _ h6 in
      let (h4, f) = both_hold _ _ h5 in
      let (h3, e) = both_hold _ _ h4 in
      let (h2, d) = both_hold _ _ h3 in
      let (h1, c) = both_hold _ _ h2 in
      let (a, b) = both_hold _ _ h1 in
      let p1 = (ℕ_eq.beq_iff r.result_id n.result_id).0 a in
      let p2 = (ℕ_eq.beq_iff r.step_id n.step_id).0 b in
      let p3 = (ℕ_eq.beq_iff r.claim_id n.claim_id).0 c in
      let p4 = (ℕ_eq.beq_iff r.checkpoint_revision n.checkpoint_revision).0 d in
      let p5 = (String_eq.beq_iff r.idempotency_key n.idempotency_key).0 e in
      let p6 = (String_eq.beq_iff r.output n.output).0 f in
      let p7 = texts_eq_sound r.output_refs n.output_refs g in
      let p8 = (ℕ_eq.beq_iff r.completed_at n.completed_at).0 k in
      λ i. record {
        result_id = p1 i;
        step_id = p2 i;
        claim_id = p3 i;
        checkpoint_revision = p4 i;
        idempotency_key = p5 i;
        output = p6 i;
        output_refs = p7 i;
        completed_at = p8 i;
      }

  required-some :
      (e : Error) (found : Option WorkerResult) (r : WorkerResult)
      → required e found ≡ ok r
      → found ≡ some r
  required-some e none r h = absurd (cc h)
  required-some e (some v) r h = ap (λ (n : WorkerResult). some n) (ok-injective h)

  pub worker_result_returns :
      (row r : WorkerResult)
      → worker_result row ≡ ok r
      → (r.step_id ≡ row.step_id) × (r.claim_id ≡ row.claim_id) × (r.output ≡ row.output)
  unfolding worker_result
  worker_result_returns row r h = ground (arith, h)

  -- A result that is stored stands in the row of its step.
  pub insert_immutable_result_loads :
      (result : WorkerResult) (s : Store)
      → OnOk
          (λ m.
            (m.claims ≡ s.claims)
            × (m.steps ≡ s.steps)
            × (load_result_row key result.step_id m ≡ ok (some result)))
          (insert_immutable_result key result s)
  unfolding insert_immutable_result
  insert_immutable_result_loads result s =
      let P : Store → Type 0 = λ m.
        (m.claims ≡ s.claims)
        × (m.steps ≡ s.steps)
        × (load_result_row key result.step_id m ≡ ok (some result)) in
      let m = record s { results = insert_row results_conflict (key, result) s.results } in
      OnOk-bind P (load_result_row key result.step_id m) _ λ found loaded.
        OnOk-bind P (required (worker_protocol_error "conflicting immutable worker result") found) _
          λ stored there. OnOk-raise P (not (same_result stored result)) _ _ λ fits.
            let same : stored ≡ result = same_result_sound stored result (ground (arith, fits)) in
            (
              refl,
              refl,
              loaded
                  ∙ ap (λ (o : Option WorkerResult). ok o)
                      (required-some _ found stored there ∙ ap (λ (n : WorkerResult). some n) same),
            )

  pub same_id :
      (claim_id : ℕ) (s : Store) (c : WorkerClaim)
      → lock_claim key claim_id s ≡ ok c
      → c.claim_id ≡ claim_id
  same_id claim_id s c h =
      let (row, found, valid) = lock_claim_row key claim_id s c h in
      (worker_claim_returns key row c valid).1
      ∙ (ℕ_eq.beq_iff row.claim_id claim_id).0
          (find_row_holds key (λ d. d.claim_id == claim_id) s.claims row found)

  -- A claim whose status was set is locked with the new one, and nothing else has changed.
  pub set_status :
      (claim_id : ℕ) (status : WorkerClaimStatus) (m : Store) (row c : WorkerClaim)
      → find_row key (λ d. d.claim_id == claim_id) m.claims ≡ some row
      → worker_claim row ≡ ok c
      → OnOk
          (λ t.
            (lock_claim key claim_id t ≡ ok (record c { status = status }))
            × (t.steps ≡ m.steps)
            × (t.results ≡ m.results))
          (set_claim_status key claim_id status m)
  unfolding set_claim_status lock_claim
  set_status claim_id status m row c found valid =
      OnOk-raise
        (λ t.
          (lock_claim key claim_id t ≡ ok (record c { status = status }))
          × (t.steps ≡ m.steps)
          × (t.results ≡ m.results))
        (not (nat_eq (count_rows key (λ (c : WorkerClaim). c.claim_id == claim_id) m.claims) 1)) _ _
        λ one. (
          rw (find_row-update_rows key claim_id status m.claims row found)
              (worker_claim_at status row c valid),
          refl,
          refl,
        )

  pub load_step_same :
      (k : ℕ) (s t : Store) → t.steps ≡ s.steps → load_step key k t ≡ load_step key k s
  unfolding load_step
  load_step_same k s t e = rw e refl

  pub load_result_row_same :
      (k : ℕ) (s t : Store)
      → t.results ≡ s.results
      → load_result_row key k t ≡ load_result_row key k s
  unfolding load_result_row
  load_result_row_same k s t e = rw e refl
